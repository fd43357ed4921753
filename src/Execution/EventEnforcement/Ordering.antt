-- ===== src/Execution/EventEnforcement/Ordering.antt =====
-- The numbers that packages/runtime/src/execution/EventOrderingEnforcer.ts lets through, and what the
-- wrapper does around them.
use sovr_protocol.Prelude.{
  ℕ, zero, suc, ◌+◌, ◌≡◌, refl, ap, ◌∙◌, String, Bool, true, false, not, ◌&&◌, Option, none, some,
  List, [], ◌∷◌, arith, ◌==◌, eq_iff, length, or_default, Bool-cases, if◌then◌else◌, inl, inr,
}
use sovr_protocol.Prelude.Int.{ℤ, pos, negsuc}
use sovr_protocol.Prelude.Maps.{Map, lookup, lookup-insert}
use sovr_protocol.Prelude.Result.{Result, ok, err}
use sovr_protocol.Prelude.Value.{Value, is_nullish}
use sovr_protocol.Prelude.Text.{text_of}
use sovr_protocol.Execution.EventEnforcement.{
  to_integer, stream_of, sequence_of, ordered, numbered, enforce_audit, enforce_ordering, violation,
  inner_error, AppendError, passed_on, append,
}

abbrev pub last : Map ℕ → String → ℕ
last tracker k = or_default (lookup k tracker) 0

-- The event carries a number in the stream `k`.
abbrev pub carries : String → Value → Bool
carries k event = not (is_nullish (sequence_of event)) && (text_of (stream_of event) == k)

abbrev whole : Option ℤ → ℕ
whole (some (pos n)) = n
whole _ = 0

abbrev pub number_of : (String → Option ℤ) → Value → ℕ
number_of number event = whole (to_integer number (sequence_of event))

-- The numbers of the events that are let through in the stream `k`, in order, and the tracker behind them.
unfoldable pub accepted : (String → Option ℤ) → String → Map ℕ → List Value → List ℕ
accepted number k tracker [] = []
accepted number k tracker (e ∷ es) =
    let (r, advanced) = enforce_ordering number tracker e in
    let rest = accepted number k advanced es in
    if r.allowed && carries k e then number_of number e ∷ rest else rest

unfoldable pub track : (String → Option ℤ) → Map ℕ → List Value → Map ℕ
track number tracker [] = tracker
track number tracker (e ∷ es) = track number (enforce_ordering number tracker e).1 es

-- n, n + 1, …, as many as are asked for.
abbrev pub count_from : ℕ → ℕ → List ℕ
count_from n zero = []
count_from n (suc m) = n ∷ count_from (suc n) m

ordered-last :
    (tracker : Map ℕ) (stream k : String) (found : Option ℕ) (n : ℕ)
    → found ≡ lookup stream tracker
    → let out = ordered tracker stream found n in
      (last out.1 k
        ≡ (if out.0.allowed && (stream == k) then suc (last tracker k) else last tracker k))
      × (out.0.allowed ≡ true → n ≡ suc (last tracker stream))
ordered-last tracker stream k none n h = (
  ground (arith, h, eq_iff stream k, lookup-insert stream k n tracker),
  λ a. ground (arith, h, a),
)
ordered-last tracker stream k (some m) n h = (
  ground (arith, h, eq_iff stream k, lookup-insert stream k n tracker),
  λ a. ground (arith, h, a),
)

numbered-last :
    (tracker : Map ℕ) (stream k : String) (raw : Value) (n : Option ℤ)
    → let out = numbered tracker stream raw n in
      (last out.1 k
        ≡ (if out.0.allowed && (stream == k) then suc (last tracker k) else last tracker k))
      × (out.0.allowed ≡ true → whole n ≡ suc (last tracker stream))
numbered-last tracker stream k raw none = (refl, λ a. cc)
numbered-last tracker stream k raw (some (negsuc m)) = (refl, λ a. cc)
numbered-last tracker stream k raw (some (pos zero)) = (refl, λ a. cc)
numbered-last tracker stream k raw (some (pos (suc n))) =
    ordered-last tracker stream k (lookup stream tracker) (suc n) refl

enforce_ordering-last :
    (number : String → Option ℤ) (tracker : Map ℕ) (k : String) (e : Value)
    → let out = enforce_ordering number tracker e in
      (last out.1 k
        ≡ (if out.0.allowed && carries k e then suc (last tracker k) else last tracker k))
      × ((out.0.allowed && carries k e) ≡ true → number_of number e ≡ suc (last tracker k))
unfolding enforce_ordering
enforce_ordering-last number tracker k e =
    let stream = text_of (stream_of e) in
    let (at, counted) =
      numbered-last tracker stream k (sequence_of e) (to_integer number (sequence_of e)) in
    (ground (arith, at), λ a. ground (arith, counted, a, eq_iff stream k))

-- Whatever events are offered, and however many are refused, the events that are let through in one
-- stream carry the numbers that follow the last one, one after another, without a gap and without a
-- repetition; and the tracker stands at the last of them.
pub accepted-count_from :
    (number : String → Option ℤ) (k : String) (tracker : Map ℕ) (events : List Value)
    → let ns = accepted number k tracker events in
      (ns ≡ count_from (suc (last tracker k)) (length ns))
      × (last (track number tracker events) k ≡ last tracker k + length ns)
unfolding accepted track
accepted-count_from number k tracker [] = (refl, omega arith)
accepted-count_from number k tracker (e ∷ es) =
    let out = enforce_ordering number tracker e in
    let (at, counted) = enforce_ordering-last number tracker k e in
    let (consecutive, reached) = accepted-count_from number k out.1 es in
    elim (Bool-cases (out.0.allowed && carries k e)) [
      | inl c ↦ (ground (arith, c, at, counted c, consecutive), ground (arith, c, at, reached))
      | inr c ↦ (ground (arith, c, at, consecutive), ground (arith, c, at, reached))
    ]

ordered_refused :
    (tracker : Map ℕ) (stream : String) (found : Option ℕ) (n : ℕ)
    → let out = ordered tracker stream found n in out.0.allowed ≡ false → out.1 ≡ tracker
ordered_refused tracker stream none n h = ground (arith, h)
ordered_refused tracker stream (some m) n h = ground (arith, h)

numbered_refused :
    (tracker : Map ℕ) (stream : String) (raw : Value) (n : Option ℤ)
    → let out = numbered tracker stream raw n in out.0.allowed ≡ false → out.1 ≡ tracker
numbered_refused tracker stream raw none h = refl
numbered_refused tracker stream raw (some (negsuc m)) h = refl
numbered_refused tracker stream raw (some (pos zero)) h = refl
numbered_refused tracker stream raw (some (pos (suc n))) h =
    ordered_refused tracker stream (lookup stream tracker) (suc n) h

enforce_ordering_refused :
    (number : String → Option ℤ) (tracker : Map ℕ) (e : Value)
    → let out = enforce_ordering number tracker e in out.0.allowed ≡ false → out.1 ≡ tracker
unfolding enforce_ordering
enforce_ordering_refused number tracker e h = ground (
  arith,
  h,
  numbered_refused tracker (text_of (stream_of e)) (sequence_of e)
      (to_integer number (sequence_of e)),
)

passed_on_lem :
    {E A S : Type 0} (tracker : Map ℕ) (out : Result E A × S) → (passed_on tracker out).1 ≡ tracker
passed_on_lem tracker (ok a, s) = refl
passed_on_lem tracker (err x, s) = refl

clash :
    {E A : Type 0} {i r : String} {x : E} {o : Result (AppendError E) A}
    → o ≡ err (violation i r)
    → o ≡ err (inner_error x)
    → ⊥
clash e f = cc

module _ {E A S : Type 0} (inner : S → Value → Result E A × S) where
  -- An event that one of the two checks refuses is answered with a violation, and leaves the tracker
  -- and the wrapped store as they were; every other event is handed to the wrapped store, once.
  pub append_guards :
      (self_reference : Bool) (number : String → Option ℤ) (tracker : Map ℕ) (s : S) (e : Value)
      → let audit = enforce_audit self_reference e in
        let order = enforce_ordering number tracker e in
        let out = append inner self_reference number tracker s e in
        (((audit.allowed && order.0.allowed) ≡ false)
          → (out.1 ≡ tracker)
            × (out.2 ≡ s)
            × ((invariant : String) × (reason : String) × (out.0
                  ≡ err (violation invariant reason))))
        × (((audit.allowed && order.0.allowed) ≡ true) → out ≡ passed_on order.1 (inner s e))
  unfolding append
  append_guards self_reference number tracker s e =
      let audit = enforce_audit self_reference e in
      let order = enforce_ordering number tracker e in
      (
        (λ h. elim (Bool-cases audit.allowed) [
          | inl a ↦
              let refused : order.0.allowed ≡ false = ground (arith, a, h) in
              (
                ground (arith, a, refused, enforce_ordering_refused number tracker e refused),
                ground (arith, a, refused),
                (
                  "INV-007",
                  or_default order.0.reason "Event ordering violation",
                  ground (arith, a, refused),
                ),
              )
          | inr a ↦ (
            ground (arith, a),
            ground (arith, a),
            ("INV-005", or_default audit.reason "Audit trail incomplete", ground (arith, a)),
          )
        ]),
        (λ h. ground (arith, h)),
      )

  -- The number of an event is taken before the wrapped store writes: when the store fails on an
  -- event with a number in its stream, the next attempt with the same event is refused, whatever the
  -- store would say.
  pub append_burns :
      (self_reference : Bool) (number : String → Option ℤ) (tracker : Map ℕ) (s : S) (e : Value)
      {x : E}
      → carries (text_of (stream_of e)) e ≡ true
      → let out = append inner self_reference number tracker s e in
        out.0 ≡ err (inner_error x)
        → (s' : S)
        → (invariant : String) × (reason : String) × ((append inner self_reference number out.1 s'
              e).0
            ≡ err (violation invariant reason))
  append_burns self_reference number tracker s e {x} c failed s' =
      let audit = enforce_audit self_reference e in
      let order = enforce_ordering number tracker e in
      let stream = text_of (stream_of e) in
      let (refused, handed) = append_guards self_reference number tracker s e in
      let (at, counted) = enforce_ordering-last number tracker stream e in
      elim (Bool-cases (audit.allowed && order.0.allowed)) [
        | inr h ↦ let (kept, same, thrown) = refused h in absurd (clash thrown.2 failed)
        | inl h ↦
            let advanced : (append inner self_reference number tracker s e).1 ≡ order.1 =
              ap (λ o. o.1) (handed h) ∙ passed_on_lem order.1 (inner s e) in
            let (again, numbered_again) = enforce_ordering-last number order.1 stream e in
            let closed : (audit.allowed && (enforce_ordering number order.1 e).0.allowed) ≡ false =
              ground (arith, h, c, at, counted, again, numbered_again) in
            let (kept, same, thrown) =
              (append_guards self_reference number order.1 s' e).0 closed in
            rw advanced thrown
      ]
