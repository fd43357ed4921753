-- ===== src/Execution/GateEvaluators/Amounts.antt =====
-- The gates on money of packages/runtime/src/execution/GateEvaluators, alone and in a chain.
use Prim.Native.String.{◌++◌ as join}
use mathlib.Core.List.{Memᴰ}
use sovr_protocol.Prelude.{
  ◌≡◌, ◌↔◌, refl, String, Bool, true, false, Option, none, some, List, [], ◌∷◌, arith, find_first,
  Option-cases, inl, inr,
}
use sovr_protocol.Prelude.Int.{ℤ, pos, ◌≤ℤ◌, leb_ℤ}
use sovr_protocol.Prelude.Maps.{Map, lookup}
use sovr_protocol.Prelude.Result.{Result, ok, err, ◌>>=◌}
use sovr_protocol.Prelude.Value.{Value, get}
use sovr_protocol.Prelude.Text.{text_of}
use sovr_protocol.Execution.ExecutionGates.{
  Evaluation, Evaluator, GateCheckInput, GateDefinition, caught, check,
}
use sovr_protocol.Execution.ExecutionGates.Chain.{evaluation, blocks, check_evaluates}
use sovr_protocol.Execution.GateEvaluators.{
  failing, extract_string, at_key, present, within_limit, amount_within_limit, to_big_int, covered,
  balance_of, balance_sufficient,
}

-- The account of the payload has a balance that is at least the positive amount of the payload.
pub record IsFunded (big_int : String → Result String ℤ)
    (get_balance : String → Result String (Option ℤ)) (payload config : Value) : Type 0 where
  pub account : String
  pub text : String
  pub amount : ℤ
  pub balance : ℤ
  pub account_given :
      present (extract_string (at_key payload config "accountPayloadKey")) ≡ some account
  pub amount_given : present (extract_string (at_key payload config "amountPayloadKey")) ≡ some text
  pub parsed : big_int text ≡ ok amount
  pub held : get_balance account ≡ ok (some balance)
  pub positive : pos 1 ≤ℤ amount
  pub enough : amount ≤ℤ balance

covered_passed :
    (account : String) (amount : ℤ) (b : Result String (Option ℤ)) {r : Evaluation}
    → (b >>= λ balance. ok (covered account amount balance)) ≡ ok r
    → r.passed ≡ true
    → (balance : ℤ) × (b ≡ ok (some balance)) × (amount ≤ℤ balance)
covered_passed account amount (err x) h p = cc
covered_passed account amount (ok none) h p = ground (arith, h, p)
covered_passed account amount (ok (some balance)) h p = (balance, refl, ground (arith, h, p))

balance_of_passed :
    (get_balance : String → Result String (Option ℤ)) (account text : String) (a : Result String ℤ)
    {r : Evaluation}
    → balance_of get_balance account text a ≡ ok r
    → r.passed ≡ true
    → (amount : ℤ) × (balance : ℤ) × (a ≡ ok amount)
      × (get_balance account ≡ ok (some balance))
      × (pos 1 ≤ℤ amount)
      × (amount ≤ℤ balance)
balance_of_passed get_balance account text (err x) h p = ground (arith, h, p)
balance_of_passed get_balance account text (ok amount) {r} h p =
    let positive : leb_ℤ amount (pos 0) ≡ false = ground (arith, h, p) in
    let (balance, held, enough) =
      covered_passed account amount (get_balance account) {r = r} (ground (arith, positive, h)) p in
    (amount, balance, refl, held, ground (arith, positive), enough)

-- A balance gate that passes means that the payload names an account and a positive amount, and that
-- the account's balance is at least that amount.
pub balance_sufficient-IsFunded :
    (big_int : String → Result String ℤ) (get_balance : String → Result String (Option ℤ))
    (aggregate_id actor_id : String) (payload config : Value) {r : Evaluation}
    → balance_sufficient big_int get_balance aggregate_id actor_id payload config ≡ ok r
    → r.passed ≡ true
    → IsFunded big_int get_balance payload config
unfolding balance_sufficient
balance_sufficient-IsFunded big_int get_balance aggregate_id actor_id payload config {r} h p =
    elim (Option-cases (present (extract_string (at_key payload config "accountPayloadKey")))) [
      | inl e ↦ ground (arith, e, h, p)
      | inr (account, e) ↦
          elim (Option-cases
            (present (extract_string (at_key payload config "amountPayloadKey")))) [
              | inl f ↦ ground (arith, e, f, h, p)
              | inr (text, f) ↦
                  let (amount, balance, parsed, held, positive, enough) =
                    balance_of_passed get_balance account text (big_int text) {r = r}
                      (ground (arith, e, f, h)) p in
                  record {
                    account = account;
                    text = text;
                    amount = amount;
                    balance = balance;
                    account_given = e;
                    amount_given = f;
                    parsed = parsed;
                    held = held;
                    positive = positive;
                    enough = enough;
                  }
            ]
    ]

caught_passed :
    (m : Result String Evaluation)
    → (caught m).passed ≡ true
    → (r : Evaluation) × (m ≡ ok r) × (r.passed ≡ true)
caught_passed (ok r) p = (r, refl, p)
caught_passed (err x) p = cc

none_found :
    (p : GateDefinition → Bool) (gs : List GateDefinition) {g : GateDefinition}
    → find_first p gs ≡ none
    → Memᴰ g gs
    → p g ≡ false
unfolding find_first
none_found p [] h m = elim m [ ]
none_found p (x ∷ gs) h (Memᴰ.head e) = ground (arith, h, e)
none_found p (x ∷ gs) {g} h (Memᴰ.tail m) = none_found p gs {g = g} (ground (arith, h)) m

within_limit_passed :
    (a l : Result String ℤ) (text currency : String)
    → (within_limit a l text currency).passed ≡ true
    → (amount : ℤ) × (limit : ℤ) × (a ≡ ok amount)
      × (l ≡ ok limit)
      × (pos 1 ≤ℤ amount)
      × (amount ≤ℤ limit)
within_limit_passed (ok amount) (ok limit) text currency p =
    (amount, limit, refl, refl, ground (arith, p), ground (arith, p))
within_limit_passed (ok amount) (err x) text currency p = cc
within_limit_passed (err x) l text currency p = cc

within_limit_passes :
    {a l : Result String ℤ} (text currency : String) (amount limit : ℤ)
    → a ≡ ok amount
    → l ≡ ok limit
    → pos 1 ≤ℤ amount
    → amount ≤ℤ limit
    → (within_limit a l text currency).passed ≡ true
within_limit_passes text currency amount limit e f positive below =
    rw (e, f) (ground (arith, positive, below))

-- The gate on an amount passes exactly when the payload has an amount, it and the configured
-- maximum are numbers, and it is positive and not above the maximum; the gate never throws.
pub amount_within_limit_iff :
    (big_int : String → Result String ℤ) (aggregate_id actor_id : String) (payload config : Value)
    → (r : Evaluation) × (amount_within_limit big_int aggregate_id actor_id payload config ≡ ok r)
      × ((r.passed ≡ true) ↔ (
          (text : String) × (amount : ℤ) × (limit : ℤ) × (extract_string
              (at_key payload config "amountPayloadKey")
            ≡ some text)
          × (big_int text ≡ ok amount)
          × (to_big_int big_int (get config "maxAmount") ≡ ok limit)
          × (pos 1 ≤ℤ amount)
          × (amount ≤ℤ limit)))
unfolding amount_within_limit
amount_within_limit_iff big_int aggregate_id actor_id payload config =
    let limit_given = to_big_int big_int (get config "maxAmount") in
    let currency = text_of (get config "currency") in
    elim (Option-cases (extract_string (at_key payload config "amountPayloadKey"))) [
      | inl e ↦ (
        failing (
            join "Amount not found at payload key '"
              (join (text_of (get config "amountPayloadKey")) "'")),
        rw e refl,
        ((λ p. cc), (λ (text, amount, limit, f, g, h, positive, below). ground (arith, e, f))),
      )
      | inr (text, e) ↦ (
        within_limit (big_int text) limit_given text currency,
        rw e refl,
        (
          (λ p.
              let (amount, limit, f, g, positive, below) =
                within_limit_passed (big_int text) limit_given text currency p in
              (text, amount, limit, e, f, g, positive, below)),
          (λ (t, amount, limit, f, g, h, positive, below).
              within_limit_passes text currency amount limit (ground (arith, e, f, g)) h positive
                below),
        ),
      )
    ]

-- A command that passes its gates, one of which is a fatal balance gate with the balance evaluator
-- behind it, names an account and a positive amount that the account's balance covers.
pub check-IsFunded :
    (big_int : String → Result String ℤ) (get_balance : String → Result String (Option ℤ))
    (evaluators : Map Evaluator) (input : GateCheckInput) (g : GateDefinition)
    → lookup "BALANCE_SUFFICIENT" evaluators ≡ some (balance_sufficient big_int get_balance)
    → Memᴰ g input.gates
    → g.gate_type ≡ "BALANCE_SUFFICIENT"
    → g.fatal ≡ true
    → (check evaluators input).0.passed ≡ true
    → IsFunded big_int get_balance input.payload g.config
unfolding blocks evaluation
check-IsFunded big_int get_balance evaluators input g registered m type fatal passed =
    let (evaluated, failure, result) = check_evaluates evaluators input in
    let clear : find_first (blocks evaluators input) input.gates ≡ none =
      ground
        (arith, result, passed, Option-cases (find_first (blocks evaluators input) input.gates)) in
    let open_ = none_found (blocks evaluators input) input.gates {g = g} clear m in
    let (r, answer, ok_) =
      caught_passed
        (balance_sufficient big_int get_balance input.aggregate_id input.actor_id input.payload
          g.config)
        (ground (arith, open_, fatal, type, registered)) in
    balance_sufficient-IsFunded big_int get_balance input.aggregate_id input.actor_id input.payload
      g.config {r = r} answer ok_
