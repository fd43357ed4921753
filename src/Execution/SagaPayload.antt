-- ===== src/Execution/SagaPayload.antt =====
-- packages/runtime/src/execution/saga-payload-mapper.ts: the payload of a step, from the mapping in its
-- definition. `Number` on a text, the default expiration and the amount that a simulated failure
-- writes are parameters. An array has its elements and a
-- text its characters, by their indexes, which are counted in ASCII, and both have a length; they have no other key.
use Prim.Native.String.{◌++◌ as join, slice, len, find}
use sovr_protocol.Prelude.{
  ℕ, zero, suc, ◌+◌, ◌*◌, ◌≡◌, refl, String, Bool, false, not, ◌||◌, Option, none, some, List, [],
  ◌∷◌, ◌==◌, ltb, leb, eqb, select, find_first, if◌then◌else◌,
}
use sovr_protocol.Prelude.Int.{pos}
use sovr_protocol.Prelude.Value.{
  Value, undefined, null, bool, num, frac, str, arr, obj, Items, nil, cons, Fields, field, end, get,
  truthy, is_nullish, coalesce, has_field, get_field, set_field, fields_of,
}
use sovr_protocol.Prelude.Text.{starts_with, join_with}
use sovr_protocol.Execution.SagaRegistry.{StepRecord, step_value}

pub record MapParams : Type 0 where
  pub saga_id : String
  pub correlation_id : String
  pub step : ℕ
  -- `payload_mapping`, or `compensation_payload_mapping`
  pub mapping : Value
  pub saga_payload : Value
  pub saga_context : Value
  pub previous_step_results : List StepRecord
  pub original_step_result : Option StepRecord

pub record MapEnvironment : Type 0 where
  pub number : String → Option ℕ
  pub default_expiration : String
  -- `String(Number(v ?? 0) + 1)`
  pub plus_one : Value → String

-- `s.split('.')`; a text has no more parts than its length and one.
unfoldable pub split_dots : ℕ → String → List String
split_dots zero s = s ∷ []
split_dots (suc rounds) s =
    let i = find s "." in
    let rest = split_dots rounds (slice s (i + 1) (len s)) in
    if leb i (len s) then slice s 0 i ∷ rest else s ∷ []

abbrev pub parts_of : String → List String
parts_of s = split_dots (len s) s

unfoldable pub item_at : Items → ℕ → Value
item_at nil i = undefined
item_at (cons x xs) zero = x
item_at (cons x xs) (suc i) = item_at xs i

-- The number that a text of digits is, and none for any other text.
unfoldable pub digits_from : ℕ → ℕ → String → Option ℕ
digits_from zero acc s = if s == "" then some acc else none
digits_from (suc rounds) acc s =
    let d = find "0123456789" (slice s 0 1) in
    let rest = digits_from rounds (acc * 10 + d) (slice s 1 (len s)) in
    if s == "" then some acc else if ltb d 10 then rest else none

abbrev pub index_of : String → Option ℕ
index_of s = if s == "" then none else digits_from (len s) 0 s

unfoldable pub item_count : Items → ℕ
item_count nil = 0
item_count (cons x xs) = suc (item_count xs)

abbrev char_at : String → Option ℕ → Value
char_at s none = undefined
char_at s (some i) = if ltb i (len s) then str (slice s i (suc i)) else undefined

-- `cur[key]`
unfoldable pub own : Value → String → Value
own (obj fs) key = get_field fs key
own (arr xs) key =
    if key == "length"
    then num (pos (item_count xs))
    else elim (index_of key) [ none ↦ undefined | some i ↦ item_at xs i ]
own (str s) key = if key == "length" then num (pos (len s)) else char_at s (index_of key)
own _ key = undefined

unfoldable pub descend : Value → List String → Value
descend v [] = v
descend v (part ∷ parts) =
    let rest = descend (own v part) parts in if is_nullish v then undefined else rest

abbrev is_below : Option ℕ → ℕ → Bool
is_below none n = false
is_below (some i) n = ltb i n

abbrev has_own : Value → String → Bool
has_own (obj fs) key = has_field fs key
has_own (arr xs) key = key == "length" || is_below (index_of key) (item_count xs)
has_own (str s) key = key == "length" || is_below (index_of key) (len s)
has_own _ key = false

unfoldable pub deep_get : Value → String → Value
deep_get v path =
    if not (truthy v) || path == ""
    then undefined
    else if has_own v path
    then own v path
    else descend v (select (λ part. not (part == "")) (parts_of path))

abbrev tail_of : List String → List String
tail_of [] = []
tail_of (x ∷ xs) = xs

abbrev head_of : List String → String
head_of [] = "undefined"
head_of (x ∷ xs) = x

abbrev pub has_number : ℕ → StepRecord → Bool
has_number n s = eqb s.step n

abbrev original : ℕ → Option StepRecord → Value
original n none = undefined
original n (some s) = if eqb s.step n then step_value s else undefined

-- `previousStepResults.find(...) ?? originalStepResult`
unfoldable pub result_numbered : Option ℕ → MapParams → Value
result_numbered none p = undefined
result_numbered (some n) p = elim (find_first (has_number n) p.previous_step_results) [
  | some s ↦ step_value s
  | none ↦ original n p.original_step_result
]

abbrev pub behind : String → String → String
behind prefix s = slice s (len prefix) (len s)

unfoldable pub resolve_path : MapEnvironment → String → MapParams → Value
resolve_path env path p =
    let parts = parts_of path in
    if path == "saga_id"
    then str p.saga_id
    else if path == "correlation_id"
    then str p.correlation_id
    else if starts_with path "payload."
    then deep_get p.saga_payload (behind "payload." path)
    else if starts_with path "context."
    then deep_get p.saga_context (behind "context." path)
    else if starts_with path "step."
    then deep_get (result_numbered (env.number (head_of (tail_of parts))) p)
        (join_with "." (tail_of (tail_of parts)))
    else undefined

unfoldable mutual
  pub resolve_value : MapEnvironment → Value → MapParams → Value
  resolve_value env (str s) p =
      if starts_with s "$saga." then resolve_path env (behind "$saga." s) p else str s
  resolve_value env (arr xs) p = arr (resolve_items env xs p)
  resolve_value env (obj fs) p = obj (resolve_fields env fs p)
  resolve_value env undefined p = undefined
  resolve_value env null p = null
  resolve_value env (bool b) p = bool b
  resolve_value env (num n) p = num n
  resolve_value env (frac s) p = frac s

  pub resolve_items : MapEnvironment → Items → MapParams → Items
  resolve_items env nil p = nil
  resolve_items env (cons x xs) p = cons (resolve_value env x p) (resolve_items env xs p)

  pub resolve_fields : MapEnvironment → Fields → MapParams → Fields
  resolve_fields env end p = end
  resolve_fields env (field name v fs) p =
      field name (resolve_value env v p) (resolve_fields env fs p)

-- `if (out.k === undefined) out.k = v`
unfoldable pub default_field : String → Value → Fields → Fields
default_field k v fs = elim (get_field fs k) [ undefined ↦ set_field fs k v | _ ↦ fs ]

abbrev is_failing : MapParams → Bool
is_failing p = elim (get p.saga_context "simulateFailureAtStep") [
  | num (pos n) ↦ eqb n p.step
  | _ ↦ false
]

abbrev unbalance : MapEnvironment → Value → Value
unbalance env (arr (cons x (cons y rest))) = arr (
    cons x (
      cons
        (obj (
          set_field (fields_of y) "amount"
            (str (env.plus_one (coalesce (get x "amount") (num (pos 0)))))))
        nil))
unbalance env v = v

abbrev last_event_id : List StepRecord → Value
last_event_id [] = str ""
last_event_id (s ∷ []) = coalesce (get (item_at s.events 0) "event_id") (str "")
last_event_id (s ∷ t ∷ rest) = last_event_id (t ∷ rest)

unfoldable pub apply_defaults : MapEnvironment → Fields → MapParams → Fields
apply_defaults env payload p =
    let context = λ (k : String) (d : String). coalesce (get p.saga_context k) (str d) in
    let out = default_field "entry_type" (str "STANDARD") (
      default_field "description" (str "Saga ledger entry") (
        default_field "causation_id" (str p.saga_id) (
          default_field "correlation_id" (str p.correlation_id) (
            default_field "event_reference" (last_event_id p.previous_step_results) (
              default_field "transaction_id" (context "transaction_id" (join "tx_" p.saga_id)) (
                default_field "journal_id" (context "journal_id" (join "journal_" p.saga_id)) (
                  default_field "expiration" (context "expiration" env.default_expiration)
                    payload))))))) in
    elim (get_field out "postings") [
      | arr xs ↦ if is_failing p then set_field out "postings" (unbalance env (arr xs)) else out
      | _ ↦ out
    ]

unfoldable pub map_payload : MapEnvironment → MapParams → Fields
map_payload env p =
    apply_defaults env (fields_of (resolve_value env (coalesce p.mapping (obj end)) p)) p

parts : parts_of "step.2.result" ≡ "step" ∷ "2" ∷ "result" ∷ []
unfolding split_dots
parts = refl

elements :
    deep_get (obj (field "events" (arr (cons (str "a") (cons (str "b") nil))) end)) "events.1"
    ≡ str "b"
unfolding deep_get descend own digits_from item_at split_dots select truthy has_field get_field
elements = refl

sizes :
    deep_get (obj (field "events" (arr (cons (str "abc") nil)) end)) "events.0.length" ≡ num (pos 3)
unfolding deep_get descend own digits_from item_at split_dots select truthy has_field get_field
sizes = refl
