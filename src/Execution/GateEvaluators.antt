-- ===== src/Execution/GateEvaluators.antt =====
-- packages/runtime/src/execution/GateEvaluators: what the gates of a command ask, except the time
-- window. The balances, the accounts and the other stores that a gate queries are parameters that may
-- throw, and so is `BigInt` on a text.
use Prim.Native.String.{◌++◌ as join}
pub mod Amounts
mod Examples
use sovr_protocol.Prelude.{
  ℕ, String, Bool, true, false, not, ◌&&◌, ◌||◌, Option, none, some, List, [], ◌∷◌, map, ◌==◌, ltb,
  eqb, length, select, includes, if◌then◌else◌,
}
use sovr_protocol.Prelude.Int.{ℤ, pos, ltb_ℤ, leb_ℤ}
use sovr_protocol.Prelude.Result.{Result, ok, err, ◌>>=◌}
use sovr_protocol.Prelude.Value.{
  Value, undefined, null, bool, num, frac, str, arr, obj, Items, nil, cons, has_field, get, truthy,
}
use sovr_protocol.Prelude.Text.{text_of, item_text, show_ℕ, show_ℤ, join_with}
use sovr_protocol.Execution.ExecutionGates.{Evaluation}

abbrev pub passing : Evaluation
passing = record { passed = true; reason = none }

abbrev pub failing : String → Evaluation
failing reason = record { passed = false; reason = some reason }

abbrev pub passes_if : Bool → String → Evaluation
passes_if test reason = if test then passing else failing reason

-- `extractString` and `extractAmount`, of the value at the key.
abbrev pub extract_string : Value → Option String
extract_string (str s) = some s
extract_string (num n) = some (show_ℤ n)
extract_string (frac s) = some s
extract_string (obj fs) =
    if has_field fs "value" then some (text_of (get (obj fs) "value")) else none
extract_string _ = none

-- `payload[cfg.key]`
abbrev pub at_key : Value → Value → String → Value
at_key payload config name = get payload (text_of (get config name))

-- The text that is there and not empty.
abbrev pub present : Option String → Option String
present none = none
present (some s) = if s == "" then none else some s

-- `BigInt(v)`
unfoldable pub to_big_int : (String → Result String ℤ) → Value → Result String ℤ
to_big_int big_int (num n) = ok n
to_big_int big_int (bool b) = ok (pos (if b then 1 else 0))
to_big_int big_int (str s) = big_int s
to_big_int big_int (arr xs) = big_int (text_of (arr xs))
to_big_int big_int (obj fs) = big_int "[object Object]"
to_big_int big_int _ = err "TypeError"

abbrev pub within_limit : Result String ℤ → Result String ℤ → String → String → Evaluation
within_limit (ok amount) (ok limit) text currency =
    if leb_ℤ amount (pos 0)
    then failing "Amount must be greater than zero"
    else passes_if (leb_ℤ amount limit) (
        join "Amount " (
          join (show_ℤ amount)
            (join " exceeds constitutional limit " (join (show_ℤ limit) (join " " currency)))))
within_limit _ _ text currency = failing (join "Invalid amount value: '" (join text "'"))

unfoldable pub amount_within_limit :
    (String → Result String ℤ) → String → String → Value → Value → Result String Evaluation
amount_within_limit big_int aggregate_id actor_id payload config =
    ok (elim (extract_string (at_key payload config "amountPayloadKey")) [
      | none ↦ failing (
          join "Amount not found at payload key '"
            (join (text_of (get config "amountPayloadKey")) "'"))
      | some text ↦
          within_limit (big_int text) (to_big_int big_int (get config "maxAmount")) text
            (text_of (get config "currency"))
    ])

abbrev pub under_limit : ℤ → Option ℤ → Evaluation
under_limit amount none = failing "No authorization limit configured for actor — denied by default"
under_limit amount (some limit) =
    passes_if (leb_ℤ amount limit)
      (join "Amount " (join (show_ℤ amount) (join " exceeds authorization limit " (show_ℤ limit))))

abbrev pub static_limit : (String → Result String ℤ) → ℤ → Value → Evaluation
static_limit big_int amount limit =
    if not (truthy limit)
    then failing "Static limit not configured in gate definition"
    else elim (to_big_int big_int limit) [
      | ok l ↦ under_limit amount (some l)
      | err x ↦ failing (join "Static limit '" (join (text_of limit) "' is not valid"))
    ]

abbrev pub is_text : Value → String → Bool
is_text (str s) t = s == t
is_text _ t = false

unfoldable pub authorization_limit :
    (String → Result String ℤ)
    → (String → String → Result String (Option ℤ))
    → String
    → String
    → Value
    → Value
    → Result String Evaluation
unfolding to_big_int
authorization_limit big_int actor_limit aggregate_id actor_id payload config =
    elim (extract_string (at_key payload config "amountPayloadKey")) [
      | none ↦ ok (
          failing (
            join "Amount not found in payload at key '"
              (join (text_of (get config "amountPayloadKey")) "'")))
      | some text ↦ elim (big_int text) [
        | err x ↦ ok (failing (join "Amount '" (join text "' is not valid")))
        | ok amount ↦
            if is_text (get config "limitSource") "static"
            then ok (static_limit big_int amount (get config "staticLimit"))
            else (actor_limit actor_id "authorization.limit" >>= λ limit.
                ok (under_limit amount limit))
      ]
    ]

abbrev pub covered : String → ℤ → Option ℤ → Evaluation
covered account amount none = failing (join "Account '" (join account "' not found in TigerBeetle"))
covered account amount (some balance) = passes_if (leb_ℤ amount balance) (
    join "Insufficient balance: available "
      (join (show_ℤ balance) (join ", required " (show_ℤ amount))))

abbrev pub balance_of :
    (String → Result String (Option ℤ))
    → String
    → String
    → Result String ℤ
    → Result String Evaluation
balance_of get_balance account text (err x) =
    ok (failing (join "Amount '" (join text "' is not a valid integer")))
balance_of get_balance account text (ok amount) =
    if leb_ℤ amount (pos 0)
    then ok (failing "Amount must be greater than zero")
    else (get_balance account >>= λ balance. ok (covered account amount balance))

unfoldable pub balance_sufficient :
    (String → Result String ℤ)
    → (String → Result String (Option ℤ))
    → String
    → String
    → Value
    → Value
    → Result String Evaluation
balance_sufficient big_int get_balance aggregate_id actor_id payload config =
    elim (present (extract_string (at_key payload config "accountPayloadKey"))) [
      | none ↦ ok (
          failing (
            join "Account ID not found in payload at key '"
              (join (text_of (get config "accountPayloadKey")) "'")))
      | some account ↦ elim (present (extract_string (at_key payload config "amountPayloadKey"))) [
        | none ↦ ok (
            failing (
              join "Amount not found in payload at key '"
                (join (text_of (get config "amountPayloadKey")) "'")))
        | some text ↦ balance_of get_balance account text (big_int text)
      ]
    ]

abbrev pub active_status : String → Option String → Evaluation
active_status account none = failing (join "Account '" (join account "' not found"))
active_status account (some status) = passes_if (status == "ACTIVE") (
    join "Account '"
      (join account (join "' is " (join status " — only ACTIVE accounts can receive commands"))))

unfoldable pub account_active :
    (String → Result String (Option String))
    → String
    → String
    → Value
    → Value
    → Result String Evaluation
account_active get_account_status aggregate_id actor_id payload config =
    let absent = ok (
      failing (
        join "Account ID not found at payload key '"
          (join (text_of (get config "accountPayloadKey")) "'"))) in
    elim (at_key payload config "accountPayloadKey") [
      | str account ↦
          if account == ""
          then absent
          else (get_account_status account >>= λ status.
              ok (active_status account (present status)))
      | _ ↦ absent
    ]

-- `includes` of an array.
abbrev pub has_text : Items → String → Bool
has_text nil t = false
has_text (cons (str s) xs) t = s == t || has_text xs t
has_text (cons _ xs) t = has_text xs t

abbrev pub texts : Items → List String
texts nil = []
texts (cons x xs) = item_text x ∷ texts xs

abbrev pub state_in : String → Items → Evaluation
state_in state states = passes_if (has_text states state) (
    join "Aggregate is in state '"
      (join state (join "', required one of: [" (join (join_with ", " (texts states)) "]"))))

unfoldable pub state_precondition :
    (String → Result String (Option String))
    → String
    → String
    → Value
    → Value
    → Result String Evaluation
state_precondition get_current_state aggregate_id actor_id payload config = do
  state ← get_current_state aggregate_id
  elim (present state) [
    | none ↦ ok (failing (join "Aggregate '" (join aggregate_id "' not found or has no state")))
    | some s ↦ elim (get config "requiredStates") [
      | arr states ↦ ok (state_in s states)
      | _ ↦ err "TypeError"
    ]
  ]

-- `count < cfg.required`; a comparison with what is no number is false.
abbrev pub fewer_than : ℕ → Value → Bool
fewer_than count (num required) = ltb_ℤ (pos count) required
fewer_than count null = false
fewer_than count (bool b) = b && eqb count 0
fewer_than count _ = false

unfoldable pub approval_quorum :
    (String → String → Result String ℕ) → String → String → Value → Value → Result String Evaluation
approval_quorum get_approval_count aggregate_id actor_id payload config = do
  count ← get_approval_count aggregate_id (text_of (get config "role"))
  ok (
      passes_if (not (fewer_than count (get config "required"))) (
        join "Insufficient approvals: " (
          join (show_ℕ count) (
            join " of " (
              join (text_of (get config "required"))
                (join " required from role '" (join (text_of (get config "role")) "'")))))))

pub record ActiveHold : Type 0 where
  pub hold_type : String
  pub issued_at : ℕ

abbrev pub blocking : Items → List ActiveHold → List ActiveHold
blocking types holds = select (λ h. has_text types h.hold_type) holds

abbrev pub hold_free : (ℕ → String) → List ActiveHold → Evaluation
hold_free to_iso_string holds = passes_if (eqb (length holds) 0) (
    join "Active compliance holds block this command: " (
      join_with ", " (
        map (λ h. join h.hold_type (join " (issued: " (join (to_iso_string h.issued_at) ")")))
          holds)))

-- Without an active hold, `cfg.holdTypes` is not read.
abbrev pub holds_checked : (ℕ → String) → Value → List ActiveHold → Result String Evaluation
holds_checked to_iso_string types [] = ok passing
holds_checked to_iso_string (arr types) (h ∷ hs) =
    ok (hold_free to_iso_string (blocking types (h ∷ hs)))
holds_checked to_iso_string _ (h ∷ hs) = err "TypeError"

unfoldable pub compliance_hold_absent :
    (ℕ → String)
    → (String → Result String (List ActiveHold))
    → String
    → String
    → Value
    → Value
    → Result String Evaluation
compliance_hold_absent to_iso_string get_active_holds aggregate_id actor_id payload config =
    get_active_holds aggregate_id >>= holds_checked to_iso_string (get config "holdTypes")
