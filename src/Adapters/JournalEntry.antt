-- ===== src/Adapters/JournalEntry.antt =====
-- packages/runtime/src/adapters/tigerbeetle/TigerBeetleTransferBuilder.ts, `journalEntry`: the
-- transfers of a balanced entry. The ledger's `createLinkedTransfers` is a parameter.
use Prim.Native.String.{◌++◌ as join}
pub mod Legs
mod Examples
use sovr_protocol.Prelude.{
  ℕ, zero, suc, ◌+◌, ◌%◌, ◌-◌, max, String, Bool, true, false, not, ◌||◌, Option, none, some, List,
  [], ◌∷◌, ltb, eqb, length, get_elem?, select, every, find_first, if◌then◌else◌,
}
use sovr_protocol.Prelude.Int.{ℤ, pos, ◌+ℤ◌, eqb_ℤ}
use sovr_protocol.Prelude.Text.{show_ℤ}

pub data LineType : Type 0 where
  debit credit : LineType

pub record JournalEntryLine : Type 0 where
  pub account_id : String
  pub line_type : LineType
  pub amount : ℤ

pub record JournalEntryCommand : Type 0 where
  pub command_id : String
  pub correlation_id : String
  pub lines : List JournalEntryLine
  pub ledger : String

pub record TransferRequest : Type 0 where
  pub command_id : String
  pub correlation_id : String
  pub debit_id : String
  pub credit_id : String
  pub amount : ℤ
  pub ledger : String
  pub linked : Bool

pub record TransferResult : Type 0 where
  pub ok : Bool
  pub error_message : Option String

pub record JournalEntryResult : Type 0 where
  pub ok : Bool
  pub results : List TransferResult
  pub error : Option String

abbrev pub is_debit : JournalEntryLine → Bool
is_debit l = elim l.line_type [ debit ↦ true | credit ↦ false ]

abbrev pub is_credit : JournalEntryLine → Bool
is_credit l = elim l.line_type [ debit ↦ false | credit ↦ true ]

-- `lines.reduce((s, l) => s + l.amount, s)`
unfoldable pub total_from : ℤ → List JournalEntryLine → ℤ
total_from s [] = s
total_from s (l ∷ ls) = total_from (s +ℤ l.amount) ls

abbrev pub request :
    JournalEntryCommand → JournalEntryLine → JournalEntryLine → ℤ → Bool → TransferRequest
request cmd from to amount linked = record {
  command_id = cmd.command_id;
  correlation_id = cmd.correlation_id;
  debit_id = from.account_id;
  credit_id = to.account_id;
  amount = amount;
  ledger = cmd.ledger;
  linked = linked;
}

-- The leg between two lines that are there; `ds` and `cs` are not empty, so they are.
abbrev pub leg :
    JournalEntryCommand
    → Bool
    → Bool
    → Option JournalEntryLine
    → Option JournalEntryLine
    → List TransferRequest
    → List TransferRequest
leg cmd single linked (some d) (some c) rest =
    request cmd d c (if single then c.amount else d.amount) linked ∷ rest
leg cmd single linked _ _ rest = rest

-- The loop from `i`, with the rounds that are left.
unfoldable pub build_transfers :
    JournalEntryCommand
    → List JournalEntryLine
    → List JournalEntryLine
    → ℕ
    → ℕ
    → List TransferRequest
build_transfers cmd ds cs zero i = []
build_transfers cmd ds cs (suc left) i =
    leg cmd (eqb (length ds) 1) (ltb 0 left) (get_elem? ds (i % length ds))
      (get_elem? cs (i % length cs)) (build_transfers cmd ds cs left (suc i))

abbrev pub refused : String → JournalEntryResult
refused message = record { ok = false; results = []; error = some message }

abbrev pub error_of : Option TransferResult → Option String
error_of none = none
error_of (some r) = r.error_message

abbrev pub answered : List TransferResult → JournalEntryResult
answered rs = record {
  ok = every (λ r. r.ok) rs;
  results = rs;
  error = error_of (find_first (λ r. not r.ok) rs);
}

abbrev pub debits : JournalEntryCommand → List JournalEntryLine
debits cmd = select is_debit cmd.lines

abbrev pub credits : JournalEntryCommand → List JournalEntryLine
credits cmd = select is_credit cmd.lines

-- The entry of its two sides.
unfoldable pub enter :
    (List TransferRequest → List TransferResult)
    → JournalEntryCommand
    → List JournalEntryLine
    → List JournalEntryLine
    → JournalEntryResult
unfolding build_transfers
enter create_linked_transfers cmd ds cs =
    let debit_total = total_from (pos 0) ds in
    let credit_total = total_from (pos 0) cs in
    if eqb (length ds) 0 || eqb (length cs) 0
    then refused "Journal entry must have at least one debit and one credit"
    else if not (eqb_ℤ debit_total credit_total)
    then refused (
        join "Journal entry imbalanced: debits="
          (join (show_ℤ debit_total) (join " credits=" (show_ℤ credit_total))))
    else answered
        (create_linked_transfers (build_transfers cmd ds cs (max (length ds) (length cs)) 0))

unfoldable pub journal_entry :
    (List TransferRequest → List TransferResult) → JournalEntryCommand → JournalEntryResult
unfolding enter
journal_entry create_linked_transfers cmd =
    enter create_linked_transfers cmd (debits cmd) (credits cmd)
