-- ===== src/Adapters/JournalEntry/Examples.antt =====
-- A debit of 30 against credits of 10 and 20, the other way round, and two against two.
use sovr_protocol.Prelude.{◌≡◌, refl, String, true, false, none, some, List, [], ◌∷◌, map, select}
use sovr_protocol.Prelude.Int.{ℤ, pos, ◌+ℤ◌}
use sovr_protocol.Adapters.JournalEntry.{
  JournalEntryLine, JournalEntryCommand, TransferRequest, TransferResult, debit, credit, total_from,
  answered, journal_entry,
}
use sovr_protocol.Adapters.JournalEntry.Legs.{fan_out, journal_entry_one_debit}

abbrev from : String → ℤ → JournalEntryLine
from account amount = record { account_id = account; line_type = debit; amount = amount }

abbrev to : String → ℤ → JournalEntryLine
to account amount = record { account_id = account; line_type = credit; amount = amount }

abbrev entry : List JournalEntryLine → JournalEntryCommand
entry lines = record { command_id = "c1"; correlation_id = "corr-1"; lines = lines; ledger = "USD" }

-- A ledger that takes every transfer.
abbrev ledger : List TransferRequest → List TransferResult
ledger ts = map (λ t. record { ok = true; error_message = none }) ts

abbrev broken : List TransferRequest → List TransferResult
broken ts = map (λ t. record { ok = false; error_message = some "no connection" }) ts

abbrev split : JournalEntryCommand
split = entry (from "a" (pos 30) ∷ to "b" (pos 10) ∷ to "c" (pos 20) ∷ [])

abbrev merged : JournalEntryCommand
merged = entry (from "a" (pos 10) ∷ from "b" (pos 20) ∷ to "c" (pos 30) ∷ [])

abbrev crossed : JournalEntryCommand
crossed = entry (from "a" (pos 10) ∷ from "b" (pos 20) ∷ to "c" (pos 20) ∷ to "d" (pos 10) ∷ [])

journal_entry_one_debit_example :
    journal_entry ledger split
    ≡ answered (ledger (fan_out split (from "a" (pos 30)) (to "b" (pos 10) ∷ to "c" (pos 20) ∷ [])))
unfolding select total_from ◌+ℤ◌
journal_entry_one_debit_example =
    journal_entry_one_debit ledger split (from "a" (pos 30)) (to "b" (pos 10))
      (to "c" (pos 20) ∷ []) refl refl refl
