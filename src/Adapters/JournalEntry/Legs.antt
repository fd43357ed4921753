-- ===== src/Adapters/JournalEntry/Legs.antt =====
-- The legs that packages/runtime/src/adapters/tigerbeetle/TigerBeetleTransferBuilder.ts makes of an
-- entry, by the number of its debits and credits.
use native.Mathlib.Nat.{mod-eq_of_lt, mod-one}
use sovr_protocol.Prelude.{
  suc, ◌%◌, max, ◌≡◌, refl, ap, ◌∙◌, sym, Bool, true, false, not, ◌&&◌, some, List, [], ◌∷◌, ◌++◌,
  append_assoc, arith, ltb, eqb, length, length-append, get_elem?,
}
use sovr_protocol.Prelude.Int.{pos, eqb_ℤ}
use sovr_protocol.Adapters.JournalEntry.{
  JournalEntryLine, JournalEntryCommand, TransferRequest, TransferResult, total_from, request,
  build_transfers, answered, debits, credits, enter, journal_entry,
}

-- One transfer for each credit, of its amount.
unfoldable pub fan_out :
    JournalEntryCommand → JournalEntryLine → List JournalEntryLine → List TransferRequest
fan_out cmd d [] = []
fan_out cmd d (c ∷ cs) = request cmd d c c.amount (ltb 0 (length cs)) ∷ fan_out cmd d cs

-- One transfer for each debit, of its amount.
unfoldable pub fan_in :
    JournalEntryCommand → JournalEntryLine → List JournalEntryLine → List TransferRequest
fan_in cmd c [] = []
fan_in cmd c (d ∷ ds) = request cmd d c d.amount (ltb 0 (length ds)) ∷ fan_in cmd c ds

get_elem?-append :
    (before : List JournalEntryLine) (l : JournalEntryLine) (behind : List JournalEntryLine)
    → get_elem? (before ++ l ∷ behind) (length before) ≡ some l
get_elem?-append [] l behind = refl
get_elem?-append (x ∷ before) l behind = get_elem?-append before l behind

-- The line that the round behind `before` picks from a side.
picked :
    (side before : List JournalEntryLine) (l : JournalEntryLine) (behind : List JournalEntryLine)
    → side ≡ before ++ l ∷ behind
    → get_elem? side (length before % length side) ≡ some l
picked side before l behind e =
    ap (get_elem? side)
      (mod-eq_of_lt (omega (arith, ap length e, length-append before (l ∷ behind))))
    ∙ rw e (get_elem?-append before l behind)

build_transfers-fan_out :
    (cmd : JournalEntryCommand) (d : JournalEntryLine) (side before cs : List JournalEntryLine)
    → side ≡ before ++ cs
    → build_transfers cmd (d ∷ []) side (length cs) (length before) ≡ fan_out cmd d cs
unfolding build_transfers fan_out
build_transfers-fan_out cmd d side before [] e = refl
build_transfers-fan_out cmd d side before (c ∷ cs) e =
    let rest =
      build_transfers-fan_out cmd d side (before ++ c ∷ []) cs
        (e ∙ sym (append_assoc before (c ∷ []) cs)) in
    rw (mod-one (length before), picked side before c cs e)
      (ap (λ ts. request cmd d c c.amount (ltb 0 (length cs)) ∷ ts)
        (ap (build_transfers cmd (d ∷ []) side (length cs))
            (omega (arith, length-append before (c ∷ [])))
          ∙ rest))

build_transfers-fan_in :
    (cmd : JournalEntryCommand) (c : JournalEntryLine) (side before ds : List JournalEntryLine)
    → eqb (length side) 1 ≡ false
    → side ≡ before ++ ds
    → build_transfers cmd side (c ∷ []) (length ds) (length before) ≡ fan_in cmd c ds
unfolding build_transfers fan_in
build_transfers-fan_in cmd c side before [] n e = refl
build_transfers-fan_in cmd c side before (d ∷ ds) n e =
    let rest =
      build_transfers-fan_in cmd c side (before ++ d ∷ []) ds n
        (e ∙ sym (append_assoc before (d ∷ []) ds)) in
    rw (mod-one (length before), picked side before d ds e, n)
      (ap (λ ts. request cmd d c d.amount (ltb 0 (length ds)) ∷ ts)
        (ap (build_transfers cmd side (c ∷ []) (length ds))
            (omega (arith, length-append before (d ∷ [])))
          ∙ rest))

abbrev pub balance : List JournalEntryLine → List JournalEntryLine → Bool
balance ds cs = eqb_ℤ (total_from (pos 0) ds) (total_from (pos 0) cs)

enter_balanced :
    (ledger : List TransferRequest → List TransferResult) (cmd : JournalEntryCommand)
    (d : JournalEntryLine) (ds : List JournalEntryLine) (c : JournalEntryLine)
    (cs : List JournalEntryLine)
    → balance (d ∷ ds) (c ∷ cs) ≡ true
    → enter ledger cmd (d ∷ ds) (c ∷ cs)
      ≡ answered (
          ledger
            (build_transfers cmd (d ∷ ds) (c ∷ cs) (max (suc (length ds)) (suc (length cs))) 0))
unfolding enter
enter_balanced ledger cmd d ds c cs h = ground (arith, h)

-- A balanced entry with one debit and any credits moves, for each credit in its order, exactly its
-- amount from the debit's account to the credit's, in one linked call of the ledger.
pub journal_entry_one_debit :
    (ledger : List TransferRequest → List TransferResult) (cmd : JournalEntryCommand)
    (d c : JournalEntryLine) (cs : List JournalEntryLine)
    → debits cmd ≡ d ∷ []
    → credits cmd ≡ c ∷ cs
    → balance (debits cmd) (credits cmd) ≡ true
    → journal_entry ledger cmd ≡ answered (ledger (fan_out cmd d (c ∷ cs)))
unfolding journal_entry
journal_entry_one_debit ledger cmd d c cs one some_ balanced =
    rw (one, some_)
      (enter_balanced ledger cmd d [] c cs (ground (arith, one, some_, balanced))
        ∙ ap (λ ts. answered (ledger ts))
            (ap (λ n. build_transfers cmd (d ∷ []) (c ∷ cs) n 0) {y = length (c ∷ cs)} (omega arith)
              ∙ build_transfers-fan_out cmd d (c ∷ cs) [] (c ∷ cs) refl))

-- A balanced entry with one credit and two or more debits moves, for each debit in its order, exactly
-- its amount from the debit's account to the credit's, in one linked call of the ledger.
pub journal_entry_one_credit :
    (ledger : List TransferRequest → List TransferResult) (cmd : JournalEntryCommand)
    (c d d' : JournalEntryLine) (ds : List JournalEntryLine)
    → debits cmd ≡ d ∷ d' ∷ ds
    → credits cmd ≡ c ∷ []
    → balance (debits cmd) (credits cmd) ≡ true
    → journal_entry ledger cmd ≡ answered (ledger (fan_in cmd c (d ∷ d' ∷ ds)))
unfolding journal_entry
journal_entry_one_credit ledger cmd c d d' ds many one balanced =
    rw (many, one)
      (enter_balanced ledger cmd d (d' ∷ ds) c [] (ground (arith, one, many, balanced))
        ∙ ap (λ ts. answered (ledger ts))
            (ap (λ n. build_transfers cmd (d ∷ d' ∷ ds) (c ∷ []) n 0) {y = length (d ∷ d' ∷ ds)}
                (omega arith)
              ∙ build_transfers-fan_in cmd c (d ∷ d' ∷ ds) [] (d ∷ d' ∷ ds) (ground arith) refl))

-- An entry that lacks a side, or whose sides differ in their totals, is refused without a call of the
-- ledger: its answer is the same with every ledger, is not ok, and has no results.
pub journal_entry_refuses :
    (ledger other : List TransferRequest → List TransferResult) (cmd : JournalEntryCommand)
    → (not (eqb (length (debits cmd)) 0)
        && not (eqb (length (credits cmd)) 0)
        && balance (debits cmd) (credits cmd))
      ≡ false
    → let out = journal_entry ledger cmd in
      (out ≡ journal_entry other cmd) × (out.ok ≡ false) × (out.results ≡ [])
unfolding journal_entry enter
journal_entry_refuses ledger other cmd h = (ground (arith, h), ground (arith, h), ground (arith, h))

-- With two debits and two credits the amounts of the credits are not read: each debit's amount goes to
-- the credit beside it, whatever that credit says.
pub journal_entry_two_by_two :
    (ledger : List TransferRequest → List TransferResult) (cmd : JournalEntryCommand)
    (d d' c c' : JournalEntryLine)
    → debits cmd ≡ d ∷ d' ∷ []
    → credits cmd ≡ c ∷ c' ∷ []
    → balance (debits cmd) (credits cmd) ≡ true
    → journal_entry ledger cmd
      ≡ answered (ledger (request cmd d c d.amount true ∷ request cmd d' c' d'.amount false ∷ []))
unfolding journal_entry build_transfers
journal_entry_two_by_two ledger cmd d d' c c' two two' balanced =
    rw (two, two')
      (enter_balanced ledger cmd d (d' ∷ []) c (c' ∷ []) (ground (arith, two, two', balanced)))
