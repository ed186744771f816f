-- ===== src/Transfers/Executor/Books.antt =====
-- The tables of accounts and of the ledger after a transaction that went through.
use kudi_ai.Common.{
  ◌≡◌, ◌≢◌, refl, sym, ap, ◌∙◌, arith, String, ℕ, ◌+◌, ◌-◌, some, List, ◌++◌, eq_iff,
}
use kudi_ai.Common.Int.{ℤ, ◌+ℤ◌, ◌-ℤ◌, ◌≤ℤ◌}
use kudi_ai.Shared.Errors.{ok}
use kudi_ai.Shared.Events.{DomainEvent}
use kudi_ai.Shared.Money.{Money}
use kudi_ai.Shared.Money.Laws.{add-eq_ok}
use kudi_ai.Database.{World, AccountRecord, LedgerEntry}
use kudi_ai.Database.Tables.{find, find-fits, count}
use kudi_ai.Accounts.Account.{Account}
use kudi_ai.Accounts.Account.Laws.{debit-eq_ok, credit-eq_ok}
use kudi_ai.Accounts.Mapper.{to_persistence}
use kudi_ai.Accounts.Repository.{has_id, has_id_version}
use kudi_ai.Accounts.Repository.Concurrency.{
  rows_after, count-rows_after, find-rows_after, find-rows_after_ne,
}
use kudi_ai.Transfers.Transfer.{InternalParams}
use kudi_ai.Transfers.Executor.{settle}
use kudi_ai.Ledger.Balance.{IsBalanced}
use kudi_ai.Ledger.Journal.{AreRowsOf}
use kudi_ai.Transfers.Executor.{transfer_legs, transfer_posting}
use kudi_ai.Accounts.Repository.Rows.{
  updated, to_persistence-debited, to_persistence-credited, balance-to_persistence,
  user_id-to_persistence,
}
use kudi_ai.Transfers.Executor.Effects.{IsRun, settle-IsRun}

-- Two different accounts of which one row each is written at the next version.
module _ (s d : AccountRecord) (now : ℕ) (x y : ℤ) (a b : String) (rows : List AccountRecord)
    (f : find (has_id a) rows ≡ some s) (g : find (has_id b) rows ≡ some d) where
  find-id : s.id ≡ a
  find-id = (eq_iff _ _).0 (find-fits (has_id a) rows f)

  find-id_second : d.id ≡ b
  find-id_second = (eq_iff _ _).0 (find-fits (has_id b) rows g)

  ids_ne :
      count (has_id_version d.id (d.version + 1 - 1)) (rows_after (updated now x s) rows) ≢ 0
      → a ≢ b
  ids_ne n e =
      let same_row : find (has_id a) rows ≡ some d = ap (λ i. find (has_id i) rows) e ∙ g in
      let same : s ≡ d = cc in
      n (rw (← same) (count-rows_after (updated now x s) rows (ground arith)))

  find-first :
      a ≢ b
      → find (has_id a) (rows_after (updated now y d) (rows_after (updated now x s) rows))
        ≡ some (updated now x s)
  find-first ne =
      find-rows_after_ne (updated now y d) a (rows_after (updated now x s) rows)
        (λ e. ne (sym e ∙ find-id_second))
      ∙ ap (λ i. find (has_id i) (rows_after (updated now x s) rows)) (sym find-id)
      ∙ find-rows_after (updated now x s) s rows (ap (λ i. find (has_id i) rows) find-id ∙ f) refl

  find-second :
      a ≢ b
      → find (has_id b) (rows_after (updated now y d) (rows_after (updated now x s) rows))
        ≡ some (updated now y d)
  find-second ne =
      let kept : find (has_id d.id) (rows_after (updated now x s) rows) ≡ some d =
        ap (λ i. find (has_id i) (rows_after (updated now x s) rows)) find-id_second
        ∙ find-rows_after_ne (updated now x s) b rows (λ e. ne (sym find-id ∙ e))
        ∙ g in
      ap (λ i. find (has_id i) (rows_after (updated now y d) (rows_after (updated now x s) rows)))
        (sym find-id_second)
      ∙ find-rows_after (updated now y d) d (rows_after (updated now x s) rows) kept refl

  find-other :
      (i : String)
      → i ≢ a
      → i ≢ b
      → find (has_id i) (rows_after (updated now y d) (rows_after (updated now x s) rows))
        ≡ find (has_id i) rows
  find-other i p q =
      find-rows_after_ne (updated now y d) i (rows_after (updated now x s) rows)
        (λ e. q (sym e ∙ find-id_second))
      ∙ find-rows_after_ne (updated now x s) i rows (λ e. p (sym e ∙ find-id))

-- What a transfer leaves of the rows s and d in accounts and ledger: source and destination
-- differ, the source pays amount and fee, the destination gets the amount, no other account
-- changes, and the ledger grows by the balanced journal of the posting.
pub record IsTransferred (now : ℕ) (reference : String) (p : InternalParams) (w w' : World)
    : Type 0 where
  pub source : AccountRecord
  pub destination : AccountRecord
  pub distinct : p.source_account_id ≢ p.destination_account_id
  pub source_before : find (has_id p.source_account_id) w.db.accounts ≡ some source
  pub destination_before : find (has_id p.destination_account_id) w.db.accounts ≡ some destination
  pub owned : source.user_id ≡ p.initiator_user_id
  pub covered : p.amount.minor_units +ℤ p.fee.minor_units ≤ℤ source.balance
  pub source_after :
      find (has_id p.source_account_id) w'.db.accounts
      ≡ some (updated now (source.balance -ℤ (p.amount.minor_units +ℤ p.fee.minor_units)) source)
  pub destination_after :
      find (has_id p.destination_account_id) w'.db.accounts
      ≡ some (updated now (destination.balance +ℤ p.amount.minor_units) destination)
  pub others :
      (i : String)
      → i ≢ p.source_account_id
      → i ≢ p.destination_account_id
      → find (has_id i) w'.db.accounts ≡ find (has_id i) w.db.accounts
  pub total : Money
  pub debited : Account
  pub credited : Account
  pub journal : String
  pub entries : List LedgerEntry
  pub rows :
      AreRowsOf
        (transfer_posting reference p total debited credited)
        journal
        (transfer_legs p total debited credited)
        entries
  pub balanced : IsBalanced (transfer_legs p total debited credited)
  pub ledger : w'.db.ledger_entries ≡ w.db.ledger_entries ++ entries

-- The same, from worlds that agree in those two tables.
pub IsTransferred-of_tables :
    (now : ℕ) (r : String) (p : InternalParams) (w w₀ w₁ w' : World)
    → w₀.db ≡ w.db
    → w'.db.accounts ≡ w₁.db.accounts
    → w'.db.ledger_entries ≡ w₁.db.ledger_entries
    → IsTransferred now r p w₀ w₁
    → IsTransferred now r p w w'
IsTransferred-of_tables now r p w w₀ w₁ w' e a l h = record {
  source = h.source;
  destination = h.destination;
  distinct = h.distinct;
  source_before = rw (← e) h.source_before;
  destination_before = rw (← e) h.destination_before;
  owned = h.owned;
  covered = h.covered;
  source_after = rw a h.source_after;
  destination_after = rw a h.destination_after;
  others = λ i j k. rw (a, ← e) (h.others i j k);
  total = h.total;
  debited = h.debited;
  credited = h.credited;
  journal = h.journal;
  entries = h.entries;
  rows = h.rows;
  balanced = h.balanced;
  ledger = rw (l, ← e) h.ledger;
}

module _ (now : ℕ) (r : String) (p : InternalParams) (w w' : World) (s d s' d' : Account)
    (t : Money) (run : IsRun now r p w w' s d s' d' t) where
  row_debited :
      to_persistence s'
      ≡ updated now
          ((to_persistence s).balance -ℤ (p.amount.minor_units +ℤ p.fee.minor_units))
          (to_persistence s)
  row_debited =
      let (_, _, sum) = add-eq_ok p.amount p.fee t run.sum in
      let (_, _, _, e) = debit-eq_ok now t r s s' run.debited in
      ap to_persistence e
      ∙ to_persistence-debited now t r s
      ∙ ap (λ m. updated now (s.balance.minor_units -ℤ m) (to_persistence s)) sum
      ∙ ap (λ m. updated now (m -ℤ (p.amount.minor_units +ℤ p.fee.minor_units)) (to_persistence s))
          (sym (balance-to_persistence s))

  row_credited :
      to_persistence d'
      ≡ updated now ((to_persistence d).balance +ℤ p.amount.minor_units) (to_persistence d)
  row_credited =
      let (_, _, e) = credit-eq_ok now p.amount r d d' run.credited in
      ap to_persistence e
      ∙ to_persistence-credited now p.amount r d
      ∙ ap (λ m. updated now (m +ℤ p.amount.minor_units) (to_persistence d))
          (sym (balance-to_persistence d))

  IsRun-IsTransferred : IsTransferred now r p w w'
  IsRun-IsTransferred =
      let x = (to_persistence s).balance -ℤ (p.amount.minor_units +ℤ p.fee.minor_units) in
      let y = (to_persistence d).balance +ℤ p.amount.minor_units in
      let rows = w.db.accounts in
      let before = run.source.row in
      let before' = run.destination.row in
      let written = run.written in
      let (_, _, sum) = add-eq_ok p.amount p.fee t run.sum in
      let (_, _, covered, _) = debit-eq_ok now t r s s' run.debited in
      let after : w'.db.accounts
          ≡ rows_after (updated now y (to_persistence d))
              (rows_after (updated now x (to_persistence s)) rows) =
        written.accounts
        ∙ ap (λ u. rows_after u (rows_after (to_persistence s') rows)) row_credited
        ∙ ap (λ u. rows_after (updated now y (to_persistence d)) (rows_after u rows)) row_debited in
      let ne : p.source_account_id ≢ p.destination_account_id =
        ids_ne (to_persistence s) (to_persistence d) now x y p.source_account_id
          p.destination_account_id rows before before'
          (λ e. written.found (
            ap
              (λ u.
                count (has_id_version u.id (u.version - 1)) (rows_after (to_persistence s') rows))
              row_credited
            ∙ ap
                (λ u.
                  count (has_id_version (to_persistence d).id ((to_persistence d).version + 1 - 1))
                    (rows_after u rows))
                row_debited
            ∙ e)) in
      record {
        source = to_persistence s;
        destination = to_persistence d;
        distinct = ne;
        source_before = before;
        destination_before = before';
        owned = user_id-to_persistence s ∙ run.owner;
        covered = rw (← sum, balance-to_persistence s) covered;
        source_after =
            ap (find (has_id p.source_account_id)) after
            ∙ find-first (to_persistence s) (to_persistence d) now x y p.source_account_id
                p.destination_account_id rows before before' ne;
        destination_after =
            ap (find (has_id p.destination_account_id)) after
            ∙ find-second (to_persistence s) (to_persistence d) now x y p.source_account_id
                p.destination_account_id rows before before' ne;
        others = λ i j k.
            ap (find (has_id i)) after
            ∙ find-other (to_persistence s) (to_persistence d) now x y p.source_account_id
                p.destination_account_id rows before before' i j k;
        total = t;
        debited = s';
        credited = d';
        journal = written.journal;
        entries = written.entries;
        rows = written.rows;
        balanced = written.balanced;
        ledger = written.ledger;
      }

-- A run of the steps before `markSuccessful`; the transfers are the same after it.
pub settle-IsTransferred :
    (now : ℕ) (r : String) (p : InternalParams) (w : World) (es : List DomainEvent) {w' : World}
    → settle now r p w ≡ (ok es, w')
    → IsTransferred now r p w w' × (w'.db.transfers ≡ w.db.transfers)
settle-IsTransferred now r p w es {w'} h =
    let (s, d, s', d', t, run) = settle-IsRun now r p w es h in
    (IsRun-IsTransferred now r p w w' s d s' d' t run, run.written.transfers)
