-- ===== src/Transfers/Executor/Phases.antt =====
-- What each phase of the transaction does where it goes through.
use kudi_ai.Common.{
  ◌≡◌, ◌≢◌, ap, ◌∙◌, arith, String, ℕ, ◌-◌, true, some, List, [], ◌++◌, ◌==◌, eq_iff, inl, inr,
}
use kudi_ai.Shared.Errors.{ok, Result-cases}
use kudi_ai.Shared.Money.{Money}
use kudi_ai.Database.{AccountRecord, LedgerEntry, World, query-frame}
use kudi_ai.Database.Tables.{find, count}
use kudi_ai.Accounts.Account.{Account, debit, credit}
use kudi_ai.Accounts.Mapper.{to_domain, to_persistence, IsStorable, to_persistence-to_domain}
use kudi_ai.Accounts.MaxBalance.Frame.{assert_within_limit-Same}
use kudi_ai.Accounts.Repository.{has_id, has_id_version, update_versioned}
use kudi_ai.Accounts.Repository.Concurrency.{rows_after, update_versioned-eq_ok}
use kudi_ai.Transfers.Transfer.{InternalParams}
use kudi_ai.Ledger.{post}
use kudi_ai.Ledger.Balance.{IsBalanced}
use kudi_ai.Ledger.Journal.{AreRowsOf, post-eq_ok}
use kudi_ai.Transfers.Executor.{
  load_record, load_accounts, move_funds, transfer_legs, transfer_posting, write_changes,
}

-- The parts of the world that reading leaves alone.
abbrev pub Same : World → World → Type 0
Same w w' = (w'.db ≡ w.db) × (w'.published ≡ w.published) × (w'.now ≡ w.now)

load_record-Same : (id : String) (w : World) → Same w (load_record id w).1
unfolding load_record
load_record-Same id w = ground (arith, query-frame w)

load_record-eq_ok :
    (id : String) (w : World) (r : AccountRecord) {w' : World}
    → load_record id w ≡ (ok r, w')
    → find (has_id id) w.db.accounts ≡ some r
unfolding load_record
load_record-eq_ok id w r h = ground (arith, query-frame w)

pub load_accounts-Same : (p : InternalParams) (w : World) → Same w (load_accounts p w).1
unfolding load_accounts
load_accounts-Same p w =
    let w₁ = (load_record p.source_account_id w).1 in
    ground
      (arith, load_record-Same p.source_account_id w, load_record-Same p.destination_account_id w₁)

-- The account that a row of the table with this id stands for.
pub record IsLoaded (id : String) (w : World) (a : Account) : Type 0 where
  pub row : find (has_id id) w.db.accounts ≡ some (to_persistence a)
  pub storable : IsStorable a
  pub no_events : a.domain_events ≡ []

IsLoaded-of_to_domain :
    (id : String) (w : World) (r : AccountRecord) (a : Account)
    → find (has_id id) w.db.accounts ≡ some r
    → to_domain r ≡ ok a
    → IsLoaded id w a
IsLoaded-of_to_domain id w r a f h =
    let (same, storable, empty) = to_persistence-to_domain r a h in
    record { row = rw same f; storable = storable; no_events = empty }

module _ (p : InternalParams) (w : World) (s d : Account) {w' : World} where
  load_of_records :
      load_accounts p w ≡ (ok (s, d), w')
      → (r q : AccountRecord) × (find (has_id p.source_account_id) w.db.accounts ≡ some r)
        × (find (has_id p.destination_account_id) w.db.accounts ≡ some q)
        × (to_domain r ≡ ok s)
        × (to_domain q ≡ ok d)
        × ((s.user_id == p.initiator_user_id) ≡ true)
  unfolding load_accounts
  load_of_records h =
      let w₁ = (load_record p.source_account_id w).1 in
      let w₂ = (load_record p.destination_account_id w₁).1 in
      elim (Result-cases (load_record p.source_account_id w).0) [
        | inr (x, e) ↦ absurd (ground arith)
        | inl (r, e) ↦ elim (Result-cases (load_record p.destination_account_id w₁).0) [
          | inr (x, f) ↦ absurd (ground arith)
          | inl (q, f) ↦ (
            r,
            q,
            load_record-eq_ok p.source_account_id w r {w' = w₁} (ground arith),
            (ground (
              arith,
              load_record-Same p.source_account_id w,
              load_record-eq_ok p.destination_account_id w₁ q {w' = w₂},
            )),
            ground arith,
            ground arith,
            ground arith,
          )
        ]
      ]

pub load_accounts-eq_ok :
    (p : InternalParams) (w : World) (s d : Account) {w' : World}
    → load_accounts p w ≡ (ok (s, d), w')
    → IsLoaded p.source_account_id w s
      × IsLoaded p.destination_account_id w d
      × (s.user_id ≡ p.initiator_user_id)
load_accounts-eq_ok p w s d {w'} h =
    let (r, q, f, g, e, k, owner) = load_of_records p w s d {w' = w'} h in
    (
      IsLoaded-of_to_domain p.source_account_id w r s f e,
      IsLoaded-of_to_domain p.destination_account_id w q d g k,
      (eq_iff _ _).0 owner,
    )

pub move_funds-Same :
    (now : ℕ) (r : String) (p : InternalParams) (t : Money) (s d : Account) (w : World)
    → Same w (move_funds now r p t s d w).1
unfolding move_funds
move_funds-Same now r p t s d w = ground (arith, assert_within_limit-Same d p.amount w)

pub move_funds-eq_ok :
    (now : ℕ) (r : String) (p : InternalParams) (t : Money) (s d s' d' : Account) (w : World)
    {w' : World}
    → move_funds now r p t s d w ≡ (ok (s', d'), w')
    → (debit now t r s ≡ ok s') × (credit now p.amount r d ≡ ok d')
unfolding move_funds
move_funds-eq_ok now r p t s d s' d' w h = ground arith

-- Two updates and a posting, one after the other.
writes_together :
    (w w₁ w₂ w' : World) (s d : AccountRecord) (es : List LedgerEntry)
    → w₁.db ≡ record w.db { accounts = rows_after s w.db.accounts }
    → w₂.db ≡ record w₁.db { accounts = rows_after d w₁.db.accounts }
    → count (has_id_version d.id (d.version - 1)) w₁.db.accounts ≢ 0
    → w'.db ≡ record w₂.db { ledger_entries = w₂.db.ledger_entries ++ es }
    → (count (has_id_version d.id (d.version - 1)) (rows_after s w.db.accounts) ≢ 0)
      × (w'.db.accounts ≡ rows_after d (rows_after s w.db.accounts))
      × (w'.db.ledger_entries ≡ w.db.ledger_entries ++ es)
      × (w'.db.transfers ≡ w.db.transfers)
writes_together w w₁ w₂ w' s d es e f n g =
    let e' = ap (λ b. b.accounts) e in
    (
      rw (← e') n,
      ap (λ b. b.accounts) g ∙ ap (λ b. b.accounts) f ∙ ap (rows_after d) e',
      ap (λ b. b.ledger_entries) g
          ∙ ap (λ b. b.ledger_entries ++ es) f
          ∙ ap (λ b. b.ledger_entries ++ es) e,
      ap (λ b. b.transfers) g ∙ ap (λ b. b.transfers) f ∙ ap (λ b. b.transfers) e,
    )

-- The writes of a transaction that reached its end: both rows over the versions that were loaded,
-- and a balanced journal.
pub record IsWritten (r : String) (p : InternalParams) (t : Money) (s d : Account) (w w' : World)
    : Type 0 where
  pub found :
      let row = to_persistence d in
      count (has_id_version row.id (row.version - 1)) (rows_after (to_persistence s) w.db.accounts)
      ≢ 0
  pub balanced : IsBalanced (transfer_legs p t s d)
  pub accounts :
      w'.db.accounts ≡ rows_after (to_persistence d) (rows_after (to_persistence s) w.db.accounts)
  pub journal : String
  pub entries : List LedgerEntry
  pub rows : AreRowsOf (transfer_posting r p t s d) journal (transfer_legs p t s d) entries
  pub ledger : w'.db.ledger_entries ≡ w.db.ledger_entries ++ entries
  pub transfers : w'.db.transfers ≡ w.db.transfers

pub write_changes-eq_ok :
    (r : String) (p : InternalParams) (t : Money) (s d : Account) (w : World) {w' : World}
    → write_changes r p t s d w ≡ (ok tt, w')
    → IsWritten r p t s d w w'
unfolding write_changes
write_changes-eq_ok r p t s d w {w'} h =
    let posting = transfer_posting r p t s d in
    let w₁ = (update_versioned (to_persistence s) w).1 in
    let w₂ = (update_versioned (to_persistence d) w₁).1 in
    let first : update_versioned (to_persistence s) w ≡ (ok tt, w₁) = ground arith in
    let second : update_versioned (to_persistence d) w₁ ≡ (ok tt, w₂) = ground arith in
    let third : post posting w₂ ≡ (ok tt, w') = ground arith in
    let (db₁, _, _, _) = update_versioned-eq_ok (to_persistence s) w first in
    let (db₂, found, _, _) = update_versioned-eq_ok (to_persistence d) w₁ second in
    let (j, es, posted) = post-eq_ok posting w₂ third in
    let (n, a, l, t') =
      writes_together w w₁ w₂ w' (to_persistence s) (to_persistence d) es db₁ db₂ found
        posted.written in
    record {
      found = n;
      balanced = posted.balanced;
      accounts = a;
      journal = j;
      entries = es;
      rows = posted.rows;
      ledger = l;
      transfers = t';
    }
