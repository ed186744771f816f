-- ===== src/Transfers/Executor/Effects.antt =====
-- What a transaction of the executor that goes through leaves in the tables.
use kudi_ai.Common.{◌≡◌, ◌∙◌, arith, String, ℕ, List, inl, inr}
use kudi_ai.Shared.Errors.{ok, Result-cases}
use kudi_ai.Shared.Events.{DomainEvent}
use kudi_ai.Shared.Money.{Money}
use kudi_ai.Shared.Money as Amount
use kudi_ai.Database.{World}
use kudi_ai.Accounts.Account.{Account, debit, credit}
use kudi_ai.Transfers.Transfer.{InternalParams}
use kudi_ai.Transfers.Executor.{load_accounts, move_funds, write_changes, settle}
use kudi_ai.Transfers.Executor.Phases.{
  load_accounts-Same, IsLoaded, load_accounts-eq_ok, move_funds-Same, move_funds-eq_ok, IsWritten,
  write_changes-eq_ok,
}

-- The accounts and the amount that a transaction went through with.
pub record IsRun (now : ℕ) (reference : String) (p : InternalParams) (w w' : World)
    (s d s' d' : Account) (total : Money) : Type 0 where
  pub source : IsLoaded p.source_account_id w s
  pub destination : IsLoaded p.destination_account_id w d
  pub owner : s.user_id ≡ p.initiator_user_id
  pub sum : Amount.add p.amount p.fee ≡ ok total
  pub debited : debit now total reference s ≡ ok s'
  pub credited : credit now p.amount reference d ≡ ok d'
  pub written : IsWritten reference p total s' d' w w'

IsWritten-of_db :
    (r : String) (p : InternalParams) (t : Money) (s d : Account) (w w₀ w' : World)
    → w₀.db ≡ w.db
    → IsWritten r p t s d w₀ w'
    → IsWritten r p t s d w w'
IsWritten-of_db r p t s d w w₀ w' e h = record {
  found = rw (← e) h.found;
  balanced = h.balanced;
  accounts = rw (← e) h.accounts;
  journal = h.journal;
  entries = h.entries;
  rows = h.rows;
  ledger = rw (← e) h.ledger;
  transfers = rw (← e) h.transfers;
}

pub settle-IsRun :
    (now : ℕ) (r : String) (p : InternalParams) (w : World) (es : List DomainEvent) {w' : World}
    → settle now r p w ≡ (ok es, w')
    → (s d s' d' : Account) × (t : Money) × IsRun now r p w w' s d s' d' t
unfolding settle
settle-IsRun now r p w es {w'} h =
    let w₁ = (load_accounts p w).1 in
    elim (Result-cases (load_accounts p w).0) [
      | inr (x, e) ↦ absurd (ground arith)
      | inl ((s, d), e) ↦ elim (Result-cases (Amount.add p.amount p.fee)) [
        | inr (x, f) ↦ absurd (ground arith)
        | inl (t, f) ↦
            let w₂ = (move_funds now r p t s d w₁).1 in
            elim (Result-cases (move_funds now r p t s d w₁).0) [
              | inr (x, g) ↦ absurd (ground arith)
              | inl ((s', d'), g) ↦
                  let (ls, ld, owner) = load_accounts-eq_ok p w s d {w' = w₁} (ground arith) in
                  let (b, c) = move_funds-eq_ok now r p t s d s' d' w₁ {w' = w₂} (ground arith) in
                  let (same, _, _) = load_accounts-Same p w in
                  let (same', _, _) = move_funds-Same now r p t s d w₁ in
                  let k : write_changes r p t s' d' w₂ ≡ (ok tt, w') = ground arith in
                  (
                    s,
                    d,
                    s',
                    d',
                    t,
                    record {
                      source = ls;
                      destination = ld;
                      owner = owner;
                      sum = f;
                      debited = b;
                      credited = c;
                      written =
                          IsWritten-of_db r p t s' d' w w₂ w' (same' ∙ same)
                            (write_changes-eq_ok r p t s' d' w₂ k);
                    },
                  )
            ]
      ]
    ]
