-- ===== src/Transfers/InitiateInternal/Effects.antt =====
-- What the handler has checked and done where it returns.
use mathlib.Core.Path.{subst}
use kudi_ai.Common.{◌≡◌, refl, ◌∙◌, arith, true, some, inl, inr, ◌==◌}
use kudi_ai.Shared.Enums.{internal, successful}
use kudi_ai.Shared.Errors.{ok, Result-cases}
use kudi_ai.Shared.Money.{Money, from_decimal_string, zero_money}
use kudi_ai.Database.{World, publish_all}
use kudi_ai.Compliance.Limits.{TierLimits}
use kudi_ai.Accounts.Account.{Account}
use kudi_ai.Accounts.Commands.{get_account}
use kudi_ai.Accounts.Commands.Laws.{get_account-Same, get_account-row}
use kudi_ai.Database.Tables.{find}
use kudi_ai.Accounts.Mapper.{to_persistence}
use kudi_ai.Accounts.Repository.{has_id}
use kudi_ai.Transfers.Transfer.{Transfer}
use kudi_ai.Transfers.Fees.{calculate_fee}
use kudi_ai.Transfers.Limits.{assert_within_limits, IsAllowed, assert_within_limits-IsAllowed}
use kudi_ai.Transfers.Limits.Frame.{Kept, assert_within_limits-Kept, IsAllowed-of_Kept}
use kudi_ai.Transfers.Executor.{execute}
use kudi_ai.Transfers.Executor.Books.{IsTransferred, IsTransferred-of_tables}
use kudi_ai.Transfers.Executor.Outcomes.{execute-eq_ok}
use kudi_ai.Transfers.InitiateInternal.{Command, price, params_of, prepare, do_execute}

-- What the handler has checked: the row of the source account is the initiator's, the amount is the
-- one that the text of the command denotes, and the limits allow it now.
pub record IsPrepared (c : Command) (w : World) (m f : Money) : Type 0 where
  pub source : Account
  pub row : find (has_id c.source_account_id) w.db.accounts ≡ some (to_persistence source)
  pub owned : (source.user_id == c.initiator_user_id) ≡ true
  pub amount : from_decimal_string c.amount source.currency ≡ ok m
  pub limits : TierLimits
  pub allowed : IsAllowed c.initiator_user_id c.source_account_id m w limits
  pub free : f ≡ zero_money m.currency

calculate_fee_internal : (m : Money) → calculate_fee m internal ≡ ok (zero_money m.currency)
unfolding calculate_fee
calculate_fee_internal m = refl

IsAllowed-of_amount :
    (c : Command) (n m : Money) (w : World) (l : TierLimits)
    → n ≡ m
    → IsAllowed c.initiator_user_id c.source_account_id n w l
    → IsAllowed c.initiator_user_id c.source_account_id m w l
IsAllowed-of_amount c n m w l e p = rw (← e) p

price-eq_ok :
    (c : Command) (a : Account) (w : World) (m f : Money) {w' : World}
    → price c a w ≡ (ok (m, f), w')
    → (from_decimal_string c.amount a.currency ≡ ok m)
      × (l : TierLimits) × IsAllowed c.initiator_user_id c.source_account_id m w l
      × (f ≡ zero_money m.currency)
      × Kept w w'
unfolding price
price-eq_ok c a w m f {w'} h = elim (Result-cases (from_decimal_string c.amount a.currency)) [
  | inr (x, g) ↦ absurd (ground arith)
  | inl (n, g) ↦
      let w₁ = (assert_within_limits c.initiator_user_id c.source_account_id n w).1 in
      let fee = calculate_fee_internal n in
      let kept = assert_within_limits-Kept c.initiator_user_id c.source_account_id n w in
      elim (Result-cases (assert_within_limits c.initiator_user_id c.source_account_id n w).0) [
        | inr (x, e) ↦ absurd (ground arith)
        | inl (_, e) ↦
            let (l, allowed, db) =
              assert_within_limits-IsAllowed c.initiator_user_id c.source_account_id n w {w' = w₁}
                (ground arith) in
            let equal : n ≡ m = ground arith in
            (
              ground arith,
              l,
              IsAllowed-of_amount c n m w l equal allowed,
              ground arith,
              ground arith,
            )
      ]
]

prepare-IsPrepared :
    (c : Command) (w : World) (m f : Money) {w' : World}
    → prepare c w ≡ (ok (m, f), w')
    → IsPrepared c w m f × Kept w w'
unfolding prepare
prepare-IsPrepared c w m f {w'} h =
    let w₁ = (get_account c.source_account_id w).1 in
    let (db, _, now) = get_account-Same c.source_account_id w in
    elim (Result-cases (get_account c.source_account_id w).0) [
      | inr (x, e) ↦ absurd (ground arith)
      | inl (a, e) ↦
          let (parsed, l, allowed, free, (db', now')) =
            price-eq_ok c a w₁ m f {w' = w'} (ground arith) in
          (
            record {
              source = a;
              row = get_account-row c.source_account_id w a {w' = w₁} (ground arith);
              owned = ground arith;
              amount = parsed;
              limits = l;
              allowed =
                  IsAllowed-of_Kept c.initiator_user_id c.source_account_id m l w w₁ (db, now)
                    allowed;
              free = free;
            },
            (db' ∙ db, now' ∙ now),
          )
    ]

-- Any failures of the client allowed: if the handler returns, the source account of the command is
-- the initiator's, the amount m is what the text of the command denotes in the currency of that
-- account, the limits of the initiator's tier allow it at the time of the call, the fee is zero, and
-- the executor has done the transfer of m at that time: its effects on accounts and ledger, and the
-- SUCCESSFUL row.
pub do_execute-IsTransferred :
    (c : Command) (w : World) (t : Transfer) {w' : World}
    → do_execute c w ≡ (ok t, w')
    → (m f : Money) × IsPrepared c w m f
      × IsTransferred w.now t.reference (params_of c m f) w w'
      × (t.status ≡ successful)
unfolding do_execute publish_all
do_execute-IsTransferred c w t {w'} h =
    let w₁ = (prepare c w).1 in
    elim (Result-cases (prepare c w).0) [
      | inr (x, e) ↦ absurd (ground arith)
      | inl ((m, f), e) ↦
          let p = params_of c m f in
          let w₂ = (execute p w₁).1 in
          elim (Result-cases (execute p w₁).0) [
            | inr (x, g) ↦ absurd (ground arith)
            | inl ((u, es), g) ↦
                let (ready, (db, now)) = prepare-IsPrepared c w m f {w' = w₁} (ground arith) in
                let (done, status, _) = execute-eq_ok p w₁ w₂ u es (ground arith) in
                let equal : u ≡ t = ground arith in
                (
                  m,
                  f,
                  ready,
                  IsTransferred-of_tables w.now t.reference p w w₁ w₂ w' db (ground arith)
                      (ground arith)
                      (subst (λ n. IsTransferred n t.reference p w₁ w₂) now (rw equal at done)),
                  rw equal at status,
                )
          ]
    ]
