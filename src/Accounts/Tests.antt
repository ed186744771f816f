-- ===== src/Accounts/Tests.antt =====
-- Instances of the properties of accounts.
use kudi_ai.Common.{◌+◌, ◌≡◌, ◌≢◌, refl, arith, some, []}
use kudi_ai.Common.Int.{pos}
use kudi_ai.Shared.Enums.{active, ngn, savings}
use kudi_ai.Shared.Errors.{ok}
use kudi_ai.Database.{AccountRecord, World}
use kudi_ai.Database.Samples.{naira, account_row, two_accounts}
use kudi_ai.Accounts.Account.{Account, debit, credit, reconstitute, freeze}
use kudi_ai.Accounts.Account.Laws.{debited, credited, debit-credit}
use kudi_ai.Accounts.Account.Invariant.{IsValid, debit-IsValid}
use kudi_ai.Accounts.Account.History.{here, next, debits, freezes, IsAudited, Reach-IsAudited}
use kudi_ai.Accounts.Mapper.{
  matches_nuban, to_domain, to_persistence, IsStorable, to_persistence-to_domain,
}
use kudi_ai.Accounts.Repository.{save, find_by_id}
use kudi_ai.Accounts.Repository.Concurrency.{save-save_conflict, find_by_id-save}

abbrev ada_row : AccountRecord
ada_row = account_row "a" "ada" "0000000001" (pos 100000)

abbrev ada : Account
ada = reconstitute (record {
  id = "a";
  user_id = "ada";
  account_number = "0000000001";
  account_type = savings;
  currency = ngn;
  balance = naira 100000;
  status = active;
  version = 3;
  created_at = 1;
  updated_at = 1;
})

ada-IsValid : IsValid ada
ada-IsValid = ground arith

ada-IsStorable : IsStorable ada
unfolding matches_nuban
ada-IsStorable = record { numbered = refl; one_currency = refl; nonneg = ground arith }

-- Ada after a debit of 5.00, and frozen then.
abbrev ada_debited : Account
ada_debited = debited 7 (naira 500) "R" ada

debit-ada : debit 7 (naira 500) "R" ada ≡ ok ada_debited
unfolding debit
debit-ada = ground arith

credit-ada : credit 7 (naira 500) "R" ada ≡ ok (credited 7 (naira 500) "R" ada)
unfolding credit
credit-ada = ground arith

debit-credit_example :
    (c : Account) × (debit 9 (naira 500) "S" (credited 7 (naira 500) "R" ada) ≡ ok c)
    × (c.balance ≡ ada.balance)
    × (c.version ≡ ada.version + 2)
    × (c.status ≡ active)
debit-credit_example =
    debit-credit 7 9 (naira 500) "R" "S" ada (credited 7 (naira 500) "R" ada) refl (ground arith)
      credit-ada

Reach-IsAudited_example :
    IsValid (freeze 8 "review" ada_debited) × IsAudited ada (freeze 8 "review" ada_debited)
Reach-IsAudited_example =
    Reach-IsAudited ada-IsValid
      (next (next here (debits 7 (naira 500) "R" (ground arith) debit-ada)) (freezes 8 "review"))

reads_ada_row : to_domain ada_row ≡ ok ada
unfolding to_domain matches_nuban
reads_ada_row = refl

to_persistence-to_domain_example :
    (to_persistence ada ≡ ada_row) × IsStorable ada × (ada.domain_events ≡ [])
to_persistence-to_domain_example = to_persistence-to_domain ada_row ada reads_ada_row

-- The world after Ada's debited account was saved.
abbrev saved : World
saved = (save ada_debited two_accounts).1

saves_ada : save ada_debited two_accounts ≡ (ok tt, saved)
unfolding save
saves_ada = refl

debited-IsStorable : IsStorable ada_debited
unfolding matches_nuban
debited-IsStorable = record {
  numbered = refl;
  one_currency = refl;
  nonneg = (debit-IsValid 7 (naira 500) "R" ada ada_debited ada-IsValid debit-ada).nonneg;
}

save-save_conflict_example :
    ((save ada_debited saved).0 ≢ ok tt) × ((save ada_debited saved).1.db ≡ saved.db)
save-save_conflict_example =
    save-save_conflict ada_debited ada_debited two_accounts saved (omega arith) refl refl saves_ada

no_more_failures : saved.outcomes ≡ []
unfolding save
no_more_failures = refl

find_by_id-save_example : (find_by_id "a" saved).0 ≡ ok (some (reconstitute ada_debited.props))
find_by_id-save_example =
    find_by_id-save ada_debited ada_row two_accounts saved (omega arith) debited-IsStorable refl
      refl saves_ada no_more_failures
