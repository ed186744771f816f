-- ===== src/Accounts/Repository/Rows.antt =====
-- The row of an account after a credit or a debit.
use kudi_ai.Common.{◌≡◌, refl, String, ℕ, ◌+◌}
use kudi_ai.Common.Int.{ℤ, ◌+ℤ◌, ◌-ℤ◌}
use kudi_ai.Shared.Money.{Money}
use kudi_ai.Database.{AccountRecord}
use kudi_ai.Accounts.Account.{Account}
use kudi_ai.Accounts.Account.Laws.{debited, credited}
use kudi_ai.Accounts.Mapper.{to_persistence}

-- A row after its balance became `balance` at the time `now`.
abbrev pub updated : ℕ → ℤ → AccountRecord → AccountRecord
updated now balance r = record r { balance = balance; version = r.version + 1; updated_at = now }

pub to_persistence-debited :
    (now : ℕ) (m : Money) (r : String) (a : Account)
    → to_persistence (debited now m r a)
      ≡ updated now (a.balance.minor_units -ℤ m.minor_units) (to_persistence a)
unfolding to_persistence
to_persistence-debited now m r a = refl

pub to_persistence-credited :
    (now : ℕ) (m : Money) (r : String) (a : Account)
    → to_persistence (credited now m r a)
      ≡ updated now (a.balance.minor_units +ℤ m.minor_units) (to_persistence a)
unfolding to_persistence
to_persistence-credited now m r a = refl

pub balance-to_persistence : (a : Account) → (to_persistence a).balance ≡ a.balance.minor_units
unfolding to_persistence
balance-to_persistence a = refl

pub user_id-to_persistence : (a : Account) → (to_persistence a).user_id ≡ a.user_id
unfolding to_persistence
user_id-to_persistence a = refl
