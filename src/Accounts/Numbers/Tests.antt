-- ===== src/Accounts/Numbers/Tests.antt =====
-- A run of the generator.
use kudi_ai.Common.{◌≡◌, refl, codes, ℕ}
use kudi_ai.Shared.Errors.{ok}
use kudi_ai.Shared.Money.Decimal.{print_digits, pad_start, print_fuel, is_digit}
use kudi_ai.Database.{query}
use kudi_ai.Database.Samples.{two_accounts}
use kudi_ai.Accounts.Mapper.{create_account_number, matches_nuban}
use kudi_ai.Accounts.Repository.Queries.{exists_by_account_number}
use kudi_ai.Accounts.Numbers.{build_with_checksum, attempts, generate}
use kudi_ai.Accounts.Numbers.Checksum.{IsNuban, generate-IsNuban}

abbrev draws : ℕ → ℕ
draws n = 123456

makes : generate (codes "999") draws two_accounts ≡ (ok "9991234562", two_accounts)
unfolding generate attempts build_with_checksum create_account_number matches_nuban
    exists_by_account_number query pad_start print_digits print_fuel is_digit
makes = refl

generate-IsNuban_example :
    IsNuban (codes "999") two_accounts "9991234562" × (two_accounts.db ≡ two_accounts.db)
generate-IsNuban_example = generate-IsNuban (codes "999") draws two_accounts "9991234562" makes
