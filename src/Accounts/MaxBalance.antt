-- ===== src/Accounts/MaxBalance.antt =====
-- modules/accounts/infrastructure/services/max-balance-guard.service.ts
pub mod Frame
use kudi_ai.Common.{not, Option, none, some}
use kudi_ai.Shared.Errors.{max_balance_exceeded}
use kudi_ai.Shared.Enums.{KycTier}
use kudi_ai.Shared.Action.{Action, pure, lift, throw_if, ◌>>=◌}
use kudi_ai.Shared.Money.{Money, add, is_greater_than_or_equal_to}
use kudi_ai.Database.{World}
use kudi_ai.Compliance.Limits.{find_by_tier, resolve_tier}
use kudi_ai.Accounts.Account.{Account}

-- `limits.maxBalance && !limits.maxBalance.isGreaterThanOrEqualTo(balance.add(amount))`
unfoldable pub check_max_balance :
    KycTier → Option Money → (balance amount : Money) → Action World (Unit {0})
unfolding add is_greater_than_or_equal_to
check_max_balance tier none balance amount = pure tt
check_max_balance tier (some limit) balance amount = do
  total ← lift (add balance amount)
  within ← lift (is_greater_than_or_equal_to limit total)
  throw_if (not within) (max_balance_exceeded tier)

-- `assertWithinLimit`
unfoldable pub assert_within_limit : Account → Money → Action World (Unit {0})
assert_within_limit account amount = do
  tier ← resolve_tier account.user_id
  limits ← find_by_tier tier account.currency
  check_max_balance tier limits.max_balance account.balance amount
