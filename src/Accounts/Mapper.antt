-- ===== src/Accounts/Mapper.antt =====
-- modules/accounts/infrastructure/mappers/account.mapper.ts and
-- modules/accounts/domain/value-objects/account-number.vo.ts. An account number is its text.
use kudi_ai.Common.{◌≡◌, arith, String, ◌&&◌, Bool, true, not, eqb, length, codes, all, []}
use Prim.Native.String
use kudi_ai.Common.Int.{pos, ◌≤ℤ◌}
use kudi_ai.Shared.Errors.{Result, ok, ◌>>=◌, ◌>>◌, throw_if, domain_exception}
use kudi_ai.Shared.Money.{from_minor_units}
use kudi_ai.Shared.Money.Decimal.{is_digit}
use kudi_ai.Database.{AccountRecord}
use kudi_ai.Accounts.Account.{Account, reconstitute}

-- NUBAN_REGEX, /^\d{10}$/; it also refuses the empty text.
unfoldable pub matches_nuban : String → Bool
unfolding is_digit
matches_nuban s = eqb (length (codes s)) 10 && all is_digit (codes s)

-- `AccountNumber.create`
unfoldable pub create_account_number : String → Result String
create_account_number raw = do
  throw_if (not (matches_nuban raw)) (
      domain_exception (String.◌++◌ "Invalid account number, expected 10 digits (NUBAN): " raw)
        "INVALID_ACCOUNT_NUMBER")
  ok raw

-- `AccountMapper.toDomain`
unfoldable pub to_domain : AccountRecord → Result Account
unfolding create_account_number from_minor_units
to_domain r = do
  account_number ← create_account_number r.account_number
  balance ← from_minor_units r.balance r.currency
  ok (
      reconstitute (record {
        id = r.id;
        user_id = r.user_id;
        account_number = account_number;
        account_type = r.account_type;
        currency = r.currency;
        balance = balance;
        status = r.status;
        version = r.version;
        created_at = r.created_at;
        updated_at = r.updated_at;
      }))

-- `AccountMapper.toPersistence`
unfoldable pub to_persistence : Account → AccountRecord
to_persistence a = record {
  id = a.id;
  user_id = a.user_id;
  account_number = a.account_number;
  account_type = a.account_type;
  currency = a.currency;
  balance = a.balance.minor_units;
  status = a.status;
  version = a.version;
  created_at = a.created_at;
  updated_at = a.updated_at;
}

-- What the aggregate needs so that its row can be read back.
pub record IsStorable (a : Account) : Type 0 where
  pub numbered : matches_nuban a.account_number ≡ true
  pub one_currency : a.balance.currency ≡ a.currency
  pub nonneg : pos 0 ≤ℤ a.balance.minor_units

-- A storable account is read back from its row, without its events.
pub to_domain-to_persistence :
    (a : Account) → IsStorable a → to_domain (to_persistence a) ≡ ok (reconstitute a.props)
unfolding to_domain to_persistence
to_domain-to_persistence a v = ground arith

-- A row that is read gives a storable account without events, and is what that account is written as.
pub to_persistence-to_domain :
    (r : AccountRecord) (a : Account)
    → to_domain r ≡ ok a
    → (to_persistence a ≡ r) × IsStorable a × (a.domain_events ≡ [])
unfolding to_domain to_persistence
to_persistence-to_domain r a h = ground arith
