-- ===== src/Accounts/Numbers.antt =====
-- modules/accounts/infrastructure/services/nuban-account-number-generator.service.ts. The bank code
-- of the configuration and the draws of `randomInt(0, 1_000_000)` are parameters; `Number` of a
-- character is its digit, the bank code being digits.
mod Checksum
mod Tests
use kudi_ai.Common.{
  String, ℕ, zero, suc, ◌+◌, ◌-◌, ◌*◌, ◌%◌, Bool, true, false, List, [], ◌∷◌, ◌++◌, codes, eqb,
  if◌then◌else◌,
}
use kudi_ai.Shared.Errors.{failure}
use kudi_ai.Shared.Action.{Action, pure, throw, lift, ◌>>=◌, ◌>>◌}
use kudi_ai.Shared.Digits.{text_of}
use kudi_ai.Shared.Money.Decimal.{print_digits, pad_start}
use kudi_ai.Database.{World}
use kudi_ai.Accounts.Mapper.{create_account_number}
use kudi_ai.Accounts.Repository.Queries.{exists_by_account_number}

-- NUBAN_WEIGHTS
abbrev pub nuban_weights : List ℕ
nuban_weights = 3 ∷ 7 ∷ 3 ∷ 3 ∷ 7 ∷ 3 ∷ 3 ∷ 7 ∷ 3 ∷ []

-- MAX_GENERATION_ATTEMPTS
abbrev pub max_generation_attempts : ℕ
max_generation_attempts = 10

-- `reduce` from the left over the digits with their weights; a digit past the weights, which the
-- lengths exclude, would make the sum NaN there.
abbrev pub weigh : ℕ → List ℕ → List ℕ → ℕ
weigh acc [] ws = acc
weigh acc (c ∷ cs) [] = acc
weigh acc (c ∷ cs) (w ∷ ws) = weigh (acc + (c - b'0') * w) cs ws

-- `remainder === 0 ? 0 : 10 - remainder`
abbrev pub check_digit : (sum : ℕ) → ℕ
check_digit sum = if eqb (sum % 10) 0 then 0 else 10 - sum % 10

-- `buildWithChecksum`, on the characters' codes
unfoldable pub build_with_checksum : (bank_code serial : List ℕ) → List ℕ
build_with_checksum bank_code serial =
    (bank_code ++ serial) ++ (check_digit (weigh 0 (bank_code ++ serial) nuban_weights) + b'0') ∷ []

-- `randomInt(0, 1_000_000).toString().padStart(6, '0')`
abbrev pub serial_of : ℕ → List ℕ
serial_of n = pad_start 6 (print_digits n)

-- The loop of `generate`, from an attempt on.
unfoldable pub attempts :
    (bank_code : List ℕ) (draws : ℕ → ℕ) (attempt left : ℕ) → Action World String
attempts bank_code draws attempt zero =
    throw (failure "Unable to generate a unique account number after multiple attempts")
attempts bank_code draws attempt (suc left) = do
  account_number ←
      lift (
        create_account_number (text_of (build_with_checksum bank_code (serial_of (draws attempt)))))
  exists ← exists_by_account_number account_number
  if exists then attempts bank_code draws (attempt + 1) left else pure account_number

-- `generate`
unfoldable pub generate : (bank_code : List ℕ) (draws : ℕ → ℕ) → Action World String
generate bank_code draws = attempts bank_code draws 0 max_generation_attempts
