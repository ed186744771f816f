-- ===== src/Transfers/Mapper.antt =====
-- modules/transfers/infrastructure/mappers/transfer.mapper.ts and the value objects
-- transfer-reference.vo.ts and external-recipient.vo.ts. A reference is its text.
use kudi_ai.Common.{
  ◌≡◌, refl, arith, String, ◌&&◌, ◌||◌, Bool, true, false, not, eqb, leb, length, codes, all, List,
  [], ◌∷◌, Option, none, some, if◌then◌else◌, ◌==◌,
}
use Prim.Native.String
use kudi_ai.Common.{ℕ, ◌<◌, eq_iff, Bool-cases, inl, inr}
use kudi_ai.Common.Int.{pos, ◌≤ℤ◌}
use kudi_ai.Shared.Errors.{Result, ok, err, ◌>>=◌, ◌>>◌, throw_if, domain_exception}
use kudi_ai.Shared.Money.{from_minor_units}
use kudi_ai.Shared.Money.Decimal.{is_digit}
use kudi_ai.Database.{TransferRecord}
use kudi_ai.Transfers.Transfer.{Transfer, ExternalRecipient, reconstitute}

-- [A-Z0-9]
abbrev is_reference_char : ℕ → Bool
is_reference_char c = (leb b'A' c && leb c b'Z') || (leb b'0' c && leb c b'9')

abbrev matches_after_prefix : List ℕ → List ℕ → Bool
matches_after_prefix [] cs = eqb (length cs) 16 && all is_reference_char cs
matches_after_prefix (p ∷ ps) [] = false
matches_after_prefix (p ∷ ps) (c ∷ cs) = eqb p c && matches_after_prefix ps cs

-- REFERENCE_REGEX, /^KUDI-[A-Z0-9]{16}$/
unfoldable pub matches_reference : String → Bool
matches_reference s = matches_after_prefix (codes "KUDI-") (codes s)

-- `TransferReference.create`
unfoldable pub create_reference : String → Result String
unfolding matches_reference
create_reference raw = do
  throw_if (not (matches_reference raw)) (
      domain_exception (String.◌++◌ "Invalid transfer reference: " raw)
        "INVALID_TRANSFER_REFERENCE")
  ok raw

-- BANK_CODE_REGEX and ACCOUNT_NUMBER_REGEX
unfoldable pub matches_digits : ℕ → String → Bool
unfolding is_digit
matches_digits n s = eqb (length (codes s)) n && all is_digit (codes s)

-- `ExternalRecipient.create`
unfoldable pub create_recipient :
    (bank_code account_number : String) (account_name : Option String) → Result ExternalRecipient
create_recipient bank_code account_number account_name = do
  throw_if (not (matches_digits 3 bank_code)) (
      domain_exception (String.◌++◌ "Invalid bank code, expected 3 digits: " bank_code)
        "INVALID_BANK_CODE")
  throw_if (not (matches_digits 10 account_number)) (
      domain_exception
        (String.◌++◌ "Invalid recipient account number, expected 10 digits: " account_number)
        "INVALID_RECIPIENT_ACCOUNT_NUMBER")
  ok (record {
    bank_code = bank_code;
    account_number = account_number;
    account_name = account_name;
  })

-- `record.recipientBankCode && record.recipientAccountNumber ? create(…) : null`: the empty text
-- is falsy too.
unfoldable pub read_recipient :
    Option String → Option String → Option String → Result (Option ExternalRecipient)
unfolding create_recipient
read_recipient (some b) (some n) name =
    if b == "" || n == ""
    then ok none
    else elim (create_recipient b n name) [ ok r ↦ ok (some r) | err e ↦ err e ]
read_recipient (some b) none name = ok none
read_recipient none _ name = ok none

-- `TransferMapper.toDomain`
unfoldable pub to_domain : TransferRecord → Result Transfer
unfolding create_reference from_minor_units
to_domain r = do
  recipient ←
      read_recipient r.recipient_bank_code r.recipient_account_number r.recipient_account_name
  reference ← create_reference r.reference
  amount ← from_minor_units r.amount_minor_units r.currency
  fee ← from_minor_units r.fee_minor_units r.currency
  ok (
      reconstitute (record {
        id = r.id;
        reference = reference;
        kind = r.kind;
        initiator_user_id = r.initiator_user_id;
        source_account_id = r.source_account_id;
        destination_account_id = r.destination_account_id;
        external_recipient = recipient;
        amount = amount;
        fee = fee;
        narration = r.narration;
        status = r.status;
        failure_reason = r.failure_reason;
        provider_reference = r.provider_reference;
        version = r.version;
        created_at = r.created_at;
        updated_at = r.updated_at;
      }))

abbrev bank_code_of : Option ExternalRecipient → Option String
bank_code_of none = none
bank_code_of (some r) = some r.bank_code

abbrev account_number_of : Option ExternalRecipient → Option String
account_number_of none = none
account_number_of (some r) = some r.account_number

abbrev account_name_of : Option ExternalRecipient → Option String
account_name_of none = none
account_name_of (some r) = r.account_name

-- `TransferMapper.toPersistence`
unfoldable pub to_persistence : Transfer → TransferRecord
to_persistence t = record {
  id = t.id;
  reference = t.reference;
  kind = t.kind;
  initiator_user_id = t.initiator_user_id;
  source_account_id = t.source_account_id;
  destination_account_id = t.destination_account_id;
  recipient_bank_code = bank_code_of t.external_recipient;
  recipient_account_number = account_number_of t.external_recipient;
  recipient_account_name = account_name_of t.external_recipient;
  amount_minor_units = t.amount.minor_units;
  fee_minor_units = t.fee.minor_units;
  currency = t.amount.currency;
  narration = t.narration;
  status = t.status;
  failure_reason = t.failure_reason;
  provider_reference = t.provider_reference;
  version = t.version;
  created_at = t.created_at;
  updated_at = t.updated_at;
}

abbrev IsRecipient : Option ExternalRecipient → Type 0
IsRecipient none = Unit
IsRecipient (some r) =
    (matches_digits 3 r.bank_code ≡ true) × (matches_digits 10 r.account_number ≡ true)

-- What the aggregate needs so that its row can be read back.
pub record IsStorable (t : Transfer) : Type 0 where
  pub referenced : matches_reference t.reference ≡ true
  pub recipient : IsRecipient t.external_recipient
  pub one_currency : t.fee.currency ≡ t.amount.currency
  pub amount_nonneg : pos 0 ≤ℤ t.amount.minor_units
  pub fee_nonneg : pos 0 ≤ℤ t.fee.minor_units

-- A text of one digit or more is not empty.
matches_digits-ne_empty :
    (n : ℕ) (s : String) → 0 < n → matches_digits n s ≡ true → (s == "") ≡ false
unfolding matches_digits
matches_digits-ne_empty n s p h = elim (Bool-cases (s == "")) [
  | inl empty ↦
      let e : s ≡ "" = (eq_iff s "").0 empty in
      let none : (eqb 0 n && true) ≡ true = rw e at h in absurd (ground arith)
  | inr nonempty ↦ nonempty
]

read_recipient-of_recipient :
    (o : Option ExternalRecipient)
    → IsRecipient o
    → read_recipient (bank_code_of o) (account_number_of o) (account_name_of o) ≡ ok o
unfolding read_recipient
read_recipient-of_recipient none h = refl
read_recipient-of_recipient (some r) (b, n) =
    rw
      (
        matches_digits-ne_empty 3 r.bank_code (omega arith) b,
        matches_digits-ne_empty 10 r.account_number (omega arith) n,
        b,
        n,
      )
      refl

-- A storable transfer is read back from its row, without its events.
pub to_domain-to_persistence_transfer :
    (t : Transfer) → IsStorable t → to_domain (to_persistence t) ≡ ok (reconstitute t.props)
unfolding to_domain to_persistence
to_domain-to_persistence_transfer t v =
    ground (arith, read_recipient-of_recipient t.external_recipient v.recipient)
