-- ===== src/Transfers/Transfer.antt =====
-- modules/transfers/domain/entities/transfer.entity.ts. `new Date()`, `randomUUID()` and
-- `TransferReference.generate()` are arguments; a transfer reference is its text.
pub mod Lifecycle
use kudi_ai.Common.{String, ℕ, ◌+◌, Option, none, some, List, [], ◌∷◌, ◌++◌, ◌==◌, if◌then◌else◌}
use kudi_ai.Shared.Enums.{
  TransferType, internal, external, TransactionStatus, pending, processing, successful, failed,
  reversed, is_terminal,
}
use kudi_ai.Shared.Errors.{Result, ok, ◌>>=◌, ◌>>◌, throw_if, invalid_transfer_state}
use kudi_ai.Shared.Events.{
  DomainEvent, transfer_initiated, transfer_completed, transfer_failed, transfer_reversed,
}
use kudi_ai.Shared.Money.{Money}

-- The fields of ExternalRecipient (domain/value-objects/external-recipient.vo.ts).
pub record ExternalRecipient : Type 0 where
  pub bank_code : String
  pub account_number : String
  pub account_name : Option String

pub record TransferProps : Type 0 where
  pub id : String
  pub reference : String
  pub kind : TransferType  -- `type`
  pub initiator_user_id : String
  pub source_account_id : String
  pub destination_account_id : Option String
  pub external_recipient : Option ExternalRecipient
  pub amount : Money
  pub fee : Money
  pub narration : String
  pub status : TransactionStatus
  pub failure_reason : Option String
  pub provider_reference : Option String
  pub version : ℕ
  pub created_at : ℕ
  pub updated_at : ℕ

pub record Transfer : Type 0 where
  pub props : TransferProps
  pub open props use *
  pub domain_events : List DomainEvent

-- What a call draws: `randomUUID()`, `TransferReference.generate()` and `new Date()`.
pub record Draw : Type 0 where
  pub id : String
  pub reference : String
  pub now : ℕ

-- The parameters of the two constructors.
pub record InternalParams : Type 0 where
  pub initiator_user_id : String
  pub source_account_id : String
  pub destination_account_id : String
  pub amount : Money
  pub fee : Money
  pub narration : String

pub record ExternalParams : Type 0 where
  pub initiator_user_id : String
  pub source_account_id : String
  pub recipient : ExternalRecipient
  pub amount : Money
  pub fee : Money
  pub narration : String

unfoldable pub initiate_internal : Draw → InternalParams → Transfer
initiate_internal d p = record {
  props = record {
    id = d.id;
    reference = d.reference;
    kind = internal;
    initiator_user_id = p.initiator_user_id;
    source_account_id = p.source_account_id;
    destination_account_id = some p.destination_account_id;
    external_recipient = none;
    amount = p.amount;
    fee = p.fee;
    narration = p.narration;
    status = pending;
    failure_reason = none;
    provider_reference = none;
    version = 0;
    created_at = d.now;
    updated_at = d.now;
  };
  domain_events =
      transfer_initiated d.id d.reference internal p.source_account_id p.amount.minor_units
        p.amount.currency
      ∷ [];
}

unfoldable pub initiate_external : Draw → ExternalParams → Transfer
initiate_external d p = record {
  props = record {
    id = d.id;
    reference = d.reference;
    kind = external;
    initiator_user_id = p.initiator_user_id;
    source_account_id = p.source_account_id;
    destination_account_id = none;
    external_recipient = some p.recipient;
    amount = p.amount;
    fee = p.fee;
    narration = p.narration;
    status = pending;
    failure_reason = none;
    provider_reference = none;
    version = 0;
    created_at = d.now;
    updated_at = d.now;
  };
  domain_events =
      transfer_initiated d.id d.reference external p.source_account_id p.amount.minor_units
        p.amount.currency
      ∷ [];
}

abbrev pub reconstitute : TransferProps → Transfer
reconstitute props = record { props = props; domain_events = [] }

abbrev pub assert_not_terminal : String → Transfer → Result (Unit {0})
assert_not_terminal action t =
    throw_if (is_terminal t.status) (invalid_transfer_state t.id t.status action)

abbrev pub touch : ℕ → Transfer → Transfer
touch now t = record t { props = record t.props { version = t.version + 1; updated_at = now } }

abbrev pub add_domain_event : DomainEvent → Transfer → Transfer
add_domain_event event t = record t { domain_events = t.domain_events ++ event ∷ [] }

-- `if (providerReference) this.props.providerReference = providerReference`: the empty text is
-- falsy too.
abbrev pub or_previous : Option String → Option String → Option String
or_previous none previous = previous
or_previous (some r) previous = if r == "" then previous else some r

unfoldable pub mark_processing : ℕ → Option String → Transfer → Result Transfer
mark_processing now provider_reference t = do
  assert_not_terminal "mark as processing" t
  ok (
      touch now (record t {
        props = record t.props {
          status = processing;
          provider_reference = or_previous provider_reference t.provider_reference;
        };
      }))

unfoldable pub mark_successful : ℕ → Transfer → Result Transfer
mark_successful now t = do
  assert_not_terminal "mark as successful" t
  ok (
      add_domain_event (transfer_completed t.id t.reference)
        (touch now (record t { props = record t.props { status = successful } })))

unfoldable pub mark_failed : ℕ → String → Transfer → Result Transfer
mark_failed now reason t = do
  assert_not_terminal "mark as failed" t
  ok (
      add_domain_event (transfer_failed t.id t.reference reason) (
        touch now
          (record t { props = record t.props { status = failed; failure_reason = some reason } })))

unfoldable pub mark_reversed : ℕ → String → Transfer → Result Transfer
mark_reversed now reason t = do
  assert_not_terminal "mark as reversed" t
  ok (
      add_domain_event (transfer_reversed t.id t.reference) (
        touch now (record t {
          props = record t.props { status = reversed; failure_reason = some reason };
        })))

-- The events, and the aggregate without them.
unfoldable pub pull_domain_events : Transfer → List DomainEvent × Transfer
pull_domain_events t = (t.domain_events, record t { domain_events = [] })
