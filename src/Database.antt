-- ===== src/Database.antt =====
-- The tables of infrastructure/prisma/schema.prisma that the modelled code reads and writes, and
-- the calls of Prisma's client. A `Date` column is its milliseconds since the epoch.
--
-- The client is not part of the repository. The model has what the code relies on: a find returns
-- the first row that fits, an `updateMany` replaces every row that fits and counts them, a create
-- refuses a row that clashes with a unique column, and every call may fail. Which calls fail is
-- the list `outcomes` of the world, and any list is allowed.
pub mod Tables
pub mod Schema
pub mod Samples
use kudi_ai.Common.{◌≡◌, refl, arith, String, ℕ, ◌+◌, Option, none, some, List, [], ◌∷◌, ◌++◌}
use kudi_ai.Common.Int.{ℤ}
use kudi_ai.Shared.Enums.{
  Currency, AccountStatus, AccountType, TransactionStatus, TransferType, KycTier,
}
use kudi_ai.Shared.Errors.{Error, Result, ok, err, failure}
use kudi_ai.Shared.Events.{DomainEvent}
use kudi_ai.Shared.Action.{Action, ◌>>=◌, ◌>>◌, modify}
use kudi_ai.Compliance.Profile.{ProfileProps}
use kudi_ai.Database.Schema.{
  IdempotencyKeyRecord, UserRecord, RefreshTokenRecord, AuditLogEntry, SanctionsListEntry,
}

-- model Account
pub record AccountRecord : Type 0 where
  pub id : String
  pub user_id : String
  pub account_number : String
  pub account_type : AccountType
  pub currency : Currency
  pub balance : ℤ
  pub status : AccountStatus
  pub version : ℕ
  pub created_at : ℕ
  pub updated_at : ℕ

-- model Transfer
pub record TransferRecord : Type 0 where
  pub id : String
  pub reference : String
  pub kind : TransferType  -- `type`
  pub initiator_user_id : String
  pub source_account_id : String
  pub destination_account_id : Option String
  pub recipient_bank_code : Option String
  pub recipient_account_number : Option String
  pub recipient_account_name : Option String
  pub amount_minor_units : ℤ
  pub fee_minor_units : ℤ
  pub currency : Currency
  pub narration : String
  pub status : TransactionStatus
  pub failure_reason : Option String
  pub provider_reference : Option String
  pub version : ℕ
  pub created_at : ℕ
  pub updated_at : ℕ

-- enum EntryDirection, enum LedgerEntryType
pub data Direction : Type 0 where
  debit credit : Direction

pub data LedgerEntryType : Type 0 where
  transfer deposit bill_payment adjustment : LedgerEntryType

-- model LedgerEntry
pub record LedgerEntry : Type 0 where
  pub journal_id : String
  pub account_id : String
  pub user_id : String
  pub direction : Direction
  pub amount_minor_units : ℤ
  pub balance_after_minor_units : ℤ
  pub currency : Currency
  pub entry_type : LedgerEntryType
  pub reference : String
  pub source_event_id : String
  pub occurred_at : ℕ

-- model KycTierLimit
pub record TierLimitRecord : Type 0 where
  pub tier : KycTier
  pub currency : Currency
  pub per_transaction_limit : Option ℤ
  pub daily_transfer_limit : Option ℤ
  pub max_balance : Option ℤ

pub record Db : Type 0 where
  pub accounts : List AccountRecord
  pub transfers : List TransferRecord
  -- in the order of `createdAt`
  pub ledger_entries : List LedgerEntry
  pub kyc_profiles : List ProfileProps
  pub kyc_tier_limits : List TierLimitRecord
  pub idempotency_keys : List IdempotencyKeyRecord
  pub users : List UserRecord
  pub refresh_tokens : List RefreshTokenRecord
  pub kyc_audit_log : List AuditLogEntry
  pub sanctions_list : List SanctionsListEntry

pub record World : Type 0 where
  pub db : Db
  -- what the next calls of the client do: `none` succeeds, `some m` throws an error with message
  -- m; calls past the end of the list succeed
  pub outcomes : List (Option String)
  -- what `EventBus.publish` was given
  pub published : List DomainEvent
  -- `Date.now()`
  pub now : ℕ
  -- the texts that `randomUUID()` and `TransferReference.generate()` return, and how many were
  -- drawn
  pub random : ℕ → String
  pub drawn : ℕ

outcome : Option String → Result (Unit {0})
outcome none = ok tt
outcome (some m) = err (failure m)

-- One call of the client.
unfoldable pub call : List (Option String) → World → Result (Unit {0}) × World
unfolding outcome
call [] w = (ok tt, w)
call (o ∷ os) w = (outcome o, record w { outcomes = os })

unfoldable pub query : Action World (Unit {0})
unfolding call
query w = call w.outcomes w

-- A call of the client changes the list of outcomes alone.
pub query-frame :
    (w : World)
    → let (_, w') = query w in
      (w'.db ≡ w.db)
      × (w'.published ≡ w.published)
      × (w'.now ≡ w.now)
      × (w'.random ≡ w.random)
      × (w'.drawn ≡ w.drawn)
unfolding query call
query-frame w = by_outcomes w.outcomes w
  where
    by_outcomes :
        (os : List (Option String)) (w : World)
        → let (_, w') = call os w in
          (w'.db ≡ w.db)
          × (w'.published ≡ w.published)
          × (w'.now ≡ w.now)
          × (w'.random ≡ w.random)
          × (w'.drawn ≡ w.drawn)
    by_outcomes [] w = (refl, refl, refl, refl, refl)
    by_outcomes (o ∷ os) w = (refl, refl, refl, refl, refl)

-- Where no call fails any more, a call changes nothing.
pub query-healthy : (w : World) → w.outcomes ≡ [] → query w ≡ (ok tt, w)
unfolding query call
query-healthy w h = rw h refl

pub query-failing :
    (w : World) (m : String) (os : List (Option String))
    → w.outcomes ≡ some m ∷ os
    → query w ≡ (err (failure m), record w { outcomes = os })
unfolding query call outcome
query-failing w m os h = rw h refl

-- What a call throws is a failure of the client.
pub query-eq_err : (w : World) (e : Error) → (query w).0 ≡ err e → (m : String) × (e ≡ failure m)
unfolding query call outcome
query-eq_err w e h = by_outcomes w.outcomes h
  where
    by_outcomes :
        (os : List (Option String)) → (call os w).0 ≡ err e → (m : String) × (e ≡ failure m)
    by_outcomes [] h = absurd (ground arith)
    by_outcomes (none ∷ os) h = absurd (ground arith)
    by_outcomes (some m ∷ os) h = (m, ground arith)

unfoldable pub random_text : Action World String
random_text w = (ok (w.random w.drawn), record w { drawn = w.drawn + 1 })

unfoldable pub publish_all : List DomainEvent → Action World (Unit {0})
publish_all events = modify (λ w. record w { published = w.published ++ events })

abbrev pub set_accounts : List AccountRecord → World → World
set_accounts rows w = record w { db = record w.db { accounts = rows } }

abbrev pub set_transfers : List TransferRecord → World → World
set_transfers rows w = record w { db = record w.db { transfers = rows } }

abbrev pub set_ledger_entries : List LedgerEntry → World → World
set_ledger_entries rows w = record w { db = record w.db { ledger_entries = rows } }

abbrev pub set_idempotency_keys : List IdempotencyKeyRecord → World → World
set_idempotency_keys rows w = record w { db = record w.db { idempotency_keys = rows } }

abbrev pub set_users : List UserRecord → World → World
set_users rows w = record w { db = record w.db { users = rows } }

abbrev pub set_refresh_tokens : List RefreshTokenRecord → World → World
set_refresh_tokens rows w = record w { db = record w.db { refresh_tokens = rows } }

abbrev pub set_kyc_profiles : List ProfileProps → World → World
set_kyc_profiles rows w = record w { db = record w.db { kyc_profiles = rows } }

abbrev pub set_kyc_audit_log : List AuditLogEntry → World → World
set_kyc_audit_log rows w = record w { db = record w.db { kyc_audit_log = rows } }
