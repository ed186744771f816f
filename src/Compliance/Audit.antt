-- ===== src/Compliance/Audit.antt =====
-- The audit log: modules/compliance/domain/entities/kyc-audit-log-entry.entity.ts,
-- infrastructure/persistence/prisma-kyc-audit-log.repository.ts (whose mapper copies the columns)
-- and application/services/kyc-audit-recorder.service.ts. `id` is the `randomUUID()` of the call,
-- and an event occurred at the time of the call.
use kudi_ai.Common.{String, ℕ, Option, none, some, List, [], ◌∷◌, ◌++◌, ◌==◌}
use kudi_ai.Shared.Enums.{KycTier, tier_1, tier_2, tier_3, VerificationType}
use kudi_ai.Shared.Events.{DomainEvent, verification_passed, verification_failed, kyc_tier_upgraded}
use kudi_ai.Shared.Action.{Action, pure, gets, modify, throw_if, ◌>>=◌, ◌>>◌}
use kudi_ai.Database.{World, query, random_text, set_kyc_audit_log}
use kudi_ai.Database.Schema.{
  AuditLogEntry, KycAuditOutcome, verification_attempt, tier_change, sanctions_screening, passed,
  failed,
}
use kudi_ai.Database.Tables.{any}
use kudi_ai.Accounts.Repository.{unique_violation}

pub record Attempt : Type 0 where
  pub user_id : String
  pub kyc_profile_id : String
  pub verification_type : VerificationType
  pub outcome : KycAuditOutcome
  pub failure_reason : Option String
  pub performed_by_user_id : Option String
  pub notes : Option String

-- `forVerificationAttempt`
unfoldable pub for_verification_attempt : (id : String) (occurred_at : ℕ) → Attempt → AuditLogEntry
for_verification_attempt id occurred_at p = record {
  id = id;
  user_id = p.user_id;
  kyc_profile_id = p.kyc_profile_id;
  event_type = verification_attempt;
  verification_type = some p.verification_type;
  outcome = some p.outcome;
  failure_reason = p.failure_reason;
  previous_tier = none;
  new_tier = none;
  performed_by_user_id = p.performed_by_user_id;
  notes = p.notes;
  created_at = occurred_at;
}

-- `forTierChange`
unfoldable pub for_tier_change :
    (id : String) (occurred_at : ℕ) (user_id kyc_profile_id : String)
    (previous_tier new_tier : KycTier)
    → AuditLogEntry
for_tier_change id occurred_at user_id kyc_profile_id previous_tier new_tier = record {
  id = id;
  user_id = user_id;
  kyc_profile_id = kyc_profile_id;
  event_type = tier_change;
  verification_type = none;
  outcome = none;
  failure_reason = none;
  previous_tier = some previous_tier;
  new_tier = some new_tier;
  performed_by_user_id = none;
  notes = none;
  created_at = occurred_at;
}

pub record Screening : Type 0 where
  pub user_id : String
  pub kyc_profile_id : String
  pub outcome : KycAuditOutcome
  pub notes : Option String
  pub performed_by_user_id : Option String

-- `forSanctionsScreening`
unfoldable pub for_sanctions_screening : (id : String) (occurred_at : ℕ) → Screening → AuditLogEntry
for_sanctions_screening id occurred_at p = record {
  id = id;
  user_id = p.user_id;
  kyc_profile_id = p.kyc_profile_id;
  event_type = sanctions_screening;
  verification_type = none;
  outcome = some p.outcome;
  failure_reason = none;
  previous_tier = none;
  new_tier = none;
  performed_by_user_id = p.performed_by_user_id;
  notes = p.notes;
  created_at = occurred_at;
}

-- `save`: a create, `id` is unique.
unfoldable pub save_entry : AuditLogEntry → Action World (Unit {0})
save_entry entry = do
  query
  rows ← gets (λ w. w.db.kyc_audit_log)
  throw_if (any (λ r. r.id == entry.id) rows) unique_violation
  modify (set_kyc_audit_log (rows ++ entry ∷ []))

-- An entry with a new id at the time of the call.
abbrev pub save_new : ((id : String) (now : ℕ) → AuditLogEntry) → Action World (Unit {0})
save_new entry = do id ← random_text; now ← gets (λ w. w.now); save_entry (entry id now)

-- `newTier === TIER_3 ? TIER_2 : TIER_1`
abbrev pub previous_tier : KycTier → KycTier
previous_tier tier_1 = tier_1
previous_tier tier_2 = tier_1
previous_tier tier_3 = tier_2

-- `recordVerificationAttempt` and `recordTierChange`, by the kind of the event
unfoldable pub record_domain_event : DomainEvent → Action World (Unit {0})
record_domain_event (verification_passed profile user type) = save_new (λ id now.
    for_verification_attempt id now (record {
      user_id = user;
      kyc_profile_id = profile;
      verification_type = type;
      outcome = passed;
      failure_reason = none;
      performed_by_user_id = none;
      notes = none;
    }))
record_domain_event (verification_failed profile user type reason) = save_new (λ id now.
    for_verification_attempt id now (record {
      user_id = user;
      kyc_profile_id = profile;
      verification_type = type;
      outcome = failed;
      failure_reason = some reason;
      performed_by_user_id = none;
      notes = none;
    }))
record_domain_event (kyc_tier_upgraded profile user tier) =
    save_new (λ id now. for_tier_change id now user profile (previous_tier tier) tier)
record_domain_event _ = pure tt

-- `recordDomainEvents`
unfoldable pub record_domain_events : List DomainEvent → Action World (Unit {0})
record_domain_events [] = pure tt
record_domain_events (e ∷ es) = do record_domain_event e; record_domain_events es
