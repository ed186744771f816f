-- ===== src/Compliance/Handlers/Stored.antt =====
-- What the events of a verification leave in the audit log.
use kudi_ai.Common.{
  ◌≡◌, refl, ap, ◌∙◌, arith, ℕ, ◌+◌, String, none, some, List, [], ◌∷◌, ◌++◌, inl, inr, ◌⊎◌,
}
use kudi_ai.Shared.Enums.{KycTier, VerificationType, bvn, nin}
use kudi_ai.Shared.Errors.{ok, Result-cases}
use kudi_ai.Shared.Events.{verification_passed, kyc_tier_upgraded}
use kudi_ai.Database.{World, query-frame, random_text}
use kudi_ai.Database.Schema.{AuditLogEntry, verification_attempt, tier_change, passed}
use kudi_ai.Compliance.Profile.{Profile, record_bvn_verified, record_nin_verified}
use kudi_ai.Compliance.Repository.{find_by_user_id}
use kudi_ai.Compliance.Audit.{
  save_entry, save_new, record_domain_event, record_domain_events, for_verification_attempt,
  for_tier_change, previous_tier,
}
use kudi_ai.Identity.Repository.Tokens.{find_user_by_id-frame}
use kudi_ai.Compliance.Handlers.{get_user, get_profile, record_verified}

-- An entry for a passed verification of this type, and one for a tier that was reached.
pub record IsPassedEntry (type : VerificationType) (p : Profile) (e : AuditLogEntry) : Type 0 where
  pub event : e.event_type ≡ verification_attempt
  pub verification : e.verification_type ≡ some type
  pub outcome : e.outcome ≡ some passed
  pub user : e.user_id ≡ p.user_id
  pub profile : e.kyc_profile_id ≡ p.id

pub record IsTierEntry (tier : KycTier) (p : Profile) (e : AuditLogEntry) : Type 0 where
  pub event : e.event_type ≡ tier_change
  pub reached : e.new_tier ≡ some tier
  pub user : e.user_id ≡ p.user_id
  pub profile : e.kyc_profile_id ≡ p.id

pub save_new-eq_ok :
    (entry : (id : String) (now : ℕ) → AuditLogEntry) (w : World) {w' : World}
    → save_new entry w ≡ (ok tt, w')
    → (w'.db.kyc_audit_log ≡ w.db.kyc_audit_log ++ entry (w.random w.drawn) w.now ∷ [])
      × (w'.db.kyc_profiles ≡ w.db.kyc_profiles)
unfolding save_entry random_text
save_new-eq_ok entry w h =
    let kept = query-frame (record w { drawn = w.drawn + 1 }) in (ground arith, ground arith)

-- The events of a verification that went through, on a profile without events.
pub record_verified-events :
    (type : VerificationType) (now : ℕ) (hash masked : String) (p q : Profile)
    → p.domain_events ≡ []
    → record_verified type now hash masked p ≡ ok q
    → ((q.domain_events ≡ verification_passed p.id p.user_id type ∷ []) × (q.tier ≡ p.tier))
      ⊎ (q.domain_events
          ≡ verification_passed p.id p.user_id type ∷ kyc_tier_upgraded p.id p.user_id q.tier ∷ [])
unfolding record_bvn_verified record_nin_verified
record_verified-events bvn now hash masked p q e h = ground arith
record_verified-events nin now hash masked p q e h = ground arith

-- The steps of `recordDomainEvents` on such events.
abbrev pub Appended : World → World → AuditLogEntry → Type 0
Appended w w' e =
    (w'.db.kyc_audit_log ≡ w.db.kyc_audit_log ++ e ∷ []) × (w'.db.kyc_profiles ≡ w.db.kyc_profiles)

record_passed :
    (type : VerificationType) (p : Profile) (w : World) {w' : World}
    → record_domain_event (verification_passed p.id p.user_id type) w ≡ (ok tt, w')
    → (e : AuditLogEntry) × Appended w w' e × IsPassedEntry type p e
unfolding record_domain_event for_verification_attempt
record_passed type p w {w'} h =
    let entry : (id : String) (now : ℕ) → AuditLogEntry = λ id now.
      for_verification_attempt id now (record {
        user_id = p.user_id;
        kyc_profile_id = p.id;
        verification_type = type;
        outcome = passed;
        failure_reason = none;
        performed_by_user_id = none;
        notes = none;
      }) in
    (
      entry (w.random w.drawn) w.now,
      save_new-eq_ok entry w {w' = w'} h,
      record { event = refl; verification = refl; outcome = refl; user = refl; profile = refl },
    )

record_upgraded :
    (tier : KycTier) (p : Profile) (w : World) {w' : World}
    → record_domain_event (kyc_tier_upgraded p.id p.user_id tier) w ≡ (ok tt, w')
    → (e : AuditLogEntry) × Appended w w' e × IsTierEntry tier p e
unfolding record_domain_event for_tier_change
record_upgraded tier p w {w'} h =
    let entry : (id : String) (now : ℕ) → AuditLogEntry =
      λ id now. for_tier_change id now p.user_id p.id (previous_tier tier) tier in
    (
      entry (w.random w.drawn) w.now,
      save_new-eq_ok entry w {w' = w'} h,
      record { event = refl; reached = refl; user = refl; profile = refl },
    )

-- What `recordDomainEvents` has logged of the verification of p, which has given q.
pub record IsLogged (type : VerificationType) (p q : Profile) (es : List AuditLogEntry)
    : Type 0 where
  pub first : AuditLogEntry
  pub rest : List AuditLogEntry
  pub entries : es ≡ first ∷ rest
  pub attempt : IsPassedEntry type p first
  pub change :
      ((q.tier ≡ p.tier) × (rest ≡ []))
      ⊎ ((e : AuditLogEntry) × (rest ≡ e ∷ []) × IsTierEntry q.tier p e)

append_two :
    (xs : List AuditLogEntry) (e f : AuditLogEntry) → xs ++ e ∷ [] ++ f ∷ [] ≡ xs ++ (e ∷ f ∷ [])
append_two [] e f = refl
append_two (x ∷ xs) e f = ap (λ l. x ∷ l) (append_two xs e f)

-- The audit log after a step is that before it and these entries; the profiles are the same.
abbrev pub Logs : World → World → List AuditLogEntry → Type 0
Logs w w' es =
    (w'.db.kyc_audit_log ≡ w.db.kyc_audit_log ++ es) × (w'.db.kyc_profiles ≡ w.db.kyc_profiles)

pub record_domain_events-IsLogged :
    (type : VerificationType) (p q : Profile) (w : World) {w' : World}
    → ((q.domain_events ≡ verification_passed p.id p.user_id type ∷ []) × (q.tier ≡ p.tier))
      ⊎ (q.domain_events
          ≡ verification_passed p.id p.user_id type ∷ kyc_tier_upgraded p.id p.user_id q.tier ∷ [])
    → record_domain_events q.domain_events w ≡ (ok tt, w')
    → (es : List AuditLogEntry) × Logs w w' es × IsLogged type p q es
unfolding record_domain_events
record_domain_events-IsLogged type p q w {w'} (inl (e, same)) h =
    let d = verification_passed p.id p.user_id type in
    let w₁ = (record_domain_event d w).1 in
    elim (Result-cases (record_domain_event d w).0) [
      | inr (x, f) ↦ absurd (ground arith)
      | inl (_, f) ↦
          let (a, (log, rows), attempt) = record_passed type p w {w' = w₁} (ground arith) in
          let equal : w' ≡ w₁ = ground arith in
          (
            a ∷ [],
            (ground arith, ground arith),
            record {
              first = a;
              rest = [];
              entries = refl;
              attempt = attempt;
              change = inl (same, refl);
            },
          )
    ]
record_domain_events-IsLogged type p q w {w'} (inr e) h =
    let d = verification_passed p.id p.user_id type in
    let u = kyc_tier_upgraded p.id p.user_id q.tier in
    let w₁ = (record_domain_event d w).1 in
    elim (Result-cases (record_domain_event d w).0) [
      | inr (x, f) ↦ absurd (ground arith)
      | inl (_, f) ↦
          let w₂ = (record_domain_event u w₁).1 in
          elim (Result-cases (record_domain_event u w₁).0) [
            | inr (x, g) ↦ absurd (ground arith)
            | inl (_, g) ↦
                let (a, (log, rows), attempt) = record_passed type p w {w' = w₁} (ground arith) in
                let (b, (log', rows'), change) =
                  record_upgraded q.tier p w₁ {w' = w₂} (ground arith) in
                let equal : w' ≡ w₂ = ground arith in
                let both = append_two w.db.kyc_audit_log a b in
                (
                  a ∷ b ∷ [],
                  (
                    ap (λ v. v.db.kyc_audit_log) equal ∙ log' ∙ ap (λ l. l ++ b ∷ []) log ∙ both,
                    ap (λ v. v.db.kyc_profiles) equal ∙ rows' ∙ rows,
                  ),
                  record {
                    first = a;
                    rest = b ∷ [];
                    entries = refl;
                    attempt = attempt;
                    change = inr (b, refl, change);
                  },
                )
          ]
    ]

-- The profile that is loaded has no events, and loading writes nothing.
pub get_profile-eq_ok :
    (user_id : String) (w : World) (p : Profile) {w' : World}
    → get_profile user_id w ≡ (ok p, w')
    → (p.domain_events ≡ []) × (w'.db ≡ w.db) × (w'.now ≡ w.now)
unfolding get_profile find_by_user_id
get_profile-eq_ok user_id w p h = ground (arith, query-frame w)

pub get_user-db :
    (user_id : String) (w : World)
    → let w' = (get_user user_id w).1 in (w'.db ≡ w.db) × (w'.now ≡ w.now)
unfolding get_user
get_user-db user_id w = ground (arith, find_user_by_id-frame user_id w)
