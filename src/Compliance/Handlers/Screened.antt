-- ===== src/Compliance/Handlers/Screened.antt =====
-- The row of the profile in the table under a save and the screening after it.
use kudi_ai.Common.{
  ◌≡◌, ap, ◌∙◌, arith, ℕ, ◌-◌, String, Bool, true, false, ◌&&◌, Option, none, some, List, [], ◌∷◌,
  ◌++◌, ◌==◌, eq_refl, eqb, inl, inr,
}
use Prim.Native.String
use kudi_ai.Shared.Enums.{VerificationType, bvn, nin}
use kudi_ai.Shared.Errors.{ok, Result-cases}
use kudi_ai.Database.{World, publish_all, query-frame}
use kudi_ai.Database.Schema.{AuditLogEntry, passed, failed, SanctionsListEntry}
use kudi_ai.Database.Tables.{any, count, update_many}
use kudi_ai.Compliance.Profile.{
  Profile, ProfileProps, record_bvn_verified, record_nin_verified, flag_for_sanctions_review,
}
use kudi_ai.Compliance.Repository.{save, create, update_versioned, has_id_version}
use kudi_ai.Compliance.Audit.{save_new, for_sanctions_screening}
use kudi_ai.Compliance.Screening.{screen, clear, flag, match_summary, screen_and_flag}
use kudi_ai.Compliance.Handlers.{record_verified}
use kudi_ai.Compliance.Handlers.Stored.{Appended, save_new-eq_ok}

-- The row of the profile with the hash of the identifier.
abbrev pub holds : Option String → String → Bool
holds none hash = false
holds (some h) hash = h == hash

abbrev pub hash_of : VerificationType → ProfileProps → Option String
hash_of bvn r = r.bvn_hash
hash_of nin r = r.nin_hash

abbrev pub is_verified_row : VerificationType → (id hash : String) → ProfileProps → Bool
is_verified_row type id hash r = r.id == id && holds (hash_of type r) hash

pub record_verified-row :
    (type : VerificationType) (now : ℕ) (hash masked : String) (p q : Profile)
    → record_verified type now hash masked p ≡ ok q
    → is_verified_row type p.id hash q.props ≡ true
unfolding record_bvn_verified record_nin_verified
record_verified-row bvn now hash masked p q h = ground (arith, eq_refl p.id, eq_refl hash)
record_verified-row nin now hash masked p q h = ground (arith, eq_refl p.id, eq_refl hash)

flag-row :
    (type : VerificationType) (id hash : String) (now : ℕ) (summary : String) (p : Profile)
    → is_verified_row type id hash p.props ≡ true
    → is_verified_row type id hash (flag_for_sanctions_review now summary p).props ≡ true
unfolding flag_for_sanctions_review
flag-row bvn id hash now summary p h = ground arith
flag-row nin id hash now summary p h = ground arith

any-append_one :
    (test : ProfileProps → Bool) (rows : List ProfileProps) (r : ProfileProps)
    → test r ≡ true
    → any test (rows ++ r ∷ []) ≡ true
any-append_one test [] r h = ground arith
any-append_one test (s ∷ rows) r h = ground (arith, any-append_one test rows r h)

any-update_many :
    (test fits : ProfileProps → Bool) (r : ProfileProps) (rows : List ProfileProps)
    → test r ≡ true
    → eqb (count fits rows) 0 ≡ false
    → any test (update_many fits r rows) ≡ true
any-update_many test fits r [] h n = ground arith
any-update_many test fits r (s ∷ rows) h n = ground (arith, any-update_many test fits r rows h)

pub save-eq_ok :
    (test : ProfileProps → Bool) (q : Profile) (w : World) {w' : World}
    → test q.props ≡ true
    → save q w ≡ (ok tt, w')
    → (any test w'.db.kyc_profiles ≡ true) × (w'.db.kyc_audit_log ≡ w.db.kyc_audit_log)
unfolding save create update_versioned
save-eq_ok test q w h k =
    let kept = query-frame w in
    let added = any-append_one test w.db.kyc_profiles q.props h in
    let updated =
      any-update_many test (has_id_version q.props.id (q.props.version - 1)) q.props
        w.db.kyc_profiles h in
    (ground arith, ground arith)

-- The screening after it logs one entry more, and keeps the row.
clear-eq_ok :
    (p r : Profile) (w : World) {w' : World}
    → clear p w ≡ (ok r, w')
    → (e : AuditLogEntry) × Appended w w' e
unfolding clear
clear-eq_ok p r w {w'} h =
    let entry : (id : String) (now : ℕ) → AuditLogEntry = λ id now.
      for_sanctions_screening id now (record {
        user_id = p.user_id;
        kyc_profile_id = p.id;
        outcome = passed;
        notes = none;
        performed_by_user_id = none;
      }) in
    let w₁ = (save_new entry w).1 in
    elim (Result-cases (save_new entry w).0) [
      | inr (x, e) ↦ absurd (ground arith)
      | inl (_, e) ↦
          let logged = save_new-eq_ok entry w {w' = w₁} (ground arith) in
          let equal : w' ≡ w₁ = ground arith in (entry (w.random w.drawn) w.now, rw equal logged)
    ]

flag-eq_ok :
    (type : VerificationType) (id hash summary : String) (p r : Profile) (w : World) {w' : World}
    → is_verified_row type id hash p.props ≡ true
    → flag summary p w ≡ (ok r, w')
    → (e : AuditLogEntry) × (w'.db.kyc_audit_log ≡ w.db.kyc_audit_log ++ e ∷ [])
      × (any (is_verified_row type id hash) w'.db.kyc_profiles ≡ true)
unfolding flag publish_all
flag-eq_ok type id hash summary p r w {w'} t h =
    let q = flag_for_sanctions_review w.now summary p in
    let entry : (id : String) (now : ℕ) → AuditLogEntry = λ id now.
      for_sanctions_screening id now (record {
        user_id = q.user_id;
        kyc_profile_id = q.id;
        outcome = failed;
        notes = some (String.◌++◌ "Candidate match(es): " summary);
        performed_by_user_id = none;
      }) in
    let w₁ = (save q w).1 in
    elim (Result-cases (save q w).0) [
      | inr (x, e) ↦ absurd (ground arith)
      | inl (_, e) ↦
          let w₂ = (save_new entry w₁).1 in
          elim (Result-cases (save_new entry w₁).0) [
            | inr (x, f) ↦ absurd (ground arith)
            | inl (_, f) ↦
                let (row, log) =
                  save-eq_ok (is_verified_row type id hash) q w {w' = w₁}
                    (flag-row type id hash w.now summary p t) (ground arith) in
                let (log', rows') = save_new-eq_ok entry w₁ {w' = w₂} (ground arith) in
                let db : w'.db ≡ w₂.db = ground arith in
                (
                  entry (w₁.random w₁.drawn) w₁.now,
                  ap (λ b. b.kyc_audit_log) db
                      ∙ log'
                      ∙ ap (λ l. l ++ entry (w₁.random w₁.drawn) w₁.now ∷ []) log,
                  ap (λ b. any (is_verified_row type id hash) b.kyc_profiles) db
                      ∙ ap (any (is_verified_row type id hash)) rows'
                      ∙ row,
                )
          ]
    ]

screen-db : (name : String) (w : World) → (screen name w).1.db ≡ w.db
unfolding screen
screen-db name w = ground (arith, query-frame w)

pub screen_and_flag-eq_ok :
    (type : VerificationType) (id hash name : String) (p r : Profile) (w : World) {w' : World}
    → is_verified_row type id hash p.props ≡ true
    → any (is_verified_row type id hash) w.db.kyc_profiles ≡ true
    → screen_and_flag p name w ≡ (ok r, w')
    → (e : AuditLogEntry) × (w'.db.kyc_audit_log ≡ w.db.kyc_audit_log ++ e ∷ [])
      × (any (is_verified_row type id hash) w'.db.kyc_profiles ≡ true)
unfolding screen_and_flag
screen_and_flag-eq_ok type id hash name p r w {w'} t a h = elim (Result-cases (screen name w).0) [
  | inr (x, e) ↦ absurd (ground arith)
  | inl (ms, e) ↦ by_matches ms e
]
  where
    by_matches :
        (ms : List SanctionsListEntry)
        → (screen name w).0 ≡ ok ms
        → (e : AuditLogEntry) × (w'.db.kyc_audit_log ≡ w.db.kyc_audit_log ++ e ∷ [])
          × (any (is_verified_row type id hash) w'.db.kyc_profiles ≡ true)
    by_matches [] e =
        let w₁ = (screen name w).1 in
        let same = screen-db name w in
        let (f, (log, rows)) = clear-eq_ok p r w₁ {w' = w'} (ground arith) in
        (
          f,
          log ∙ ap (λ b. b.kyc_audit_log ++ f ∷ []) same,
          ap (any (is_verified_row type id hash)) (rows ∙ ap (λ b. b.kyc_profiles) same) ∙ a,
        )
    by_matches (m ∷ ms) e =
        let w₁ = (screen name w).1 in
        let same = screen-db name w in
        let (f, log, row) =
          flag-eq_ok type id hash (match_summary (m ∷ ms)) p r w₁ {w' = w'} t (ground arith) in
        (f, log ∙ ap (λ b. b.kyc_audit_log ++ f ∷ []) same, row)
