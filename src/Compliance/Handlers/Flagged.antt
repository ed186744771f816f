-- ===== src/Compliance/Handlers/Flagged.antt =====
-- A match of the watchlist on a profile whose flag is open.
use kudi_ai.Common.{◌≡◌, arith, ◌-◌, String, true, false, List, [], ◌∷◌, length, ltb}
use Prim.Native.String
use kudi_ai.Shared.Errors.{ok, err}
use kudi_ai.Database.{World, query-healthy}
use kudi_ai.Database.Schema.{SanctionsListEntry}
use kudi_ai.Database.Tables.{count, update_many_none}
use kudi_ai.Accounts.Repository.{concurrent_modification}
use kudi_ai.Compliance.Profile.{Profile, flag_for_sanctions_review, is_sanctions_flag_open}
use kudi_ai.Compliance.Repository.{save, update_versioned, has_id_version}
use kudi_ai.Compliance.Screening.{
  screen, flag, match_summary, screen_and_flag, find_matches, normalize_to_tokens,
}

screen_healthy :
    (name : String) (w : World)
    → w.outcomes ≡ []
    → ltb (length (normalize_to_tokens name)) 2 ≡ false
    → screen name w ≡ (ok (find_matches (normalize_to_tokens name) w.db.sanctions_list), w)
unfolding screen
screen_healthy name w o l = ground (arith, query-healthy w o)

save_stale :
    (p : Profile) (w : World)
    → w.outcomes ≡ []
    → ltb p.version 1 ≡ false
    → count (has_id_version p.id (p.version - 1)) w.db.kyc_profiles ≡ 0
    → save p w ≡ (err (concurrent_modification (String.◌++◌ "KYC profile " p.id)), w)
unfolding save update_versioned
save_stale p w o v n =
    let kept = update_many_none (has_id_version p.id (p.version - 1)) p.props w.db.kyc_profiles n in
    ground (arith, query-healthy w o)

flag_refused :
    (summary : String) (p : Profile) (w : World)
    → w.outcomes ≡ []
    → is_sanctions_flag_open p ≡ true
    → ltb p.version 1 ≡ false
    → count (has_id_version p.id (p.version - 1)) w.db.kyc_profiles ≡ 0
    → flag summary p w ≡ (err (concurrent_modification (String.◌++◌ "KYC profile " p.id)), w)
unfolding flag flag_for_sanctions_review
flag_refused summary p w o is_open v n = ground (arith, save_stale p w o v n)

-- Where the client's calls go through: a profile whose flag is open, of which no row has the version
-- before its own, as after its save, is refused as modified concurrently when its name matches the
-- watchlist again; the world stays as it was, without an entry in the audit log.
pub screen_and_flag_refused :
    (p : Profile) (name : String) (e : SanctionsListEntry) (es : List SanctionsListEntry)
    (w : World)
    → w.outcomes ≡ []
    → is_sanctions_flag_open p ≡ true
    → ltb p.version 1 ≡ false
    → count (has_id_version p.id (p.version - 1)) w.db.kyc_profiles ≡ 0
    → ltb (length (normalize_to_tokens name)) 2 ≡ false
    → find_matches (normalize_to_tokens name) w.db.sanctions_list ≡ e ∷ es
    → screen_and_flag p name w
      ≡ (err (concurrent_modification (String.◌++◌ "KYC profile " p.id)), w)
unfolding screen_and_flag
screen_and_flag_refused p name e es w o is_open v n long matches =
    let screened = screen_healthy name w o long in
    let refused = flag_refused (match_summary (e ∷ es)) p w o is_open v n in ground arith
