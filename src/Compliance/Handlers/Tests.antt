-- ===== src/Compliance/Handlers/Tests.antt =====
-- A user who verifies her BVN, and one whose flag is open.
use kudi_ai.Common.{◌≡◌, refl, ℕ, zero, suc, length, ltb, String, true, false, none, some, [], ◌∷◌}
use Prim.Native.String
use kudi_ai.Shared.Enums.{bvn, tier_1, tier_2}
use kudi_ai.Shared.Users.{customer, active}
use kudi_ai.Shared.Errors.{ok, err}
use kudi_ai.Database.{World, set_users, set_kyc_profiles}
use kudi_ai.Database.Samples.{two_accounts}
use kudi_ai.Database.Schema.{UserRecord, SanctionsListEntry}
use kudi_ai.Accounts.Repository.{concurrent_modification}
use kudi_ai.Identity.User.{User}
use kudi_ai.Compliance.Profile.{Profile, ProfileProps}
use kudi_ai.Compliance.Profile as Kyc
use kudi_ai.Compliance.Identifiers.{VerificationProvider, IdentifierHasher}
use kudi_ai.Compliance.Screening.{
  screen_and_flag, normalize_to_tokens, find_matches, candidate_is_subset_of_entry,
}
use kudi_ai.Compliance.Handlers.{submit}
use kudi_ai.Compliance.Handlers.Flagged.{screen_and_flag_refused}

abbrev provider : VerificationProvider
provider = record {
  verify = λ type number first last. ok (record { matched = true; verified_full_name = none });
}

abbrev hasher : IdentifierHasher
hasher = record { hash = λ value. ok (String.◌++◌ "hmac of " value) }

abbrev ada : UserRecord
ada = record {
  id = "ada";
  email = "ada@kudi.ng";
  phone_number = "+2348012345678";
  password_hash = "hash";
  first_name = "Ada";
  last_name = "Obi";
  role = customer;
  status = active;
  failed_login_attempts = 0;
  locked_until = none;
  last_login_at = none;
  created_at = 1;
  updated_at = 1;
}

abbrev ada_profile : ProfileProps
ada_profile = record {
  id = "profile";
  user_id = "ada";
  tier = tier_1;
  bvn_verified_at = none;
  bvn_hash = none;
  bvn_masked = none;
  nin_verified_at = none;
  nin_hash = none;
  nin_masked = none;
  sanctions_flagged_at = none;
  sanctions_cleared_at = none;
  version = 0;
  created_at = 1;
  updated_at = 1;
}

abbrev fresh_text : ℕ → String
fresh_text zero = "first"
fresh_text (suc zero) = "second"
fresh_text (suc (suc n)) = "third"

abbrev before : World
before = record (set_kyc_profiles (ada_profile ∷ []) (set_users (ada ∷ []) two_accounts)) {
  random = fresh_text;
}

abbrev after : World
after = (submit provider hasher bvn "ada" "12345678901" before).1

abbrev verified : Profile
verified = Kyc.reconstitute (record ada_profile {
  tier = tier_2;
  bvn_verified_at = some 7;
  bvn_hash = some "hmac of 12345678901";
  bvn_masked = some "*******8901";
  version = 1;
  updated_at = 7;
})

-- Her flag is open since time 5, at version 2.
abbrev flagged : Profile
flagged = Kyc.reconstitute (record ada_profile { sanctions_flagged_at = some 5; version = 2 })

abbrev listed : SanctionsListEntry
listed = record {
  id = "1";
  source = "OFAC";
  external_id = "1";
  full_name = "OBI, Ada";
  program = none;
  remarks = none;
}

abbrev watched : World
watched =
    let w = set_kyc_profiles (flagged.props ∷ []) two_accounts in
    record w { db = record w.db { sanctions_list = listed ∷ [] } }

matches : find_matches (normalize_to_tokens "Ada Obi") (listed ∷ []) ≡ listed ∷ []
unfolding find_matches normalize_to_tokens candidate_is_subset_of_entry
matches = refl

is_long_enough : ltb (length (normalize_to_tokens "Ada Obi")) 2 ≡ false
unfolding normalize_to_tokens
is_long_enough = refl

screen_and_flag_refused_example :
    screen_and_flag flagged "Ada Obi" watched
    ≡ (err (concurrent_modification "KYC profile profile"), watched)
screen_and_flag_refused_example =
    screen_and_flag_refused flagged "Ada Obi" listed [] watched refl refl refl refl is_long_enough
      matches
