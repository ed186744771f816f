-- ===== src/Compliance/Screening.antt =====
-- modules/compliance/infrastructure/services/ofac-sanctions-screening.service.ts and
-- application/services/sanctions-screening.service.ts, on code points. Letters outside ASCII whose
-- upper case is in ASCII, such as the long s, are blanked here and not there. The calls of the
-- logger are left out.
use kudi_ai.Common.{
  String, ℕ, ◌-◌, Bool, true, false, ◌&&◌, ◌||◌, none, some, List, [], ◌∷◌, ◌++◌, map, codes, all,
  eqb, leb, ltb, length, if◌then◌else◌,
}
use Prim.Native.String
use kudi_ai.Shared.Action.{Action, pure, gets, ◌>>=◌, ◌>>◌}
use kudi_ai.Database.{World, query, publish_all}
use kudi_ai.Database.Schema.{SanctionsListEntry, passed, failed}
use kudi_ai.Database.Tables.{any, select}
use kudi_ai.Identity.Values.{is_space}
use kudi_ai.Compliance.Profile.{Profile, flag_for_sanctions_review}
use kudi_ai.Compliance.Repository.{save, pull_domain_events}
use kudi_ai.Compliance.Audit.{save_new, for_sanctions_screening}

-- MIN_TOKEN_LENGTH
abbrev pub min_token_length : ℕ
min_token_length = 2

-- `toUpperCase()` and `replace(/[^A-Z\s'-]/g, ' ')` on one character
abbrev pub normalize_char : ℕ → ℕ
normalize_char c =
    let u = if leb b'a' c && leb c b'z' then c - 32 else c in
    if (leb b'A' u && leb u b'Z') || is_space u || eqb u 39 || eqb u b'-' then u else 32

-- `split(/\s+/)`; the empty parts go with the short ones.
abbrev pub split_words : (word : List ℕ) → List ℕ → List (List ℕ)
split_words word [] = word ∷ []
split_words word (c ∷ cs) =
    let next = split_words [] cs in
    let longer = split_words (word ++ c ∷ []) cs in if is_space c then word ∷ next else longer

abbrev pub is_long : List ℕ → Bool
is_long word = leb min_token_length (length word)

-- `normalizeToTokens`
unfoldable pub normalize_to_tokens : String → List (List ℕ)
normalize_to_tokens name = select is_long (split_words [] (map normalize_char (codes name)))

abbrev pub same_word : List ℕ → List ℕ → Bool
same_word [] [] = true
same_word [] (d ∷ ds) = false
same_word (c ∷ cs) [] = false
same_word (c ∷ cs) (d ∷ ds) = eqb c d && same_word cs ds

-- `candidateIsSubsetOfEntry`
unfoldable pub candidate_is_subset_of_entry : (candidate entry : List (List ℕ)) → Bool
candidate_is_subset_of_entry candidate entry = all (λ token. any (same_word token) entry) candidate

unfoldable pub find_matches : List (List ℕ) → List SanctionsListEntry → List SanctionsListEntry
find_matches candidate entries =
    select (λ e. candidate_is_subset_of_entry candidate (normalize_to_tokens e.full_name)) entries

-- `screen`: the entries that match; `matched` says that there are any.
unfoldable pub screen : (full_name : String) → Action World (List SanctionsListEntry)
screen full_name =
    if ltb (length (normalize_to_tokens full_name)) 2
    then pure []
    else (do query; gets (λ w. find_matches (normalize_to_tokens full_name) w.db.sanctions_list))

-- One match in the summary; an empty program is falsy.
abbrev pub match_text : SanctionsListEntry → String
match_text e = elim e.program [
  | none ↦ e.full_name
  | some p ↦
      if eqb (length (codes p)) 0
      then e.full_name
      else String.◌++◌ e.full_name (String.◌++◌ " (" (String.◌++◌ p ")"))
]

-- `map(…).join('; ')`
abbrev pub match_summary : List SanctionsListEntry → String
match_summary [] = ""
match_summary (e ∷ []) = match_text e
match_summary (e ∷ f ∷ es) = String.◌++◌ (match_text e) (String.◌++◌ "; " (match_summary (f ∷ es)))

-- The result of the screening is that there are no matches.
unfoldable pub clear : Profile → Action World Profile
clear p = do
  save_new (λ id now. for_sanctions_screening id now (record {
    user_id = p.user_id;
    kyc_profile_id = p.id;
    outcome = passed;
    notes = none;
    performed_by_user_id = none;
  }))
  pure p

-- There are matches.
unfoldable pub flag : (summary : String) → Profile → Action World Profile
flag summary p = do
  now ← gets (λ w. w.now)
  let q = flag_for_sanctions_review now summary p
  save q
  save_new (λ id now. for_sanctions_screening id now (record {
    user_id = q.user_id;
    kyc_profile_id = q.id;
    outcome = failed;
    notes = some (String.◌++◌ "Candidate match(es): " summary);
    performed_by_user_id = none;
  }))
  publish_all (pull_domain_events q).0
  pure (pull_domain_events q).1

-- `screenAndFlag`; the profile that is left.
unfoldable pub screen_and_flag : Profile → (full_name : String) → Action World Profile
screen_and_flag p full_name = do
  matches ← screen full_name
  elim matches [ [] ↦ clear p | e ∷ es ↦ flag (match_summary (e ∷ es)) p ]
