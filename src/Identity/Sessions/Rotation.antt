-- ===== src/Identity/Sessions/Rotation.antt =====
-- What becomes of refresh tokens that were used, and of the sessions of a user.
use kudi_ai.Common.{
  ◌≡◌, refl, sym, ap, ◌∙◌, arith, ◌+◌, String, Bool, true, false, Option, none, some, inl, inr, ◌⊎◌,
  ◌==◌, Bool-cases,
}
use kudi_ai.Shared.Errors.{Result, ok, err, failure, invalid_refresh_token, Result-cases}
use kudi_ai.Database.{World, random_text}
use kudi_ai.Database.Schema.{RefreshTokenRecord}
use kudi_ai.Database.Tables.{find, any}
use kudi_ai.Identity.User.{User, assert_can_attempt_login}
use kudi_ai.Identity.RefreshToken.{is_revoked, revoke, issue}
use kudi_ai.Identity.Repository.{
  find_by_token_hash, find_user_by_id, save_token, revoke_where, has_hash, has_token_id,
  upsert_token,
}
use kudi_ai.Identity.Repository.Tokens.{
  AllRevoked, revoke_where-AllRevoked, find_by_token_hash-frame, find_by_token_hash-eq_ok,
  find_user_by_id-frame, save_token-eq_ok, saves-find, find_by_token_hash-eq_err,
  revoke_where-eq_err,
}
use kudi_ai.Identity.Services.{TokenService}
use kudi_ai.Identity.Sessions.{
  RefreshCommand, AuthResponse, rotate, refresh_active, refuse_reuse, refresh_found, refresh,
  refresh_token_ttl_ms,
}

-- The next id that a rotation draws is nobody's.
abbrev NextIsFresh : World → Type 0
NextIsFresh w = any (has_token_id (w.random (w.drawn + 1))) w.db.refresh_tokens ≡ false

rotate-eq_ok :
    (tokens : TokenService) (c : RefreshCommand) (hash : String) (t : RefreshTokenRecord) (u : User)
    (w : World) (r : AuthResponse) {w' : World}
    → find (has_hash hash) w.db.refresh_tokens ≡ some t
    → NextIsFresh w
    → rotate tokens c t u w ≡ (ok r, w')
    → (t' : RefreshTokenRecord) × (find (has_hash hash) w'.db.refresh_tokens ≡ some t')
      × (is_revoked t' ≡ true)
      × (t'.family ≡ t.family)
unfolding rotate random_text revoke issue
rotate-eq_ok tokens c hash t u w r {w'} f fresh h =
    let w₁ : World = record w { drawn = w.drawn + 1 + 1 } in
    let id = w.random (w.drawn + 1) in
    let done = revoke w.now (some id) t in
    let new = issue id t.family w.now (record {
      user_id = u.id;
      token_hash = tokens.hash_refresh_token (w.random w.drawn);
      expires_at = w.now + refresh_token_ttl_ms;
      ip_address = c.ip_address;
      user_agent = c.user_agent;
    }) in
    let w₂ = (save_token done w₁).1 in
    elim (Result-cases (save_token done w₁).0) [
      | inr (x, e) ↦ absurd (ground arith)
      | inl (_, e) ↦
          let w₃ = (save_token new w₂).1 in
          elim (Result-cases (save_token new w₂).0) [
            | inr (x, g) ↦ absurd (ground arith)
            | inl (_, g) ↦
                let first = save_token-eq_ok done w₁ {w' = w₂} (ground arith) in
                let second = save_token-eq_ok new w₂ {w' = w₃} (ground arith) in
                let same : w'.db ≡ w₃.db = ground arith in
                (
                  done,
                  ap (λ b. find (has_hash hash) b.refresh_tokens) same
                      ∙ ap (find (has_hash hash)) (second ∙ ap (upsert_token new) first)
                      ∙ saves-find hash t done new w.db.refresh_tokens f refl refl fresh,
                  refl,
                  refl,
                )
          ]
    ]

refresh_active-eq_ok :
    (tokens : TokenService) (c : RefreshCommand) (hash : String) (t : RefreshTokenRecord)
    (w : World) (r : AuthResponse) {w' : World}
    → find (has_hash hash) w.db.refresh_tokens ≡ some t
    → NextIsFresh w
    → refresh_active tokens c t w ≡ (ok r, w')
    → (t' : RefreshTokenRecord) × (find (has_hash hash) w'.db.refresh_tokens ≡ some t')
      × (is_revoked t' ≡ true)
      × (t'.family ≡ t.family)
unfolding refresh_active
refresh_active-eq_ok tokens c hash t w r {w'} f fresh h =
    let w₁ = (find_user_by_id t.user_id w).1 in
    let (same, _, random, drawn) = find_user_by_id-frame t.user_id w in
    elim (Result-cases (find_user_by_id t.user_id w).0) [
      | inr (x, e) ↦ absurd (ground arith)
      | inl (o, e) ↦ by_user o e
    ]
  where
    by_user :
        (o : Option User)
        → (find_user_by_id t.user_id w).0 ≡ ok o
        → (t' : RefreshTokenRecord) × (find (has_hash hash) w'.db.refresh_tokens ≡ some t')
          × (is_revoked t' ≡ true)
          × (t'.family ≡ t.family)
    by_user none e = absurd (ground arith)
    by_user (some u) e =
        let w₁ = (find_user_by_id t.user_id w).1 in
        let (same, _, random, drawn) = find_user_by_id-frame t.user_id w in
        elim (Result-cases (assert_can_attempt_login w₁.now u)) [
          | inr (x, g) ↦ absurd (ground arith)
          | inl (v, g) ↦
              let fresh' : NextIsFresh w₁ = ground arith in
              rotate-eq_ok tokens c hash t v w₁ r {w' = w'}
                (ap (λ b. find (has_hash hash) b.refresh_tokens) same ∙ f) fresh' (ground arith)
        ]

-- The row of the token before, and after with the same family, revoked.
abbrev Rotated : (hash : String) → World → World → Type 0
Rotated hash w w' =
    (t : RefreshTokenRecord) × (find (has_hash hash) w.db.refresh_tokens ≡ some t)
    × (t' : RefreshTokenRecord) × (find (has_hash hash) w'.db.refresh_tokens ≡ some t')
    × (is_revoked t' ≡ true)
    × (t'.family ≡ t.family)

refresh-eq_ok :
    (tokens : TokenService) (c : RefreshCommand) (w : World) (r : AuthResponse) {w' : World}
    → NextIsFresh w
    → refresh tokens c w ≡ (ok r, w')
    → Rotated (tokens.hash_refresh_token c.refresh_token) w w'
unfolding refresh refresh_found refuse_reuse
refresh-eq_ok tokens c w r {w'} fresh h =
    let hash = tokens.hash_refresh_token c.refresh_token in
    elim (Result-cases (find_by_token_hash hash w).0) [
      | inr (x, e) ↦ absurd (ground arith)
      | inl (o, e) ↦ by_token o e
    ]
  where
    by_token :
        (o : Option RefreshTokenRecord)
        → (find_by_token_hash (tokens.hash_refresh_token c.refresh_token) w).0 ≡ ok o
        → Rotated (tokens.hash_refresh_token c.refresh_token) w w'
    by_token none e = absurd (ground arith)
    by_token (some t) e =
        let hash = tokens.hash_refresh_token c.refresh_token in
        let w₁ = (find_by_token_hash hash w).1 in
        let (same, now, random, drawn) = find_by_token_hash-frame hash w in
        let found = find_by_token_hash-eq_ok hash w (some t) {w' = w₁} (ground arith) in
        elim (Bool-cases (is_revoked t)) [
          | inl g ↦ absurd (ground arith)
          | inr g ↦
              let fresh' : NextIsFresh w₁ = ground arith in
              let active : refresh_active tokens c t w₁ ≡ (ok r, w') = ground arith in
              let (t', f', revoked, family) =
                refresh_active-eq_ok tokens c hash t w₁ r {w' = w'}
                  (ap (λ b. find (has_hash hash) b.refresh_tokens) same ∙ found) fresh' active in
              (t, found, t', f', revoked, family)
        ]

-- The answer to a token that is presented again: the family is revoked, or the client failed.
abbrev pub Refused : (family : String) → Result AuthResponse × World → Type 0
Refused family (r, w) =
    ((r ≡ err invalid_refresh_token) × AllRevoked (λ s. s.family == family) w.db.refresh_tokens)
    ⊎ ((m : String) × (r ≡ err (failure m)))

refresh-Refused :
    (tokens : TokenService) (c : RefreshCommand) (w : World) (t : RefreshTokenRecord)
    → find (has_hash (tokens.hash_refresh_token c.refresh_token)) w.db.refresh_tokens ≡ some t
    → is_revoked t ≡ true
    → Refused t.family (refresh tokens c w)
unfolding refresh refresh_found refuse_reuse
refresh-Refused tokens c w t f g =
    let hash = tokens.hash_refresh_token c.refresh_token in
    let w₁ = (find_by_token_hash hash w).1 in
    elim (Result-cases (find_by_token_hash hash w).0) [
      | inr (x, e) ↦ let (m, i) = find_by_token_hash-eq_err hash w x e in inr (m, ground arith)
      | inl (o, e) ↦
          let found = find_by_token_hash-eq_ok hash w o {w' = w₁} (ground arith) in
          let test : RefreshTokenRecord → Bool = λ s. s.family == t.family in
          let equal : o ≡ some t = sym found ∙ f in
          elim (Result-cases (revoke_where test w₁).0) [
            | inr (x, i) ↦ let (m, j) = revoke_where-eq_err test w₁ x i in inr (m, ground arith)
            | inl (_, i) ↦
                let w₂ = (revoke_where test w₁).1 in
                let same : (refresh tokens c w).1 ≡ w₂ = ground arith in
                inl
                  (ground arith, rw same (revoke_where-AllRevoked test w₁ {w' = w₂} (ground arith)))
          ]
    ]

-- Whatever calls of the client fail: after a refresh that returned, a request with the same
-- refresh token is refused while the rows of the tokens are those; where its own calls go through,
-- no token of the family of the token's row is left unrevoked. The id that the first refresh drew
-- was nobody's.
pub refresh-refresh-Refused :
    (tokens : TokenService) (c c' : RefreshCommand) (w w₁ w' : World) (r : AuthResponse)
    → NextIsFresh w
    → refresh tokens c w ≡ (ok r, w₁)
    → c'.refresh_token ≡ c.refresh_token
    → w'.db.refresh_tokens ≡ w₁.db.refresh_tokens
    → (t : RefreshTokenRecord) × (find
          (has_hash (tokens.hash_refresh_token c.refresh_token))
          w.db.refresh_tokens
        ≡ some t)
      × Refused t.family (refresh tokens c' w')
refresh-refresh-Refused tokens c c' w w₁ w' r fresh h same rows =
    let (t₀, f₀, t, f, g, family) = refresh-eq_ok tokens c w r {w' = w₁} fresh h in
    let found : find (has_hash (tokens.hash_refresh_token c'.refresh_token)) w'.db.refresh_tokens
        ≡ some t =
      ap (λ k. find (has_hash (tokens.hash_refresh_token k)) w'.db.refresh_tokens) same
      ∙ ap (find (has_hash (tokens.hash_refresh_token c.refresh_token))) rows
      ∙ f in
    (t₀, f₀, rw (← family) (refresh-Refused tokens c' w' t found g))
