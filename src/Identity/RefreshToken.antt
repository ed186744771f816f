-- ===== src/Identity/RefreshToken.antt =====
-- modules/identity/domain/entities/refresh-token.entity.ts and
-- infrastructure/mappers/refresh-token.mapper.ts, whose two functions copy the columns: a token is
-- its row.
use kudi_ai.Common.{
  String, ℕ, Bool, true, false, not, ◌&&◌, ◌==◌, Option, none, some, leb, if◌then◌else◌,
}
use kudi_ai.Database.Schema.{RefreshTokenRecord}

pub record Issue : Type 0 where
  pub user_id : String
  pub token_hash : String
  pub expires_at : ℕ
  pub ip_address : Option String
  pub user_agent : Option String

-- `RefreshToken.issue`; `id` and a family that is not given are `randomUUID()`s.
unfoldable pub issue : (id family : String) (now : ℕ) → Issue → RefreshTokenRecord
issue id family now p = record {
  id = id;
  user_id = p.user_id;
  token_hash = p.token_hash;
  family = family;
  expires_at = p.expires_at;
  revoked_at = none;
  replaced_by_token_id = none;
  ip_address = p.ip_address;
  user_agent = p.user_agent;
  created_at = now;
}

abbrev pub is_expired : ℕ → RefreshTokenRecord → Bool
is_expired now t = leb t.expires_at now

abbrev pub is_revoked : RefreshTokenRecord → Bool
is_revoked t = elim t.revoked_at [ none ↦ false | some _ ↦ true ]

abbrev pub is_active : ℕ → RefreshTokenRecord → Bool
is_active now t = not (is_expired now t) && not (is_revoked t)

-- `if (replacedByTokenId) …`: the empty text is falsy too.
abbrev pub or_kept : Option String → Option String → Option String
or_kept none kept = kept
or_kept (some id) kept = if id == "" then kept else some id

unfoldable pub revoke :
    ℕ → (replaced_by_token_id : Option String) → RefreshTokenRecord → RefreshTokenRecord
revoke now replaced_by t = record t {
  revoked_at = some now;
  replaced_by_token_id = or_kept replaced_by t.replaced_by_token_id;
}
