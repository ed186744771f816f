-- ===== src/Idempotency/Stale.antt =====
-- What becomes of a claim older than two minutes.
use kudi_ai.Common.{◌≡◌, refl, ap, ◌∙◌, arith, ℕ, suc, ◌+◌, String, true, false, some, [], eq_refl}
use kudi_ai.Shared.Errors.{ok}
use kudi_ai.Database.{World, set_idempotency_keys, query-healthy, random_text}
use kudi_ai.Database.Schema.{IdempotencyKeyRecord, in_progress}
use kudi_ai.Database.Tables.{find, any, update_each, count, count_of_find}
use kudi_ai.Idempotency.Rows.{any-of_find, find-update_each}
use kudi_ai.Idempotency.{
  Key, has_key, is_claim, is_fresh, acquired, create, find_unique, reclaim, examine, acquire_once,
  try_acquire,
}
use kudi_ai.Idempotency.Acquire.{alone}

abbrev IsStale : ℕ → IdempotencyKeyRecord → Type 0
IsStale now r = (r.status ≡ in_progress) × (is_fresh now r ≡ false)

pub create_healthy :
    (k : Key) (w : World)
    → w.outcomes ≡ []
    → any (has_key k) w.db.idempotency_keys ≡ true
    → create k w ≡ (ok false, record w { drawn = w.drawn + 1 })
unfolding create random_text
create_healthy k w o a = ground (arith, query-healthy w o)

pub find_unique_healthy :
    (k : Key) (w : World)
    → w.outcomes ≡ []
    → find_unique k w ≡ (ok (find (has_key k) w.db.idempotency_keys), w)
unfolding find_unique
find_unique_healthy k w o = ground (arith, query-healthy w o)

-- The world after a reclaim.
abbrev reclaimed : String → World → World
reclaimed id w =
    set_idempotency_keys
      (update_each (is_claim id) (λ r. record r { updated_at = w.now }) w.db.idempotency_keys) w

reclaim_healthy :
    (id : String) (w : World)
    → w.outcomes ≡ []
    → reclaim id w ≡ (ok (count (is_claim id) w.db.idempotency_keys), reclaimed id w)
unfolding reclaim
reclaim_healthy id w o = ground (arith, query-healthy w o)

-- Where nobody else works on the table, and the client's calls go through: a stale claim is
-- reclaimed.
acquire_once-reclaims :
    (k : Key) (w : World) (r : IdempotencyKeyRecord)
    → w.outcomes ≡ []
    → find (has_key k) w.db.idempotency_keys ≡ some r
    → IsStale w.now r
    → acquire_once k (alone w)
      ≡ (ok (some acquired), alone (reclaimed r.id (record w { drawn = w.drawn + 1 })))
unfolding acquire_once examine
acquire_once-reclaims k w r o f (p, q) =
    let w₁ : World = record w { drawn = w.drawn + 1 } in
    let created = create_healthy k w o (any-of_find (has_key k) r w.db.idempotency_keys f) in
    let found = find_unique_healthy k w₁ o in
    let again = reclaim_healthy r.id w₁ o in
    let counted = count_of_find (is_claim r.id) (has_key k) r w.db.idempotency_keys f in
    ground (arith, eq_refl r.id)

-- The reclaimed row is as stale as before.
reclaimed-IsStale :
    (k : Key) (w : World) (r : IdempotencyKeyRecord)
    → find (has_key k) w.db.idempotency_keys ≡ some r
    → IsStale w.now r
    → (r' : IdempotencyKeyRecord) × (find (has_key k) (reclaimed r.id w).db.idempotency_keys
        ≡ some r')
      × IsStale w.now r'
reclaimed-IsStale k w r f (p, q) =
    let fits : is_claim r.id r ≡ true = ground (arith, eq_refl r.id) in
    (
      record r { updated_at = w.now },
      find-update_each (is_claim r.id) (has_key k) (λ s. record s { updated_at = w.now }) r
          w.db.idempotency_keys (λ s. refl) f fits,
      (p, q),
    )

try_acquire_stale :
    (fuel : ℕ) (k : Key) (w : World) (r : IdempotencyKeyRecord)
    → w.outcomes ≡ []
    → find (has_key k) w.db.idempotency_keys ≡ some r
    → IsStale w.now r
    → try_acquire (suc fuel) k (alone w)
      ≡ (ok (some acquired), alone (reclaimed r.id (record w { drawn = w.drawn + 1 })))
unfolding try_acquire
try_acquire_stale fuel k w r o f h = ground (arith, acquire_once-reclaims k w r o f h)

-- Where a claim is stale and the client's calls go through, two requests that ask for it one right
-- after the other are both told that they have acquired it, at the same time by the clock.
pub try_acquire-try_acquire_both :
    (fuel : ℕ) (k : Key) (w : World) (r : IdempotencyKeyRecord)
    → w.outcomes ≡ []
    → find (has_key k) w.db.idempotency_keys ≡ some r
    → r.status ≡ in_progress
    → is_fresh w.now r ≡ false
    → let (first, s) = try_acquire (suc fuel) k (alone w) in
      (first ≡ ok (some acquired)) × ((try_acquire (suc fuel) k s).0 ≡ ok (some acquired))
try_acquire-try_acquire_both fuel k w r o f p q =
    let w₁ : World = record w { drawn = w.drawn + 1 } in
    let (r', f', h') = reclaimed-IsStale k w₁ r f (p, q) in
    let first = try_acquire_stale fuel k w r o f (p, q) in
    let second = try_acquire_stale fuel k (reclaimed r.id w₁) r' o f' h' in
    (ap (λ x. x.0) first, ap (λ x. (try_acquire (suc fuel) k x.1).0) first ∙ ap (λ x. x.0) second)
