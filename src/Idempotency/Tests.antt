-- ===== src/Idempotency/Tests.antt =====
-- Runs of the guard.
use kudi_ai.Common.{◌≡◌, ◌≢◌, refl, ap, sym, arith, String, none, some, [], ◌∷◌}
use kudi_ai.Shared.Errors.{ok}
use kudi_ai.Shared.Action.{Action, pure}
use kudi_ai.Database.{World, set_idempotency_keys, query, random_text}
use kudi_ai.Database.Samples.{two_accounts}
use kudi_ai.Database.Schema.{IdempotencyKeyRecord, in_progress}
use kudi_ai.Idempotency.{
  Change, Key, acquired, on_world, try_acquire, run_with_key, create, mark_completed, acquire_once,
  proceed, run_claimed,
}
use kudi_ai.Idempotency.Acquire.{alone, try_acquire-ends}
use kudi_ai.Idempotency.Stale.{try_acquire-try_acquire_both}
use kudi_ai.Idempotency.Guard.{claimed, completed_world, run_with_key-run_with_key_replayed}

abbrev key : Key
key = record { user_id = "ada"; scope = "transfers"; key = "k1" }

abbrev stale : IdempotencyKeyRecord
stale = record {
  id = "1";
  user_id = "ada";
  scope = "transfers";
  key = "k1";
  status = in_progress;
  resource_id = none;
  created_at = 1;
  updated_at = 1;
}

-- Four minutes after the claim.
abbrev later : World
later = record (set_idempotency_keys (stale ∷ []) two_accounts) { now = 240001 }

abbrev forget : Change
forget rows = []

-- The claim is released between the insert and the read.
try_acquire-ends_example :
    (try_acquire 3 key (record { world = later; others = (λ rows. rows) ∷ forget ∷ [] })).0
    ≢ ok none
try_acquire-ends_example =
    try_acquire-ends 3 key (record { world = later; others = (λ rows. rows) ∷ forget ∷ [] })
      (omega arith)

try_acquire-try_acquire_both_example :
    let (first, s) = try_acquire 1 key (alone later) in
    (first ≡ ok (some acquired)) × ((try_acquire 1 key s).0 ≡ ok (some acquired))
try_acquire-try_acquire_both_example =
    try_acquire-try_acquire_both 0 key later stale refl refl refl refl

abbrev pays : String → Action World (String × String)
pays id = pure (id, "paid")

abbrev reads : String → Action World String
reads id = pure id

abbrev paid : World
paid = completed_world key "t1" (claimed key two_accounts)

pays_once : run_with_key key (pays "t1") reads (alone two_accounts) ≡ (ok "paid", alone paid)
unfolding run_with_key try_acquire acquire_once create proceed run_claimed mark_completed query
    random_text
pays_once = refl

run_with_key-run_with_key_replayed_example :
    ((run_with_key key (pays "t1") reads (alone two_accounts)).0 ≡ ok "paid")
    × (run_with_key key (pays "t2") reads (alone paid)
        ≡ on_world (reads "t1") (alone (record paid { drawn = 2 })))
run_with_key-run_with_key_replayed_example =
    run_with_key-run_with_key_replayed key (pays "t1") (pays "t2") reads reads two_accounts
      (claimed key two_accounts) paid "t1" "paid"
      (record stale { id = "transfer id"; created_at = 7; updated_at = 7 }) refl refl refl refl refl
      refl (ap (λ z. z.1.world.db.idempotency_keys) (sym pays_once))

-- The operation goes through, and the call after it fails.
abbrev pays_last : Action World (String × String)
pays_last w = (ok ("t1", "paid"), record w { outcomes = some "connection lost" ∷ [] })
