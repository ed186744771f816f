-- ===== src/Idempotency/Guard.antt =====
-- What `run` does with a key that nobody has claimed, and with a second request for it.
use kudi_ai.Common.{
  ◌≡◌, refl, ap, ◌∙◌, arith, ◌+◌, String, true, false, Option, none, some, List, [], ◌∷◌, ◌++◌,
}
use kudi_ai.Shared.Errors.{Error, Result, ok, err, failure}
use kudi_ai.Shared.Action.{Action}
use kudi_ai.Database.{World, query-healthy, random_text, set_idempotency_keys}
use kudi_ai.Database.Schema.{IdempotencyKeyRecord, in_progress, completed}
use kudi_ai.Database.Tables.{find, find-fits, any, update_each, delete_many}
use kudi_ai.Idempotency.Rows.{any-of_find, find-update_each, count_of_any}
use kudi_ai.Idempotency.Acquire.{alone}
use kudi_ai.Idempotency.Stale.{create_healthy, find_unique_healthy}
use kudi_ai.Idempotency.{
  on_world, Key, has_key, acquired, already_completed, create, examine, acquire_once, try_acquire,
  mark_completed, run_claimed, proceed, run_with_key,
}

-- The claim that `create` inserts, and the world after it.
abbrev pub claim : Key → World → IdempotencyKeyRecord
claim k w = record {
  id = w.random w.drawn;
  user_id = k.user_id;
  scope = k.scope;
  key = k.key;
  status = in_progress;
  resource_id = none;
  created_at = w.now;
  updated_at = w.now;
}

abbrev pub claimed : Key → World → World
claimed k w =
    set_idempotency_keys (w.db.idempotency_keys ++ claim k w ∷ [])
      (record w { drawn = w.drawn + 1 })

any-of_none :
    (k : Key) (rs : List IdempotencyKeyRecord)
    → find (has_key k) rs ≡ none
    → any (has_key k) rs ≡ false
any-of_none k [] f = refl
any-of_none k (r ∷ rs) f = ground (arith, any-of_none k rs)

try_acquire_free :
    (k : Key) (w : World)
    → w.outcomes ≡ []
    → find (has_key k) w.db.idempotency_keys ≡ none
    → try_acquire 1 k (alone w) ≡ (ok (some acquired), alone (claimed k w))
unfolding try_acquire acquire_once create random_text
try_acquire_free k w o f =
    let absent = any-of_none k w.db.idempotency_keys f in ground (arith, query-healthy w o)

-- The world after `markCompleted`, and after `release`.
abbrev pub completed_world : Key → String → World → World
completed_world k id w =
    set_idempotency_keys
      (update_each (has_key k)
        (λ r. record r { status = completed; resource_id = some id; updated_at = w.now })
        w.db.idempotency_keys)
      w

abbrev pub released : Key → World → World
released k w = set_idempotency_keys (delete_many (has_key k) w.db.idempotency_keys) w

mark_completed_healthy :
    (k : Key) (id : String) (w : World)
    → w.outcomes ≡ []
    → any (has_key k) w.db.idempotency_keys ≡ true
    → mark_completed k id w ≡ (ok tt, completed_world k id w)
unfolding mark_completed
mark_completed_healthy k id w o a =
    ground (arith, query-healthy w o, count_of_any (has_key k) w.db.idempotency_keys a)

module _ {A : Type 0} (k : Key) (execute : Action World (String × A)) where
  run_claimed_completes :
      (w : World) (id : String) (a : A) (w₂ : World) (r : IdempotencyKeyRecord)
      → execute w ≡ (ok (id, a), w₂)
      → w₂.outcomes ≡ []
      → find (has_key k) w₂.db.idempotency_keys ≡ some r
      → run_claimed k execute (alone w) ≡ (ok a, alone (completed_world k id w₂))
  unfolding run_claimed
  run_claimed_completes w id a w₂ r e o f =
      let marks =
        mark_completed_healthy k id w₂ o (any-of_find (has_key k) r w₂.db.idempotency_keys f) in
      ground arith

-- A request for a key that nobody has claimed, alone on the table, whose client calls go through
-- up to the operation: the operation runs after the claim.
run_free :
    {A : Type 0} (k : Key) (execute : Action World (String × A))
    (rehydrate : String → Action World A) (w : World)
    → w.outcomes ≡ []
    → find (has_key k) w.db.idempotency_keys ≡ none
    → run_with_key k execute rehydrate (alone w) ≡ run_claimed k execute (alone (claimed k w))
unfolding run_with_key proceed
run_free k execute rehydrate w o f = ground (arith, try_acquire_free k w o f)

acquire_completed :
    (k : Key) (w : World) (r : IdempotencyKeyRecord)
    → w.outcomes ≡ []
    → find (has_key k) w.db.idempotency_keys ≡ some r
    → r.status ≡ completed
    → try_acquire 1 k (alone w)
      ≡ (ok (some (already_completed r.resource_id)), alone (record w { drawn = w.drawn + 1 }))
unfolding try_acquire acquire_once examine
acquire_completed k w r o f c =
    let w₁ : World = record w { drawn = w.drawn + 1 } in
    let created = create_healthy k w o (any-of_find (has_key k) r w.db.idempotency_keys f) in
    let found = find_unique_healthy k w₁ o in ground arith

run_completed :
    {A : Type 0} (k : Key) (execute : Action World (String × A))
    (rehydrate : String → Action World A) (w : World) (r : IdempotencyKeyRecord) (id : String)
    → w.outcomes ≡ []
    → find (has_key k) w.db.idempotency_keys ≡ some r
    → r.status ≡ completed
    → r.resource_id ≡ some id
    → run_with_key k execute rehydrate (alone w)
      ≡ on_world (rehydrate id) (alone (record w { drawn = w.drawn + 1 }))
unfolding run_with_key proceed
run_completed k execute rehydrate w r id o f c i = ground (arith, acquire_completed k w r o f c)

-- Where no call of the client fails, neither those of the guard nor those left after the operation:
-- a request for a key that nobody has claimed, alone on the table, whose operation goes through
-- and leaves the claim, gives the response of the operation; any later request with the key, alone
-- on the table too, whatever its operation, runs no operation: it is the rehydration of the
-- resource that was made.
pub run_with_key-run_with_key_replayed :
    {A : Type 0} (k : Key) (execute execute' : Action World (String × A))
    (rehydrate rehydrate' : String → Action World A) (w w₂ w' : World) (id : String) (a : A)
    (r : IdempotencyKeyRecord)
    → w.outcomes ≡ []
    → find (has_key k) w.db.idempotency_keys ≡ none
    → execute (claimed k w) ≡ (ok (id, a), w₂)
    → w₂.outcomes ≡ []
    → find (has_key k) w₂.db.idempotency_keys ≡ some r
    → w'.outcomes ≡ []
    → w'.db.idempotency_keys
      ≡ (run_with_key k execute rehydrate (alone w)).1.world.db.idempotency_keys
    → ((run_with_key k execute rehydrate (alone w)).0 ≡ ok a)
      × (run_with_key k execute' rehydrate' (alone w')
          ≡ on_world (rehydrate' id) (alone (record w' { drawn = w'.drawn + 1 })))
run_with_key-run_with_key_replayed k execute execute' rehydrate rehydrate' w w₂ w' id a r o f e o₂ g
      o' h =
    let runs =
      run_free k execute rehydrate w o f
      ∙ run_claimed_completes k execute (claimed k w) id a w₂ r e o₂ g in
    let done : IdempotencyKeyRecord = record r {
      status = completed;
      resource_id = some id;
      updated_at = w₂.now;
    } in
    let found =
      find-update_each (has_key k) (has_key k)
        (λ r. record r { status = completed; resource_id = some id; updated_at = w₂.now }) r
        w₂.db.idempotency_keys (λ s. refl) g (find-fits (has_key k) w₂.db.idempotency_keys g) in
    (
      ap (λ z. z.0) runs,
      run_completed k execute' rehydrate' w' done id o'
          (ap (find (has_key k)) (h ∙ ap (λ z. z.1.world.db.idempotency_keys) runs) ∙ found) refl
          refl,
    )

-- The error of an operation that throws, or of the call that marks the key after it.
abbrev Throws : {A : Type 0} → Result A → (outcomes : List (Option String)) → Error → Type 0
Throws (err e) os x = (os ≡ []) × (e ≡ x)
Throws (ok _) os x = (m : String) × (os ≡ some m ∷ []) × (failure m ≡ x)
