-- ===== src/Idempotency.antt =====
-- shared/idempotency: prisma-idempotency-key.repository.ts and idempotency-guard.service.ts.
--
-- Other requests work on the same table. What they do to it between two calls of the client is a
-- list of changes, the next of which happens right before the next call; past the end of the list
-- nobody else works on it. Any list is allowed.
pub mod Rows
pub mod Acquire
pub mod Stale
pub mod Guard
mod Tests
use kudi_ai.Common.{
  String, ℕ, zero, suc, ◌-◌, ◌*◌, Bool, true, false, ◌&&◌, Option, none, some, List, [], ◌∷◌, ◌++◌,
  ◌==◌, eqb, ltb, length, if◌then◌else◌,
}
use kudi_ai.Shared.Errors.{Error, Result, ok, err, failure, duplicate_request_in_progress}
use kudi_ai.Shared.Action.{Action, pure, throw, gets, modify, throw_if, try_catch, ◌>>=◌, ◌>>◌}
use kudi_ai.Database.{World, query, random_text, set_idempotency_keys}
use kudi_ai.Database.Schema.{IdempotencyKeyRecord, in_progress, completed}
use kudi_ai.Database.Tables.{find, update_each, delete_many, count, any}

-- What another request does to the table.
abbrev pub Change : Type 0
Change = List IdempotencyKeyRecord → List IdempotencyKeyRecord

pub record Contended : Type 0 where
  pub world : World
  pub others : List Change

abbrev pub with_others : {A : Type 0} → List Change → Result A × World → Result A × Contended
with_others others (r, w) = (r, record { world = w; others = others })

-- An action on the world while nobody looks at the table.
abbrev pub on_world : {A : Type 0} → Action World A → Action Contended A
on_world m s = with_others s.others (m s.world)

abbrev pub interfere : Contended → Contended
interfere s = elim s.others [
  | [] ↦ s
  | f ∷ fs ↦ record {
    world = set_idempotency_keys (f s.world.db.idempotency_keys) s.world;
    others = fs;
  }
]

-- A call of the client on the table.
abbrev pub contended : {A : Type 0} → Action World A → Action Contended A
contended m s = on_world m (interfere s)

-- `userId_scope_key`
pub record Key : Type 0 where
  pub user_id : String
  pub scope : String
  pub key : String

abbrev pub has_key : Key → IdempotencyKeyRecord → Bool
has_key k r = r.user_id == k.user_id && (r.scope == k.scope && r.key == k.key)

abbrev pub is_in_progress : IdempotencyKeyRecord → Bool
is_in_progress r = elim r.status [ in_progress ↦ true | completed ↦ false ]

-- STALE_CLAIM_MS
abbrev pub stale_claim_ms : ℕ
stale_claim_ms = 2 * 60 * 1000

-- IdempotencyAcquireResult; `COMPLETED` has the nullable column that the source reads with `!`.
pub data Acquisition : Type 0 where
  acquired already_in_progress : Acquisition
  already_completed : (resource_id : Option String) → Acquisition

-- `create`: false where it throws P2002, the violation of `@@unique([userId, scope, key])`.
unfoldable pub create : Key → Action World Bool
create k = do
  query
  id ← random_text
  now ← gets (λ w. w.now)
  rows ← gets (λ w. w.db.idempotency_keys)
  if any (has_key k) rows then pure false else (do
    modify (
        set_idempotency_keys (
          rows
          ++ record {
            id = id;
            user_id = k.user_id;
            scope = k.scope;
            key = k.key;
            status = in_progress;
            resource_id = none;
            created_at = now;
            updated_at = now;
          }
            ∷ []))
    pure true)

-- `findUnique`
unfoldable pub find_unique : Key → Action World (Option IdempotencyKeyRecord)
find_unique k = do query; gets (λ w. find (has_key k) w.db.idempotency_keys)

-- `where: { id: existing.id, status: IN_PROGRESS }`
abbrev pub is_claim : String → IdempotencyKeyRecord → Bool
is_claim id r = r.id == id && is_in_progress r

-- The `updateMany` of the reclaim; its count.
unfoldable pub reclaim : String → Action World ℕ
reclaim id = do
  query
  now ← gets (λ w. w.now)
  rows ← gets (λ w. w.db.idempotency_keys)
  modify
      (set_idempotency_keys (update_each (is_claim id) (λ r. record r { updated_at = now }) rows))
  pure (count (is_claim id) rows)

-- `Date.now() - existing.createdAt.getTime() < STALE_CLAIM_MS`; a row from the future is fresh, as
-- there.
abbrev pub is_fresh : ℕ → IdempotencyKeyRecord → Bool
is_fresh now r = ltb (now - r.created_at) stale_claim_ms

-- `tryAcquire` after the failed insert, for the row that was found; `none` where the whole
-- acquire starts again.
unfoldable pub examine : Option IdempotencyKeyRecord → Action Contended (Option Acquisition)
examine none = pure none
examine (some r) = elim r.status [
  | completed ↦ pure (some (already_completed r.resource_id))
  | in_progress ↦ do
    now ← gets (λ s. s.world.now)
    if is_fresh now r
        then pure (some already_in_progress)
        else (do n ← contended (reclaim r.id); pure (if eqb n 0 then none else some acquired))
]

-- One round of `tryAcquire`.
unfoldable pub acquire_once : Key → Action Contended (Option Acquisition)
acquire_once k = do
  created ← contended (create k)
  if created
      then pure (some acquired)
      else (do existing ← contended (find_unique k); examine existing)

-- `tryAcquire`, which calls itself again, on fuel: `none` where the fuel did not last.
unfoldable pub try_acquire : ℕ → Key → Action Contended (Option Acquisition)
try_acquire zero k = pure none
try_acquire (suc fuel) k = do
  found ← acquire_once k
  elim found [ some a ↦ pure (some a) | none ↦ try_acquire fuel k ]

-- `markCompleted`: `update` throws where no row has the key.
unfoldable pub mark_completed : Key → String → Action World (Unit {0})
mark_completed k resource_id = do
  query
  now ← gets (λ w. w.now)
  rows ← gets (λ w. w.db.idempotency_keys)
  throw_if (eqb (count (has_key k) rows) 0) (failure "Record to update not found")
  modify (
      set_idempotency_keys (
        update_each (has_key k)
          (λ r. record r { status = completed; resource_id = some resource_id; updated_at = now })
          rows))

-- `release`
unfoldable pub release : Key → Action World (Unit {0})
release k = do
  query
  rows ← gets (λ w. w.db.idempotency_keys)
  modify (set_idempotency_keys (delete_many (has_key k) rows))

-- The `try` block and its `catch`, for a request that holds the claim.
unfoldable pub run_claimed : {A : Type 0} → Key → Action World (String × A) → Action Contended A
run_claimed k execute =
    try_catch (do result ← on_world execute; contended (mark_completed k result.0); pure result.1)
      (λ e. do contended (release k); throw e)

-- What `run` does with the answer of `tryAcquire`. A row that is COMPLETED without a resource,
-- which no code writes, hands `null` to `rehydrate`: here the empty text.
unfoldable pub proceed :
    {A : Type 0}
    → Key
    → (execute : Action World (String × A)) → (rehydrate : String → Action World A) → Acquisition
    → Action Contended A
proceed k execute rehydrate acquired = run_claimed k execute
proceed k execute rehydrate already_in_progress = throw duplicate_request_in_progress
proceed k execute rehydrate (already_completed none) = on_world (rehydrate "")
proceed k execute rehydrate (already_completed (some id)) = on_world (rehydrate id)

-- One round more than other requests make changes.
abbrev pub rounds : Contended → ℕ
rounds s = suc (length s.others)

-- `run` with a key, on one round more than other requests make changes.
unfoldable pub run_with_key :
    {A : Type 0}
    → Key
    → (execute : Action World (String × A)) → (rehydrate : String → Action World A)
    → Action Contended A
run_with_key k execute rehydrate s =
    (try_acquire (rounds s) k >>= λ found. elim found [
      | some a ↦ proceed k execute rehydrate a
      | none ↦ throw (failure "out of fuel")
    ])
      s

-- `run`: without a key, or with the empty one, there is no protection.
unfoldable pub run :
    {A : Type 0}
    → (user_id scope : String) (key : Option String) → (execute : Action World (String × A))
    → (rehydrate : String → Action World A) → Action Contended A
run user_id scope none execute rehydrate = do result ← on_world execute; pure result.1
run user_id scope (some key) execute rehydrate =
    if key == ""
    then (do result ← on_world execute; pure result.1)
    else run_with_key (record { user_id = user_id; scope = scope; key = key }) execute rehydrate
