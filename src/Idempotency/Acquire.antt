-- ===== src/Idempotency/Acquire.antt =====
-- The rounds of `tryAcquire`, and what its calls answer of the row of the key.
use kudi_ai.Common.{
  ◌≡◌, ◌≢◌, refl, sym, ap, ◌∙◌, arith, ℕ, zero, suc, ◌-◌, ◌<◌, ◌≤◌, String, false, Option, none,
  some, List, [], ◌∷◌, inl, inr, length, Bool-cases, eq_refl,
}
use kudi_ai.Shared.Errors.{ok, Result-cases}
use kudi_ai.Shared.Action.{Action}
use kudi_ai.Database.{World, query-frame, random_text}
use kudi_ai.Database.Schema.{IdempotencyKeyRecord}
use kudi_ai.Database.Tables.{find, count, count_of_find}
use kudi_ai.Idempotency.Rows.{find-of_any}
use kudi_ai.Idempotency.{
  Change, Contended, interfere, contended, Key, has_key, is_claim, Acquisition, create, find_unique,
  reclaim, examine, acquire_once, try_acquire,
}

create-eq_false :
    (k : Key) (w : World) {w' : World}
    → create k w ≡ (ok false, w')
    → (w'.db ≡ w.db) × (find (has_key k) w.db.idempotency_keys ≢ none)
unfolding create random_text
create-eq_false k w h = (
  ground (arith, query-frame w),
  ground (arith, query-frame w, find-of_any (has_key k) w.db.idempotency_keys),
)

find_unique-eq_ok :
    (k : Key) (w : World) (o : Option IdempotencyKeyRecord) {w' : World}
    → find_unique k w ≡ (ok o, w')
    → (w'.db ≡ w.db) × (w'.now ≡ w.now) × (find (has_key k) w.db.idempotency_keys ≡ o)
unfolding find_unique
find_unique-eq_ok k w o h = ground (arith, query-frame w)

reclaim-eq_ok :
    (id : String) (w : World) (n : ℕ) {w' : World}
    → reclaim id w ≡ (ok n, w')
    → n ≡ count (is_claim id) w.db.idempotency_keys
unfolding reclaim
reclaim-eq_ok id w n h = ground (arith, query-frame w)

abbrev pub alone : World → Contended
alone w = record { world = w; others = [] }

-- Where nobody else works on the table, one round is enough.
examine-alone :
    (k : Key) (w : World) (r : IdempotencyKeyRecord)
    → find (has_key k) w.db.idempotency_keys ≡ some r
    → (examine (some r) (alone w)).0 ≢ ok none
unfolding examine
examine-alone k w r f =
    let counted = count_of_find (is_claim r.id) (has_key k) r w.db.idempotency_keys f in
    elim (Result-cases (reclaim r.id w).0) [
      | inr (x, e) ↦ ground (arith, counted, eq_refl r.id)
      | inl (n, e) ↦
          let counts = reclaim-eq_ok r.id w n {w' = (reclaim r.id w).1} (ground arith) in
          ground (arith, counted, eq_refl r.id, counts)
    ]

examine-found :
    (k : Key) (w : World) (o : Option IdempotencyKeyRecord)
    → find (has_key k) w.db.idempotency_keys ≡ o
    → find (has_key k) w.db.idempotency_keys ≢ none
    → (examine o (alone w)).0 ≢ ok none
examine-found k w none f n = absurd (n f)
examine-found k w (some r) f n = examine-alone k w r f

acquire_once-alone : (k : Key) (w : World) → (acquire_once k (alone w)).0 ≢ ok none
unfolding acquire_once
acquire_once-alone k w = elim (Result-cases (create k w).0) [
  | inr (x, e) ↦ ground arith
  | inl (b, e) ↦ elim (Bool-cases b) [
    | inl f ↦ ground arith
    | inr f ↦
        let w₁ = (create k w).1 in
        let (same, there) = create-eq_false k w {w' = w₁} (ground arith) in
        elim (Result-cases (find_unique k w₁).0) [
          | inr (x, g) ↦ ground arith
          | inl (o, g) ↦
              let w₂ = (find_unique k w₁).1 in
              let (same', _, found) = find_unique-eq_ok k w₁ o {w' = w₂} (ground arith) in
              let keys : w₂.db.idempotency_keys ≡ w.db.idempotency_keys =
                ap (λ b. b.idempotency_keys) (same' ∙ same) in
              let ends =
                examine-found k w₂ o (ap (λ b. find (has_key k) b.idempotency_keys) same' ∙ found)
                  (λ e. there (ap (find (has_key k)) (sym keys) ∙ e)) in
              ground arith
        ]
  ]
]

-- A call of the client takes one change of another request, where there is one.
interfere-others : (s : Contended) → length (interfere s).others ≡ length s.others - 1
interfere-others s = by_others s.world s.others
  where
    by_others :
        (w : World) (os : List Change)
        → length (interfere (record { world = w; others = os })).others ≡ length os - 1
    by_others w [] = refl
    by_others w (f ∷ fs) = ground arith

contended-others :
    {A : Type 0} (m : Action World A) (s : Contended)
    → length (contended m s).1.others ≡ length s.others - 1
contended-others m s = interfere-others s

examine-others :
    (o : Option IdempotencyKeyRecord) (s : Contended)
    → length (examine o s).1.others ≤ length s.others
unfolding examine
examine-others none s = ground arith
examine-others (some r) s = ground (arith, contended-others (reclaim r.id) s)

acquire_once-others :
    (k : Key) (s : Contended) → length (acquire_once k s).1.others ≤ length s.others - 1
unfolding acquire_once
acquire_once-others k s = elim (Result-cases (contended (create k) s).0) [
  | inr (x, e) ↦ ground (arith, contended-others (create k) s)
  | inl (b, e) ↦
      let s₁ = (contended (create k) s).1 in
      elim (Result-cases (contended (find_unique k) s₁).0) [
        | inr (x, f) ↦
            ground (arith, contended-others (create k) s, contended-others (find_unique k) s₁)
        | inl (o, f) ↦
            let s₂ = (contended (find_unique k) s₁).1 in
            ground (
              arith,
              contended-others (create k) s,
              contended-others (find_unique k) s₁,
              examine-others o s₂,
            )
      ]
]

-- A round that starts again was disturbed.
acquire_once-contended :
    (k : Key) (w : World) (os : List Change)
    → (acquire_once k (record { world = w; others = os })).0 ≡ ok none
    → length os ≢ 0
acquire_once-contended k w [] e = absurd (acquire_once-alone k w e)
acquire_once-contended k w (f ∷ fs) e = ground arith

-- `tryAcquire` ends: with more rounds than the changes that other requests make to the table
-- meanwhile, whatever they are and whatever calls of the client fail, the fuel lasts: it throws or
-- answers. Where nobody else works on the table, one round is enough.
pub try_acquire-ends :
    (fuel : ℕ) (k : Key) (s : Contended)
    → length s.others < fuel
    → (try_acquire fuel k s).0 ≢ ok none
unfolding try_acquire
try_acquire-ends zero k s h = absurd (ground arith)
try_acquire-ends (suc fuel) k s h = elim (Result-cases (acquire_once k s).0) [
  | inr (x, e) ↦ ground arith
  | inl (o, e) ↦ by_found o e (try_acquire-ends fuel k (acquire_once k s).1)
]
  where
    by_found :
        (o : Option Acquisition)
        → (acquire_once k s).0 ≡ ok o
        → (length (acquire_once k s).1.others < fuel
            → (try_acquire fuel k (acquire_once k s).1).0 ≢ ok none)
        → (try_acquire (suc fuel) k s).0 ≢ ok none
    by_found (some a) e ends = ground arith
    by_found none e ends =
        let disturbed = acquire_once-contended k s.world s.others e in
        let fewer = acquire_once-others k s in
        let again = ends (omega (arith, h, fewer, disturbed)) in ground arith
