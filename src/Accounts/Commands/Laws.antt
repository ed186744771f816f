-- ===== src/Accounts/Commands/Laws.antt =====
-- What a handler leaves in the database and on the event bus, where it returns and where it throws.
use kudi_ai.Common.{◌≡◌, arith, String, ◌-◌, some, [], ◌++◌, inl, inr}
use kudi_ai.Shared.Errors.{Error, ok, err, Result-cases}
use kudi_ai.Shared.Action.{Action}
use kudi_ai.Database.{AccountRecord, World, publish_all, query-frame}
use kudi_ai.Database.Tables.{find, update_many_none}
use kudi_ai.Accounts.Account.{Account, reconstitute, pull_domain_events}
use kudi_ai.Accounts.Mapper.{to_persistence, IsStorable}
use kudi_ai.Accounts.Repository.{has_id, has_id_version, find_by_id, create, update_versioned, save}
use kudi_ai.Accounts.Repository.Concurrency.{find_by_id-eq_some}
use kudi_ai.Accounts.Commands.{get_account, conclude, with_account}

-- A step that reads at most.
abbrev pub Same : World → World → Type 0
Same w w' = (w'.db ≡ w.db) × (w'.published ≡ w.published) × (w'.now ≡ w.now)

find_by_id-Same : (id : String) (w : World) → Same w (find_by_id id w).1
unfolding find_by_id
find_by_id-Same id w = ground (arith, query-frame w)

pub get_account-Same : (id : String) (w : World) → Same w (get_account id w).1
unfolding get_account
get_account-Same id w = ground (arith, find_by_id-Same id w)

get_account-eq_ok :
    (id : String) (w : World) (a : Account) {w' : World}
    → get_account id w ≡ (ok a, w')
    → find_by_id id w ≡ (ok (some a), w')
unfolding get_account
get_account-eq_ok id w a h = ground arith

-- The account is that of the row with the id.
pub get_account-row :
    (id : String) (w : World) (a : Account) {w' : World}
    → get_account id w ≡ (ok a, w')
    → find (has_id id) w.db.accounts ≡ some (to_persistence a)
get_account-row id w a {w'} h = (find_by_id-eq_some id w a {w' = w'} (get_account-eq_ok id w a h)).0

create-refused :
    (r : AccountRecord) (w : World) (e : Error) {w' : World} → create r w ≡ (err e, w') → Same w w'
unfolding create
create-refused r w e h = ground (arith, query-frame w)

update_versioned-err :
    (r : AccountRecord) (w : World) (e : Error) {w' : World}
    → update_versioned r w ≡ (err e, w')
    → Same w w'
unfolding update_versioned
update_versioned-err r w e h =
    ground
      (arith, query-frame w, update_many_none (has_id_version r.id (r.version - 1)) r w.db.accounts)

-- A save that throws writes nothing.
save-refused :
    (a : Account) (w : World) (e : Error) {w' : World} → save a w ≡ (err e, w') → Same w w'
unfolding save
save-refused a w e {w'} h = ground (
  arith,
  create-refused (to_persistence a) w e {w' = w'},
  update_versioned-err (to_persistence a) w e {w' = w'},
)

-- What a handler that ended in an error leaves.
abbrev Kept : World → World → Type 0
Kept w w' = (w'.db ≡ w.db) × (w'.published ≡ w.published)

conclude-eq_err :
    (a : Account) (w : World) (e : Error) {w' : World} → conclude a w ≡ (err e, w') → Kept w w'
unfolding conclude publish_all
conclude-eq_err a w e {w'} h = ground (arith, save-refused a w e {w' = (save a w).1})

conclude-eq_ok :
    (a b : Account) (w : World) {w' : World}
    → conclude a w ≡ (ok b, w')
    → (w₁ : World) × (save a w ≡ (ok tt, w₁))
      × (w'.db ≡ w₁.db)
      × (w'.published ≡ w₁.published ++ a.domain_events)
      × (b ≡ reconstitute a.props)
unfolding conclude publish_all pull_domain_events
conclude-eq_ok a b w {w'} h = ((save a w).1, ground arith, ground arith, ground arith, ground arith)

-- The change of a handler reads at most.
abbrev pub IsReader : (Account → Action World Account) → Type 0
IsReader change = (a : Account) (w : World) → Same w (change a w).1

-- A handler that throws leaves the database alone and publishes nothing.
pub with_account-eq_err :
    (id : String) (change : Account → Action World Account) (w : World) (e : Error) {w' : World}
    → IsReader change
    → with_account id change w ≡ (err e, w')
    → (w'.db ≡ w.db) × (w'.published ≡ w.published)
unfolding with_account
with_account-eq_err id change w e {w'} reads h =
    let w₁ = (get_account id w).1 in
    let same = get_account-Same id w in
    elim (Result-cases (get_account id w).0) [
      | inr (x, f) ↦ ground arith
      | inl (a, f) ↦
          let w₂ = (change a w₁).1 in
          let same' = reads a w₁ in
          elim (Result-cases (change a w₁).0) [
            | inr (x, g) ↦ ground arith
            | inl (b, g) ↦
                let kept = conclude-eq_err b w₂ e {w' = w'} (ground arith) in ground arith
          ]
    ]

-- The account that a handler which returned has loaded, and what it has made of it.
pub record IsHandled (id : String) (change : Account → Action World Account) (w w' : World)
    (c : Account) : Type 0 where
  pub loaded : Account
  pub changed : Account
  pub row : find (has_id id) w.db.accounts ≡ some (to_persistence loaded)
  pub storable : IsStorable loaded
  pub no_events : loaded.domain_events ≡ []
  pub before : World
  pub after : World
  pub same : Same w before
  pub did : change loaded before ≡ (ok changed, after)
  pub saved : World
  pub saves : save changed after ≡ (ok tt, saved)
  pub db : w'.db ≡ saved.db
  pub published : w'.published ≡ saved.published ++ changed.domain_events
  pub result : c ≡ reconstitute changed.props

pub with_account-IsHandled :
    (id : String) (change : Account → Action World Account) (w : World) (c : Account) {w' : World}
    → with_account id change w ≡ (ok c, w')
    → IsHandled id change w w' c
unfolding with_account
with_account-IsHandled id change w c {w'} h =
    let w₁ = (get_account id w).1 in
    elim (Result-cases (get_account id w).0) [
      | inr (x, f) ↦ absurd (ground arith)
      | inl (a, f) ↦
          let w₂ = (change a w₁).1 in
          elim (Result-cases (change a w₁).0) [
            | inr (x, g) ↦ absurd (ground arith)
            | inl (b, g) ↦
                let (w₃, k, db, pubs, res) = conclude-eq_ok b c w₂ {w' = w'} (ground arith) in
                let (row, storable, empty, _, _, _) =
                  find_by_id-eq_some id w a {w' = w₁} (get_account-eq_ok id w a (ground arith)) in
                record {
                  loaded = a;
                  changed = b;
                  row = row;
                  storable = storable;
                  no_events = empty;
                  before = w₁;
                  after = w₂;
                  same = get_account-Same id w;
                  did = ground arith;
                  saved = w₃;
                  saves = k;
                  db = db;
                  published = pubs;
                  result = res;
                }
          ]
    ]
