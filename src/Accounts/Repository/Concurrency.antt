-- ===== src/Accounts/Repository/Concurrency.antt =====
-- What `save` does to the table, and what happens to two writers of one version.
use kudi_ai.Common.{
  ◌≡◌, ◌≢◌, refl, arith, String, ◌+◌, ◌-◌, ◌<◌, true, Option, none, some, List, [], ◌==◌, eq_iff,
  eq_refl,
}
use kudi_ai.Shared.Errors.{ok}
use kudi_ai.Database.{AccountRecord, World, query-frame, query-healthy}
use kudi_ai.Database.Tables.{
  find, update_many, count, count-update_many, update_many_none, find-update_many,
  find-update_many_ne, find-fits,
}
use kudi_ai.Accounts.Account.{Account, reconstitute}
use kudi_ai.Accounts.Mapper.{
  to_persistence, IsStorable, to_persistence-to_domain, to_domain-to_persistence,
}
use kudi_ai.Accounts.Repository.{
  has_id, has_id_version, read_account, find_by_id, update_versioned, save,
}

-- The database after the write of `row`.
abbrev pub rows_after : AccountRecord → List AccountRecord → List AccountRecord
rows_after row rows = update_many (has_id_version row.id (row.version - 1)) row rows

-- An update that goes through has found the expected version and replaced it, and has done
-- nothing else.
pub update_versioned-eq_ok :
    (row : AccountRecord) (w : World) {w' : World}
    → update_versioned row w ≡ (ok tt, w')
    → (w'.db ≡ record w.db { accounts = rows_after row w.db.accounts })
      × (count (has_id_version row.id (row.version - 1)) w.db.accounts ≢ 0)
      × (w'.published ≡ w.published)
      × (w'.now ≡ w.now)
unfolding update_versioned
update_versioned-eq_ok row w h = ground (arith, query-frame w)

-- An account that is found is read from a row with its id, and nothing else happens.
pub find_by_id-eq_some :
    (id : String) (w : World) (a : Account) {w' : World}
    → find_by_id id w ≡ (ok (some a), w')
    → (find (has_id id) w.db.accounts ≡ some (to_persistence a))
      × IsStorable a
      × (a.domain_events ≡ [])
      × (w'.db ≡ w.db)
      × (w'.published ≡ w.published)
      × (w'.now ≡ w.now)
unfolding find_by_id
find_by_id-eq_some id w a {w'} h =
    by_row (find (has_id id) w.db.accounts) refl (ground (arith, query-frame w))
  where
    by_row :
        (o : Option AccountRecord)
        → find (has_id id) w.db.accounts ≡ o
        → (read_account o ≡ ok (some a))
          × (w'.db ≡ w.db)
          × (w'.published ≡ w.published)
          × (w'.now ≡ w.now)
        → (find (has_id id) w.db.accounts ≡ some (to_persistence a))
          × IsStorable a
          × (a.domain_events ≡ [])
          × (w'.db ≡ w.db)
          × (w'.published ≡ w.published)
          × (w'.now ≡ w.now)
    by_row none e (k, d, p, n) = cc
    by_row (some r) e (k, d, p, n) =
        let (same, storable, empty) = to_persistence-to_domain r a (ground arith) in
        (rw same e, storable, empty, d, p, n)

pub save-eq_ok :
    (a : Account) (w : World) {w' : World}
    → 0 < a.version
    → save a w ≡ (ok tt, w')
    → let row = to_persistence a in
      (w'.db ≡ record w.db { accounts = rows_after row w.db.accounts })
      × (count (has_id_version a.id (a.version - 1)) w.db.accounts ≢ 0)
      × (w'.published ≡ w.published)
      × (w'.now ≡ w.now)
unfolding save to_persistence
save-eq_ok a w {w'} p h = update_versioned-eq_ok (to_persistence a) w {w' = w'} (ground arith)

-- An update that does not find the expected version is refused and writes nothing.
update_versioned-refused :
    (row : AccountRecord) (w : World)
    → count (has_id_version row.id (row.version - 1)) w.db.accounts ≡ 0
    → ((update_versioned row w).0 ≢ ok tt) × ((update_versioned row w).1.db ≡ w.db)
unfolding update_versioned
update_versioned-refused row w c = ground (
  arith,
  query-frame w,
  update_many_none (has_id_version row.id (row.version - 1)) row w.db.accounts c,
)

pub count-rows_after :
    (row : AccountRecord) (rows : List AccountRecord)
    → 0 < row.version
    → count (has_id_version row.id (row.version - 1)) (rows_after row rows) ≡ 0
count-rows_after row rows p =
    count-update_many (has_id_version row.id (row.version - 1))
      (has_id_version row.id (row.version - 1)) row rows (ground arith) (λ r h. h)

save-update_versioned :
    (a : Account) (w : World) → 0 < a.version → save a w ≡ update_versioned (to_persistence a) w
unfolding save to_persistence
save-update_versioned a w p = ground arith

-- Of two writers that loaded the same version of an account, the second one to save is refused
-- and leaves the database alone, whatever calls of the client fail.
pub save-save_conflict :
    (a b : Account) (w w' : World)
    → 0 < a.version
    → b.id ≡ a.id
    → b.version ≡ a.version
    → save a w ≡ (ok tt, w')
    → ((save b w').0 ≢ ok tt) × ((save b w').1.db ≡ w'.db)
unfolding to_persistence
save-save_conflict a b w w' p i v h =
    let (d, c, _, _) = save-eq_ok a w p h in
    let later : 0 < b.version = rw v p in
    let none : count (has_id_version b.id (b.version - 1)) w'.db.accounts ≡ 0 =
      rw (d, i, v) (count-rows_after (to_persistence a) w.db.accounts p) in
    rw (save-update_versioned b w' later) (update_versioned-refused (to_persistence b) w' none)

pub find-rows_after :
    (row old : AccountRecord) (rows : List AccountRecord)
    → find (has_id row.id) rows ≡ some old
    → old.version + 1 ≡ row.version
    → find (has_id row.id) (rows_after row rows) ≡ some row
find-rows_after row old rows f v =
    let same : (old.id == row.id) ≡ true = find-fits (has_id row.id) rows f in
    find-update_many (has_id_version row.id (row.version - 1)) (has_id row.id) old row rows
      (eq_refl row.id) (λ r h. ground arith) f (rw same (ground arith))

pub find-rows_after_ne :
    (row : AccountRecord) (id : String) (rows : List AccountRecord)
    → row.id ≢ id
    → find (has_id id) (rows_after row rows) ≡ find (has_id id) rows
find-rows_after_ne row id rows ne =
    find-update_many_ne (has_id_version row.id (row.version - 1)) (has_id id) row rows
      (ground (arith, eq_iff row.id id)) (λ r h. ground (arith, eq_iff r.id row.id, eq_iff r.id id))

find_by_id-healthy :
    (id : String) (w : World)
    → w.outcomes ≡ []
    → (find_by_id id w).0 ≡ read_account (find (has_id id) w.db.accounts)
unfolding find_by_id
find_by_id-healthy id w h = ground (arith, query-healthy w h)

read_account-to_persistence :
    (a : Account)
    → IsStorable a
    → read_account (some (to_persistence a)) ≡ ok (some (reconstitute a.props))
unfolding read_account
read_account-to_persistence a v = rw (to_domain-to_persistence a v, read_account) refl

-- A storable account that was saved over the row of its id is read back, with no events, where
-- the client answers.
pub find_by_id-save :
    (a : Account) (old : AccountRecord) (w w' : World)
    → 0 < a.version
    → IsStorable a
    → find (has_id a.id) w.db.accounts ≡ some old
    → old.version + 1 ≡ a.version
    → save a w ≡ (ok tt, w')
    → w'.outcomes ≡ []
    → (find_by_id a.id w').0 ≡ ok (some (reconstitute a.props))
unfolding to_persistence
find_by_id-save a old w w' p st f v h o =
    let (d, _, _, _) = save-eq_ok a w p h in
    rw (find_by_id-healthy a.id w' o, d, find-rows_after (to_persistence a) old w.db.accounts f v)
      (read_account-to_persistence a st)
