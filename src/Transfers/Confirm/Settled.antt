-- ===== src/Transfers/Confirm/Settled.antt =====
-- The row that a provider reference finds, before and after a transfer was settled and saved.
use kudi_ai.Common.{
  ◌≡◌, ◌≢◌, refl, ap, ◌∙◌, arith, ℕ, String, ◌+◌, ◌-◌, true, Option, none, some, eq_refl,
}
use kudi_ai.Shared.Enums.{is_terminal}
use kudi_ai.Shared.Errors.{ok}
use kudi_ai.Database.{World, TransferRecord, query-frame}
use kudi_ai.Database.Tables.{find, count, count_of_find, find-update_many_fitting, find-fits}
use kudi_ai.Ledger.{Posting, post}
use kudi_ai.Ledger.Journal.{post-eq_ok}
use kudi_ai.Transfers.Transfer.{Transfer, mark_successful, mark_reversed}
use kudi_ai.Transfers.Mapper.{to_domain, to_persistence}
use kudi_ai.Transfers.Repository.{
  find_by_provider_reference, has_provider_reference, has_id_version, read_transfer,
  update_versioned, save,
}

-- The row of a transfer that was read.
pub record IsRead (r : TransferRecord) (t : Transfer) : Type 0 where
  pub id : t.id ≡ r.id
  pub version : t.version ≡ r.version
  pub status : t.status ≡ r.status
  pub provider : t.provider_reference ≡ r.provider_reference

to_domain-IsRead : (r : TransferRecord) (t : Transfer) → to_domain r ≡ ok t → IsRead r t
unfolding to_domain
to_domain-IsRead r t h = ground arith

pub find-Same :
    (p : String) (w : World)
    → ((find_by_provider_reference p w).1.db ≡ w.db)
      × ((find_by_provider_reference p w).1.published ≡ w.published)
unfolding find_by_provider_reference
find-Same p w = ground (arith, query-frame w)

pub find-eq_some :
    (p : String) (w : World) (t : Transfer)
    → (find_by_provider_reference p w).0 ≡ ok (some t)
    → (r : TransferRecord) × (find (has_provider_reference p) w.db.transfers ≡ some r) × IsRead r t
unfolding find_by_provider_reference read_transfer
find-eq_some p w t h =
    by_row (find (has_provider_reference p) w.db.transfers) refl (ground (arith, query-frame w))
  where
    by_row :
        (o : Option TransferRecord)
        → find (has_provider_reference p) w.db.transfers ≡ o
        → read_transfer o ≡ ok (some t)
        → (r : TransferRecord) × (find (has_provider_reference p) w.db.transfers ≡ some r)
          × IsRead r t
    by_row none e k = absurd (ground arith)
    by_row (some r) e k = (r, e, to_domain-IsRead r t (ground arith))

-- A transfer saved at the next version of its row is what its provider reference finds.
save-found :
    (p : String) (r : TransferRecord) (u : Transfer) (w : World) {w' : World}
    → find (has_provider_reference p) w.db.transfers ≡ some r
    → u.id ≡ r.id
    → u.version ≡ r.version + 1
    → has_provider_reference p (to_persistence u) ≡ true
    → save u w ≡ (ok tt, w')
    → find (has_provider_reference p) w'.db.transfers ≡ some (to_persistence u)
unfolding save update_versioned to_persistence
save-found p r u w {w'} f i v k h =
    let row = to_persistence u in
    let fits : has_id_version row.id (row.version - 1) r ≡ true =
      rw (i, v) (ground (arith, eq_refl r.id)) in
    let counted : count (has_id_version row.id (row.version - 1)) w.db.transfers ≢ 0 =
      count_of_find (has_id_version row.id (row.version - 1)) (has_provider_reference p) r
        w.db.transfers f fits in
    let found =
      find-update_many_fitting (has_id_version row.id (row.version - 1)) (has_provider_reference p)
        r row w.db.transfers k f fits in
    ground (arith, query-frame w)

-- The provider reference finds a settled transfer.
pub record IsSettled (p : String) (w : World) : Type 0 where
  pub row : TransferRecord
  pub found : find (has_provider_reference p) w.db.transfers ≡ some row
  pub settled : is_terminal row.status ≡ true

-- What settles a transfer.
pub record Settles (t u : Transfer) : Type 0 where
  pub id : u.id ≡ t.id
  pub version : u.version ≡ t.version + 1
  pub provider : u.provider_reference ≡ t.provider_reference
  pub terminal : is_terminal u.status ≡ true

pub mark_successful-Settles :
    (now : ℕ) (t u : Transfer) → mark_successful now t ≡ ok u → Settles t u
unfolding mark_successful
mark_successful-Settles now t u h = ground arith

pub mark_reversed-Settles :
    (now : ℕ) (reason : String) (t u : Transfer) → mark_reversed now reason t ≡ ok u → Settles t u
unfolding mark_reversed
mark_reversed-Settles now reason t u h = ground arith

pub save-IsSettled :
    (p : String) (r : TransferRecord) (t u : Transfer) (w : World) {w' : World}
    → find (has_provider_reference p) w.db.transfers ≡ some r
    → IsRead r t
    → Settles t u
    → save u w ≡ (ok tt, w')
    → IsSettled p w'
unfolding to_persistence
save-IsSettled p r t u w {w'} f read s h =
    let provider : u.provider_reference ≡ r.provider_reference = s.provider ∙ read.provider in
    let fits : has_provider_reference p (to_persistence u) ≡ true =
      rw provider (find-fits (has_provider_reference p) w.db.transfers f) in
    record {
      row = to_persistence u;
      found =
          save-found p r u w f (s.id ∙ read.id) (s.version ∙ ap (λ v. v + 1) read.version) fits h;
      settled = s.terminal;
    }

pub IsSettled-of_transfers :
    (p : String) (w w' : World) → w'.db.transfers ≡ w.db.transfers → IsSettled p w → IsSettled p w'
IsSettled-of_transfers p w w' e s = record {
  row = s.row;
  found = rw e s.found;
  settled = s.settled;
}

pub post-transfers :
    (p : Posting) (w : World)
    → post p w ≡ (ok tt, (post p w).1)
    → (post p w).1.db.transfers ≡ w.db.transfers
post-transfers p w h = let (_, _, posted) = post-eq_ok p w h in ap (λ b. b.transfers) posted.written
