-- ===== src/Transfers/Repository.antt =====
-- modules/transfers/infrastructure/persistence/prisma-transfer.repository.ts
use kudi_ai.Common.{
  ◌≡◌, arith, String, ℕ, ◌-◌, Bool, true, false, ◌&&◌, ◌||◌, Option, none, some, List, [], ◌∷◌,
  ◌++◌, ◌==◌, eqb, ltb, leb, if◌then◌else◌,
}
use Prim.Native.String
use kudi_ai.Common.Int.{ℤ, pos, ◌+ℤ◌}
use kudi_ai.Shared.Enums.{Currency, TransactionStatus, successful, processing}
use kudi_ai.Shared.Errors.{Result, ok, err}
use kudi_ai.Shared.Action.{Action, pure, throw, lift, gets, modify, throw_if, ◌>>=◌, ◌>>◌}
use kudi_ai.Shared.Money.{Money, from_minor_units}
use kudi_ai.Database.{TransferRecord, World, query, query-frame, set_transfers}
use kudi_ai.Database.Tables.{find, update_many, count, any}
use kudi_ai.Accounts.Repository.{concurrent_modification, unique_violation}
use kudi_ai.Transfers.Transfer.{Transfer}
use kudi_ai.Transfers.Mapper.{to_domain, to_persistence}

-- `record ? TransferMapper.toDomain(record) : null`
unfoldable pub read_transfer : Option TransferRecord → Result (Option Transfer)
read_transfer none = ok none
read_transfer (some r) = elim (to_domain r) [ ok t ↦ ok (some t) | err e ↦ err e ]

unfoldable pub find_by_id : String → Action World (Option Transfer)
find_by_id id = do
  query
  row ← gets (λ w. find (λ r. r.id == id) w.db.transfers)
  lift (read_transfer row)

abbrev pub has_provider_reference : String → TransferRecord → Bool
has_provider_reference reference r = elim r.provider_reference [
  | none ↦ false
  | some p ↦ p == reference
]

-- `findFirst` without an order, on a column that is not unique: the first row of the table's order.
unfoldable pub find_by_provider_reference : String → Action World (Option Transfer)
find_by_provider_reference reference = do
  query
  row ← gets (λ w. find (has_provider_reference reference) w.db.transfers)
  lift (read_transfer row)

-- `prisma.transfer.create`: `id` and `reference` are unique.
unfoldable pub create : TransferRecord → Action World (Unit {0})
create row = do
  query
  rows ← gets (λ w. w.db.transfers)
  throw_if (any (λ r. r.id == row.id || r.reference == row.reference) rows) unique_violation
  modify (set_transfers (rows ++ row ∷ []))

abbrev pub has_id_version : String → ℕ → TransferRecord → Bool
has_id_version id version r = r.id == id && eqb r.version version

-- Where no row had the expected version: an update that lost a race, or a first save.
unfoldable pub create_if_missing : TransferRecord → Action World (Unit {0})
create_if_missing row = do
  query
  exists ← gets (λ w. any (λ r. r.id == row.id) w.db.transfers)
  if exists then throw (concurrent_modification (String.◌++◌ "Transfer " row.id)) else create row

unfoldable pub update_versioned : TransferRecord → Action World (Unit {0})
update_versioned row = do
  query
  rows ← gets (λ w. w.db.transfers)
  modify (set_transfers (update_many (has_id_version row.id (row.version - 1)) row rows))
  if eqb (count (has_id_version row.id (row.version - 1)) rows) 0
      then create_if_missing row
      else pure tt

-- `save`: `version - 1 < 0` holds at version 0 alone.
unfoldable pub save : Transfer → Action World (Unit {0})
save t =
    let row = to_persistence t in if ltb row.version 1 then create row else update_versioned row

-- `status: { in: [SUCCESSFUL, PROCESSING] }`
abbrev pub is_counted : TransactionStatus → Bool
is_counted successful = true
is_counted processing = true
is_counted _ = false

-- The sum of `aggregate`.
abbrev pub sum_since : String → ℕ → List TransferRecord → ℤ
sum_since account since [] = pos 0
sum_since account since (r ∷ rs) =
    (if r.source_account_id == account && (is_counted r.status && leb since r.created_at)
      then r.amount_minor_units
      else pos 0)
    +ℤ sum_since account since rs

unfoldable pub sum_source_amount_since : String → ℕ → Currency → Action World Money
sum_source_amount_since account since currency = do
  query
  total ← gets (λ w. sum_since account since w.db.transfers)
  lift (from_minor_units total currency)

-- The tables and the events that `save` has no part in.
pub record OnlyTransfers (w w' : World) : Type 0 where
  pub accounts : w'.db.accounts ≡ w.db.accounts
  pub entries : w'.db.ledger_entries ≡ w.db.ledger_entries
  pub profiles : w'.db.kyc_profiles ≡ w.db.kyc_profiles
  pub published : w'.published ≡ w.published
  pub now : w'.now ≡ w.now

pub create-OnlyTransfers : (row : TransferRecord) (w : World) → OnlyTransfers w (create row w).1
unfolding create
create-OnlyTransfers row w = ground (arith, query-frame w)

create_if_missing-OnlyTransfers :
    (row : TransferRecord) (w : World) → OnlyTransfers w (create_if_missing row w).1
unfolding create_if_missing
create_if_missing-OnlyTransfers row w =
    ground (arith, query-frame w, create-OnlyTransfers row (query w).1)

update_versioned-OnlyTransfers :
    (row : TransferRecord) (w : World) → OnlyTransfers w (update_versioned row w).1
unfolding update_versioned
update_versioned-OnlyTransfers row w =
    let w₁ = (query w).1 in
    let rows = update_many (has_id_version row.id (row.version - 1)) row w₁.db.transfers in
    ground (arith, query-frame w, create_if_missing-OnlyTransfers row (set_transfers rows w₁))

-- Saving a transfer writes to no other table and publishes nothing, on every branch.
pub save-OnlyTransfers : (t : Transfer) (w : World) → OnlyTransfers w (save t w).1
unfolding save
save-OnlyTransfers t w = ground (
  arith,
  create-OnlyTransfers (to_persistence t) w,
  update_versioned-OnlyTransfers (to_persistence t) w,
)
