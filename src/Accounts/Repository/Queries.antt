-- ===== src/Accounts/Repository/Queries.antt =====
-- The other reads of modules/accounts/infrastructure/persistence/prisma-account.repository.ts.
use kudi_ai.Common.{String, Bool, Option, List, [], ◌∷◌, ◌==◌, leb, if◌then◌else◌}
use kudi_ai.Shared.Errors.{Result, ok, err}
use kudi_ai.Shared.Action.{Action, lift, gets, ◌>>=◌, ◌>>◌}
use kudi_ai.Database.{AccountRecord, World, query}
use kudi_ai.Database.Tables.{find, any, select}
use kudi_ai.Accounts.Account.{Account}
use kudi_ai.Accounts.Mapper.{to_domain}
use kudi_ai.Accounts.Repository.{read_account}

abbrev has_number : String → AccountRecord → Bool
has_number number r = r.account_number == number

unfoldable pub find_by_account_number : String → Action World (Option Account)
find_by_account_number number = do
  query
  found ← gets (λ w. find (has_number number) w.db.accounts)
  lift (read_account found)

unfoldable pub exists_by_account_number : String → Action World Bool
exists_by_account_number number = do query; gets (λ w. any (has_number number) w.db.accounts)

-- `orderBy: { createdAt: 'asc' }`; rows of one time keep their order.
abbrev pub insert_by_age : AccountRecord → List AccountRecord → List AccountRecord
insert_by_age r [] = r ∷ []
insert_by_age r (s ∷ rs) =
    let rest = insert_by_age r rs in if leb r.created_at s.created_at then r ∷ s ∷ rs else s ∷ rest

abbrev pub sort_by_age : List AccountRecord → List AccountRecord
sort_by_age [] = []
sort_by_age (r ∷ rs) = insert_by_age r (sort_by_age rs)

-- `records.map((record) => AccountMapper.toDomain(record))`
unfoldable pub read_accounts : List AccountRecord → Result (List Account)
read_accounts [] = ok []
read_accounts (r ∷ rs) = elim (to_domain r) [
  | err e ↦ err e
  | ok a ↦ elim (read_accounts rs) [ err e ↦ err e | ok as_read ↦ ok (a ∷ as_read) ]
]

unfoldable pub find_all_by_user_id : String → Action World (List Account)
find_all_by_user_id user_id = do
  query
  rows ← gets (λ w. select (λ r. r.user_id == user_id) w.db.accounts)
  lift (read_accounts (sort_by_age rows))
