-- ===== src/Transfers/Entries.antt =====
-- Calls of the repositories that leave the ledger's entries alone.
use kudi_ai.Common.{◌≡◌, arith, String}
use kudi_ai.Database.{World, query-frame}
use kudi_ai.Accounts.Account.{Account}
use kudi_ai.Accounts.Repository as Accounts
use kudi_ai.Transfers.Repository.{find_by_provider_reference}

pub find_account-entries :
    (id : String) (w : World) → (Accounts.find_by_id id w).1.db.ledger_entries ≡ w.db.ledger_entries
unfolding Accounts.find_by_id
find_account-entries id w = ground (arith, query-frame w)

pub find-entries :
    (r : String) (w : World)
    → (find_by_provider_reference r w).1.db.ledger_entries ≡ w.db.ledger_entries
unfolding find_by_provider_reference
find-entries r w = ground (arith, query-frame w)

pub save_account-entries :
    (a : Account) (w : World) → (Accounts.save a w).1.db.ledger_entries ≡ w.db.ledger_entries
unfolding Accounts.save Accounts.create Accounts.update_versioned
save_account-entries a w = ground (arith, query-frame w)
