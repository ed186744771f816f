-- ===== src/Database/Samples.antt =====
-- Rows and worlds for the runs in the modules of tests.
use kudi_ai.Common.{String, ℕ, [], ◌∷◌, eqb, if◌then◌else◌}
use kudi_ai.Common.Int.{ℤ, pos}
use kudi_ai.Shared.Enums.{ngn, active, savings}
use kudi_ai.Shared.Money.{Money}
use kudi_ai.Database.{AccountRecord, World}

abbrev pub naira : ℕ → Money
naira n = record { minor_units = pos n; currency = ngn }

-- An active account in naira at version 3.
abbrev pub account_row : (id user number : String) → ℤ → AccountRecord
account_row id user number balance = record {
  id = id;
  user_id = user;
  account_number = number;
  account_type = savings;
  currency = ngn;
  balance = balance;
  status = active;
  version = 3;
  created_at = 1;
  updated_at = 1;
}

abbrev pub texts : ℕ → String
texts n =
    if eqb n 0 then "transfer id" else if eqb n 1 then "KUDI-0123456789ABCDEF" else "another text"

-- Ada has 1,000.00 and Bayo 50.00; no call of the client fails.
abbrev pub two_accounts : World
two_accounts = record {
  db = record {
    accounts =
        account_row "a" "ada" "0000000001" (pos 100000)
        ∷ account_row "b" "bayo" "0000000002" (pos 5000)
        ∷ [];
    transfers = [];
    ledger_entries = [];
    kyc_profiles = [];
    kyc_tier_limits = [];
    idempotency_keys = [];
    users = [];
    refresh_tokens = [];
    kyc_audit_log = [];
    sanctions_list = [];
  };
  outcomes = [];
  published = [];
  now = 7;
  random = texts;
  drawn = 0;
}
