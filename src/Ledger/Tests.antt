-- ===== src/Ledger/Tests.antt =====
-- Instances of the properties of the ledger.
use kudi_ai.Common.{◌≡◌, ◌≢◌, refl, ◌↔◌, true, none, some, List, [], ◌∷◌}
use kudi_ai.Shared.Errors.{ok, err, unbalanced_ledger_posting}
use kudi_ai.Database.{debit, credit, transfer}
use kudi_ai.Database.Samples.{naira, two_accounts}
use kudi_ai.Ledger.{PostingLeg, Posting, net_by_currency, all_zero, post}
use kudi_ai.Ledger.Balance.{IsBalanced, IsBalancedBook, all_zero-net_by_currency_iff}
use kudi_ai.Ledger.Journal.{post-refused, post-IsBalancedBook}

abbrev two_legs : List PostingLeg
two_legs =
    record {
      account_id = "a";
      direction = debit;
      amount = naira 20;
      balance_after = some (naira 80);
    }
    ∷ record { account_id = "fees"; direction = credit; amount = naira 20; balance_after = none }
    ∷ []

abbrev posting : Posting
posting = record {
  reference = "TRF-0000000001";
  narration = "rent";
  user_id = "ada";
  entry_type = transfer;
  legs = two_legs;
}

all_zero-net_by_currency_iff_example :
    (all_zero (net_by_currency [] two_legs) ≡ true) ↔ IsBalanced two_legs
all_zero-net_by_currency_iff_example = all_zero-net_by_currency_iff two_legs

post-refused_example :
    (¬ IsBalanced posting.legs
      → post posting two_accounts
        ≡ (err (unbalanced_ledger_posting posting.reference), two_accounts))
    × ((post posting two_accounts).0 ≢ ok tt → (post posting two_accounts).1.db ≡ two_accounts.db)
post-refused_example = post-refused posting two_accounts

post-IsBalancedBook_example : IsBalancedBook (post posting two_accounts).1.db.ledger_entries
post-IsBalancedBook_example = post-IsBalancedBook posting two_accounts (λ c. refl)
