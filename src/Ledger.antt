-- ===== src/Ledger.antt =====
-- shared/ledger: the double-entry journal. A posting is refused unless it balances in each
-- currency; a leg with no given balance gets one from the account's last entry.
pub mod Balance
pub mod Journal
mod Tests
use kudi_ai.Common.{
  String, ℕ, Bool, true, false, not, ◌&&◌, Option, none, some, List, [], ◌∷◌, ◌++◌, ◌==◌,
  if◌then◌else◌,
}
use Prim.Native.String
use kudi_ai.Common.Int.{ℤ, pos, ◌+ℤ◌, ◌-ℤ◌, eqb_ℤ}
use kudi_ai.Shared.Enums.{Currency, same_currency, currency_name}
use kudi_ai.Shared.Errors.{unbalanced_ledger_posting}
use kudi_ai.Shared.Action.{Action, pure, gets, modify, throw_if, ◌>>=◌, ◌>>◌}
use kudi_ai.Shared.Money.{Money}
use kudi_ai.Database.{
  World, Direction, debit, credit, LedgerEntry, LedgerEntryType, query, random_text,
  set_ledger_entries,
}
use kudi_ai.Database.Tables.{find_last}

-- ledger-recorder.interface.ts
pub record PostingLeg : Type 0 where
  pub account_id : String
  pub direction : Direction
  pub amount : Money
  pub balance_after : Option Money

pub record Posting : Type 0 where
  pub reference : String
  pub narration : String
  pub user_id : String
  pub entry_type : LedgerEntryType
  pub legs : List PostingLeg

-- system-ledger-account.ts
abbrev pub fee_revenue : Currency → String
fee_revenue c = String.◌++◌ "system:fee-revenue:" (currency_name c)

abbrev pub external_payout_clearing : Currency → String
external_payout_clearing c = String.◌++◌ "system:external-payout-clearing:" (currency_name c)

abbrev pub external_payout_settled : Currency → String
external_payout_settled c = String.◌++◌ "system:external-payout-settled:" (currency_name c)

-- `Map<string, bigint>` in insertion order
abbrev pub NetMap : Type 0
NetMap = List (Currency × ℤ)

-- `m.set(currency, (m.get(currency) ?? 0n) + amount)`
unfoldable pub add_net : Currency → ℤ → NetMap → NetMap
add_net c x [] = (c, pos 0 +ℤ x) ∷ []
add_net c x ((d, y) ∷ m) = if same_currency d c then (d, y +ℤ x) ∷ m else (d, y) ∷ add_net c x m

abbrev pub signed_debit : Direction → ℤ → ℤ
signed_debit debit a = a
signed_debit credit a = pos 0 -ℤ a

-- The first loop of `assertBalanced`.
unfoldable pub net_by_currency : NetMap → List PostingLeg → NetMap
unfolding add_net
net_by_currency m [] = m
net_by_currency m (l ∷ ls) =
    net_by_currency (add_net l.amount.currency (signed_debit l.direction l.amount.minor_units) m) ls

-- Its second loop throws at the first value that is not zero.
unfoldable pub all_zero : NetMap → Bool
all_zero [] = true
all_zero ((c, x) ∷ m) = eqb_ℤ x (pos 0) && all_zero m

unfoldable pub assert_balanced : Posting → Action World (Unit {0})
unfolding all_zero net_by_currency
assert_balanced p =
    throw_if (not (all_zero (net_by_currency [] p.legs))) (unbalanced_ledger_posting p.reference)

abbrev pub signed_credit : Direction → ℤ → ℤ
signed_credit credit a = a
signed_credit debit a = pos 0 -ℤ a

abbrev pub balance_of : Option LedgerEntry → ℤ
balance_of none = pos 0
balance_of (some e) = e.balance_after_minor_units

-- `findFirst({ where: { accountId }, orderBy: { createdAt: 'desc' } })`
abbrev pub last_entry : String → List LedgerEntry → Option LedgerEntry
last_entry account_id = find_last (λ e. e.account_id == account_id)

unfoldable pub compute_running_balance : PostingLeg → Action World ℤ
unfolding query
compute_running_balance leg = do
  query
  previous ← gets (λ w. last_entry leg.account_id w.db.ledger_entries)
  pure (balance_of previous +ℤ signed_credit leg.direction leg.amount.minor_units)

abbrev pub balance_for : PostingLeg → Option Money → Action World ℤ
balance_for leg (some m) = pure m.minor_units
balance_for leg none = compute_running_balance leg

-- The row of a leg.
unfoldable pub make_row :
    Posting → (journal_id : String) (occurred_at : ℕ) → PostingLeg → Action World LedgerEntry
unfolding compute_running_balance random_text
make_row p journal_id occurred_at leg = do
  balance ← balance_for leg leg.balance_after
  source_event_id ← random_text
  pure (record {
    journal_id = journal_id;
    account_id = leg.account_id;
    user_id = p.user_id;
    direction = leg.direction;
    amount_minor_units = leg.amount.minor_units;
    balance_after_minor_units = balance;
    currency = leg.amount.currency;
    entry_type = p.entry_type;
    reference = p.reference;
    source_event_id = source_event_id;
    occurred_at = occurred_at;
  })

-- The loop over the legs.
unfoldable pub make_rows :
    Posting
    → (journal_id : String) (occurred_at : ℕ) → List PostingLeg
    → Action World (List LedgerEntry)
make_rows p journal_id occurred_at [] = pure []
make_rows p journal_id occurred_at (leg ∷ legs) =
    let rest = make_rows p journal_id occurred_at legs in
    do row ← make_row p journal_id occurred_at leg; rows ← rest; pure (row ∷ rows)

-- `createMany`. `sourceEventId` is unique; each row has a `randomUUID()` of its own there, and no
-- refusal of a repeated one is modelled.
unfoldable pub create_many : List LedgerEntry → Action World (Unit {0})
unfolding query
create_many rows = do query; modify (λ w. set_ledger_entries (w.db.ledger_entries ++ rows) w)

-- `post`
unfoldable pub post : Posting → Action World (Unit {0})
post p = do
  assert_balanced p
  journal_id ← random_text
  now ← gets (λ w. w.now)
  rows ← make_rows p journal_id now p.legs
  create_many rows
