-- ===== src/Accounts/Commands/Effects.antt =====
-- The credit and the debit of an account by their handlers, in the tables and on the event bus.
use kudi_ai.Common.{
  ◌≡◌, ◌≢◌, refl, sym, ap, ◌∙◌, arith, String, ℕ, ◌+◌, some, List, [], ◌∷◌, ◌++◌, inl, inr, eq_iff,
}
use kudi_ai.Common.Int.{ℤ, ◌≤ℤ◌, ◌+ℤ◌, ◌-ℤ◌}
use kudi_ai.Shared.Enums.{Currency}
use kudi_ai.Shared.Errors.{Error, ok, err, Result-cases}
use kudi_ai.Shared.Action.{Action}
use kudi_ai.Shared.Events.{DomainEvent, account_debited, account_credited}
use kudi_ai.Shared.Money.{Money, from_decimal_string}
use kudi_ai.Database.{AccountRecord, World}
use kudi_ai.Database.Tables.{find, find-fits}
use kudi_ai.Accounts.Account.{Account, debit, credit}
use kudi_ai.Accounts.Account.Laws.{debited, credited, debit-eq_ok, credit-eq_ok}
use kudi_ai.Accounts.Mapper.{to_persistence}
use kudi_ai.Accounts.Repository.{has_id}
use kudi_ai.Accounts.Repository.Rows.{updated, to_persistence-debited, to_persistence-credited}
use kudi_ai.Accounts.Repository.Concurrency.{
  rows_after, save-eq_ok, find-rows_after, find-rows_after_ne,
}
use kudi_ai.Accounts.MaxBalance.Frame.{assert_within_limit-Same}
use kudi_ai.Accounts.Commands.{debit_change, credit_change, debit_account, credit_account}
use kudi_ai.Accounts.Commands.Laws.{
  Same, IsHandled, IsReader, with_account-IsHandled, with_account-eq_err,
}

-- The row of an account has a new balance at its next version, the events are published, and
-- nothing else of the database has changed.
pub record IsChanged (id : String) (now : ℕ) (old : AccountRecord) (balance : ℤ)
    (events : List DomainEvent) (w w' : World) : Type 0 where
  pub before : find (has_id id) w.db.accounts ≡ some old
  pub after : find (has_id id) w'.db.accounts ≡ some (updated now balance old)
  pub others :
      (i : String) → i ≢ id → find (has_id i) w'.db.accounts ≡ find (has_id i) w.db.accounts
  pub published : w'.published ≡ w.published ++ events
  pub entries : w'.db.ledger_entries ≡ w.db.ledger_entries
  pub transfers : w'.db.transfers ≡ w.db.transfers

version-to_persistence : (a : Account) → (to_persistence a).version ≡ a.version
unfolding to_persistence
version-to_persistence a = refl

IsHandled-IsChanged :
    (id : String) (change : Account → Action World Account) (w w' : World) (c : Account) (now : ℕ)
    (x : ℤ) (h : IsHandled id change w w' c)
    → Same h.before h.after
    → to_persistence h.changed ≡ updated now x (to_persistence h.loaded)
    → IsChanged id now (to_persistence h.loaded) x h.changed.domain_events w w'
IsHandled-IsChanged id change w w' c now x h (db, pubs, _) e =
    let old = to_persistence h.loaded in
    let same_id : old.id ≡ id = (eq_iff _ _).0 (find-fits (has_id id) w.db.accounts h.row) in
    let v : h.changed.version ≡ old.version + 1 =
      sym (version-to_persistence h.changed) ∙ ap (λ r. r.version) e in
    let (written, _, kept, _) =
      save-eq_ok h.changed h.after {w' = h.saved} (rw v (omega arith)) h.saves in
    let all = h.db ∙ written in
    let start : h.after.db ≡ w.db = db ∙ h.same.0 in
    let rows : w'.db.accounts ≡ rows_after (updated now x old) w.db.accounts =
      ap (λ b. b.accounts) all
      ∙ ap (λ r. rows_after r h.after.db.accounts) e
      ∙ ap (λ b. rows_after (updated now x old) b.accounts) start in
    record {
      before = h.row;
      after =
          ap (find (has_id id)) rows
          ∙ ap (λ i. find (has_id i) (rows_after (updated now x old) w.db.accounts)) (sym same_id)
          ∙ find-rows_after (updated now x old) old w.db.accounts
              (ap (λ i. find (has_id i) w.db.accounts) same_id ∙ h.row) refl;
      others = λ i n.
          ap (find (has_id i)) rows
          ∙ find-rows_after_ne (updated now x old) i w.db.accounts (λ k. n (sym k ∙ same_id));
      published = h.published ∙ ap (λ es. es ++ h.changed.domain_events) (kept ∙ pubs ∙ h.same.1);
      entries = ap (λ b. b.ledger_entries) all ∙ ap (λ b. b.ledger_entries) start;
      transfers = ap (λ b. b.transfers) all ∙ ap (λ b. b.transfers) start;
    }

debit_change-eq_ok :
    (amount : List ℕ) (c : Currency) (r : String) (a b : Account) (w : World) {w' : World}
    → debit_change amount c r a w ≡ (ok b, w')
    → (m : Money) × (from_decimal_string amount c ≡ ok m) × (debit w.now m r a ≡ ok b) × Same w w'
debit_change-eq_ok amount c r a b w h = elim (Result-cases (from_decimal_string amount c)) [
  | inr (x, f) ↦ absurd (ground arith)
  | inl (m, f) ↦ (m, f, ground arith, ground arith)
]

credit_change-eq_ok :
    (amount : List ℕ) (c : Currency) (r : String) (a b : Account) (w : World) {w' : World}
    → credit_change amount c r a w ≡ (ok b, w')
    → (m : Money) × (from_decimal_string amount c ≡ ok m) × (credit w.now m r a ≡ ok b) × Same w w'
credit_change-eq_ok amount c r a b w h = elim (Result-cases (from_decimal_string amount c)) [
  | inr (x, f) ↦ absurd (ground arith)
  | inl (m, f) ↦ let same = assert_within_limit-Same a m w in (m, f, ground arith, ground arith)
]

debit_change-IsReader :
    (amount : List ℕ) (c : Currency) (r : String) → IsReader (debit_change amount c r)
debit_change-IsReader amount c r a w = elim (Result-cases (from_decimal_string amount c)) [
  | inr (x, f) ↦ ground arith
  | inl (m, f) ↦ ground arith
]

credit_change-IsReader :
    (amount : List ℕ) (c : Currency) (r : String) → IsReader (credit_change amount c r)
credit_change-IsReader amount c r a w = elim (Result-cases (from_decimal_string amount c)) [
  | inr (x, f) ↦ ground arith
  | inl (m, f) ↦ let same = assert_within_limit-Same a m w in ground arith
]

-- Any failures of the client allowed: if the handler of the debit returns, the amount that the
-- text stands for was in the account's currency and no more than the balance; the row has the
-- balance less the amount at its next version, one AccountDebited event is published, and nothing
-- else of accounts, ledger and transfers has changed.
pub debit_account-IsChanged :
    (id : String) (amount : List ℕ) (c : Currency) (r : String) (w : World) (a : Account)
    {w' : World}
    → debit_account id amount c r w ≡ (ok a, w')
    → (old : AccountRecord) × (m : Money) × (from_decimal_string amount c ≡ ok m)
      × (m.currency ≡ old.currency)
      × (m.minor_units ≤ℤ old.balance)
      × IsChanged id w.now old
          (old.balance -ℤ m.minor_units)
          (account_debited old.id m.minor_units m.currency r (old.balance -ℤ m.minor_units) ∷ [])
          w
          w'
unfolding debit_account to_persistence
debit_account-IsChanged id amount c r w a {w'} h =
    let k = with_account-IsHandled id (debit_change amount c r) w a {w' = w'} h in
    let (m, f, g, same) =
      debit_change-eq_ok amount c r k.loaded k.changed k.before {w' = k.after} k.did in
    let (_, _, now) = k.same in
    let (_, cur, le, e) = debit-eq_ok k.before.now m r k.loaded k.changed g in
    let e' : k.changed ≡ debited w.now m r k.loaded = e ∙ ap (λ t. debited t m r k.loaded) now in
    let ch =
      IsHandled-IsChanged id (debit_change amount c r) w w' a w.now
        (k.loaded.balance.minor_units -ℤ m.minor_units) k same
        (ap to_persistence e' ∙ to_persistence-debited w.now m r k.loaded) in
    let balance = k.loaded.balance.minor_units -ℤ m.minor_units in
    let event = account_debited k.loaded.id m.minor_units m.currency r balance in
    let events : k.changed.domain_events ≡ event ∷ [] =
      ap (λ b. b.domain_events) e' ∙ ap (λ es. es ++ event ∷ []) k.no_events in
    (to_persistence k.loaded, m, f, cur, le, rw (← events) ch)

-- Any failures of the client allowed: if the handler of the credit returns, the amount that the
-- text stands for was in the account's currency; the row has the balance and the amount at its
-- next version, one AccountCredited event is published, and nothing else of accounts, ledger and
-- transfers has changed.
pub credit_account-IsChanged :
    (id : String) (amount : List ℕ) (c : Currency) (r : String) (w : World) (a : Account)
    {w' : World}
    → credit_account id amount c r w ≡ (ok a, w')
    → (old : AccountRecord) × (m : Money) × (from_decimal_string amount c ≡ ok m)
      × (m.currency ≡ old.currency)
      × IsChanged id w.now old
          (old.balance +ℤ m.minor_units)
          (account_credited old.id m.minor_units m.currency r (old.balance +ℤ m.minor_units) ∷ [])
          w
          w'
unfolding credit_account to_persistence
credit_account-IsChanged id amount c r w a {w'} h =
    let k = with_account-IsHandled id (credit_change amount c r) w a {w' = w'} h in
    let (m, f, g, same) =
      credit_change-eq_ok amount c r k.loaded k.changed k.before {w' = k.after} k.did in
    let (_, _, now) = k.same in
    let (_, cur, e) = credit-eq_ok k.before.now m r k.loaded k.changed g in
    let e' : k.changed ≡ credited w.now m r k.loaded = e ∙ ap (λ t. credited t m r k.loaded) now in
    let ch =
      IsHandled-IsChanged id (credit_change amount c r) w w' a w.now
        (k.loaded.balance.minor_units +ℤ m.minor_units) k same
        (ap to_persistence e' ∙ to_persistence-credited w.now m r k.loaded) in
    let balance = k.loaded.balance.minor_units +ℤ m.minor_units in
    let event = account_credited k.loaded.id m.minor_units m.currency r balance in
    let events : k.changed.domain_events ≡ event ∷ [] =
      ap (λ b. b.domain_events) e' ∙ ap (λ es. es ++ event ∷ []) k.no_events in
    (to_persistence k.loaded, m, f, cur, rw (← events) ch)

-- Any failures of the client allowed: a credit or a debit that throws leaves the database alone
-- and publishes nothing.
pub account_commands-refused :
    (id : String) (amount : List ℕ) (c : Currency) (r : String) (w : World) (e : Error)
    → ((debit_account id amount c r w).0 ≡ err e
        → ((debit_account id amount c r w).1.db ≡ w.db)
          × ((debit_account id amount c r w).1.published ≡ w.published))
      × ((credit_account id amount c r w).0 ≡ err e
          → ((credit_account id amount c r w).1.db ≡ w.db)
            × ((credit_account id amount c r w).1.published ≡ w.published))
unfolding debit_account credit_account
account_commands-refused id amount c r w e = (
  λ h.
      with_account-eq_err id (debit_change amount c r) w e (debit_change-IsReader amount c r)
        (ap (λ x. (x, (debit_account id amount c r w).1)) h),
  λ h.
      with_account-eq_err id (credit_change amount c r) w e (credit_change-IsReader amount c r)
        (ap (λ x. (x, (credit_account id amount c r w).1)) h),
)
