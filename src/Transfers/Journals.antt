-- ===== src/Transfers/Journals.antt =====
-- What the journals of an external payout write, line by line: the hold of amount and fee in
-- initiate-external-transfer.handler.ts, and the settlement and the reversal in it and in
-- confirm-external-transfer.handler.ts (modules/transfers/application/commands).
use kudi_ai.Common.{
  ◌≡◌, refl, ap, ◌∙◌, arith, String, some, List, [], ◌∷◌, ◌++◌, map, inl, inr, ◌⊎◌, eq_iff,
  Bool-cases, if◌then◌else◌,
}
use kudi_ai.Common.Int.{ℤ, ◌+ℤ◌}
use kudi_ai.Shared.Enums.{Currency, eq_of_same_currency}
use kudi_ai.Shared.Errors.{ok, Result-cases}
use kudi_ai.Shared.Money.{Money, add, is_zero}
use kudi_ai.Shared.Money.Laws.{add-eq_ok}
use kudi_ai.Database.{World, Direction, debit, credit, LedgerEntry, AccountRecord}
use kudi_ai.Database.Tables.{find, find-fits}
use kudi_ai.Ledger.{
  PostingLeg, Posting, external_payout_clearing, external_payout_settled, fee_revenue, post,
}
use kudi_ai.Ledger.Journal.{AreRowsOf, post-eq_ok, post-refused}
use kudi_ai.Accounts.Account.{Account}
use kudi_ai.Accounts.Mapper.{to_persistence}
use kudi_ai.Accounts.Repository.{has_id}
use kudi_ai.Transfers.External.{settlement_legs, reversal_legs}
use kudi_ai.Transfers.InitiateExternal.{hold_legs}

-- What an entry says: the account, the side, and how much.
pub record Line : Type 0 where
  pub account : String
  pub direction : Direction
  pub amount : ℤ
  pub currency : Currency

abbrev pub line_of : LedgerEntry → Line
line_of e = record {
  account = e.account_id;
  direction = e.direction;
  amount = e.amount_minor_units;
  currency = e.currency;
}

abbrev pub line : (account : String) → Direction → (amount : ℤ) → Currency → Line
line account direction amount currency = record {
  account = account;
  direction = direction;
  amount = amount;
  currency = currency;
}

-- The customer pays amount m and fee f into the clearing account.
abbrev pub hold_lines : (source : String) (m f : Money) → List Line
hold_lines source m f =
    line source debit (m.minor_units +ℤ f.minor_units) m.currency
    ∷ line (external_payout_clearing m.currency) credit (m.minor_units +ℤ f.minor_units) m.currency
    ∷ []

-- The clearing account pays the amount to the settled payouts and the fee, where there is one, to
-- the revenue.
abbrev pub settlement_lines : (m f : Money) → List Line
settlement_lines m f =
    line (external_payout_clearing m.currency) debit (m.minor_units +ℤ f.minor_units) m.currency
    ∷ line (external_payout_settled m.currency) credit m.minor_units m.currency
    ∷ (if is_zero f then [] else line (fee_revenue m.currency) credit f.minor_units m.currency ∷ [])

-- The clearing account pays amount and fee back to the customer.
abbrev pub reversal_lines : (source : String) (m f : Money) → List Line
reversal_lines source m f =
    line (external_payout_clearing m.currency) debit (m.minor_units +ℤ f.minor_units) m.currency
    ∷ line source credit (m.minor_units +ℤ f.minor_units) m.currency
    ∷ []

-- The entries ys are xs and a journal of these lines.
abbrev pub Journaled : List Line → (xs ys : List LedgerEntry) → Type 0
Journaled ls xs ys = (es : List LedgerEntry) × (ys ≡ xs ++ es) × (map line_of es ≡ ls)

-- A journal of these lines or none is written, and it is written where P holds.
pub record Writes (ls : List Line) (P : Type 0) (xs ys : List LedgerEntry) : Type 0 where
  pub may : (ys ≡ xs) ⊎ Journaled ls xs ys
  pub must : P → Journaled ls xs ys

pub Writes-nothing :
    (ls : List Line) (P : Type 0) (xs ys : List LedgerEntry) → ys ≡ xs → ¬ P → Writes ls P xs ys
Writes-nothing ls P xs ys e n = record { may = inl e; must = λ p. absurd (n p) }

-- Between steps that leave the entries alone.
pub Writes-framed :
    (ls : List Line) (P Q : Type 0) (xs xs' ys ys' : List LedgerEntry)
    → xs' ≡ xs
    → ys' ≡ ys
    → (Q → P)
    → Writes ls P xs ys
    → Writes ls Q xs' ys'
Writes-framed ls P Q xs xs' ys ys' e f p h = record {
  may = rw (e, f) h.may;
  must = λ q. rw (e, f) (h.must (p q));
}

abbrev pub leg_line : PostingLeg → Line
leg_line l = line l.account_id l.direction l.amount.minor_units l.amount.currency

rows-lines :
    (p : Posting) (j : String) (ls : List PostingLeg) (es : List LedgerEntry)
    → AreRowsOf p j ls es
    → map line_of es ≡ map leg_line ls
rows-lines p j [] [] h = refl
rows-lines p j [] (e ∷ es) h = elim h [ ]
rows-lines p j (l ∷ ls) [] h = elim h [ ]
rows-lines p j (l ∷ ls) (e ∷ es) (r, h) =
    rw (r.account, r.direction, r.amount, r.currency, rows-lines p j ls es h) refl

-- The ledger takes the lines of a posting, or throws.
pub post-Writes :
    (p : Posting) (ls : List Line) (w : World)
    → map leg_line p.legs ≡ ls
    → Writes ls ((post p w).0 ≡ ok tt) w.db.ledger_entries (post p w).1.db.ledger_entries
post-Writes p ls w e = elim (Result-cases (post p w).0) [
  | inr (x, f) ↦
      let same = (post-refused p w).1 (ground arith) in
      Writes-nothing ls ((post p w).0 ≡ ok tt) w.db.ledger_entries (post p w).1.db.ledger_entries
        (ap (λ b. b.ledger_entries) same) (ground arith)
  | inl (_, f) ↦
      let (j, es, posted) = post-eq_ok p w {w' = (post p w).1} (ground arith) in
      let written : Journaled ls w.db.ledger_entries (post p w).1.db.ledger_entries =
        (es, ap (λ b. b.ledger_entries) posted.written, rows-lines p j p.legs es posted.rows ∙ e) in
      record { may = inr written; must = λ g. written }
]

module _ (m f total : Money) (h : add m f ≡ ok total) where
  pub hold_legs-lines :
      (a : Account) (id : String) → a.id ≡ id → map leg_line (hold_legs total a) ≡ hold_lines id m f
  hold_legs-lines a id e = let (_, c, s) = add-eq_ok m f total h in rw (e, c, s) refl

  pub reversal_legs-lines :
      (a : Account) (id : String)
      → a.id ≡ id
      → map leg_line (reversal_legs total a) ≡ reversal_lines id m f
  reversal_legs-lines a id e = let (_, c, s) = add-eq_ok m f total h in rw (e, c, s) refl

  pub settlement_legs-lines : map leg_line (settlement_legs total m f) ≡ settlement_lines m f
  settlement_legs-lines =
      let (same, c, s) = add-eq_ok m f total h in
      let equal = eq_of_same_currency m.currency f.currency same in
      elim (Bool-cases (is_zero f)) [
        | inl z ↦ rw (z, c, s) refl
        | inr z ↦ rw (z, c, s, ← equal) refl
      ]

-- The account of the row with an id has the id.
pub find-account_id :
    (id : String) (rows : List AccountRecord) (a : Account)
    → find (has_id id) rows ≡ some (to_persistence a)
    → a.id ≡ id
unfolding to_persistence
find-account_id id rows a f = (eq_iff _ _).0 (find-fits (has_id id) rows f)
