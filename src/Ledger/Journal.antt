-- ===== src/Ledger/Journal.antt =====
-- What `post` writes: a journal of one row for each leg, all of it or nothing.
use kudi_ai.Common.{
  ◌≡◌, ◌≢◌, refl, sym, ◌∙◌, ◌+◌, arith, String, ℕ, true, List, [], ◌∷◌, ◌++◌, inl, inr, Bool-cases,
}
use kudi_ai.Common.Int.{◌+ℤ◌, int_laws}
use kudi_ai.Shared.Enums.{Currency}
use kudi_ai.Shared.Errors.{Result-cases, ok, err, unbalanced_ledger_posting}
use kudi_ai.Shared.Action.{>>=-of_ok}
use kudi_ai.Database.{World, LedgerEntry, query-frame, random_text}
use kudi_ai.Ledger.{
  PostingLeg, Posting, net_by_currency, all_zero, make_row, make_rows, create_many, post,
  assert_balanced,
}
use kudi_ai.Ledger.Balance.{
  net, net_entries, IsBalanced, IsBalancedBook, all_zero-net_by_currency_iff,
}

-- The row of a leg in the journal j.
pub record IsRowOf (p : Posting) (j : String) (l : PostingLeg) (e : LedgerEntry) : Type 0 where
  pub journal : e.journal_id ≡ j
  pub account : e.account_id ≡ l.account_id
  pub direction : e.direction ≡ l.direction
  pub amount : e.amount_minor_units ≡ l.amount.minor_units
  pub currency : e.currency ≡ l.amount.currency
  pub reference : e.reference ≡ p.reference
  pub user : e.user_id ≡ p.user_id

abbrev pub AreRowsOf : Posting → String → List PostingLeg → List LedgerEntry → Type 0
AreRowsOf p j [] [] = Unit
AreRowsOf p j [] (e ∷ es) = ⊥
AreRowsOf p j (l ∷ ls) [] = ⊥
AreRowsOf p j (l ∷ ls) (e ∷ es) = IsRowOf p j l e × AreRowsOf p j ls es

-- The parts of the world that no step before the final write changes.
abbrev Same : World → World → Type 0
Same w w' = (w'.db ≡ w.db) × (w'.published ≡ w.published) × (w'.now ≡ w.now)

make_row-Same :
    (p : Posting) (j : String) (t : ℕ) (l : PostingLeg) (w : World) → Same w (make_row p j t l w).1
unfolding make_row
make_row-Same p j t l w = ground (arith, query-frame w)

make_row-eq_ok :
    (p : Posting) (j : String) (t : ℕ) (l : PostingLeg) (w : World) (e : LedgerEntry) {w' : World}
    → make_row p j t l w ≡ (ok e, w')
    → IsRowOf p j l e
unfolding make_row
make_row-eq_ok p j t l w e h = ground arith

make_rows-Same :
    (p : Posting) (j : String) (t : ℕ) (ls : List PostingLeg) (w : World)
    → Same w (make_rows p j t ls w).1
unfolding make_rows
make_rows-Same p j t [] w = (refl, refl, refl)
make_rows-Same p j t (l ∷ ls) w =
    ground (arith, make_row-Same p j t l w, make_rows-Same p j t ls (make_row p j t l w).1)

make_rows-eq_ok :
    (p : Posting) (j : String) (t : ℕ) (ls : List PostingLeg) (w : World) (es : List LedgerEntry)
    {w' : World}
    → make_rows p j t ls w ≡ (ok es, w')
    → AreRowsOf p j ls es
unfolding make_rows
make_rows-eq_ok p j t [] w [] h = tt
make_rows-eq_ok p j t [] w (e ∷ es) h = cc
make_rows-eq_ok p j t (l ∷ ls) w [] h = absurd (ground arith)
make_rows-eq_ok p j t (l ∷ ls) w (e ∷ es) h =
    let w₁ = (make_row p j t l w).1 in
    (
      make_row-eq_ok p j t l w e {w' = w₁} (ground arith),
      make_rows-eq_ok p j t ls w₁ es {w' = (make_rows p j t ls w₁).1} (ground arith),
    )

net-eq_entries :
    (p : Posting) (j : String) (c : Currency) (ls : List PostingLeg) (es : List LedgerEntry)
    → AreRowsOf p j ls es
    → net_entries c es ≡ net c ls
net-eq_entries p j c [] [] h = refl
net-eq_entries p j c [] (e ∷ es) h = elim h [ ]
net-eq_entries p j c (l ∷ ls) [] h = elim h [ ]
net-eq_entries p j c (l ∷ ls) (e ∷ es) (r, h) =
    rw (r.currency, r.direction, r.amount, net-eq_entries p j c ls es h) refl

net_entries-append :
    (c : Currency) (xs ys : List LedgerEntry)
    → net_entries c (xs ++ ys) ≡ net_entries c xs +ℤ net_entries c ys
net_entries-append c [] ys = omega int_laws
net_entries-append c (x ∷ xs) ys = rw (net_entries-append c xs ys) (omega int_laws)

-- A posting that goes through balances, and appends one row for each leg in a new journal.
pub record IsPosted (p : Posting) (w w' : World) (j : String) (es : List LedgerEntry) : Type 0 where
  pub balanced : IsBalanced p.legs
  pub rows : AreRowsOf p j p.legs es
  pub written : w'.db ≡ record w.db { ledger_entries = w.db.ledger_entries ++ es }
  pub published : w'.published ≡ w.published
  pub now : w'.now ≡ w.now

create_many-eq_ok :
    (es : List LedgerEntry) (w : World) {w' : World}
    → create_many es w ≡ (ok tt, w')
    → (w'.db ≡ record w.db { ledger_entries = w.db.ledger_entries ++ es })
      × (w'.published ≡ w.published)
      × (w'.now ≡ w.now)
unfolding create_many
create_many-eq_ok es w h = ground (arith, query-frame w)

create_many-refused :
    (es : List LedgerEntry) (w : World)
    → (create_many es w).0 ≢ ok tt
    → (create_many es w).1.db ≡ w.db
unfolding create_many
create_many-refused es w h = ground (arith, query-frame w)

create_many-published :
    (es : List LedgerEntry) (w : World)
    → ((create_many es w).1.published ≡ w.published) × ((create_many es w).1.now ≡ w.now)
unfolding create_many
create_many-published es w = ground (arith, query-frame w)

-- The world in which the rows of a posting are made, and the id of its journal.
abbrev started : World → World
started w = record w { drawn = w.drawn + 1 }

abbrev journal_of : World → String
journal_of w = w.random w.drawn

post-balanced :
    (p : Posting) (w : World) {w' : World}
    → post p w ≡ (ok tt, w')
    → all_zero (net_by_currency [] p.legs) ≡ true
unfolding post assert_balanced
post-balanced p w h = ground arith

post_of_rows :
    (p : Posting) (w w' : World) (es : List LedgerEntry)
    → make_rows p (journal_of w) w.now p.legs (started w) ≡ (ok es, w')
    → all_zero (net_by_currency [] p.legs) ≡ true
    → post p w ≡ create_many es w'
unfolding post assert_balanced random_text
post_of_rows p w w' es h b =
    rw b (>>=-of_ok (make_rows p (journal_of w) w.now p.legs) create_many (started w) h)

pub post-eq_ok :
    (p : Posting) (w : World) {w' : World}
    → post p w ≡ (ok tt, w')
    → (j : String) × (es : List LedgerEntry) × IsPosted p w w' j es
unfolding post assert_balanced random_text
post-eq_ok p w {w'} h =
    let rows = make_rows p (journal_of w) w.now p.legs (started w) in
    let balanced = post-balanced p w h in
    elim (Result-cases rows.0) [
      | inl (es, e) ↦
          let run : rows ≡ (ok es, rows.1) = ground arith in
          let done =
            create_many-eq_ok es rows.1 {w' = w'}
              (sym (post_of_rows p w rows.1 es run balanced) ∙ h) in
          let same = make_rows-Same p (journal_of w) w.now p.legs (started w) in
          (
            journal_of w,
            es,
            record {
              balanced = (all_zero-net_by_currency_iff p.legs).0 balanced;
              rows = make_rows-eq_ok p (journal_of w) w.now p.legs (started w) es run;
              written = ground arith;
              published = ground arith;
              now = ground arith;
            },
          )
      | inr (e, f) ↦ absurd (ground arith)
    ]

-- An unbalanced posting throws, and a posting that throws leaves the database alone.
pub post-refused :
    (p : Posting) (w : World)
    → (¬ IsBalanced p.legs → post p w ≡ (err (unbalanced_ledger_posting p.reference), w))
      × ((post p w).0 ≢ ok tt → (post p w).1.db ≡ w.db)
unfolding post assert_balanced random_text
post-refused p w =
    let rows = make_rows p (journal_of w) w.now p.legs (started w) in
    (
      λ u. elim (Bool-cases (all_zero (net_by_currency [] p.legs))) [
        | inl balanced ↦ absurd (u ((all_zero-net_by_currency_iff p.legs).0 balanced))
        | inr unbalanced ↦ rw unbalanced refl
      ],
      λ n. elim (Result-cases rows.0) [
        | inl (es, e) ↦ ground (
          arith,
          make_rows-Same p (journal_of w) w.now p.legs (started w),
          create_many-refused es rows.1,
        )
        | inr (e, f) ↦ ground (arith, make_rows-Same p (journal_of w) w.now p.legs (started w))
      ],
    )

-- Whatever a posting holds and whatever calls of the client fail, debits equal credits in every
-- currency of the book after it, if they did before.
pub post-IsBalancedBook :
    (p : Posting) (w : World)
    → IsBalancedBook w.db.ledger_entries
    → IsBalancedBook (post p w).1.db.ledger_entries
post-IsBalancedBook p w b = elim (Result-cases (post p w).0) [
  | inl (_, e) ↦ λ c.
      let (j, es, posted) = post-eq_ok p w {w' = (post p w).1} (ground arith) in
      rw
        (
          posted.written,
          net_entries-append c w.db.ledger_entries es,
          b c,
          net-eq_entries p j c p.legs es posted.rows,
          posted.balanced c,
        )
        (omega int_laws)
  | inr (x, e) ↦ rw ((post-refused p w).1 (ground arith)) b
]
