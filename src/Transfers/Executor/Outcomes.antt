-- ===== src/Transfers/Executor/Outcomes.antt =====
-- How `execute` ends: with the transaction and a row of the transfer, or without any trace of the
-- transaction in accounts and ledger.
use kudi_ai.Common.{◌≡◌, ◌≢◌, refl, sym, ap, ◌∙◌, arith, ℕ, ◌+◌, List, [], ◌∷◌, ◌++◌, inl, inr}
use kudi_ai.Shared.Errors.{Error, Result, ok, err, message, Result-cases}
use kudi_ai.Shared.Action.{Action}
use kudi_ai.Shared.Events.{DomainEvent}
use kudi_ai.Shared.Enums.{successful}
use kudi_ai.Database.{World, TransferRecord, query, query-frame, random_text}
use kudi_ai.Transfers.Transfer.{
  Transfer, InternalParams, initiate_internal, mark_successful, mark_failed, pull_domain_events,
}
use kudi_ai.Transfers.Mapper as TransferMapper
use kudi_ai.Transfers.Repository as Transfers
use kudi_ai.Transfers.Repository.{save-OnlyTransfers, OnlyTransfers, create-OnlyTransfers}
use kudi_ai.Transfers.Held.{Held, on_world}
use kudi_ai.Transfers.Executor.{settle, body, transaction, record_failure, attempt, finish, execute}
use kudi_ai.Transfers.Executor.Books.{IsTransferred, IsTransferred-of_tables, settle-IsTransferred}

create-eq_ok :
    (row : TransferRecord) (w : World) {w' : World}
    → Transfers.create row w ≡ (ok tt, w')
    → w'.db ≡ record w.db { transfers = w.db.transfers ++ row ∷ [] }
unfolding Transfers.create
create-eq_ok row w h = ground (arith, query-frame w)

body-eq_ok :
    (now : ℕ) (p : InternalParams) (s : Held) (es : List DomainEvent) {s' : Held}
    → body now p s ≡ (ok es, s')
    → (w : World) × (settle now s.transfer.reference p s.world ≡ (ok es, w))
      × (mark_successful now s.transfer ≡ ok s'.transfer)
      × (Transfers.create (TransferMapper.to_persistence s'.transfer) w ≡ (ok tt, s'.world))
unfolding body
body-eq_ok now p s es {s'} h = elim (Result-cases (settle now s.transfer.reference p s.world).0) [
  | inr (x, e) ↦ absurd (ground arith)
  | inl (fs, e) ↦ elim (Result-cases (mark_successful now s.transfer)) [
    | inr (x, f) ↦ absurd (ground arith)
    | inl (t, f) ↦
        ((settle now s.transfer.reference p s.world).1, ground arith, ground arith, ground arith)
  ]
]

transaction-eq_ok :
    {A : Type 0} (m : Action Held A) (s : Held) (a : A) {s' : Held}
    → transaction m s ≡ (ok a, s')
    → (s₁ s₂ : Held) × (m s₁ ≡ (ok a, s₂))
      × (s₁.world.db ≡ s.world.db)
      × (s₁.transfer ≡ s.transfer)
      × (s'.world.db ≡ s₂.world.db)
      × (s'.transfer ≡ s₂.transfer)
unfolding transaction
transaction-eq_ok m s a {s'} h =
    let s₁ = (on_world query s).1 in
    (
      s₁,
      (m s₁).1,
      ground (arith, query-frame s.world),
      ground (arith, query-frame s.world),
      refl,
      ground (arith, query-frame (m s₁).1.world),
      ground (arith, query-frame (m s₁).1.world),
    )

-- A transaction that ends in an error leaves the database as it was.
transaction-eq_err :
    {A : Type 0} (m : Action Held A) (s : Held) (e : Error) {s' : Held}
    → transaction m s ≡ (err e, s')
    → s'.world.db ≡ s.world.db
unfolding transaction
transaction-eq_err m s e h = ground (arith, query-frame s.world)

-- The catch block never returns, and writes to no account and no ledger entry.
record_failure_lem :
    (now : ℕ) (e : Error) (s : Held)
    → let (r, s') = record_failure {A = List DomainEvent} now e s in
      ((es : List DomainEvent) → r ≢ ok es)
      × (s'.world.db.accounts ≡ s.world.db.accounts)
      × (s'.world.db.ledger_entries ≡ s.world.db.ledger_entries)
unfolding record_failure
record_failure_lem now e s = elim (Result-cases (mark_failed now (message e) s.transfer)) [
  | inr (x, f) ↦ (λ es k. ground arith, ground arith, ground arith)
  | inl (t, f) ↦
      let only = save-OnlyTransfers t s.world in
      (λ es k. ground arith, ground (arith, only.accounts), ground (arith, only.entries))
]

attempt-eq_ok :
    (now : ℕ) (p : InternalParams) (s : Held) (es : List DomainEvent) {s' : Held}
    → attempt now p s ≡ (ok es, s')
    → transaction (body now p) s ≡ (ok es, s')
unfolding attempt
attempt-eq_ok now p s es {s'} h =
    let s₁ = (transaction (body now p) s).1 in
    elim (Result-cases (transaction (body now p) s).0) [
      | inl (fs, e) ↦ ground arith
      | inr (x, e) ↦ absurd ((record_failure_lem now x s₁).0 es (ground arith))
    ]

attempt-eq_err :
    (now : ℕ) (p : InternalParams) (s : Held) (e : Error) {s' : Held}
    → attempt now p s ≡ (err e, s')
    → (s'.world.db.accounts ≡ s.world.db.accounts)
      × (s'.world.db.ledger_entries ≡ s.world.db.ledger_entries)
unfolding attempt
attempt-eq_err now p s e {s'} h =
    let s₁ = (transaction (body now p) s).1 in
    elim (Result-cases (transaction (body now p) s).0) [
      | inl (fs, k) ↦ absurd (ground arith)
      | inr (x, k) ↦
          let same : s₁.world.db ≡ s.world.db =
            transaction-eq_err (body now p) s x {s' = s₁} (ground arith) in
          let (_, a, l) = record_failure_lem now x s₁ in (ground arith, ground arith)
    ]

mark_successful-status :
    (now : ℕ) (t u : Transfer)
    → mark_successful now t ≡ ok u
    → (u.status ≡ successful) × (u.reference ≡ t.reference)
unfolding mark_successful
mark_successful-status now t u h = (ground arith, ground arith)

-- What `execute` holds when it enters the `try`.
abbrev started : InternalParams → World → Held
started p w = record {
  world = record w { drawn = w.drawn + 1 + 1 };
  transfer =
      initiate_internal
        (record { id = w.random w.drawn; reference = w.random (w.drawn + 1); now = w.now }) p;
}

execute-started :
    (p : InternalParams) (w : World) → execute p w ≡ finish (attempt w.now p (started p w))
unfolding execute random_text
execute-started p w = refl

finish-eq_ok :
    (r : Result (List DomainEvent)) (s : Held) (t : Transfer) (es : List DomainEvent) {w : World}
    → finish (r, s) ≡ (ok (t, es), w)
    → (fs : List DomainEvent) × (r ≡ ok fs) × (w ≡ s.world) × (t.props ≡ s.transfer.props)
unfolding pull_domain_events
finish-eq_ok (ok fs) s t es h = (fs, refl, ground arith, ground arith)
finish-eq_ok (err e) s t es h = cc

finish-eq_err :
    (r : Result (List DomainEvent)) (s : Held) (e : Error) {w : World}
    → finish (r, s) ≡ (err e, w)
    → (r ≡ err e) × (w ≡ s.world)
finish-eq_err (ok fs) s e h = cc
finish-eq_err (err x) s e h = (ground arith, ground arith)

to_persistence-props :
    (t u : Transfer)
    → t.props ≡ u.props
    → TransferMapper.to_persistence t ≡ TransferMapper.to_persistence u
unfolding TransferMapper.to_persistence
to_persistence-props t u e =
    ap (λ q. TransferMapper.to_persistence (record { props = q; domain_events = [] })) e

-- The world and the transfer after an attempt that went through.
abbrev IsDone : ℕ → InternalParams → Held → Held → Type 0
IsDone now p s s' =
    IsTransferred now s'.transfer.reference p s.world s'.world
    × (s'.transfer.status ≡ successful)
    × (s'.world.db.transfers
        ≡ s.world.db.transfers ++ TransferMapper.to_persistence s'.transfer ∷ [])

body-IsDone :
    (now : ℕ) (p : InternalParams) (s : Held) (es : List DomainEvent) {s' : Held}
    → body now p s ≡ (ok es, s')
    → IsDone now p s s'
body-IsDone now p s es {s'} h =
    let (w₁, k, m, c) = body-eq_ok now p s es h in
    let (done, kept) = settle-IsTransferred now s.transfer.reference p s.world es k in
    let (status, reference) = mark_successful-status now s.transfer s'.transfer m in
    let created = create-eq_ok (TransferMapper.to_persistence s'.transfer) w₁ c in
    (
      IsTransferred-of_tables now s'.transfer.reference p s.world s.world w₁ s'.world refl
          (ap (λ b. b.accounts) created) (ap (λ b. b.ledger_entries) created) (rw reference done),
      status,
      ap (λ b. b.transfers) created
          ∙ ap (λ ts. ts ++ TransferMapper.to_persistence s'.transfer ∷ []) kept,
    )

attempt-IsDone :
    (now : ℕ) (p : InternalParams) (s : Held) (es : List DomainEvent) {s' : Held}
    → attempt now p s ≡ (ok es, s')
    → IsDone now p s s'
attempt-IsDone now p s es {s'} h =
    let (s₁, s₂, b, db₁, _, db₂, t₂) =
      transaction-eq_ok (body now p) s es (attempt-eq_ok now p s es h) in
    let (done, status, row) = body-IsDone now p s₁ es b in
    (
      IsTransferred-of_tables now s'.transfer.reference p s.world s₁.world s₂.world s'.world db₁
          (ap (λ b. b.accounts) db₂) (ap (λ b. b.ledger_entries) db₂) (rw t₂ done),
      rw t₂ status,
      ap (λ b. b.transfers) db₂
          ∙ row
          ∙ ap (λ b. b.transfers ++ TransferMapper.to_persistence s₂.transfer ∷ []) db₁
          ∙ ap (λ t. s.world.db.transfers ++ TransferMapper.to_persistence t ∷ []) (sym t₂),
    )

-- Any failures of the client allowed: if `execute` returns, the transaction did all of its work
-- in accounts and ledger, and the row of the returned transfer, which is SUCCESSFUL, is one more
-- in the table of transfers.
pub execute-eq_ok :
    (p : InternalParams) (w w' : World) (t : Transfer) (es : List DomainEvent)
    → execute p w ≡ (ok (t, es), w')
    → IsTransferred w.now t.reference p w w'
      × (t.status ≡ successful)
      × (w'.db.transfers ≡ w.db.transfers ++ TransferMapper.to_persistence t ∷ [])
execute-eq_ok p w w' t es h =
    let s = started p w in
    let (r, s') = attempt w.now p s in
    let (fs, e, same, props) = finish-eq_ok r s' t es (sym (execute-started p w) ∙ h) in
    let (done, status, row) = attempt-IsDone w.now p s fs {s' = s'} (ap (λ x. (x, s')) e) in
    let same_reference : t.reference ≡ s'.transfer.reference = ap (λ q. q.reference) props in
    (
      IsTransferred-of_tables w.now t.reference p w s.world s'.world w' refl
          (ap (λ v. v.db.accounts) same) (ap (λ v. v.db.ledger_entries) same)
          (rw same_reference done),
      ap (λ q. q.status) props ∙ status,
      ap (λ v. v.db.transfers) same
          ∙ row
          ∙ ap (λ u. w.db.transfers ++ u ∷ []) (sym (to_persistence-props t s'.transfer props)),
    )

-- Any failures of the client allowed: if `execute` throws, accounts and ledger are as they were.
pub execute-eq_err :
    (p : InternalParams) (w w' : World) (e : Error)
    → execute p w ≡ (err e, w')
    → (w'.db.accounts ≡ w.db.accounts) × (w'.db.ledger_entries ≡ w.db.ledger_entries)
execute-eq_err p w w' e h =
    let (r, s') = attempt w.now p (started p w) in
    let (f, same) = finish-eq_err r s' e (sym (execute-started p w) ∙ h) in
    rw same (attempt-eq_err w.now p (started p w) e {s' = s'} (ap (λ x. (x, s')) f))
