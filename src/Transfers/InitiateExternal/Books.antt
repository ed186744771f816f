-- ===== src/Transfers/InitiateExternal/Books.antt =====
-- The journals that the handler writes.
use kudi_ai.Common.{
  ◌≡◌, refl, sym, ap, ◌∙◌, ◌⊎◌, arith, ℕ, ◌+◌, Option, none, some, List, inl, inr, ◌++◌, Bool-cases,
}
use Prim.Native.String
use kudi_ai.Shared.Errors.{Error, Result, ok, message, Result-cases}
use kudi_ai.Shared.Events.{DomainEvent}
use kudi_ai.Database.{World, LedgerEntry, publish_all, random_text}
use kudi_ai.Ledger.{post}
use kudi_ai.Accounts.Account.Laws.{credit-eq_ok}
use kudi_ai.Accounts.Repository.Concurrency.{find_by_id-eq_some}
use kudi_ai.Transfers.Journals.{
  Line, hold_lines, settlement_lines, reversal_lines, Journaled, Writes, Writes-nothing,
  Writes-framed, post-Writes, hold_legs-lines, settlement_legs-lines, reversal_legs-lines,
  find-account_id,
}
use kudi_ai.Transfers.InitiateExternal.Effects.{
  settle_at_once-eq_ok, conclude-transfer, mark_processing-eq_ok,
}
use kudi_ai.Shared.Enums.{external, TransactionStatus, successful, processing}
use kudi_ai.Shared.Money.{from_decimal_string, add}
use kudi_ai.Accounts.Commands.{get_account}
use kudi_ai.Accounts.Commands.Laws.{get_account-Same}
use kudi_ai.Transfers.Fees.{calculate_fee}
use kudi_ai.Transfers.Limits.{assert_within_limits}
use kudi_ai.Transfers.Limits.Frame.{assert_within_limits-Kept}
use kudi_ai.Accounts.Account.{Account, credit, debit}
use kudi_ai.Accounts.Repository as Accounts
use kudi_ai.Transfers.Transfer.{
  Transfer, initiate_external, mark_successful, mark_processing, mark_reversed,
}
use kudi_ai.Transfers.Repository.{save, save-OnlyTransfers}
use kudi_ai.Transfers.Entries.{find_account-entries, save_account-entries}
use kudi_ai.Transfers.External.{PayoutProvider, settlement_legs, reversal_legs}
use kudi_ai.Transfers.Held.{Held}
use kudi_ai.Transfers.InitiateExternal.{
  Command, Plan, plan_of, check, hold, hold_legs, posting_of, instruct, settle_at_once, conclude,
  attempt, refund, compensate,
}

pub hold-entries :
    (now : ℕ) (c : Command) (p : Plan) (w : World)
    → (hold now c p w).1.db.ledger_entries ≡ w.db.ledger_entries
unfolding hold
hold-entries now c p w =
    elim (Result-cases (
      debit now p.total (String.◌++◌ "pending-external-payout:" c.recipient_account_number)
        p.source)) [
          | inr (x, e) ↦ ground arith
          | inl (a, e) ↦ ground (arith, save_account-entries a w)
        ]

conclude-entries :
    (earlier : List DomainEvent) (s : Held)
    → (conclude earlier s).1.world.db.ledger_entries ≡ s.world.db.ledger_entries
unfolding conclude publish_all
conclude-entries earlier s = ground (arith, (save-OnlyTransfers s.transfer s.world).entries)

settle_at_once-Writes :
    (now : ℕ) (c : Command) (p : Plan) (s : Held)
    → add p.amount p.fee ≡ ok p.total
    → Writes
        (settlement_lines p.amount p.fee)
        ((settle_at_once now c p s).0 ≡ ok tt)
        s.world.db.ledger_entries
        (settle_at_once now c p s).1.world.db.ledger_entries
unfolding settle_at_once
settle_at_once-Writes now c p s h =
    let ls = settlement_lines p.amount p.fee in
    let P : Type 0 = (settle_at_once now c p s).0 ≡ ok tt in
    let xs = s.world.db.ledger_entries in
    let ys = (settle_at_once now c p s).1.world.db.ledger_entries in
    elim (Result-cases (mark_successful now s.transfer)) [
      | inr (x, e) ↦ Writes-nothing ls P xs ys (ground arith) (ground arith)
      | inl (t, e) ↦
          let posting = posting_of t c c.narration (settlement_legs p.total p.amount p.fee) in
          Writes-framed ls ((post posting s.world).0 ≡ ok tt) P xs xs
            (post posting s.world).1.db.ledger_entries ys refl (ground arith) (λ q. ground arith)
            (post-Writes posting ls s.world (settlement_legs-lines p.amount p.fee p.total h))
    ]

-- A journal of these lines, or none.
abbrev pub MayWrite : List Line → (xs ys : List LedgerEntry) → Type 0
MayWrite ls xs ys = (ys ≡ xs) ⊎ Journaled ls xs ys

MayWrite-framed :
    (ls : List Line) (xs xs' ys ys' : List LedgerEntry)
    → xs' ≡ xs
    → ys' ≡ ys
    → MayWrite ls xs ys
    → MayWrite ls xs' ys'
MayWrite-framed ls xs xs' ys ys' e f (inl g) = inl (f ∙ g ∙ sym e)
MayWrite-framed ls xs xs' ys ys' e f (inr (es, g, h)) = inr (es, rw e (f ∙ g), h)

refund-none :
    (now : ℕ) (c : Command) (p : Plan) (t : Transfer) (w : World) → (refund now c p t none w).1 ≡ w
unfolding refund
refund-none now c p t w = refl

refund-MayWrite :
    (now : ℕ) (c : Command) (p : Plan) (t : Transfer) (a : Account) (w : World)
    → add p.amount p.fee ≡ ok p.total
    → a.id ≡ c.source_account_id
    → MayWrite
        (reversal_lines c.source_account_id p.amount p.fee)
        w.db.ledger_entries
        (refund now c p t (some a) w).1.db.ledger_entries
unfolding refund
refund-MayWrite now c p t a w h id =
    elim (Result-cases (credit now p.total (String.◌++◌ "reversal:" t.reference) a)) [
      | inr (x, e) ↦ inl (ground arith)
      | inl (s, e) ↦
          let v = (Accounts.save s w).1 in
          let same = save_account-entries s w in
          let (_, _, credited) =
            credit-eq_ok now p.total (String.◌++◌ "reversal:" t.reference) a s e in
          let kept : s.id ≡ c.source_account_id = ground arith in
          elim (Result-cases (Accounts.save s w).0) [
            | inr (x, f) ↦ inl (ground arith)
            | inl (_, f) ↦
                let posting =
                  posting_of t c (String.◌++◌ "reversal: " c.narration) (reversal_legs p.total s) in
                let ls = reversal_lines c.source_account_id p.amount p.fee in
                let lines =
                  reversal_legs-lines p.amount p.fee p.total h s c.source_account_id kept in
                (Writes-framed ls ((post posting v).0 ≡ ok tt) ((post posting v).0 ≡ ok tt)
                  v.db.ledger_entries w.db.ledger_entries (post posting v).1.db.ledger_entries
                  (refund now c p t (some a) w).1.db.ledger_entries (sym same) (ground arith)
                  (λ q. q) (post-Writes posting ls v lines)).may
          ]
    ]

pub check-entries :
    (c : Command) (w : World) → (check c w).1.db.ledger_entries ≡ w.db.ledger_entries
unfolding check plan_of
check-entries c w =
    let w₁ = (get_account c.source_account_id w).1 in
    let (same, _, _) = get_account-Same c.source_account_id w in
    elim (Result-cases (get_account c.source_account_id w).0) [
      | inr (x, e) ↦ ground arith
      | inl (a, e) ↦ elim (Result-cases (from_decimal_string c.amount a.currency)) [
        | inr (x, f) ↦ ground arith
        | inl (m, f) ↦
            let w₂ = (assert_within_limits c.initiator_user_id c.source_account_id m w₁).1 in
            let (same', _) =
              assert_within_limits-Kept c.initiator_user_id c.source_account_id m w₁ in
            elim (Result-cases
              (assert_within_limits c.initiator_user_id c.source_account_id m w₁).0) [
                | inr (x, g) ↦ ground arith
                | inl (_, g) ↦ elim (Result-cases (calculate_fee m external)) [
                  | inr (x, h) ↦ ground arith
                  | inl (fee, h) ↦ ground arith
                ]
              ]
      ]
    ]

pub instruct-Writes :
    (now : ℕ) (c : Command) (p : Plan) (source : Account) (w : World)
    → add p.amount p.fee ≡ ok p.total
    → source.id ≡ c.source_account_id
    → Writes
        (hold_lines c.source_account_id p.amount p.fee)
        ((t : Transfer) × ((instruct now c p source w).0 ≡ ok t))
        w.db.ledger_entries
        (instruct now c p source w).1.db.ledger_entries
unfolding instruct random_text
instruct-Writes now c p source w h id =
    let t =
      initiate_external
        (record { id = w.random w.drawn; reference = w.random (w.drawn + 1); now = now })
        (record {
          initiator_user_id = c.initiator_user_id;
          source_account_id = c.source_account_id;
          recipient = p.recipient;
          amount = p.amount;
          fee = p.fee;
          narration = c.narration;
        }) in
    let v₀ : World = record w { drawn = w.drawn + 1 + 1 } in
    let v = (save t v₀).1 in
    let same : v.db.ledger_entries ≡ w.db.ledger_entries = (save-OnlyTransfers t v₀).entries in
    let ls = hold_lines c.source_account_id p.amount p.fee in
    let P : Type 0 = (t : Transfer) × ((instruct now c p source w).0 ≡ ok t) in
    let ys = (instruct now c p source w).1.db.ledger_entries in
    elim (Result-cases (save t v₀).0) [
      | inr (x, e) ↦
          Writes-nothing ls P w.db.ledger_entries ys (ground arith) (λ (u, q). ground arith)
      | inl (_, e) ↦
          let posting = posting_of t c c.narration (hold_legs p.total source) in
          Writes-framed ls ((post posting v).0 ≡ ok tt) P v.db.ledger_entries w.db.ledger_entries
            (post posting v).1.db.ledger_entries ys (sym same) (ground arith)
            (λ (u, q). ground arith)
            (post-Writes posting ls v
              (hold_legs-lines p.amount p.fee p.total h source c.source_account_id id))
    ]

-- The call goes through and leaves this status.
abbrev pub Ends : Result (Unit {0}) × Held → TransactionStatus → Type 0
Ends z status = (z.0 ≡ ok tt) × (z.1.transfer.status ≡ status)

pub attempt-Writes :
    (provider : PayoutProvider) (now : ℕ) (c : Command) (p : Plan) (earlier : List DomainEvent)
    (s : Held)
    → add p.amount p.fee ≡ ok p.total
    → let z = attempt provider now c p earlier s in
      Writes
        (settlement_lines p.amount p.fee)
        (Ends z successful)
        s.world.db.ledger_entries
        z.1.world.db.ledger_entries
      × (Ends z processing → z.1.world.db.ledger_entries ≡ s.world.db.ledger_entries)
unfolding attempt
attempt-Writes provider now c p earlier s h =
    let z = attempt provider now c p earlier s in
    let ls = settlement_lines p.amount p.fee in
    let P : Type 0 = Ends z successful in
    let xs = s.world.db.ledger_entries in
    let ys = z.1.world.db.ledger_entries in
    elim (Result-cases
      (provider.initiate_payout s.transfer.reference p.recipient p.amount c.narration)) [
        | inr (x, e) ↦
            (Writes-nothing ls P xs ys (ground arith) (λ (q, _). ground arith), λ q. ground arith)
        | inl (r, e) ↦ elim (Bool-cases r.is_immediately_settled) [
          | inl f ↦
              let u = (settle_at_once now c p s).1 in
              elim (Result-cases (settle_at_once now c p s).0) [
                | inr (x, g) ↦ (
                  Writes-framed ls ((settle_at_once now c p s).0 ≡ ok tt) P xs xs
                      u.world.db.ledger_entries ys refl (ground arith) (λ (q, _). ground arith)
                      (settle_at_once-Writes now c p s h),
                  λ (q, _). absurd (ground arith),
                )
                | inl (_, g) ↦
                    let (status, _) = settle_at_once-eq_ok now c p s {s' = u} (ground arith) in
                    let (status', _) = conclude-transfer earlier u in
                    (
                      Writes-framed ls ((settle_at_once now c p s).0 ≡ ok tt) P xs xs
                          u.world.db.ledger_entries ys refl
                          (ground (arith, conclude-entries earlier u)) (λ q. g)
                          (settle_at_once-Writes now c p s h),
                      λ (_, q). absurd (ground arith),
                    )
              ]
          | inr f ↦
              elim (Result-cases (mark_processing now (some r.provider_reference) s.transfer)) [
                | inr (x, g) ↦ (
                  Writes-nothing ls P xs ys (ground arith) (λ (q, _). ground arith),
                  λ q. ground arith,
                )
                | inl (t, g) ↦
                    let u = record s { transfer = t } in
                    let (status, _) =
                      mark_processing-eq_ok now r.provider_reference s.transfer t g in
                    let (status', _) = conclude-transfer earlier u in
                    let same : ys ≡ xs = ground (arith, conclude-entries earlier u) in
                    (Writes-nothing ls P xs ys same (λ (_, q). ground arith), λ q. same)
              ]
        ]
      ]

-- The end of the catch block, after the refund.
after_refund-entries :
    (now : ℕ) (c : Command) (p : Plan) (earlier : List DomainEvent) (x : Error) (s : Held)
    (o : Option Account)
    → (Accounts.find_by_id c.source_account_id s.world).0 ≡ ok o
    → (compensate now c p earlier x s).1.world.db.ledger_entries
      ≡ (refund now c p s.transfer o
          (Accounts.find_by_id c.source_account_id s.world).1).1.db.ledger_entries
unfolding compensate
after_refund-entries now c p earlier x s o e =
    let w₁ = (Accounts.find_by_id c.source_account_id s.world).1 in
    let w₂ = (refund now c p s.transfer o w₁).1 in
    elim (Result-cases (refund now c p s.transfer o w₁).0) [
      | inr (y, f) ↦ ground arith
      | inl (es, f) ↦ elim (Result-cases (mark_reversed now (message x) s.transfer)) [
        | inr (y, g) ↦ ground arith
        | inl (t, g) ↦
            let u : Held = record { world = w₂; transfer = t } in
            elim (Result-cases (conclude (earlier ++ es) u).0) [
              | inr (y, h) ↦ ground (arith, conclude-entries (earlier ++ es) u)
              | inl (_, h) ↦ ground (arith, conclude-entries (earlier ++ es) u)
            ]
      ]
    ]

pub compensate-MayWrite :
    (now : ℕ) (c : Command) (p : Plan) (earlier : List DomainEvent) (x : Error) (s : Held)
    → add p.amount p.fee ≡ ok p.total
    → MayWrite
        (reversal_lines c.source_account_id p.amount p.fee)
        s.world.db.ledger_entries
        (compensate now c p earlier x s).1.world.db.ledger_entries
unfolding compensate
compensate-MayWrite now c p earlier x s h =
    elim (Result-cases (Accounts.find_by_id c.source_account_id s.world).0) [
      | inr (y, e) ↦ inl (ground (arith, find_account-entries c.source_account_id s.world))
      | inl (o, e) ↦ by_account o e
    ]
  where
    by_account :
        (o : Option Account)
        → (Accounts.find_by_id c.source_account_id s.world).0 ≡ ok o
        → MayWrite
            (reversal_lines c.source_account_id p.amount p.fee)
            s.world.db.ledger_entries
            (compensate now c p earlier x s).1.world.db.ledger_entries
    by_account none e = inl (
        after_refund-entries now c p earlier x s none e
        ∙ ap (λ w. w.db.ledger_entries)
            (refund-none now c p s.transfer (Accounts.find_by_id c.source_account_id s.world).1)
        ∙ find_account-entries c.source_account_id s.world)
    by_account (some a) e =
        let w₁ = (Accounts.find_by_id c.source_account_id s.world).1 in
        let (row, _, _, _, _, _) =
          find_by_id-eq_some c.source_account_id s.world a {w' = w₁} (ground arith) in
        let id = find-account_id c.source_account_id s.world.db.accounts a row in
        MayWrite-framed (reversal_lines c.source_account_id p.amount p.fee) w₁.db.ledger_entries
          s.world.db.ledger_entries (refund now c p s.transfer (some a) w₁).1.db.ledger_entries
          (compensate now c p earlier x s).1.world.db.ledger_entries
          (sym (find_account-entries c.source_account_id s.world))
          (after_refund-entries now c p earlier x s (some a) e)
          (refund-MayWrite now c p s.transfer a w₁ h id)
