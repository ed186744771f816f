-- ===== src/Transfers/Confirm/Books.antt =====
-- The journal that a webhook writes.
use kudi_ai.Common.{
  ◌≡◌, ◌≢◌, refl, sym, ap, ◌∙◌, arith, ℕ, String, true, false, Option, none, some, inl, inr,
}
use Prim.Native.String
use kudi_ai.Shared.Enums.{is_terminal}
use kudi_ai.Shared.Errors.{ok, Result-cases}
use kudi_ai.Shared.Money as Amount
use kudi_ai.Database.{World, AccountRecord, publish_all, query-frame}
use kudi_ai.Database.Tables.{find}
use kudi_ai.Ledger.{post}
use kudi_ai.Accounts.Account.{Account, credit}
use kudi_ai.Accounts.Account.Laws.{credit-eq_ok}
use kudi_ai.Accounts.Repository as Accounts
use kudi_ai.Accounts.Repository.Concurrency.{find_by_id-eq_some}
use kudi_ai.Transfers.Transfer.{Transfer, mark_successful, mark_reversed}
use kudi_ai.Transfers.Repository.{find_by_provider_reference, save, save-OnlyTransfers}
use kudi_ai.Transfers.Entries.{find_account-entries, find-entries, save_account-entries}
use kudi_ai.Transfers.External.{settlement_legs, reversal_legs}
use kudi_ai.Transfers.Journals.{
  settlement_lines, reversal_lines, Writes, Writes-nothing, Writes-framed, post-Writes,
  settlement_legs-lines, reversal_legs-lines, find-account_id,
}
use kudi_ai.Transfers.Confirm.Settled.{find-Same}
use kudi_ai.Transfers.Confirm.{
  Command, confirm_posting, reason_of, confirm_success, compensate, compensate_found,
  confirm_failure, confirm_found, execute,
}

mark_successful-amounts :
    (now : ℕ) (t s : Transfer)
    → mark_successful now t ≡ ok s
    → (s.amount ≡ t.amount) × (s.fee ≡ t.fee)
unfolding mark_successful
mark_successful-amounts now t s h = (ground arith, ground arith)

confirm_success-Writes :
    (now : ℕ) (t : Transfer) (w : World)
    → Writes
        (settlement_lines t.amount t.fee)
        ((confirm_success now t w).0 ≡ ok tt)
        w.db.ledger_entries
        (confirm_success now t w).1.db.ledger_entries
unfolding confirm_success publish_all
confirm_success-Writes now t w =
    let ls = settlement_lines t.amount t.fee in
    let P : Type 0 = (confirm_success now t w).0 ≡ ok tt in
    let xs = w.db.ledger_entries in
    let ys = (confirm_success now t w).1.db.ledger_entries in
    elim (Result-cases (mark_successful now t)) [
      | inr (x, e) ↦ Writes-nothing ls P xs ys (ground arith) (ground arith)
      | inl (s, e) ↦
          let v = (save s w).1 in
          let same = (save-OnlyTransfers s w).entries in
          elim (Result-cases (save s w).0) [
            | inr (x, f) ↦ Writes-nothing ls P xs ys (ground arith) (ground arith)
            | inl (_, f) ↦ elim (Result-cases (Amount.add s.amount s.fee)) [
              | inr (x, g) ↦ Writes-nothing ls P xs ys (ground arith) (ground arith)
              | inl (total, g) ↦
                  let posting =
                    confirm_posting s "external payout confirmed by webhook"
                      (settlement_legs total s.amount s.fee) in
                  let (a, b) = mark_successful-amounts now t s e in
                  let lines = settlement_legs-lines s.amount s.fee total g in
                  Writes-framed ls ((post posting v).0 ≡ ok tt) P v.db.ledger_entries xs
                    (post posting v).1.db.ledger_entries ys (sym same) (ground arith)
                    (λ q. ground arith) (post-Writes posting ls v (rw (← a, ← b) lines))
            ]
          ]
    ]

compensate-Writes :
    (now : ℕ) (t : Transfer) (a : Account) (w : World)
    → a.id ≡ t.source_account_id
    → Writes
        (reversal_lines t.source_account_id t.amount t.fee)
        ((b : Account) × ((compensate now t a w).0 ≡ ok b))
        w.db.ledger_entries
        (compensate now t a w).1.db.ledger_entries
unfolding compensate
compensate-Writes now t a w id =
    let ls = reversal_lines t.source_account_id t.amount t.fee in
    let P : Type 0 = (b : Account) × ((compensate now t a w).0 ≡ ok b) in
    let xs = w.db.ledger_entries in
    let ys = (compensate now t a w).1.db.ledger_entries in
    elim (Result-cases (Amount.add t.amount t.fee)) [
      | inr (x, e) ↦ Writes-nothing ls P xs ys (ground arith) (λ (b, q). ground arith)
      | inl (total, e) ↦
          elim (Result-cases (credit now total (String.◌++◌ "reversal:" t.reference) a)) [
            | inr (x, f) ↦ Writes-nothing ls P xs ys (ground arith) (λ (b, q). ground arith)
            | inl (s, f) ↦
                let v = (Accounts.save s w).1 in
                let same = save_account-entries s w in
                let (_, _, credited) =
                  credit-eq_ok now total (String.◌++◌ "reversal:" t.reference) a s f in
                let kept : s.id ≡ t.source_account_id = ground arith in
                elim (Result-cases (Accounts.save s w).0) [
                  | inr (x, g) ↦ Writes-nothing ls P xs ys (ground arith) (λ (b, q). ground arith)
                  | inl (_, g) ↦
                      let posting =
                        confirm_posting t "external payout failed at provider (late webhook)"
                          (reversal_legs total s) in
                      Writes-framed ls ((post posting v).0 ≡ ok tt) P v.db.ledger_entries xs
                        (post posting v).1.db.ledger_entries ys (sym same) (ground arith)
                        (λ (b, q). ground arith)
                        (post-Writes posting ls v
                          (reversal_legs-lines t.amount t.fee total e s t.source_account_id kept))
                ]
          ]
    ]

-- The call goes through, and the row of the account is there.
abbrev pub Compensates : (account : String) → World → Type 0 → Type 0
Compensates account w P = P × (find (Accounts.has_id account) w.db.accounts ≢ none)

find_by_id-eq_none :
    (id : String) (w : World)
    → (Accounts.find_by_id id w).0 ≡ ok none
    → find (Accounts.has_id id) w.db.accounts ≡ none
unfolding Accounts.find_by_id
find_by_id-eq_none id w h =
    by_row (find (Accounts.has_id id) w.db.accounts) refl (ground (arith, query-frame w))
  where
    by_row :
        (o : Option AccountRecord)
        → find (Accounts.has_id id) w.db.accounts ≡ o
        → Accounts.read_account o ≡ ok none
        → find (Accounts.has_id id) w.db.accounts ≡ none
    by_row none e k = e
    by_row (some r) e k = absurd (ground arith)

-- The end of the branch, after the compensation.
reverse-entries :
    (now : ℕ) (reason : Option String) (t : Transfer) (w : World) (o : Option Account)
    → (Accounts.find_by_id t.source_account_id w).0 ≡ ok o
    → (confirm_failure now reason t w).1.db.ledger_entries
      ≡ (compensate_found now t o (Accounts.find_by_id t.source_account_id w).1).1.db.ledger_entries
unfolding confirm_failure publish_all
reverse-entries now reason t w o e =
    let w₁ = (Accounts.find_by_id t.source_account_id w).1 in
    let w₂ = (compensate_found now t o w₁).1 in
    elim (Result-cases (compensate_found now t o w₁).0) [
      | inr (x, f) ↦ ground arith
      | inl (es, f) ↦ elim (Result-cases (mark_reversed now (reason_of reason) t)) [
        | inr (x, g) ↦ ground arith
        | inl (r, g) ↦ let same = (save-OnlyTransfers r w₂).entries in ground arith
      ]
    ]

compensate_found-entries :
    (now : ℕ) (t : Transfer) (a : Account) (w : World)
    → (compensate_found now t (some a) w).1.db.ledger_entries
      ≡ (compensate now t a w).1.db.ledger_entries
unfolding compensate_found
compensate_found-entries now t a w = elim (Result-cases (compensate now t a w).0) [
  | inr (x, e) ↦ ground arith
  | inl (s, e) ↦ ground arith
]

-- A branch that goes through has compensated the account that it found.
confirm_failure-compensates :
    (now : ℕ) (reason : Option String) (t : Transfer) (a : Account) (w : World)
    → (Accounts.find_by_id t.source_account_id w).0 ≡ ok (some a)
    → (confirm_failure now reason t w).0 ≡ ok tt
    → let w₁ = (Accounts.find_by_id t.source_account_id w).1 in
      (b : Account) × ((compensate now t a w₁).0 ≡ ok b)
unfolding confirm_failure compensate_found
confirm_failure-compensates now reason t a w e q =
    let w₁ = (Accounts.find_by_id t.source_account_id w).1 in
    elim (Result-cases (compensate now t a w₁).0) [
      | inr (x, f) ↦ absurd (ground arith)
      | inl (b, f) ↦ (b, f)
    ]

confirm_failure-Writes_by :
    (now : ℕ) (reason : Option String) (t : Transfer) (w : World) (o : Option Account)
    → (Accounts.find_by_id t.source_account_id w).0 ≡ ok o
    → Writes
        (reversal_lines t.source_account_id t.amount t.fee)
        (Compensates t.source_account_id w ((confirm_failure now reason t w).0 ≡ ok tt))
        w.db.ledger_entries
        (confirm_failure now reason t w).1.db.ledger_entries
unfolding compensate_found
confirm_failure-Writes_by now reason t w none e =
    let w₁ = (Accounts.find_by_id t.source_account_id w).1 in
    Writes-nothing (reversal_lines t.source_account_id t.amount t.fee)
      (Compensates t.source_account_id w ((confirm_failure now reason t w).0 ≡ ok tt))
      w.db.ledger_entries (confirm_failure now reason t w).1.db.ledger_entries
      (reverse-entries now reason t w none e ∙ find_account-entries t.source_account_id w)
      (λ (q, n). n (find_by_id-eq_none t.source_account_id w e))
confirm_failure-Writes_by now reason t w (some a) e =
    let w₁ = (Accounts.find_by_id t.source_account_id w).1 in
    let (row, _, _, _, _, _) =
      find_by_id-eq_some t.source_account_id w a {w' = w₁} (ground arith) in
    Writes-framed (reversal_lines t.source_account_id t.amount t.fee)
      ((b : Account) × ((compensate now t a w₁).0 ≡ ok b))
      (Compensates t.source_account_id w ((confirm_failure now reason t w).0 ≡ ok tt))
      w₁.db.ledger_entries w.db.ledger_entries (compensate now t a w₁).1.db.ledger_entries
      (confirm_failure now reason t w).1.db.ledger_entries
      (sym (find_account-entries t.source_account_id w))
      (reverse-entries now reason t w (some a) e ∙ compensate_found-entries now t a w₁)
      (λ (q, n). confirm_failure-compensates now reason t a w e q)
      (compensate-Writes now t a w₁ (find-account_id t.source_account_id w.db.accounts a row))

confirm_failure-Writes :
    (now : ℕ) (reason : Option String) (t : Transfer) (w : World)
    → Writes
        (reversal_lines t.source_account_id t.amount t.fee)
        (Compensates t.source_account_id w ((confirm_failure now reason t w).0 ≡ ok tt))
        w.db.ledger_entries
        (confirm_failure now reason t w).1.db.ledger_entries
unfolding confirm_failure
confirm_failure-Writes now reason t w =
    elim (Result-cases (Accounts.find_by_id t.source_account_id w).0) [
      | inr (x, e) ↦
          let same = find_account-entries t.source_account_id w in
          Writes-nothing (reversal_lines t.source_account_id t.amount t.fee)
            (Compensates t.source_account_id w ((confirm_failure now reason t w).0 ≡ ok tt))
            w.db.ledger_entries (confirm_failure now reason t w).1.db.ledger_entries (ground arith)
            (λ (q, _). ground arith)
      | inl (o, e) ↦ confirm_failure-Writes_by now reason t w o e
    ]

-- Any failures of the client allowed, on a webhook that meets a transfer which is not settled: if
-- it says success, the ledger gains the lines of the settlement of the transfer's amount and fee or
-- nothing, and gains them where the webhook returns; if it says failure, it gains the lines of the
-- reversal to the source account or nothing, and gains them where the webhook returns and the row
-- of that account is there.
pub execute-Writes :
    (c : Command) (w : World) (t : Transfer)
    → (find_by_provider_reference c.provider_reference w).0 ≡ ok (some t)
    → is_terminal t.status ≡ false
    → let w' = (execute c w).1 in
      (c.is_successful ≡ true
        → Writes
            (settlement_lines t.amount t.fee)
            ((execute c w).0 ≡ ok tt)
            w.db.ledger_entries
            w'.db.ledger_entries)
      × (c.is_successful ≡ false
          → Writes
              (reversal_lines t.source_account_id t.amount t.fee)
              (Compensates t.source_account_id w ((execute c w).0 ≡ ok tt))
              w.db.ledger_entries
              w'.db.ledger_entries)
unfolding execute confirm_found
execute-Writes c w t f n =
    let w₁ = (find_by_provider_reference c.provider_reference w).1 in
    let w' = (execute c w).1 in
    let same = find-entries c.provider_reference w in
    let (db, _) = find-Same c.provider_reference w in
    (
      λ s.
          let run : execute c w ≡ confirm_success w₁.now t w₁ = ground arith in
          Writes-framed (settlement_lines t.amount t.fee) ((confirm_success w₁.now t w₁).0 ≡ ok tt)
            ((execute c w).0 ≡ ok tt) w₁.db.ledger_entries w.db.ledger_entries
            (confirm_success w₁.now t w₁).1.db.ledger_entries w'.db.ledger_entries (sym same)
            (ap (λ z. z.1.db.ledger_entries) run) (λ q. ap (λ z. z.0) (sym run) ∙ q)
            (confirm_success-Writes w₁.now t w₁),
      λ s.
          let run : execute c w ≡ confirm_failure w₁.now c.failure_reason t w₁ = ground arith in
          Writes-framed (reversal_lines t.source_account_id t.amount t.fee)
            (Compensates t.source_account_id w₁
              ((confirm_failure w₁.now c.failure_reason t w₁).0 ≡ ok tt))
            (Compensates t.source_account_id w ((execute c w).0 ≡ ok tt)) w₁.db.ledger_entries
            w.db.ledger_entries (confirm_failure w₁.now c.failure_reason t w₁).1.db.ledger_entries
            w'.db.ledger_entries (sym same) (ap (λ z. z.1.db.ledger_entries) run)
            (λ (q, m). (
              ap (λ z. z.0) (sym run) ∙ q,
              λ k. m (ap (λ b. find (Accounts.has_id t.source_account_id) b.accounts) (sym db) ∙ k),
            ))
            (confirm_failure-Writes w₁.now c.failure_reason t w₁),
    )
