-- ===== src/Transfers/Confirm/Replay.antt =====
-- The provider may send a webhook again: the second one meets a settled transfer.
use kudi_ai.Common.{
  ◌≡◌, refl, sym, ap, ◌∙◌, arith, ℕ, String, true, Option, none, some, List, inl, inr, Bool-cases,
}
use kudi_ai.Shared.Enums.{is_terminal}
use kudi_ai.Shared.Errors.{Result, ok, err, Result-cases}
use kudi_ai.Shared.Events.{DomainEvent}
use kudi_ai.Shared.Money as Amount
use kudi_ai.Database.{World, TransferRecord, query-frame, publish_all}
use kudi_ai.Database.Tables.{find}
use kudi_ai.Accounts.Account.{Account, credit}
use kudi_ai.Accounts.Repository as Accounts
use kudi_ai.Transfers.Transfer.{Transfer, mark_successful, mark_reversed}
use kudi_ai.Transfers.Repository.{find_by_provider_reference, has_provider_reference, save}
use kudi_ai.Transfers.External.{settlement_legs, reversal_legs}
use Prim.Native.String
use kudi_ai.Transfers.Confirm.{
  Command, confirm_posting, reason_of, confirm_success, compensate, compensate_found,
  confirm_failure, confirm_found, execute,
}
use kudi_ai.Transfers.Confirm.Settled.{
  IsRead, IsSettled, find-Same, find-eq_some, mark_successful-Settles, mark_reversed-Settles,
  save-IsSettled, IsSettled-of_transfers, post-transfers,
}

confirm_success-IsSettled :
    (p : String) (r : TransferRecord) (now : ℕ) (t : Transfer) (w : World) {w' : World}
    → find (has_provider_reference p) w.db.transfers ≡ some r
    → IsRead r t
    → confirm_success now t w ≡ (ok tt, w')
    → IsSettled p w'
unfolding confirm_success publish_all
confirm_success-IsSettled p r now t w {w'} f read h = elim (Result-cases (mark_successful now t)) [
  | inr (x, e) ↦ absurd (ground arith)
  | inl (s, e) ↦
      let w₁ = (save s w).1 in
      let done =
        save-IsSettled p r t s w {w' = w₁} f read (mark_successful-Settles now t s e)
          (ground arith) in
      elim (Result-cases (Amount.add s.amount s.fee)) [
        | inr (x, g) ↦ absurd (ground arith)
        | inl (total, g) ↦
            let posting =
              confirm_posting s "external payout confirmed by webhook"
                (settlement_legs total s.amount s.fee) in
            let same = post-transfers posting w₁ (ground arith) in
            IsSettled-of_transfers p w₁ w' (ground arith) done
      ]
]

account_save-transfers :
    (a : Account) (w : World) → (Accounts.save a w).1.db.transfers ≡ w.db.transfers
unfolding Accounts.save Accounts.create Accounts.update_versioned
account_save-transfers a w = ground (arith, query-frame w)

account_find-transfers :
    (id : String) (w : World) → (Accounts.find_by_id id w).1.db.transfers ≡ w.db.transfers
unfolding Accounts.find_by_id
account_find-transfers id w = ground (arith, query-frame w)

compensate-transfers :
    (now : ℕ) (t : Transfer) (a s : Account) (w : World) {w' : World}
    → compensate now t a w ≡ (ok s, w')
    → w'.db.transfers ≡ w.db.transfers
unfolding compensate
compensate-transfers now t a s w {w'} h = elim (Result-cases (Amount.add t.amount t.fee)) [
  | inr (x, e) ↦ absurd (ground arith)
  | inl (total, e) ↦
      elim (Result-cases (credit now total (String.◌++◌ "reversal:" t.reference) a)) [
        | inr (x, f) ↦ absurd (ground arith)
        | inl (b, f) ↦
            let w₁ = (Accounts.save b w).1 in
            let saved = account_save-transfers b w in
            let posting =
              confirm_posting t "external payout failed at provider (late webhook)"
                (reversal_legs total b) in
            let same = post-transfers posting w₁ (ground arith) in ground arith
      ]
]

compensate_found-transfers :
    (now : ℕ) (t : Transfer) (o : Option Account) (es : List DomainEvent) (w : World) {w' : World}
    → compensate_found now t o w ≡ (ok es, w')
    → w'.db.transfers ≡ w.db.transfers
unfolding compensate_found
compensate_found-transfers now t none es w h = ground arith
compensate_found-transfers now t (some a) es w {w'} h =
    let w₁ = (compensate now t a w).1 in
    elim (Result-cases (compensate now t a w).0) [
      | inr (x, e) ↦ absurd (ground arith)
      | inl (s, e) ↦
          let same = compensate-transfers now t a s w {w' = w₁} (ground arith) in ground arith
    ]

confirm_failure-IsSettled :
    (p : String) (r : TransferRecord) (now : ℕ) (reason : Option String) (t : Transfer) (w : World)
    {w' : World}
    → find (has_provider_reference p) w.db.transfers ≡ some r
    → IsRead r t
    → confirm_failure now reason t w ≡ (ok tt, w')
    → IsSettled p w'
unfolding confirm_failure publish_all
confirm_failure-IsSettled p r now reason t w {w'} f read h =
    let w₁ = (Accounts.find_by_id t.source_account_id w).1 in
    let same₁ = account_find-transfers t.source_account_id w in
    elim (Result-cases (Accounts.find_by_id t.source_account_id w).0) [
      | inr (x, e) ↦ absurd (ground arith)
      | inl (o, e) ↦
          let w₂ = (compensate_found now t o w₁).1 in
          elim (Result-cases (compensate_found now t o w₁).0) [
            | inr (x, g) ↦ absurd (ground arith)
            | inl (es, g) ↦
                let same₂ = compensate_found-transfers now t o es w₁ {w' = w₂} (ground arith) in
                elim (Result-cases (mark_reversed now (reason_of reason) t)) [
                  | inr (x, k) ↦ absurd (ground arith)
                  | inl (u, k) ↦
                      let w₃ = (save u w₂).1 in
                      let found₂ : find (has_provider_reference p) w₂.db.transfers ≡ some r =
                        ap (find (has_provider_reference p)) (same₂ ∙ same₁) ∙ f in
                      IsSettled-of_transfers p w₃ w' (ground arith) (
                        save-IsSettled p r t u w₂ {w' = w₃} found₂ read
                          (mark_reversed-Settles now (reason_of reason) t u k) (ground arith))
                ]
          ]
    ]

confirm_found-IsSettled :
    (c : Command) (p : String) (r : TransferRecord) (t : Transfer) (w : World) {w' : World}
    → find (has_provider_reference p) w.db.transfers ≡ some r
    → IsRead r t
    → confirm_found c (some t) w ≡ (ok tt, w')
    → IsSettled p w'
unfolding confirm_found
confirm_found-IsSettled c p r t w {w'} f read h = elim (Bool-cases (is_terminal t.status)) [
  | inl e ↦
      IsSettled-of_transfers p w w' (ground arith)
        (record { row = r; found = f; settled = ap is_terminal (sym read.status) ∙ e })
  | inr e ↦ elim (Bool-cases c.is_successful) [
    | inl k ↦ confirm_success-IsSettled p r w.now t w f read (ground arith)
    | inr k ↦ confirm_failure-IsSettled p r w.now c.failure_reason t w f read (ground arith)
  ]
]

-- A webhook that goes through leaves a settled transfer.
execute-IsSettled :
    (c : Command) (w : World) {w' : World}
    → execute c w ≡ (ok tt, w')
    → IsSettled c.provider_reference w'
unfolding execute confirm_found
execute-IsSettled c w {w'} h = by_found (find_by_provider_reference c.provider_reference w).0 refl
  where
    by_found :
        (o : Result (Option Transfer))
        → (find_by_provider_reference c.provider_reference w).0 ≡ o
        → IsSettled c.provider_reference w'
    by_found (err x) e = absurd (ground arith)
    by_found (ok none) e = absurd (ground arith)
    by_found (ok (some t)) e =
        let p = c.provider_reference in
        let w₁ = (find_by_provider_reference p w).1 in
        let (same, _) = find-Same p w in
        let (r, f, read) = find-eq_some p w t e in
        confirm_found-IsSettled c p r t w₁
          (ap (λ b. find (has_provider_reference p) b.transfers) same ∙ f) read (ground arith)

-- A webhook for a settled transfer changes nothing.
execute_settled :
    (c : Command) (w : World)
    → IsSettled c.provider_reference w
    → ((execute c w).1.db ≡ w.db) × ((execute c w).1.published ≡ w.published)
unfolding execute confirm_found
execute_settled c w s = by_found (find_by_provider_reference c.provider_reference w).0 refl
  where
    by_found :
        (o : Result (Option Transfer))
        → (find_by_provider_reference c.provider_reference w).0 ≡ o
        → ((execute c w).1.db ≡ w.db) × ((execute c w).1.published ≡ w.published)
    by_found (err x) e = ground (arith, find-Same c.provider_reference w)
    by_found (ok none) e = ground (arith, find-Same c.provider_reference w)
    by_found (ok (some t)) e =
        let (r, f, read) = find-eq_some c.provider_reference w t e in
        let found = s.found in
        let same_row : r ≡ s.row = cc in
        let terminal : is_terminal t.status ≡ true =
          ap is_terminal (read.status ∙ ap (λ q. q.status) same_row) ∙ s.settled in
        ground (arith, find-Same c.provider_reference w)

-- Any failures of the client allowed: after a webhook that went through, any webhook with the same
-- provider reference, whatever it says, leaves the database alone and publishes nothing.
pub execute-execute_ignored :
    (c d : Command) (w w' : World)
    → d.provider_reference ≡ c.provider_reference
    → execute c w ≡ (ok tt, w')
    → ((execute d w').1.db ≡ w'.db) × ((execute d w').1.published ≡ w'.published)
execute-execute_ignored c d w w' e h = execute_settled d w' (rw e (execute-IsSettled c w h))
