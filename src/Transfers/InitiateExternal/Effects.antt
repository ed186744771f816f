-- ===== src/Transfers/InitiateExternal/Effects.antt =====
-- What the handler has checked, and what the provider has answered, where it returns.
use kudi_ai.Common.{
  ◌≡◌, ◌≢◌, arith, ℕ, String, true, some, List, inl, inr, ◌++◌, ◌==◌, Bool-cases, if◌then◌else◌,
}
use Prim.Native.String
use kudi_ai.Common.Int.{◌≤ℤ◌}
use kudi_ai.Shared.Enums.{active, external, processing, successful}
use kudi_ai.Shared.Errors.{Error, ok, message, Result-cases}
use kudi_ai.Shared.Events.{DomainEvent}
use kudi_ai.Shared.Money.{Money, from_decimal_string, add}
use kudi_ai.Database.{World, publish_all}
use kudi_ai.Accounts.Account.{Account, debit}
use kudi_ai.Accounts.Account.Laws.{debit-eq_ok}
use kudi_ai.Accounts.Repository as Accounts
use kudi_ai.Accounts.Commands.{get_account}
use kudi_ai.Accounts.Commands.Laws.{get_account-Same, get_account-row}
use kudi_ai.Database.Tables.{find}
use kudi_ai.Accounts.Mapper.{to_persistence}
use kudi_ai.Accounts.Repository.{has_id}
use kudi_ai.Compliance.Limits.{TierLimits}
use kudi_ai.Transfers.Transfer.{
  Transfer, mark_successful, mark_processing, mark_reversed, pull_domain_events,
}
use kudi_ai.Transfers.Mapper.{create_recipient}
use kudi_ai.Transfers.Fees.{calculate_fee}
use kudi_ai.Transfers.Limits.{assert_within_limits, IsAllowed, assert_within_limits-IsAllowed}
use kudi_ai.Transfers.Limits.Frame.{IsAllowed-of_Kept}
use kudi_ai.Transfers.External.{PayoutProvider, PayoutResult}
use kudi_ai.Transfers.Held.{Held}
use kudi_ai.Transfers.InitiateExternal.{
  Command, Plan, plan_of, check, hold, instruct, settle_at_once, conclude, attempt, refund,
  compensate, pay_out, do_execute, start,
}

-- What the checks before the first write have found: the source of the plan is the row of the
-- account that the command names.
pub record IsChecked (c : Command) (w : World) (p : Plan) : Type 0 where
  pub row : find (has_id c.source_account_id) w.db.accounts ≡ some (to_persistence p.source)
  pub limits : TierLimits
  pub allowed : IsAllowed c.initiator_user_id c.source_account_id p.amount w limits
  pub owned : (p.source.user_id == c.initiator_user_id) ≡ true
  pub amount : from_decimal_string c.amount p.source.currency ≡ ok p.amount
  pub fee : calculate_fee p.amount external ≡ ok p.fee
  pub total : add p.amount p.fee ≡ ok p.total
  pub recipient :
      create_recipient c.bank_code c.recipient_account_number c.recipient_account_name
      ≡ ok p.recipient

plan_of-eq_ok :
    (c : Command) (a : Account) (m : Money) (w : World) (p : Plan) {w' : World}
    → plan_of c a m w ≡ (ok p, w')
    → (p.source ≡ a)
      × (p.amount ≡ m)
      × (calculate_fee p.amount external ≡ ok p.fee)
      × (add p.amount p.fee ≡ ok p.total)
      × (create_recipient c.bank_code c.recipient_account_number c.recipient_account_name
          ≡ ok p.recipient)
unfolding plan_of
plan_of-eq_ok c a m w p {w'} h = elim (Result-cases (calculate_fee m external)) [
  | inr (x, e) ↦ absurd (ground arith)
  | inl (fee, e) ↦ elim (Result-cases (add m fee)) [
    | inr (x, f) ↦ absurd (ground arith)
    | inl (total, f) ↦ (ground arith, ground arith, ground arith, ground arith, ground arith)
  ]
]

pub check-IsChecked :
    (c : Command) (w : World) (p : Plan) {w' : World} → check c w ≡ (ok p, w') → IsChecked c w p
unfolding check
check-IsChecked c w p {w'} h =
    let w₁ = (get_account c.source_account_id w).1 in
    let (db, _, now) = get_account-Same c.source_account_id w in
    elim (Result-cases (get_account c.source_account_id w).0) [
      | inr (x, e) ↦ absurd (ground arith)
      | inl (a, e) ↦ elim (Result-cases (from_decimal_string c.amount a.currency)) [
        | inr (x, f) ↦ absurd (ground arith)
        | inl (m, f) ↦
            let w₂ = (assert_within_limits c.initiator_user_id c.source_account_id m w₁).1 in
            let passed : assert_within_limits c.initiator_user_id c.source_account_id m w₁
                ≡ (ok tt, w₂) =
              ground arith in
            let (l, allowed, _) =
              assert_within_limits-IsAllowed c.initiator_user_id c.source_account_id m w₁ passed in
            let (source, equal, fee, total, recipient) =
              plan_of-eq_ok c a m w₂ p {w' = w'} (ground arith) in
            let row : find (has_id c.source_account_id) w.db.accounts
                ≡ some (to_persistence p.source) =
              rw source (get_account-row c.source_account_id w a {w' = w₁} (ground arith)) in
            record {
              row = row;
              limits = l;
              allowed =
                  IsAllowed-of_Kept c.initiator_user_id c.source_account_id p.amount l w w₁
                    (db, now) (rw equal allowed);
              owned = ground arith;
              amount = rw (source, equal) f;
              fee = fee;
              total = total;
              recipient = recipient;
            }
      ]
    ]

-- The provider has accepted the payout of the transfer, which says so.
pub record IsAccepted (provider : PayoutProvider) (c : Command) (p : Plan) (t : Transfer)
    : Type 0 where
  pub result : PayoutResult
  pub accepted : provider.initiate_payout t.reference p.recipient p.amount c.narration ≡ ok result
  pub status : t.status ≡ (if result.is_immediately_settled then successful else processing)

mark_successful-eq_ok :
    (now : ℕ) (t t' : Transfer)
    → mark_successful now t ≡ ok t'
    → (t'.status ≡ successful) × (t'.reference ≡ t.reference)
unfolding mark_successful
mark_successful-eq_ok now t t' h = (ground arith, ground arith)

pub mark_processing-eq_ok :
    (now : ℕ) (r : String) (t t' : Transfer)
    → mark_processing now (some r) t ≡ ok t'
    → (t'.status ≡ processing) × (t'.reference ≡ t.reference)
unfolding mark_processing
mark_processing-eq_ok now r t t' h = (ground arith, ground arith)

pub conclude-transfer :
    (earlier : List DomainEvent) (s : Held)
    → ((conclude earlier s).1.transfer.status ≡ s.transfer.status)
      × ((conclude earlier s).1.transfer.reference ≡ s.transfer.reference)
unfolding conclude pull_domain_events publish_all
conclude-transfer earlier s = (ground arith, ground arith)

pub settle_at_once-eq_ok :
    (now : ℕ) (c : Command) (p : Plan) (s : Held) {s' : Held}
    → settle_at_once now c p s ≡ (ok tt, s')
    → (s'.transfer.status ≡ successful) × (s'.transfer.reference ≡ s.transfer.reference)
unfolding settle_at_once
settle_at_once-eq_ok now c p s h = elim (Result-cases (mark_successful now s.transfer)) [
  | inr (x, e) ↦ absurd (ground arith)
  | inl (t, e) ↦ ground (arith, mark_successful-eq_ok now s.transfer t e)
]

attempt-IsAccepted :
    (provider : PayoutProvider) (now : ℕ) (c : Command) (p : Plan) (earlier : List DomainEvent)
    (s : Held) {s' : Held}
    → attempt provider now c p earlier s ≡ (ok tt, s')
    → IsAccepted provider c p s'.transfer
unfolding attempt
attempt-IsAccepted provider now c p earlier s {s'} h =
    elim (Result-cases
      (provider.initiate_payout s.transfer.reference p.recipient p.amount c.narration)) [
        | inr (x, e) ↦ absurd (ground arith)
        | inl (r, e) ↦ elim (Bool-cases r.is_immediately_settled) [
          | inl f ↦
              let u = (settle_at_once now c p s).1 in
              elim (Result-cases (settle_at_once now c p s).0) [
                | inr (x, g) ↦ absurd (ground arith)
                | inl (_, g) ↦
                    let (a, b) = settle_at_once-eq_ok now c p s {s' = u} (ground arith) in
                    let (a', b') = conclude-transfer earlier u in
                    record { result = r; accepted = ground arith; status = ground arith }
              ]
          | inr f ↦
              elim (Result-cases (mark_processing now (some r.provider_reference) s.transfer)) [
                | inr (x, g) ↦ absurd (ground arith)
                | inl (t, g) ↦
                    let (a, b) = mark_processing-eq_ok now r.provider_reference s.transfer t g in
                    let (a', b') = conclude-transfer earlier (record s { transfer = t }) in
                    record { result = r; accepted = ground arith; status = ground arith }
              ]
        ]
      ]

-- The catch block throws whatever happens in it.
pub compensate-throws :
    (now : ℕ) (c : Command) (p : Plan) (earlier : List DomainEvent) (x : Error) (s : Held)
    → (compensate now c p earlier x s).0 ≢ ok tt
unfolding compensate
compensate-throws now c p earlier x s =
    elim (Result-cases (Accounts.find_by_id c.source_account_id s.world).0) [
      | inr (y, e) ↦ ground arith
      | inl (o, e) ↦
          let w₁ = (Accounts.find_by_id c.source_account_id s.world).1 in
          let w₂ = (refund now c p s.transfer o w₁).1 in
          elim (Result-cases (refund now c p s.transfer o w₁).0) [
            | inr (y, f) ↦ ground arith
            | inl (es, f) ↦ elim (Result-cases (mark_reversed now (message x) s.transfer)) [
              | inr (y, g) ↦ ground arith
              | inl (t, g) ↦
                  elim (Result-cases
                    (conclude (earlier ++ es) (record { world = w₂; transfer = t })).0) [
                      | inr (y, h) ↦ ground arith
                      | inl (_, h) ↦ ground arith
                    ]
            ]
          ]
    ]

pay_out-eq_ok :
    (provider : PayoutProvider) (now : ℕ) (c : Command) (p : Plan) (earlier : List DomainEvent)
    (s : Held) {s' : Held}
    → pay_out provider now c p earlier s ≡ (ok tt, s')
    → attempt provider now c p earlier s ≡ (ok tt, s')
unfolding pay_out
pay_out-eq_ok provider now c p earlier s {s'} h =
    let s₁ = (attempt provider now c p earlier s).1 in
    elim (Result-cases (attempt provider now c p earlier s).0) [
      | inl (_, e) ↦ ground arith
      | inr (x, e) ↦ absurd (ground (arith, compensate-throws now c p earlier x s₁))
    ]

hold-eq_ok :
    (now : ℕ) (c : Command) (p : Plan) (w : World) (a : Account) {w' : World}
    → hold now c p w ≡ (ok a, w')
    → (p.source.status ≡ active) × (p.total.minor_units ≤ℤ p.source.balance.minor_units)
unfolding hold
hold-eq_ok now c p w a h =
    let reference = String.◌++◌ "pending-external-payout:" c.recipient_account_number in
    elim (Result-cases (debit now p.total reference p.source)) [
      | inr (x, e) ↦ absurd (ground arith)
      | inl (b, e) ↦
          let (is_active, _, covered, _) = debit-eq_ok now p.total reference p.source b e in
          (is_active, covered)
    ]

-- Any provider, and any failures of the client allowed: if the handler returns, the initiator
-- owns the source account, which is active and covers amount and fee, the limits of the tier of
-- the initiator allow the amount, the fee is that of the schedule, and the provider has accepted
-- the payout of this amount to this recipient under the reference of the transfer, which is
-- SUCCESSFUL where the provider has settled at once and PROCESSING otherwise.
pub do_execute-IsAccepted :
    (provider : PayoutProvider) (c : Command) (w : World) (t : Transfer) {w' : World}
    → do_execute provider c w ≡ (ok t, w')
    → (p : Plan) × IsChecked c w p
      × (p.source.status ≡ active)
      × (p.total.minor_units ≤ℤ p.source.balance.minor_units)
      × IsAccepted provider c p t
unfolding do_execute
do_execute-IsAccepted provider c w t {w'} h =
    let w₁ = (check c w).1 in
    elim (Result-cases (check c w).0) [
      | inr (x, e) ↦ absurd (ground arith)
      | inl (p, e) ↦
          let now = w₁.now in
          let w₂ = (hold now c p w₁).1 in
          elim (Result-cases (hold now c p w₁).0) [
            | inr (x, f) ↦ absurd (ground arith)
            | inl (a, f) ↦
                let w₃ = (instruct now c p a w₂).1 in
                elim (Result-cases (instruct now c p a w₂).0) [
                  | inr (x, g) ↦ absurd (ground arith)
                  | inl (u, g) ↦
                      let earlier = a.domain_events ++ (pull_domain_events u).0 in
                      let s₁ = (pay_out provider now c p earlier (start u w₃)).1 in
                      elim (Result-cases (pay_out provider now c p earlier (start u w₃)).0) [
                        | inr (x, i) ↦ absurd (ground arith)
                        | inl (_, i) ↦
                            let accepted =
                              attempt-IsAccepted provider now c p earlier (start u w₃) {s' = s₁} (
                                pay_out-eq_ok provider now c p earlier (start u w₃) {s' = s₁}
                                  (ground arith)) in
                            let same : s₁.transfer ≡ t = ground arith in
                            let (is_active, covered) =
                              hold-eq_ok now c p w₁ a {w' = w₂} (ground arith) in
                            (
                              p,
                              check-IsChecked c w p {w' = w₁} (ground arith),
                              is_active,
                              covered,
                              rw (← same) accepted,
                            )
                      ]
                ]
          ]
    ]
