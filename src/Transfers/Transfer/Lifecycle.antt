-- ===== src/Transfers/Transfer/Lifecycle.antt =====
-- The life of a transfer: a settled transfer never changes again, and is settled once.
use kudi_ai.Common.{
  ◌≡◌, refl, String, ℕ, suc, ◌+◌, arith, Bool, true, false, Option, List, [], ◌∷◌, ◌++◌,
  if◌then◌else◌,
}
use kudi_ai.Shared.Enums.{is_terminal}
use kudi_ai.Shared.Errors.{ok}
use kudi_ai.Shared.Events.{DomainEvent, transfer_completed, transfer_failed, transfer_reversed}
use kudi_ai.Transfers.Transfer.{
  Transfer, mark_processing, mark_successful, mark_failed, mark_reversed,
}

pub data Step : Transfer → Transfer → Type 0 where
  processing :
      {t u : Transfer} (now : ℕ) (provider_reference : Option String)
      → mark_processing now provider_reference t ≡ ok u
      → Step t u
  successful : {t u : Transfer} (now : ℕ) → mark_successful now t ≡ ok u → Step t u
  failed : {t u : Transfer} (now : ℕ) (reason : String) → mark_failed now reason t ≡ ok u → Step t u
  reversed :
      {t u : Transfer} (now : ℕ) (reason : String) → mark_reversed now reason t ≡ ok u → Step t u

pub data Reach (t : Transfer) : Transfer → Type 0 where
  here : Reach t t
  next : {u v : Transfer} → Reach t u → Step u v → Reach t v

-- How many of the events settle the transfer.
abbrev pub is_settlement : DomainEvent → Bool
is_settlement (transfer_completed _ _) = true
is_settlement (transfer_failed _ _ _) = true
is_settlement (transfer_reversed _ _) = true
is_settlement _ = false

abbrev pub settlements : List DomainEvent → ℕ
settlements [] = 0
settlements (e ∷ es) = if is_settlement e then suc (settlements es) else settlements es

settlements-append_one :
    (es : List DomainEvent) (e : DomainEvent)
    → settlements (es ++ e ∷ []) ≡ settlements es + (if is_settlement e then 1 else 0)
settlements-append_one [] e = ground arith
settlements-append_one (d ∷ es) e = ground (arith, settlements-append_one es e)

abbrev pub settled : Transfer → ℕ
settled t = if is_terminal t.status then 1 else 0

-- The events that t has got on its way to u settle it exactly if it was not settled and is now, and
-- then once.
abbrev pub IsSettledOnce : Transfer → Transfer → Type 0
IsSettledOnce t u =
    settlements u.domain_events + settled t ≡ settlements t.domain_events + settled u

Step-source : {t u : Transfer} → Step t u → is_terminal t.status ≡ false
unfolding mark_processing mark_successful mark_failed mark_reversed
Step-source (processing now p h) = ground arith
Step-source (successful now h) = ground arith
Step-source (failed now r h) = ground arith
Step-source (reversed now r h) = ground arith

Step-IsSettledOnce : {t u : Transfer} → Step t u → IsSettledOnce t u
unfolding mark_processing mark_successful mark_failed mark_reversed
Step-IsSettledOnce {t} (processing now p h) = ground arith
Step-IsSettledOnce {t} (successful now h) =
    ground (arith, settlements-append_one t.domain_events (transfer_completed t.id t.reference))
Step-IsSettledOnce {t} (failed now r h) =
    ground (arith, settlements-append_one t.domain_events (transfer_failed t.id t.reference r))
Step-IsSettledOnce {t} (reversed now r h) =
    ground (arith, settlements-append_one t.domain_events (transfer_reversed t.id t.reference))

-- Whatever calls lead from a transfer to another, that of a row of the database included: their
-- settling events are one where they settle the transfer and none otherwise, and from a settled
-- transfer no call that goes through leads anywhere.
pub Reach-IsSettledOnce :
    {t u : Transfer} → Reach t u → IsSettledOnce t u × (is_terminal t.status ≡ true → u ≡ t)
Reach-IsSettledOnce here = (refl, λ e. refl)
Reach-IsSettledOnce {t} (next {u} r s) =
    let (once, stay) = Reach-IsSettledOnce r in
    let step = Step-IsSettledOnce s in
    (ground arith, λ e. absurd (no_step u (stay e) e (Step-source s)))
  where
    no_step :
        (u : Transfer) → u ≡ t → is_terminal t.status ≡ true → is_terminal u.status ≡ false → ⊥
    no_step u same e f = ground arith
