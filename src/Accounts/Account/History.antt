-- ===== src/Accounts/Account/History.antt =====
-- An account's life as steps, one for each call of a method that changes it. The calls of one
-- aggregate between two `pullDomainEvents` are a chain of steps.
use kudi_ai.Common.{◌≡◌, ap, ◌∙◌, String, ℕ, ◌+◌, arith, List, [], ◌∷◌, ◌++◌, length, length-append}
use kudi_ai.Common.Int.{ℤ, pos, pos_part, neg_part, ◌+ℤ◌, ◌-ℤ◌, int_laws}
use kudi_ai.Shared.Errors.{ok}
use kudi_ai.Shared.Events.{
  DomainEvent, account_credited, account_debited, account_activated, account_frozen,
  account_unfrozen, account_closed,
}
use kudi_ai.Shared.Money.{Money}
use kudi_ai.Shared.Money.Laws.{IsAmount}
use kudi_ai.Accounts.Account.{Account, activate, credit, debit, freeze, unfreeze, close}
use kudi_ai.Accounts.Account.Laws.{credit-eq_ok, debit-eq_ok}
use kudi_ai.Accounts.Account.Invariant.{
  IsValid, activate-IsValid, credit-IsValid, debit-IsValid, freeze-IsValid, unfreeze-IsValid,
  close-IsValid,
}

pub data Step : Account → Account → Type 0 where
  activates : {a : Account} (now : ℕ) → Step a (activate now a)
  credits :
      {a b : Account} (now : ℕ) (m : Money) (reference : String)
      → IsAmount m
      → credit now m reference a ≡ ok b
      → Step a b
  debits :
      {a b : Account} (now : ℕ) (m : Money) (reference : String)
      → IsAmount m
      → debit now m reference a ≡ ok b
      → Step a b
  freezes : {a : Account} (now : ℕ) (reason : String) → Step a (freeze now reason a)
  unfreezes : {a : Account} (now : ℕ) → Step a (unfreeze now a)
  closes : {a b : Account} (now : ℕ) → close now a ≡ ok b → Step a b

pub data Reach (a : Account) : Account → Type 0 where
  here : Reach a a
  next : {b c : Account} → Reach a b → Step b c → Reach a c

-- What an event says of the balance, and the sum over a list of events.
abbrev pub movement : DomainEvent → ℤ
movement (account_credited _ amount _ _ _) = amount
movement (account_debited _ amount _ _ _) = pos 0 -ℤ amount
movement _ = pos 0

abbrev pub replay : List DomainEvent → ℤ
replay [] = pos 0
replay (e ∷ es) = movement e +ℤ replay es

replay-append :
    (es : List DomainEvent) (e : DomainEvent) → replay (es ++ e ∷ []) ≡ replay es +ℤ movement e
replay-append [] e = omega int_laws
replay-append (d ∷ es) e = rw (replay-append es e) (omega int_laws)

length-append_one :
    (es : List DomainEvent) (e : DomainEvent) → length (es ++ e ∷ []) ≡ length es + 1
length-append_one es e = omega (arith, length-append es (e ∷ []))

-- The new account against the old one: one event and one version for each step, the movements of
-- the events are the movement of the balance, and the identity of the account stays.
pub record IsAudited (a b : Account) : Type 0 where
  pub replayed :
      b.balance.minor_units +ℤ replay a.domain_events
      ≡ a.balance.minor_units +ℤ replay b.domain_events
  pub counted : length b.domain_events + a.version ≡ length a.domain_events + b.version
  pub same_id : b.id ≡ a.id
  pub same_owner : b.user_id ≡ a.user_id
  pub same_currency : b.currency ≡ a.currency

-- One step appends one event whose movement is the change of the balance.
record Appends (a b : Account) (e : DomainEvent) : Type 0 where
  events : b.domain_events ≡ a.domain_events ++ e ∷ []
  moved : b.balance.minor_units ≡ a.balance.minor_units +ℤ movement e
  version : b.version ≡ a.version + 1
  same_id : b.id ≡ a.id
  same_owner : b.user_id ≡ a.user_id
  same_currency : b.currency ≡ a.currency

+ℤ_zero : (x : ℤ) → x +ℤ pos 0 ≡ x
+ℤ_zero x = omega int_laws

-ℤ_as_+ℤ : (x y : ℤ) → x +ℤ (pos 0 -ℤ y) ≡ x -ℤ y
-ℤ_as_+ℤ x y = omega int_laws

replay_step : (x r y s m : ℤ) → x +ℤ r ≡ y +ℤ s → x +ℤ m +ℤ r ≡ y +ℤ (s +ℤ m)
replay_step x r y s m h = omega (int_laws, ap pos_part h, ap neg_part h)

Step-Appends : {a b : Account} → Step a b → (e : DomainEvent) × Appends a b e
unfolding activate freeze unfreeze close
Step-Appends {a} (activates now) =
    (account_activated a.id, ground (arith, +ℤ_zero a.balance.minor_units))
Step-Appends {a} (credits {b} now m r p h) =
    let (_, _, e) = credit-eq_ok now m r a b h in
    (account_credited a.id m.minor_units m.currency r b.balance.minor_units, ground arith)
Step-Appends {a} (debits {b} now m r p h) =
    let (_, _, _, e) = debit-eq_ok now m r a b h in
    (
      account_debited a.id m.minor_units m.currency r b.balance.minor_units,
      ground (arith, -ℤ_as_+ℤ a.balance.minor_units m.minor_units),
    )
Step-Appends {a} (freezes now r) =
    (account_frozen a.id r, ground (arith, +ℤ_zero a.balance.minor_units))
Step-Appends {a} (unfreezes now) =
    (account_unfrozen a.id, ground (arith, +ℤ_zero a.balance.minor_units))
Step-Appends {a} (closes now h) =
    (account_closed a.id, ground (arith, +ℤ_zero a.balance.minor_units))

Step-IsValid : {a b : Account} → Step a b → IsValid a → IsValid b
Step-IsValid {a} (activates now) v = activate-IsValid now a v
Step-IsValid {a} (credits {b} now m r p h) v = credit-IsValid now m r a b p v h
Step-IsValid {a} (debits {b} now m r p h) v = debit-IsValid now m r a b v h
Step-IsValid {a} (freezes now r) v = freeze-IsValid now r a v
Step-IsValid {a} (unfreezes now) v = unfreeze-IsValid now a v
Step-IsValid {a} (closes {b} now h) v = close-IsValid now a b v h

Appends-IsAudited :
    {a b c : Account} (e : DomainEvent) → IsAudited a b → Appends b c e → IsAudited a c
Appends-IsAudited {a} {b} {c} e h p = record {
  replayed =
      rw (p.events, replay-append b.domain_events e, p.moved)
        (replay_step b.balance.minor_units (replay a.domain_events) a.balance.minor_units
          (replay b.domain_events) (movement e) h.replayed);
  counted =
      rw (p.events, length-append_one b.domain_events e, p.version) (omega (arith, h.counted));
  same_id = p.same_id ∙ h.same_id;
  same_owner = p.same_owner ∙ h.same_owner;
  same_currency = p.same_currency ∙ h.same_currency;
}

-- Whatever calls an account goes through, it stays valid, its events account for every change of
-- its balance and count the versions, and its id, owner and currency never change.
pub Reach-IsAudited : {a b : Account} → IsValid a → Reach a b → IsValid b × IsAudited a b
Reach-IsAudited v here = (v, ground arith)
Reach-IsAudited v (next r s) =
    let (w, h) = Reach-IsAudited v r in
    let (e, p) = Step-Appends s in (Step-IsValid s w, Appends-IsAudited e h p)
