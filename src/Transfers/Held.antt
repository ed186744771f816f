-- ===== src/Transfers/Held.antt =====
-- The world together with the object `transfer` that a call holds: what was done to the object
-- stays done where the database was put back, and in the catch block.
use kudi_ai.Shared.Errors.{Result, ok, err}
use kudi_ai.Shared.Action.{Action}
use kudi_ai.Database.{World}
use kudi_ai.Transfers.Transfer.{Transfer}

-- The world, and the transfer that the call holds.
pub record Held : Type 0 where
  pub world : World
  pub transfer : Transfer

abbrev pub lift_world : {A : Type 0} → Transfer → Result A × World → Result A × Held
lift_world t (r, w) = (r, record { world = w; transfer = t })

abbrev pub on_world : {A : Type 0} → Action World A → Action Held A
on_world m s = lift_world s.transfer (m s.world)

abbrev pub changed_transfer : Held → Result Transfer → Result (Unit {0}) × Held
changed_transfer s (ok t) = (ok tt, record s { transfer = t })
changed_transfer s (err e) = (err e, s)

-- A method of the transfer that changes it, or throws and leaves it.
abbrev pub on_transfer : (Transfer → Result Transfer) → Action Held (Unit {0})
on_transfer f s = changed_transfer s (f s.transfer)
