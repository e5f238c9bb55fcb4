-- ===== src/Cycle/Halted.antt =====
-- A forbidding status stops the robot for good: no cycle writes until another status is stored.
use icon_hwm_controller.Prelude.{◌≡◌, refl, ◌∙◌, Bool, true, false, List, [], ◌∷◌, arith, not}
use icon_hwm_controller.Status.{Status, Expected, done}
use icon_hwm_controller.Hwm.Params.{Hwm, on_operational_status}
use icon_hwm_controller.Hwm.Interfaces.{Loans}
use icon_hwm_controller.Hwm.Apply.{Command, apply_command}
use icon_hwm_controller.Hwm.Apply.Guards.{Forbids, apply_command_blocked}
use icon_hwm_controller.Cycle.{
  System, Label, stored, commanded, internal, Step, lock, store, unlock, read, apply, Run, here,
  next,
}

-- A label that lets a halted robot stay halted: what is stored forbids motion too, and no cycle falls
-- into the time in which another thread has the lock.
abbrev pub IsCalm : Label → Type 0
IsCalm (stored msg) = Forbids msg
IsCalm (commanded held) = held ≡ false
IsCalm internal = Unit

abbrev pub AllCalm : List Label → Type 0
AllCalm [] = Unit
AllCalm (l ∷ ls) = IsCalm l × AllCalm ls

module _ (loans : Loans) where
  abbrev IsHalted : System loans → Type 0
  IsHalted s = Forbids s.hwm.latest_operational_status

  blocked_command :
      (h : Hwm) (held : Bool) (command : Expected (Command loans.Double))
      (is is' : List loans.CommandInterface) (r : Status)
      → Forbids h.latest_operational_status
      → held ≡ false
      → apply_command loans h (not held) command is ≡ done (r, is')
      → is' ≡ is
  blocked_command h true command is is' r f free e = absurd (ground arith)
  blocked_command h false command is is' r f free e =
      let (s, run, code) = apply_command_blocked loans h command is f in cc (run, e)

  Step-IsHalted :
      {s t : System loans} {l : Label}
      → Step loans s l t
      → IsCalm l
      → IsHalted s
      → IsHalted t × (t.interfaces ≡ s.interfaces)
  unfolding on_operational_status
  Step-IsHalted (lock free) c h = (h, refl)
  Step-IsHalted (store msg mine) c h = (c, refl)
  Step-IsHalted (unlock mine) c h = (h, refl)
  Step-IsHalted (read states now e) c h = (h, refl)
  Step-IsHalted {s} (apply command e) c h =
      (h, blocked_command s.hwm s.held command s.interfaces _ _ h c e)

  -- From a state whose latest status is disabled or faulted, a run in which only such statuses are
  -- stored and no command falls into the time in which another thread has the lock of the status
  -- leaves every command interface as it was, and ends in such a state.
  pub halted_until_released :
      {s t : System loans} {ls : List Label}
      → Run loans s ls t
      → AllCalm ls
      → Forbids s.hwm.latest_operational_status
      → Forbids t.hwm.latest_operational_status × (t.interfaces ≡ s.interfaces)
  halted_until_released here c h = (h, refl)
  halted_until_released (next st r) (c, cs) h =
      let (h', same) = Step-IsHalted st c h in
      let (h'', rest) = halted_until_released r cs h' in (h'', rest ∙ same)
