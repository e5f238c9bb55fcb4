-- ===== src/Plant/Newest.antt =====
-- The newest message always gets through: it is the last on its way, or the module has it.
use icon_hwm_controller.Prelude.{◌≡◌, refl, sym, ap, ◌∙◌, List, [], ◌∷◌, ◌++◌, arith}
use icon_hwm_controller.OperationalStatus.{OperationalStatus}
use icon_hwm_controller.Hwm.Params.{on_operational_status}
use icon_hwm_controller.Hwm.Interfaces.{Loans}
use icon_hwm_controller.Threads.{Thread, Publisher, Reach, later}
use icon_hwm_controller.Cycle.{
  System as Module, Label, stored, Step as Cycles, lock, store, unlock, read, apply,
}
use icon_hwm_controller.Plant.{
  State, IsUnread, Step, works, loses, receives, cycles, Run, stays, steps, publishes,
}

abbrev last_or : OperationalStatus → List OperationalStatus → OperationalStatus
last_or o [] = o
last_or o (q ∷ rest) = last_or q rest

abbrev pub newest_or : OperationalStatus → List (Thread × OperationalStatus) → OperationalStatus
newest_or o [] = o
newest_or o ((by, q) ∷ seen) = q

last_or-append :
    (o q : OperationalStatus) (l : List OperationalStatus) → last_or o (l ++ (q ∷ [])) ≡ q
last_or-append o q [] = refl
last_or-append o q (r ∷ l) = last_or-append r q l

module _ (p : Publisher) (loans : Loans) where
  -- What the module has when all that is on its way has come in.
  abbrev pub told : State p loans → OperationalStatus
  told s = last_or s.hwm.hwm.latest_operational_status s.topic

  unread-latest :
      {m m' : Module loans} (l : Label)
      → Cycles loans m l m'
      → IsUnread l
      → m'.hwm.latest_operational_status ≡ m.hwm.latest_operational_status
  unread-latest l (lock free) u = refl
  unread-latest l (store msg mine) u = absurd u
  unread-latest l (unlock mine) u = refl
  unread-latest l (read states now e) u = refl
  unread-latest l (apply command e) u = refl

  stored-latest :
      {m m' : Module loans} (o : OperationalStatus) (l : Label)
      → l ≡ stored o
      → Cycles loans m l m'
      → m'.hwm.latest_operational_status ≡ o
  unfolding on_operational_status
  stored-latest o l e (store msg mine) = ground (arith, e)
  stored-latest o l e (lock free) = absurd (ground (arith, e))
  stored-latest o l e (unlock mine) = absurd (ground (arith, e))
  stored-latest o l e (read states now r) = absurd (ground (arith, e))
  stored-latest o l e (apply command r) = absurd (ground (arith, e))

  Step-told : {s t : State p loans} → Step p loans s t → told t ≡ told s
  Step-told (works st same) = refl
  Step-told {s} (loses o q rest e) = ap (last_or s.hwm.hwm.latest_operational_status) (sym e)
  Step-told {s} (receives o rest e st) =
      ap (λ (x : OperationalStatus). last_or x rest) (stored-latest o (stored o) refl st)
      ∙ ap (last_or s.hwm.hwm.latest_operational_status) (sym e)
  Step-told {s} (cycles {l} st u) =
      ap (λ (x : OperationalStatus). last_or x s.topic) (unread-latest l st u)

  -- The module is told the newest of what was published in a run.
  pub Run-told :
      {s t : State p loans} {seen : List (Thread × OperationalStatus)}
      → Run p loans s seen t
      → told t ≡ newest_or (told s) seen
  Run-told stays = refl
  Run-told (steps r st) = Step-told st ∙ Run-told r
  Run-told (publishes {t} by o r st e) =
      last_or-append t.hwm.hwm.latest_operational_status o t.topic

  -- The node passes through reachable states, and has published what the run says.
  pub Run-Reach :
      {s t : State p loans} {seen : List (Thread × OperationalStatus)}
      → Reach p s.node
      → Run p loans s seen t
      → Reach p t.node
  Run-Reach v stays = v
  Run-Reach v (steps r (works st same)) = later (Run-Reach v r) st
  Run-Reach v (steps r (loses o q rest e)) = Run-Reach v r
  Run-Reach v (steps r (receives o rest e st)) = Run-Reach v r
  Run-Reach v (steps r (cycles st u)) = Run-Reach v r
  Run-Reach v (publishes by o r st e) = later (Run-Reach v r) st

  pub Run-seen :
      {s t : State p loans} {seen : List (Thread × OperationalStatus)}
      → Run p loans s seen t
      → t.node.seen ≡ seen ++ s.node.seen
  Run-seen stays = refl
  Run-seen (steps r (works st same)) = same ∙ Run-seen r
  Run-seen (steps r (loses o q rest e)) = Run-seen r
  Run-seen (steps r (receives o rest e st)) = Run-seen r
  Run-seen (steps r (cycles st u)) = Run-seen r
  Run-seen (publishes by o r st e) =
      e ∙ ap (λ (l : List (Thread × OperationalStatus)). (by, o) ∷ l) (Run-seen r)

  -- The module has it, once nothing is on its way.
  pub drained-told :
      (t : State p loans) → t.topic ≡ [] → told t ≡ t.hwm.hwm.latest_operational_status
  drained-told t empty = ap (last_or t.hwm.hwm.latest_operational_status) empty
