-- ===== src/Threads/Vendors.antt =====
-- What subscribers of the three vendor nodes may rely on, however the threads interleave.
use icon_hwm_controller.Prelude.{◌≡◌, refl, none}
use icon_hwm_controller.Threads.{idle, copied, System, Reach, later, service_locks}
use icon_hwm_controller.Threads.Current.{AllPassed, seen-AllPassed}
use icon_hwm_controller.Threads.Fresh.{NewestSays, Reach-NewestSays}
use icon_hwm_controller.Threads.Stale.{IsLate, copied-IsLate}
use icon_hwm_controller.Threads.Ur.{copies as ur_copies, ur_threads, ur_only_copies}
use icon_hwm_controller.Threads.Fanuc.{fanuc_threads, fanuc_only_copies}
use icon_hwm_controller.Threads.Khi.{clears, copies as khi_copies, khi_threads}
use icon_hwm_controller.Ur.Status.{SafetyMode, RobotMode}
use icon_hwm_controller.Ur.Node.{
  Callback as UrCallback, dispatch as ur_dispatch, publish_operational_status,
}
use icon_hwm_controller.Fanuc.Status.{ContactStopMode}
use icon_hwm_controller.Khi.Status.{ErrorInfo, all_fine}
use icon_hwm_controller.Khi.Node.{
  error_info_callback, on_error_info, dispatch as khi_dispatch,
  publish_operational_status as khi_publish,
}

-- However the callbacks and a recovery interleave, each message that one of the three nodes has
-- published was the node's status in one of the states that it passed through.
pub published_was_current :
    (sm : SafetyMode) (rm : RobotMode) (modes : ContactStopMode) {u : System (ur_threads sm rm)}
    {f : System (fanuc_threads modes)} {k : System khi_threads} (ur : Reach (ur_threads sm rm) u)
    (fanuc : Reach (fanuc_threads modes) f) (khi : Reach khi_threads k)
    → AllPassed (ur_threads sm rm) ur u.seen
      × AllPassed (fanuc_threads modes) fanuc f.seen
      × AllPassed khi_threads khi k.seen
published_was_current sm rm modes ur fanuc khi = (
  seen-AllPassed (ur_threads sm rm) ur,
  seen-AllPassed (fanuc_threads modes) fanuc,
  seen-AllPassed khi_threads khi,
)

-- However the callbacks and a recovery interleave, while no callback runs the newest message that the
-- Universal Robots node or the FANUC node has published is the node's status, unless a recovery
-- published it or nothing was published yet.
pub newest_is_current :
    (sm : SafetyMode) (rm : RobotMode) (modes : ContactStopMode) {u : System (ur_threads sm rm)}
    {f : System (fanuc_threads modes)}
    → Reach (ur_threads sm rm) u
    → Reach (fanuc_threads modes) f
    → u.topic ≡ none
    → f.topic ≡ none
    → NewestSays u.seen u.node.operational_status × NewestSays f.seen f.node.operational_status
newest_is_current sm rm modes ur fanuc out out' = (
  Reach-NewestSays (ur_threads sm rm) (ur_only_copies sm rm) ur out,
  Reach-NewestSays (fanuc_threads modes) (fanuc_only_copies modes) fanuc out',
)

-- From every state of the Universal Robots node in which no thread runs, a recovery can publish the
-- status of that state after a callback has changed it and has published the new one: the node then
-- says the new status, and what its subscribers saw last is the old one.
pub ur_recovery-IsLate :
    (sm : SafetyMode) (rm : RobotMode) {s : System (ur_threads sm rm)} (m : UrCallback)
    → Reach (ur_threads sm rm) s
    → s.topic ≡ none
    → s.service ≡ idle
    → IsLate (ur_threads sm rm) s (ur_dispatch sm rm s.node m).1 s.node.operational_status
unfolding publish_operational_status
ur_recovery-IsLate sm rm {s} m r out free =
    let late =
      copied-IsLate (ur_threads sm rm) (record s { service = copied s.node.operational_status })
        s.node.operational_status m (later r (service_locks (ur_copies free refl refl))) out refl in
    record {
      after = late.after;
      reached = late.reached;
      topic_out = late.topic_out;
      service_out = late.service_out;
      node_says = late.node_says;
      saw = late.saw;
    }

-- From every state of the Kawasaki node in which no thread runs, a reset can publish that all is fine
-- after a report of an error has come in and was published: the node then says the error, and what its
-- subscribers saw last is that all is fine.
pub khi_reset-IsLate :
    {s : System khi_threads} (e : ErrorInfo)
    → Reach khi_threads s
    → s.topic ≡ none
    → s.service ≡ idle
    → IsLate khi_threads s (khi_dispatch s.node (error_info_callback e)).1 all_fine
unfolding khi_publish khi_dispatch on_error_info
khi_reset-IsLate {s} e r out free =
    let late =
      copied-IsLate khi_threads
        (record s { node = record { operational_status = all_fine }; service = copied all_fine })
        all_fine (error_info_callback e)
        (later (later r (service_locks (clears free refl refl)))
          (service_locks (khi_copies refl refl refl)))
        out refl in
    record {
      after = late.after;
      reached = late.reached;
      topic_out = late.topic_out;
      service_out = late.service_out;
      node_says = late.node_says;
      saw = late.saw;
    }
