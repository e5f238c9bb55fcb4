-- ===== src/Lib.antt =====
-- A model of the icon_hwm_controller packages: the ros2_control plugin that connects a robot to the
-- ICON real-time control service, and the three vendor nodes that tell it how the robot is doing.
--
-- The parts and how they interact. The plugin `IconHwmController` claims the joints' interfaces from
-- ros2_control, and when it is configured it builds a hardware module (`Ros2HwmImpl`) and gives it to
-- the ICON runtime. The runtime calls the module: the state transitions (`Prepare`, `EnableMotion`,
-- `ClearFaults`, ...), and in each cycle `ReadStatus` and `ApplyCommand`, which copy between the
-- loaned interfaces and the ICON buffers. A vendor node evaluates the messages of the robot's driver
-- into an `OperationalStatus`, publishes it, and offers a `clear_faults` service that recovers the
-- robot. The module subscribes to that status, which can refuse motion, and calls that service.
--
-- Files, and the code that each is about:
--   Hwm, Hwm/*       icon_hwm_controller/src/ros2_hwm_impl.cpp and its header. Params: `Create` and the
--                    status callback. Services: `CallSwitchController`, `CallSetHwState`. Transitions:
--                    the state transitions. Interfaces: `Init` and the two sides of a cycle. Strides:
--                    the indices of the loaned interfaces. Read: `ReadStatus`. Apply: `ApplyCommand`.
--   Controller, Controller/*
--                    icon_hwm_controller/src/icon_hwm_controller.cpp. Casts: the integer conversions.
--                    Params: the claimed interfaces, `on_init`, the parameters of the hardware module.
--                    Message: the published message. Logger: the logger of the constructor.
--                    Lifecycle: the callbacks, `update` and `PublishCurrentHwmState`, and in
--                    Stages the transitions of ros2_control as a step relation, beside which Timer
--                    has the callback of the timer, on its own thread.
--                    In Lifecycle, Complaints and Reasons say why a configuration fails, independently of
--                    the code.
--   Ur, Ur/*         icon_hwm_controller_examples/ur_ros2_icon_hwm/src/ur_operational_state_node.cpp.
--   Fanuc, Fanuc/*   the same for fanuc_ros2_icon_hwm, Khi, Khi/* for khi_ros2_icon_hwm. In each,
--                    Status: `ToOperationalStatus`. Node: the state and the callbacks. Recovery (in
--                    Khi/Node for Kawasaki): `ClearFaults` and its service. Setup: the constructor,
--                    and `main` of the file whose name ends in _main.cpp.
--                    Ur/Recovery/Plan is a table of what each safety mode calls for.
--   Ros, Serving     what the three constructors ask of ROS 2, and what a node is then able to do.
--   Reporter         the interface that the three nodes fill: a view of the messages and its
--                    evaluation, and what it is to implement that.
--   Threads          a vendor node's two threads, the topic callbacks and the `clear_faults` service: the
--                    mutex, and the publications that are made after it was given back, as a step
--                    relation. Ur, Fanuc and Khi fill its interface; Heard and Settled add the hardware
--                    module.
--   Cycle            the hardware module at work: realtime cycles, topic messages and the lock of the
--                    status box as a step relation with labels.
--   Plant            a vendor node with its two threads, the topic of its status and the hardware module
--                    at work, as one system.
--   Session          the calls that ICON's runtime makes of the hardware module through
--                    `HardwareModuleInterface`, in any order, with messages in between.
--   SharedClock      the realtime clock that the plugin owns and the hardware module resets.
--   Loopback         a command, and the read after it, over hardware that mirrors.
--   OperationalStatus, Status: the status message and the ICON library's status values.
--   Safety, Reactivation
--                    from a vendor's report, and from its recovery, to the hardware module.
--   Prelude          shared lemmas. Tests: concrete runs.
--
-- State and operations. A component's state is a record, and an operation is a function from it to
-- the result and the new state. Operations that call other processes take the trace of what was
-- sent, the newest first, and a record of services whose answers may depend on it; an answer that
-- did not come within its timeout is `none`. An access out of range, and a division by zero, is the
-- result `undefined` of `Checked`, so that its absence is a theorem. Loops recurse on the number of
-- joints or on a list. The only fuel is that of `decimal`: a number plus one, while each round
-- divides by ten. The topic callbacks that run beside a recovery are arguments of it: the node that
-- it starts from and the node at its end, or the reports that came in. In Threads a critical
-- section and the publication after it are two steps, so that the other thread may come in between.
-- A joint's index into the loaned interfaces is computed modulo 2 ^ 64, as a `size_t` is; theorems
-- ask for vectors of interfaces that a `size_t` can count. In Cycle the lock of the status box is
-- taken, used and given back in three steps, so that a cycle may fall in between. In Plant messages
-- are published to a queue and come in later. In Lifecycle/Timer the test of the runtime pointer and
-- its use are two steps, so that a cleanup may fall in between.
--
-- Parameters. The loaned interfaces of ros2_control, the ICON registry, runtime, clock and shared
-- memory, the ROS 2 middleware, rcutils and the drivers' services are not part of the repository, and
-- are arguments. The numeric codes of the drivers' messages and of the severities are records of
-- numbers; where a theorem needs them to differ it says so. Numbers of type `double` are an arbitrary
-- type. Callbacks of a mutually exclusive callback group run in turn, and all others may overlap when
-- the executor has several threads, as rclcpp documents. Messages of the status topic come in in the
-- order in which they were published, and a queue that is full gives up its oldest message, as the
-- DDS history `keep last` documents.
--
-- Not modelled: the texts that the code logs, the time that a wait takes, the generated parameter
-- listener, the quality of service of topics and services, the names that the build gives to the
-- ICON interface types, launch files, build files and tests, and the vendored shared memory
-- library.
pub mod Prelude
pub mod Status
pub mod OperationalStatus
pub mod Hwm
pub mod Cycle
pub mod Session
pub mod Loopback
pub mod Controller
pub mod Ur
pub mod Fanuc
pub mod Khi
pub mod Reporter
pub mod Threads
pub mod SharedClock
pub mod Plant
pub mod Ros
pub mod Serving
pub mod Reactivation
pub mod Safety
pub mod Tests
