-- ===== src/Lib.antt =====
-- The drivers of the KU polishing robot (catkin_ws/src): ROS nodes that each own one bus and turn
-- topics into bus frames and bus frames into topics. They meet only on topics: the base controller
-- commands the motor driver node over /motor/cmd and reads its /motor/velocity, and no node of the
-- repository reads what the lift driver, the safety node, the battery driver and the Crevis driver
-- publish.
--
-- Lift driver (lift_driver/src/lift_driver_node.cpp, lift_driver/include): an RS485 motor drive.
--   Lift/Protocol: `sendFrame` and the frames of the commands; Lift/Receive: the frame scan of
--   `readAndParse`; Lift/Driver: the members of `LiftDriver`, its parameters and the shared
--   operations (`sendVelocity`, `atLowerLimit`, `manualUpSpeed`, `cancelResume`); Lift/Alarm:
--   `updateAlarm`, `requestAlarmReset`, `resumeAfterAlarm`; Lift/Motion: `updateMotion`,
--   `releaseIfBlocked`; Lift/Commands: the topic callbacks; Lift/Poll: `handleFrame` and
--   `pollTimer`; Lift/Events: the constructor and one step for each callback or tick, in the order
--   in which the single spinner thread runs them. Invariants stand in Lift/Invariant, the start and
--   the end of homing in Lift/Homing, single behaviours in Lift/Safety, and homing as a history of
--   readings in Lift/Safety/Origin. Lift/Status: `modeStr`, `decodeStatus`, `decodeDi`;
--   Lift/Serial: `SerialInterface` (lift_driver/src/serial_interface.cpp). Frames sent and messages
--   published are lists in the state, newest first.
-- Safety I/O driver (safety_io_driver/src/safety_io_node.cpp): polls a Modbus/TCP module and
--   publishes the emergency stop. SafetyIo/Modbus: `receiveAll`, `transact`, `readDiscreteInputs`;
--   SafetyIo/Node: `loadSignals`, `addEstopSource`, and `poll`, which uses the client's reads;
--   SafetyIo/Socket: `openSocket`, `closeSocket`, `sendAll`; SafetyIo/Setup: the checks and the
--   tables of the constructor; SafetyIo/Lock: `DeviceLock` and the nodes of one machine;
--   SafetyIo/Life: the constructor, one `poll` for each tick, `reportConnectionState`, the
--   destructor.
-- CAN interface (can_interface/src/can_interface.cpp): Can: `open`, `close`, the overloads of
--   `write` and the read loop, over the answers of the system calls.
-- Drive motors (motor_driver/src/motor_controller.cpp): CANopen drives. Motor/CanOpen: identifiers;
--   Motor/Cia402: `get_cia402_state`; Motor/Controller: `can_callback`, the marks of a
--   re-initialisation and the state that `configure_node` sets around its writes, with `init` in
--   its child Setup; Motor/Mapping: the frames of `configure_node` and `setup_pdo_mapping`, with
--   the objects of a drive in Motor/Mapping/Dictionary; Motor/Enable: `wait_for_state`,
--   `enable_motor`, `disable_motor`, `reset_motor` over a drive as an argument; Motor/Velocity:
--   speeds, `sync_loop`, alarms and `get_status`.
-- Motor driver node (motor_driver/src/motor_driver_node.cpp): Motor/Node: the parameters,
--   `cmdCallback`, `updateEnableState`, `controlLoop`, which use Motor/Velocity and
--   Motor/Controller; Motor/Node/Threads: the spinner and the detached threads as a step relation,
--   each step what a thread does between two accesses of a shared flag, with the outcome of the
--   controller's calls open. Motor/Node/Live: the whole node, in which callbacks, received frames
--   and those threads change the same motor states; Live/Simulation takes its flags and threads as
--   that step relation. Motor/Node/Races: a round of `sync_loop` beside `cmdCallback`, access by
--   access.
-- Base controller (motor_driver/src/base_controller_node.cpp): BaseController: `cmdVelCallback`,
--   `controlTimer`, `velocityCallback`.
-- Drive train (the three of motor_driver together): CommandPath: from `controlTimer` over the
--   frames of `sync_loop` and the reports of the drives to `velocityCallback`; CommandPath/Stopped:
--   a `/cmd_vel` that has ended.
-- Crevis I/O driver (crevis_io_driver/src/crevis_io_node.cpp): Crevis/Modbus: the class
--   `ModbusTcp`; Crevis/Node: `writeOutputLocked`, `syncOutputShadowLocked`, `poll`, which take
--   what the client's reads and writes give; Crevis/Node/Outputs: what a frame does to a module's
--   outputs; Crevis/Wire: the same operations over the client, each read and write a transaction in
--   bytes, and Crevis/Wire/Writes relates the two; Crevis/Wire/Closing: `onShutdown`.
-- Battery driver (bms_driver/src/bms_driver_node.cpp): Bms: `sendRequest`, `pollTimer`,
--   `canCallback`, `publishTimer`.
-- ParamServer: the parameter server; Lift/Params, Motor/Node/Params, BaseController/Params,
--   Bms/Params: the constructors' parameters and their defaults.
-- Base: numbers, lists, signed integers, bytes. Tests: runs at concrete inputs.
--
-- Numbers: bytes and words are natural numbers with each cast written as `%` or as two's
-- complement; signed values are integers. Times are nanoseconds, and a handler reads the clock
-- once. Loops run on fuel that is the length of the data they consume: each round of the frame scan
-- drops at least one byte, and each round of `receiveAll` takes one answer of `recv`, so the fuel
-- is not used up before the loop ends. `wait_for_state` runs for as many rounds of 10 ms as fit
-- into its timeout, 200 for 2000 ms, and each drive sees the waits of its own node. Conversions
-- that need floating point are parameters (`post_home_scaled`, the records `Speeds`, `Numbers`,
-- `Doubles` and `Floats`, the abstract speeds of the motor controller).
--
-- Arguments that stand for code and devices outside the repository: the bytes that the serial port
-- delivers, the answers of `socket`, `ioctl`, `bind`, `connect`, `send`, `recv` and `read`, the
-- values of the parameter server, the clock, a drive behind the CAN bus (the records `Bus` and
-- `Drive`), whether a frame to the Crevis module is answered, unanswered or lost (`Fate`), in bytes
-- the module itself (`Module`, with what the code relies on as `IsModule`: it may refuse the
-- function that the code sends for the output register, since the quoted manual does not list it)
-- and what the connection makes of each transaction (`Link`), and the kernel's locks of files
-- (`Kernel`, with the manual of flock(2) as `Flock`).
--
-- Not modelled: log texts and the text of status messages, mutexes (each handler is one step; the
-- threads of the motor driver node have steps of their own), the sync thread beside other writers
-- of the speeds than `cmdCallback`, terminal attributes, topic names with the prefix of the safety
-- driver, the defaults of the parameters of the safety and the Crevis driver, the `main` functions,
-- and the Python and shell tools.
pub mod Base
pub mod ParamServer
pub mod Lift
pub mod SafetyIo
pub mod Motor
pub mod Can
pub mod CommandPath
pub mod BaseController
pub mod Crevis
pub mod Bms
pub mod Tests
