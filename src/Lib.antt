-- ===== src/Lib.antt =====
-- A verification library for the wavemaker drivers: the path of a command from a named tag over
-- the process image, the cyclic gateway driver and Modbus/TCP to the PROFIBUS gateway, and the
-- drive object with its safety reactions on top of it.
--
-- The parts, with the files of drivers/mgate5101_driver that they model:
--   Image: src/process_image.cpp and include/mgate/process_image.h. An area is the list of its
--     bytes. Image.Order has the byte orders, Image.Types the data types and tags, Image.Access
--     the typed getters and setters by offset, Image.Tags the access by tag, Image.Registers
--     the conversion from and to registers.
--   Modbus: src/modbus_tcp.cpp and include/mgate/modbus_tcp.h. Modbus.Names has the results and
--     their texts, Modbus.Wire the frames, Modbus.Socket the operating system's socket as a
--     parameter with POSIX's promises, Modbus.Client the client, Modbus.Port what the cyclic
--     driver uses of a client, with the Modbus promises on a device's registers.
--   Driver: src/mgate_driver.cpp and include/mgate/mgate_driver.h. Driver.State has the state,
--     Driver.Registry the tags, Driver.Staging the methods of the application's threads,
--     Driver.Transfer and Driver.Exchange the poll thread.
--   Drive: src/indradrive.cpp and include/mgate/indradrive.h. Drive.Types has the state and the
--     tags, Drive.Status what the drive reports, Drive.Control the control word, the fault latch,
--     the cycle callback and the waiting loop, Drive.Commands the blocking commands.
--   Actuator: wavemaker_controller/src/indradrive_actuator.cpp. Actuator.Config is the constructor
--     with its checks, Actuator.Commands the operations that the wavemaker node calls.
--   Wave: wavemaker_controller/src/wave_math.cpp and wave_trajectory.cpp. Wave.Math has the blend,
--     the dispersion relation, the stroke and the gain table, Wave.Trajectory the two kinds of
--     trajectory, Wave.Peak their peak speeds; sine, tanh and the like are the fields of `Analysis`.
--   Bridge: wavemaker_controller/src/wavemaker_bridge.cpp, the node between the operator's topics and
--     the wavemaker's action server. Bridge.Types has its state, Bridge.Reports, Bridge.Goals and
--     Bridge.Lifecycle its functions, Bridge.Events the steps that can happen, in any order.
--   Node: wavemaker_controller/src/wavemaker_node.cpp, the lifecycle node that runs the wavemaker.
--     Node.Types has the actuator interface of wavemaker_actuator.hpp, the state and what goes to the
--     outside, Node.Config the checks of the parameters, Node.Goals the acceptance of goals,
--     Node.Execute and Node.Upright what the execution thread runs, Node.Workers that thread and the
--     services, Node.Lifecycle the lifecycle, the soft stop and the faults.
--   Base: the shared names, lists, words and exceptions.
--
-- Conventions. An operation that may throw returns an `Outcome`; a setter or command returns the
-- new state. Unsigned arithmetic that can wrap has its wrap written out. A `double` is a value of
-- a type that `FloatOps` gives with the operations used: nothing is assumed of floating point
-- unless a theorem names it. Each locked region of the cyclic driver is one function; where the
-- source leaves a mutex or sleeps, the model has a parameter for what the other threads do there
-- (`gap1` and `gap2` of `flush_span_with`, `gap` of `halt_with`, `elapse` of the waits).
--
-- Loops. The send and receive loops run on fuel that is the number of bytes or registers left,
-- since each round moves one at least. A wait runs on one round for each 20 ms of its timeout and
-- one more; on no fuel it ends as at its deadline, and a theorem says that more fuel gives the
-- same.
--
-- ROS. The bridge's executor has one thread, so that each callback is one step. Its messages, goals,
-- cancellations and replies are the list `effects`, the latest first; a goal and its handle are the
-- generation that the source numbers it with; whether the action server is ready is an argument.
-- Times are nanoseconds of the steady clock. A function of the wavemaker node that may throw gives the
-- state that it leaves beside the outcome (`Tried`); each of its regions under a mutex is one
-- function. What the execution thread does while another thread joins it, and what the other threads
-- do while it sleeps, are `join` and `sleep` of `NodeEnv`. The loops of that thread run on fuel, one
-- unit for each round; the result says whether the fuel lasted.
--
-- Limits. The program tests limits by `<` and `>`, which a value that is not a number passes; where a
-- statement says that a value does not compare as beyond its limits, no more is meant. A device is
-- described for 16-bit addresses and words, which are those of the requests that are sent.
--
-- Not modelled: what an access does after a bounds check whose sum wraps (it ends in the error
-- `undefined_access`); the declaration of parameters, the log lines and the programs' main
-- functions; the tests, examples, launch files and web server. In the drivers: the platform shims around sockets,
-- the snapshots, and the order in which the poll thread and the application interleave beyond the
-- parameters above.
pub mod Base
pub mod Image
pub mod Modbus
pub mod Driver
pub mod Drive
pub mod Wave
pub mod Actuator
pub mod Bridge
pub mod Node
