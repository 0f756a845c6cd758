-- ===== src/Lib.antt =====
-- Actuator: a simulator that distributes task batches from a coordinator to satellites, whose
-- executors run behaviour trees. This library models the parts below and proves what they guarantee.
--
-- The program's parts and their files:
--   src/executor/variable_manager.{h,cpp}     Value, Variables: VariableValue; the three scopes, lookups
--                                             and snapshots (set, get, exists, clearScope, setFromParams,
--                                             createSnapshot, restoreSnapshot); Variables/Config:
--                                             loadFromScheduleConfig.
--   src/constraint/evaluator.{h,cpp}          Constraint: tokenize, the recursive descent parser, which
--                                             evaluates as it reads, compare, evaluateDetailed.
--   src/parser/behavior_parser.cpp,
--   src/core/types.h                          Behavior: the trees, replaceVariables, instantiate.
--   src/executor/generic_executor.{h,cpp}     Executor: NumericExpressionParser (Expression),
--                                             evaluateValueExpression (Expressions), the built-in commands
--                                             (Commands), executeNode and the composite nodes (Nodes),
--                                             executeTask and its rollback (Tasks); initialize, shutdown
--                                             and workerLoop (Workers).
--   src/coordinator/message_types.h           Messages: enumerations, headers, messages; Messages/Names:
--                                             the printing functions.
--   src/coordinator/inter_sat_comm.{h,cpp}    Wire: serialize and deserializeMessage; Wire/Frame: sendData
--                                             and receiveData. Comm: the message queue (Queue), the nodes,
--                                             timeouts and local handlers (Nodes), sendMessage and the
--                                             sending thread (Send), the receiving thread and
--                                             processReceivedMessage (Receive), start and stop (Life).
--   src/coordinator/node_registry.{h,cpp}     Registry: nodes and their aliases.
--   src/parser/json_parser.{h,cpp}            Input: the behaviour library; Input/Schedule: the schedule.
--   JSON payloads of the three files
--   inter_sat_comm, coordinator and
--   satellite_simulator                       Json: the values; Payloads: what is printed and read.
--   src/coordinator/coordinator.{h,cpp}       Coordinator: how run and onCoordinatorBatchAck track the
--                                             satellites until the wait is over; Router:
--                                             handleCoordinatorMessage; Dispatch: registerSatelliteNodes,
--                                             the local handlers and distributeAllTasks;
--                                             Setup: initialize; Run: run and stop; Close: shutdown.
--   src/executor/satellite_simulator.cpp      Simulator: handleBatchTaskAssign and executeSingleTask;
--                                             Simulator/Handler: handleMessage; Simulator/Life:
--                                             initialize and shutdown.
--   src/core/logger.h                         Logger: levels, prefixes and what is printed.
--
-- How they interact: the coordinator reads the schedule, registers its satellites, and sends each its
-- tasks as one batch through sendMessage, which hands it to the satellite's local handler or, for a
-- remote node, queues it for the sending thread. The simulator runs the tasks one after the other on its
-- executor and acknowledges the batch, which the coordinator records. executeTask instantiates a
-- behaviour, prepares the variables, takes a snapshot and runs the tree. Conditions and preconditions go
-- to the constraint evaluator, parameters of commands to evaluateValueExpression; both read the same
-- variable manager, to which the commands write. SEND and RECEIVE share one mailbox for the whole process.
-- Messages carry JSON payloads and are serialized and framed on sockets; the registry resolves the names
-- of a satellite.
--
-- State. A method that holds its object's mutex is one step from state to state. Code that may throw
-- returns a Result; what it wrote before the throw stays (Executor/Runtime). Maps are association lists
-- in the order of their keys, as std::map keeps them (Dict). Texts are lists of bytes or code points.
-- Each round of a thread of the communication module is a step too; what it does outside (calls of
-- handlers, bytes on sockets, sockets closed) is a list of events in order. The worker threads of an
-- executor and the thread that shuts it down take turns in any order, each turn up to the next point where
-- another thread can be noticed (Executor/Workers). The flag that another thread sets to cancel a task is
-- a number of reads after which it is found set.
--
-- Bounds. int is 32 bits wide where it is read from text (Text/Numerals); the fields on the wire have the
-- widths of message_types.h; the snapshot counter wraps at 2 ^ 32; a frame holds at most 8 MiB. The parser
-- of conditions runs on five calls for each token and five more (Constraint/Termination), the numeric parser
-- on four calls for each character and four more (Executor/Expression/Termination), and the tokenizer on one
-- round for each character (Constraint/Tokens/Fuel): the files named show that none of them runs out.
--
-- Not modelled. Doubles are not code of the repository: their operations are the interface Floating of
-- Value, and no law of theirs is assumed. The JSON library (src/third_party) is the interface JsonLibrary
-- of Json: where a theorem needs that a value is read back as it was printed, that is a hypothesis on that
-- value. Sockets, clocks and select answer through arguments. A wait on a condition variable ends only when
-- it is notified. The log lines that the components write, the elapsed times, main.cpp and the sleeping of
-- the heartbeat thread are left out, and so are callbacks that throw and promises that two tasks of an
-- executor's queue share. No code fills that queue: it is an argument. What the threads of the communication
-- module still do while stop waits for them is an argument too, and so is, in register_node_through, the
-- text that registerNode reads through its reference into an alias it has erased; register_node, which the
-- coordinator's model calls, is the case that this text still reads as before.
--
-- Examples holds concrete inputs and runs.
pub mod Prelude
pub mod Text
pub mod Dict
pub mod Result
pub mod Value
pub mod Variables
pub mod Constraint
pub mod Behavior
pub mod Executor
pub mod Messages
pub mod Registry
pub mod Wire
pub mod Json
pub mod Payloads
pub mod Comm
pub mod Input
pub mod Logger
pub mod Examples
pub mod Coordinator
pub mod Simulator
