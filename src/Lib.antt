-- ===== src/Lib.antt =====
-- Livi: the design agent's core logic, modelled and verified.
--
-- Livi is an agent that furnishes rooms in a Studio, built on a general agent runtime. Prompts reach
-- the agent runtime (packages/agent), whose lanes run model turns and tools; the decorator agent
-- (packages/decorator-agent) adds the tools that act on a Studio, keeps the commands of a request in a
-- journal and routes them through a broker to the connected Studio. Clients talk to the server over
-- framed CBOR messages (packages/protocol), and follow a lane by reducing its events.
--
-- Prelude: shared names, Boolean tests, equality as an instance, list lemmas, and JavaScript's Map as
--   an association list in insertion order (Prelude/Assoc).
-- Studio/Contract: packages/decorator-agent/src/services/studio.ts and agent-controller.ts.
-- Studio/Journal: packages/decorator-agent/src/studio-journal.ts. The class StudioJournal is the record
--   Journal; mutationBlocked, blockMutations, binding, setBinding, admit, discardAdmission, admission,
--   planning, plan, records, get, prepare, dispatch, settle and cancelPrepared are the functions of
--   these names in snake case. A Boolean argument says whether the session storage accepted the write.
--   Journal/Calls is the step relation of all calls, as a function.
-- Studio/Broker: packages/decorator-agent/src/studio-broker.ts. Broker/Connections has attach, register,
--   ready, publishContext, publishSelection; Broker/Requests has finish, release, request, close and the
--   ends of a wait; Broker/Replies has respond and its tests. A connection object is named by the number
--   of its attachment, since an attachment registers once.
-- Studio/Runtime: bind, prepare and execute of packages/decorator-agent/src/studio-session.ts, on the
--   journal. What else is called while the broker is waited for is a list of calls on the journal.
--   Runtime/Context is its context, with what the broker answers and what is called meanwhile.
-- Session: the types of packages/agent/src/harness/session/types.ts and values.ts, and the sums of
--   usage of packages/agent/src/harness/utils/usage.ts. Session/Commit is session/commit.ts: the numbers
--   of a transaction and its validation. Session/Storage is InMemoryStorageState of
--   session/in-memory-storage-state.ts, with the commit of session/memory.ts; Storage/Queries has its
--   reads and Storage/Branch the scan of a branch.
-- Session/Fork: session/fork-policy.ts and the walk of session/fork.ts; Fork/Snapshot is the rest of
--   fork.ts: the validation, the selection, the snapshot of the new session and its writes.
-- Tools/Truncate: packages/agent/src/harness/utils/truncate.ts, on texts as lists of UTF-16 code units;
--   Tools has what it does with texts, and Truncate/End the cut of a line that is too long.
-- Delta: packages/chord/src/delta/index.ts, the changes of replicated JSON values. Delta/Codec has
--   encoder and decoder; Delta/Apply has apply and its parts, and Apply/Immutable applyImmutable;
--   Delta/Overlap is overlap, and Delta/Diff has jsonEqual, diffValue, diffObject, diffArray and
--   diffString. Delta/Value says when two values are the same but for the order of keys.
--   Delta/State: packages/chord/src/services/state.ts, the publisher and the replica of a replicated state;
--   State/Mirror puts the codec between them, as services/state-codec.ts does for each state.
-- Lane: the snapshot and the events of packages/agent/src/harness/agent-harness.ts; Lane/Reducer is
--   reduceLaneSnapshot of packages/agent/src/harness/runtime/reducer.ts.
-- Effects/Gate: createGate of packages/agent/src/harness/execution/effect-gate.ts. Effects/Retry: the
--   times of packages/agent/src/harness/runtime/drive/retry.ts.
-- Protocol/Framing: packages/protocol/src/framing.ts. Framing/Stream is an independent reading of the
--   stream byte by byte, without chunks or payload blocks.
-- Protocol/Cbor: packages/protocol/src/cbor/options.ts; Cbor/Writer and Cbor/Encoder are encoder.ts,
--   Cbor/Decoder is decoder.ts.
--
-- Asynchronous methods of the journal, the broker and the storage run to their end before the next
-- call starts; the orders of calls are all the lists of calls. Texts of errors are left out, their kinds are kept.
-- Numbers that a component only carries are opaque. Quantities and sequence numbers are natural.
--
-- Bounds and fuel. A frame decoder's loops run on the length of the chunk, since each round takes a
-- byte; the decoder's recursion on the depth limit and two more, since beyond the limit nothing is
-- read; the writer's growing loop on one round, since that reaches what is required.
--
-- A branch scan walks on as many rounds as the next sequence number, since a parent has a smaller
-- number than its child; the walk of a fork on as many as the largest number, and two more. A list
-- read or a scan takes a limit that is a natural number or none.
--
-- The platform's addition of doubles is a parameter of the usage sums, of which nothing is assumed.
-- Buffer.byteLength is a parameter of the truncation, and present or not; where it is, it is assumed to
-- count the bytes of UTF-8, with three for an unpaired half. Addresses of values are those that the
-- address constructors let through, so a pair of namespace and key names one.
--
-- TextEncoder, the fatal TextDecoder and DataView are the parameter Platform of the CBOR codec, of
-- which nothing is assumed. Values are finite trees, so the test for cycles never fires; enumerable
-- symbol keys and the order that an engine gives integer-like keys are not modelled. A number that is
-- no integer is its eight bytes.
--
-- A tracked JSON value is a finite tree whose containers stand in one place, so a write through a
-- reference is the root with another part; a number is named by what `===` tells apart. The property key
-- that JavaScript makes of a number is a parameter of the appliers, of which nothing is assumed.
-- The insertion of items in pieces runs on the number of the items.
--
-- Not modelled: the files of a session, the rest of the harness runtime, the agent loop and its
-- other tools, the publishing of the session runtime, the decorator's tools, the
-- recording of writes to a tracked Chord state and the other Chord services, server and client connections, and the session backends, model providers, telemetry and
-- applications, which are I/O.
pub mod Prelude
pub mod Protocol
pub mod Studio
pub mod Lane
pub mod Effects
pub mod Session
pub mod Tools
pub mod Delta
