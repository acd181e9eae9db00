-- ===== src/Lib.antt =====
-- Sembazuru, a distributed build accelerator: an agent hands the compiler commands of a build to workers
-- on the local network, which read the sources over a data plane and give the outputs back. Modelled are
-- the formats that the peers exchange and keep, the agent's decisions on who may join and who gets an
-- action, the course of an action from worker to worker and what is shown of it, the traces of its
-- processes with the inputs that they show, and the share of its processor that a worker offers.
--
-- Which file models which part:
--   Dataplane/Wire.antt      frames of crates/dataplane/src/wire.rs: encode_frame, try_encode_frame,
--                            decode_frame_body, decode_frame
--   Dataplane/Payload.antt   the field Writer and Reader of the same file (put_u32 for Writer::u32, get_u32
--                            for Reader::u32), over the reading monad of Cursor.antt
--   Dataplane/Ops/...        crates/dataplane/src/ops.rs, a module for each operation; encode_request is
--                            StatRequest::encode in Stat, HasRequest::encode in Has, and so on
--   Dataplane/AsyncIo.antt   write_frame and read_frame of crates/dataplane/src/async_io.rs
--   Cas/Digest.antt          Digest of crates/cas/src/lib.rs
--   Cas/ActionResult.antt    ActionResult and its codec, crates/cas/src/action_cache.rs
--   Cas/Fingerprint.antt     weak_fingerprint and strong_fingerprint of the same file
--   Proto/Auth.antt          auth of crates/proto/src/lib.rs
--   Proto/Capability.antt    crates/proto/src/capability.rs
--   Agent/Workers.antt       crates/agent/src/coordination.rs: WorkerTable, register, heartbeat
--   Agent/Scheduler.antt     crates/agent/src/scheduler.rs: preferred_index, pick_and_reserve, AssignGuard,
--                            capacity
--   Agent/Tracker.antt       crates/agent/src/action_tracker.rs: the state and the lanes; Tracker/Attempts.antt
--                            has begin_attempt, transition_locked, finish, expiry, eviction and AttemptLease
--   Agent/Dispatch.antt      dispatch_observed_with_context of crates/agent/src/scheduler.rs, and the
--                            ActionObserver of crates/agent/src/lib.rs; the loop is in Dispatch/Loop.antt
--   Agent/Drive.antt         drive_execute and append_console_capped of crates/agent/src/lib.rs
--   Agent/Submission.antt    SubmissionDeadline and DaemonTaskScope of crates/agent/src/session_registry.rs
--   Agent/EnvFilter.antt     crates/agent/src/env_filter.rs
--   Proto/Capability/Digests.antt  command_digest and vfs_digest of crates/proto/src/capability.rs
--   Tracer/Format.antt       parse of crates/tracer/src/format.rs; Tracer/Model.antt has the types of model.rs,
--                            and Format/Layout.antt the layout of docs/trace-format.md
--   Tracer/Paths.antt        normalize_path of crates/tracer/src/graph.rs, and relativize of determinism.rs beside it
--   Tracer/Graph.antt        the Accumulator of graph.rs; Graph/Fold.antt has fold_file and the fold of build_graph
--   Tracer/Logical.antt      is_under_build_root of crates/tracer/src/action_key.rs
--   Tracer/Manifest.antt     input_manifest_with_policy of action_key.rs, over a file system that is an argument;
--                            Manifest/Hash.antt has manifest_hash
--   Tracer/Sha256.antt       sha256 of crates/tracer/src/determinism.rs
--   Worker/CpuMonitor.antt   IdleCpuPolicy of crates/worker/src/cpu_monitor.rs
--   Blake3.antt              the blake3 crate as an interface; its functions are not defined here
--   Base.antt, Bytes.antt    lists, results, maps, little-endian integers, UTF-8
--   Tests.antt               the theorems at concrete inputs
--
-- How the parts interact: every codec runs over the cursor; the action results and the file requests carry
-- digests; a registration and a ping pass Proto.Auth before they change the table; the scheduler picks from
-- the table's live workers, and its count of actions in flight is its own. A dispatch picks workers one after
-- the other, holds a slot at each and shows each attempt in the tracker, until one gives an exit code or none is
-- left and the action runs locally. The events of the traces, which the parser reads, are folded path by normal path
-- into the inputs and outputs of an action, from which the manifest that keys its result is made.
--
-- How code corresponds to the model: a number is a natural number, with its wrap-around or its check written
-- out; a byte is a number below 256, and a string the list of its UTF-8 bytes. A slice is shorter than 2^64.
-- An exit code is its 32-bit pattern. A map is an association list with one entry for a key, whose order no
-- result uses. The time is an argument, read once for an operation, where the sources read the clock
-- at each use. State that a mutex guards is passed on explicitly, since each operation holds the lock
-- throughout; the phase of a submission has no lock, and there each compare and exchange and each waking of the
-- waiters is a step of its own. Most loops are structural over a list or a count that was read. Two take fuel: the loop over the
-- records of a trace gets one turn more than the buffer has bytes, and the loop of a dispatch a number that
-- is enough when it exceeds that of the workers in the tables; the results say that these suffice. A panic on
-- a field of 4 GiB (append_len_prefixed) is left out: the results ask for shorter fields. In a dispatch
-- the table, the clock and what comes of an attempt are functions of its number, and other dispatches
-- do not touch the counts meanwhile.
--
-- Not modelled: sockets, files, processes and the Windows API; the code that tonic generates from the protocol
-- file, and its calls; the sorted copy that snapshot gives; the tree of processes and the warnings of build_graph, which
-- are arguments; input_components, and the masking of artifacts; the sessions of the registry and the waits for
-- a submission; the rest of the agent and of the worker, the configuration
-- store and the front end.
pub mod Base
pub mod Bytes
pub mod Cursor
pub mod Dataplane
pub mod Blake3
pub mod Cas
pub mod Proto
pub mod Agent
pub mod Worker
pub mod Tracer
pub mod Tests
