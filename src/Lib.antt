-- ===== src/Lib.antt =====
-- Setec runs untrusted workloads in Firecracker microVMs, described by Kubernetes custom resources.
-- An operator reconciles each Sandbox with its Pod, a coordinator pauses, snapshots and restores the
-- machines through a node agent, and a guest agent gives a restored machine a fresh identity. This
-- library models the decisions of these parts; each file's comment names the code that it is about.
--
--   Prelude      Shared types: tests and equality, lists, string maps, the integers, Go's time.
--   Api          api/v1alpha1: Sandbox, SandboxClass, Snapshot; their methods in Api/Session.
--   Status       internal/status: `derive` for Derive with a function per helper, and the pause and
--                idle policies in Status/Policy, composed by `derive_status` as deriveStatus of
--                internal/controller/sandbox_controller.go composes them.
--   Class        internal/class, internal/limits and EffectiveMode of internal/netpol: which Sandbox a
--                class permits, and in Class/Resolver which class a Sandbox has.
--   Gate         internal/snapshot/gate: the invariant gate, which decides on the evidence of a restore.
--   Snapshot     internal/snapshot: `validate` for Validate; Snapshot/Restore for RestoreSandbox and
--                RestoreSessionCheckpoint, which ask the gate before and after the node agent acts;
--                Snapshot/Create for CreateSnapshot, with its stages in Snapshot/Create/Lawful; and
--                Snapshot/Reconcile for internal/controller/snapshot_controller.go with DeleteSnapshot
--                of the coordinator: the finalizer, the reference count and the TTL.
--   Checkpoint   internal/controller/session_checkpoint.go: Checkpoint/Take for takeCheckpoint,
--                Checkpoint/Suspend for suspendSession, Checkpoint/Restored for the restore of a pending
--                checkpoint, Checkpoint/Reconcile for reconcileSessionCheckpoint, which chooses among
--                them, and Checkpoint/Resume for what happens to a suspended session.
--   Desired      reconcilePhase3Lifecycle of internal/controller/sandbox_controller.go: pause and resume on
--                request, the one-shot snapshot, and what follows it.
--   Controller   Reconcile of internal/controller/sandbox_controller.go, one pass with its steps in order:
--                Controller/Workspace the finalizer and the claim of a session, Controller/Reap what is
--                deleted by time, Controller/Admission tenant, class and Snapshot, Controller/Launch a
--                Pod that is missing, Controller/Existing one that exists, with Controller/Restore for
--                launcher_restore.go and Controller/Deadlines for the next call. Controller/Trace reads
--                a run as a trace, and Controller/Fair compares its steps with the server's answers.
--   WarmPool     internal/controller/warm_pool.go: the base that a Sandbox of a pool class loads;
--                WarmPool/Images the images of a pool, WarmPool/Bases the prune of the bases and the steps
--                of their Pods, and WarmPool/Reconcile the pass over a class.
--   Netpol       internal/netpol/generator.go: exceptFor, cutPrefix, splitPrefix and the cuts of
--                subtractExempt, on prefixes as lists of bits.
--   Wire         io.ReadFull and big-endian words on byte streams.
--   Uniquify     internal/uniquify: the frames, the host's verification, the guest's handler, and both
--                ends of the exchange together.
--   Atrest       internal/snapshot/atrest: chunked encryption of a stream and its reader, and the sealed
--                key of an artifact; the AEAD is a parameter with its laws.
--   Entropy      internal/entropy: the reseed request and its ack, and both ends of the exchange.
--   Guestagent   internal/guestagent/protocol.go: the frames of an exec stream and the exit code.
--
-- Conventions. A Go struct is a record and a pointer that may be nil is an Option; a handler that
-- changes a struct returns the new one. A cluster read, a clock, JSON, the digest and the node agent's
-- answers are parameters: arguments, or fields of a record. A restore returns the calls and Events it
-- made, in order. Time is in nanoseconds from the zero time; time.Sub saturates at the largest Duration
-- and time.Add is exact on instants. Quantities are a parameter with their comparison. The recursions
-- are structural, on the length of a read or on a list. The loop of cutPrefix has fuel, which is the
-- difference of the two prefix lengths, and each round makes the prefix one bit longer; the loops of
-- Encrypt and of its reader have fuel, one more than the bytes that are left, and each round takes at
-- least one of them.
--
-- Desired takes CreateSnapshot as one step with its three kinds of answer; Snapshot/Create has its parts.
--
-- Not modelled: the texts of messages and of prefixes, spans and metrics; dials, sockets and files; the
-- build of a disk and of a Pod, the other operations of the coordinator, the webhooks, the
-- frontend, the launcher and storage.
-- Each reconcile is modelled as one pass, with any answers of the API server: how its caches fall behind
-- is in the answers. In a pass each call has one answer, also where the code makes it twice.
mod Prelude
pub mod Api
pub mod Status
pub mod Wire
pub mod Class
pub mod Snapshot
pub mod Gate
pub mod Netpol
pub mod Uniquify
pub mod Entropy
pub mod Guestagent
pub mod Atrest
pub mod Checkpoint
pub mod Desired
pub mod WarmPool
pub mod Controller
