-- ===== src/Checkpoint.antt =====
-- internal/controller/session_checkpoint.go: checkpoint, suspend and resume of a session. This file has
-- what its steps share. The answers of the API server and of the coordinator are a record, a field per
-- call; a run returns the calls that it made, in order, and what it ended with. The reads of the clock
-- in one reconcile give one instant. An update that succeeds leaves the object in memory as written.
pub mod Take
pub mod Calls
pub mod Suspend
pub mod Restored
pub mod Reconcile
pub mod Resume
mod Tests
use setec.Prelude.{
  ℕ, ◌*◌, Bool, true, false, String, Option, none, some, List, [], ◌∷◌, ◌++◌, ◌==◌, string_eq,
  StringMap, if◌then◌else◌, ◌&&◌,
}
use setec.Prelude.Int.{pos}
use setec.Prelude.Time.{Time, Duration, second}
use setec.Api.{Sandbox, SandboxClass, SandboxStatus, SandboxRuntimeStatus, SessionCheckpointSpec}
use setec.Api.Session.{is_session}
use setec.Status.{PodPhase}

-- The errors. A message is left out.
pub data Fault : Type 0 where
  kek_terminating kek_unread kek_size kek_not_created save_failed no_checkpoint : Fault
  status_not_patched pod_not_marked pod_not_deleted live_unread not_recycled : Fault

-- The answer of a Get, and of a write: `moot` is NotFound, or AlreadyExists for a Create.
pub data Read (A : Type 0) : Type 0 where
  found : A → Read A
  missing unread : Read A

pub data Write : Type 0 where
  done moot refused : Write

-- A KEK Secret: its deletion was asked for, and the bytes under the key `kek`.
pub record Secret : Type 0 where
  pub terminating : Bool
  pub kek : List ℕ

pub record VmPod : Type 0 where
  pub uid : String
  pub annotations : StringMap
  pub node_name : String
  pub phase : PodPhase
  pub terminating : Bool

pub record NodeCondition : Type 0 where
  pub of_ready : Bool
  pub is_true : Bool
  pub last_transition_time : Time

pub record Node : Type 0 where
  pub unschedulable : Bool
  pub conditions : List NodeCondition

-- What RestoreSessionCheckpoint answers.
pub data Loaded : Type 0 where
  loaded gate_refused load_failed : Loaded

pub data Call : Type 0 where
  create_kek delete_kek mark_pod delete_pod remove_pod delete_sandbox : Call
  -- CheckpointSession: the sequence, leave it paused, the parent; and the ref that was saved.
  save : ℕ → Bool → String → Option String → Call
  -- RestoreSessionCheckpoint and DeleteSessionCheckpoint of a ref.
  load drop : String → Call
  -- A patch of the status, from and to.
  patch_status : SandboxStatus → SandboxStatus → Call
  emit : String → Call

pub record Cluster (Q : Type 0) : Type 0 where
  pub now : Time
  pub has_coordinator : Bool
  -- The KEK Secret as ensureSessionKEK and as readSessionKEK get it.
  pub kek_before : Read Secret
  pub kek_created : Write
  pub kek_after : Read Secret
  pub session_pod : Read VmPod
  pub checkpoint_session : ℕ → List ℕ → Bool → String → Option (String × ℕ)
  pub restore_checkpoint : String → List ℕ → Option Time → Loaded
  -- The live Sandbox, or an error.
  pub live : Option (Sandbox Q)
  -- The node of the Pod as nodeLostFor and as draining get it.
  pub node_lost : Read Node
  pub node_drained : Read Node
  -- The patches of the status: after a checkpoint, a suspend, a restore, a lost node.
  pub checkpoint_patched : Bool
  pub suspend_patched : Bool
  pub recovery_patched : Bool
  pub pending_patched : Bool
  pub pod_marked : Write
  pub pod_deleted : Write
  pub sandbox_deleted : Write

-- A run: its calls, and a value or an error.
pub data Outcome (A : Type 0) : Type 0 where
  ok : A → Outcome A
  err : Fault → Outcome A

abbrev pub Run : Type 0 → Type 0
Run A = List Call × Outcome A

infixl 5 ◌>>=◌ ◌>>◌
abbrev pub ◌>>=◌ : {A B : Type 0} → Run A → (A → Run B) → Run B
(l, ok a) >>= f = (l ++ (f a).0, (f a).1)
(l, err e) >>= f = (l, err e)

abbrev pub ◌>>◌ : {B : Type 0} → Run (Unit {0}) → Run B → Run B
m >> k = m >>= λ _. k

abbrev pub say : Call → Run (Unit {0})
say call = (call ∷ [], ok tt)

-- A call whose answer is no error, or is the one that the code ignores.
abbrev pub attempt : Call → Write → Fault → Run (Unit {0})
attempt call done e = (call ∷ [], ok tt)
attempt call moot e = (call ∷ [], ok tt)
attempt call refused e = (call ∷ [], err e)

-- RequeueAfter, and whether the reconcile is complete.
pub record Handled : Type 0 where
  pub after : Duration
  pub handled : Bool

abbrev pub suspend_wait_requeue : Duration
suspend_wait_requeue = pos (2 * second)

abbrev pub reason_suspended_idle : String
reason_suspended_idle = "SuspendedIdle"

abbrev pub reason_user_suspended : String
reason_user_suspended = "UserSuspended"

abbrev pub reason_checkpoint_on_drain : String
reason_checkpoint_on_drain = "CheckpointOnDrain"

abbrev pub reason_suspended_pause_timeout : String
reason_suspended_pause_timeout = "SuspendedPauseTimeout"

abbrev pub kek_len : ℕ
kek_len = 32

abbrev pub max_diff_chain : ℕ
max_diff_chain = 8

policy_of : {Q : Type 0} → Option (SandboxClass Q) → Option SessionCheckpointSpec
policy_of none = none
policy_of (some cls) = cls.spec.session_checkpoint

unfoldable pub session_checkpoint_policy :
    {Q : Type 0} → Sandbox Q → Option (SandboxClass Q) → Option SessionCheckpointSpec
unfolding policy_of
session_checkpoint_policy sb cls = if is_session sb.spec then policy_of cls else none

chosen_launcher : Option SandboxRuntimeStatus → Bool
chosen_launcher none = false
chosen_launcher (some r) = r.chosen == "launcher"

unfoldable pub is_launcher_sandbox : {Q : Type 0} → Sandbox Q → Bool
unfolding chosen_launcher
is_launcher_sandbox sb = chosen_launcher sb.status.runtime
