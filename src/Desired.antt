-- ===== src/Desired.antt =====
-- reconcilePhase3Lifecycle of internal/controller/sandbox_controller.go with requestSnapshot,
-- applyAfterCreate and patchPhase: the desired state of a Sandbox, and its snapshot on request; and
-- Pause and Resume of internal/snapshot/coordinator.go. The answers are a record; a run returns what it
-- did, in order. CreateSnapshot is one step here, with its three kinds of answer.
pub mod Saved
mod Tests
use setec.Prelude.{
  Bool, true, false, String, Option, none, some, List, [], ◌∷◌, ◌++◌, ◌==◌, ◌!=◌, ◌&&◌, ◌||◌,
  string_eq, is_some, if◌then◌else◌, ◌*◌,
}
use setec.Prelude.Int.{pos}
use setec.Prelude.Time.{Time, Duration, second}
use setec.Api.{
  Sandbox, SandboxStatus, SandboxPhase, running, paused, snapshotting, SandboxPhase-discrete,
  sandbox_phase_eq, SandboxDesiredState, state_running, state_paused, SandboxDesiredState-discrete,
  sandbox_desired_state_eq, SandboxSnapshotSpec, SandboxSnapshotAfterCreate, after_paused,
  after_terminated, Snapshot, creating, SnapshotPhase, SnapshotPhase-discrete, snapshot_phase_eq,
}
use setec.Snapshot.Restore.{Pod}
use setec.Snapshot.Reconcile.{
  Read, found, missing, unread, Write, refused, Erase, rpc_error, response, Ended, requeue_after,
  failed,
}

-- The answer of CreateSnapshot: ErrNodeAgentUnavailable, or another error.
pub data Created : Type 0 where
  taken unavailable not_taken : Created

pub data Step : Type 0 where
  -- PauseSandbox and ResumeSandbox of the node agent, for a Pod, with the answer.
  pause_vm resume_vm : String → Erase → Step
  -- CreateSnapshot of the coordinator, with its answer.
  create_snapshot : Created → Step
  delete_sandbox : Step
  -- A patch of the status, with whether it succeeded.
  patch_status : SandboxStatus → Bool → Step

pub record Answers : Type 0 where
  pub now : Time
  pub pod : Option Pod
  -- Dial, then the call; `none` when the dial fails.
  pub dial : String → Option Erase
  pub existing : Read Snapshot
  pub created : Created
  -- The patch to Snapshotting, and the one that the reconcile ends with.
  pub snapshotting_patched : Bool
  pub phase_patched : Bool
  pub sandbox_deleted : Write

abbrev pub in_flight_requeue : Duration
in_flight_requeue = pos (5 * second)

-- patchPhase: the status that it writes.
unfoldable pub patch_phase : SandboxStatus → SandboxPhase → String → Bool → Time → SandboxStatus
patch_phase st phase reason set_paused_at now = record st {
  phase = phase;
  reason = reason;
  last_transition_time = some now;
  paused_at = if set_paused_at then some now else none;
}

-- A call of the node agent that was answered with no error and no refusal.
accepted : Erase → Bool
accepted rpc_error = false
accepted (response none) = true
accepted (response (some success)) = success

dialled : (String → Erase → Step) → Pod → Option Erase → List Step × Bool
unfolding accepted
dialled step pod none = ([], false)
dialled step pod (some answer) = (step pod.uid answer ∷ [], accepted answer)

vm_call : (String → Erase → Step) → Answers → Option Pod → List Step × Bool
unfolding dialled
vm_call step a none = ([], false)
vm_call step a (some pod) = dialled step pod (a.dial pod.node_name)

-- Coordinator.Pause and Coordinator.Resume: whether they ended with no error.
unfoldable pub pause : Answers → List Step × Bool
unfolding vm_call
pause a = vm_call pause_vm a a.pod

unfoldable pub resume : Answers → List Step × Bool
unfolding vm_call
resume a = vm_call resume_vm a a.pod

-- A patch that the reconcile ends with.
last_patch : Answers → SandboxStatus → List Step × Ended
last_patch a st = (
  patch_status st a.phase_patched ∷ [],
  if a.phase_patched then requeue_after (pos 0) else failed,
)

-- After a call: the patch, or the error.
then_patch : Answers → SandboxStatus → List Step × Bool → List Step × Ended
unfolding last_patch
then_patch a st (l, false) = (l, failed)
then_patch a st (l, true) = (l ++ (last_patch a st).0, (last_patch a st).1)

unfoldable pub apply_after_create :
    Answers → SandboxStatus → SandboxSnapshotAfterCreate → List Step × Ended
unfolding last_patch patch_phase
apply_after_create a st after_paused = last_patch a (patch_phase st paused "UserPaused" true a.now)
apply_after_create a st after_terminated =
    (delete_sandbox ∷ [], elim a.sandbox_deleted [ refused ↦ failed | _ ↦ requeue_after (pos 0) ])
apply_after_create a st _ = last_patch a (patch_phase st running "" false a.now)

-- After the call of CreateSnapshot.
by_answer : Answers → SandboxStatus → SandboxSnapshotAfterCreate → Created → List Step × Ended
unfolding apply_after_create patch_phase
by_answer a st intent taken = apply_after_create a st intent
by_answer a st intent unavailable = (
  patch_status (patch_phase st running "NodeAgentUnreachable" false a.now) a.phase_patched ∷ [],
  failed,
)
by_answer a st intent not_taken = (
  patch_status (patch_phase st running "SnapshotCreateFailed" false a.now) a.phase_patched ∷ [],
  failed,
)

-- No Snapshot of that name: mark the Sandbox, and take one.
take_snapshot : Answers → SandboxStatus → SandboxSnapshotAfterCreate → List Step × Ended
unfolding by_answer patch_phase
take_snapshot a st intent =
    let marked = patch_phase st snapshotting "SnapshotInProgress" true a.now in
    let (l, e) = by_answer a marked intent a.created in
    if a.snapshotting_patched
    then (patch_status marked true ∷ create_snapshot a.created ∷ l, e)
    else (patch_status marked false ∷ [], failed)

-- A Snapshot of that name, by its phase.
by_phase : Answers → SandboxStatus → SnapshotPhase → List Step × Ended
unfolding last_patch patch_phase
by_phase a st creating = ([], requeue_after in_flight_requeue)
by_phase a st SnapshotPhase.failed =
    last_patch a (patch_phase st running "SnapshotCreateFailed" false a.now)
by_phase a st _ = ([], requeue_after (pos 0))

by_existing :
    Answers → SandboxStatus → SandboxSnapshotAfterCreate → Read Snapshot → List Step × Ended
unfolding take_snapshot by_phase
by_existing a st intent missing = take_snapshot a st intent
by_existing a st intent unread = ([], failed)
by_existing a st intent (found snap) =
    if is_some snap.deletion_timestamp && snap.spec.storage_ref == ""
    then ([], requeue_after in_flight_requeue)
    else by_phase a st snap.status.phase

unfoldable pub request_snapshot :
    Answers → SandboxStatus → SandboxSnapshotAfterCreate → List Step × Ended
unfolding by_existing
request_snapshot a st intent = by_existing a st intent a.existing

is_stable : SandboxPhase → Bool
unfolding SandboxPhase-discrete
is_stable phase = phase == running || phase == paused

on_request : Answers → SandboxStatus → SandboxPhase → Option SandboxSnapshotSpec → List Step × Ended
unfolding request_snapshot is_stable
on_request a st phase none = ([], requeue_after (pos 0))
on_request a st phase (some spec) =
    if spec.create && spec.name != "" && is_stable phase
    then request_snapshot a st spec.after_create
    else ([], requeue_after (pos 0))

-- reconcilePhase3Lifecycle, for the phase of the derived status.
unfoldable pub reconcile_phase3_lifecycle :
    {Q : Type 0} → Answers → Sandbox Q → SandboxPhase → List Step × Ended
unfolding pause resume then_patch patch_phase on_request SandboxPhase-discrete
    SandboxDesiredState-discrete
reconcile_phase3_lifecycle a sb phase =
    let desired = sb.spec.desired_state in
    if desired == state_paused && phase == running
    then then_patch a (patch_phase sb.status paused "UserPaused" true a.now) (pause a)
    else if (desired == SandboxDesiredState.unset || desired == state_running) && phase == paused
    then then_patch a (patch_phase sb.status running "" false a.now) (resume a)
    else on_request a sb.status phase sb.spec.snapshot
