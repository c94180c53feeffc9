-- ===== src/Checkpoint/Suspend.antt =====
-- suspendSession: checkpoint the machine and release it.
pub mod Released
use setec.Prelude.{
  Bool, true, false, String, Option, none, some, List, [], ◌∷◌, ◌++◌, ◌==◌, ◌!=◌, ◌&&◌, ◌||◌,
  string_eq, is_none, if◌then◌else◌,
}
use setec.Prelude.Time.{Time}
use setec.Api.{
  Sandbox, SandboxStatus, SandboxCheckpointStatus, SessionRecoveryKind, SessionCheckpointSpec,
  suspended,
}
use setec.Api.Session.{checkpoint_backend}
use setec.Checkpoint.{
  Fault, status_not_patched, pod_not_marked, pod_not_deleted, VmPod, Call, mark_pod, delete_pod,
  patch_status, emit, Cluster, Outcome, ok, err, Run, ◌>>=◌, ◌>>◌, say, attempt, Handled,
  suspend_wait_requeue, reason_checkpoint_on_drain, is_launcher_sandbox,
}
use setec.Checkpoint.Take.{take_checkpoint}

-- recordAndReturnErr.
pub fail_with : {A : Type 0} → Fault → Run A
fail_with e = (emit "ReconcileError" ∷ [], err e)

-- A run whose error is recorded.
reported : {A : Type 0} → Run A → Run A
unfolding fail_with
reported (l, ok a) = (l, ok a)
reported (l, err e) = (l ++ emit "ReconcileError" ∷ [], err e)

-- The status of a session that never had a checkpoint.
abbrev pub empty_checkpoint : String → SandboxCheckpointStatus
empty_checkpoint backend = record {
  ref = "";
  backend = backend;
  sequence = 0;
  taken_at = none;
  size_bytes = 0;
  pending_restore = false;
  last_recovery = SessionRecoveryKind.unset;
  last_recovery_at = none;
  last_recovery_state_taken_at = none;
  recoveries = 0;
  pod_uid = "";
  parents = [];
}

or_empty : String → Option SandboxCheckpointStatus → SandboxCheckpointStatus
or_empty backend none = empty_checkpoint backend
or_empty backend (some ck) = ck

-- The Suspended status: a restore is pending when there is a checkpoint that may be used.
unfoldable pub suspended_status :
    SessionCheckpointSpec → String → Time → Bool → SandboxStatus → SandboxStatus
unfolding or_empty
suspended_status policy reason now fresh st =
    let ck = or_empty (checkpoint_backend (some policy)) st.checkpoint in
    record st {
      checkpoint = some (record ck { pending_restore = ck.ref != "" && (fresh || policy.durable) });
      phase = suspended;
      reason = reason;
      paused_at = none;
      last_transition_time = some now;
    }

module _ {Q : Type 0} (c : Cluster Q) where
  -- The Pod is marked before it is deleted.
  pub release_pod : VmPod → Run (Unit {0})
  unfolding reported
  release_pod pod =
      if pod.terminating
      then ([], ok tt)
      else reported (
          attempt mark_pod c.pod_marked pod_not_marked
          >> attempt delete_pod c.pod_deleted pod_not_deleted)

  pub mark_suspended : SandboxStatus → SandboxStatus → Run Handled
  mark_suspended from to =
      if c.suspend_patched
      then (
        patch_status from to ∷ emit "SessionSuspended" ∷ [],
        ok (record { after = suspend_wait_requeue; handled = true }),
      )
      else (patch_status from to ∷ [], err status_not_patched)

  -- After the checkpoint: a failure aborts the suspend, except on a drain.
  after_checkpoint :
      SessionCheckpointSpec
      → VmPod
      → String
      → List Call × SandboxStatus × Option Fault
      → Run Handled
  unfolding suspended_status release_pod mark_suspended fail_with
  after_checkpoint policy pod reason (l, st, none) =
      (l, ok tt)
      >> release_pod pod
      >> mark_suspended st (suspended_status policy reason c.now true st)
  after_checkpoint policy pod reason (l, st, some e) =
      if reason != reason_checkpoint_on_drain
      then (l, ok tt) >> fail_with e
      else (l, ok tt)
        >> release_pod pod
        >> mark_suspended st (suspended_status policy reason c.now false st)

  unfoldable pub suspend_session : Sandbox Q → SessionCheckpointSpec → VmPod → String → Run Handled
  unfolding after_checkpoint
  suspend_session sb policy pod reason =
      after_checkpoint policy pod reason (take_checkpoint c sb policy (is_launcher_sandbox sb))
