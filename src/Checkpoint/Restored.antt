-- ===== src/Checkpoint/Restored.antt =====
-- restoreDue, restoreStillPending, deleteSessionPod and restorePendingCheckpoint.
pub mod Once
use setec.Prelude.{
  ℕ, Bool, true, false, String, Option, none, some, List, [], ◌∷◌, ◌++◌, ◌==◌, ◌!=◌, ◌&&◌, ◌||◌,
  not, string_eq, if◌then◌else◌,
}
use setec.Prelude.Int.{pos, ltb_ℤ}
use setec.Prelude.Time.{Time, Duration}
use setec.Api.{
  Sandbox, SandboxStatus, SandboxCheckpointStatus, SessionRecoveryKind, resumed_from_checkpoint,
  restarted_from_workspace, SessionCheckpointSpec, running, SandboxPhase-discrete, sandbox_phase_eq,
}
use setec.Api.Session.{effective_interval, copy_recovery, record_recovery}
use setec.Status.{PodPhase, pod_running, runs}
use setec.Checkpoint.{
  Fault, no_checkpoint, status_not_patched, pod_not_deleted, live_unread, Read, found, VmPod, Call,
  delete_pod, load, patch_status, emit, Cluster, Loaded, loaded, gate_refused, load_failed, Outcome,
  ok, err, Run, ◌>>=◌, ◌>>◌, say, attempt, Handled, is_launcher_sandbox,
}
use setec.Checkpoint.Take.{read_session_kek, delete_checkpoint_chain}
use setec.Checkpoint.Suspend.{empty_checkpoint}

due : Bool → VmPod → Option SandboxCheckpointStatus → Bool
due started pod none = false
due started pod (some ck) =
    ck.pending_restore
    && started
    && runs pod.phase
    && not pod.terminating
    && (ck.pod_uid == "" || pod.uid != ck.pod_uid)

unfoldable pub restore_due : {Q : Type 0} → Sandbox Q → VmPod → SandboxStatus → Bool
unfolding due SandboxPhase-discrete
restore_due sb pod desired =
    due (desired.phase == running || is_launcher_sandbox sb) pod sb.status.checkpoint

still : String → Option SandboxCheckpointStatus → Bool
still ref none = false
still ref (some lc) = lc.pending_restore && lc.ref == ref

-- restoreStillPending: the live object decides.
unfoldable pub restore_still_pending : {Q : Type 0} → Option (Sandbox Q) → String → Outcome Bool
unfolding still
restore_still_pending none ref = err live_unread
restore_still_pending (some live) ref = ok (still ref live.status.checkpoint)

-- The status after the attempt: the checkpoint is consumed, and the recovery is recorded.
unfoldable pub consumed :
    SandboxCheckpointStatus → SessionRecoveryKind → Time → SandboxCheckpointStatus
consumed ck kind now =
    record_recovery
      (copy_recovery (record (empty_checkpoint ck.backend) { sequence = ck.sequence }) (some ck))
      kind now ck.taken_at

module _ {Q : Type 0} (c : Cluster Q) where
  delete_found : Read VmPod → Run (Unit {0})
  delete_found (found p) =
      if p.terminating then ([], ok tt) else attempt delete_pod c.pod_deleted pod_not_deleted
  delete_found _ = ([], ok tt)

  unfoldable pub delete_session_pod : Run (Unit {0})
  unfolding delete_found
  delete_session_pod = delete_found c.session_pod

  -- The load of the checkpoint, when the key can be read.
  tried : SandboxCheckpointStatus → Outcome (List ℕ) → List Call × Loaded
  tried ck (err e) = ([], load_failed)
  tried ck (ok kek) = (load ck.ref ∷ [], c.restore_checkpoint ck.ref kek ck.taken_at)

  -- What the answer of the load asks for, and how the session recovered.
  answered : Bool → Loaded → Run SessionRecoveryKind
  unfolding delete_session_pod
  answered launcher loaded = (emit "SessionResumedFromCheckpoint" ∷ [], ok resumed_from_checkpoint)
  answered launcher gate_refused =
      say (emit "InvariantGateViolation") >> delete_session_pod >> ([], ok restarted_from_workspace)
  answered launcher load_failed =
      (if launcher then delete_session_pod else ([], ok tt))
      >> (emit "SessionRestartedFromWorkspace" ∷ [], ok restarted_from_workspace)

  consume : SandboxStatus → SandboxStatus → Duration → Run Handled
  consume from to interval =
      if c.recovery_patched
      then (
        patch_status from to ∷ [],
        ok (record { after = if ltb_ℤ (pos 0) interval then interval else pos 0; handled = true }),
      )
      else (patch_status from to ∷ [], err status_not_patched)

  -- A restore that is still pending.
  restore_now : Sandbox Q → SessionCheckpointSpec → SandboxCheckpointStatus → Run Handled
  unfolding tried answered consume consumed
  restore_now sb policy ck = do
    let (calls, answer) = tried ck (read_session_kek c)
    (calls, ok tt)
    kind ← answered (is_launcher_sandbox sb) answer
    (delete_checkpoint_chain ck, ok tt)
    consume sb.status (record (sb.status) { checkpoint = some (consumed ck kind c.now) })
        (effective_interval (some policy))

  when_pending : Bool → Run Handled → Run Handled
  when_pending true run = run
  when_pending false run = ([], ok (record { after = pos 0; handled = true }))

  attempt_restore : Sandbox Q → SessionCheckpointSpec → SandboxCheckpointStatus → Run Handled
  unfolding restore_now when_pending
  attempt_restore sb policy ck = do
    pending ← ([], restore_still_pending c.live ck.ref)
    when_pending pending (restore_now sb policy ck)

  restore_of : Sandbox Q → SessionCheckpointSpec → Option SandboxCheckpointStatus → Run Handled
  unfolding attempt_restore
  restore_of sb policy none = ([], err no_checkpoint)
  restore_of sb policy (some ck) = attempt_restore sb policy ck

  unfoldable pub restore_pending_checkpoint : Sandbox Q → SessionCheckpointSpec → Run Handled
  unfolding restore_of
  restore_pending_checkpoint sb policy = restore_of sb policy sb.status.checkpoint
