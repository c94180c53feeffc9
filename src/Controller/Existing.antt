-- ===== src/Controller/Existing.antt =====
-- reconcileExistingPod, with holdingSuspend, sessionPodEnded, deriveStatus, restartExitedSession and
-- deleteFailedPod. The warmStart field of a status is left out.
pub mod Calm
use Prim.Native.String.{String, ◌++◌ as join, find, len, slice}
use setec.Prelude.{
  ◌+◌, ◌*◌, Bool, true, false, Option, none, some, List, [], ◌∷◌, ◌++◌, ◌==◌, ◌!=◌, ◌&&◌, ◌||◌, not,
  ltb, leb, string_eq, nat_eq, value_at, map, is_none, if◌then◌else◌,
}
use setec.Prelude.Int.{pos, ltb_ℤ}
use setec.Prelude.Time.{Time, Duration, second, is_zero, sub, add, before}
use setec.Api.{
  Sandbox, SandboxClass, SandboxStatus, SandboxCheckpointStatus, SandboxRuntimeStatus, SandboxPhase,
  pending, running, paused, suspended, SandboxPhase-discrete, sandbox_phase_eq,
  SessionCheckpointSpec, SessionRecoveryKind, restarted_from_workspace, Lifecycle, NetworkAllow,
  NetworkMode, egress_allow_list, NetworkMode-discrete, network_mode_eq, Snapshot,
}
use setec.Api.Session.{is_session, checkpoint_backend, record_recovery}
use setec.Status.{runs, ended, derive, reason_timeout}
use setec.Status.Policy.{
  pause_deadline, session_idle_deadline, apply_policies, reason_pause_timeout, reason_idle_timeout,
}
use setec.Class.{effective_posture}
use setec.Snapshot.Reconcile.{Ended, requeue_after}
use setec.Checkpoint
use setec.Checkpoint.{
  Write, done, moot, refused, Loaded, loaded, gate_refused, load_failed, Outcome, ok, err, Handled,
  suspend_wait_requeue, session_checkpoint_policy, is_launcher_sandbox,
}
use setec.Checkpoint.Reconcile.{reconcile_session_checkpoint}
use setec.Desired.{Step, reconcile_phase3_lifecycle}
use setec.Controller.{
  LivePod, vm_of, Act, delete_pod, patch_status, load, mark_restored, checkpoint, lifecycle, Server,
  Run, after_acts, stop,
}
use setec.Controller.Reap.{is_terminal_phase}
use setec.Controller.Admission.{snapshot_name}
use setec.Controller.Launch.{
  warm_base_annotation, annotated, ensure_namespace_baseline, apply_network_policy,
}
use setec.Controller.Restore.{
  restored_annotation, reason_restoring, reason_restore_failed, reason_gate_violation,
  restore_source, restored_value, needs_launcher_restore, hold_until_restored,
  maybe_restore_launcher,
}
use setec.Controller.Deadlines.{requeue_for}

unfoldable pub holding_suspend : {Q : Type 0} → Sandbox Q → LivePod → Bool
unfolding SandboxPhase-discrete
holding_suspend sb pod =
    is_session sb.spec
    && sb.status.phase == suspended
    && (pod.terminating || value_at pod.annotations "setec.zeroroot.ai/suspended" != "")

unfoldable pub session_pod_ended : {Q : Type 0} → Sandbox Q → SandboxStatus → LivePod → Bool
unfolding is_terminal_phase ended
session_pod_ended sb desired pod =
    is_session sb.spec
    && not (is_terminal_phase desired.phase)
    && ended pod.pod.phase
    && not pod.terminating

has_ref : Option SandboxCheckpointStatus → Bool
has_ref none = false
has_ref (some ck) = ck.ref != ""

-- The record of a checkpoint, or a new one with the backend of the class.
ck_or_new : Option SandboxCheckpointStatus → SessionCheckpointSpec → SandboxCheckpointStatus
ck_or_new (some ck) spec = ck
ck_or_new none spec = record {
  ref = "";
  backend = checkpoint_backend (some spec);
  sequence = 0;
  taken_at = none;
  size_bytes = 0;
  pending_restore = false;
  last_recovery = SessionRecoveryKind.unset;
  last_recovery_at = none;
  last_recovery_state_taken_at = none;
  recoveries = 0;
  pod_uid = "";
  parents = [];
}

-- The reasons of the failures after which the Pod goes.
unfoldable pub deletes_pod : String → Bool
deletes_pod reason =
    reason == reason_timeout
    || reason == reason_idle_timeout
    || reason == reason_pause_timeout
    || reason == reason_gate_violation

module _ {Q P : Type 0} (c : Server Q P) where
  -- ensurePolicies: what it did, and whether it ended with no error.
  unfoldable pub ensure_policies : Sandbox Q → Option (SandboxClass Q) → List (Act P) × Bool
  ensure_policies sb cls =
      let (l, placed) = ensure_namespace_baseline c in
      let (m, answer) = apply_network_policy c sb cls in
      if not placed
      then (l, false)
      else (l ++ m, elim answer [ Ended.failed ↦ false | requeue_after d ↦ true ])

  -- The status, the Sandbox with it, and what was done; `false` when the patch failed.
  unfoldable pub derive_and_patch :
      Sandbox Q
      → Option (SandboxClass Q)
      → LivePod
      → List (Act P) × Bool × Sandbox Q × SandboxStatus
  unfolding maybe_restore_launcher hold_until_restored
  derive_and_patch sb cls pod =
      let (l, restored, st) = maybe_restore_launcher c sb pod (derive sb (some pod.pod) c.now) in
      let desired = apply_policies c.parse restored cls (hold_until_restored restored st) c.now in
      let written = record restored { status = desired } in
      if c.same_status restored.status desired then (l, true, restored, desired) else (
        l ++ patch_status desired (c.status_patched desired) ∷ [],
        c.status_patched desired,
        written,
        desired,
      )

  pod_deletion : Run P
  pod_deletion =
      (delete_pod c.pod_deleted ∷ [], elim c.pod_deleted [ refused ↦ Ended.failed | _ ↦ stop ])

  degraded : Sandbox Q → Option SessionCheckpointSpec → List (Act P) × Bool
  unfolding has_ref ck_or_new
  degraded sb none = ([], true)
  degraded sb (some spec) =
      let ck =
        record_recovery (ck_or_new sb.status.checkpoint spec) restarted_from_workspace c.now none in
      let st = record (sb.status) { checkpoint = some ck } in
      if has_ref sb.status.checkpoint
      then ([], true)
      else (patch_status st (c.status_patched st) ∷ [], c.status_patched st)

  unfoldable pub restart_exited_session : Sandbox Q → Option (SandboxClass Q) → Run P
  unfolding degraded pod_deletion after_acts
  restart_exited_session sb cls =
      let (l, stamped) = degraded sb (session_checkpoint_policy sb cls) in
      if not stamped then (l, Ended.failed) else after_acts l pod_deletion

  -- Steps (12) to (14).
  closing : Sandbox Q → Option (SandboxClass Q) → LivePod → SandboxStatus → Duration → Run P
  unfolding deletes_pod requeue_for after_acts SandboxPhase-discrete
  closing sb cls pod desired wait =
      let rest = requeue_after (requeue_for c sb cls desired wait) in
      if desired.phase == SandboxPhase.failed && not pod.terminating && deletes_pod desired.reason
      then (delete_pod c.pod_deleted ∷ [], elim c.pod_deleted [ refused ↦ Ended.failed | _ ↦ rest ])
      else ([], rest)

  -- Step (11a), and the rest.
  on_lifecycle : Ended → Run P → Run P
  on_lifecycle Ended.failed rest = ([], Ended.failed)
  on_lifecycle (requeue_after d) rest = if ltb_ℤ (pos 0) d then ([], requeue_after d) else rest

  paused_or_resumed :
      Sandbox Q → Option (SandboxClass Q) → LivePod → SandboxStatus → Duration → Run P
  unfolding closing on_lifecycle after_acts
  paused_or_resumed sb cls pod desired wait =
      let rest = closing sb cls pod desired wait in
      let (l, answer) = reconcile_phase3_lifecycle c.lifecycle sb desired.phase in
      if not c.has_coordinator
      then rest
      else after_acts (map lifecycle l) (on_lifecycle answer rest)

  -- Step (11b), and the rest.
  unfoldable pub settle :
      Sandbox Q → Option (SandboxClass Q) → LivePod → SandboxStatus → Duration → Run P
  unfolding session_pod_ended restart_exited_session paused_or_resumed
  settle sb cls pod desired wait =
      if session_pod_ended sb desired pod
      then restart_exited_session sb cls
      else paused_or_resumed sb cls pod desired wait

  -- Step (11c), and the rest.
  on_checkpoint :
      Sandbox Q → Option (SandboxClass Q) → LivePod → SandboxStatus → Outcome Handled → Run P
  on_checkpoint sb cls pod desired (err e) = ([], Ended.failed)
  on_checkpoint sb cls pod desired (ok h) =
      if h.handled then ([], requeue_after h.after) else settle sb cls pod desired h.after

  unfoldable pub with_status : Sandbox Q → Option (SandboxClass Q) → LivePod → SandboxStatus → Run P
  unfolding on_checkpoint after_acts vm_of
  with_status sb cls pod desired =
      let (l, outcome) =
        reconcile_session_checkpoint c.parse c.checkpoints sb cls (vm_of pod) desired in
      if is_session sb.spec
      then after_acts (map checkpoint l) (on_checkpoint sb cls pod desired outcome)
      else settle sb cls pod desired (pos 0)

  unfoldable pub reconcile_existing_pod : Sandbox Q → Option (SandboxClass Q) → LivePod → Run P
  unfolding ensure_policies holding_suspend derive_and_patch with_status after_acts
  reconcile_existing_pod sb cls pod =
      let (l, placed) = ensure_policies sb cls in
      let (m, patched, written, desired) = derive_and_patch sb cls pod in
      if not placed
      then (l, Ended.failed)
      else if holding_suspend sb pod
      then (l, requeue_after suspend_wait_requeue)
      else if not patched
      then (l ++ m, Ended.failed)
      else after_acts l (after_acts m (with_status written cls pod desired))
