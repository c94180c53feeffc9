-- ===== src/Controller/Launch.antt =====
-- handleMissingPod, with checkBackend, ensureNamespaceBaseline, applyNetworkPolicy and createPod: the
-- policies come first, then the claim, then the Pod. Stamps of the warm pool, and what a cold boot
-- records, are left out; the owner reference of a policy or a Pod is set with its generation.
pub mod Policed
pub mod Guarded
pub mod Fair
use setec.Prelude.{
  ◌*◌, Bool, true, false, String, Option, none, some, List, [], ◌∷◌, ◌++◌, ◌==◌, ◌!=◌, ◌&&◌, ◌||◌,
  not, string_eq, value_at, map, if◌then◌else◌, StringMap, ltb,
}
use Prim.Native.String.{◌++◌ as join}
use setec.Prelude.Int.{pos, ltb_ℤ}
use setec.Prelude.Time.{Duration, second}
use setec.Api.{
  Sandbox, SandboxClass, SandboxClassRuntime, SandboxRuntimeStatus, SandboxCheckpointStatus,
  SessionCheckpointSpec, SandboxPhase, suspended, SandboxPhase-discrete, sandbox_phase_eq, Snapshot,
}
use setec.Api.Session.{is_session}
use setec.Snapshot.Reconcile.{Ended, requeue_after}
use setec.Checkpoint.{
  Read, found, missing, unread, Write, done, moot, refused, Outcome, ok, err,
  session_checkpoint_policy,
}
use setec.Checkpoint
use setec.Checkpoint.Take.{ensure_session_kek}
use setec.Checkpoint.Resume.{suspended_sandbox_action, pending_checkpoint, recycle_if_expired}
use setec.WarmPool.{select_base}
use setec.Controller.{
  Disk, disk_ready, disk_building, disk_failed, disk_error, Act, patch_status, keep_baseline,
  keep_policy, create_baseline, patch_baseline, create_policy, read_back, patch_policy, create_pod,
  mark_base, checkpoint, Server, Stage, ended, going, Run, and_then, after_acts, stop,
  patch_pending_status, patch_failed_status, ending,
}
use setec.Controller.Workspace.{ensure_workspace_pvc}
use setec.Controller.Reap.{is_terminal_phase}
use setec.Controller.Admission.{snapshot_name}

abbrev pub network_policy_read_back_requeue : Duration
network_policy_read_back_requeue = pos (2 * second)

abbrev pub disk_build_requeue : Duration
disk_build_requeue = pos (5 * second)

abbrev pub warm_base_annotation : String
warm_base_annotation = "setec.zeroroot.ai/warm-base"

-- ValidateBackend.
unfoldable pub valid_backend : Option SandboxClassRuntime → Bool
valid_backend none = true
valid_backend (some r) = r.backend == "" || r.backend == "launcher"

runtime_of : {Q : Type 0} → Option (SandboxClass Q) → Option SandboxClassRuntime
runtime_of none = none
runtime_of (some cls) = cls.spec.runtime

chosen : Option SandboxRuntimeStatus → String
chosen none = ""
chosen (some r) = r.chosen

-- The annotation with a new value; the empty text removes it.
without : String → StringMap → StringMap
without k [] = []
without k ((j, v) ∷ m) = if j == k then without k m else (j, v) ∷ without k m

unfoldable pub annotated : String → String → StringMap → StringMap
unfolding without
annotated k v m = if v == "" then without k m else (k, v) ∷ without k m

base_value : Option Snapshot → String
base_value none = ""
base_value (some base) = join base.namespace (join "/" base.name)

base_node : Option Snapshot → String → String
base_node none pinned = pinned
base_node (some base) pinned = base.spec.node

live_checkpoint : Option SandboxCheckpointStatus → Bool
live_checkpoint none = false
live_checkpoint (some ck) = ck.ref != "" && not ck.pending_restore

marked_pending : Option SandboxCheckpointStatus → Option SandboxCheckpointStatus
marked_pending none = none
marked_pending (some ck) = some (record ck { pending_restore = true })

module _ {Q P : Type 0} (c : Server Q P) where
  -- checkBackend.
  unfoldable pub check_backend : Sandbox Q → Option (SandboxClass Q) → Stage P (Sandbox Q)
  unfolding valid_backend runtime_of chosen
  check_backend sb cls =
      let refused_status = record (sb.status) {
        phase = SandboxPhase.failed;
        reason = "UnsupportedBackend";
      } in
      let chosen_status = record (sb.status) { runtime = some (record { chosen = "launcher" }) } in
      if not (valid_backend (runtime_of cls))
      then ended (patch_status refused_status (c.status_patched refused_status) ∷ [])
          (if c.status_patched refused_status then stop else Ended.failed)
      else if chosen sb.status.runtime != "launcher"
      then going (patch_status chosen_status (c.status_patched chosen_status) ∷ [])
          (record sb { status = chosen_status })
      else going [] sb

  unfoldable pub baseline_made : Write → List (Act P) × Bool
  baseline_made refused = (create_baseline refused ∷ [], false)
  baseline_made w = (create_baseline w ∷ [], true)

  unfoldable pub by_baseline : Read Bool → List (Act P) × Bool
  unfolding baseline_made
  by_baseline missing = baseline_made c.baseline_created
  by_baseline unread = ([], false)
  by_baseline (found true) = (keep_baseline ∷ [], true)
  by_baseline (found false) = (patch_baseline c.baseline_patched ∷ [], c.baseline_patched)

  -- ensureNamespaceBaseline: whether it ended with no error.
  unfoldable pub ensure_namespace_baseline : List (Act P) × Bool
  unfolding by_baseline
  ensure_namespace_baseline =
      if not c.namespace_baseline_deny then ([], true) else by_baseline c.baseline

  -- A Create that finds a policy is no evidence of the rules; nor is one that cannot be read back.
  unfoldable pub policy_made : P → Write → Run P
  policy_made desired refused = (create_policy desired refused ∷ [], Ended.failed)
  policy_made desired moot =
      (create_policy desired moot ∷ [], requeue_after network_policy_read_back_requeue)
  policy_made desired done = (
    create_policy desired done ∷ read_back desired c.policy_read_back ∷ [],
    if c.policy_read_back then stop else requeue_after network_policy_read_back_requeue,
  )

  unfoldable pub by_policy : P → Read P → Run P
  unfolding policy_made
  by_policy desired missing = policy_made desired c.policy_created
  by_policy desired unread = ([], Ended.failed)
  by_policy desired (found existing) =
      if c.same_policy existing desired then (keep_policy desired ∷ [], stop) else (
        patch_policy desired c.policy_patched ∷ [],
        if c.policy_patched then stop else Ended.failed,
      )

  unfoldable pub generated : Option P → Run P
  unfolding by_policy
  generated none = ([], Ended.failed)
  generated (some desired) = by_policy desired c.policy

  unfoldable pub apply_network_policy : Sandbox Q → Option (SandboxClass Q) → Run P
  unfolding generated
  apply_network_policy sb cls = generated (c.generate sb cls)

  pod_made : String → Bool → Write → Run P
  pod_made node restore refused = (create_pod node restore refused ∷ [], Ended.failed)
  pod_made node restore w = (create_pod node restore w ∷ [], stop)

  -- The Pod, once its base is known.
  on_base : Sandbox Q → String → Run P
  unfolding pod_made pending_checkpoint snapshot_name
  on_base sb node =
      if not c.identity_ensured || not c.pod_built
      then ([], Ended.failed)
      else pod_made node (snapshot_name sb.spec.snapshot_ref != "" || pending_checkpoint sb)
          c.pod_created

  -- markWarmBase, and the rest.
  with_base : Sandbox Q → String → Option (Option Snapshot) → Run P
  unfolding on_base base_value base_node annotated after_acts
  with_base sb pinned none = ([], Ended.failed)
  with_base sb pinned (some base) =
      let want = base_value base in
      let marked = record sb { annotations = annotated warm_base_annotation want sb.annotations } in
      if value_at sb.annotations warm_base_annotation == want
      then on_base sb (base_node base pinned)
      else if not c.base_marked
      then (mark_base want false ∷ [], Ended.failed)
      else after_acts (mark_base want true ∷ []) (on_base marked (base_node base pinned))

  -- waitForLauncherDisk, and the rest.
  with_disk : Sandbox Q → Option (SandboxClass Q) → String → Disk → Run P
  unfolding with_base ending patch_failed_status patch_pending_status
  with_disk sb cls pinned disk_failed = ending c (patch_failed_status c sb "DiskBuildFailed") stop
  with_disk sb cls pinned disk_error = ([], Ended.failed)
  with_disk sb cls pinned disk_building =
      ending c (patch_pending_status c sb "DiskBuilding") (requeue_after disk_build_requeue)
  with_disk sb cls pinned disk_ready =
      with_base sb pinned (select_base c.quantities c.warm_pool_namespace c.base_key c.bases sb cls)

  unfoldable pub launch_pod : Sandbox Q → Option (SandboxClass Q) → String → Run P
  unfolding with_disk
  launch_pod sb cls pinned =
      if not (c.resolvers_for cls) then ([], Ended.failed) else with_disk sb cls pinned c.disk

  -- The claim of a session, and the Pod.
  on_policy : Sandbox Q → Option (SandboxClass Q) → String → Ended → Run P
  unfolding launch_pod ensure_workspace_pvc after_acts
  on_policy sb cls pinned Ended.failed = ([], Ended.failed)
  on_policy sb cls pinned (requeue_after wait) =
      let (l, ready) = ensure_workspace_pvc c in
      let made = launch_pod sb cls pinned in
      if ltb_ℤ (pos 0) wait
      then ([], requeue_after wait)
      else if not (is_session sb.spec)
      then made
      else if not ready
      then (l, Ended.failed)
      else after_acts l made

  -- The baseline of the namespace, then the policy of the Sandbox.
  unfoldable pub policed : Sandbox Q → Option (SandboxClass Q) → String → Run P
  unfolding ensure_namespace_baseline apply_network_policy on_policy after_acts
  policed sb cls pinned =
      let (l, placed) = ensure_namespace_baseline in
      let (m, answer) = apply_network_policy sb cls in
      if not placed
      then (l, Ended.failed)
      else after_acts l (after_acts m (on_policy sb cls pinned answer))

  -- The key of a session with checkpoints, and the mark of a state to load.
  keyed : Sandbox Q → Outcome (Unit {0}) → Stage P (Sandbox Q)
  unfolding live_checkpoint marked_pending
  keyed sb (err e) = ended [] Ended.failed
  keyed sb (ok u) =
      let st = record (sb.status) { checkpoint = marked_pending sb.status.checkpoint } in
      if not (live_checkpoint sb.status.checkpoint)
      then going [] sb
      else if not (c.status_patched st)
      then ended (patch_status st false ∷ []) Ended.failed
      else going (patch_status st true ∷ []) (record sb { status = st })

  prefixed : List (Act P) → Stage P (Sandbox Q) → Stage P (Sandbox Q)
  prefixed l (ended m e) = ended (l ++ m) e
  prefixed l (going m sb) = going (l ++ m) sb

  pub by_policy_of : Sandbox Q → Option SessionCheckpointSpec → Stage P (Sandbox Q)
  unfolding keyed prefixed
  by_policy_of sb none = going [] sb
  by_policy_of sb (some spec) =
      let (l, outcome) = ensure_session_kek c.checkpoints in
      prefixed (map checkpoint l) (keyed sb outcome)

  -- What a session that is not resumed waits for.
  recycled : Checkpoint.Run Duration → Run P
  recycled (l, ok wait) = (map checkpoint l, requeue_after wait)
  recycled (l, err e) = (map checkpoint l, Ended.failed)

  unfoldable pub handle_missing_pod : Sandbox Q → Option (SandboxClass Q) → String → Run P
  unfolding is_terminal_phase recycled by_policy_of check_backend policed and_then
      SandboxPhase-discrete
  handle_missing_pod sb cls pinned =
      let waits =
        is_session sb.spec
        && sb.status.phase == suspended
        && not (suspended_sandbox_action c.parse sb) in
      if is_terminal_phase sb.status.phase
      then ([], stop)
      else if waits
      then recycled (recycle_if_expired c.checkpoints sb cls)
      else and_then (by_policy_of sb (session_checkpoint_policy sb cls))
          (λ sb1. and_then (check_backend sb1 cls) (λ sb2. policed sb2 cls pinned))
