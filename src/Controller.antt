-- ===== src/Controller.antt =====
-- Reconcile of internal/controller/sandbox_controller.go: one pass of the Sandbox controller. This file
-- has what its steps share. The settings of the SandboxReconciler and the answers of the API server are
-- a record, a field per call; a run returns what it did, in order, and what it ended with. Events,
-- spans, metrics and log lines are left out. The reads of the clock in one pass give one instant.
pub mod Trace
pub mod Quiet
pub mod Fair
pub mod Workspace
pub mod Reap
pub mod Admission
pub mod Launch
pub mod Restore
pub mod Deadlines
pub mod Existing
pub mod Reconcile
mod Tests
use setec.Prelude.{
  ◌*◌, Bool, true, false, String, Option, none, some, List, [], ◌∷◌, ◌++◌, ◌==◌, ◌&&◌, string_eq,
  StringMap, if◌then◌else◌,
}
use setec.Prelude.Int.{pos}
use setec.Prelude.Time.{Time, Duration, second}
use setec.Api.{
  Sandbox, SandboxClass, SandboxStatus, SandboxPhase, pending, failed, SandboxPhase-discrete,
  sandbox_phase_eq, Snapshot,
}
use setec.Class.{QuantityOps}
use setec.Class.Resolver.{Client}
use setec.Snapshot.Reconcile.{Ended, requeue_after}
use setec.Checkpoint
use setec.Checkpoint.{Read, Write, Call, VmPod, Loaded}
use setec.Desired
use setec.Desired.{Step}
use setec.Status

-- The parts of a Pod that the controller reads.
pub record LivePod : Type 0 where
  pub pod : Status.Pod
  pub uid : String
  pub annotations : StringMap
  pub node_name : String
  pub terminating : Bool

unfoldable pub vm_of : LivePod → VmPod
vm_of p = record {
  uid = p.uid;
  annotations = p.annotations;
  node_name = p.node_name;
  phase = p.pod.phase;
  terminating = p.terminating;
}

-- What waitForLauncherDisk finds: the disk, a build that runs, a build that failed, or an error.
pub data Disk : Type 0 where
  disk_ready disk_building disk_failed disk_error : Disk

pub data Act (P : Type 0) : Type 0 where
  add_finalizer remove_finalizer : Bool → Act P
  delete_sandbox delete_pod delete_claim create_claim : Write → Act P
  patch_status : SandboxStatus → Bool → Act P
  -- What was read and is as wanted: the baseline, the policy, the claim.
  keep_baseline keep_claim : Act P
  keep_policy : P → Act P
  create_baseline : Write → Act P
  patch_baseline : Bool → Act P
  create_policy : P → Write → Act P
  -- The read of a policy that was just created.
  read_back : P → Bool → Act P
  patch_policy : P → Bool → Act P
  -- A Pod on a node, which waits for a state to load or boots.
  create_pod : String → Bool → Write → Act P
  -- RestoreSandbox of a Snapshot, and the annotations that record a restore and a base.
  load : Snapshot → Loaded → Act P
  mark_restored mark_base : String → Bool → Act P
  -- The calls of the checkpoint steps and of the desired state.
  checkpoint : Call → Act P
  lifecycle : Step → Act P

-- `P` is the NetworkPolicy of a Sandbox, with its labels and annotations; `generate` is
-- GenerateForClass and `same_policy` compares as reflect.DeepEqual does.
pub record Server (Q P : Type 0) : Type 0 where
  pub now : Time
  pub multi_tenancy_enabled : Bool
  pub tenant_label_key : String
  pub class_not_found_grace : Duration
  pub orphan_retention : Duration
  pub ephemeral_retention : Duration
  pub namespace_baseline_deny : Bool
  pub has_coordinator : Bool
  pub refresh_interval : Duration
  pub warm_pool_namespace : String
  pub quantities : QuantityOps Q
  pub parse : String → Option Time
  pub is_dns_label : String → Bool
  pub is_address : String → Bool
  pub same_status : SandboxStatus → SandboxStatus → Bool
  pub same_policy : P → P → Bool
  pub sandbox : Read (Sandbox Q)
  pub namespace_labels : Read StringMap
  pub classes : Option (Client Q)
  pub snapshot : Read Snapshot
  pub pod : Read LivePod
  -- Whether the baseline that was read is intact, and whether the claim is terminating.
  pub baseline : Read Bool
  pub baseline_created : Write
  pub baseline_patched : Bool
  pub generate : Sandbox Q → Option (SandboxClass Q) → Option P
  pub policy : Read P
  pub policy_created : Write
  pub policy_read_back : Bool
  pub policy_patched : Bool
  pub claim : Read Bool
  pub claim_created : Write
  pub claim_deleted : Write
  pub finalizer_added : Bool
  pub finalizer_removed : Bool
  pub status_patched : SandboxStatus → Bool
  pub sandbox_deleted : Write
  pub pod_deleted : Write
  pub kek_deleted : Write
  pub checkpoints : Checkpoint.Cluster Q
  pub lifecycle : Desired.Answers
  pub resolvers_for : Option (SandboxClass Q) → Bool
  pub disk : Disk
  -- The bases of the class in the pool, sorted by name, and the key of the image of the Sandbox.
  pub bases : Option (List Snapshot)
  pub base_key : SandboxClass Q → String → String
  pub base_marked : Bool
  pub identity_ensured : Bool
  pub pod_built : Bool
  pub pod_created : Write
  pub load_source : String → String → Option Snapshot
  pub restore_sandbox : Snapshot → Loaded
  pub restored_marked : Bool

-- What a step leaves: the end of the pass, or what it did and the value that the pass goes on with.
pub data Stage (P A : Type 0) : Type 0 where
  ended : List (Act P) → Ended → Stage P A
  going : List (Act P) → A → Stage P A

abbrev pub Run : Type 0 → Type 0
Run P = List (Act P) × Ended

-- A step, and the rest of the pass.
unfoldable pub and_then : {P A : Type 0} → Stage P A → (A → Run P) → Run P
and_then (ended l e) k = (l, e)
and_then (going l a) k = (l ++ (k a).0, (k a).1)

unfoldable pub after_acts : {P : Type 0} → List (Act P) → Run P → Run P
after_acts l (m, e) = (l ++ m, e)

abbrev pub stop : Ended
stop = requeue_after (pos 0)

abbrev pub pending_requeue : Duration
pending_requeue = pos (60 * second)

abbrev pub reason_class_not_found : String
reason_class_not_found = "ClassNotFound"

module _ {Q P : Type 0} (c : Server Q P) where
  -- The status that patchPendingStatus and patchFailedStatus write, unless it is there.
  unfoldable pub patched : Sandbox Q → SandboxPhase → String → List (Act P) × Bool
  unfolding SandboxPhase-discrete
  patched sb phase reason =
      let st = record (sb.status) {
        phase = phase;
        reason = reason;
        last_transition_time = some c.now;
      } in
      if sb.status.phase == phase && sb.status.reason == reason
      then ([], true)
      else (patch_status st (c.status_patched st) ∷ [], c.status_patched st)

  unfoldable pub patch_pending_status : Sandbox Q → String → List (Act P) × Bool
  unfolding patched
  patch_pending_status sb reason = patched sb pending reason

  unfoldable pub patch_failed_status : Sandbox Q → String → List (Act P) × Bool
  unfolding patched
  patch_failed_status sb reason = patched sb failed reason

  -- A patch of the status, and the end of the pass.
  unfoldable pub ending : List (Act P) × Bool → Ended → Run P
  ending (l, true) e = (l, e)
  ending (l, false) e = (l, Ended.failed)

  unfoldable pub hold : Sandbox Q → String → Duration → Run P
  unfolding ending patch_pending_status
  hold sb reason wait = ending (patch_pending_status sb reason) (requeue_after wait)
