-- ===== src/Controller/Tests.antt =====
-- One pass of the controller over a session and over a run to completion.
use setec.Prelude.{
  ◌+◌, ℕ, ◌*◌, ltb, ◌≤◌, ◌≡◌, ◌≢◌, ◌↔◌, refl, inl, true, false, none, some, [], ◌∷◌, arith,
}
use Prim.Native.Nat.{compare}
use setec.Prelude.Int.{pos}
use setec.Prelude.Time.{minute, max_duration}
use setec.Api.{Sandbox, running, session}
use setec.Api.Samples.{session_sandbox, standard_class}
use setec.Api.Session.{is_session, is_ephemeral}
use setec.Snapshot.Reconcile.{Ended, requeue_after}
use setec.Class.Resolver.{got}
use setec.Checkpoint.{found, missing, done, loaded, Cluster}
use setec.Desired.{taken, Answers}
use setec.Controller.{Disk, Server}
use setec.Controller.Trace.{creates, reaps, releases}
use setec.Controller.Workspace.{handle_workspace_finalizer, teardown_workspace}
use setec.Controller.Workspace.Wiped.{PodGone, ClaimGone, teardown_workspace-releases}
use setec.Controller.Reap.{or_default, reap_expired_ephemeral, handle_unresolvable_class}
use setec.Controller.Reap.Due.{grace, orphan_retention, Overdue, handle_unresolvable_class-Overdue}
use setec.Controller.Admission.{resolve_tenant, resolve_class, fits_class, resolve_snapshot_ref}
use setec.Controller.Launch.{handle_missing_pod}
use setec.Controller.Deadlines.{requeue_for}
use setec.Controller.Deadlines.Wakes.{WakesBy, requeue_for-WakesBy}
use setec.Controller.Reconcile.{reconcile}
use setec.Controller.Reconcile.Admits.{Admits, reconcile-Admits}
use setec.Class.{validate, effective_scratch, scratch_ceiling, effective_mode}
use setec.Class.Resolver.{resolve}
use setec.WarmPool.{select_base}
use setec.Checkpoint.{session_checkpoint_policy}
use setec.Status.Policy.{session_idle_deadline, class_idle_limit}

abbrev cluster : Cluster ℕ
cluster = record {
  now = 120 * minute;
  has_coordinator = true;
  kek_before = missing;
  kek_created = done;
  kek_after = missing;
  session_pod = missing;
  checkpoint_session = λ seq kek leave parent. none;
  restore_checkpoint = λ ref kek taken. loaded;
  live = some session_sandbox;
  node_lost = missing;
  node_drained = missing;
  checkpoint_patched = true;
  suspend_patched = true;
  recovery_patched = true;
  pending_patched = true;
  pod_marked = done;
  pod_deleted = done;
  sandbox_deleted = done;
}

abbrev answers : Answers
answers = record {
  now = 120 * minute;
  pod = none;
  dial = λ node. none;
  existing = setec.Snapshot.Reconcile.Read.missing;
  created = taken;
  snapshotting_patched = true;
  phase_patched = true;
  sandbox_deleted = setec.Snapshot.Reconcile.Write.done;
}

-- A new session, in a namespace with neither a policy nor a claim; a policy is a number.
abbrev fresh : Server ℕ ℕ
fresh = record {
  now = 120 * minute;
  multi_tenancy_enabled = false;
  tenant_label_key = "";
  class_not_found_grace = pos 0;
  orphan_retention = pos 0;
  ephemeral_retention = pos 0;
  namespace_baseline_deny = true;
  has_coordinator = true;
  refresh_interval = pos 0;
  warm_pool_namespace = "";
  quantities = record { cmp = compare; is_positive = ltb 0; default_scratch = 10 };
  parse = λ s. none;
  is_dns_label = λ s. true;
  is_address = λ s. false;
  same_status = λ s t. false;
  same_policy = λ p q. true;
  sandbox = found session_sandbox;
  namespace_labels = missing;
  classes = some (record { get = λ name. got standard_class; list = some (standard_class ∷ []) });
  snapshot = missing;
  pod = missing;
  baseline = missing;
  baseline_created = done;
  baseline_patched = true;
  generate = λ sb cls. some 7;
  policy = missing;
  policy_created = done;
  policy_read_back = true;
  policy_patched = true;
  claim = missing;
  claim_created = done;
  claim_deleted = done;
  finalizer_added = true;
  finalizer_removed = true;
  status_patched = λ st. true;
  sandbox_deleted = done;
  pod_deleted = done;
  kek_deleted = done;
  checkpoints = cluster;
  lifecycle = answers;
  resolvers_for = λ cls. true;
  disk = Disk.disk_ready;
  bases = some [];
  base_key = λ cls image. image;
  base_marked = true;
  identity_ensured = true;
  pod_built = true;
  pod_created = done;
  load_source = λ namespace name. none;
  restore_sandbox = λ snap. loaded;
  restored_marked = true;
}

made : creates (reconcile fresh).0 ≡ true
unfolding reconcile handle_workspace_finalizer is_session reap_expired_ephemeral is_ephemeral
    resolve_tenant resolve_class resolve fits_class validate effective_scratch scratch_ceiling
    effective_mode resolve_snapshot_ref handle_missing_pod session_checkpoint_policy select_base
made = refl

reconcile-Admits_example : Admits fresh
reconcile-Admits_example = reconcile-Admits fresh made

-- A Running session, made an hour and a half before.
abbrev old_session : Sandbox ℕ
old_session = record session_sandbox {
  creation_timestamp = 30 * minute;
  status = record (session_sandbox.status) { phase = running; started_at = some (110 * minute) };
}

-- It is deleted, though its phase is not terminal.
deleted_old : reaps (handle_unresolvable_class fresh old_session).0 ≡ true
unfolding handle_unresolvable_class or_default
deleted_old = refl

short : grace fresh + orphan_retention fresh ≤ max_duration
unfolding or_default
short = omega arith

handle_unresolvable_class-Overdue_example :
    (reaps (handle_unresolvable_class fresh old_session).0 ≡ true) ↔ Overdue fresh old_session
handle_unresolvable_class-Overdue_example =
    handle_unresolvable_class-Overdue fresh old_session short

teardown_workspace-releases_example :
    (releases (teardown_workspace fresh session_sandbox).0 ≡ true)
    ↔ (PodGone fresh missing × ClaimGone fresh missing)
teardown_workspace-releases_example = teardown_workspace-releases fresh session_sandbox

no_idle : session_idle_deadline fresh.parse old_session none ≢ some 0
unfolding session_idle_deadline class_idle_limit is_session
no_idle h = cc

requeue_for-WakesBy_example :
    WakesBy
      (120 * minute)
      (140 * minute)
      (requeue_for fresh old_session none old_session.status (pos 0))
requeue_for-WakesBy_example =
    requeue_for-WakesBy fresh old_session none old_session.status (pos 0) (140 * minute) no_idle (
      inl (
        refl,
        (
          110 * minute,
          30 * minute,
          record { mode = session; timeout = some (pos (30 * minute)) },
          refl,
          refl,
          refl,
          omega arith,
          refl,
        ),
      ))
