-- ===== src/Checkpoint/Tests.antt =====
-- Checkpoint, suspend and resume of one session.
use setec.Prelude.{
  ℕ, ◌+◌, inr, arith, ◌-◌, ◌*◌, ◌≤◌, ◌<◌, min, ◌≡◌, ◌≢◌, refl, inl, true, false, String, Option,
  none, some, List, [], ◌∷◌, sym, ◌∙◌, ◌==◌, string_eq, eq_iff,
}
use setec.Prelude.Int.{pos}
use setec.Prelude.Time.{Time, minute, max_duration}
use setec.Api.{
  Sandbox, SandboxClass, SandboxStatus, SandboxCheckpointStatus, SessionRecoveryKind,
  SessionCheckpointSpec, resumed_from_checkpoint, running,
}
use setec.Api.Samples.{session_sandbox, standard_class}
use setec.Api.Session.{is_session}
use setec.Status.{pod_running}
use setec.Checkpoint.{
  Fault, Read, found, missing, done, VmPod, Cluster, Loaded, loaded, ok, Handled, Call, emit,
  delete_sandbox, Run, suspend_wait_requeue, reason_user_suspended, reason_suspended_idle,
  reason_suspended_pause_timeout, is_launcher_sandbox,
}
use setec.Checkpoint.Calls.{loads, written}
use setec.Checkpoint.Take.{take_checkpoint}
use setec.Checkpoint.Suspend.{suspend_session}
use setec.Checkpoint.Suspend.Released.{Safe, suspend_session-Safe}
use setec.Checkpoint.Restored.{consumed}
use setec.Checkpoint.Reconcile.{suspend_reason, reconcile_session_checkpoint}
use setec.Checkpoint.Reconcile.Loads.{Loads, reconcile_session_checkpoint-once}
use setec.Checkpoint.Resume.{suspended_sandbox_action, recycle_if_expired}
use setec.Checkpoint.Resume.Settled.{
  after_suspend, recycle_if_expired-deadline, suspended_sandbox_action-suspend_reason,
}

abbrev key : List ℕ
key =
    1 ∷ 2 ∷ 3 ∷ 4 ∷ 5 ∷ 6 ∷ 7 ∷ 8 ∷ 1 ∷ 2 ∷ 3 ∷ 4 ∷ 5 ∷ 6 ∷ 7 ∷ 8 ∷ 1 ∷ 2 ∷ 3 ∷ 4 ∷ 5 ∷ 6 ∷ 7 ∷ 8
    ∷ 1 ∷ 2 ∷ 3 ∷ 4 ∷ 5 ∷ 6 ∷ 7 ∷ 8 ∷ []

abbrev saved_once : SandboxCheckpointStatus
saved_once = record {
  ref = "team-a-worker-7f-ckpt-1";
  backend = "s3";
  sequence = 1;
  taken_at = some (110 * minute);
  size_bytes = 4096;
  pending_restore = true;
  last_recovery = SessionRecoveryKind.unset;
  last_recovery_at = none;
  last_recovery_state_taken_at = none;
  recoveries = 0;
  pod_uid = "pod-1";
  parents = [];
}

abbrev pending : Sandbox ℕ
pending = record session_sandbox {
  status = record (session_sandbox.status) { checkpoint = some saved_once; phase = running };
}

abbrev policy : SessionCheckpointSpec
policy = record {
  interval = some (pos (30 * minute));
  backend = "";
  durable = true;
  suspended_ttl = none;
}

abbrev durable_class : SandboxClass ℕ
durable_class = record standard_class {
  spec = record (standard_class.spec) { session_checkpoint = some policy };
}

abbrev next_pod : VmPod
next_pod = record {
  uid = "pod-2";
  annotations = [];
  node_name = "node-1";
  phase = pod_running;
  terminating = false;
}

abbrev calm : Sandbox ℕ → Cluster ℕ
calm live = record {
  now = 120 * minute;
  has_coordinator = true;
  kek_before = found (record { terminating = false; kek = key });
  kek_created = done;
  kek_after = found (record { terminating = false; kek = key });
  session_pod = found next_pod;
  checkpoint_session = λ seq kek leave parent. some ("team-a-worker-7f-ckpt-2", 4096);
  restore_checkpoint = λ ref kek taken. loaded;
  live = some live;
  node_lost = missing;
  node_drained = missing;
  checkpoint_patched = true;
  suspend_patched = true;
  recovery_patched = true;
  pending_patched = true;
  pod_marked = done;
  pod_deleted = done;
  sandbox_deleted = done;
}

suspend_session-Safe_example :
    Safe
      (calm pending)
      policy
      reason_user_suspended
      (take_checkpoint (calm pending) pending policy (is_launcher_sandbox pending)).2
      (suspend_session (calm pending) pending policy next_pod reason_user_suspended)
suspend_session-Safe_example =
    suspend_session-Safe (calm pending) pending policy next_pod reason_user_suspended

abbrev no_parse : String → Option Time
no_parse s = none

-- The Sandbox after the restore.
abbrev restored : Sandbox ℕ
restored = record pending {
  status = record (pending.status) {
    checkpoint = some (consumed saved_once resumed_from_checkpoint (120 * minute));
  };
}

restored-ok :
    (reconcile_session_checkpoint no_parse
      (calm pending)
      pending
      (some durable_class)
      next_pod
      pending.status).1
    ≡ ok (record { after = pos (30 * minute); handled = true })
unfolding reconcile_session_checkpoint setec.Checkpoint.session_checkpoint_policy
    setec.Api.Session.is_session setec.Status.runs
    setec.Checkpoint.Restored.restore_pending_checkpoint
    setec.Checkpoint.Restored.restore_still_pending setec.Checkpoint.Take.read_session_kek
    setec.Api.Session.effective_interval setec.Checkpoint.Take.delete_checkpoint_chain
restored-ok = refl

restored-load :
    loads
      (reconcile_session_checkpoint no_parse
        (calm pending)
        pending
        (some durable_class)
        next_pod
        pending.status).0
    ≡ "team-a-worker-7f-ckpt-1" ∷ []
unfolding reconcile_session_checkpoint setec.Checkpoint.session_checkpoint_policy
    setec.Api.Session.is_session setec.Status.runs
    setec.Checkpoint.Restored.restore_pending_checkpoint
    setec.Checkpoint.Restored.restore_still_pending setec.Checkpoint.Take.read_session_kek
    setec.Api.Session.effective_interval setec.Checkpoint.Take.delete_checkpoint_chain
restored-load = refl

restored-loads :
    loads
      (reconcile_session_checkpoint no_parse
        (calm pending)
        pending
        (some durable_class)
        next_pod
        pending.status).0
    ≢ []
restored-loads h = let e = restored-load in absurd (cc)

restored-written :
    written
      (reconcile_session_checkpoint no_parse
        (calm pending)
        pending
        (some durable_class)
        next_pod
        pending.status).0
    ≡ some restored.status
unfolding reconcile_session_checkpoint consumed setec.Checkpoint.session_checkpoint_policy
    setec.Api.Session.is_session setec.Status.runs
    setec.Checkpoint.Restored.restore_pending_checkpoint
    setec.Checkpoint.Restored.restore_still_pending setec.Checkpoint.Take.read_session_kek
    setec.Api.Session.effective_interval setec.Checkpoint.Take.delete_checkpoint_chain
restored-written = refl

reconcile_session_checkpoint-once_example :
    loads
      (reconcile_session_checkpoint no_parse
        (calm restored)
        pending
        (some durable_class)
        next_pod
        pending.status).0
    ≡ []
reconcile_session_checkpoint-once_example =
    reconcile_session_checkpoint-once no_parse (calm pending) (calm restored) pending pending
      restored (some durable_class) next_pod next_pod pending.status pending.status
      (record { after = pos (30 * minute); handled = true }) restored-ok restored-loads refl
      restored-written

differ : (a b : String) → (a == b) ≡ false → a ≢ b
differ a b n e = absurd (let t : (a == b) ≡ true = (eq_iff a b).1 e in cc)

-- No activity since the creation, 20 minutes before: idle.
idle_now :
    suspend_reason no_parse (120 * minute) pending (some durable_class) pending.status
    ≡ reason_suspended_idle
unfolding suspend_reason setec.Status.Policy.session_idle_deadline setec.Api.Session.is_session
    setec.Status.Policy.class_idle_limit setec.Status.Policy.last_session_activity
idle_now = refl

suspended_sandbox_action-suspend_reason_example :
    suspended_sandbox_action no_parse (
      after_suspend no_parse pending
        (some durable_class)
        policy
        (suspend_reason no_parse (calm pending).now pending (some durable_class) pending.status)
        (calm pending).now
        true
        (take_checkpoint (calm pending) pending policy false).1)
    ≡ false
suspended_sandbox_action-suspend_reason_example =
    suspended_sandbox_action-suspend_reason no_parse (calm pending) pending (some durable_class)
      policy pending.status false true
      (λ h. differ reason_suspended_idle "" refl (sym idle_now ∙ h))
      (inl
        (λ h. differ reason_suspended_idle reason_suspended_pause_timeout refl (sym idle_now ∙ h)))

-- A class that keeps its suspended sessions for an hour.
abbrev brief : SessionCheckpointSpec
brief = record policy { suspended_ttl = some (pos (60 * minute)) }

abbrev brief_class : SandboxClass ℕ
brief_class = record standard_class {
  spec = record (standard_class.spec) { session_checkpoint = some brief };
}

abbrev an_hour : ℕ
an_hour = 60 * minute

recycle_if_expired-deadline_example :
    ((calm pending).now < pending.creation_timestamp + an_hour
      → recycle_if_expired (calm pending) pending (some brief_class) ≡ (
        [],
        ok (pos (min (pending.creation_timestamp + an_hour - (calm pending).now) max_duration)),
      ))
    × (pending.creation_timestamp + an_hour ≤ (calm pending).now
        → (recycle_if_expired (calm pending) pending (some brief_class)).0
          ≡ emit "SessionRecycled" ∷ delete_sandbox ∷ [])
unfolding is_session
recycle_if_expired-deadline_example =
    recycle_if_expired-deadline pending (some brief_class) (calm pending) pending.creation_timestamp
      an_hour (inr (refl, refl)) (inl (refl, (brief_class, brief, refl, refl, refl, omega arith)))
