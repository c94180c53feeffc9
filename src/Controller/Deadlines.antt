-- ===== src/Controller/Deadlines.antt =====
-- requeueAfter and nextLifecycleDeadline, with DependsOnDNS of the generator of policies.
pub mod Wakes
use Prim.Native.String.{String, ◌++◌ as join, find, len, slice}
use setec.Prelude.{
  ◌+◌, ◌*◌, Bool, true, false, Option, none, some, List, [], ◌∷◌, ◌++◌, ◌==◌, ◌!=◌, ◌&&◌, ◌||◌, not,
  ltb, leb, string_eq, nat_eq, value_at, map, is_none, if◌then◌else◌,
}
use setec.Prelude.Int.{pos, ltb_ℤ}
use setec.Prelude.Time.{Time, Duration, second, is_zero, sub, add, before}
use setec.Api.{
  Sandbox, SandboxClass, SandboxStatus, SandboxCheckpointStatus, SandboxRuntimeStatus, SandboxPhase,
  pending, running, paused, suspended, SandboxPhase-discrete, sandbox_phase_eq,
  SessionCheckpointSpec, SessionRecoveryKind, restarted_from_workspace, Lifecycle, NetworkAllow,
  NetworkMode, egress_allow_list, NetworkMode-discrete, network_mode_eq, Snapshot,
}
use setec.Api.Session.{is_session, checkpoint_backend, record_recovery}
use setec.Status.{runs, ended, derive, reason_timeout}
use setec.Status.Policy.{
  pause_deadline, session_idle_deadline, apply_policies, reason_pause_timeout, reason_idle_timeout,
}
use setec.Class.{effective_posture}
use setec.Snapshot.Reconcile.{Ended, requeue_after}
use setec.Checkpoint
use setec.Checkpoint.{
  Write, done, moot, refused, Loaded, loaded, gate_refused, load_failed, Outcome, ok, err, Handled,
  suspend_wait_requeue, session_checkpoint_policy, is_launcher_sandbox,
}
use setec.Checkpoint.Reconcile.{reconcile_session_checkpoint}
use setec.Desired.{Step, reconcile_phase3_lifecycle}
use setec.Controller.{
  LivePod, vm_of, Act, delete_pod, patch_status, load, mark_restored, checkpoint, lifecycle, Server,
  Run, after_acts, stop,
}
use setec.Controller.Reap.{is_terminal_phase}
use setec.Controller.Admission.{snapshot_name}
use setec.Controller.Launch.{
  warm_base_annotation, annotated, ensure_namespace_baseline, apply_network_policy,
}

abbrev pub default_refresh_interval : Duration
default_refresh_interval = pos (60 * second)

-- A positive timeout counts from the start.
timeout_at : Option Time → Option Duration → Option Time
timeout_at (some started) (some d) = if ltb_ℤ (pos 0) d then some (add started d) else none
timeout_at _ _ = none

lifecycle_timeout : Option Lifecycle → Option Duration
lifecycle_timeout none = none
lifecycle_timeout (some l) = l.timeout

-- The earlier of two deadlines; the zero time is none, as in the code.
earlier : Option Time → Option Time → Option Time
earlier (some t) (some u) = if is_zero t || before u t then some u else some t
earlier none (some u) = some u
earlier o none = o

deadline_by_phase :
    {Q : Type 0}
    → (String → Option Time)
    → Sandbox Q
    → Option (SandboxClass Q)
    → SandboxStatus
    → Option Time
unfolding timeout_at lifecycle_timeout earlier SandboxPhase-discrete
deadline_by_phase parse sb cls st =
    if st.phase == running
    then earlier (timeout_at st.started_at (lifecycle_timeout sb.spec.lifecycle))
        (session_idle_deadline parse sb cls)
    else if st.phase == paused
    then pause_deadline st cls
    else none

-- max(t.Sub(now), a second).
wait_until : Option Time → Time → Option Duration
wait_until none now = none
wait_until (some t) now =
    let d = sub t now in
    if is_zero t then none else some (if ltb_ℤ d (pos second) then pos second else d)

unfoldable pub next_lifecycle_deadline :
    {Q : Type 0}
    → (String → Option Time)
    → Sandbox Q
    → Option (SandboxClass Q)
    → SandboxStatus
    → Time
    → Option Duration
unfolding deadline_by_phase wait_until
next_lifecycle_deadline parse sb cls st now = wait_until (deadline_by_phase parse sb cls st) now

named_host : (String → Bool) → List NetworkAllow → Bool
named_host is_address [] = false
named_host is_address (a ∷ as_) =
    let rest = named_host is_address as_ in
    if a.cidr != "" then rest else if not (is_address a.host) then true else rest

-- DependsOnDNS.
unfoldable pub depends_on_dns :
    {Q : Type 0} → (String → Bool) → Sandbox Q → Option (SandboxClass Q) → Bool
unfolding named_host NetworkMode-discrete
depends_on_dns is_address sb cls =
    let (mode, allow) = effective_posture sb cls in
    mode == egress_allow_list && named_host is_address allow

zero_wait : Duration → Bool
zero_wait (pos n) = n == 0
zero_wait _ = false

-- The shorter of two waits, where `pos 0` is none yet.
unfoldable pub sooner : Duration → Duration → Duration
unfolding zero_wait
sooner wait new = if zero_wait wait || ltb_ℤ new wait then new else wait

with_deadline : Duration → Option Duration → Duration
unfolding sooner
with_deadline wait none = wait
with_deadline wait (some d) = sooner wait d

module _ {Q P : Type 0} (c : Server Q P) where
  -- requeueAfter.
  unfoldable pub requeue_for :
      Sandbox Q → Option (SandboxClass Q) → SandboxStatus → Duration → Duration
  unfolding with_deadline
  requeue_for sb cls desired checkpoint_wait =
      let refresh =
        if ltb_ℤ (pos 0) c.refresh_interval then c.refresh_interval else default_refresh_interval in
      let dns : Duration = if depends_on_dns c.is_address sb cls then refresh else pos 0 in
      let wait : Duration =
        if ltb_ℤ (pos 0) checkpoint_wait then sooner dns checkpoint_wait else dns in
      with_deadline wait (next_lifecycle_deadline c.parse sb cls desired c.now)
