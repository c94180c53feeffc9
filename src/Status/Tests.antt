-- ===== src/Status/Tests.antt =====
-- Runs of the deriver and its policies on small inputs, and the theorems at inputs.
use setec.Prelude.{ℕ, ◌*◌, ◌≡◌, ◌≢◌, ◌⊎◌, refl, ap, inl, inr, String, Option, none, some, [], arith}
use setec.Prelude.Int.{pos}
use setec.Prelude.Time.{Time, minute}
use setec.Api.{
  pending, running, completed, failed, paused, SandboxPhase-discrete, LifecycleMode-discrete,
  SandboxStatus, Sandbox,
}
use setec.Api.Session.{is_session}
use setec.Api.Samples.{new_status, session_sandbox, standard_class}
use setec.Status.{
  Pod, pod_running, pod_failed, derive, set_phase, name_pod, timed_out, is_terminal,
  is_coordinator_phase, observe, derived_running, declares_readiness, pod_ready, reason_timeout,
  reason_image_pull_failure, reason_session_vm_restarting, runs,
}
use setec.Status.Transitions.{with_status, session-derive}
use setec.Status.Stable.{derive_idem}
use setec.Status.Timeout.{HasTimeout, Within, start_of, derive-Within}
use setec.Status.Policy.{
  apply_pause_policy, apply_session_idle_policy, apply_policies, derive_status, pause_deadline,
  reason_idle_timeout, reason_pause_timeout,
}
use setec.Status.Deadlines.{PauseOver, apply_pause_policy-exact}
use setec.Status.Idle.{IdleOver, apply_session_idle_policy-exact}

abbrev running_pod : Pod
running_pod = record {
  name = "worker-vm";
  creation_timestamp = 100 * minute;
  readiness_probes = [];
  phase = pod_running;
  start_time = some (101 * minute);
  conditions = [];
  container_statuses = [];
  init_container_statuses = [];
}

abbrev dead_pod : Pod
dead_pod = record running_pod { phase = pod_failed }

-- A Pod that runs makes the Sandbox Running, from the start that the Pod reports.
starts : (derive session_sandbox (some running_pod) (102 * minute)).phase ≡ running
unfolding derive SandboxPhase-discrete LifecycleMode-discrete timed_out is_session is_terminal
    is_coordinator_phase name_pod set_phase setec.Status.bound_pending setec.Status.from_pod_phase
    derived_running declares_readiness
starts = refl

-- A session whose Pod died is Pending again.
restarts :
    (derive session_sandbox (some dead_pod) (102 * minute)).reason ≡ reason_session_vm_restarting
unfolding derive SandboxPhase-discrete LifecycleMode-discrete timed_out is_session is_terminal
    is_coordinator_phase name_pod set_phase setec.Status.bound_pending setec.Status.from_pod_phase
    derived_running declares_readiness
restarts = refl

-- Past the timeout the Sandbox fails.
times_out : (derive session_sandbox (some running_pod) (132 * minute)).reason ≡ reason_timeout
unfolding derive SandboxPhase-discrete LifecycleMode-discrete timed_out is_session is_terminal
    is_coordinator_phase name_pod set_phase setec.Status.bound_pending setec.Status.from_pod_phase
    derived_running declares_readiness
times_out = refl

session-derive_example :
    let st = derive session_sandbox (some dead_pod) (102 * minute) in
    (st.phase ≢ completed)
    × ((st.phase ≢ failed) ⊎ (st.reason ≡ reason_timeout) ⊎ (st.reason ≡ reason_image_pull_failure))
unfolding is_session LifecycleMode-discrete is_terminal
session-derive_example = session-derive session_sandbox (102 * minute) (some dead_pod) refl refl

derive_idem_example :
    derive
      (with_status session_sandbox (derive session_sandbox (some running_pod) (102 * minute)))
      (some running_pod)
      (102 * minute)
    ≡ derive session_sandbox (some running_pod) (102 * minute)
derive_idem_example = derive_idem session_sandbox (102 * minute) (some running_pod)

half_hour : HasTimeout session_sandbox (30 * minute)
half_hour = record {
  lifecycle = record { mode = setec.Api.session; timeout = some (pos (30 * minute)) };
  is_set = refl;
  value = refl;
  positive = omega arith;
  below = omega arith;
}

abbrev at_102 : SandboxStatus
at_102 = derive session_sandbox (some running_pod) (102 * minute)

derive-Within_example : Within (start_of session_sandbox at_102) (30 * minute) (102 * minute)
unfolding derive SandboxPhase-discrete LifecycleMode-discrete timed_out is_session is_terminal
    is_coordinator_phase name_pod set_phase setec.Status.bound_pending setec.Status.from_pod_phase
    derived_running declares_readiness
derive-Within_example =
    derive-Within session_sandbox (30 * minute) half_hour (102 * minute) running_pod refl refl
      (inl refl)

abbrev paused_status : SandboxStatus
paused_status = record new_status { phase = paused; paused_at = some (110 * minute) }

abbrev paused_sandbox : Sandbox ℕ
paused_sandbox = record session_sandbox { status = paused_status }

-- The pause bound of the class is five minutes.
pause_is_over : PauseOver paused_sandbox (some standard_class) paused_status (115 * minute)
pause_is_over = record {
  since = 110 * minute;
  bound = 5 * minute;
  is_paused = refl;
  is_stamped = refl;
  is_bound = (refl, omega arith);
  is_over = omega arith;
  not_owned = unfold is_session LifecycleMode-discrete setec.Status.Policy.has_checkpoint in refl;
}

apply_pause_policy-exact_example :
    let st = apply_pause_policy paused_sandbox (some standard_class) paused_status (115 * minute) in
    let over = PauseOver paused_sandbox (some standard_class) paused_status (115 * minute) in
    (over × (st ≡ set_phase paused_status failed reason_pause_timeout (115 * minute)))
    ⊎ ((¬ over) × (st ≡ paused_status))
apply_pause_policy-exact_example =
    apply_pause_policy-exact paused_sandbox paused_status (115 * minute) (some standard_class)
      (λ e. cc)

pause_fails :
    (apply_pause_policy paused_sandbox (some standard_class) paused_status (115 * minute)).phase
    ≡ failed
unfolding set_phase SandboxPhase-discrete
pause_fails = elim apply_pause_policy-exact_example [
  | inl h ↦ ap (λ (s : SandboxStatus). s.phase) h.1
  | inr h ↦ absurd (h.0 pause_is_over)
]

abbrev no_parse : String → Option Time
no_parse raw = none

abbrev running_status : SandboxStatus
running_status = record new_status { phase = running; started_at = some (101 * minute) }

abbrev running_sandbox : Sandbox ℕ
running_sandbox = record session_sandbox { status = running_status }

apply_session_idle_policy-exact_example :
    let st =
      apply_session_idle_policy no_parse running_sandbox
        (some standard_class)
        running_status
        (111 * minute) in
    let over =
      IdleOver no_parse running_sandbox (some standard_class) running_status (111 * minute) in
    (over × (st ≡ set_phase running_status failed reason_idle_timeout (111 * minute)))
    ⊎ ((¬ over) × (st ≡ running_status))
apply_session_idle_policy-exact_example =
    apply_session_idle_policy-exact no_parse running_sandbox running_status (111 * minute)
      (some standard_class) (λ e. cc)
