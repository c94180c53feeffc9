-- ===== src/Status.antt =====
-- internal/status/reconciler.go: the deriver that maps the observed Pod to the status of a
-- Sandbox. Go writes the status value field by field; here each step returns the new record. The
-- parts of a Pod that it reads are a record; its strings with named constants are enumerations.
pub mod Policy
pub mod Transitions
pub mod Stable
pub mod Timeout
pub mod Deadlines
pub mod Idle
mod Tests
use setec.Prelude.{
  ◌*◌, String, Bool, true, false, Option, none, some, List, [], ◌∷◌, ◌==◌, ◌||◌, ◌&&◌, not, any,
  is_none, is_some, if◌then◌else◌, nat_eq, string_eq,
}
use setec.Prelude.Int.{ℤ, pos, negsuc, leb_ℤ, ltb_ℤ}
use setec.Prelude.Time.{Time, Duration, minute, is_zero, sub}
use setec.Api.{
  SandboxPhase, pending, running, completed, failed, paused, snapshotting, restoring,
  SandboxPhase-discrete, sandbox_phase_eq, Lifecycle, SandboxStatus, Sandbox,
}
use setec.Api.Session.{is_session}

-- corev1.PodPhase.
pub data PodPhase : Type 0 where
  unset pod_pending pod_running pod_succeeded pod_failed pod_unknown : PodPhase

-- corev1.ContainerStateTerminated.
pub record Terminated : Type 0 where
  pub exit_code : ℤ  -- int32
  pub reason : String
  pub finished_at : Time

-- corev1.ContainerStatus: `waiting` is the reason of State.Waiting.
pub record ContainerStatus : Type 0 where
  pub waiting : Option String
  pub terminated : Option Terminated
  pub last_terminated : Option Terminated

-- corev1.PodCondition: whether its type is Ready, and whether its status is True.
pub record PodCondition : Type 0 where
  pub of_ready : Bool
  pub is_true : Bool

-- corev1.Pod. Of a container of the spec only its readiness probe counts.
pub record Pod : Type 0 where
  pub name : String
  pub creation_timestamp : Time
  pub readiness_probes : List Bool
  pub phase : PodPhase
  pub start_time : Option Time
  pub conditions : List PodCondition
  pub container_statuses : List ContainerStatus
  pub init_container_statuses : List ContainerStatus

abbrev pub image_pull_grace_period : Duration
image_pull_grace_period = pos (5 * minute)

abbrev pub reason_timeout : String
reason_timeout = "Timeout"

abbrev pub reason_image_pull_failure : String
reason_image_pull_failure = "ImagePullFailure"

abbrev pub reason_container_exited_non_zero : String
reason_container_exited_non_zero = "ContainerExitedNonZero"

abbrev pub reason_session_vm_restarting : String
reason_session_vm_restarting = "SessionVMRestarting"

pub is_terminal : SandboxPhase → Bool
is_terminal completed = true
is_terminal failed = true
is_terminal _ = false

pub is_coordinator_phase : SandboxPhase → Bool
is_coordinator_phase paused = true
is_coordinator_phase snapshotting = true
is_coordinator_phase restoring = true
is_coordinator_phase _ = false

unfoldable pub set_phase : SandboxStatus → SandboxPhase → String → Time → SandboxStatus
unfolding SandboxPhase-discrete
set_phase st phase reason now =
    let out =
      if st.phase == phase
      then st
      else record st { phase = phase; last_transition_time = some now } in
    record out { reason = reason }

-- The first terminated state of a list of containers.
first_terminated : List ContainerStatus → Option Terminated
first_terminated [] = none
first_terminated (c ∷ cs) = elim c.terminated [ some t ↦ some t | none ↦ first_terminated cs ]

exit_and_reason : Option Terminated → Option Terminated → ℤ × String
exit_and_reason (some t) init = (t.exit_code, t.reason)
exit_and_reason none (some t) = (t.exit_code, t.reason)
exit_and_reason none none = (pos 0, "")

pub terminated_exit_and_reason : Pod → ℤ × String
unfolding first_terminated exit_and_reason
terminated_exit_and_reason pod =
    exit_and_reason (first_terminated pod.container_statuses)
      (first_terminated pod.init_container_statuses)

created_or_now : Time → Time → Time
created_or_now created now = if is_zero created then now else created

-- The start of the wait: the end of the last termination, or the creation of the Pod, or now.
wait_since : Option Terminated → Time → Time → Time
unfolding created_or_now
wait_since none created now = created_or_now created now
wait_since (some t) created now =
    if is_zero t.finished_at then created_or_now created now else t.finished_at

waits_on_pull : Option String → Bool
waits_on_pull none = false
waits_on_pull (some reason) = reason == "ImagePullBackOff" || reason == "ErrImagePull"

container_stuck : Time → Time → ContainerStatus → Bool
unfolding waits_on_pull wait_since
container_stuck created now c =
    waits_on_pull c.waiting
    && leb_ℤ image_pull_grace_period (sub now (wait_since c.last_terminated created now))

pub image_pull_stuck : Pod → Time → Bool
unfolding container_stuck
image_pull_stuck pod now =
    any (container_stuck pod.creation_timestamp now) pod.container_statuses
    || any (container_stuck pod.creation_timestamp now) pod.init_container_statuses

pub or_time : Option Time → Time → Time
or_time none t = t
or_time (some s) t = s

-- The test on the effective start; `0` is the zero time.
runs_over : Duration → Time → Time → Bool
runs_over d start now =
    if leb_ℤ d (pos 0) then false else if is_zero start then false else ltb_ℤ d (sub now start)

timeout_of : Option Lifecycle → Option Duration
timeout_of none = none
timeout_of (some l) = l.timeout

over_limit : Option Duration → Time → Time → Bool
unfolding runs_over
over_limit none start now = false
over_limit (some d) start now = runs_over d start now

unfoldable pub timed_out : {Q : Type 0} → Sandbox Q → Option Time → Time → Bool
unfolding over_limit timeout_of or_time
timed_out sb started now =
    over_limit (timeout_of sb.spec.lifecycle) (or_time started sb.creation_timestamp) now

pub declares_readiness : Pod → Bool
declares_readiness pod = any (λ probe. probe) pod.readiness_probes

first_ready : List PodCondition → Bool
first_ready [] = false
first_ready (c ∷ cs) = if c.of_ready then c.is_true else first_ready cs

pub pod_ready : Pod → Bool
unfolding first_ready
pod_ready pod = first_ready pod.conditions

-- out.StartedAt, or what the Pod reports.
pub started_or : Option Time → Option Time → Option Time
started_or none reported = reported
started_or (some t) reported = some t

pub derived_running : {Q : Type 0} → Sandbox Q → SandboxStatus → Pod → Time → SandboxStatus
unfolding started_or or_time
derived_running sb out pod now =
    if declares_readiness pod && not (pod_ready pod)
    then set_phase out pending "" now
    else let started = some (or_time (started_or out.started_at pod.start_time) now) in
      let out' = record out { started_at = started } in
      if timed_out sb started now
      then set_phase out' failed reason_timeout now
      else set_phase out' running "" now

-- The two ends of a Pod.
succeeded_status : SandboxStatus → Pod → Time → SandboxStatus
unfolding started_or
succeeded_status out pod now =
    let out' = set_phase out completed "" now in
    record out' { exit_code = some (pos 0); started_at = started_or out'.started_at pod.start_time }

failed_reason : String → String
failed_reason reason = if reason == "" then reason_container_exited_non_zero else reason

failed_status : SandboxStatus → Pod → Time → SandboxStatus
unfolding started_or failed_reason
failed_status out pod now =
    let (exit, reason) = terminated_exit_and_reason pod in
    let out' = set_phase out failed (failed_reason reason) now in
    record out' { exit_code = some exit; started_at = started_or out'.started_at pod.start_time }

waiting_status : SandboxStatus → Pod → Time → SandboxStatus
waiting_status out pod now =
    if image_pull_stuck pod now
    then set_phase out failed reason_image_pull_failure now
    else set_phase out pending "" now

-- The `switch` on the Pod's phase.
pub from_phase : {Q : Type 0} → PodPhase → SandboxStatus → Pod → Time → Sandbox Q → SandboxStatus
unfolding succeeded_status failed_status waiting_status
from_phase pod_succeeded out pod now sb = succeeded_status out pod now
from_phase pod_failed out pod now sb = failed_status out pod now
from_phase pod_running out pod now sb = derived_running sb out pod now
from_phase _ out pod now sb = waiting_status out pod now

pub from_pod_phase : {Q : Type 0} → SandboxStatus → Pod → Time → Sandbox Q → SandboxStatus
unfolding from_phase
from_pod_phase out pod now sb = from_phase pod.phase out pod now sb

unfoldable pub runs : PodPhase → Bool
runs pod_running = true
runs _ = false

unfoldable pub ended : PodPhase → Bool
ended pod_succeeded = true
ended pod_failed = true
ended _ = false

-- The last step of Derive: a Pending Sandbox past its timeout fails.
pub bound_pending : {Q : Type 0} → Sandbox Q → SandboxStatus → Time → SandboxStatus
unfolding SandboxPhase-discrete
bound_pending sb out now =
    if out.phase == pending && timed_out sb out.started_at now
    then set_phase out failed reason_timeout now
    else out

pub name_pod : SandboxStatus → Pod → SandboxStatus
name_pod st pod = if pod.name == "" then st else record st { pod_name = pod.name }

-- Derive for a Sandbox that is not in a terminal phase.
pub observe : {Q : Type 0} → Sandbox Q → Option Pod → Time → SandboxStatus
unfolding runs ended
observe sb none now = set_phase sb.status pending "" now
observe sb (some pod) now =
    let out = name_pod sb.status pod in
    if is_coordinator_phase out.phase && runs pod.phase
    then out
    else if is_session sb.spec && ended pod.phase
    then set_phase out pending reason_session_vm_restarting now
    else bound_pending sb (from_pod_phase out pod now sb) now

unfoldable pub derive : {Q : Type 0} → Sandbox Q → Option Pod → Time → SandboxStatus
unfolding observe
derive sb pod now = if is_terminal sb.status.phase then sb.status else observe sb pod now
