-- ===== src/Status/Policy.antt =====
-- internal/status/pause_timeout.go and session_idle.go, and their layering in `deriveStatus` of
-- internal/controller/sandbox_controller.go. `(time.Time, bool)` results are an `Option`. The
-- parse of an RFC 3339 text is a parameter.
use setec.Prelude.{
  String, Bool, true, false, Option, none, some, ◌==◌, ◌&&◌, not, is_some, lookup, if◌then◌else◌,
}
use setec.Prelude.Int.{pos, leb_ℤ}
use setec.Prelude.Time.{Time, Duration, add, before, after}
use setec.Api.{
  running, failed, paused, SandboxPhase-discrete, sandbox_phase_eq, SandboxStatus, Sandbox,
  SandboxClass,
}
use setec.Api.Session.{is_session, default_session_idle_timeout}
use setec.Status.{Pod, set_phase, derive}

abbrev pub reason_pause_timeout : String
reason_pause_timeout = "PauseTimeoutExceeded"

abbrev pub reason_idle_timeout : String
reason_idle_timeout = "IdleTimeout"

-- A deadline `d` after an instant, when `d` is a positive duration.
deadline_after : Option Duration → Time → Option Time
deadline_after none t = none
deadline_after (some d) t = if leb_ℤ d (pos 0) then none else some (add t d)

pause_limit : {Q : Type 0} → Option (SandboxClass Q) → Option Duration
pause_limit none = none
pause_limit (some cls) = cls.spec.max_pause_duration

pause_deadline_from : Option Time → Option Duration → Option Time
unfolding deadline_after
pause_deadline_from none d = none
pause_deadline_from (some t) d = deadline_after d t

unfoldable pub pause_deadline : {Q : Type 0} → SandboxStatus → Option (SandboxClass Q) → Option Time
unfolding pause_deadline_from pause_limit
pause_deadline st cls = pause_deadline_from st.paused_at (pause_limit cls)

-- The class has sessionCheckpoint set.
unfoldable pub has_checkpoint : {Q : Type 0} → Option (SandboxClass Q) → Bool
has_checkpoint none = false
has_checkpoint (some cls) = is_some cls.spec.session_checkpoint

-- `!ok || now.Before(deadline)` holds for no deadline and for one still ahead.
unfoldable pub is_ahead : Option Time → Time → Bool
is_ahead none now = true
is_ahead (some d) now = before now d

unfoldable pub apply_pause_policy :
    {Q : Type 0} → Sandbox Q → Option (SandboxClass Q) → SandboxStatus → Time → SandboxStatus
unfolding SandboxPhase-discrete has_checkpoint is_ahead
apply_pause_policy sb cls st now =
    if not (st.phase == paused)
    then st
    else if is_session sb.spec && has_checkpoint cls
    then st
    else if is_ahead (pause_deadline st cls) now
    then st
    else set_phase st failed reason_pause_timeout now

unfoldable pub later_of : Time → Option Time → Time
later_of last none = last
later_of last (some t) = if after t last then t else last

unfoldable pub parsed_activity : (String → Option Time) → Option String → Option Time
parsed_activity parse none = none
parsed_activity parse (some raw) = parse raw

unfoldable pub last_session_activity : {Q : Type 0} → (String → Option Time) → Sandbox Q → Time
unfolding later_of parsed_activity
last_session_activity parse sb =
    later_of (later_of sb.creation_timestamp sb.status.started_at)
      (parsed_activity parse (lookup "setec.zeroroot.ai/last-activity" sb.annotations))

-- The idle time of a class: its own when positive, else the default when the class has
-- checkpoints and sets none.
idle_limit : Option Duration → Bool → Option Duration
idle_limit none true = some default_session_idle_timeout
idle_limit none false = none
idle_limit (some d) ckpt = if leb_ℤ d (pos 0) then none else some d

unfoldable pub class_idle_limit : {Q : Type 0} → Option (SandboxClass Q) → Option Duration
unfolding idle_limit
class_idle_limit none = none
class_idle_limit (some cls) =
    idle_limit cls.spec.session_idle_timeout (is_some cls.spec.session_checkpoint)

from_activity : Time → Option Duration → Option Time
from_activity t none = none
from_activity t (some d) = some (add t d)

unfoldable pub session_idle_deadline :
    {Q : Type 0} → (String → Option Time) → Sandbox Q → Option (SandboxClass Q) → Option Time
unfolding from_activity
session_idle_deadline parse sb cls =
    if is_session sb.spec
    then from_activity (last_session_activity parse sb) (class_idle_limit cls)
    else none

unfoldable pub apply_session_idle_policy :
    {Q : Type 0}
    → (String → Option Time)
    → Sandbox Q
    → Option (SandboxClass Q)
    → SandboxStatus
    → Time
    → SandboxStatus
unfolding SandboxPhase-discrete has_checkpoint is_ahead
apply_session_idle_policy parse sb cls st now =
    if not (st.phase == running)
    then st
    else if has_checkpoint cls
    then st
    else if is_ahead (session_idle_deadline parse sb cls) now
    then st
    else set_phase st failed reason_idle_timeout now

-- The two policies, in the order in which the controller layers them on a derived status.
unfoldable pub apply_policies :
    {Q : Type 0}
    → (String → Option Time)
    → Sandbox Q
    → Option (SandboxClass Q)
    → SandboxStatus
    → Time
    → SandboxStatus
apply_policies parse sb cls st now =
    apply_pause_policy sb cls (apply_session_idle_policy parse sb cls st now) now

-- The status that a reconcile writes for a Sandbox with no snapshot to load: for such a Sandbox the
-- restore step between Derive and the policies returns its argument.
unfoldable pub derive_status :
    {Q : Type 0}
    → (String → Option Time)
    → Sandbox Q
    → Option (SandboxClass Q)
    → Option Pod
    → Time
    → SandboxStatus
derive_status parse sb cls pod now = apply_policies parse sb cls (derive sb pod now) now
