-- ===== src/Checkpoint/Resume.antt =====
-- suspendedSandboxAction, pendingCheckpoint, recycleIfExpired and teardownSessionCheckpoint.
pub mod Settled
use setec.Prelude.{
  Bool, true, false, String, Option, none, some, List, [], ◌∷◌, ◌++◌, ◌==◌, ◌!=◌, ◌&&◌, ◌||◌, not,
  string_eq, if◌then◌else◌,
}
use setec.Prelude.Int.{pos, ltb_ℤ}
use setec.Prelude.Time.{Time, Duration, sub, add, before}
use setec.Api.{
  Sandbox, SandboxClass, SandboxCheckpointStatus, SandboxDesiredState, state_running,
  state_suspended, SandboxDesiredState-discrete, sandbox_desired_state_eq,
}
use setec.Api.Session.{recycle_after}
use setec.Status.Policy.{last_session_activity}
use setec.Checkpoint.{
  Fault, not_recycled, Read, found, Write, refused, Secret, Call, delete_kek, delete_sandbox, emit,
  Cluster, Outcome, ok, err, Run, ◌>>=◌, ◌>>◌, say, attempt, Handled, reason_suspended_idle,
  reason_user_suspended, reason_checkpoint_on_drain, reason_suspended_pause_timeout,
  session_checkpoint_policy,
}
use setec.Checkpoint.Take.{delete_checkpoint_chain}

time_or : Option Time → Time → Time
time_or none t = t
time_or (some u) t = u

-- suspendedSandboxAction: whether a suspended session without a Pod resumes.
unfoldable pub suspended_sandbox_action : {Q : Type 0} → (String → Option Time) → Sandbox Q → Bool
unfolding time_or SandboxDesiredState-discrete
suspended_sandbox_action parse sb =
    let desired = sb.spec.desired_state in
    let reason = sb.status.reason in
    if desired == state_suspended
    then false
    else if reason == reason_checkpoint_on_drain || reason == reason_user_suspended
    then true
    else if reason == reason_suspended_pause_timeout
    then desired == SandboxDesiredState.unset || desired == state_running
    else if reason == reason_suspended_idle
    then not (before (last_session_activity parse sb) (time_or sb.status.last_transition_time 0))
    else true

pending : Option SandboxCheckpointStatus → Bool
pending none = false
pending (some ck) = ck.pending_restore && ck.ref != ""

unfoldable pub pending_checkpoint : {Q : Type 0} → Sandbox Q → Bool
unfolding pending
pending_checkpoint sb = pending sb.status.checkpoint

-- The end of the time that a suspended session is kept.
unfoldable pub recycle_deadline : {Q : Type 0} → Sandbox Q → Option (SandboxClass Q) → Time
unfolding time_or
recycle_deadline sb cls =
    add (time_or sb.status.last_transition_time sb.creation_timestamp)
      (recycle_after (session_checkpoint_policy sb cls))

module _ {Q : Type 0} (c : Cluster Q) where
  unfoldable pub recycle_if_expired : Sandbox Q → Option (SandboxClass Q) → Run Duration
  unfolding recycle_deadline
  recycle_if_expired sb cls =
      let wait = sub (recycle_deadline sb cls) c.now in
      if ltb_ℤ (pos 0) wait
      then ([], ok wait)
      else say (emit "SessionRecycled")
        >> attempt delete_sandbox c.sandbox_deleted not_recycled
        >> ([], ok (pos 0))

  -- The key goes first; the stored objects follow, whatever the answers are.
  kek_teardown : Read Secret → Write → List Call
  kek_teardown (found s) answer = if s.terminating then [] else elim answer [
    | refused ↦ delete_kek ∷ []
    | _ ↦ delete_kek ∷ emit "SessionKEKDeleted" ∷ []
  ]
  kek_teardown _ answer = []

  objects_teardown : Option SandboxCheckpointStatus → List Call
  objects_teardown none = []
  objects_teardown (some ck) =
      if ck.ref != "" && c.has_coordinator then delete_checkpoint_chain ck else []

  unfoldable pub teardown_session_checkpoint : Sandbox Q → Write → List Call
  unfolding kek_teardown objects_teardown
  teardown_session_checkpoint sb answer =
      kek_teardown c.kek_after answer ++ objects_teardown sb.status.checkpoint
