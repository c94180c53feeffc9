-- ===== src/Checkpoint/Reconcile.antt =====
-- reconcileSessionCheckpoint: suspendReason, handleNodeLoss, draining and periodicCheckpoint, and the
-- order of its steps.
pub mod Loads
use setec.Prelude.{
  ℕ, suc, ◌+◌, ◌-◌, ◌*◌, ◌^◌, leb, Bool, true, false, String, Option, none, some, List, [], ◌∷◌,
  ◌++◌, ◌==◌, ◌!=◌, ◌&&◌, ◌||◌, not, string_eq, value_at, if◌then◌else◌,
}
use setec.Prelude.Int.{ℤ, pos, negsuc, ltb_ℤ, leb_ℤ}
use setec.Prelude.Time.{Time, Duration, second, max_duration, sub, add, time_left}
use setec.Api.{
  Sandbox, SandboxClass, SandboxStatus, SandboxCheckpointStatus, SessionCheckpointSpec, running,
  paused, state_suspended, SandboxPhase-discrete, sandbox_phase_eq, SandboxDesiredState-discrete,
  sandbox_desired_state_eq,
}
use setec.Api.Session.{effective_interval}
use setec.Status.Policy.{pause_deadline, session_idle_deadline, is_ahead}
use setec.Checkpoint.{
  Fault, status_not_patched, pod_not_deleted, Read, found, missing, unread, VmPod, NodeCondition,
  Node, Call, remove_pod, patch_status, emit, Cluster, Outcome, ok, err, Run, ◌>>=◌, ◌>>◌, say,
  attempt, Handled, suspend_wait_requeue, reason_suspended_idle, reason_user_suspended,
  reason_checkpoint_on_drain, reason_suspended_pause_timeout, session_checkpoint_policy,
}
use setec.Checkpoint.Take.{take_checkpoint}
use setec.Checkpoint.Suspend.{suspend_session}
use setec.Checkpoint.Restored.{restore_due, restore_pending_checkpoint}

abbrev pub node_loss_grace : Duration
node_loss_grace = pos (90 * second)

abbrev zero_result : Handled
zero_result = record { after = pos 0; handled = false }

-- suspendReason: a request, a pause past its cap, or an idle session; "" for none.
unfoldable pub suspend_reason :
    {Q : Type 0}
    → (String → Option Time)
    → Time
    → Sandbox Q
    → Option (SandboxClass Q)
    → SandboxStatus
    → String
unfolding SandboxPhase-discrete SandboxDesiredState-discrete is_ahead
suspend_reason parse now sb cls desired =
    if sb.spec.desired_state == state_suspended
      && (desired.phase == running || desired.phase == paused)
    then reason_user_suspended
    else if desired.phase == paused && not (is_ahead (pause_deadline desired cls) now)
    then reason_suspended_pause_timeout
    else if desired.phase == running && not (is_ahead (session_idle_deadline parse sb cls) now)
    then reason_suspended_idle
    else ""

-- nodeLostFor: how long the node is gone or not Ready.
ready_lost : Time → List NodeCondition → Option Duration
ready_lost now [] = none
ready_lost now (k ∷ ks) =
    if k.of_ready
    then if k.is_true then none else some (sub now k.last_transition_time)
    else ready_lost now ks

pub node_lost_for : Time → Read Node → Option Duration
unfolding ready_lost
node_lost_for now missing = some node_loss_grace
node_lost_for now unread = none
node_lost_for now (found n) = ready_lost now n.conditions

cordoned : Read Node → Bool
cordoned (found n) = n.unschedulable
cordoned _ = false

-- The instant that the periodic checkpoints count from, when there is one.
or_instant : Option Time → Option Time → Option Time
or_instant (some t) u = some t
or_instant none u = u

taken_at_of : Option SandboxCheckpointStatus → Option Time
taken_at_of none = none
taken_at_of (some ck) = ck.taken_at

unfoldable pub periodic_base : {Q : Type 0} → Sandbox Q → Option Time
unfolding or_instant taken_at_of
periodic_base sb = or_instant (taken_at_of sb.status.checkpoint) sb.status.started_at

-- `due`: a full interval since that instant.
unfoldable pub periodic_due : Option Time → Time → Duration → Bool
periodic_due none now interval = true
periodic_due (some base) now interval = leb_ℤ interval (sub now base)

-- The time until the next one, and a second at the least.
unfoldable pub next_checkpoint_in : Option Time → Time → Duration → Duration
next_checkpoint_in none now interval =
    let d = sub (add now interval) now in if ltb_ℤ d (pos second) then pos second else d
next_checkpoint_in (some base) now interval =
    let d = sub (add base interval) now in if ltb_ℤ d (pos second) then pos second else d

module _ {Q : Type 0} (parse : String → Option Time) (c : Cluster Q) where
  unfoldable pub draining : VmPod → Bool
  unfolding cordoned
  draining pod = pod.terminating || (pod.node_name != "" && cordoned c.node_drained)

  mark_pending : Sandbox Q → Option SandboxCheckpointStatus → Run (Unit {0})
  mark_pending sb none = ([], ok tt)
  mark_pending sb (some ck) =
      if ck.ref != "" && not ck.pending_restore
      then (
        patch_status sb.status
              (record (sb.status) { checkpoint = some (record ck { pending_restore = true }) })
            ∷ [],
        if c.pending_patched then ok tt else err status_not_patched,
      )
      else ([], ok tt)

  unfoldable pub resume_after_node_loss : Sandbox Q → Run Handled
  unfolding mark_pending
  resume_after_node_loss sb =
      say (emit "SessionNodeLost")
      >> mark_pending sb sb.status.checkpoint
      >> attempt remove_pod c.pod_deleted pod_not_deleted
      >> ([], ok (record { after = suspend_wait_requeue; handled = true }))

  lost_node : Sandbox Q → Duration → Run Handled
  unfolding resume_after_node_loss
  lost_node sb lost_for =
      if ltb_ℤ lost_for node_loss_grace
      then ([], ok (record { after = time_left (90 * second) lost_for; handled = true }))
      else resume_after_node_loss sb

  periodic_checkpoint : Sandbox Q → SessionCheckpointSpec → Run Handled
  unfolding periodic_base periodic_due next_checkpoint_in
  periodic_checkpoint sb policy =
      let interval = effective_interval (some policy) in
      if periodic_due (periodic_base sb) c.now interval
      then ((take_checkpoint c sb policy false).0, ok (record { after = interval; handled = true }))
      else (
        [],
        ok (record {
          after = next_checkpoint_in (periodic_base sb) c.now interval;
          handled = false;
        }),
      )

  module _ (sb : Sandbox Q) (cls : Option (SandboxClass Q)) (pod : VmPod)
      (desired : SandboxStatus) where
    -- Steps (d) to (f).
    by_reason : SessionCheckpointSpec → String → Run Handled
    unfolding periodic_checkpoint SandboxPhase-discrete
    by_reason policy reason =
        if reason != ""
        then suspend_session c sb policy pod reason
        else if desired.phase == running && ltb_ℤ (pos 0) (effective_interval (some policy))
        then periodic_checkpoint sb policy
        else ([], ok zero_result)

    -- Steps (c) to (f).
    while_alive : SessionCheckpointSpec → Run Handled
    unfolding by_reason draining SandboxPhase-discrete
    while_alive policy =
        if (desired.phase == running || desired.phase == paused) && draining pod
        then suspend_session c sb policy pod reason_checkpoint_on_drain
        else by_reason policy (suspend_reason parse c.now sb cls desired)

    -- Step (c0), when the node was looked at.
    by_node : SessionCheckpointSpec → Option Duration → Run Handled
    unfolding lost_node while_alive
    by_node policy none = while_alive policy
    by_node policy (some lost_for) = lost_node sb lost_for

    with_policy : Option SessionCheckpointSpec → Run Handled
    unfolding by_node restore_due
    with_policy none = ([], ok zero_result)
    with_policy (some policy) =
        if not c.has_coordinator
        then ([], ok zero_result)
        else if value_at pod.annotations "setec.zeroroot.ai/suspended" != ""
        then ([], ok (record { after = suspend_wait_requeue; handled = true }))
        else if restore_due sb pod desired
        then restore_pending_checkpoint c sb policy
        else by_node policy (
            if policy.durable && pod.node_name != "" then node_lost_for c.now c.node_lost else none)

    unfoldable pub reconcile_session_checkpoint : Run Handled
    unfolding with_policy
    reconcile_session_checkpoint = with_policy (session_checkpoint_policy sb cls)
