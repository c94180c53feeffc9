-- ===== src/Controller/Reap.antt =====
-- reapExpiredEphemeral and handleUnresolvableClass, with their deadlines: when the controller deletes a
-- Sandbox by itself. The times in force are positive; the sum of the two of an orphan wraps around.
pub mod Due
use setec.Prelude.{
  ◌+◌, ◌*◌, Bool, true, false, String, Option, none, some, List, [], ◌∷◌, ◌==◌, ◌!=◌, ◌&&◌, ◌||◌,
  not, string_eq, if◌then◌else◌,
}
use setec.Prelude.Int.{pos, pos_part, ltb_ℤ, leb_ℤ}
use setec.Prelude.Time.{Time, Duration, second, minute, is_zero, sub, add, positive_sum}
use setec.Api.{Sandbox, SandboxPhase, completed, failed, SandboxPhase-discrete, sandbox_phase_eq}
use setec.Api.Session.{is_ephemeral}
use setec.Snapshot.Reconcile.{Ended, requeue_after}
use setec.Checkpoint.{Write, refused}
use setec.Controller.{
  Act, delete_sandbox, Server, Stage, ended, going, Run, stop, reason_class_not_found,
  patch_failed_status, ending, hold,
}

abbrev pub class_not_found_grace : Duration
class_not_found_grace = pos (5 * minute)

abbrev pub class_not_found_requeue : Duration
class_not_found_requeue = pos (30 * second)

abbrev pub orphaned_sandbox_retention : Duration
orphaned_sandbox_retention = pos (60 * minute)

abbrev pub ephemeral_finished_retention : Duration
ephemeral_finished_retention = pos (10 * minute)

unfoldable pub is_terminal_phase : SandboxPhase → Bool
unfolding SandboxPhase-discrete
is_terminal_phase p = p == completed || p == failed

unfoldable pub or_default : Duration → Duration → Duration
or_default d default = if ltb_ℤ (pos 0) d then d else default

unfoldable pub class_not_found_expired : {Q : Type 0} → Sandbox Q → Time → Duration → Bool
class_not_found_expired sb now grace =
    let limit = if leb_ℤ grace (pos 0) then class_not_found_grace else grace in
    let created = sb.creation_timestamp in
    if is_zero created then false else leb_ℤ limit (sub now created)

-- Whether a deadline passed, and the time until it.
unfoldable pub orphan_reap_due :
    {Q : Type 0} → Sandbox Q → Time → Duration → Duration → Bool × Duration
orphan_reap_due sb now grace retention =
    let created = sb.creation_timestamp in
    let remaining = sub (add created (positive_sum (pos_part grace) (pos_part retention))) now in
    if is_zero created then (false, retention) else (leb_ℤ remaining (pos 0), remaining)

unfoldable pub due_after : Option Time → Time → Duration → Bool × Duration
due_after none now retention = (false, retention)
due_after (some fin) now retention =
    let remaining = sub (add fin retention) now in
    if is_zero fin then (false, retention) else (leb_ℤ remaining (pos 0), remaining)

unfoldable pub ephemeral_reap_due : {Q : Type 0} → Sandbox Q → Time → Duration → Bool × Duration
unfolding due_after
ephemeral_reap_due sb now retention = due_after sb.status.last_transition_time now retention

module _ {Q P : Type 0} (c : Server Q P) where
  -- The deletion of the Sandbox, which ends the pass.
  unfoldable pub reaped : Run P
  reaped = (
    delete_sandbox c.sandbox_deleted ∷ [],
    elim c.sandbox_deleted [ refused ↦ Ended.failed | _ ↦ stop ],
  )

  unfoldable pub reap_expired_ephemeral : Sandbox Q → Stage P (Unit {0})
  unfolding ephemeral_reap_due is_terminal_phase reaped
  reap_expired_ephemeral sb =
      let retention = or_default c.ephemeral_retention ephemeral_finished_retention in
      let (due, remaining) = ephemeral_reap_due sb c.now retention in
      let (l, e) = reaped in
      if not (is_ephemeral sb.spec) || not (is_terminal_phase sb.status.phase)
      then going [] tt
      else if not due
      then ended [] (requeue_after remaining)
      else ended l e

  unfoldable pub handle_unresolvable_class : Sandbox Q → Run P
  unfolding is_terminal_phase class_not_found_expired orphan_reap_due reaped hold
      patch_failed_status ending
  handle_unresolvable_class sb =
      let grace = or_default c.class_not_found_grace class_not_found_grace in
      let retention = or_default c.orphan_retention orphaned_sandbox_retention in
      let (due, remaining) = orphan_reap_due sb c.now grace retention in
      if is_terminal_phase sb.status.phase && sb.status.reason != reason_class_not_found
      then ([], stop)
      else if not (class_not_found_expired sb c.now grace)
      then hold c sb reason_class_not_found class_not_found_requeue
      else if due
      then reaped
      else ending c (patch_failed_status c sb reason_class_not_found) (requeue_after remaining)
