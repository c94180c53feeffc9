-- ===== src/Controller/Reap/Due.antt =====
-- When the controller deletes a Sandbox by itself, in instants.
use setec.Prelude.{
  ℕ, ◌+◌, ◌*◌, ◌≤◌, ◌<◌, ◌≡◌, ◌⊎◌, ◌↔◌, refl, sym, ◌∙◌, inl, inr, Bool, true, false, String, Option,
  none, some, List, [], ◌!=◌, ◌&&◌, ◌||◌, not, string_eq, Bool-cases, arith, eq_iff,
}
use setec.Prelude.Int.{ℤ, pos, pos_part, leb_ℤ}
use setec.Prelude.Time.{minute, Time, Duration, max_duration, is_zero, sub, positive_sum}
use setec.Api.{Sandbox, SandboxPhase, pending, failed}
use setec.Api.Session.{is_ephemeral}
use setec.Snapshot.Reconcile.{Ended, requeue_after}
use setec.Controller.{
  Act, Server, ended, hold, ending, patched, patch_failed_status, patch_pending_status,
  reason_class_not_found,
}
use setec.Controller.Trace.{reaps}
use setec.Controller.Reap.{
  class_not_found_grace, class_not_found_requeue, orphaned_sandbox_retention,
  ephemeral_finished_retention, is_terminal_phase, or_default, class_not_found_expired,
  orphan_reap_due, due_after, ephemeral_reap_due, reaped, reap_expired_ephemeral,
  handle_unresolvable_class,
}

-- A deadline passed when it is not after now.
passed_iff : (t u : Time) → (leb_ℤ (sub t u) (pos 0) ≡ true) ↔ (t ≤ u)
passed_iff t u = ground arith

-- The settings in force are positive.
or_default_pos :
    (d : Duration) (n : ℕ)
    → 0 < n
    → (or_default d (pos n) ≡ pos (pos_part (or_default d (pos n))))
      × (0 < pos_part (or_default d (pos n)))
unfolding or_default
or_default_pos (pos m) n h = ground arith
or_default_pos (ℤ.negsuc m) n h = ground arith

class_expired :
    (created now g : ℕ)
    → 0 < created
    → 0 < g
    → g ≤ max_duration
    → created + g ≤ now
    → leb_ℤ (pos g) (sub now created) ≡ true
class_expired created now g a b d h = ground arith

due_after_iff :
    (o : Option Time) (now : Time) (retention : ℕ)
    → ((due_after o now (pos retention)).0 ≡ true)
      ↔ ((fin : Time) × (o ≡ some fin) × (0 < fin) × (fin + retention ≤ now))
unfolding due_after
due_after_iff none now retention = (λ h. cc, λ (fin, e, p, q). cc)
due_after_iff (some t) now retention =
    let (to, from) = passed_iff (t + retention) now in
    elim (Bool-cases (is_zero t)) [
      | inl z ↦ rw z (λ h. cc, λ (fin, e, p, q). absurd (ground arith))
      | inr z ↦ rw z (λ h. (t, refl, ground arith, to h), λ (fin, e, p, q). from (ground arith))
    ]

module _ {Q : Type 0} where
  orphan_reap_due_iff :
      (sb : Sandbox Q) (now : Time) (g r : ℕ)
      → g + r ≤ max_duration
      → ((orphan_reap_due sb now (pos g) (pos r)).0 ≡ true)
        ↔ ((0 < sb.creation_timestamp) × (sb.creation_timestamp + (g + r) ≤ now))
  unfolding orphan_reap_due
  orphan_reap_due_iff sb now g r bound =
      let fits : positive_sum g r ≡ pos (g + r) = ground arith in
      let (to, from) = passed_iff (sb.creation_timestamp + (g + r)) now in
      elim (Bool-cases (is_zero sb.creation_timestamp)) [
        | inl z ↦ rw z (λ h. cc, λ (p, q). absurd (ground arith))
        | inr z ↦ rw (z, fits) (λ h. (ground arith, to h), λ (p, q). from q)
      ]

module _ {Q P : Type 0} (c : Server Q P) where
  -- The times in force.
  abbrev pub grace : ℕ
  grace = pos_part (or_default c.class_not_found_grace class_not_found_grace)

  abbrev pub orphan_retention : ℕ
  orphan_retention = pos_part (or_default c.orphan_retention orphaned_sandbox_retention)

  abbrev pub ephemeral_retention : ℕ
  ephemeral_retention = pos_part (or_default c.ephemeral_retention ephemeral_finished_retention)

  -- A run to completion that ended at least the retention ago.
  abbrev pub Expired : Sandbox Q → Type 0
  Expired sb =
      (is_ephemeral sb.spec ≡ true)
      × (is_terminal_phase sb.status.phase ≡ true)
      × ((fin : Time) × (sb.status.last_transition_time ≡ some fin)
          × (0 < fin)
          × (fin + ephemeral_retention ≤ c.now))

  -- Made at least both times ago, and not ended for a reason of its own.
  abbrev pub Overdue : Sandbox Q → Type 0
  Overdue sb =
      ((is_terminal_phase sb.status.phase ≡ false) ⊎ (sb.status.reason ≡ reason_class_not_found))
      × (0 < sb.creation_timestamp)
      × (sb.creation_timestamp + (grace + orphan_retention) ≤ c.now)

  reap_expired_ephemeral-Expired :
      (sb : Sandbox Q) (l : List (Act P)) (e : Ended)
      → reap_expired_ephemeral c sb ≡ ended l e
      → reaps l ≡ true
      → Expired sb
  unfolding reap_expired_ephemeral ephemeral_reap_due
  reap_expired_ephemeral-Expired sb l e h r =
      let o = sb.status.last_transition_time in
      let retention = or_default c.ephemeral_retention ephemeral_finished_retention in
      let (same, _) = or_default_pos c.ephemeral_retention (10 * minute) (omega arith) in
      let lives = not (is_ephemeral sb.spec) || not (is_terminal_phase sb.status.phase) in
      elim (Bool-cases lives) [
        | inl k ↦ absurd (let g = rw k at h in cc)
        | inr k ↦ elim (Bool-cases (due_after o c.now retention).0) [
          | inr d ↦
              absurd
                (let g = rw (k, d) at h in let empty : l ≡ [] = cc in let n = rw empty at r in cc)
          | inl d ↦ (
            ground arith,
            ground arith,
            (due_after_iff o c.now (pos_part retention)).0 (rw same at d),
          )
        ]
      ]

  patched-reaps :
      (sb : Sandbox Q) (phase : SandboxPhase) (reason : String) (e : Ended)
      → reaps (ending c (patched c sb phase reason) e).0 ≡ false
  unfolding patched ending
  patched-reaps sb phase reason e = ground arith

  hold-reaps :
      (sb : Sandbox Q) (reason : String) (wait : Duration) → reaps (hold c sb reason wait).0 ≡ false
  unfolding hold patch_pending_status
  hold-reaps sb reason wait = patched-reaps sb pending reason (requeue_after wait)

  failed-reaps :
      (sb : Sandbox Q) (reason : String) (e : Ended)
      → reaps (ending c (patch_failed_status c sb reason) e).0 ≡ false
  unfolding patch_failed_status
  failed-reaps sb reason e = patched-reaps sb failed reason e

  -- The steps of the ramp, on what its three tests find.
  class_expired_of :
      (sb : Sandbox Q)
      → grace ≤ max_duration
      → 0 < sb.creation_timestamp
      → sb.creation_timestamp + (grace + orphan_retention) ≤ c.now
      → class_not_found_expired sb c.now (or_default c.class_not_found_grace class_not_found_grace)
        ≡ true
  unfolding class_not_found_expired
  class_expired_of sb bound made over =
      let (same, positive) = or_default_pos c.class_not_found_grace (5 * minute) (omega arith) in
      let e = class_expired sb.creation_timestamp c.now grace made positive bound (omega arith) in
      rw same (ground arith)

  finished : Sandbox Q → Bool
  finished sb = is_terminal_phase sb.status.phase && sb.status.reason != reason_class_not_found

  finished_iff :
      (sb : Sandbox Q)
      → (finished sb ≡ false) ↔ (
          (is_terminal_phase sb.status.phase ≡ false) ⊎ (sb.status.reason ≡ reason_class_not_found))
  unfolding finished
  finished_iff sb =
      let r = eq_iff sb.status.reason reason_class_not_found in
      elim (Bool-cases (is_terminal_phase sb.status.phase)) [
        | inr t ↦ (λ h. inl t, λ h. rw t refl)
        | inl t ↦ (
          λ h. inr (r.0 (ground arith)),
          λ h. elim h [ inl n ↦ cc | inr n ↦ let y = r.1 n in rw (t, y) refl ],
        )
      ]

  -- For a grace and a retention whose sum is a Duration: the step for a class that does not resolve
  -- deletes the Sandbox exactly when its phase is not terminal or its reason is ClassNotFound, and it was
  -- created at least the grace and the retention ago, at a time that is known.
  pub handle_unresolvable_class-Overdue :
      (sb : Sandbox Q)
      → grace + orphan_retention ≤ max_duration
      → (reaps (handle_unresolvable_class c sb).0 ≡ true) ↔ Overdue sb
  unfolding handle_unresolvable_class reaped finished
  handle_unresolvable_class-Overdue sb bound =
      let (same, _) = or_default_pos c.class_not_found_grace (5 * minute) (omega arith) in
      let (same2, _) = or_default_pos c.orphan_retention (60 * minute) (omega arith) in
      let g = or_default c.class_not_found_grace class_not_found_grace in
      let r = or_default c.orphan_retention orphaned_sandbox_retention in
      let (to, from) = orphan_reap_due_iff sb c.now grace orphan_retention bound in
      let (kept_of, of_kept) = finished_iff sb in
      (
        λ h. elim (Bool-cases (finished sb)) [
          | inl f ↦ absurd (let k = rw f at h in cc)
          | inr f ↦ elim (Bool-cases (class_not_found_expired sb c.now g)) [
            | inr x ↦ absurd (
                let n = hold-reaps sb reason_class_not_found class_not_found_requeue in
                let k = rw (f, x) at h in let m : true ≡ false = sym k ∙ n in cc)
            | inl x ↦ elim (Bool-cases (orphan_reap_due sb c.now g r).0) [
              | inr d ↦ absurd (
                  let n =
                    failed-reaps sb reason_class_not_found
                      (requeue_after (orphan_reap_due sb c.now g r).1) in
                  let k = rw (f, x, d) at h in let m : true ≡ false = sym k ∙ n in cc)
              | inl d ↦ let (made, over) = to (rw (same, same2) at d) in (kept_of f, made, over)
            ]
          ]
        ],
        λ (kept, made, over).
            let f = of_kept kept in
            let x = class_expired_of sb (omega (arith, bound)) made over in
            let d : (orphan_reap_due sb c.now g r).0 ≡ true =
              rw (same, same2) (from (made, over)) in
            rw (f, x, d) refl,
      )
