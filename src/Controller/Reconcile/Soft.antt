-- ===== src/Controller/Reconcile/Soft.antt =====
-- The steps before the Pod: none creates one, or writes a policy or a claim.
use setec.Prelude.{
  any-append, ◌≡◌, refl, inl, inr, Bool, true, false, String, Option, some, List, ◌==◌, ◌!=◌, ◌&&◌,
  ◌||◌, not, map, string_eq, is_some, Bool-cases, arith,
}
use setec.Prelude.Time.{Duration}
use setec.Api.{Sandbox, SandboxClass, Snapshot, failed, ready, snapshot_phase_eq}
use setec.Api.Session.{is_session, is_ephemeral}
use setec.Snapshot
use setec.Snapshot.Reconcile.{requeue_after}
use setec.Checkpoint.{Read, found, missing, unread, Write, done, moot, refused}
use setec.Controller.{
  LivePod, Act, checkpoint, Server, Stage, ended, going, Run, and_then, hold, after_acts, patched,
  patch_failed_status, reason_class_not_found, pending_requeue,
}
use setec.Controller.Trace.{
  is_create, creates, all_neutral, guarded-skip, guarded-creates, creates-neutral,
}
use setec.Controller.Workspace.{
  contains_finalizer, released, by_claim, pod_gone, by_session_pod, teardown_workspace,
  handle_workspace_finalizer,
}
use setec.Checkpoint.Resume.{teardown_session_checkpoint}
use setec.Controller.Reap.{
  class_not_found_grace, class_not_found_requeue, orphaned_sandbox_retention,
  ephemeral_finished_retention, is_terminal_phase, or_default, class_not_found_expired,
  orphan_reap_due, ephemeral_reap_due, reaped, reap_expired_ephemeral, handle_unresolvable_class,
}
use setec.Controller.Admission.{
  snapshot_name, by_snapshot, on_hold, no_violations, is_local_snapshot, resolve_snapshot_ref,
}
use setec.Controller.Quiet.{
  neutral-checkpoint, patched-neutral, ending-neutral, hold-neutral, all_neutral-append, Guarded,
  Quiet,
}

module _ {Q P : Type 0} (c : Server Q P) where
  pub hold-creates :
      (sb : Sandbox Q) (reason : String) (wait : Duration)
      → creates (hold c sb reason wait).0 ≡ false
  hold-creates sb reason wait =
      creates-neutral (hold c sb reason wait).0 (hold-neutral c sb reason wait)

  -- A stage that does neutral things.
  abbrev pub Soft : {A : Type 0} → Stage P A → Type 0
  Soft (ended l e) = all_neutral l ≡ true
  Soft (going l a) = all_neutral l ≡ true

  pub Quiet-Soft : (sb : Sandbox Q) (s : Stage P (Sandbox Q)) → Quiet c sb s → Soft s
  Quiet-Soft sb (ended l e) q = q
  Quiet-Soft sb (going l next) q = q.0

  pub and_then-Soft :
      {A : Type 0} (sb : Sandbox Q) (s : Stage P A) (k : A → Run P)
      → Soft s
      → ((a : A) → Guarded c sb (k a).0)
      → Guarded c sb (and_then s k).0
  unfolding and_then
  and_then-Soft sb (ended l e) k q h = guarded-creates _ _ _ l (creates-neutral l q)
  and_then-Soft sb (going l a) k q h =
      rw (guarded-skip (not c.namespace_baseline_deny) false (not (is_session sb.spec)) l (k a).0 q)
        (h a)

  -- A Pod of a run comes from its last step, when what is before is neutral.
  pub and_then-creates :
      {A : Type 0} (s : Stage P A) (k : A → Run P)
      → Soft s
      → creates (and_then s k).0 ≡ true
      → (l : List (Act P)) × (a : A) × (s ≡ going l a) × (creates (k a).0 ≡ true)
  unfolding and_then
  and_then-creates (ended l e) k q h = absurd (let n = creates-neutral l q in cc)
  and_then-creates (going l a) k q h =
      let n = creates-neutral l q in
      let e = any-append is_create l (k a).0 in (l, a, refl, ground arith)

  pub resolve_snapshot_ref-Soft :
      (sb : Sandbox Q) (cls : Option (SandboxClass Q)) → Soft (resolve_snapshot_ref c sb cls)
  unfolding resolve_snapshot_ref by_snapshot on_hold
  resolve_snapshot_ref-Soft sb cls = elim (Bool-cases (snapshot_name sb.spec.snapshot_ref == "")) [
    | inl e ↦ rw e refl
    | inr e ↦ rw e (by_read c.snapshot)
  ]
    where
      by_read : (r : Read Snapshot) → Soft (by_snapshot c sb cls r)
      by_read missing = hold-neutral c sb "SnapshotUnavailable" pending_requeue
      by_read unread = refl
      by_read (found snap) = elim (Bool-cases (snap.status.phase != ready)) [
        | inl e ↦ rw e (hold-neutral c sb "SnapshotUnavailable" pending_requeue)
        | inr e ↦ elim (Bool-cases (no_violations (Snapshot.validate (some sb) (some snap) cls))) [
          | inr v ↦ rw (e, v) (hold-neutral c sb "SnapshotIncompatible" pending_requeue)
          | inl v ↦ elim (Bool-cases (is_local_snapshot snap)) [
            | inl l ↦ rw (e, v, l) refl
            | inr l ↦ rw (e, v, l) refl
          ]
        ]
      ]

  pub reap_expired_ephemeral-Soft : (sb : Sandbox Q) → Soft (reap_expired_ephemeral c sb)
  unfolding reap_expired_ephemeral reaped
  reap_expired_ephemeral-Soft sb =
      let retention = or_default c.ephemeral_retention ephemeral_finished_retention in
      let lives = not (is_ephemeral sb.spec) || not (is_terminal_phase sb.status.phase) in
      elim (Bool-cases lives) [
        | inl e ↦ rw e refl
        | inr e ↦ elim (Bool-cases (ephemeral_reap_due sb c.now retention).0) [
          | inl d ↦ rw (e, d) refl
          | inr d ↦ rw (e, d) refl
        ]
      ]

  pub handle_unresolvable_class-neutral :
      (sb : Sandbox Q) → all_neutral (handle_unresolvable_class c sb).0 ≡ true
  unfolding handle_unresolvable_class reaped patch_failed_status
  handle_unresolvable_class-neutral sb =
      let grace = or_default c.class_not_found_grace class_not_found_grace in
      let retention = or_default c.orphan_retention orphaned_sandbox_retention in
      let finished =
        is_terminal_phase sb.status.phase && sb.status.reason != reason_class_not_found in
      let run = patched c sb failed reason_class_not_found in
      let remaining = (orphan_reap_due sb c.now grace retention).1 in
      elim (Bool-cases finished) [
        | inl e ↦ rw e refl
        | inr e ↦ elim (Bool-cases (class_not_found_expired sb c.now grace)) [
          | inr x ↦ rw (e, x) (hold-neutral c sb reason_class_not_found class_not_found_requeue)
          | inl x ↦ elim (Bool-cases (orphan_reap_due sb c.now grace retention).0) [
            | inl d ↦ rw (e, x, d) refl
            | inr d ↦
                rw (e, x, d)
                  (ending-neutral c run (requeue_after remaining)
                    (patched-neutral c sb failed reason_class_not_found))
          ]
        ]
      ]

  teardown_workspace-neutral : (sb : Sandbox Q) → all_neutral (teardown_workspace c sb).0 ≡ true
  unfolding teardown_workspace by_session_pod pod_gone by_claim released after_acts
  teardown_workspace-neutral sb =
      let calls = teardown_session_checkpoint c.checkpoints sb c.kek_deleted in
      all_neutral-append c (map checkpoint calls) (by_session_pod c c.pod).0
        (neutral-checkpoint c calls) (by_pod_read c.pod)
    where
      by_claim_read : (r : Read Bool) → all_neutral (by_claim c r).0 ≡ true
      by_claim_read missing = refl
      by_claim_read unread = refl
      by_claim_read (found true) = refl
      by_claim_read (found false) = refl

      gone : (w : Write) → all_neutral (pod_gone c w).0 ≡ true
      gone refused = refl
      gone done = by_claim_read c.claim
      gone moot = by_claim_read c.claim

      by_pod_read : (r : Read LivePod) → all_neutral (by_session_pod c r).0 ≡ true
      by_pod_read missing = by_claim_read c.claim
      by_pod_read unread = refl
      by_pod_read (found p) = elim (Bool-cases p.terminating) [
        | inl e ↦ rw e (by_claim_read c.claim)
        | inr e ↦ rw e (gone c.pod_deleted)
      ]

  pub handle_workspace_finalizer-Quiet :
      (sb : Sandbox Q) → Quiet c sb (handle_workspace_finalizer c sb)
  unfolding handle_workspace_finalizer
  handle_workspace_finalizer-Quiet sb =
      let torn = teardown_workspace-neutral sb in
      let has = contains_finalizer sb.finalizers in
      elim (Bool-cases (is_some sb.deletion_timestamp)) [
        | inl d ↦ elim (Bool-cases has) [ inl f ↦ rw (d, f) torn | inr f ↦ rw (d, f) refl ]
        | inr d ↦ elim (Bool-cases (is_session sb.spec && not has)) [
          | inr f ↦ rw (d, f) (refl, refl)
          | inl f ↦ elim (Bool-cases c.finalizer_added) [
            | inl a ↦ rw (d, f, a) (refl, refl)
            | inr a ↦ rw (d, f, a) refl
          ]
        ]
      ]
