-- ===== src/Controller/Existing/Calm.antt =====
-- A pass over an existing Pod creates no Pod, deletes no Sandbox and takes no finalizer off by itself.
use setec.Prelude.{
  any-none, refl, inl, inr, Bool, true, false, String, Option, none, some, List, [], ◌∷◌, ◌++◌,
  ◌&&◌, ◌||◌, not, ◌==◌, map, Bool-cases,
}
use setec.Prelude.Int.{pos, ltb_ℤ}
use setec.Prelude.Time.{Duration}
use setec.Api.{
  Sandbox, SandboxClass, SandboxStatus, SandboxPhase, sandbox_phase_eq, Snapshot,
  SessionCheckpointSpec,
}
use setec.Api.Session.{is_session}
use setec.Status.{derive, runs}
use setec.Status.Policy.{apply_policies}
use setec.Snapshot.Reconcile.{Ended, requeue_after}
use setec.Checkpoint.{
  Read, found, missing, unread, Write, done, moot, refused, Loaded, loaded, gate_refused,
  load_failed, Outcome, ok, err, Call, Handled, session_checkpoint_policy,
}
use setec.Checkpoint.Reconcile.{reconcile_session_checkpoint}
use setec.Desired.{Step, reconcile_phase3_lifecycle}
use setec.Controller.{LivePod, vm_of, Act, checkpoint, lifecycle, Server, Run, after_acts}
use setec.Controller.Trace.{strange, Calm}
use setec.Controller.Launch.{
  ensure_namespace_baseline, by_baseline, baseline_made, apply_network_policy, generated, by_policy,
  policy_made,
}
use setec.Controller.Restore.{
  on_loaded, from_source, maybe_restore_launcher, needs_launcher_restore, hold_until_restored,
  restore_source, restored_value,
}
use setec.Controller.Existing.{
  ensure_policies, derive_and_patch, pod_deletion, degraded, restart_exited_session, closing,
  deletes_pod, on_lifecycle, paused_or_resumed, session_pod_ended, settle, on_checkpoint,
  with_status, holding_suspend, reconcile_existing_pod, has_ref,
}

module _ {Q P : Type 0} (c : Server Q P) where
  Calm-append : (l m : List (Act P)) → Calm l → Calm m → Calm (l ++ m)
  Calm-append l m h k = any-none strange l m h k

  pub Calm-checkpoint : (l : List Call) → Calm {P = P} (map checkpoint l)
  Calm-checkpoint [] = refl
  Calm-checkpoint (call ∷ l) = Calm-checkpoint l

  Calm-lifecycle : (l : List Step) → Calm {P = P} (map lifecycle l)
  Calm-lifecycle [] = refl
  Calm-lifecycle (step ∷ l) = Calm-lifecycle l

  pub ensure_namespace_baseline-Calm : Calm (ensure_namespace_baseline c).0
  unfolding ensure_namespace_baseline by_baseline baseline_made
  ensure_namespace_baseline-Calm = elim (Bool-cases c.namespace_baseline_deny) [
    | inr e ↦ rw e refl
    | inl e ↦ rw e (by_read c.baseline)
  ]
    where
      made : (w : Write) → Calm (baseline_made c w).0
      made done = refl
      made moot = refl
      made refused = refl

      by_read : (r : Read Bool) → Calm (by_baseline c r).0
      by_read missing = made c.baseline_created
      by_read unread = refl
      by_read (found true) = refl
      by_read (found false) = refl

  pub apply_network_policy-Calm :
      (sb : Sandbox Q) (cls : Option (SandboxClass Q)) → Calm (apply_network_policy c sb cls).0
  unfolding apply_network_policy generated by_policy policy_made
  apply_network_policy-Calm sb cls = by_generated (c.generate sb cls)
    where
      made : (desired : P) (w : Write) → Calm (policy_made c desired w).0
      made desired done = refl
      made desired moot = refl
      made desired refused = refl

      by_read : (desired : P) (r : Read P) → Calm (by_policy c desired r).0
      by_read desired missing = made desired c.policy_created
      by_read desired unread = refl
      by_read desired (found q) = elim (Bool-cases (c.same_policy q desired)) [
        | inl e ↦ rw e refl
        | inr e ↦ rw e refl
      ]

      by_generated : (o : Option P) → Calm (generated c o).0
      by_generated none = refl
      by_generated (some desired) = by_read desired c.policy

  -- Policies, restore and status.
  ensure_policies-Calm :
      (sb : Sandbox Q) (cls : Option (SandboxClass Q)) → Calm (ensure_policies c sb cls).0
  unfolding ensure_policies
  ensure_policies-Calm sb cls = elim (Bool-cases (ensure_namespace_baseline c).1) [
    | inr e ↦ rw e ensure_namespace_baseline-Calm
    | inl e ↦ rw e (
        Calm-append (ensure_namespace_baseline c).0 (apply_network_policy c sb cls).0
          ensure_namespace_baseline-Calm (apply_network_policy-Calm sb cls))
  ]

  from_source-Calm :
      (sb : Sandbox Q) (st : SandboxStatus) (value : String) (o : Option Snapshot)
      → Calm (from_source c sb st value o).0
  unfolding from_source on_loaded
  from_source-Calm sb st value none = refl
  from_source-Calm sb st value (some snap) = by_answer (c.restore_sandbox snap)
    where
      by_answer : (answer : Loaded) → Calm (on_loaded c sb st value snap answer).0
      by_answer loaded = refl
      by_answer gate_refused = refl
      by_answer load_failed = refl

  maybe_restore_launcher-Calm :
      (sb : Sandbox Q) (pod : LivePod) (st : SandboxStatus)
      → Calm (maybe_restore_launcher c sb pod st).0
  unfolding maybe_restore_launcher
  maybe_restore_launcher-Calm sb pod st =
      let (namespace, name) = restore_source sb in
      let idle =
        not (needs_launcher_restore sb)
        || not (runs pod.pod.phase)
        || st.phase == SandboxPhase.failed in
      elim (Bool-cases idle) [
        | inl e ↦ rw e refl
        | inr e ↦ elim (Bool-cases c.has_coordinator) [
          | inr h ↦ rw (e, h) refl
          | inl h ↦
              rw (e, h)
                (from_source-Calm sb st (restored_value sb (namespace, name))
                  (c.load_source namespace name))
        ]
      ]

  derive_and_patch-Calm :
      (sb : Sandbox Q) (cls : Option (SandboxClass Q)) (pod : LivePod)
      → Calm (derive_and_patch c sb cls pod).0
  unfolding derive_and_patch
  derive_and_patch-Calm sb cls pod =
      let run = maybe_restore_launcher c sb pod (derive sb (some pod.pod) c.now) in
      let calm = maybe_restore_launcher-Calm sb pod (derive sb (some pod.pod) c.now) in
      let desired = apply_policies c.parse run.1 cls (hold_until_restored run.1 run.2) c.now in
      elim (Bool-cases (c.same_status run.1.status desired)) [
        | inl e ↦ rw e calm
        | inr e ↦
            rw e (
              Calm-append run.0 (Act.patch_status desired (c.status_patched desired) ∷ []) calm
                refl)
      ]

  degraded-Calm : (sb : Sandbox Q) (o : Option SessionCheckpointSpec) → Calm (degraded c sb o).0
  unfolding degraded
  degraded-Calm sb none = refl
  degraded-Calm sb (some spec) = elim (Bool-cases (has_ref sb.status.checkpoint)) [
    | inl e ↦ rw e refl
    | inr e ↦ rw e refl
  ]

  restart_exited_session-Calm :
      (sb : Sandbox Q) (cls : Option (SandboxClass Q)) → Calm (restart_exited_session c sb cls).0
  unfolding restart_exited_session after_acts pod_deletion
  restart_exited_session-Calm sb cls =
      let run = degraded c sb (session_checkpoint_policy sb cls) in
      let calm = degraded-Calm sb (session_checkpoint_policy sb cls) in
      elim (Bool-cases run.1) [
        | inr e ↦ rw e calm
        | inl e ↦ rw e (Calm-append run.0 (Act.delete_pod c.pod_deleted ∷ []) calm refl)
      ]

  closing-Calm :
      (sb : Sandbox Q) (cls : Option (SandboxClass Q)) (pod : LivePod) (desired : SandboxStatus)
      (wait : Duration)
      → Calm (closing c sb cls pod desired wait).0
  unfolding closing
  closing-Calm sb cls pod desired wait =
      elim (Bool-cases (
        desired.phase == SandboxPhase.failed
        && not pod.terminating
        && deletes_pod desired.reason)) [ inl e ↦ rw e refl | inr e ↦ rw e refl ]

  on_lifecycle-Calm : (e : Ended) (run : Run P) → Calm run.0 → Calm (on_lifecycle c e run).0
  unfolding on_lifecycle
  on_lifecycle-Calm Ended.failed run h = refl
  on_lifecycle-Calm (requeue_after d) run h = elim (Bool-cases (ltb_ℤ (pos 0) d)) [
    | inl e ↦ rw e refl
    | inr e ↦ rw e h
  ]

  paused_or_resumed-Calm :
      (sb : Sandbox Q) (cls : Option (SandboxClass Q)) (pod : LivePod) (desired : SandboxStatus)
      (wait : Duration)
      → Calm (paused_or_resumed c sb cls pod desired wait).0
  unfolding paused_or_resumed after_acts
  paused_or_resumed-Calm sb cls pod desired wait =
      let rest = closing c sb cls pod desired wait in
      let calm = closing-Calm sb cls pod desired wait in
      let run = reconcile_phase3_lifecycle c.lifecycle sb desired.phase in
      elim (Bool-cases c.has_coordinator) [
        | inr e ↦ rw e calm
        | inl e ↦ rw e (
            Calm-append (map lifecycle run.0) (on_lifecycle c run.1 rest).0 (Calm-lifecycle run.0)
              (on_lifecycle-Calm run.1 rest calm))
      ]

  settle-Calm :
      (sb : Sandbox Q) (cls : Option (SandboxClass Q)) (pod : LivePod) (desired : SandboxStatus)
      (wait : Duration)
      → Calm (settle c sb cls pod desired wait).0
  unfolding settle
  settle-Calm sb cls pod desired wait = elim (Bool-cases (session_pod_ended sb desired pod)) [
    | inl e ↦ rw e (restart_exited_session-Calm sb cls)
    | inr e ↦ rw e (paused_or_resumed-Calm sb cls pod desired wait)
  ]

  on_checkpoint-Calm :
      (sb : Sandbox Q) (cls : Option (SandboxClass Q)) (pod : LivePod) (desired : SandboxStatus)
      (o : Outcome Handled)
      → Calm (on_checkpoint c sb cls pod desired o).0
  unfolding on_checkpoint
  on_checkpoint-Calm sb cls pod desired (err e) = refl
  on_checkpoint-Calm sb cls pod desired (ok h) = elim (Bool-cases h.handled) [
    | inl e ↦ rw e refl
    | inr e ↦ rw e (settle-Calm sb cls pod desired h.after)
  ]

  with_status-Calm :
      (sb : Sandbox Q) (cls : Option (SandboxClass Q)) (pod : LivePod) (desired : SandboxStatus)
      → Calm (with_status c sb cls pod desired).0
  unfolding with_status after_acts
  with_status-Calm sb cls pod desired =
      let run = reconcile_session_checkpoint c.parse c.checkpoints sb cls (vm_of pod) desired in
      elim (Bool-cases (is_session sb.spec)) [
        | inr e ↦ rw e (settle-Calm sb cls pod desired (pos 0))
        | inl e ↦ rw e (
            Calm-append (map checkpoint run.0) (on_checkpoint c sb cls pod desired run.1).0
              (Calm-checkpoint run.0) (on_checkpoint-Calm sb cls pod desired run.1))
      ]

  pub reconcile_existing_pod-Calm :
      (sb : Sandbox Q) (cls : Option (SandboxClass Q)) (pod : LivePod)
      → Calm (reconcile_existing_pod c sb cls pod).0
  unfolding reconcile_existing_pod after_acts
  reconcile_existing_pod-Calm sb cls pod =
      let l = ensure_policies c sb cls in
      let d = derive_and_patch c sb cls pod in
      let first = ensure_policies-Calm sb cls in
      let second = derive_and_patch-Calm sb cls pod in
      let third = with_status-Calm d.2 cls pod d.3 in
      elim (Bool-cases l.1) [
        | inr e ↦ rw e first
        | inl e ↦ elim (Bool-cases (holding_suspend sb pod)) [
          | inl h ↦ rw (e, h) first
          | inr h ↦ elim (Bool-cases d.1) [
            | inr p ↦ rw (e, h, p) (Calm-append l.0 d.0 first second)
            | inl p ↦
                rw (e, h, p)
                  (Calm-append l.0 (d.0 ++ (with_status c d.2 cls pod d.3).0) first
                    (Calm-append d.0 (with_status c d.2 cls pod d.3).0 second third))
          ]
        ]
      ]
