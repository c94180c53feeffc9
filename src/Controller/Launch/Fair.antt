-- ===== src/Controller/Launch/Fair.antt =====
-- The steps of handleMissingPod are fair.
use setec.Prelude.{
  ◌≡◌, refl, inl, inr, Bool, true, false, String, Option, none, some, ◌==◌, ◌&&◌, ◌||◌, not,
  string_eq, value_at, Bool-cases, map, [], sym, ◌++◌,
}
use setec.Prelude.Int.{pos, ltb_ℤ}
use setec.Prelude.Time.{Duration}
use setec.Api.{
  sandbox_phase_eq, SandboxPhase, pending, failed, suspended, Sandbox, SandboxClass, SandboxSpec,
  Snapshot,
}
use setec.Api.Session.{is_session}
use setec.Snapshot.Reconcile.{Ended, requeue_after}
use setec.Checkpoint.{
  Read, found, missing, unread, Write, done, moot, refused, ok, err, session_checkpoint_policy,
}
use setec.Checkpoint
use setec.Checkpoint.Resume.{recycle_if_expired, suspended_sandbox_action}
use setec.Controller.{
  Disk, disk_ready, disk_building, disk_failed, disk_error, checkpoint, Server, Run, and_then,
  after_acts, stop, patched, patch_pending_status, patch_failed_status, ending,
}
use setec.Controller.Reap.{is_terminal_phase}
use setec.Controller.Trace.{creates-neutral}
use setec.Controller.Workspace.{ensure_workspace_pvc, by_existing_claim, claim_made}
use setec.Controller.Launch.{
  by_baseline, baseline_made, ensure_namespace_baseline, apply_network_policy, generated, by_policy,
  policy_made, disk_build_requeue, pod_made, on_base, with_base, with_disk, launch_pod, on_policy,
  policed, base_value, base_node, warm_base_annotation, annotated, check_backend, by_policy_of,
  recycled, handle_missing_pod,
}
use setec.Controller.Quiet.{neutral-checkpoint, patched-neutral, ending-neutral}
use setec.Controller.Fair.{
  all_plain, all_plain-neutral, Generated, AllFair, AllFair-append, plain-AllFair, Faithful,
  Faithful-creates, and_then-Faithful,
}
use setec.Controller.Launch.Guarded.{check_backend-Quiet, by_policy_of-Quiet}

module _ {Q P : Type 0} (c : Server Q P) where
  -- The steps of the Pod.
  abbrev Plain : Run P → Type 0
  Plain run = all_plain run.0 ≡ true

  patched-Plain :
      (sb : Sandbox Q) (phase : SandboxPhase) (reason : String) (e : Ended)
      → Plain (ending c (patched c sb phase reason) e)
  patched-Plain sb phase reason e =
      all_plain-neutral (ending c (patched c sb phase reason) e).0
        (ending-neutral c (patched c sb phase reason) e (patched-neutral c sb phase reason))

  pod_made-Plain : (node : String) (restore : Bool) (w : Write) → Plain (pod_made c node restore w)
  unfolding pod_made
  pod_made-Plain node restore done = refl
  pod_made-Plain node restore moot = refl
  pod_made-Plain node restore refused = refl

  on_base-Plain : (sb : Sandbox Q) (node : String) → Plain (on_base c sb node)
  unfolding on_base
  on_base-Plain sb node = elim (Bool-cases (not c.identity_ensured || not c.pod_built)) [
    | inl e ↦ rw e refl
    | inr e ↦ rw e (pod_made-Plain node _ c.pod_created)
  ]

  with_base-Plain :
      (sb : Sandbox Q) (pinned : String) (o : Option (Option Snapshot))
      → Plain (with_base c sb pinned o)
  unfolding with_base after_acts
  with_base-Plain sb pinned none = refl
  with_base-Plain sb pinned (some base) =
      elim (Bool-cases (value_at sb.annotations warm_base_annotation == base_value base)) [
        | inl e ↦ rw e (on_base-Plain sb (base_node base pinned))
        | inr e ↦ elim (Bool-cases c.base_marked) [
          | inl m ↦
              let marked = record sb {
                annotations = annotated warm_base_annotation (base_value base) sb.annotations;
              } in
              rw (e, m) (on_base-Plain marked (base_node base pinned))
          | inr m ↦ rw (e, m) refl
        ]
      ]

  with_disk-Plain :
      (sb : Sandbox Q) (cls : Option (SandboxClass Q)) (pinned : String) (d : Disk)
      → Plain (with_disk c sb cls pinned d)
  unfolding with_disk patch_failed_status patch_pending_status
  with_disk-Plain sb cls pinned disk_ready = with_base-Plain sb pinned _
  with_disk-Plain sb cls pinned disk_error = refl
  with_disk-Plain sb cls pinned disk_building =
      patched-Plain sb pending "DiskBuilding" (requeue_after disk_build_requeue)
  with_disk-Plain sb cls pinned disk_failed = patched-Plain sb failed "DiskBuildFailed" stop

  launch_pod-Plain :
      (sb : Sandbox Q) (cls : Option (SandboxClass Q)) (pinned : String)
      → Plain (launch_pod c sb cls pinned)
  unfolding launch_pod
  launch_pod-Plain sb cls pinned = elim (Bool-cases (c.resolvers_for cls)) [
    | inl e ↦ rw e (with_disk-Plain sb cls pinned c.disk)
    | inr e ↦ rw e refl
  ]

  module _ (spec : SandboxSpec Q) where
    baseline-Fair : (r : Read Bool) → c.baseline ≡ r → AllFair c spec (by_baseline c r).0
    unfolding by_baseline baseline_made
    baseline-Fair (found true) e = (e, tt)
    baseline-Fair (found false) e = ((e, refl), tt)
    baseline-Fair unread e = tt
    baseline-Fair missing e = by_answer c.baseline_created refl
      where
        by_answer : (w : Write) → c.baseline_created ≡ w → AllFair c spec (baseline_made c w).0
        by_answer refused f = ((e, sym f), tt)
        by_answer done f = ((e, sym f), tt)
        by_answer moot f = ((e, sym f), tt)

    claim-Fair : (r : Read Bool) → c.claim ≡ r → AllFair c spec (by_existing_claim c r).0
    unfolding by_existing_claim claim_made
    claim-Fair (found true) e = tt
    claim-Fair (found false) e = (e, tt)
    claim-Fair unread e = tt
    claim-Fair missing e = by_answer c.claim_created refl
      where
        by_answer : (w : Write) → c.claim_created ≡ w → AllFair c spec (claim_made c w).0
        by_answer refused f = ((e, sym f), tt)
        by_answer done f = ((e, sym f), tt)
        by_answer moot f = ((e, sym f), tt)

    policy-Fair :
        (desired : P) (r : Read P)
        → c.policy ≡ r
        → Generated c spec desired
        → AllFair c spec (by_policy c desired r).0
    unfolding by_policy policy_made
    policy-Fair desired unread e g = tt
    policy-Fair desired (found q) e g = elim (Bool-cases (c.same_policy q desired)) [
      | inl s ↦ rw s (((q, e, s), g), tt)
      | inr s ↦ rw s ((refl, g), tt)
    ]
    policy-Fair desired missing e g = by_answer c.policy_created refl
      where
        by_answer : (w : Write) → c.policy_created ≡ w → AllFair c spec (policy_made c desired w).0
        by_answer refused f = ((sym f, g), tt)
        by_answer moot f = ((sym f, g), tt)
        by_answer done f = ((sym f, g), ((refl, g), tt))

  generated-Fair :
      (sb : Sandbox Q) (cls : Option (SandboxClass Q)) (o : Option P)
      → c.generate sb cls ≡ o
      → AllFair c sb.spec (generated c o).0
  unfolding generated
  generated-Fair sb cls none e = tt
  generated-Fair sb cls (some desired) e =
      policy-Fair sb.spec desired c.policy refl (sb, cls, refl, e)

  on_policy-Fair :
      (sb : Sandbox Q) (cls : Option (SandboxClass Q)) (pinned : String) (e : Ended)
      → AllFair c sb.spec (on_policy c sb cls pinned e).0
  unfolding on_policy ensure_workspace_pvc after_acts
  on_policy-Fair sb cls pinned Ended.failed = tt
  on_policy-Fair sb cls pinned (requeue_after wait) =
      let claim = claim-Fair sb.spec c.claim refl in
      let made =
        plain-AllFair c sb.spec (launch_pod c sb cls pinned).0 (launch_pod-Plain sb cls pinned) in
      elim (Bool-cases (ltb_ℤ (pos 0) wait)) [
        | inl e ↦ rw e tt
        | inr e ↦ elim (Bool-cases (is_session sb.spec)) [
          | inr s ↦ rw (e, s) made
          | inl s ↦ elim (Bool-cases (by_existing_claim c c.claim).1) [
            | inl r ↦
                rw (e, s, r)
                  (AllFair-append c sb.spec (by_existing_claim c c.claim).0
                    (launch_pod c sb cls pinned).0 claim made)
            | inr r ↦ rw (e, s, r) claim
          ]
        ]
      ]

  policed-Fair :
      (sb : Sandbox Q) (cls : Option (SandboxClass Q)) (pinned : String)
      → AllFair c sb.spec (policed c sb cls pinned).0
  unfolding policed ensure_namespace_baseline apply_network_policy after_acts
  policed-Fair sb cls pinned =
      let run = generated c (c.generate sb cls) in
      let rest =
        AllFair-append c sb.spec run.0 (on_policy c sb cls pinned run.1).0
          (generated-Fair sb cls (c.generate sb cls) refl) (on_policy-Fair sb cls pinned run.1) in
      let base = baseline-Fair sb.spec c.baseline refl in
      elim (Bool-cases c.namespace_baseline_deny) [
        | inr n ↦ rw n rest
        | inl n ↦ elim (Bool-cases (by_baseline c c.baseline).1) [
          | inl r ↦
              rw (n, r)
                (AllFair-append c sb.spec (by_baseline c c.baseline).0
                  (run.0 ++ (on_policy c sb cls pinned run.1).0) base rest)
          | inr r ↦ rw (n, r) base
        ]
      ]

  recycled-Faithful :
      (sb : Sandbox Q) (r : Checkpoint.Run Duration) → Faithful c sb (recycled c r).0
  unfolding recycled
  recycled-Faithful sb (l, ok wait) =
      Faithful-creates c sb (map checkpoint l)
        (creates-neutral {P = P} (map checkpoint l) (neutral-checkpoint c l))
  recycled-Faithful sb (l, err e) =
      Faithful-creates c sb (map checkpoint l)
        (creates-neutral {P = P} (map checkpoint l) (neutral-checkpoint c l))

  pub handle_missing_pod-Faithful :
      (sb : Sandbox Q) (cls : Option (SandboxClass Q)) (pinned : String)
      → Faithful c sb (handle_missing_pod c sb cls pinned).0
  unfolding handle_missing_pod
  handle_missing_pod-Faithful sb cls pinned =
      let waits =
        is_session sb.spec
        && sb.status.phase == suspended
        && not (suspended_sandbox_action c.parse sb) in
      elim (Bool-cases (is_terminal_phase sb.status.phase)) [
        | inl t ↦ rw t (Faithful-creates c sb [] refl)
        | inr t ↦ elim (Bool-cases waits) [
          | inl w ↦ rw (t, w) (recycled-Faithful sb (recycle_if_expired c.checkpoints sb cls))
          | inr w ↦
              rw (t, w)
                (and_then-Faithful c sb (by_policy_of c sb (session_checkpoint_policy sb cls))
                  (λ sb1. and_then (check_backend c sb1 cls) (λ sb2. policed c sb2 cls pinned))
                  (by_policy_of-Quiet c sb (session_checkpoint_policy sb cls))
                  λ sb1.
                    and_then-Faithful c sb1 (check_backend c sb1 cls)
                      (λ sb2. policed c sb2 cls pinned) (check_backend-Quiet c sb1 cls)
                      λ sb2 made. policed-Fair sb2 cls pinned)
        ]
      ]
