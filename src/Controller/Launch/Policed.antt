-- ===== src/Controller/Launch/Policed.antt =====
-- A Pod is created only behind its policies and its claim.
use setec.Prelude.{
  ◌≡◌, refl, inl, inr, Bool, true, false, String, Option, none, some, List, [], ◌++◌, ◌==◌, ◌||◌,
  not, string_eq, value_at, Bool-cases,
}
use setec.Prelude.Int.{pos, ltb_ℤ}
use setec.Api.{sandbox_phase_eq, SandboxPhase, pending, failed, Sandbox, SandboxClass, Snapshot}
use setec.Api.Session.{is_session}
use setec.Snapshot.Reconcile.{Ended, requeue_after}
use setec.Checkpoint.{Read, found, missing, unread, Write, done, moot, refused}
use setec.Controller.{
  Disk, disk_ready, disk_building, disk_failed, disk_error, Act, Server, Run, after_acts, stop,
  patched, patch_pending_status, patch_failed_status, ending,
}
use setec.Controller.Workspace.{ensure_workspace_pvc, by_existing_claim, claim_made}
use setec.Controller.Launch.{
  by_baseline, baseline_made, ensure_namespace_baseline, apply_network_policy, generated, by_policy,
  policy_made, network_policy_read_back_requeue, disk_build_requeue, pod_made, on_base, with_base,
  with_disk, launch_pod, on_policy, policed, base_value, base_node, warm_base_annotation, annotated,
}
use setec.Controller.Trace.{guarded, guarded-neutral_all}
use setec.Controller.Quiet.{patched-neutral, ending-neutral, Guarded}

module _ {Q P : Type 0} (c : Server Q P) where
  -- With all in place, what follows keeps it so.
  abbrev Free : Run P → Type 0
  Free run = guarded true true true run.0 ≡ true

  patched-Free :
      (sb : Sandbox Q) (phase : SandboxPhase) (reason : String) (e : Ended)
      → Free (ending c (patched c sb phase reason) e)
  patched-Free sb phase reason e =
      guarded-neutral_all (ending c (patched c sb phase reason) e).0
        (ending-neutral c (patched c sb phase reason) e (patched-neutral c sb phase reason))

  pod_made-Free : (node : String) (restore : Bool) (w : Write) → Free (pod_made c node restore w)
  unfolding pod_made
  pod_made-Free node restore done = refl
  pod_made-Free node restore moot = refl
  pod_made-Free node restore refused = refl

  on_base-Free : (sb : Sandbox Q) (node : String) → Free (on_base c sb node)
  unfolding on_base
  on_base-Free sb node = elim (Bool-cases (not c.identity_ensured || not c.pod_built)) [
    | inl e ↦ rw e refl
    | inr e ↦ rw e (pod_made-Free node _ c.pod_created)
  ]

  with_base-Free :
      (sb : Sandbox Q) (pinned : String) (o : Option (Option Snapshot))
      → Free (with_base c sb pinned o)
  unfolding with_base after_acts
  with_base-Free sb pinned none = refl
  with_base-Free sb pinned (some base) =
      elim (Bool-cases (value_at sb.annotations warm_base_annotation == base_value base)) [
        | inl e ↦ rw e (on_base-Free sb (base_node base pinned))
        | inr e ↦ elim (Bool-cases c.base_marked) [
          | inl m ↦
              let marked = record sb {
                annotations = annotated warm_base_annotation (base_value base) sb.annotations;
              } in
              rw (e, m) (on_base-Free marked (base_node base pinned))
          | inr m ↦ rw (e, m) refl
        ]
      ]

  with_disk-Free :
      (sb : Sandbox Q) (cls : Option (SandboxClass Q)) (pinned : String) (d : Disk)
      → Free (with_disk c sb cls pinned d)
  unfolding with_disk patch_failed_status patch_pending_status
  with_disk-Free sb cls pinned disk_ready = with_base-Free sb pinned _
  with_disk-Free sb cls pinned disk_error = refl
  with_disk-Free sb cls pinned disk_building =
      patched-Free sb pending "DiskBuilding" (requeue_after disk_build_requeue)
  with_disk-Free sb cls pinned disk_failed = patched-Free sb failed "DiskBuildFailed" stop

  launch_pod-Free :
      (sb : Sandbox Q) (cls : Option (SandboxClass Q)) (pinned : String)
      → Free (launch_pod c sb cls pinned)
  unfolding launch_pod
  launch_pod-Free sb cls pinned = elim (Bool-cases (c.resolvers_for cls)) [
    | inl e ↦ rw e (with_disk-Free sb cls pinned c.disk)
    | inr e ↦ rw e refl
  ]

  passes : Ended → Bool
  passes Ended.failed = false
  passes (requeue_after wait) = not (ltb_ℤ (pos 0) wait)

  -- What an answer leaves of the rest of the pass.
  abbrev Rest : Bool → (Ended → List (Act P)) → Type 0
  Rest k rest =
      (e : Ended)
      → ((passes e ≡ true → guarded true true k (rest e) ≡ true) × (passes e ≡ false → rest e ≡ []))

  -- The policy of the Sandbox is in place when the answer lets the pass go on.
  by_policy-Guarded :
      (k : Bool) (rest : Ended → List (Act P))
      → Rest k rest
      → (desired : P) (r : Read P)
      → guarded true false k ((by_policy c desired r).0 ++ rest (by_policy c desired r).1) ≡ true
  unfolding by_policy policy_made passes
  by_policy-Guarded k rest h desired unread = rw ((h Ended.failed).1 refl) refl
  by_policy-Guarded k rest h desired (found q) = elim (Bool-cases (c.same_policy q desired)) [
    | inl e ↦ rw e ((h stop).0 refl)
    | inr e ↦ elim (Bool-cases c.policy_patched) [
      | inl m ↦ rw (e, m) ((h stop).0 refl)
      | inr m ↦ rw (e, m) (rw ((h Ended.failed).1 refl) refl)
    ]
  ]
  by_policy-Guarded k rest h desired missing = by_answer c.policy_created
    where
      by_answer :
          (w : Write)
          → guarded true false k ((policy_made c desired w).0 ++ rest (policy_made c desired w).1)
            ≡ true
      by_answer refused = rw ((h Ended.failed).1 refl) refl
      by_answer moot = rw ((h (requeue_after network_policy_read_back_requeue)).1 refl) refl
      by_answer done = elim (Bool-cases c.policy_read_back) [
        | inl m ↦ rw m ((h stop).0 refl)
        | inr m ↦ rw m (rw ((h (requeue_after network_policy_read_back_requeue)).1 refl) refl)
      ]

  generated-Guarded :
      (k : Bool) (rest : Ended → List (Act P))
      → Rest k rest
      → (o : Option P) → guarded true false k ((generated c o).0 ++ rest (generated c o).1) ≡ true
  unfolding generated passes
  generated-Guarded k rest h none = rw ((h Ended.failed).1 refl) refl
  generated-Guarded k rest h (some desired) = by_policy-Guarded k rest h desired c.policy

  -- The claim is in place when the code goes on.
  by_existing_claim-Guarded :
      (r : Read Bool) (m : List (Act P))
      → guarded true true true m ≡ true
      → (guarded true true false (by_existing_claim c r).0 ≡ true)
        × ((by_existing_claim c r).1 ≡ true
            → guarded true true false ((by_existing_claim c r).0 ++ m) ≡ true)
  unfolding by_existing_claim claim_made
  by_existing_claim-Guarded (found true) m h = (refl, λ e. cc)
  by_existing_claim-Guarded (found false) m h = (refl, λ e. h)
  by_existing_claim-Guarded unread m h = (refl, λ e. cc)
  by_existing_claim-Guarded missing m h = by_answer c.claim_created
    where
      by_answer :
          (w : Write)
          → (guarded true true false (claim_made c w).0 ≡ true)
            × ((claim_made c w).1 ≡ true → guarded true true false ((claim_made c w).0 ++ m) ≡ true)
      by_answer refused = (refl, λ e. cc)
      by_answer done = (refl, λ e. h)
      by_answer moot = (refl, λ e. h)

  on_policy-Rest :
      (sb : Sandbox Q) (cls : Option (SandboxClass Q)) (pinned : String)
      → Rest (not (is_session sb.spec)) (λ e. (on_policy c sb cls pinned e).0)
  unfolding on_policy passes ensure_workspace_pvc after_acts
  on_policy-Rest sb cls pinned Ended.failed = (λ h. cc, λ h. refl)
  on_policy-Rest sb cls pinned (requeue_after wait) =
      let made = launch_pod-Free sb cls pinned in
      let (alone, followed) =
        by_existing_claim-Guarded c.claim (launch_pod c sb cls pinned).0 made in
      elim (Bool-cases (ltb_ℤ (pos 0) wait)) [
        | inl e ↦ rw e (λ h. cc, λ h. refl)
        | inr e ↦ elim (Bool-cases (is_session sb.spec)) [
          | inr s ↦ rw (e, s) (λ h. made, λ h. cc)
          | inl s ↦ elim (Bool-cases (by_existing_claim c c.claim).1) [
            | inl r ↦ rw (e, s, r) (λ h. followed r, λ h. cc)
            | inr r ↦ rw (e, s, r) (λ h. alone, λ h. cc)
          ]
        ]
      ]

  -- The policy and the Pod, when the baseline is in place.
  behind :
      (sb : Sandbox Q) (cls : Option (SandboxClass Q)) (pinned : String)
      → guarded true false (not (is_session sb.spec)) (
          (apply_network_policy c sb cls).0
          ++ (on_policy c sb cls pinned (apply_network_policy c sb cls).1).0)
        ≡ true
  unfolding apply_network_policy
  behind sb cls pinned =
      generated-Guarded (not (is_session sb.spec)) (λ e. (on_policy c sb cls pinned e).0)
        (on_policy-Rest sb cls pinned) (c.generate sb cls)

  -- Where the code goes on, the baseline is in place; else nothing follows.
  by_baseline-Guarded :
      (k : Bool) (r : Read Bool) (m : List (Act P))
      → guarded true false k m ≡ true
      → (guarded false false k (by_baseline c r).0 ≡ true)
        × ((by_baseline c r).1 ≡ true → guarded false false k ((by_baseline c r).0 ++ m) ≡ true)
  unfolding by_baseline baseline_made
  by_baseline-Guarded k (found true) m h = (refl, λ e. h)
  by_baseline-Guarded k (found false) m h = (refl, λ e. rw e h)
  by_baseline-Guarded k unread m h = (refl, λ e. cc)
  by_baseline-Guarded k missing m h = by_answer c.baseline_created
    where
      by_answer :
          (w : Write)
          → (guarded false false k (baseline_made c w).0 ≡ true)
            × ((baseline_made c w).1 ≡ true
                → guarded false false k ((baseline_made c w).0 ++ m) ≡ true)
      by_answer refused = (refl, λ e. cc)
      by_answer done = (refl, λ e. h)
      by_answer moot = (refl, λ e. h)

  pub policed-Guarded :
      (sb : Sandbox Q) (cls : Option (SandboxClass Q)) (pinned : String)
      → Guarded c sb (policed c sb cls pinned).0
  unfolding policed ensure_namespace_baseline after_acts
  policed-Guarded sb cls pinned =
      let rest = behind sb cls pinned in
      let (alone, followed) =
        by_baseline-Guarded (not (is_session sb.spec)) c.baseline
          ((apply_network_policy c sb cls).0
            ++ (on_policy c sb cls pinned (apply_network_policy c sb cls).1).0)
          rest in
      elim (Bool-cases c.namespace_baseline_deny) [
        | inr n ↦ rw n rest
        | inl n ↦ elim (Bool-cases (by_baseline c c.baseline).1) [
          | inl r ↦ rw (n, r) (followed r)
          | inr r ↦ rw (n, r) alone
        ]
      ]
