-- ===== src/Controller/Reconcile/Admits.antt =====
-- What a pass must have found before it creates a Pod.
use setec.Prelude.{
  ◌≡◌, ◌⊎◌, refl, ap, inl, inr, Bool, true, false, String, Option, none, some, List, [], ◌∷◌, ◌++◌,
  ◌==◌, ◌&&◌, not, string_eq, is_some, Bool-cases, if◌then◌else◌, arith, eq_iff,
}
use setec.Api.{Sandbox, SandboxClass, Snapshot, ready, snapshot_phase_eq}
use setec.Api.Session.{is_session}
use setec.Snapshot
use setec.Checkpoint.{Read, found, missing, unread}
use setec.Controller.{LivePod, Act, add_finalizer, Server, going, hold, pending_requeue}
use setec.Controller.Trace.{creates, creates-neutral, Calm-creates}
use setec.Controller.Workspace.{workspace_finalizer, contains_finalizer, handle_workspace_finalizer}
use setec.Controller.Reap.{is_terminal_phase, reap_expired_ephemeral, handle_unresolvable_class}
use setec.Controller.Admission.{
  resolve_tenant, resolve_class, fits_class, snapshot_name, by_snapshot, on_hold, no_violations,
  resolve_snapshot_ref,
}
use setec.Controller.Launch.{handle_missing_pod}
use setec.Controller.Existing.{reconcile_existing_pod}
use setec.Controller.Existing.Calm.{reconcile_existing_pod-Calm}
use setec.Controller.Reconcile.{
  by_pod, with_class, by_class, by_tenant, admitted, found_sandbox, by_sandbox, reconcile,
}
use setec.Controller.Reconcile.Soft.{
  Quiet-Soft, and_then-creates, resolve_snapshot_ref-Soft, reap_expired_ephemeral-Soft,
  handle_unresolvable_class-neutral, handle_workspace_finalizer-Quiet, hold-creates,
}

module _ {Q P : Type 0} (c : Server Q P) where
  -- What a Sandbox that is admitted meets.
  pub record Admitted (sb : Sandbox Q) : Type 0 where
    pub cls : Option (SandboxClass Q)
    pub live : is_terminal_phase sb.status.phase ≡ false
    pub tenant : (c.multi_tenancy_enabled ≡ false) ⊎ (resolve_tenant c ≡ some true)
    pub class_found : resolve_class c sb ≡ some cls
    pub fits : fits_class c sb cls ≡ true
    pub state :
        (snapshot_name sb.spec.snapshot_ref ≡ "")
        ⊎ ((snap : Snapshot) × (c.snapshot ≡ found snap)
            × (snap.status.phase ≡ ready)
            × (no_violations (Snapshot.validate (some sb) (some snap) cls) ≡ true))
    pub pod_missing : c.pod ≡ missing

  by_pod-creates :
      (sb : Sandbox Q) (cls : Option (SandboxClass Q)) (pinned : String) (r : Read LivePod)
      → creates (by_pod c sb cls pinned r).0 ≡ true
      → (r ≡ missing) × (is_terminal_phase sb.status.phase ≡ false)
  unfolding by_pod handle_missing_pod
  by_pod-creates sb cls pinned unread h = absurd (cc)
  by_pod-creates sb cls pinned (found pod) h = absurd (
      let run = reconcile_existing_pod c sb cls pod in
      let n = Calm-creates run.0 (reconcile_existing_pod-Calm c sb cls pod) in cc)
  by_pod-creates sb cls pinned missing h = elim (Bool-cases (is_terminal_phase sb.status.phase)) [
    | inl e ↦ absurd (let k = rw e at h in cc)
    | inr e ↦ (refl, e)
  ]

  -- The Snapshot of a Sandbox that names one.
  abbrev State : Sandbox Q → Option (SandboxClass Q) → Type 0
  State sb cls =
      (snapshot_name sb.spec.snapshot_ref ≡ "")
      ⊎ ((snap : Snapshot) × (c.snapshot ≡ found snap)
          × (snap.status.phase ≡ ready)
          × (no_violations (Snapshot.validate (some sb) (some snap) cls) ≡ true))

  by_snapshot-State :
      (sb : Sandbox Q) (cls : Option (SandboxClass Q)) (r : Read Snapshot) (l : List (Act P))
      (pinned : String)
      → c.snapshot ≡ r
      → by_snapshot c sb cls r ≡ going l pinned
      → State sb cls
  unfolding by_snapshot on_hold
  by_snapshot-State sb cls missing l pinned e h = absurd (cc)
  by_snapshot-State sb cls unread l pinned e h = absurd (cc)
  by_snapshot-State sb cls (found snap) l pinned e h =
      elim (Bool-cases (snap.status.phase == ready)) [
        | inr p ↦ absurd (let k = rw p at h in cc)
        | inl p ↦ elim (Bool-cases (no_violations (Snapshot.validate (some sb) (some snap) cls))) [
          | inr v ↦ absurd (let k = rw (p, v) at h in cc)
          | inl v ↦ inr (snap, e, (snapshot_phase_eq.equal_iff snap.status.phase ready).0 p, v)
        ]
      ]

  resolve_snapshot_ref-State :
      (sb : Sandbox Q) (cls : Option (SandboxClass Q)) (l : List (Act P)) (pinned : String)
      → resolve_snapshot_ref c sb cls ≡ going l pinned
      → State sb cls
  unfolding resolve_snapshot_ref
  resolve_snapshot_ref-State sb cls l pinned h =
      elim (Bool-cases (snapshot_name sb.spec.snapshot_ref == "")) [
        | inl e ↦ inl ((eq_iff (snapshot_name sb.spec.snapshot_ref) "").0 e)
        | inr e ↦ by_snapshot-State sb cls c.snapshot l pinned refl (rw e at h)
      ]

  with_class-Admitted :
      (sb : Sandbox Q) (cls : Option (SandboxClass Q))
      → ((c.multi_tenancy_enabled ≡ false) ⊎ (resolve_tenant c ≡ some true))
      → resolve_class c sb ≡ some cls
      → creates (with_class c sb cls).0 ≡ true
      → Admitted sb
  unfolding with_class
  with_class-Admitted sb cls t r h = elim (Bool-cases (fits_class c sb cls)) [
    | inr e ↦
        absurd (
          let n = hold-creates c sb "ConstraintViolated" pending_requeue in let k = rw e at h in cc)
    | inl e ↦
        let (l, pinned, going_on, made) =
          and_then-creates c (resolve_snapshot_ref c sb cls)
            (λ pinned. by_pod c sb cls pinned c.pod) (resolve_snapshot_ref-Soft c sb cls)
            (rw e at h) in
        let (gone, live) = by_pod-creates sb cls pinned c.pod made in
        record {
          cls = cls;
          live = live;
          tenant = t;
          class_found = r;
          fits = e;
          state = resolve_snapshot_ref-State sb cls l pinned going_on;
          pod_missing = gone;
        }
  ]

  by_class-Admitted :
      (sb : Sandbox Q) (o : Option (Option (SandboxClass Q)))
      → ((c.multi_tenancy_enabled ≡ false) ⊎ (resolve_tenant c ≡ some true))
      → resolve_class c sb ≡ o
      → creates (by_class c sb o).0 ≡ true
      → Admitted sb
  unfolding by_class
  by_class-Admitted sb none t r h = absurd (
      let n =
        creates-neutral (handle_unresolvable_class c sb).0
          (handle_unresolvable_class-neutral c sb) in
      cc)
  by_class-Admitted sb (some cls) t r h = with_class-Admitted sb cls t r h

  by_tenant-Admitted :
      (sb : Sandbox Q) (o : Option Bool)
      → resolve_tenant c ≡ o
      → creates (by_tenant c sb o).0 ≡ true
      → Admitted sb
  unfolding by_tenant
  by_tenant-Admitted sb none e h = absurd (cc)
  by_tenant-Admitted sb (some true) e h =
      by_class-Admitted sb (resolve_class c sb) (inr e) refl (ground arith)
  by_tenant-Admitted sb (some false) e h = by_setting c.multi_tenancy_enabled refl h
    where
      by_setting :
          (b : Bool)
          → c.multi_tenancy_enabled ≡ b
          → creates
              (if b && not false
                then hold c sb "TenantLabelMissing" pending_requeue
                else by_class c sb (resolve_class c sb)).0
            ≡ true
          → Admitted sb
      by_setting true m k =
          absurd (let n = hold-creates c sb "TenantLabelMissing" pending_requeue in cc)
      by_setting false m k = by_class-Admitted sb (resolve_class c sb) (inl m) refl k

  -- The Sandbox that the pass goes on with: its own, or the one with the finalizer.
  abbrev pub Passed : Sandbox Q → Sandbox Q → Type 0
  Passed sb next =
      (is_some sb.deletion_timestamp ≡ false) × (next.spec ≡ sb.spec) × (next.status ≡ sb.status)

  handle_workspace_finalizer-Passed :
      (sb next : Sandbox Q) (l : List (Act P))
      → handle_workspace_finalizer c sb ≡ going l next
      → Passed sb next
  unfolding handle_workspace_finalizer
  handle_workspace_finalizer-Passed sb next l h =
      let has = contains_finalizer sb.finalizers in
      elim (Bool-cases (is_some sb.deletion_timestamp)) [
        | inl d ↦ elim (Bool-cases has) [
          | inl f ↦ absurd (let k = rw (d, f) at h in cc)
          | inr f ↦ absurd (let k = rw (d, f) at h in cc)
        ]
        | inr d ↦ elim (Bool-cases (is_session sb.spec && not has)) [
          | inr f ↦
              let k : going [] sb ≡ going l next = rw (d, f) at h in
              let e : next ≡ sb = cc in
              (d, ap (λ (s : Sandbox Q). s.spec) e, ap (λ (s : Sandbox Q). s.status) e)
          | inl f ↦
              let marked = record sb { finalizers = sb.finalizers ++ workspace_finalizer ∷ [] } in
              elim (Bool-cases c.finalizer_added) [
                | inr a ↦ absurd (let k = rw (d, f, a) at h in cc)
                | inl a ↦
                    let k : going (add_finalizer true ∷ []) marked ≡ going l next =
                      rw (d, f, a) at h in
                    let e : next ≡ marked = cc in
                    (d, ap (λ (s : Sandbox Q). s.spec) e, ap (λ (s : Sandbox Q). s.status) e)
              ]
        ]
      ]

  -- What a pass that creates a Pod has found.
  abbrev pub Admits : Type 0
  Admits =
      (sb : Sandbox Q) × (next : Sandbox Q) × (c.sandbox ≡ found sb)
      × Passed sb next
      × Admitted next

  by_sandbox-Admits :
      (r : Read (Sandbox Q)) → c.sandbox ≡ r → creates (by_sandbox c r).0 ≡ true → Admits
  unfolding by_sandbox found_sandbox admitted
  by_sandbox-Admits missing e h = absurd (cc)
  by_sandbox-Admits unread e h = absurd (cc)
  by_sandbox-Admits (found sb) e h =
      let (l, next, passed, made) =
        and_then-creates c (handle_workspace_finalizer c sb) (λ next. admitted c next)
          (Quiet-Soft c sb (handle_workspace_finalizer c sb)
            (handle_workspace_finalizer-Quiet c sb))
          h in
      let (m, u, going_on, ends) =
        and_then-creates c (reap_expired_ephemeral c next)
          (λ u. by_tenant c next (resolve_tenant c)) (reap_expired_ephemeral-Soft c next) made in
      (
        sb,
        next,
        e,
        handle_workspace_finalizer-Passed sb next l passed,
        by_tenant-Admitted next (resolve_tenant c) refl ends,
      )

-- A pass creates a Pod only for a Sandbox that was found, whose deletion was not asked for and whose
-- phase is not terminal; whose namespace has a tenant label, when tenants are told apart; whose class
-- resolves, or that needs none, and that the class permits; whose Snapshot, when it names one, is Ready
-- and fits; and that has no Pod yet. `next` is the Sandbox as it was found, or with the finalizer that
-- the pass added.
pub reconcile-Admits : {Q P : Type 0} (c : Server Q P) → creates (reconcile c).0 ≡ true → Admits c
unfolding reconcile
reconcile-Admits c h = by_sandbox-Admits c c.sandbox refl h
