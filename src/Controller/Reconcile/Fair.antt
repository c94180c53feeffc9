-- ===== src/Controller/Reconcile/Fair.antt =====
-- In a pass that creates a Pod, the steps are fair.
use setec.Prelude.{inl, inr, String, Option, none, some, ◌&&◌, not, string_eq, Bool, Bool-cases}
use setec.Api.{Sandbox, SandboxClass}
use setec.Checkpoint.{Read, found, missing, unread}
use setec.Controller.{LivePod, Server, hold, pending_requeue}
use setec.Controller.Trace.{creates-neutral, Calm-creates}
use setec.Controller.Workspace.{handle_workspace_finalizer}
use setec.Controller.Reap.{reap_expired_ephemeral, handle_unresolvable_class}
use setec.Controller.Admission.{resolve_tenant, resolve_class, fits_class, resolve_snapshot_ref}
use setec.Controller.Fair.{Faithful, Faithful-creates, and_then-Faithful, and_step-Faithful}
use setec.Controller.Launch.Fair.{handle_missing_pod-Faithful}
use setec.Controller.Existing.{reconcile_existing_pod}
use setec.Controller.Existing.Calm.{reconcile_existing_pod-Calm}
use setec.Controller.Reconcile.{by_pod, with_class, by_class, by_tenant, admitted, found_sandbox}
use setec.Controller.Reconcile.Soft.{
  resolve_snapshot_ref-Soft, reap_expired_ephemeral-Soft, handle_unresolvable_class-neutral,
  handle_workspace_finalizer-Quiet, hold-creates,
}

module _ {Q P : Type 0} (c : Server Q P) where
  by_pod-Faithful :
      (sb : Sandbox Q) (cls : Option (SandboxClass Q)) (pinned : String) (r : Read LivePod)
      → Faithful c sb (by_pod c sb cls pinned r).0
  unfolding by_pod
  by_pod-Faithful sb cls pinned missing = handle_missing_pod-Faithful c sb cls pinned
  by_pod-Faithful sb cls pinned unread = λ h. absurd (cc)
  by_pod-Faithful sb cls pinned (found pod) =
      let run = reconcile_existing_pod c sb cls pod in
      Faithful-creates c sb run.0 (Calm-creates run.0 (reconcile_existing_pod-Calm c sb cls pod))

  hold-Faithful :
      (sb : Sandbox Q) (reason : String) → Faithful c sb (hold c sb reason pending_requeue).0
  hold-Faithful sb reason =
      Faithful-creates c sb (hold c sb reason pending_requeue).0
        (hold-creates c sb reason pending_requeue)

  with_class-Faithful :
      (sb : Sandbox Q) (cls : Option (SandboxClass Q)) → Faithful c sb (with_class c sb cls).0
  unfolding with_class
  with_class-Faithful sb cls = elim (Bool-cases (fits_class c sb cls)) [
    | inr e ↦ rw e (hold-Faithful sb "ConstraintViolated")
    | inl e ↦ rw e (
        and_step-Faithful c sb (resolve_snapshot_ref c sb cls)
          (λ pinned. by_pod c sb cls pinned c.pod) (resolve_snapshot_ref-Soft c sb cls)
          (λ pinned. by_pod-Faithful sb cls pinned c.pod))
  ]

  by_class-Faithful :
      (sb : Sandbox Q) (o : Option (Option (SandboxClass Q))) → Faithful c sb (by_class c sb o).0
  unfolding by_class
  by_class-Faithful sb none =
      Faithful-creates c sb (handle_unresolvable_class c sb).0 (
        creates-neutral (handle_unresolvable_class c sb).0 (handle_unresolvable_class-neutral c sb))
  by_class-Faithful sb (some cls) = with_class-Faithful sb cls

  by_tenant-Faithful : (sb : Sandbox Q) (o : Option Bool) → Faithful c sb (by_tenant c sb o).0
  unfolding by_tenant
  by_tenant-Faithful sb none = λ h. absurd (cc)
  by_tenant-Faithful sb (some t) = elim (Bool-cases (c.multi_tenancy_enabled && not t)) [
    | inl e ↦ rw e (hold-Faithful sb "TenantLabelMissing")
    | inr e ↦ rw e (by_class-Faithful sb (resolve_class c sb))
  ]

  admitted-Faithful : (sb : Sandbox Q) → Faithful c sb (admitted c sb).0
  unfolding admitted
  admitted-Faithful sb =
      and_step-Faithful c sb (reap_expired_ephemeral c sb) (λ u. by_tenant c sb (resolve_tenant c))
        (reap_expired_ephemeral-Soft c sb) (λ u. by_tenant-Faithful sb (resolve_tenant c))

  pub found_sandbox-Faithful : (sb : Sandbox Q) → Faithful c sb (found_sandbox c sb).0
  unfolding found_sandbox
  found_sandbox-Faithful sb =
      and_then-Faithful c sb (handle_workspace_finalizer c sb) (λ next. admitted c next)
        (handle_workspace_finalizer-Quiet c sb) (λ next. admitted-Faithful next)
