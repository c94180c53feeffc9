-- ===== src/Controller/Reconcile.antt =====
-- Reconcile: the steps of one pass, in the order of the code. A Pod's name is `name-vm`, so the Pod is
-- the one of the Sandbox.
pub mod Soft
pub mod Fair
pub mod Guarded
pub mod Admits
use setec.Prelude.{
  Bool, true, false, String, Option, none, some, List, [], ◌∷◌, ◌++◌, ◌&&◌, not, if◌then◌else◌,
}
use setec.Api.{Sandbox, SandboxClass}
use setec.Snapshot.Reconcile.{Ended, requeue_after}
use setec.Checkpoint.{Read, found, missing, unread}
use setec.Controller.{
  LivePod, Act, Server, Stage, ended, going, Run, and_then, after_acts, stop, hold, pending_requeue,
}
use setec.Controller.Workspace.{handle_workspace_finalizer}
use setec.Controller.Reap.{reap_expired_ephemeral, handle_unresolvable_class}
use setec.Controller.Admission.{resolve_tenant, resolve_class, fits_class, resolve_snapshot_ref}
use setec.Controller.Launch.{handle_missing_pod}
use setec.Controller.Existing.{reconcile_existing_pod}

module _ {Q P : Type 0} (c : Server Q P) where
  -- (8): the Pod.
  by_pod : Sandbox Q → Option (SandboxClass Q) → String → Read LivePod → Run P
  by_pod sb cls pinned missing = handle_missing_pod c sb cls pinned
  by_pod sb cls pinned unread = ([], Ended.failed)
  by_pod sb cls pinned (found pod) = reconcile_existing_pod c sb cls pod

  -- (5) and (5b): the class, then the Snapshot.
  with_class : Sandbox Q → Option (SandboxClass Q) → Run P
  unfolding by_pod and_then hold
  with_class sb cls =
      if not (fits_class c sb cls)
      then hold c sb "ConstraintViolated" pending_requeue
      else and_then (resolve_snapshot_ref c sb cls) (λ pinned. by_pod sb cls pinned c.pod)

  -- (4).
  by_class : Sandbox Q → Option (Option (SandboxClass Q)) → Run P
  unfolding with_class
  by_class sb none = handle_unresolvable_class c sb
  by_class sb (some cls) = with_class sb cls

  -- (3).
  by_tenant : Sandbox Q → Option Bool → Run P
  unfolding by_class hold
  by_tenant sb none = ([], Ended.failed)
  by_tenant sb (some has_tenant) =
      if c.multi_tenancy_enabled && not has_tenant
      then hold c sb "TenantLabelMissing" pending_requeue
      else by_class sb (resolve_class c sb)

  -- (1a) to (1c), and the rest.
  admitted : Sandbox Q → Run P
  unfolding by_tenant and_then
  admitted sb = and_then (reap_expired_ephemeral c sb) (λ u. by_tenant sb (resolve_tenant c))

  pub found_sandbox : Sandbox Q → Run P
  unfolding admitted and_then
  found_sandbox sb = and_then (handle_workspace_finalizer c sb) admitted

  by_sandbox : Read (Sandbox Q) → Run P
  unfolding found_sandbox
  by_sandbox missing = ([], stop)
  by_sandbox unread = ([], Ended.failed)
  by_sandbox (found sb) = found_sandbox sb

  unfoldable pub reconcile : Run P
  unfolding by_sandbox
  reconcile = by_sandbox c.sandbox
