-- ===== src/Controller/Admission.antt =====
-- resolveTenant, resolveClass and resolveSnapshotRef: what a Sandbox must pass before its Pod is looked
-- at.
use setec.Prelude.{
  Bool, true, false, String, Option, none, some, List, [], ◌∷◌, ◌==◌, ◌!=◌, ◌&&◌, ◌||◌, not,
  string_eq, StringMap, value_at, if◌then◌else◌,
}
use setec.Api.{Sandbox, SandboxClass, Snapshot, ready, SnapshotPhase-discrete, snapshot_phase_eq}
use setec.Class
use setec.Class.Resolver.{Resolved, resolved, no_default, resolve}
use setec.Snapshot
use setec.Snapshot.Reconcile.{Ended}
use setec.Checkpoint.{Read, found, missing, unread}
use setec.Controller.{Server, Stage, ended, going, hold, pending_requeue}

-- Whether the namespace has a tenant; `none` for an error.
tenant_of : {Q P : Type 0} → Server Q P → Read StringMap → Option Bool
tenant_of c missing = some false
tenant_of c unread = none
tenant_of c (found labels) =
    let value = value_at labels c.tenant_label_key in some (value != "" && c.is_dns_label value)

-- The class; the outer `none` for an error.
class_of : {Q P : Type 0} → Server Q P → Sandbox Q → Resolved Q → Option (Option (SandboxClass Q))
class_of c sb (resolved cls) = some (some cls)
class_of c sb no_default =
    if sb.spec.sandbox_class_name == "" && not c.multi_tenancy_enabled then some none else none
class_of c sb _ = none

-- isLocalSnapshot.
unfoldable pub is_local_snapshot : Snapshot → Bool
is_local_snapshot snap =
    snap.spec.storage_backend == "" || snap.spec.storage_backend == "local-disk"

unfoldable pub snapshot_name : Option String → String
snapshot_name none = ""
snapshot_name (some name) = name

unfoldable pub no_violations {ℓ} : {A : Type ℓ} → List A → Bool
no_violations [] = true
no_violations (v ∷ vs) = false

module _ {Q P : Type 0} (c : Server Q P) where
  unfoldable pub resolve_tenant : Option Bool
  unfolding tenant_of
  resolve_tenant =
      if not c.multi_tenancy_enabled || c.tenant_label_key == ""
      then some true
      else tenant_of c c.namespace_labels

  unfoldable pub resolve_class : Sandbox Q → Option (Option (SandboxClass Q))
  unfolding class_of
  resolve_class sb = elim c.classes [
    | none ↦ some none
    | some client ↦ class_of c sb (resolve (some client) (some sb))
  ]

  -- The Sandbox against its class, as class.Validate finds it.
  unfoldable pub fits_class : Sandbox Q → Option (SandboxClass Q) → Bool
  unfolding no_violations
  fits_class sb none = true
  fits_class sb (some cls) = no_violations (Class.validate c.quantities (some sb) (some cls))

  unfoldable pub on_hold : Sandbox Q → String → Stage P String
  unfolding hold
  on_hold sb reason = let (l, e) = hold c sb reason pending_requeue in ended l e

  unfoldable pub by_snapshot : Sandbox Q → Option (SandboxClass Q) → Read Snapshot → Stage P String
  unfolding on_hold is_local_snapshot no_violations SnapshotPhase-discrete
  by_snapshot sb cls missing = on_hold sb "SnapshotUnavailable"
  by_snapshot sb cls unread = ended [] Ended.failed
  by_snapshot sb cls (found snap) =
      if snap.status.phase != ready
      then on_hold sb "SnapshotUnavailable"
      else if not (no_violations (Snapshot.validate (some sb) (some snap) cls))
      then on_hold sb "SnapshotIncompatible"
      else if not (is_local_snapshot snap)
      then going [] ""
      else going [] snap.spec.node

  -- The node that the Pod is pinned to.
  unfoldable pub resolve_snapshot_ref : Sandbox Q → Option (SandboxClass Q) → Stage P String
  unfolding by_snapshot snapshot_name
  resolve_snapshot_ref sb cls =
      if snapshot_name sb.spec.snapshot_ref == ""
      then going [] ""
      else by_snapshot sb cls c.snapshot
