-- ===== src/Snapshot.antt =====
-- internal/snapshot: which Sandbox a Snapshot opens in (validator.go), and the restores of the
-- Coordinator (coordinator.go, session.go) in the modules below.
pub mod Compatible
pub mod Restore
pub mod Reconcile
pub mod Create
mod Tests
use setec.Prelude.{
  Bool, true, false, String, Option, none, some, List, [], ◌∷◌, ◌++◌, ◌==◌, ◌!=◌, ◌&&◌, ◌||◌, not,
  string_eq,
}
use setec.Api.{
  NetworkMode, none_mode, NetworkMode-discrete, network_mode_eq, Network, Sandbox, SandboxClass,
  SnapshotPhase, ready, SnapshotPhase-discrete, snapshot_phase_eq, Snapshot,
}

-- The violations of snapshot.Validate; their messages are left out.
pub data Violation : Type 0 where
  nil_sandbox nil_snapshot other_namespace other_class other_image kept_not_review : Violation
  other_cpu_template not_ready no_storage_ref : Violation

unfoldable pub field : Violation → String
field nil_sandbox = ""
field nil_snapshot = "spec.snapshotRef.name"
field other_namespace = "spec.snapshotRef.name"
field other_class = "spec.sandboxClassName"
field other_image = "spec.image"
field kept_not_review = "spec.snapshotRef.name"
field other_cpu_template = "spec.sandboxClassName"
field not_ready = "spec.snapshotRef.name"
field no_storage_ref = "spec.snapshotRef.name"

abbrev pub when : Bool → Violation → List Violation
when true v = v ∷ []
when false v = []

-- class != nil && snap.Spec.SandboxClass != class.Name, and the same for the CPU template.
class_differs : {Q : Type 0} → Snapshot → Option (SandboxClass Q) → Bool
class_differs snap none = false
class_differs snap (some cls) = snap.spec.sandbox_class != cls.name

template_differs : {Q : Type 0} → Snapshot → Option (SandboxClass Q) → Bool
template_differs snap none = false
template_differs snap (some cls) = snap.spec.cpu_template != cls.spec.cpu_template

-- sb.Spec.Network == nil || sb.Spec.Network.Mode != none
has_network : Option Network → Bool
unfolding NetworkMode-discrete
has_network none = true
has_network (some n) = n.mode != none_mode

phase_not_ready : Snapshot → Bool
unfolding SnapshotPhase-discrete
phase_not_ready snap = snap.status.phase != SnapshotPhase.unset && snap.status.phase != ready

validate_pair : {Q : Type 0} → Sandbox Q → Snapshot → Option (SandboxClass Q) → List Violation
unfolding class_differs template_differs has_network phase_not_ready
validate_pair sb snap cls =
    when (sb.namespace != snap.namespace) other_namespace
    ++ (when (class_differs snap cls) other_class
        ++ (when (sb.spec.image != "" && sb.spec.image != snap.spec.image_ref) other_image
            ++ (when (snap.spec.kept && (not sb.spec.review || has_network sb.spec.network))
                  kept_not_review
                ++ (when (template_differs snap cls) other_cpu_template
                    ++ (when (phase_not_ready snap) not_ready
                        ++ when (snap.spec.storage_ref == "") no_storage_ref)))))

unfoldable pub validate :
    {Q : Type 0} → Option (Sandbox Q) → Option Snapshot → Option (SandboxClass Q) → List Violation
unfolding validate_pair
validate none snap cls = nil_sandbox ∷ []
validate (some sb) none cls = nil_snapshot ∷ []
validate (some sb) (some snap) cls = validate_pair sb snap cls
