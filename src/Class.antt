-- ===== src/Class.antt =====
-- internal/class, internal/limits, and `EffectiveMode` of internal/netpol/generator.go: which Sandbox
-- a SandboxClass permits. The text of a violation's message is left out: it only repeats values.
-- resource.Quantity of the Kubernetes libraries is the parameter `Q` with its operations.
pub mod Permits
pub mod Resolver
mod Tests
use Prim.Native.Nat.{Ordering}
use setec.Prelude.{
  ◌≡◌, ◌≢◌, Bool, true, false, String, Option, none, some, List, [], ◌∷◌, ◌++◌, ◌==◌, ◌!=◌, ◌&&◌,
  not, contains, is_some, if◌then◌else◌,
}
use setec.Prelude.Int.{ℤ, ltb_ℤ}
use setec.Api.{
  NetworkMode, none_mode, NetworkMode-discrete, network_mode_eq, NetworkAllow, Network, Resources,
  Sandbox, SandboxClass,
}

-- Cmp, the test `Sign() > 0`, and the constant 10Gi.
pub record QuantityOps (Q : Type 0) : Type 0 where
  pub cmp : Q → Q → Ordering
  pub is_positive : Q → Bool
  pub default_scratch : Q

-- The violations of class.Validate, and the JSON path of each.
pub data Violation : Type 0 where
  nil_sandbox vcpu_over memory_over scratch_over scratch_not_positive mode_not_allowed : Violation

unfoldable pub field : Violation → String
field nil_sandbox = ""
field vcpu_over = "spec.resources.vcpu"
field memory_over = "spec.resources.memory"
field scratch_over = "spec.resources.scratch"
field scratch_not_positive = "spec.resources.scratch"
field mode_not_allowed = "spec.network.mode"

-- a.Cmp(b) > 0
abbrev pub above : Ordering → Bool
above Ordering.gt = true
above _ = false

scratch_of : {Q : Type 0} → Option (Resources Q) → Option Q
scratch_of none = none
scratch_of (some r) = r.scratch

or_quantity : {Q : Type 0} → Option Q → Q → Q
or_quantity none d = d
or_quantity (some q) d = q

-- limits.ScratchCeiling and limits.EffectiveScratch, for a class and a Sandbox that are not nil.
unfoldable pub scratch_ceiling : {Q : Type 0} → QuantityOps Q → SandboxClass Q → Q
unfolding scratch_of or_quantity
scratch_ceiling ops cls = or_quantity (scratch_of cls.spec.max_resources) ops.default_scratch

unfoldable pub effective_scratch : {Q : Type 0} → QuantityOps Q → Sandbox Q → SandboxClass Q → Q
unfolding scratch_of or_quantity
effective_scratch ops sb cls =
    or_quantity sb.spec.resources.scratch
      (or_quantity (scratch_of cls.spec.default_resources) ops.default_scratch)

default_posture : {Q : Type 0} → Option (SandboxClass Q) → NetworkMode × List NetworkAllow
unfolding NetworkMode-discrete
default_posture none = (none_mode, [])
default_posture (some cls) =
    if cls.spec.default_network_mode != NetworkMode.unset
    then (cls.spec.default_network_mode, cls.spec.default_egress_allow)
    else (none_mode, [])

posture_of :
    {Q : Type 0} → Option Network → Option (SandboxClass Q) → NetworkMode × List NetworkAllow
posture_of none cls = default_posture cls
posture_of (some n) cls = (n.mode, n.allow)

unfoldable pub effective_posture :
    {Q : Type 0} → Sandbox Q → Option (SandboxClass Q) → NetworkMode × List NetworkAllow
unfolding posture_of default_posture
effective_posture sb cls = posture_of sb.spec.network cls

unfoldable pub effective_mode :
    {Q : Type 0} → Option (Sandbox Q) → Option (SandboxClass Q) → NetworkMode
unfolding effective_posture
effective_mode none cls = none_mode
effective_mode (some sb) cls = (effective_posture sb cls).0

abbrev pub when : Bool → Violation → List Violation
when true v = v ∷ []
when false v = []

ceiling_violations :
    {Q : Type 0} → QuantityOps Q → Resources Q → Option (Resources Q) → List Violation
ceiling_violations ops r none = []
ceiling_violations ops r (some max) =
    when (ltb_ℤ max.vcpu r.vcpu) vcpu_over ++ when (above (ops.cmp r.memory max.memory)) memory_over

scratch_violations : {Q : Type 0} → QuantityOps Q → Q → Q → List Violation
scratch_violations ops scratch ceiling =
    if above (ops.cmp scratch ceiling)
    then scratch_over ∷ []
    else when (not (ops.is_positive scratch)) scratch_not_positive

mode_violations : List NetworkMode → NetworkMode → List Violation
unfolding NetworkMode-discrete
mode_violations [] mode = []
mode_violations (m ∷ ms) mode = when (not (contains (m ∷ ms) mode)) mode_not_allowed

validate_in : {Q : Type 0} → QuantityOps Q → Sandbox Q → SandboxClass Q → List Violation
unfolding ceiling_violations scratch_violations mode_violations
validate_in ops sb cls =
    ceiling_violations ops sb.spec.resources cls.spec.max_resources
    ++ (scratch_violations ops (effective_scratch ops sb cls) (scratch_ceiling ops cls)
        ++ mode_violations cls.spec.allowed_network_modes (effective_mode (some sb) (some cls)))

unfoldable pub validate :
    {Q : Type 0} → QuantityOps Q → Option (Sandbox Q) → Option (SandboxClass Q) → List Violation
unfolding validate_in
validate ops none cls = nil_sandbox ∷ []
validate ops (some sb) none = []
validate ops (some sb) (some cls) = validate_in ops sb cls
