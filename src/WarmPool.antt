-- ===== src/WarmPool.antt =====
-- internal/controller/warm_pool.go: the images of the pool of a class, the bases that stay, and the base
-- of a Sandbox; the pass over a class is in WarmPool/Reconcile. Reads of the clock in one pass give one instant. A base key is the digest that
-- snapshot.BaseKey makes: a parameter.
pub mod Images
pub mod Bases
pub mod Reconcile
mod Tests
use Prim.Native.String.{find, len, compare}
use Prim.Native.Nat.{Ordering}
use setec.Prelude.{
  ℕ, suc, ◌+◌, ◌*◌, leb, ltb, Bool, true, false, String, Option, none, some, List, [], ◌∷◌, ◌++◌,
  ◌==◌, ◌!=◌, ◌&&◌, ◌||◌, not, string_eq, nat_eq, length, value_at, is_some, is_none, if◌then◌else◌,
}
use setec.Prelude.Int.{ℤ, pos, ltb_ℤ, leb_ℤ, pos_part, neg_part}
use setec.Prelude.Time.{Time, Duration, minute, second, sub, before, after}
use setec.Api.{
  Sandbox, SandboxClass, SandboxClassRuntime, SandboxClassWarmPoolImage, Resources, Snapshot, ready,
  failed, SnapshotPhase-discrete, snapshot_phase_eq,
}
use setec.Api.Session.{is_session}
use setec.Class.{QuantityOps}

abbrev pub warm_pool_idle : Duration
warm_pool_idle = pos (7 * 24 * (60 * minute))

abbrev pub max_pool_images : ℕ
max_pool_images = 32

abbrev pub last_used_step : Duration
last_used_step = pos (60 * minute)

abbrev pub base_write_timeout : Duration
base_write_timeout = pos (15 * minute)

abbrev pub base_key_annotation : String
base_key_annotation = "setec.zeroroot.ai/base-key"

abbrev pub clean_base_annotation : String
clean_base_annotation = "setec.zeroroot.ai/clean-base"

-- strings.Contains.
unfoldable pub contains_text : String → String → Bool
contains_text s t = leb (find s t) (len s)

runs_launcher : Option SandboxClassRuntime → Bool
runs_launcher none = false
runs_launcher (some r) = r.backend == "launcher"

unfoldable pub pool_active : {Q : Type 0} → SandboxClass Q → Bool
unfolding runs_launcher
pool_active cls =
    ltb_ℤ (pos 0) cls.spec.pre_warm_pool_size
    && is_some cls.spec.default_resources
    && runs_launcher cls.spec.runtime

equal_ℤ : ℤ → ℤ → Bool
equal_ℤ a b = leb_ℤ a b && leb_ℤ b a

is_eq : Ordering → Bool
is_eq Ordering.eq = true
is_eq _ = false

same_resources : {Q : Type 0} → QuantityOps Q → Resources Q → Option (Resources Q) → Bool
unfolding equal_ℤ is_eq
same_resources ops a none = false
same_resources ops a (some b) = equal_ℤ a.vcpu b.vcpu && is_eq (ops.cmp a.memory b.memory)

names_snapshot : Option String → Bool
names_snapshot none = false
names_snapshot (some name) = name != ""

unfoldable pub pool_eligible :
    {Q : Type 0} → QuantityOps Q → Sandbox Q → Option (SandboxClass Q) → Bool
unfolding pool_active contains_text names_snapshot same_resources
pool_eligible ops sb none = false
pool_eligible ops sb (some cls) =
    pool_active cls
    && contains_text sb.spec.image "@sha256:"
    && not (names_snapshot sb.spec.snapshot_ref)
    && not (is_session sb.spec)
    && same_resources ops sb.spec.resources cls.spec.default_resources

-- The base that a Sandbox loads.
unfoldable pub usable : String → Snapshot → Bool
unfolding SnapshotPhase-discrete
usable key b =
    b.status.phase == ready
    && value_at b.annotations base_key_annotation == key
    && value_at b.annotations clean_base_annotation == "true"
    && is_none b.deletion_timestamp

first_usable : String → List Snapshot → Option Snapshot
unfolding usable
first_usable key [] = none
first_usable key (b ∷ bs) = if usable key b then some b else first_usable key bs

listed : String → Option (List Snapshot) → Option (Option Snapshot)
unfolding first_usable
listed key none = none
listed key (some bs) = some (first_usable key bs)

-- selectBase, of the bases of the class sorted by name; the outer `none` for an error.
unfoldable pub select_base :
    {Q : Type 0}
    → QuantityOps Q
    → String
    → (SandboxClass Q → String → String)
    → Option (List Snapshot)
    → Sandbox Q
    → Option (SandboxClass Q)
    → Option (Option Snapshot)
unfolding listed
select_base ops namespace base_key bases sb none = some none
select_base ops namespace base_key bases sb (some cls) =
    if namespace == "" || not (pool_eligible ops sb (some cls))
    then some none
    else listed (base_key cls sb.spec.image) bases
