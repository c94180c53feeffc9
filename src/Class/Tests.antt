-- ===== src/Class/Tests.antt =====
-- Classes at inputs; a quantity is a number, and the default scratch size is 10.
use Prim.Native.Nat.{compare}
use setec.Prelude.{ℕ, ◌≡◌, ◌↔◌, refl, none, some, [], ◌∷◌, ltb}
use setec.Api.{Sandbox}
use setec.Api.Samples.{session_sandbox, standard_class}
use setec.Class.{QuantityOps, validate}
use setec.Class.Permits.{Permits, validate-nil}
use setec.Class.Resolver.{Client, got}

abbrev numbers : QuantityOps ℕ
numbers = record { cmp = compare; is_positive = ltb 0; default_scratch = 10 }

permitted : validate numbers (some session_sandbox) (some standard_class) ≡ []
unfolding validate setec.Class.effective_scratch setec.Class.scratch_ceiling
    setec.Class.effective_mode
permitted = refl

validate-nil_example :
    (validate numbers (some session_sandbox) (some standard_class) ≡ [])
    ↔ Permits numbers session_sandbox standard_class
validate-nil_example = validate-nil numbers session_sandbox standard_class

abbrev unnamed : Sandbox ℕ
unnamed = record {
  namespace = "team-a";
  name = "worker";
  uid = "7f";
  creation_timestamp = 5;
  deletion_timestamp = none;
  finalizers = [];
  labels = [];
  annotations = [];
  spec = record {
    sandbox_class_name = "";
    image = "";
    resources = session_sandbox.spec.resources;
    network = none;
    lifecycle = none;
    snapshot = none;
    snapshot_ref = none;
    desired_state = session_sandbox.spec.desired_state;
    review = session_sandbox.spec.review;
  };
  status = session_sandbox.status;
}

abbrev one_class : Client ℕ
one_class = record { get = λ n. got standard_class; list = some (standard_class ∷ []) }
