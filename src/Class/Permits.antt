-- ===== src/Class/Permits.antt =====
-- What a class permits: Validate is empty exactly for the Sandboxes that keep every rule.
use Prim.Native.Nat.{Ordering}
use setec.Prelude.{
  ◌≡◌, ◌≢◌, ◌↔◌, refl, true, false, Option, none, some, List, [], ◌∷◌, ◌++◌, contains, arith,
}
use setec.Prelude.Int.{ltb_ℤ}
use setec.Api.{NetworkMode, network_mode_eq, Resources, Sandbox, SandboxClass}
use setec.Class.{
  QuantityOps, validate, effective_scratch, scratch_ceiling, effective_mode, ceiling_violations,
  scratch_violations, mode_violations,
}

-- The request is at most the ceiling in vcpu and in memory, when the class has a ceiling.
abbrev pub UnderCeiling : {Q : Type 0} → QuantityOps Q → Resources Q → Option (Resources Q) → Type 0
UnderCeiling ops r none = Unit
UnderCeiling ops r (some max) =
    (ltb_ℤ max.vcpu r.vcpu ≡ false) × (ops.cmp r.memory max.memory ≢ Ordering.gt)

-- The mode is on the list, or the list is empty.
abbrev pub ModeAllowed : List NetworkMode → NetworkMode → Type 0
ModeAllowed [] mode = Unit
ModeAllowed (m ∷ ms) mode = contains (m ∷ ms) mode ≡ true

pub record Permits {Q : Type 0} (ops : QuantityOps Q) (sb : Sandbox Q) (cls : SandboxClass Q)
    : Type 0 where
  pub resources : UnderCeiling ops sb.spec.resources cls.spec.max_resources
  pub scratch_fits : ops.cmp (effective_scratch ops sb cls) (scratch_ceiling ops cls) ≢ Ordering.gt
  pub scratch_positive : ops.is_positive (effective_scratch ops sb cls) ≡ true
  pub mode : ModeAllowed cls.spec.allowed_network_modes (effective_mode (some sb) (some cls))

append-eq_nil {ℓ} : {A : Type ℓ} (xs ys : List A) → (xs ++ ys ≡ []) ↔ ((xs ≡ []) × (ys ≡ []))
append-eq_nil [] ys = (λ h. (refl, h), λ h. h.1)
append-eq_nil (x ∷ xs) ys = (λ h. cc, λ h. cc)

module _ {Q : Type 0} (ops : QuantityOps Q) where
  ceiling_iff :
      (r : Resources Q) (max : Option (Resources Q))
      → (ceiling_violations ops r max ≡ []) ↔ UnderCeiling ops r max
  unfolding ceiling_violations
  ceiling_iff r none = (λ _. tt, λ _. refl)
  ceiling_iff r (some max) = (λ h. ground arith, λ h. ground arith)

  scratch_iff :
      (s c : Q)
      → (scratch_violations ops s c ≡ [])
        ↔ ((ops.cmp s c ≢ Ordering.gt) × (ops.is_positive s ≡ true))
  unfolding scratch_violations
  scratch_iff s c = (λ h. ground arith, λ h. ground arith)

  mode_iff :
      (ms : List NetworkMode) (m : NetworkMode) → (mode_violations ms m ≡ []) ↔ ModeAllowed ms m
  unfolding mode_violations
  mode_iff [] m = (λ _. tt, λ _. refl)
  mode_iff (k ∷ ms) m = (λ h. ground arith, λ h. ground arith)

  -- Validate reports no violation exactly when the class permits the Sandbox: vcpu and memory at most
  -- the ceilings of the class (if it has them), the effective scratch size positive and at most its
  -- ceiling, and the effective network mode on the list of the class (if that is not empty).
  pub validate-nil :
      (sb : Sandbox Q) (cls : SandboxClass Q)
      → (validate ops (some sb) (some cls) ≡ []) ↔ Permits ops sb cls
  unfolding validate
  validate-nil sb cls =
      let r = ceiling_iff sb.spec.resources cls.spec.max_resources in
      let s = scratch_iff (effective_scratch ops sb cls) (scratch_ceiling ops cls) in
      let m = mode_iff cls.spec.allowed_network_modes (effective_mode (some sb) (some cls)) in
      (
        λ h.
            let (a, bc) = (append-eq_nil _ _).0 h in
            let (b, c) = (append-eq_nil _ _).0 bc in
            record {
              resources = r.0 a;
              scratch_fits = (s.0 b).0;
              scratch_positive = (s.0 b).1;
              mode = m.0 c;
            },
        λ p. (append-eq_nil _ _).1 (
          r.1 p.resources,
          (append-eq_nil _ _).1 (s.1 (p.scratch_fits, p.scratch_positive), m.1 p.mode),
        ),
      )
