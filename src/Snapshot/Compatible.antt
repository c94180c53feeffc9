-- ===== src/Snapshot/Compatible.antt =====
-- The Sandboxes that a Snapshot opens in.
use setec.Prelude.{
  ◌≡◌, ◌≢◌, ◌⊎◌, ◌↔◌, inl, inr, refl, sym, ◌∙◌, Bool, true, false, String, Option, none, some, [],
  ◌++◌, ◌!=◌, ◌==◌, ◌&&◌, ◌||◌, not, string_eq, arith, eq_iff, Bool-cases,
}
use setec.Api.{
  none_mode, NetworkMode-discrete, network_mode_eq, Network, Sandbox, SandboxClass, SnapshotPhase,
  ready, SnapshotPhase-discrete, snapshot_phase_eq, Snapshot,
}
use setec.Snapshot.{
  Violation, validate, validate_pair, when, class_differs, template_differs, has_network,
  phase_not_ready,
}

-- A class that is not nil has the name and the CPU template that the Snapshot records.
abbrev pub SameClass : {Q : Type 0} → Snapshot → Option (SandboxClass Q) → Type 0
SameClass snap none = Unit
SameClass snap (some cls) =
    (snap.spec.sandbox_class ≡ cls.name) × (snap.spec.cpu_template ≡ cls.spec.cpu_template)

-- The Sandbox has a network with mode none.
abbrev pub NoNetwork : Option Network → Type 0
NoNetwork none = ⊥
NoNetwork (some n) = n.mode ≡ none_mode

pub record Compatible {Q : Type 0} (sb : Sandbox Q) (snap : Snapshot)
    (cls : Option (SandboxClass Q)) : Type 0 where
  pub same_namespace : sb.namespace ≡ snap.namespace
  pub same_class : SameClass snap cls
  pub same_image : (sb.spec.image ≡ "") ⊎ (sb.spec.image ≡ snap.spec.image_ref)
  pub reviewed : (snap.spec.kept ≡ false) ⊎ ((sb.spec.review ≡ true) × NoNetwork sb.spec.network)
  pub restorable :
      ((snap.status.phase ≡ SnapshotPhase.unset) ⊎ (snap.status.phase ≡ ready))
      × (snap.spec.storage_ref ≢ "")

not-false : (b : Bool) → (not b ≡ false) ↔ (b ≡ true)
not-false true = (λ _. refl, λ _. refl)
not-false false = (λ h. sym h, λ h. sym h)

differ-false : (a b : String) → ((a != b) ≡ false) ↔ (a ≡ b)
differ-false a b =
    (λ h. (eq_iff a b).0 ((not-false (a == b)).0 h), λ p. (not-false (a == b)).1 ((eq_iff a b).1 p))

phase_iff :
    (snap : Snapshot)
    → (phase_not_ready snap ≡ false)
      ↔ ((snap.status.phase ≡ SnapshotPhase.unset) ⊎ (snap.status.phase ≡ ready))
unfolding phase_not_ready SnapshotPhase-discrete
phase_iff snap = (λ h. ground arith, λ h. ground arith)

network_iff : (n : Option Network) → (has_network n ≡ false) ↔ NoNetwork n
unfolding has_network NetworkMode-discrete
network_iff none = (λ h. absurd (ground arith), λ h. absurd h)
network_iff (some n) = (λ h. ground arith, λ h. ground arith)

and-false : (a b : Bool) → ((a && b) ≡ false) ↔ ((a ≡ false) ⊎ (b ≡ false))
and-false true b = (λ h. inr h, λ h. ground arith)
and-false false b = (λ h. inl refl, λ _. refl)

image_iff : (a b : String) → ((a != "" && a != b) ≡ false) ↔ ((a ≡ "") ⊎ (a ≡ b))
image_iff a b = (
  λ h. elim ((and-false (a != "") (a != b)).0 h) [
    | inl e ↦ inl ((differ-false a "").0 e)
    | inr e ↦ inr ((differ-false a b).0 e)
  ],
  λ h. elim h [
    | inl e ↦ (and-false (a != "") (a != b)).1 (inl ((differ-false a "").1 e))
    | inr e ↦ (and-false (a != "") (a != b)).1 (inr ((differ-false a b).1 e))
  ],
)

stored_iff : (a : String) → ((a == "") ≡ false) ↔ (a ≢ "")
stored_iff a = (
  λ h p. cc (sym ((eq_iff a "").1 p) ∙ h),
  λ n. elim (Bool-cases (a == "")) [ inl e ↦ absurd (n ((eq_iff a "").0 e)) | inr e ↦ e ],
)

review_iff :
    (kept review : Bool) (n : Option Network)
    → ((kept && (not review || has_network n)) ≡ false)
      ↔ ((kept ≡ false) ⊎ ((review ≡ true) × NoNetwork n))
review_iff false review n = (λ _. inl refl, λ _. refl)
review_iff true false n = (λ h. absurd (ground arith), λ h. ground arith)
review_iff true true n = (
  λ h. inr (refl, (network_iff n).0 h),
  λ h. elim h [ inl e ↦ absurd (cc e) | inr r ↦ (network_iff n).1 r.1 ],
)

class_iff :
    {Q : Type 0} (snap : Snapshot) (cls : Option (SandboxClass Q))
    → ((class_differs snap cls ≡ false) × (template_differs snap cls ≡ false)) ↔ SameClass snap cls
unfolding class_differs template_differs
class_iff snap none = (λ _. tt, λ _. (refl, refl))
class_iff snap (some cls) = (
  λ h. ((differ-false _ _).0 h.0, (differ-false _ _).0 h.1),
  λ h. ((differ-false _ _).1 h.0, (differ-false _ _).1 h.1),
)

-- A list of seven optional violations is empty exactly when each is off.
seven-nil :
    (a b c d e f g : Bool) (u v w x y z t : Violation)
    → (when a u ++ (when b v ++ (when c w ++ (when d x ++ (when e y ++ (when f z ++ when g t)))))
        ≡ [])
      ↔ ((a ≡ false)
          × (b ≡ false)
          × (c ≡ false)
          × (d ≡ false)
          × (e ≡ false)
          × (f ≡ false)
          × (g ≡ false))
seven-nil true b c d e f g u v w x y z t = (λ h. cc, λ h. cc)
seven-nil false true c d e f g u v w x y z t = (λ h. cc, λ h. cc)
seven-nil false false true d e f g u v w x y z t = (λ h. cc, λ h. cc)
seven-nil false false false true e f g u v w x y z t = (λ h. cc, λ h. cc)
seven-nil false false false false true f g u v w x y z t = (λ h. cc, λ h. cc)
seven-nil false false false false false true g u v w x y z t = (λ h. cc, λ h. cc)
seven-nil false false false false false false true u v w x y z t = (λ h. cc, λ h. cc)
seven-nil false false false false false false false u v w x y z t =
    (λ h. (refl, refl, refl, refl, refl, refl, refl), λ h. refl)

module _ {Q : Type 0} (sb : Sandbox Q) (snap : Snapshot) (cls : Option (SandboxClass Q)) where
  -- snapshot.Validate reports nothing exactly when the Snapshot opens in the Sandbox: it is of its
  -- namespace, of the class and CPU template of the resolved class (if there is one), of the image that
  -- the Sandbox asks for (if it asks for one), Ready or without a phase, and stored; and, if it is
  -- kept, the Sandbox is for review and its network mode is none.
  pub validate-Compatible : (validate (some sb) (some snap) cls ≡ []) ↔ Compatible sb snap cls
  unfolding validate validate_pair
  validate-Compatible =
      let s = seven-nil _ _ _ _ _ _ _ _ _ _ _ _ _ _ in
      (
        λ h.
            let (n, c, i, k, t, p, r) = s.0 h in
            record {
              same_namespace = (differ-false sb.namespace snap.namespace).0 n;
              same_class = (class_iff snap cls).0 (c, t);
              same_image = (image_iff sb.spec.image snap.spec.image_ref).0 i;
              reviewed = (review_iff snap.spec.kept sb.spec.review sb.spec.network).0 k;
              restorable = ((phase_iff snap).0 p, (stored_iff snap.spec.storage_ref).0 r);
            },
        λ o. s.1 (
          (differ-false sb.namespace snap.namespace).1 o.same_namespace,
          ((class_iff snap cls).1 o.same_class).0,
          (image_iff sb.spec.image snap.spec.image_ref).1 o.same_image,
          (review_iff snap.spec.kept sb.spec.review sb.spec.network).1 o.reviewed,
          ((class_iff snap cls).1 o.same_class).1,
          (phase_iff snap).1 o.restorable.0,
          (stored_iff snap.spec.storage_ref).1 o.restorable.1,
        ),
      )
