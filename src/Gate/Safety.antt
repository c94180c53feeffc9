-- ===== src/Gate/Safety.antt =====
-- What the gate lets through.
use setec.Prelude.{
  ◌≡◌, ◌⊎◌, inl, inr, refl, sym, ◌∙◌, true, false, Option, List, [], ◌∷◌, ◌++◌, not, ◌||◌, arith,
  Bool-cases,
}
use setec.Api.{SandboxClass}
use setec.Gate.{
  Invariant, clean_base, uniquified, single_session, provenance, encrypted_at_rest, Evidence,
  evaluate, Decision, Gate, class_opts_out, dev_mode_active, decide, decide_on, when,
}

-- Every invariant is confirmed.
pub record AllConfirmed (ev : Evidence) : Type 0 where
  pub clean : ev.clean_base_ok ≡ true
  pub reseeded : ev.entropy_reseeded ≡ true
  pub unique : ev.identity_uniquified ≡ true
  pub single : ev.single_session_ok ≡ true
  pub proven : ev.provenance_verified ≡ true
  pub encrypted : ev.encrypted_ok ≡ true

-- The violations, in the alphabetical order of their names.
pub evaluate_lem :
    (ev : Evidence)
    → evaluate ev
      ≡ when (not ev.clean_base_ok) clean_base
        ++ (when (not ev.encrypted_ok) encrypted_at_rest
            ++ (when (not ev.single_session_ok) single_session
                ++ (when (not ev.entropy_reseeded || not ev.identity_uniquified) uniquified
                    ++ when (not ev.provenance_verified) provenance)))
unfolding evaluate
evaluate_lem ev = ground arith

evaluate-nil : (ev : Evidence) → evaluate ev ≡ [] → AllConfirmed ev
evaluate-nil ev h = let e = sym (evaluate_lem ev) ∙ h in ground arith

nil-evaluate : (ev : Evidence) → AllConfirmed ev → evaluate ev ≡ []
nil-evaluate ev h = evaluate_lem ev ∙ ground arith

-- The opt-out is granted: the class is annotated, and the gate's namespace was read and has the label.
abbrev pub OptedOut : {Q : Type 0} → Option Gate → Option (SandboxClass Q) → Type 0
OptedOut g cls = (class_opts_out cls ≡ true) × (dev_mode_active g ≡ (true, false))

-- What the gate answers, in three cases.
pub data Answer {Q : Type 0} (g : Option Gate) (cls : Option (SandboxClass Q)) (ev : Evidence)
    (d : Decision) : Type 0 where
  verified : AllConfirmed ev → d.allowed ≡ true → d.dev_opt_out ≡ false → Answer g cls ev d
  opted_out :
      (¬ AllConfirmed ev)
      → OptedOut g cls
      → d.allowed ≡ true
      → d.dev_opt_out ≡ true
      → Answer g cls ev d
  refused :
      (¬ AllConfirmed ev)
      → (¬ OptedOut g cls)
      → d.allowed ≡ false
      → d.dev_opt_out ≡ false
      → Answer g cls ev d

module _ {Q : Type 0} (g : Option Gate) (cls : Option (SandboxClass Q)) (ev : Evidence) where
  not_all : (v : Invariant) (vs : List Invariant) → evaluate ev ≡ v ∷ vs → ¬ AllConfirmed ev
  not_all v vs e h = cc (nil-evaluate ev h, e)

  -- The opt-out fails by the class, by the read of the namespace, or by its label.
  not_opted :
      (class_opts_out cls ≡ false) ⊎ (((dev_mode_active g).1 || not (dev_mode_active g).0) ≡ true)
      → ¬ OptedOut g cls
  not_opted (inl c) h = cc (c, h.0)
  not_opted (inr d) h = let e = h.1 in absurd (ground arith)

  opted :
      class_opts_out cls ≡ true
      → ((dev_mode_active g).1 || not (dev_mode_active g).0) ≡ false
      → OptedOut g cls
  opted c d = (c, ground arith)

  Answer-on :
      (vs : List Invariant)
      → evaluate ev ≡ vs
      → Answer g cls ev (decide_on g cls vs).0 × ((decide_on g cls vs).0.violations ≡ vs)
  unfolding decide_on
  Answer-on [] e = (verified (evaluate-nil ev e) refl refl, refl)
  Answer-on (v ∷ vs) e = elim (Bool-cases (class_opts_out cls)) [
    | inr c ↦ rw c (refused (not_all v vs e) (not_opted (inl c)) refl refl, refl)
    | inl c ↦ elim (Bool-cases ((dev_mode_active g).1 || not (dev_mode_active g).0)) [
      | inl d ↦ rw (c, d) (refused (not_all v vs e) (not_opted (inr d)) refl refl, refl)
      | inr d ↦ rw (c, d) (opted_out (not_all v vs e) (opted c d) refl refl, refl)
    ]
  ]

  -- A restore is allowed when all five invariants are confirmed, or, with the opt-out flagged, when the
  -- class is annotated and the label of the gate's namespace was read as set; it is refused in every
  -- other case. The violations are reported in each.
  pub decide-Answer :
      Answer g cls ev (decide g cls ev).0 × ((decide g cls ev).0.violations ≡ evaluate ev)
  unfolding decide
  decide-Answer = Answer-on (evaluate ev) refl
