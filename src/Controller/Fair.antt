-- ===== src/Controller/Fair.antt =====
-- The steps of a pass against the answers of the server: a step that keeps what was read says so rightly,
-- a write is of what was generated, and its result is the server's.
use mathlib.Core.Path.{subst}
use setec.Prelude.{
  ◌≡◌, refl, Bool, true, false, Option, some, List, [], ◌∷◌, ◌++◌, ◌||◌, ◌&&◌, any-append, arith,
}
use setec.Api.{Sandbox, SandboxClass, SandboxSpec}
use setec.Checkpoint.{found, missing}
use setec.Controller.{
  Act, keep_baseline, keep_claim, keep_policy, create_baseline, patch_baseline, create_policy,
  read_back, patch_policy, create_claim, create_pod, Server, Stage, ended, going, Run, and_then,
}
use setec.Controller.Trace.{is_create, creates, neutral, all_neutral, creates-neutral}
use setec.Controller.Quiet.{Quiet}
use setec.Controller.Reconcile.Soft.{Soft}

module _ {P : Type 0} where
  -- Steps that say nothing of the policies and the claim.
  abbrev pub plain : Act P → Bool
  plain a = neutral a || is_create a

  abbrev pub all_plain : List (Act P) → Bool
  all_plain [] = true
  all_plain (a ∷ l) = plain a && all_plain l

  pub all_plain-neutral : (l : List (Act P)) → all_neutral l ≡ true → all_plain l ≡ true
  all_plain-neutral [] h = refl
  all_plain-neutral (a ∷ l) h = ground (arith, all_plain-neutral l)

module _ {Q P : Type 0} (c : Server Q P) where
  -- A policy that was generated for a Sandbox of that spec.
  abbrev pub Generated : SandboxSpec Q → P → Type 0
  Generated spec q =
      (sb : Sandbox Q) × (cls : Option (SandboxClass Q)) × (sb.spec ≡ spec)
      × (c.generate sb cls ≡ some q)

  abbrev pub Fair : SandboxSpec Q → Act P → Type 0
  Fair spec keep_baseline = c.baseline ≡ found true
  Fair spec (create_baseline w) = (c.baseline ≡ missing) × (w ≡ c.baseline_created)
  Fair spec (patch_baseline ok_) = (c.baseline ≡ found false) × (ok_ ≡ c.baseline_patched)
  Fair spec (keep_policy q) =
      ((existing : P) × (c.policy ≡ found existing) × (c.same_policy existing q ≡ true))
      × Generated spec q
  Fair spec (create_policy q w) = (w ≡ c.policy_created) × Generated spec q
  Fair spec (read_back q ok_) = (ok_ ≡ c.policy_read_back) × Generated spec q
  Fair spec (patch_policy q ok_) = (ok_ ≡ c.policy_patched) × Generated spec q
  Fair spec keep_claim = c.claim ≡ found false
  Fair spec (create_claim w) = (c.claim ≡ missing) × (w ≡ c.claim_created)
  Fair spec a = Unit

  abbrev pub AllFair : SandboxSpec Q → List (Act P) → Type 0
  AllFair spec [] = Unit
  AllFair spec (a ∷ l) = Fair spec a × AllFair spec l

  pub AllFair-append :
      (spec : SandboxSpec Q) (l m : List (Act P))
      → AllFair spec l
      → AllFair spec m
      → AllFair spec (l ++ m)
  AllFair-append spec [] m h k = k
  AllFair-append spec (a ∷ l) m (f, h) k = (f, AllFair-append spec l m h k)

  plain-Fair : (spec : SandboxSpec Q) (a : Act P) → plain a ≡ true → Fair spec a
  plain-Fair spec keep_baseline h = absurd (cc)
  plain-Fair spec (create_baseline w) h = absurd (cc)
  plain-Fair spec (patch_baseline ok_) h = absurd (cc)
  plain-Fair spec (keep_policy q) h = absurd (cc)
  plain-Fair spec (create_policy q w) h = absurd (cc)
  plain-Fair spec (read_back q ok_) h = absurd (cc)
  plain-Fair spec (patch_policy q ok_) h = absurd (cc)
  plain-Fair spec keep_claim h = absurd (cc)
  plain-Fair spec (create_claim w) h = absurd (cc)
  plain-Fair spec (create_pod node restore w) h = tt
  plain-Fair spec (Act.add_finalizer ok_) h = tt
  plain-Fair spec (Act.remove_finalizer ok_) h = tt
  plain-Fair spec (Act.delete_sandbox w) h = tt
  plain-Fair spec (Act.delete_pod w) h = tt
  plain-Fair spec (Act.delete_claim w) h = tt
  plain-Fair spec (Act.patch_status st ok_) h = tt
  plain-Fair spec (Act.load snap answer) h = tt
  plain-Fair spec (Act.mark_restored v ok_) h = tt
  plain-Fair spec (Act.mark_base v ok_) h = tt
  plain-Fair spec (Act.checkpoint call) h = tt
  plain-Fair spec (Act.lifecycle step) h = tt

  pub plain-AllFair :
      (spec : SandboxSpec Q) (l : List (Act P)) → all_plain l ≡ true → AllFair spec l
  plain-AllFair spec [] h = tt
  plain-AllFair spec (a ∷ l) h =
      let head : plain a ≡ true = ground arith in
      let tail : all_plain l ≡ true = ground arith in
      (plain-Fair spec a head, plain-AllFair spec l tail)

  -- A run that creates a Pod has only fair steps.
  abbrev pub Faithful : Sandbox Q → List (Act P) → Type 0
  Faithful sb l = creates l ≡ true → AllFair sb.spec l

  pub Faithful-creates : (sb : Sandbox Q) (l : List (Act P)) → creates l ≡ false → Faithful sb l
  Faithful-creates sb l h k = absurd (cc)

  prefixed-Faithful :
      (spec : SandboxSpec Q) (l m : List (Act P))
      → all_neutral l ≡ true
      → (creates m ≡ true → AllFair spec m)
      → creates (l ++ m) ≡ true
      → AllFair spec (l ++ m)
  prefixed-Faithful spec l m q h k =
      let n = creates-neutral l q in
      let e = any-append is_create l m in
      AllFair-append spec l m (plain-AllFair spec l (all_plain-neutral l q)) (h (ground arith))

  pub and_then-Faithful :
      (sb : Sandbox Q) (s : Stage P (Sandbox Q)) (k : Sandbox Q → Run P)
      → Quiet c sb s
      → ((next : Sandbox Q) → Faithful next (k next).0)
      → Faithful sb (and_then s k).0
  unfolding and_then
  and_then-Faithful sb (ended l e) k q h = Faithful-creates sb l (creates-neutral l q)
  and_then-Faithful sb (going l next) k (q, e) h =
      prefixed-Faithful sb.spec l (k next).0 q
        (λ made. subst (λ spec. AllFair spec (k next).0) e (h next made))

  pub and_step-Faithful :
      {A : Type 0} (sb : Sandbox Q) (s : Stage P A) (k : A → Run P)
      → Soft c s
      → ((a : A) → Faithful sb (k a).0)
      → Faithful sb (and_then s k).0
  unfolding and_then
  and_step-Faithful sb (ended l e) k q h = Faithful-creates sb l (creates-neutral l q)
  and_step-Faithful sb (going l a) k q h = prefixed-Faithful sb.spec l (k a).0 q (h a)
