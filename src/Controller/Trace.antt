-- ===== src/Controller/Trace.antt =====
-- What a run does, read as a trace: whether it creates a Pod, and whether its policies and its claim are
-- in place before.
use setec.Prelude.{
  ◌≡◌, refl, ◌∙◌, Bool, true, false, List, [], ◌∷◌, ◌++◌, ◌&&◌, ◌||◌, any, string_eq, arith,
}
use setec.Checkpoint.{done, moot, refused}
use setec.Controller.{
  Act, patch_status, keep_baseline, keep_claim, keep_policy, create_baseline, patch_baseline,
  create_policy, read_back, patch_policy, create_claim, create_pod, delete_sandbox,
  remove_finalizer, mark_base, checkpoint,
}

neither : (x y : Bool) → (x || y) ≡ false → (x ≡ false) × (y ≡ false)
neither false y h = (refl, h)
neither true y h = absurd (cc)

module _ {P : Type 0} where
  abbrev pub is_create : Act P → Bool
  is_create (create_pod node restore w) = true
  is_create a = false

  abbrev pub is_reap : Act P → Bool
  is_reap (delete_sandbox w) = true
  is_reap a = false

  abbrev pub is_release : Act P → Bool
  is_release (remove_finalizer ok_) = true
  is_release a = false

  -- Whether a Pod is created, the Sandbox is deleted, the finalizer is taken off.
  abbrev pub creates : List (Act P) → Bool
  creates l = any is_create l

  abbrev pub reaps : List (Act P) → Bool
  reaps l = any is_reap l

  abbrev pub releases : List (Act P) → Bool
  releases l = any is_release l

  -- Each Pod comes when the baseline, the policy and the claim are in place: what was read as wanted,
  -- or was written. A policy that was just created counts once it was read back.
  abbrev pub guarded : Bool → Bool → Bool → List (Act P) → Bool
  guarded b p k [] = true
  guarded b p k (keep_baseline ∷ l) = guarded true p k l
  guarded b p k (create_baseline refused ∷ l) = guarded b p k l
  guarded b p k (create_baseline w ∷ l) = guarded true p k l
  guarded b p k (patch_baseline ok_ ∷ l) = guarded (b || ok_) p k l
  guarded b p k (keep_policy q ∷ l) = guarded b true k l
  guarded b p k (create_policy q w ∷ l) = guarded b false k l
  guarded b p k (read_back q ok_ ∷ l) = guarded b ok_ k l
  guarded b p k (patch_policy q ok_ ∷ l) = guarded b ok_ k l
  guarded b p k (keep_claim ∷ l) = guarded b p true l
  guarded b p k (create_claim refused ∷ l) = guarded b p k l
  guarded b p k (create_claim w ∷ l) = guarded b p true l
  guarded b p k (create_pod node restore w ∷ l) = b && p && k && guarded b p k l
  guarded b p k (a ∷ l) = guarded b p k l

  -- Steps that touch neither the policies nor the claim, nor create a Pod.
  abbrev pub neutral : Act P → Bool
  neutral keep_baseline = false
  neutral (create_baseline w) = false
  neutral (patch_baseline ok_) = false
  neutral (keep_policy q) = false
  neutral (create_policy q w) = false
  neutral (read_back q ok_) = false
  neutral (patch_policy q ok_) = false
  neutral keep_claim = false
  neutral (create_claim w) = false
  neutral (create_pod node restore w) = false
  neutral _ = true

  abbrev pub all_neutral : List (Act P) → Bool
  all_neutral [] = true
  all_neutral (a ∷ l) = neutral a && all_neutral l

  pub guarded-neutral :
      (b p k : Bool) (a : Act P) (m : List (Act P))
      → neutral a ≡ true
      → guarded b p k (a ∷ m) ≡ guarded b p k m
  guarded-neutral b p k a m h = ground arith

  pub guarded-skip :
      (b p k : Bool) (l m : List (Act P))
      → all_neutral l ≡ true
      → guarded b p k (l ++ m) ≡ guarded b p k m
  guarded-skip b p k [] m h = refl
  guarded-skip b p k (a ∷ l) m h =
      let head : neutral a ≡ true = ground arith in
      let tail : all_neutral l ≡ true = ground arith in
      guarded-neutral b p k a (l ++ m) head ∙ guarded-skip b p k l m tail

  -- With no Pod there is nothing to guard.
  pub guarded-creates :
      (b p k : Bool) (l : List (Act P)) → creates l ≡ false → guarded b p k l ≡ true
  guarded-creates b p k [] h = refl
  guarded-creates b p k (keep_baseline ∷ l) h = guarded-creates true p k l h
  guarded-creates b p k (create_baseline done ∷ l) h = guarded-creates true p k l h
  guarded-creates b p k (create_baseline moot ∷ l) h = guarded-creates true p k l h
  guarded-creates b p k (create_baseline refused ∷ l) h = guarded-creates b p k l h
  guarded-creates b p k (patch_baseline ok_ ∷ l) h = guarded-creates (b || ok_) p k l h
  guarded-creates b p k (keep_policy q ∷ l) h = guarded-creates b true k l h
  guarded-creates b p k (create_policy q w ∷ l) h = guarded-creates b false k l h
  guarded-creates b p k (read_back q ok_ ∷ l) h = guarded-creates b ok_ k l h
  guarded-creates b p k (patch_policy q ok_ ∷ l) h = guarded-creates b ok_ k l h
  guarded-creates b p k (keep_claim ∷ l) h = guarded-creates b p true l h
  guarded-creates b p k (create_claim done ∷ l) h = guarded-creates b p true l h
  guarded-creates b p k (create_claim moot ∷ l) h = guarded-creates b p true l h
  guarded-creates b p k (create_claim refused ∷ l) h = guarded-creates b p k l h
  guarded-creates b p k (create_pod node restore w ∷ l) h = absurd (cc)
  guarded-creates b p k (Act.add_finalizer ok_ ∷ l) h = guarded-creates b p k l h
  guarded-creates b p k (Act.remove_finalizer ok_ ∷ l) h = guarded-creates b p k l h
  guarded-creates b p k (Act.delete_sandbox w ∷ l) h = guarded-creates b p k l h
  guarded-creates b p k (Act.delete_pod w ∷ l) h = guarded-creates b p k l h
  guarded-creates b p k (Act.delete_claim w ∷ l) h = guarded-creates b p k l h
  guarded-creates b p k (patch_status st ok_ ∷ l) h = guarded-creates b p k l h
  guarded-creates b p k (Act.load snap answer ∷ l) h = guarded-creates b p k l h
  guarded-creates b p k (Act.mark_restored v ok_ ∷ l) h = guarded-creates b p k l h
  guarded-creates b p k (mark_base v ok_ ∷ l) h = guarded-creates b p k l h
  guarded-creates b p k (checkpoint call ∷ l) h = guarded-creates b p k l h
  guarded-creates b p k (Act.lifecycle step ∷ l) h = guarded-creates b p k l h

  pub creates-neutral : (l : List (Act P)) → all_neutral l ≡ true → creates l ≡ false
  creates-neutral [] h = refl
  creates-neutral (a ∷ l) h =
      let head : is_create a ≡ false = ground arith in rw (head, creates-neutral l (ground arith))

  pub guarded-neutral_all :
      (l : List (Act P)) → all_neutral l ≡ true → guarded true true true l ≡ true
  guarded-neutral_all l h = guarded-creates true true true l (creates-neutral l h)

module _ {P : Type 0} where
  -- Steps that create no Pod, delete no Sandbox and take no finalizer off.
  abbrev pub strange : Act P → Bool
  strange a = is_create a || (is_reap a || is_release a)

  abbrev pub Calm : List (Act P) → Type 0
  Calm l = any strange l ≡ false

  any-le :
      (p q : Act P → Bool) (l : List (Act P))
      → ((a : Act P) → q a ≡ false → p a ≡ false)
      → any q l ≡ false
      → any p l ≡ false
  any-le p q [] le h = refl
  any-le p q (a ∷ l) le h = let (x, y) = neither (q a) (any q l) h in rw (le a x, any-le p q l le y)

  pub Calm-creates : (l : List (Act P)) → Calm l → creates l ≡ false
  Calm-creates l h =
      any-le is_create strange l (λ a e. (neither (is_create a) (is_reap a || is_release a) e).0) h
