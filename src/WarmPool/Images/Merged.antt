-- ===== src/WarmPool/Images/Merged.antt =====
-- The pool that the status gets keeps what a Sandbox stamped since the class was read.
use setec.Prelude.{
  any-append, ◌≡◌, ◌⊎◌, refl, ◌∙◌, inl, inr, true, String, some, [], ◌∷◌, ◌++◌, ◌==◌, ◌&&◌, any,
  string_eq, eq_iff, leb, Bool-cases, arith,
}
use setec.Prelude.Int.{leb_ℤ}
use setec.Prelude.Time.{Time, sub, after}
use setec.Api.{SandboxClassWarmPoolImage}
use setec.WarmPool.{warm_pool_idle}
use setec.WarmPool.Images.{
  Images, has_image, set_later, merged, merge_all, merge_pool_images, live_images,
}
use setec.WarmPool.Images.Stamped.{any-sort}

-- The image is in the pool, with that stamp or a later one.
abbrev pub Covers : String → Time → Images → Type 0
Covers x t l = any (λ im. im.image == x && leb t im.last_used) l ≡ true

set_later-Covers :
    (x : String) (t : Time) (y : String) (u : Time) (l : Images)
    → Covers x t l
    → Covers x t (set_later y u l)
unfolding set_later
set_later-Covers x t y u [] h = h
set_later-Covers x t y u (z ∷ zs) h = elim (Bool-cases (z.image == y)) [
  | inl e ↦ elim (Bool-cases (after u z.last_used)) [
    | inl a ↦ rw (e, a) (ground arith)
    | inr a ↦ rw (e, a) h
  ]
  | inr e ↦ elim (Bool-cases (z.image == x && leb t z.last_used)) [
    | inl f ↦ rw (e, f) refl
    | inr f ↦ rw (e, f) (set_later-Covers x t y u zs (rw f at h))
  ]
]

set_later-here :
    (x : String) (t : Time) (l : Images) → has_image x l ≡ true → Covers x t (set_later x t l)
unfolding set_later has_image
set_later-here x t [] h = absurd (cc)
set_later-here x t (z ∷ zs) h = elim (Bool-cases (z.image == x)) [
  | inl e ↦ elim (Bool-cases (after t z.last_used)) [
    | inl a ↦ rw (e, a) (ground arith)
    | inr a ↦ rw (e, a) (ground arith)
  ]
  | inr e ↦ rw e (let rest = set_later-here x t zs (rw e at h) in ground arith)
]

append-Covers : (x : String) (t : Time) (l m : Images) → Covers x t l → Covers x t (l ++ m)
append-Covers x t l m h =
    let e = any-append (λ im. im.image == x && leb t im.last_used) l m in ground arith

merged-Covers :
    (now : Time) (out : Images) (l : SandboxClassWarmPoolImage) (x : String) (t : Time)
    → Covers x t out
    → Covers x t (merged now out l)
unfolding merged
merged-Covers now out l x t h = elim (Bool-cases (has_image l.image out)) [
  | inl e ↦ rw e (set_later-Covers x t l.image l.last_used out h)
  | inr e ↦ elim (Bool-cases (leb_ℤ (sub now l.last_used) warm_pool_idle)) [
    | inl f ↦ rw (e, f) (append-Covers x t out (l ∷ []) h)
    | inr f ↦ rw (e, f) h
  ]
]

merged-here :
    (now : Time) (out : Images) (l : SandboxClassWarmPoolImage)
    → leb_ℤ (sub now l.last_used) warm_pool_idle ≡ true
    → Covers l.image l.last_used (merged now out l)
unfolding merged
merged-here now out l h = elim (Bool-cases (has_image l.image out)) [
  | inl e ↦ rw e (set_later-here l.image l.last_used out e)
  | inr e ↦
      let same : (l.image == l.image) ≡ true = (eq_iff l.image l.image).1 refl in
      let a = any-append (λ im. im.image == l.image && leb l.last_used im.last_used) out (l ∷ []) in
      rw (e, h) (ground arith)
]

merge_all-Covers :
    (now : Time) (out live : Images) (x : String) (t : Time)
    → Covers x t out
    → Covers x t (merge_all now out live)
unfolding merge_all
merge_all-Covers now out [] x t h = h
merge_all-Covers now out (l ∷ ls) x t h =
    merge_all-Covers now (merged now out l) ls x t (merged-Covers now out l x t h)

-- An entry of the live pool.
abbrev pub Holds : SandboxClassWarmPoolImage → Images → Type 0
Holds im [] = ⊥
Holds im (l ∷ ls) = (l ≡ im) ⊎ Holds im ls

merge_all-Holds :
    (now : Time) (out live : Images) (im : SandboxClassWarmPoolImage)
    → Holds im live
    → leb_ℤ (sub now im.last_used) warm_pool_idle ≡ true
    → Covers im.image im.last_used (merge_all now out live)
unfolding merge_all
merge_all-Holds now out [] im h k = absurd h
merge_all-Holds now out (l ∷ ls) im (inl e) k =
    merge_all-Covers now (merged now out l) ls im.image im.last_used
      (rw e (merged-here now out im k))
merge_all-Holds now out (l ∷ ls) im (inr h) k = merge_all-Holds now (merged now out l) ls im h k

-- For a class whose live status has a pool: mergePoolImages keeps an image of the live status that is
-- not idle for more than seven days, with its stamp or a later one, and an image that was computed.
pub merge_pool_images-Covers :
    (live computed : Images) (now : Time) (im : SandboxClassWarmPoolImage)
    → (Holds im live × (leb_ℤ (sub now im.last_used) warm_pool_idle ≡ true))
      ⊎ Covers im.image im.last_used computed
    → Covers im.image im.last_used (merge_pool_images (some live) computed now)
unfolding merge_pool_images live_images
merge_pool_images-Covers live computed now im h =
    any-sort (λ l. l.image == im.image && leb im.last_used l.last_used)
      (merge_all now computed live)
    ∙ elim h [
      | inl (a, k) ↦ merge_all-Holds now computed live im a k
      | inr a ↦ merge_all-Covers now computed live im.image im.last_used a
    ]
