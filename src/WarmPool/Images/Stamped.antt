-- ===== src/WarmPool/Images/Stamped.antt =====
-- A stamp of an image in the pool, and the bound of the pool.
use setec.Prelude.{
  ℕ, zero, suc, ◌+◌, ◌≤◌, ◌<◌, ltb, ◌≡◌, refl, ap, ◌∙◌, inl, inr, Bool, true, false, String, [],
  ◌∷◌, ◌++◌, ◌==◌, ◌&&◌, ◌||◌, any, any-append, string_eq, nat_eq, eq_iff, length, length-append,
  Bool-cases, arith,
}
use Prim.Native.String.{compare}
use setec.Prelude.Time.{Time, before}
use setec.Api.{SandboxClassWarmPoolImage}
use setec.WarmPool.{max_pool_images}
use setec.WarmPool.Images.{
  Images, is_lt, insert, sort, has_image, set_used, oldest_from, oldest, delete_at, stamp_image,
}

any-insert :
    (p : SandboxClassWarmPoolImage → Bool) (x : SandboxClassWarmPoolImage) (l : Images)
    → any p (insert x l) ≡ (p x || any p l)
unfolding insert
any-insert p x [] = refl
any-insert p x (y ∷ ys) = elim (Bool-cases (is_lt (compare x.image y.image))) [
  | inl e ↦ rw e refl
  | inr e ↦ rw (e, any-insert p x ys) (ground arith)
]

pub any-sort : (p : SandboxClassWarmPoolImage → Bool) (l : Images) → any p (sort l) ≡ any p l
unfolding sort
any-sort p [] = refl
any-sort p (x ∷ xs) = any-insert p x (sort xs) ∙ ap (λ b. p x || b) (any-sort p xs)

length-insert : (x : SandboxClassWarmPoolImage) (l : Images) → length (insert x l) ≡ suc (length l)
unfolding insert
length-insert x [] = refl
length-insert x (y ∷ ys) = elim (Bool-cases (is_lt (compare x.image y.image))) [
  | inl e ↦ rw e refl
  | inr e ↦ rw e (ap suc (length-insert x ys))
]

length-sort : (l : Images) → length (sort l) ≡ length l
unfolding sort
length-sort [] = refl
length-sort (x ∷ xs) = length-insert x (sort xs) ∙ ap suc (length-sort xs)

length-set_used : (x : String) (t : Time) (l : Images) → length (set_used x t l) ≡ length l
unfolding set_used
length-set_used x t [] = refl
length-set_used x t (y ∷ ys) = elim (Bool-cases (y.image == x)) [
  | inl e ↦ rw e refl
  | inr e ↦ rw e (ap suc (length-set_used x t ys))
]

-- The image is in the pool with that stamp.
abbrev pub Used : String → Time → Images → Type 0
Used x t l = any (λ im. im.image == x && im.last_used == t) l ≡ true

set_used-Used :
    (x : String) (t : Time) (l : Images) → has_image x l ≡ true → Used x t (set_used x t l)
unfolding set_used has_image
set_used-Used x t [] h = absurd (cc)
set_used-Used x t (y ∷ ys) h =
    let same : (t == t) ≡ true = ground arith in
    elim (Bool-cases (y.image == x)) [
      | inl e ↦ rw (e, same) (rw e refl)
      | inr e ↦ rw e (let rest = set_used-Used x t ys (rw e at h) in ground arith)
    ]

-- No stamp is after an instant.
abbrev pub Upto : Time → Images → Type 0
Upto now l = any (λ im. ltb now im.last_used) l ≡ false

oldest_from-append :
    (best i : ℕ) (t : Time) (l : Images) (x : SandboxClassWarmPoolImage)
    → t ≤ x.last_used
    → Upto x.last_used l
    → oldest_from best t i (l ++ x ∷ []) ≡ oldest_from best t i l
unfolding oldest_from
oldest_from-append best i t [] x h k =
    let e : before x.last_used t ≡ false = ground arith in rw e refl
oldest_from-append best i t (y ∷ ys) x h k =
    let rest : Upto x.last_used ys = ground arith in
    elim (Bool-cases (before y.last_used t)) [
      | inl e ↦ rw e (oldest_from-append i (suc i) y.last_used ys x (ground arith) rest)
      | inr e ↦ rw e (oldest_from-append best (suc i) t ys x h rest)
    ]

oldest_from-below :
    (best i : ℕ) (t : Time) (l : Images) → best < i → oldest_from best t i l < i + length l
unfolding oldest_from
oldest_from-below best i t [] h = omega arith
oldest_from-below best i t (y ∷ ys) h = elim (Bool-cases (before y.last_used t)) [
  | inl e ↦ rw e (let r = oldest_from-below i (suc i) y.last_used ys (omega arith) in omega arith)
  | inr e ↦ rw e (let r = oldest_from-below best (suc i) t ys (omega arith) in omega arith)
]

delete_at-append : (n : ℕ) (l m : Images) → n < length l → delete_at n (l ++ m) ≡ delete_at n l ++ m
unfolding delete_at
delete_at-append n [] m h = absurd (omega arith)
delete_at-append zero (x ∷ xs) m h = refl
delete_at-append (suc n) (x ∷ xs) m h = ap (λ r. x ∷ r) (delete_at-append n xs m (omega arith))

length-delete_at : (n : ℕ) (l : Images) → n < length l → suc (length (delete_at n l)) ≡ length l
unfolding delete_at
length-delete_at n [] h = absurd (omega arith)
length-delete_at zero (x ∷ xs) h = refl
length-delete_at (suc n) (x ∷ xs) h = ap suc (length-delete_at n xs (omega arith))

-- A pool with a new entry at its end, less the oldest one.
trimmed :
    (l : Images) (x : SandboxClassWarmPoolImage)
    → 0 < length l
    → Upto x.last_used l
    → (kept : Images) × (delete_at (oldest (l ++ x ∷ [])) (l ++ x ∷ []) ≡ kept ++ x ∷ [])
      × (suc (length kept) ≡ length l)
unfolding oldest
trimmed [] x h k = absurd (omega arith)
trimmed (y ∷ ys) x h k =
    let n = oldest_from 0 y.last_used 1 ys in
    let same = oldest_from-append 0 1 y.last_used ys x (ground arith) (ground arith) in
    let below : n < length (y ∷ ys) =
      let b = oldest_from-below 0 1 y.last_used ys (omega arith) in omega arith in
    (
      delete_at n (y ∷ ys),
      rw same (delete_at-append n (y ∷ ys) (x ∷ []) below),
      length-delete_at n (y ∷ ys) below,
    )

-- The entry at the end is found, whatever is before it.
last-Used : (l : Images) (x : SandboxClassWarmPoolImage) → Used x.image x.last_used (l ++ x ∷ [])
last-Used l x =
    let same : (x.image == x.image) ≡ true = (eq_iff x.image x.image).1 refl in
    let again : (x.last_used == x.last_used) ≡ true = ground arith in
    rw
      (
        any-append (λ im. im.image == x.image && im.last_used == x.last_used) l (x ∷ []),
        same,
        again,
      )
      (ground arith)

-- For a pool of at most 32 images, with no stamp after now: once an image is stamped, the pool has at
-- most 32 images, and the image is one of them, with that stamp.
pub stamp_image-Used :
    (l : Images) (x : String) (now : Time)
    → length l ≤ max_pool_images
    → Upto now l
    → (length (stamp_image l x now) ≤ max_pool_images) × Used x now (stamp_image l x now)
unfolding stamp_image
stamp_image-Used l x now h k =
    let new : SandboxClassWarmPoolImage = record {
      image = x;
      last_used = now;
      key = "";
      ready = 0;
    } in
    let added = l ++ new ∷ [] in
    let p : SandboxClassWarmPoolImage → Bool = λ im. im.image == x && im.last_used == now in
    elim (Bool-cases (has_image x l)) [
      | inl e ↦ rw e (let n = length-set_used x now l in omega arith, set_used-Used x now l e)
      | inr e ↦ elim (Bool-cases (ltb max_pool_images (length added))) [
        | inr f ↦
            rw (e, f)
              (let n = length-sort added in ground arith, any-sort p added ∙ last-Used l new)
        | inl f ↦
            let size = length-append l (new ∷ []) in
            let (kept, same, n) = trimmed l new (ground arith) k in
            let m = length-append kept (new ∷ []) in
            rw (e, f, same)
              (
                let r = length-sort (kept ++ new ∷ []) in omega arith,
                any-sort p (kept ++ new ∷ []) ∙ last-Used kept new,
              )
      ]
    ]
