-- ===== src/WarmPool/Images.antt =====
-- poolImages, mergePoolImages and stampImage: the images of the pool of a class. slices.SortFunc is the
-- insertion sort by the text of the images, which are distinct.
pub mod Stamped
pub mod Merged
use Prim.Native.String.{compare}
use Prim.Native.Nat.{Ordering}
use setec.Prelude.{
  ℕ, suc, ◌+◌, leb, ltb, Bool, true, false, String, Option, none, some, List, [], ◌∷◌, ◌++◌, ◌==◌,
  ◌&&◌, ◌||◌, not, string_eq, length, if◌then◌else◌,
}
use setec.Prelude.Int.{pos, ltb_ℤ, leb_ℤ}
use setec.Prelude.Time.{Time, sub, before, after}
use setec.Api.{SandboxClass, SandboxClassWarmPoolImage}
use setec.WarmPool.{contains_text, warm_pool_idle, max_pool_images}

abbrev pub Images : Type 0
Images = List SandboxClassWarmPoolImage

abbrev pub is_lt : Ordering → Bool
is_lt Ordering.lt = true
is_lt _ = false

insert : SandboxClassWarmPoolImage → Images → Images
insert x [] = x ∷ []
insert x (y ∷ ys) =
    let rest = insert x ys in if is_lt (compare x.image y.image) then x ∷ y ∷ ys else y ∷ rest

unfoldable pub sort : Images → Images
unfolding insert
sort [] = []
sort (x ∷ xs) = insert x (sort xs)

unfoldable pub has_image : String → Images → Bool
has_image x [] = false
has_image x (y ∷ ys) = y.image == x || has_image x ys

live_images : Option Images → Images
live_images none = []
live_images (some images) = images

-- The closure `add` of poolImages.
add_image : (String → String) → Time → Images → String → Time → Images
unfolding has_image
add_image key now out image last_used =
    if has_image image out || ltb_ℤ warm_pool_idle (sub now last_used)
    then out
    else out ++ record { image = image; last_used = last_used; key = key image; ready = 0 } ∷ []

add_images : (String → String) → Time → Images → Images → Images
unfolding add_image
add_images key now out [] = out
add_images key now out (x ∷ xs) = add_images key now (add_image key now out x.image x.last_used) xs

unfoldable pub pool_images : {Q : Type 0} → (String → String) → SandboxClass Q → Time → Images
unfolding add_images live_images contains_text
pool_images key cls now =
    let out = add_images key now [] (live_images cls.status.warm_pool) in
    if contains_text cls.spec.pre_warm_image "@sha256:"
    then add_image key now out cls.spec.pre_warm_image cls.creation_timestamp
    else out

-- The later stamp for the first entry of an image.
set_later : String → Time → Images → Images
set_later x t [] = []
set_later x t (y ∷ ys) =
    let rest = set_later x t ys in
    if y.image == x
    then (if after t y.last_used then record y { last_used = t } else y) ∷ ys
    else y ∷ rest

-- One live image.
unfoldable pub merged : Time → Images → SandboxClassWarmPoolImage → Images
unfolding has_image set_later
merged now out l =
    if has_image l.image out
    then set_later l.image l.last_used out
    else if leb_ℤ (sub now l.last_used) warm_pool_idle
    then out ++ l ∷ []
    else out

merge_all : Time → Images → Images → Images
unfolding merged
merge_all now out [] = out
merge_all now out (l ∷ ls) = merge_all now (merged now out l) ls

unfoldable pub merge_pool_images : Option Images → Images → Time → Images
unfolding merge_all sort insert live_images
merge_pool_images live computed now = sort (merge_all now computed (live_images live))

-- The stamp of the first entry of an image.
set_used : String → Time → Images → Images
set_used x t [] = []
set_used x t (y ∷ ys) =
    let rest = set_used x t ys in if y.image == x then record y { last_used = t } ∷ ys else y ∷ rest

-- The index of the oldest stamp: `best` is the index found before the entry at `i`, `t` its stamp.
oldest_from : ℕ → Time → ℕ → Images → ℕ
oldest_from best t i [] = best
oldest_from best t i (x ∷ xs) =
    if before x.last_used t
    then oldest_from i x.last_used (suc i) xs
    else oldest_from best t (suc i) xs

oldest : Images → ℕ
unfolding oldest_from
oldest [] = 0
oldest (x ∷ xs) = oldest_from 0 x.last_used 1 xs

delete_at : ℕ → Images → Images
delete_at n [] = []
delete_at ℕ.zero (x ∷ xs) = xs
delete_at (suc n) (x ∷ xs) = x ∷ delete_at n xs

unfoldable pub stamp_image : Images → String → Time → Images
unfolding has_image set_used sort insert oldest oldest_from delete_at
stamp_image images image now =
    let added = images ++ record { image = image; last_used = now; key = ""; ready = 0 } ∷ [] in
    if has_image image images
    then set_used image now images
    else sort (if ltb max_pool_images (length added) then delete_at (oldest added) added else added)
