-- ===== src/WarmPool/Reconcile/Starts.antt =====
-- The base Pods that a pass starts.
use mathlib.Core.Path.{subst}
use setec.Prelude.{
  ℕ, ◌+◌, ◌<◌, ltb, ◌≡◌, refl, inl, inr, Bool, true, false, String, Option, none, some, List, [],
  ◌∷◌, ◌++◌, ◌==◌, ◌&&◌, ◌||◌, any, any-append, any-none, string_eq, eq_iff, Bool-cases,
  if◌then◌else◌, arith,
}
use setec.Prelude.Time.{Time}
use setec.Api.{SandboxClass, SandboxClassWarmPoolImage, Snapshot}
use setec.Status.{ended}
use setec.Checkpoint.{Write, done, moot, refused}
use setec.WarmPool.Images.{Images, merge_pool_images}
use setec.WarmPool.Images.Merged.{Holds}
use setec.WarmPool.Bases.{
  BasePod, PoolAct, start, drop_base, drop_pod, Counts, Nodes, Verdict, drops, counts, waits,
  no_count, bump, add_node, base_key, verdict, next_count, next_nodes, dropped, prune, prune_bases,
  is_pod_ready, step_by, step_base_pod, step_base_pods,
}
use setec.WarmPool.Reconcile.{
  Pool, Check, is_verified, delete_pods, delete_bases, delete_all, patch_status, gone, inactive,
  start_base, start_bases, counted_status, by_disk, unless_refused,
}

abbrev is_start : String → PoolAct → Bool
is_start k (start image key nodes w) = key == k
is_start k a = false

-- Whether a base Pod with a key is started.
abbrev pub starts : String → List PoolAct → Bool
starts k l = any (is_start k) l

pub starts-append :
    (k : String) (l m : List PoolAct) → starts k (l ++ m) ≡ (starts k l || starts k m)
starts-append k = any-append (is_start k)

starts-none :
    (k : String) (l m : List PoolAct)
    → starts k l ≡ false
    → starts k m ≡ false
    → starts k (l ++ m) ≡ false
starts-none k = any-none (is_start k)

dropped-starts :
    {A : Type 0} (k : String) (v : Verdict) (name : String) (w : Write)
    (r : List PoolAct × Option A)
    → starts k r.0 ≡ false
    → starts k (dropped v name w r).0 ≡ false
unfolding dropped
dropped-starts k drops name refused r h = refl
dropped-starts k drops name done r h = h
dropped-starts k drops name moot r h = h
dropped-starts k counts name w r h = h
dropped-starts k waits name w r h = h

prune-starts :
    (k : String) (current : String → Bool) (pods : List String) (now : Time) (want : ℕ)
    (deleted : Snapshot → Write) (n : Counts) (nodes : Nodes) (bs : List Snapshot)
    → starts k (prune current pods now want deleted n nodes bs).0 ≡ false
unfolding prune
prune-starts k current pods now want deleted n nodes [] = refl
prune-starts k current pods now want deleted n nodes (b ∷ bs) =
    let v = verdict current pods now want n b in
    dropped-starts k v b.name (deleted b) _ (
      prune-starts k current pods now want deleted (next_count v (base_key b.annotations) n)
        (next_nodes v b nodes) bs)

step_by-starts :
    (k : String) (o : Option String) (key : String) (based : Bool) (w : Write) (p : BasePod)
    (bases : List Snapshot)
    → starts k (step_by o key based w bases p).0 ≡ false
unfolding step_by
step_by-starts k none key based w p bases = refl
step_by-starts k (some image) key based w p bases =
    elim (Bool-cases (ended p.pod.phase || p.terminating)) [
      | inl t ↦ rw t refl
      | inr t ↦ elim (Bool-cases (is_pod_ready p.pod.conditions)) [
        | inr r ↦ rw (t, r) refl
        | inl r ↦ elim (Bool-cases (any (λ (b : Snapshot). b.name == p.pod.name) bases)) [
          | inl d ↦ rw (t, r, d) refl
          | inr d ↦ rw (t, r, d) refl
        ]
      ]
    ]

module _ (k : String) (image_of : String → Option String) (based : BasePod → Bool)
    (deleted : BasePod → Write) (bases : List Snapshot) where
  pub step_base_pods-starts :
      (n : Counts) (nodes : Nodes) (ps : List BasePod)
      → starts k (step_base_pods image_of based deleted bases n nodes ps).0 ≡ false
  unfolding step_base_pods step_base_pod
  step_base_pods-starts n nodes [] = refl
  step_base_pods-starts n nodes (p ∷ ps) =
      let key = base_key p.annotations in
      starts-none k (step_base_pod image_of based deleted bases p).0 _
        (step_by-starts k (image_of key) key (based p) (deleted p) p bases)
        (step_base_pods-starts
          (if (step_base_pod image_of based deleted bases p).1 then n else bump key n)
          (add_node key p.node_name nodes) ps)

module _ {Q : Type 0} (c : Pool Q) (k : String) where
  unless_refused-starts :
      (act : Write → PoolAct) (w : Write) (r : List PoolAct × Bool)
      → ((v : Write) → is_start k (act v) ≡ false)
      → starts k r.0 ≡ false
      → starts k (unless_refused act w r).0 ≡ false
  unfolding unless_refused
  unless_refused-starts act refused r a h = rw (a refused) refl
  unless_refused-starts act done r a h = rw (a done, h) refl
  unless_refused-starts act moot r a h = rw (a moot, h) refl

  delete_pods-starts : (ps : List BasePod) → starts k (delete_pods c ps).0 ≡ false
  unfolding delete_pods
  delete_pods-starts [] = refl
  delete_pods-starts (p ∷ ps) =
      unless_refused-starts (drop_pod p.pod.name) (c.pod_deleted p) (delete_pods c ps) (λ v. refl)
        (delete_pods-starts ps)

  delete_bases-starts :
      (bs : List Snapshot) (r : List PoolAct × Bool)
      → starts k r.0 ≡ false
      → starts k (delete_bases c bs r).0 ≡ false
  unfolding delete_bases
  delete_bases-starts [] r h = h
  delete_bases-starts (b ∷ bs) r h =
      unless_refused-starts (drop_base b.name) (c.base_deleted b) (delete_bases c bs r) (λ v. refl)
        (delete_bases-starts bs r h)

  by_disk-starts :
      (nodes : Nodes) (im : SandboxClassWarmPoolImage) (o : Option Bool)
      → starts k (by_disk c nodes im o) ≡ true
      → im.key ≡ k
  unfolding by_disk
  by_disk-starts nodes im none h = absurd (cc)
  by_disk-starts nodes im (some there) h = elim (Bool-cases (there && c.pod_built im.image)) [
    | inr b ↦ absurd (let n = rw b at h in cc)
    | inl b ↦ (eq_iff im.key k).0 (let n = rw b at h in ground arith)
  ]

  start_base-starts :
      (nodes : Nodes) (im : SandboxClassWarmPoolImage)
      → starts k (start_base c nodes im) ≡ true
      → im.key ≡ k
  unfolding start_base
  start_base-starts nodes im h = by_disk-starts nodes im (c.disk im.image) h

  -- An image that is short of bases.
  abbrev pub Short : (String → Check) → Counts → Counts → ℕ → Images → Type 0
  Short check n building want images =
      (im : SandboxClassWarmPoolImage) × Holds im images
      × (im.key ≡ k)
      × (is_verified (check im.image) ≡ true)
      × (n k + building k < want)

  pub start_bases-Short :
      (check : String → Check) (n building : Counts) (nodes : Nodes) (want : ℕ) (images : Images)
      → starts k (start_bases c check n building nodes want images) ≡ true
      → Short check n building want images
  unfolding start_bases
  start_bases-Short check n building nodes want [] h = absurd (cc)
  start_bases-Short check n building nodes want (im ∷ ims) h =
      let rest = start_bases c check n building nodes want ims in
      let short = is_verified (check im.image) && ltb (n im.key + building im.key) want in
      elim (Bool-cases short) [
        | inr e ↦ further (start_bases-Short check n building nodes want ims (rw e at h))
        | inl e ↦ elim (Bool-cases (starts k rest)) [
          | inl r ↦ further (start_bases-Short check n building nodes want ims r)
          | inr r ↦
              let split = starts-append k (start_base c nodes im) rest in
              let all : starts k (start_base c nodes im ++ rest) ≡ true = rw e at h in
              let own : starts k (start_base c nodes im) ≡ true = ground arith in
              let same = start_base-starts nodes im own in
              (
                im,
                inl refl,
                same,
                ground arith,
                subst (λ j. n j + building j < want) same (ground arith),
              )
        ]
      ]
    where
      further : Short check n building want ims → Short check n building want (im ∷ ims)
      further (x, holds, same, ok_, less) = (x, inr holds, same, ok_, less)

  patch_status-starts :
      (o : Option (SandboxClass Q)) (images : Option Images)
      → starts k (patch_status c o images).0 ≡ false
  unfolding patch_status
  patch_status-starts none images = refl
  patch_status-starts (some fresh) images =
      let next : Option Images = elim images [
        | none ↦ none
        | some l ↦ some (merge_pool_images fresh.status.warm_pool l c.now)
      ] in
      elim (Bool-cases (c.same_pool fresh.status.warm_pool next)) [
        | inl e ↦ rw e refl
        | inr e ↦ rw e refl
      ]

  pub gone-starts : starts k (gone c).0 ≡ false
  unfolding gone delete_all
  gone-starts = elim (Bool-cases (c.namespace == "")) [
    | inl e ↦ rw e refl
    | inr e ↦ rw e (by_listed c.listed)
  ]
    where
      by_listed : (o : Option (List Snapshot × List BasePod)) → starts k (delete_all c o).0 ≡ false
      by_listed none = refl
      by_listed (some (bases, pods)) =
          delete_bases-starts bases (delete_pods c pods) (delete_pods-starts pods)

  pub inactive-starts :
      (bases : List Snapshot) (pods : List BasePod) → starts k (inactive c bases pods).0 ≡ false
  unfolding inactive
  inactive-starts bases pods =
      let run = delete_bases c bases (delete_pods c pods) in
      let n = delete_bases-starts bases (delete_pods c pods) (delete_pods-starts pods) in
      elim (Bool-cases run.1) [
        | inl e ↦ rw e (starts-none k run.0 _ n (patch_status-starts c.fresh none))
        | inr e ↦ rw e n
      ]

  pub counted_status-starts :
      (images : Images) (want : ℕ) (o : Option (List Snapshot))
      → starts k (counted_status c images want o).0 ≡ false
  unfolding counted_status
  counted_status-starts images want none = refl
  counted_status-starts images want (some bases) = patch_status-starts c.fresh _

pub prune_bases-starts :
    (k : String) (current : String → Bool) (pods : List String) (now : Time) (want : ℕ)
    (deleted : Snapshot → Write) (bs : List Snapshot)
    → starts k (prune_bases current pods now want deleted bs).0 ≡ false
unfolding prune_bases
prune_bases-starts k current pods now want deleted bs =
    prune-starts k current pods now want deleted no_count [] bs
