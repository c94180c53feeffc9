-- ===== src/WarmPool/Reconcile.antt =====
-- Reconcile of the warm pool, with startBase, readyBases, deleteAll and patchStatus: one pass over a
-- class. The check of the signatures is one step with its answer for each image; the Pod of a base is
-- not built. A list that was read is not nil, and a pool with no image is nil. RetryOnConflict is its
-- last attempt, and the nodes of a key are a list in the order in which they were found.
pub mod Starts
pub mod Short
use setec.Prelude.{
  ℕ, ◌+◌, ◌*◌, min, ltb, Bool, true, false, String, Option, none, some, List, [], ◌∷◌, ◌++◌, ◌==◌,
  ◌&&◌, ◌||◌, not, map, is_none, is_some, string_eq, if◌then◌else◌,
}
use setec.Prelude.Int.{pos, pos_part}
use setec.Prelude.Time.{Time, Duration, second}
use setec.Api.{
  SandboxClass, SandboxClassWarmPoolImage, Snapshot, ready, SnapshotPhase-discrete,
  snapshot_phase_eq,
}
use setec.Snapshot.Reconcile.{Ended, requeue_after}
use setec.Checkpoint.{Read, found, missing, unread, Write, done, moot, refused}
use setec.WarmPool.{pool_active}
use setec.WarmPool.Images.{Images, pool_images, merge_pool_images}
use setec.WarmPool.Bases.{
  BasePod, PoolAct, drop_base, drop_pod, start, patch_pool, Counts, Nodes, base_key, prune_bases,
  step_base_pods, no_count, bump,
}

abbrev pub warm_pool_requeue : Duration
warm_pool_requeue = pos (30 * second)

-- The check of the signature of an image.
pub data Check : Type 0 where
  verified rejected running : Check

abbrev pub is_verified : Check → Bool
is_verified verified = true
is_verified _ = false

abbrev pub is_rejected : Check → Bool
is_rejected rejected = true
is_rejected _ = false

pub record Pool (Q : Type 0) : Type 0 where
  pub now : Time
  pub namespace : String
  pub has_coordinator : Bool
  pub cls : Read (SandboxClass Q)
  pub listed : Option (List Snapshot × List BasePod)
  -- The bases as they are read again at the end.
  pub recounted : Option (List Snapshot)
  pub base_key_of : SandboxClass Q → String → String
  pub checks : Images → Option (String → Check)
  pub base_deleted : Snapshot → Write
  pub pod_deleted : BasePod → Write
  pub based : BasePod → Bool
  -- Whether the disk of an image is there; `none` for an error.
  pub disk : String → Option Bool
  pub pod_built : String → Bool
  pub pod_created : String → Write
  pub fresh : Option (SandboxClass Q)
  pub same_pool : Option Images → Option Images → Bool
  pub pool_patched : Bool

abbrev pub PoolRun : Type 0
PoolRun = List PoolAct × Ended

unfoldable pub pool_run : List PoolAct → PoolRun → PoolRun
pool_run l (m, e) = (l ++ m, e)

-- The image whose key is current: the last one that was not rejected.
unfoldable pub key_image : (String → Check) → Images → String → Option String
key_image check [] k = none
key_image check (im ∷ ims) k =
    let rest = key_image check ims k in
    if is_some rest
    then rest
    else if im.key == k && not (is_rejected (check im.image))
    then some im.image
    else none

unfoldable pub nodes_of : String → Nodes → List String
nodes_of k [] = []
nodes_of k ((j, node) ∷ rest) = let more = nodes_of k rest in if j == k then node ∷ more else more

unfoldable pub ready_counts : List Snapshot → Counts
unfolding SnapshotPhase-discrete
ready_counts [] = no_count
ready_counts (b ∷ bs) =
    let rest = ready_counts bs in
    if b.status.phase == ready then bump (base_key b.annotations) rest else rest

unfoldable pub counted : Counts → ℕ → SandboxClassWarmPoolImage → SandboxClassWarmPoolImage
counted n want im = record im { ready = min (n im.key) want }

-- A pool with no image is nil.
unfoldable pub nil_if_empty : Images → Option Images
nil_if_empty [] = none
nil_if_empty (im ∷ ims) = some (im ∷ ims)

-- A deletion that is refused ends a loop of deletions.
unfoldable pub unless_refused :
    (Write → PoolAct) → Write → List PoolAct × Bool → List PoolAct × Bool
unless_refused act refused rest = (act refused ∷ [], false)
unless_refused act w (l, e) = (act w ∷ l, e)

module _ {Q : Type 0} (c : Pool Q) where
  -- deleteAll on what was listed: the bases, then the Pods.
  unfoldable pub delete_pods : List BasePod → List PoolAct × Bool
  unfolding unless_refused
  delete_pods [] = ([], true)
  delete_pods (p ∷ ps) = unless_refused (drop_pod p.pod.name) (c.pod_deleted p) (delete_pods ps)

  unfoldable pub delete_bases : List Snapshot → List PoolAct × Bool → List PoolAct × Bool
  unfolding unless_refused
  delete_bases [] rest = rest
  delete_bases (b ∷ bs) rest =
      unless_refused (drop_base b.name) (c.base_deleted b) (delete_bases bs rest)

  -- With nothing listed yet.
  unfoldable pub delete_all : Option (List Snapshot × List BasePod) → List PoolAct × Bool
  unfolding delete_bases delete_pods
  delete_all none = ([], false)
  delete_all (some (bases, pods)) = delete_bases bases (delete_pods pods)

  -- patchStatus.
  unfoldable pub patch_status : Option (SandboxClass Q) → Option Images → List PoolAct × Bool
  unfolding merge_pool_images
  patch_status none images = ([], false)
  patch_status (some fresh) images =
      let live = fresh.status.warm_pool in
      let next : Option Images = elim images [
        | none ↦ none
        | some l ↦ some (merge_pool_images live l c.now)
      ] in
      if c.same_pool live next
      then ([], true)
      else (patch_pool next c.pool_patched ∷ [], c.pool_patched)

  unfoldable pub ended_if : Bool → Ended → Ended
  ended_if b e = if b then e else Ended.failed

  -- A class that is gone, and one with no pool.
  unfoldable pub gone : PoolRun
  unfolding delete_all ended_if
  gone =
      let (l, e) = delete_all c.listed in
      if c.namespace == ""
      then ([], requeue_after (pos 0))
      else (l, ended_if e (requeue_after (pos 0)))

  unfoldable pub inactive : List Snapshot → List BasePod → PoolRun
  unfolding delete_bases delete_pods patch_status ended_if
  inactive bases pods =
      let (l, e) = delete_bases bases (delete_pods pods) in
      let (m, d) = patch_status c.fresh none in
      if e then (l ++ m, ended_if d (requeue_after (pos 0))) else (l, Ended.failed)

  -- startBase.
  unfoldable pub by_disk : Nodes → SandboxClassWarmPoolImage → Option Bool → List PoolAct
  unfolding nodes_of
  by_disk nodes im none = []
  by_disk nodes im (some there) =
      if there && c.pod_built im.image
      then start im.image im.key (nodes_of im.key nodes) (c.pod_created im.image) ∷ []
      else []

  unfoldable pub start_base : Nodes → SandboxClassWarmPoolImage → List PoolAct
  unfolding by_disk
  start_base nodes im = by_disk nodes im (c.disk im.image)

  -- One new base Pod for each image that is short of bases.
  unfoldable pub start_bases :
      (String → Check) → Counts → Counts → Nodes → ℕ → Images → List PoolAct
  unfolding start_base
  start_bases check n building nodes want [] = []
  start_bases check n building nodes want (im ∷ ims) =
      let rest = start_bases check n building nodes want ims in
      if is_verified (check im.image) && ltb (n im.key + building im.key) want
      then start_base nodes im ++ rest
      else rest

  -- The count at the end, and the status.
  unfoldable pub counted_status : Images → ℕ → Option (List Snapshot) → PoolRun
  unfolding patch_status ready_counts counted nil_if_empty ended_if
  counted_status images want none = ([], Ended.failed)
  counted_status images want (some bases) =
      let n = ready_counts bases in
      let (l, e) = patch_status c.fresh (nil_if_empty (map (counted n want) images)) in
      (l, ended_if e (requeue_after warm_pool_requeue))

  -- After the prune.
  unfoldable pub stepped :
      (String → Check)
      → Images
      → List Snapshot
      → List BasePod
      → ℕ
      → Option (Counts × Nodes)
      → PoolRun
  unfolding step_base_pods start_bases counted_status pool_run key_image
  stepped check images bases pods want none = ([], Ended.failed)
  stepped check images bases pods want (some (n, nodes)) =
      let (l, building, held) =
        step_base_pods (key_image check images) c.based c.pod_deleted bases no_count nodes pods in
      pool_run (l ++ start_bases check n building held want images)
        (counted_status images want c.recounted)

  unfoldable pub active :
      SandboxClass Q → List Snapshot → List BasePod → Images → Option (String → Check) → PoolRun
  unfolding prune_bases stepped pool_run key_image
  active cls bases pods images none = ([], Ended.failed)
  active cls bases pods images (some check) =
      let want = pos_part cls.spec.pre_warm_pool_size in
      let (l, pruned) =
        prune_bases (λ k. is_some (key_image check images k))
          (map (λ (p : BasePod). p.pod.name) pods) c.now want c.base_deleted bases in
      pool_run l (stepped check images bases pods want pruned)

  unfoldable pub by_list : SandboxClass Q → Option (List Snapshot × List BasePod) → PoolRun
  unfolding inactive active pool_active pool_images
  by_list cls none = ([], Ended.failed)
  by_list cls (some (bases, pods)) =
      let images = pool_images (c.base_key_of cls) cls c.now in
      if not (pool_active cls) || c.namespace == "" || not c.has_coordinator
      then inactive bases pods
      else active cls bases pods images (c.checks images)

  unfoldable pub by_class : Read (SandboxClass Q) → PoolRun
  unfolding gone by_list
  by_class missing = gone
  by_class unread = ([], Ended.failed)
  by_class (found cls) = by_list cls c.listed

  unfoldable pub reconcile_pool : PoolRun
  unfolding by_class
  reconcile_pool = by_class c.cls
