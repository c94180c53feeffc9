-- ===== src/WarmPool/Bases.antt =====
-- pruneBases, stepBasePods and stepBasePod: the bases of a class and the Pods that make them. A map from
-- keys to counts is a function, and the sets of nodes are pairs of a key and a node, in the order of
-- their writes. In a pass an error of a base ends the prune, and an error of a Pod is logged.
pub mod Counted
pub mod Goners
pub mod Pruned
use setec.Prelude.{
  ℕ, suc, ◌+◌, Bool, true, false, String, Option, none, some, List, [], ◌∷◌, ◌++◌, ◌==◌, ◌&&◌, ◌||◌,
  not, any, leb, string_eq, value_at, StringMap, if◌then◌else◌,
}
use setec.Prelude.Int.{pos, ltb_ℤ}
use setec.Prelude.Time.{Time, sub}
use setec.Api.{Snapshot, ready, failed, SnapshotPhase-discrete, snapshot_phase_eq}
use setec.Status.{Pod, PodCondition, ended}
use setec.Checkpoint.{Write, done, moot, refused}
use setec.WarmPool.Images.{Images}
use setec.WarmPool.{base_key_annotation, base_write_timeout}

abbrev pub Counts : Type 0
Counts = String → ℕ

abbrev pub no_count : Counts
no_count k = 0

unfoldable pub bump : String → Counts → Counts
bump k n j = if j == k then suc (n j) else n j

abbrev pub Nodes : Type 0
Nodes = List (String × String)

-- addNode.
unfoldable pub add_node : String → String → Nodes → Nodes
add_node key node nodes = if node == "" then nodes else nodes ++ (key, node) ∷ []

-- What becomes of a base.
pub data Verdict : Type 0 where
  drops counts waits : Verdict

-- The Pod of a base, with its annotations and its node.
pub record BasePod : Type 0 where
  pub pod : Pod
  pub annotations : StringMap
  pub node_name : String
  pub terminating : Bool

pub data PoolAct : Type 0 where
  drop_base drop_pod : String → Write → PoolAct
  -- CreateBase of a Pod: its name, the image, the key, and whether it succeeded.
  create_base : String → String → String → Bool → PoolAct
  -- A base Pod: its image, its key, and the nodes that it stays away from.
  start : String → String → List String → Write → PoolAct
  patch_pool : Option Images → Bool → PoolAct

abbrev pub base_key : StringMap → String
base_key annotations = value_at annotations base_key_annotation

-- The switch of pruneBases; `want` is positive in an active pool.
unfoldable pub verdict : (String → Bool) → List String → Time → ℕ → Counts → Snapshot → Verdict
unfolding SnapshotPhase-discrete
verdict current pods now want n b =
    let k = base_key b.annotations in
    if not (current k) || b.status.phase == failed || (b.status.phase == ready && leb want (n k))
    then drops
    else if b.status.phase == ready
    then counts
    else if not (any (λ p. p == b.name) pods)
        && ltb_ℤ base_write_timeout (sub now b.creation_timestamp)
    then drops
    else waits

unfoldable pub next_count : Verdict → String → Counts → Counts
unfolding bump
next_count counts k n = bump k n
next_count _ k n = n

unfoldable pub next_nodes : Verdict → Snapshot → Nodes → Nodes
unfolding add_node
next_nodes drops b nodes = nodes
next_nodes _ b nodes = add_node (base_key b.annotations) b.spec.node nodes

-- The deletion of a base, and the rest of the prune; `none` for an error.
unfoldable pub dropped :
    {A : Type 0} → Verdict → String → Write → List PoolAct × Option A → List PoolAct × Option A
dropped drops name refused rest = (drop_base name refused ∷ [], none)
dropped drops name w (l, o) = (drop_base name w ∷ l, o)
dropped _ name w rest = rest

unfoldable pub prune :
    (String → Bool)
    → List String
    → Time
    → ℕ
    → (Snapshot → Write)
    → Counts
    → Nodes
    → List Snapshot
    → List PoolAct × Option (Counts × Nodes)
unfolding verdict next_count next_nodes dropped
prune current pods now want deleted n nodes [] = ([], some (n, nodes))
prune current pods now want deleted n nodes (b ∷ bs) =
    let v = verdict current pods now want n b in
    let rest =
      prune current pods now want deleted (next_count v (base_key b.annotations) n)
        (next_nodes v b nodes) bs in
    dropped v b.name (deleted b) rest

unfoldable pub prune_bases :
    (String → Bool)
    → List String
    → Time
    → ℕ
    → (Snapshot → Write)
    → List Snapshot
    → List PoolAct × Option (Counts × Nodes)
unfolding prune
prune_bases current pods now want deleted bases =
    prune current pods now want deleted no_count [] bases

-- isPodReady: the first Ready condition.
unfoldable pub is_pod_ready : List PodCondition → Bool
is_pod_ready [] = false
is_pod_ready (c ∷ cs) = let rest = is_pod_ready cs in if c.of_ready then c.is_true else rest

accepted : Write → Bool
accepted refused = false
accepted w = true

-- A base Pod, with the image of its key when that is current.
unfoldable pub step_by :
    Option String → String → Bool → Write → List Snapshot → BasePod → List PoolAct × Bool × Bool
unfolding is_pod_ready accepted ended
step_by none key based w bases p = (drop_pod p.pod.name w ∷ [], true, accepted w)
step_by (some image) key based w bases p =
    if ended p.pod.phase || p.terminating
    then (drop_pod p.pod.name w ∷ [], true, accepted w)
    else if not (is_pod_ready p.pod.conditions)
    then ([], false, true)
    else if any (λ (b : Snapshot). b.name == p.pod.name) bases
    then (drop_pod p.pod.name w ∷ [], true, accepted w)
    else (
      create_base p.pod.name image key based ∷ drop_pod p.pod.name w ∷ [],
      true,
      based && accepted w,
    )

-- stepBasePod: what it did, whether the Pod is done, and whether it ended with no error.
unfoldable pub step_base_pod :
    (String → Option String)
    → (BasePod → Bool)
    → (BasePod → Write)
    → List Snapshot
    → BasePod
    → List PoolAct × Bool × Bool
unfolding step_by
step_base_pod image_of based deleted bases p =
    let key = base_key p.annotations in step_by (image_of key) key (based p) (deleted p) bases p

-- stepBasePods: the Pods that still build a base, and the nodes that hold one now or soon.
unfoldable pub step_base_pods :
    (String → Option String)
    → (BasePod → Bool)
    → (BasePod → Write)
    → List Snapshot
    → Counts
    → Nodes
    → List BasePod
    → List PoolAct × Counts × Nodes
unfolding step_base_pod add_node bump
step_base_pods image_of based deleted bases n nodes [] = ([], n, nodes)
step_base_pods image_of based deleted bases n nodes (p ∷ ps) =
    let key = base_key p.annotations in
    let (l, is_done, is_ok) = step_base_pod image_of based deleted bases p in
    let (m, building, held) =
      step_base_pods image_of based deleted bases (if is_done then n else bump key n)
        (add_node key p.node_name nodes) ps in
    (l ++ m, building, held)
