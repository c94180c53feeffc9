-- ===== src/WarmPool/Tests.antt =====
-- A pool of one class, with one image and no base yet.
use setec.Prelude.{
  map, ℕ, ◌*◌, ◌≤◌, min, ◌≡◌, ◌≢◌, refl, inl, true, false, String, some, [], ◌∷◌, length,
  if◌then◌else◌, arith, ◌==◌, string_eq,
}
use setec.Prelude.Int.{pos}
use setec.Prelude.Time.{minute}
use setec.Api.{SandboxClass, SandboxClassWarmPoolImage, Snapshot}
use setec.Api.Samples.{standard_class, session_sandbox, ready_snapshot}
use setec.Checkpoint.{found, Write, done, refused}
use setec.WarmPool.{max_pool_images, base_key_annotation}
use setec.WarmPool.Images.{stamp_image, merge_pool_images}
use setec.WarmPool.Images.Stamped.{Used, stamp_image-Used}
use setec.WarmPool.Images.Merged.{Covers, merge_pool_images-Covers}
use setec.WarmPool.Bases.{Counts, Nodes, prune_bases}
use setec.WarmPool.Bases.Counted.{ready_of}
use setec.WarmPool.Bases.Goners.{drop_of, goners}
use setec.WarmPool.Bases.Pruned.{prune_bases-count}
use setec.WarmPool.Reconcile.{Pool, verified, reconcile_pool}
use setec.WarmPool.Reconcile.Starts.{starts}
use setec.WarmPool.Reconcile.Short.{Shortage, reconcile_pool-Shortage}

abbrev node_image : SandboxClassWarmPoolImage
node_image = record { image = "node@sha256:1"; last_used = 100 * minute; key = ""; ready = 0 }

abbrev python_image : SandboxClassWarmPoolImage
python_image = record node_image { image = "python@sha256:2"; last_used = 110 * minute }

stamp_image-Used_example :
    let next = stamp_image (node_image ∷ python_image ∷ []) "ruby@sha256:3" (120 * minute) in
    (length next ≤ max_pool_images) × Used "ruby@sha256:3" (120 * minute) next
stamp_image-Used_example =
    stamp_image-Used (node_image ∷ python_image ∷ []) "ruby@sha256:3" (120 * minute) (omega arith)
      refl

merge_pool_images-Covers_example :
    Covers "node@sha256:1"
      (100 * minute)
      (merge_pool_images (some (node_image ∷ [])) (python_image ∷ []) (120 * minute))
merge_pool_images-Covers_example =
    merge_pool_images-Covers (node_image ∷ []) (python_image ∷ []) (120 * minute) node_image
      (inl (inl refl, refl))

abbrev base : Snapshot
base = record ready_snapshot { annotations = (base_key_annotation, "key-1") ∷ [] }

abbrev all_done : Snapshot → Write
all_done b = done

not_refused : (b : Snapshot) → all_done b ≢ refused
not_refused b e = cc

prune_bases-count_example :
    (m : Counts) × (nodes : Nodes) × ((prune_bases
        (λ k. k == "key-1")
        []
        (120 * minute)
        1
        all_done
        (base ∷ base ∷ [])).1
      ≡ some (m, nodes))
    × ((k : String) → m k ≡ (if k == "key-1" then min 1 (ready_of k (base ∷ base ∷ [])) else 0))
    × ((prune_bases (λ k. k == "key-1") [] (120 * minute) 1 all_done (base ∷ base ∷ [])).0
        ≡ map
            (drop_of (λ k. k == "key-1") [] (120 * minute) 1 all_done)
            (goners (λ k. k == "key-1") [] (120 * minute) 1 all_done [] (base ∷ base ∷ [])))
prune_bases-count_example =
    prune_bases-count (λ k. k == "key-1") [] (120 * minute) 1 all_done (base ∷ base ∷ [])
      not_refused

abbrev pool_class : SandboxClass ℕ
pool_class = record standard_class {
  spec = record (standard_class.spec) {
    default_resources = some session_sandbox.spec.resources;
    runtime = some (record { backend = "launcher" });
    pre_warm_pool_size = pos 2;
  };
  status = record { warm_pool = some (node_image ∷ []) };
}

abbrev pool : Pool ℕ
pool = record {
  now = 120 * minute;
  namespace = "pool";
  has_coordinator = true;
  cls = found pool_class;
  listed = some ([], []);
  recounted = some [];
  base_key_of = λ cls image. image;
  checks = λ images. some (λ image. verified);
  base_deleted = λ b. done;
  pod_deleted = λ p. done;
  based = λ p. true;
  disk = λ image. some true;
  pod_built = λ image. true;
  pod_created = λ image. done;
  fresh = some pool_class;
  same_pool = λ a b. false;
  pool_patched = true;
}

started : starts "node@sha256:1" (reconcile_pool pool).0 ≡ true
unfolding reconcile_pool
started = refl

reconcile_pool-Shortage_example : Shortage pool "node@sha256:1"
reconcile_pool-Shortage_example = reconcile_pool-Shortage pool "node@sha256:1" started
