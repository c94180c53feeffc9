-- ===== src/WarmPool/Reconcile/Short.antt =====
-- A pass starts a base Pod only for an image that is short of bases.
use setec.Prelude.{
  ℕ, ◌+◌, ◌<◌, min, ◌≡◌, refl, sym, ap, ◌∙◌, inl, inr, Bool, true, false, String, Option, none,
  some, List, [], ◌∷◌, ◌++◌, ◌==◌, ◌||◌, not, map, is_some, string_eq, eq_iff, Bool-cases, arith,
}
use setec.Prelude.Int.{pos_part}
use setec.Api.{SandboxClass, SandboxClassWarmPoolImage, Snapshot}
use setec.Checkpoint.{Read, found, missing, unread}
use setec.WarmPool.{pool_active}
use setec.WarmPool.Images.{Images, pool_images}
use setec.WarmPool.Images.Merged.{Holds}
use setec.WarmPool.Bases.{BasePod, Counts, Nodes, no_count, prune_bases, step_base_pods}
use setec.WarmPool.Bases.Counted.{ready_of, prune_bases-eq_some}
use setec.WarmPool.Reconcile.{
  Pool, Check, verified, rejected, running, is_verified, is_rejected, key_image, pool_run,
  start_bases, counted_status, stepped, active, by_list, by_class, reconcile_pool,
}
use setec.WarmPool.Reconcile.Starts.{
  starts, starts-append, Short, start_bases-Short, gone-starts, inactive-starts,
  counted_status-starts, step_base_pods-starts, prune_bases-starts,
}

verified_not_rejected : (v : Check) → is_verified v ≡ true → is_rejected v ≡ false
verified_not_rejected verified h = refl
verified_not_rejected rejected h = absurd (cc)
verified_not_rejected running h = refl

-- The key of a verified image is current.
key_image-current :
    (check : String → Check) (k : String) (im : SandboxClassWarmPoolImage) (images : Images)
    → Holds im images
    → im.key ≡ k
    → is_verified (check im.image) ≡ true
    → is_some (key_image check images k) ≡ true
unfolding key_image
key_image-current check k im [] h e v = absurd h
key_image-current check k im (x ∷ xs) (inl same) e v =
    let key : (x.key == k) ≡ true =
      (eq_iff x.key k).1 (ap (λ (i : SandboxClassWarmPoolImage). i.key) same ∙ e) in
    let fine : is_rejected (check x.image) ≡ false =
      rw same (verified_not_rejected (check im.image) v) in
    elim (Bool-cases (is_some (key_image check xs k))) [
      | inl s ↦ rw s s
      | inr s ↦ rw (s, key, fine) refl
    ]
key_image-current check k im (x ∷ xs) (inr h) e v =
    let rest = key_image-current check k im xs h e v in rw rest rest

module _ {Q : Type 0} (c : Pool Q) (k : String) where
  -- What a pass that starts a base Pod for the key has read.
  pub record Shortage : Type 0 where
    pub cls : SandboxClass Q
    pub bases : List Snapshot
    pub pods : List BasePod
    pub check : String → Check
    pub im : SandboxClassWarmPoolImage
    pub nodes : Nodes
    pub class_found : c.cls ≡ found cls
    pub listed : c.listed ≡ some (bases, pods)
    pub is_active : pool_active cls ≡ true
    pub in_pool : Holds im (pool_images (c.base_key_of cls) cls c.now)
    pub checked : c.checks (pool_images (c.base_key_of cls) cls c.now) ≡ some check
    pub has_key : im.key ≡ k
    pub is_verified_image : is_verified (check im.image) ≡ true
    pub short :
        let current = key_image check (pool_images (c.base_key_of cls) cls c.now) in
        ready_of k bases
          + (step_base_pods current c.based c.pod_deleted bases no_count nodes pods).1 k
        < pos_part cls.spec.pre_warm_pool_size

  stepped-Short :
      (check : String → Check) (images : Images) (bases : List Snapshot) (pods : List BasePod)
      (want : ℕ) (o : Option (Counts × Nodes))
      → starts k (stepped c check images bases pods want o).0 ≡ true
      → (n : Counts) × (nodes : Nodes) × (o ≡ some (n, nodes))
        × Short c k check n
            (step_base_pods
              (key_image check images)
              c.based
              c.pod_deleted
              bases
              no_count
              nodes
              pods).1
            want
            images
  unfolding stepped pool_run
  stepped-Short check images bases pods want none h = absurd (cc)
  stepped-Short check images bases pods want (some (n, nodes)) h =
      let run =
        step_base_pods (key_image check images) c.based c.pod_deleted bases no_count nodes pods in
      let new = start_bases c check n run.1 run.2 want images in
      let none_stepped =
        step_base_pods-starts k (key_image check images) c.based c.pod_deleted bases no_count nodes
          pods in
      let none_counted = counted_status-starts c k images want c.recounted in
      let outer = starts-append k (run.0 ++ new) (counted_status c images want c.recounted).0 in
      let inner = starts-append k run.0 new in
      (n, nodes, refl, start_bases-Short c k check n run.1 run.2 want images (ground arith))

  active-Short :
      (cls : SandboxClass Q) (bases : List Snapshot) (pods : List BasePod)
      (o : Option (String → Check))
      → c.cls ≡ found cls
      → c.listed ≡ some (bases, pods)
      → pool_active cls ≡ true
      → c.checks (pool_images (c.base_key_of cls) cls c.now) ≡ o
      → starts k (active c cls bases pods (pool_images (c.base_key_of cls) cls c.now) o).0 ≡ true
      → Shortage
  unfolding active pool_run
  active-Short cls bases pods none e l a q h = absurd (cc)
  active-Short cls bases pods (some check) e l a q h =
      let images = pool_images (c.base_key_of cls) cls c.now in
      let current : String → Bool = λ j. is_some (key_image check images j) in
      let want = pos_part cls.spec.pre_warm_pool_size in
      let names = map (λ (p : BasePod). p.pod.name) pods in
      let run = prune_bases current names c.now want c.base_deleted bases in
      let rest = stepped c check images bases pods want run.1 in
      let quiet = prune_bases-starts k current names c.now want c.base_deleted bases in
      let split = starts-append k run.0 rest.0 in
      let (n, nodes, same, (im, holds, key, sound, less)) =
        stepped-Short check images bases pods want run.1 (ground arith) in
      let is_current = key_image-current check k im images holds key sound in
      let count =
        prune_bases-eq_some current names c.now want c.base_deleted bases n nodes k same
          is_current in
      record {
        cls = cls;
        bases = bases;
        pods = pods;
        check = check;
        im = im;
        nodes = nodes;
        class_found = e;
        listed = l;
        is_active = a;
        in_pool = holds;
        checked = q;
        has_key = key;
        is_verified_image = sound;
        short = fewer want (ready_of k bases) _ (n k) count less;
      }
    where
      fewer : (w r b m : ℕ) → m ≡ min w r → m + b < w → r + b < w
      fewer w r b m e h = omega arith

  by_list-Short :
      (cls : SandboxClass Q) (o : Option (List Snapshot × List BasePod))
      → c.cls ≡ found cls
      → c.listed ≡ o
      → starts k (by_list c cls o).0 ≡ true
      → Shortage
  unfolding by_list
  by_list-Short cls none e l h = absurd (cc)
  by_list-Short cls (some (bases, pods)) e l h =
      let images = pool_images (c.base_key_of cls) cls c.now in
      let off = not (pool_active cls) || c.namespace == "" || not c.has_coordinator in
      elim (Bool-cases off) [
        | inl d ↦ absurd (
            let n = inactive-starts c k bases pods in
            let m : true ≡ false = sym (rw d at h) ∙ n in cc)
        | inr d ↦ active-Short cls bases pods (c.checks images) e l (ground arith) refl (rw d at h)
      ]

  by_class-Short :
      (r : Read (SandboxClass Q)) → c.cls ≡ r → starts k (by_class c r).0 ≡ true → Shortage
  unfolding by_class
  by_class-Short missing e h = absurd (let m : true ≡ false = sym h ∙ gone-starts c k in cc)
  by_class-Short unread e h = absurd (cc)
  by_class-Short (found cls) e h = by_list-Short cls c.listed e refl h

-- A pass over a class starts a base Pod for a key only when the class has an active pool, an image of
-- the pool has that key and a verified signature, and the Ready bases of the key that were listed,
-- together with the Pods that still build one after their step, are fewer than the wanted count.
pub reconcile_pool-Shortage :
    {Q : Type 0} (c : Pool Q) (k : String) → starts k (reconcile_pool c).0 ≡ true → Shortage c k
unfolding reconcile_pool
reconcile_pool-Shortage c k h = by_class-Short c k c.cls refl h
