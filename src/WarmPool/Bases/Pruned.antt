-- ===== src/WarmPool/Bases/Pruned.antt =====
-- What a prune deletes, and the bases that it keeps, counted.
use setec.Prelude.{
  ℕ, ◌+◌, ◌≡◌, ◌≢◌, ◌∙◌, Bool, String, some, List, [], min, string_eq, if◌then◌else◌, arith, map,
}
use setec.Prelude.Time.{Time}
use setec.Api.{Snapshot, snapshot_phase_eq}
use setec.Checkpoint.{Write, refused}
use setec.WarmPool.Bases.{Counts, no_count, Nodes, prune_bases}
use setec.WarmPool.Bases.Counted.{ready_of, prune-Ends}
use setec.WarmPool.Bases.Goners.{goners, drop_of, prune-goners}

-- When no deletion is refused: a prune deletes, in their order, exactly the bases whose key is not
-- current, those that failed, the Ready ones after the wanted count of their key, and those that are
-- still written after the limit though their Pod is gone; and it ends with the count of the Ready bases
-- that stay: for each key that is current, the Ready bases that were there or the wanted count, whichever
-- is less, and none for any other key.
pub prune_bases-count :
    (current : String → Bool) (pods : List String) (now : Time) (want : ℕ)
    (deleted : Snapshot → Write) (bases : List Snapshot)
    → ((b : Snapshot) → deleted b ≢ refused)
    → (m : Counts) × (nodes : Nodes) × ((prune_bases current pods now want deleted bases).1
        ≡ some (m, nodes))
      × ((k : String) → m k ≡ (if current k then min want (ready_of k bases) else 0))
      × ((prune_bases current pods now want deleted bases).0
          ≡ map
              (drop_of current pods now want deleted)
              (goners current pods now want deleted [] bases))
unfolding prune_bases
prune_bases-count current pods now want deleted bases a =
    let (m, nodes, e, same) =
      prune-Ends current pods now want deleted no_count [] bases a (λ k. omega arith) in
    (
      m,
      nodes,
      e,
      λ k. same k ∙ plain (current k) (ready_of k bases),
      prune-goners current pods now want deleted [] no_count [] bases a
          (λ k. (omega arith, λ c. omega arith)),
    )
  where
    plain : (c : Bool) (r : ℕ) → (if c then min want (0 + r) else 0) ≡ (if c then min want r else 0)
    plain c r = ground arith
