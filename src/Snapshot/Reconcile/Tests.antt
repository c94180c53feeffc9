-- ===== src/Snapshot/Reconcile/Tests.antt =====
-- A Snapshot that expires, and one that is finalized.
use setec.Prelude.{ℕ, ◌*◌, ◌≤◌, ◌≡◌, ◌↔◌, refl, true, some, [], ◌∷◌, arith}
use setec.Prelude.Int.{pos}
use setec.Prelude.Time.{minute, max_duration}
use setec.Api.{Snapshot}
use setec.Api.Samples.{ready_snapshot}
use setec.Snapshot.Reconcile.{
  Read, found, missing, done, response, Coordinator, Server, in_use_finalizer, reconcile,
}
use setec.Snapshot.Reconcile.Kept.{removes, deletes, Freed, reconcile-Freed}
use setec.Snapshot.Reconcile.Expired.{Expired, reconcile-Expired}

abbrev condemned : Snapshot
condemned = record ready_snapshot {
  deletion_timestamp = some (70 * minute);
  finalizers = in_use_finalizer ∷ [];
}

abbrev aged : Snapshot
aged = record ready_snapshot {
  spec = record (ready_snapshot.spec) { ttl = some (pos (20 * minute)) };
}

abbrev agent : Coordinator
agent = record {
  has_client = true;
  get_node = λ name. found tt;
  dial = λ name. some (response (some true));
}

abbrev server : Snapshot → Server ℕ
server snap = record {
  now = 80 * minute;
  snapshot = found snap;
  all_sandboxes = some [];
  all_snapshots = some (snap ∷ []);
  count_patched = true;
  phase_patched = true;
  finalizer_added = true;
  finalizer_removed = true;
  expired_deleted = done;
  coordinator = some agent;
}

condemned-removes : removes (reconcile (server condemned)).0 ≡ true
unfolding reconcile setec.Snapshot.Reconcile.builds_on setec.Snapshot.Reconcile.delete_stored
    setec.Snapshot.Reconcile.node_gone
condemned-removes = refl

reconcile-Freed_example :
    (snap : Snapshot) × ((server condemned).snapshot ≡ found snap)
    × Freed (server condemned) snap (reconcile (server condemned)).0
reconcile-Freed_example = reconcile-Freed (server condemned) condemned-removes

within : (d : ℕ) → aged.spec.ttl ≡ some (pos d) → d ≤ max_duration
within d e = let same : 20 * minute ≡ d = cc in omega (arith, same)

reconcile-Expired_example :
    (deletes (reconcile (server aged)).0 ≡ true) ↔ Expired (server aged) aged
reconcile-Expired_example = reconcile-Expired (server aged) aged refl refl refl within
