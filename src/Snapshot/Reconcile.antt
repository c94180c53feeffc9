-- ===== src/Snapshot/Reconcile.antt =====
-- internal/controller/snapshot_controller.go: Reconcile of a Snapshot with finalizeSnapshot, markPhase
-- and referenceCount; and DeleteSnapshot of internal/snapshot/coordinator.go with nodeGone. The answers
-- are a record, a field per call; a run returns what it did, in order. A List by a field index is the
-- filter of all the objects by the namespace and by the function that builds the index. The reads of
-- the clock in one reconcile give one instant.
pub mod Kept
pub mod Expired
mod Tests
use setec.Prelude.{
  ℕ, zero, suc, ◌+◌, ◌-◌, ◌*◌, ◌^◌, min, Bool, true, false, String, Option, none, some, List, [],
  ◌∷◌, ◌++◌, ◌==◌, ◌!=◌, ◌&&◌, ◌||◌, not, nat_eq, string_eq, length, is_some, is_none, value_at,
  if◌then◌else◌, leb, ltb,
}
use setec.Prelude.Int.{pos, pos_part, ltb_ℤ, leb_ℤ}
use setec.Prelude.Time.{Time, Duration, second, sub, time_left}
use setec.Api.{
  Sandbox, Snapshot, SnapshotPhase, terminating, SnapshotPhase-discrete, snapshot_phase_eq,
}

-- The answer of a Get, and of a write that may find the object gone.
pub data Read (A : Type 0) : Type 0 where
  found : A → Read A
  missing unread : Read A

pub data Write : Type 0 where
  done gone refused : Write

-- The answer of the DeleteSnapshot call: an error, or a response that may be nil, with its success.
pub data Erase : Type 0 where
  rpc_error : Erase
  response : Option Bool → Erase

pub record Coordinator : Type 0 where
  pub has_client : Bool
  pub get_node : String → Read (Unit {0})
  -- Dial, then the call; `none` when the dial fails.
  pub dial : String → Option Erase

pub record Server (Q : Type 0) : Type 0 where
  pub now : Time
  pub snapshot : Read Snapshot
  pub all_sandboxes : Option (List (Sandbox Q))
  pub all_snapshots : Option (List Snapshot)
  pub count_patched : Bool
  pub phase_patched : Bool
  pub finalizer_added : Bool
  pub finalizer_removed : Bool
  pub expired_deleted : Write
  pub coordinator : Option Coordinator

pub data Act : Type 0 where
  patch_count : ℕ → Act
  mark_terminating add_finalizer remove_finalizer delete_snapshot : Act
  -- The call of the node agent of a node that erases a storage ref.
  erase : String → String → Act

pub data Ended : Type 0 where
  requeue_after : Duration → Ended
  failed : Ended

abbrev pub in_use_finalizer : String
in_use_finalizer = "setec.zeroroot.ai/snapshot-in-use"

abbrev pub ttl_requeue : Duration
ttl_requeue = pos (60 * second)

abbrev pub error_requeue : Duration
error_requeue = pos (30 * second)

abbrev pub default_storage_backend : String
default_storage_backend = "local-disk"

-- The fields that the indexes hold: the Snapshot of a Sandbox, and the parent of a Snapshot.
ref_index : Option String → String
ref_index none = ""
ref_index (some name) = name

names : {Q : Type 0} → Snapshot → Sandbox Q → Bool
unfolding ref_index
names snap sb =
    sb.namespace == snap.namespace
    && ref_index sb.spec.snapshot_ref != ""
    && ref_index sb.spec.snapshot_ref == snap.name

-- A Sandbox that has loaded the Snapshot no longer needs it.
unfoldable pub in_use : {Q : Type 0} → Snapshot → Sandbox Q → Bool
unfolding names
in_use snap sb =
    names snap sb && value_at sb.annotations "setec.zeroroot.ai/restored-from" != snap.name

unfoldable pub builds_on : Snapshot → Snapshot → Bool
builds_on snap s =
    s.namespace == snap.namespace && s.spec.parent != "" && s.spec.parent == snap.name

pub count {ℓ} : {A : Type ℓ} → (A → Bool) → List A → ℕ
count p [] = 0
count p (x ∷ xs) = if p x then suc (count p xs) else count p xs

counted : {Q : Type 0} → Snapshot → Option (List (Sandbox Q)) → Option (List Snapshot) → Option ℕ
unfolding count
counted snap none ss = none
counted snap (some sbs) none = none
counted snap (some sbs) (some ss) = some (count (in_use snap) sbs + count (builds_on snap) ss)

unfoldable pub reference_count : {Q : Type 0} → Server Q → Snapshot → Option ℕ
unfolding counted
reference_count c snap = counted snap c.all_sandboxes c.all_snapshots

-- nodeGone: a local disk goes with its node; `none` for an error.
gone_of : Read (Unit {0}) → Option Bool
gone_of (found u) = some false
gone_of missing = some true
gone_of unread = none

unfoldable pub node_gone : Coordinator → Snapshot → Option Bool
unfolding gone_of
node_gone k snap =
    let backend =
      if snap.spec.storage_backend == ""
      then default_storage_backend
      else snap.spec.storage_backend in
    if backend != default_storage_backend || not k.has_client
    then some false
    else gone_of (k.get_node snap.spec.node)

erased : Snapshot → Option Erase → List Act × Bool
erased snap none = ([], false)
erased snap (some rpc_error) = (erase snap.spec.node snap.spec.storage_ref ∷ [], false)
erased snap (some (response none)) = (erase snap.spec.node snap.spec.storage_ref ∷ [], true)
erased snap (some (response (some ok))) = (erase snap.spec.node snap.spec.storage_ref ∷ [], ok)

unless_gone : Coordinator → Snapshot → Option Bool → List Act × Bool
unfolding erased
unless_gone k snap none = ([], false)
unless_gone k snap (some true) = ([], true)
unless_gone k snap (some false) = erased snap (k.dial snap.spec.node)

-- Coordinator.DeleteSnapshot: whether it ended with no error.
unfoldable pub delete_stored : Coordinator → Snapshot → List Act × Bool
unfolding unless_gone
delete_stored k snap =
    if snap.spec.storage_ref == ""
    then ([], true)
    else if snap.spec.node == ""
    then ([], false)
    else unless_gone k snap (node_gone k snap)

pub has_finalizer : List String → Bool
has_finalizer [] = false
has_finalizer (f ∷ fs) = if f == in_use_finalizer then true else has_finalizer fs

module _ {Q : Type 0} (c : Server Q) where
  pub stored : Option Coordinator → Snapshot → List Act × Bool
  stored none snap = ([], true)
  stored (some k) snap = delete_stored k snap

  -- The finalizer goes once nothing is stored.
  release : Snapshot → List Act × Bool → List Act × Ended
  unfolding has_finalizer
  release snap (l, false) = (l, requeue_after error_requeue)
  release snap (l, true) =
      if has_finalizer snap.finalizers
      then (
        l ++ remove_finalizer ∷ [],
        if c.finalizer_removed then requeue_after (pos 0) else failed,
      )
      else (l, requeue_after (pos 0))

  -- finalizeSnapshot.
  unfoldable pub finalize_snapshot : Snapshot → ℕ → List Act × Ended
  unfolding stored release SnapshotPhase-discrete
  finalize_snapshot snap refs =
      let marks = if snap.status.phase == terminating then [] else mark_terminating ∷ [] in
      let (l, e) = release snap (stored c.coordinator snap) in
      if not (snap.status.phase == terminating) && not c.phase_patched
      then (marks, failed)
      else if ltb 0 refs
      then (marks, requeue_after error_requeue)
      else (marks ++ l, e)

  -- The TTL of a Snapshot that nothing refers to and that is not pinned.
  by_ttl : Snapshot → ℕ → Option Duration → List Act × Ended
  by_ttl snap refs none = ([], requeue_after ttl_requeue)
  by_ttl snap refs (some ttl) =
      let age = sub c.now snap.creation_timestamp in
      if ltb_ℤ (pos 0) ttl && refs == 0 && not snap.spec.pinned
      then if leb_ℤ ttl age
        then (
          delete_snapshot ∷ [],
          elim c.expired_deleted [ refused ↦ failed | _ ↦ requeue_after (pos 0) ],
        )
        else ([], requeue_after (time_left (pos_part ttl) age))
      else ([], requeue_after ttl_requeue)

  -- After the count is written: deletion, or the finalizer and the TTL.
  settled : Snapshot → ℕ → List Act × Ended
  unfolding finalize_snapshot by_ttl has_finalizer
  settled snap refs =
      let adds = if has_finalizer snap.finalizers then [] else add_finalizer ∷ [] in
      let (l, e) = by_ttl snap refs snap.spec.ttl in
      if is_some snap.deletion_timestamp
      then finalize_snapshot snap refs
      else if not (has_finalizer snap.finalizers) && not c.finalizer_added
      then (adds, failed)
      else (adds ++ l, e)

  with_count : Snapshot → Option ℕ → List Act × Ended
  unfolding settled
  with_count snap none = ([], failed)
  with_count snap (some n) =
      let refs = min n (2 ^ 31 - 1) in
      let st = record (snap.status) { reference_count = refs; last_transition_time = some c.now } in
      let (l, e) = settled (record snap { status = st }) n in
      if snap.status.reference_count == refs
      then settled snap n
      else if c.count_patched
      then (patch_count refs ∷ l, e)
      else (patch_count refs ∷ [], failed)

  reconcile_found : Read Snapshot → List Act × Ended
  unfolding with_count reference_count
  reconcile_found missing = ([], requeue_after (pos 0))
  reconcile_found unread = ([], failed)
  reconcile_found (found snap) = with_count snap (reference_count c snap)

  unfoldable pub reconcile : List Act × Ended
  unfolding reconcile_found
  reconcile = reconcile_found c.snapshot
