-- ===== src/Snapshot/Create/Lawful.antt =====
-- The runs of CreateSnapshot against the protocol that its comments describe.
use setec.Prelude.{
  ℕ, ◌≡◌, refl, ap, inl, inr, Bool, true, false, String, Option, none, some, List, [], ◌∷◌, ◌==◌,
  string_eq, nat_eq, leb, Bool-cases, ◌&&◌, arith, eq_iff, if◌then◌else◌,
}
use setec.Api.{
  Sandbox, SandboxIdentityStatus, SandboxSnapshotSpec, Snapshot, creating, ready, failed,
}
use setec.Snapshot.Restore.{Pod}
use setec.Snapshot.Reconcile.{Read, found, missing, unread, Write, done, gone, refused}
use setec.Desired.{Created, taken, unavailable, not_taken}
use setec.Snapshot.Create.{
  Fault, unreachable, no_space, other, CreateRequest, Reply, faulty, stored, Answers, Deed,
  create_object, mark, call_agent, record_generation, record_storage, delete_object, before,
  fail_snapshot, abandoned, abandon_snapshot, dial_failed, fail_create, raised,
  record_identity_generation, recorded, when_raised, on_reply, on_dial, made, when_kept, apply_kept,
  with_parent, diff_parent, new_snapshot_cr, create_request, from_pod, when_free, named,
  create_snapshot,
}

-- Where the Snapshot of an attempt stands. `written` has the identity generation of the request, and
-- the storage reference and the size that the node agent answered. `broken` is an attempt that must still be recorded as
-- failed, and `over` one that was.
pub data Stage : Type 0 where
  absent unmarked in_flight located shown broken over removed : Stage
  written : ℕ → String → ℕ → Stage

-- What is recorded must be what was answered.
abbrev pub same_storage : String → ℕ → String → ℕ → Bool
same_storage ref size r n = r == ref && n == size

-- The protocol: what may be done next, and where it leads.
abbrev pub next : Stage → Deed → Option Stage
next absent (create_object snap true) = some unmarked
next absent (create_object snap false) = some absent
next unmarked (mark creating reason true) = some in_flight
next unmarked (mark creating reason false) = some unmarked
next in_flight (call_agent req (stored ref size)) = some (written req.identity_generation ref size)
next in_flight (call_agent req (faulty unreachable)) = some in_flight
next in_flight (call_agent req (faulty fault)) = some broken
next in_flight (delete_object refused) = some broken
next in_flight (delete_object w) = some removed
next in_flight (mark failed reason ok) = some over
next (written g ref size) (record_generation h ok) =
    if h == g then some (if ok then written g ref size else broken) else none
next (written g ref size) (record_storage r n ok) =
    if same_storage ref size r n then some (if ok then located else broken) else none
next (written g ref size) (mark failed reason ok) = some over
next located (mark ready reason ok) = some shown
next broken (mark failed reason ok) = some over
next _ _ = none

abbrev pub follow : Stage → List Deed → Option Stage
follow s [] = some s
follow s (d ∷ l) = elim (next s d) [ none ↦ none | some t ↦ follow t l ]

-- The answer that a stage allows: success once the Snapshot is shown Ready, and an error that lets the
-- caller try again only when the attempt is removed or recorded as failed.
abbrev pub fits : Stage → Created → Bool
fits shown taken = true
fits over not_taken = true
fits over unavailable = true
fits removed unavailable = true
fits absent not_taken = true
fits unmarked not_taken = true
fits _ _ = false

abbrev pub Lawful : Stage → List Deed × Created → Type 0
Lawful s (l, r) = (t : Stage) × (follow s l ≡ some t) × (fits t r ≡ true)

same_storage_refl : (ref : String) (size : ℕ) → same_storage ref size ref size ≡ true
same_storage_refl ref size =
    let same : (ref == ref) ≡ true = (eq_iff ref ref).1 refl in rw same (ground arith)

next-storage :
    (g : ℕ) (ref : String) (size : ℕ) (ok : Bool)
    → next (written g ref size) (record_storage ref size ok) ≡ some (if ok then located else broken)
next-storage g ref size ok =
    ap (λ b. if b then some (if ok then located else broken) else none) (same_storage_refl ref size)

next-generation :
    (g : ℕ) (ref : String) (size : ℕ) (ok : Bool)
    → next (written g ref size) (record_generation g ok)
      ≡ some (if ok then written g ref size else broken)
next-generation g ref size ok =
    let same : (g == g) ≡ true = ground arith in
    ap (λ b. if b then some (if ok then written g ref size else broken) else none) same

-- A step that the protocol allows, and the rest.
Lawful-step :
    (s t : Stage) (d : Deed) (l : List Deed) (r : Created)
    → next s d ≡ some t
    → Lawful t (l, r)
    → Lawful s (d ∷ l, r)
Lawful-step s t d l r e (u, f, g) = (u, rw (follow, e) f, g)

module _ {Q : Type 0} (a : Answers Q) where
  abandoned-Lawful : (w : Write) → Lawful in_flight (abandoned a w, unavailable)
  unfolding abandoned
  abandoned-Lawful done = (removed, refl, refl)
  abandoned-Lawful gone = (removed, refl, refl)
  abandoned-Lawful refused = (over, refl, refl)

  abandon_snapshot-Lawful : Lawful in_flight (abandon_snapshot a)
  unfolding abandon_snapshot
  abandon_snapshot-Lawful = abandoned-Lawful a.deleted

  dial_failed-Lawful : (fault : Fault) → Lawful in_flight (dial_failed a fault)
  unfolding dial_failed fail_snapshot
  dial_failed-Lawful unreachable = abandon_snapshot-Lawful
  dial_failed-Lawful no_space = (over, refl, refl)
  dial_failed-Lawful other = (over, refl, refl)

  recorded-Lawful :
      (g : ℕ) (ref : String) (size : ℕ) → Lawful (written g ref size) (recorded a ref size)
  unfolding recorded before fail_snapshot
  recorded-Lawful g ref size = elim (Bool-cases a.storage_patched) [
    | inl e ↦ rw e (
        Lawful-step (written g ref size) located (record_storage ref size true)
          (mark ready "" a.ready_marked ∷ []) taken (next-storage g ref size true)
          (shown, refl, refl))
    | inr e ↦ rw e (
        Lawful-step (written g ref size) broken (record_storage ref size false)
          (mark failed "StorageRefNotRecorded" a.failed_marked ∷ []) not_taken
          (next-storage g ref size false) (over, refl, refl))
  ]

  patched-Lawful :
      (ref : String) (size gen : ℕ) (ok : Bool)
      → Lawful (written gen ref size) (when_raised a ref size (record_generation gen ok ∷ [], ok))
  unfolding when_raised fail_snapshot
  patched-Lawful ref size gen true =
      Lawful-step (written gen ref size) (written gen ref size) (record_generation gen true)
        (recorded a ref size).0 (recorded a ref size).1 (next-generation gen ref size true)
        (recorded-Lawful gen ref size)
  patched-Lawful ref size gen false =
      Lawful-step (written gen ref size) broken (record_generation gen false)
        (mark failed "IdentityGenerationNotRecorded" a.failed_marked ∷ []) not_taken
        (next-generation gen ref size false) (over, refl, refl)

  -- Raising the generation changes no stage unless it fails.
  raised-Lawful :
      (ref : String) (size gen : ℕ) (o : Option (Option SandboxIdentityStatus))
      → Lawful (written gen ref size) (when_raised a ref size (raised a gen o))
  unfolding raised when_raised fail_snapshot
  raised-Lawful ref size gen none = (over, refl, refl)
  raised-Lawful ref size gen (some none) = recorded-Lawful gen ref size
  raised-Lawful ref size gen (some (some identity)) =
      elim (Bool-cases (leb gen identity.generation)) [
        | inl e ↦ rw e (recorded-Lawful gen ref size)
        | inr e ↦ rw e (patched-Lawful ref size gen a.generation_patched)
      ]

  record_identity_generation-Lawful :
      (ref : String) (size gen : ℕ)
      → Lawful (written gen ref size) (when_raised a ref size (record_identity_generation a gen))
  unfolding record_identity_generation when_raised
  record_identity_generation-Lawful ref size gen = elim (Bool-cases (gen == 0)) [
    | inl e ↦ rw e (recorded-Lawful gen ref size)
    | inr e ↦ rw e (raised-Lawful ref size gen a.live)
  ]

  called-Lawful :
      (req : CreateRequest) (reply : Reply)
      → Lawful in_flight (before (call_agent req reply) (on_reply a req.identity_generation reply))
  unfolding before on_reply fail_create fail_snapshot
  called-Lawful req (faulty unreachable) = abandon_snapshot-Lawful
  called-Lawful req (faulty no_space) = (over, refl, refl)
  called-Lawful req (faulty other) = (over, refl, refl)
  called-Lawful req (stored ref size) =
      record_identity_generation-Lawful ref size req.identity_generation

  on_dial-Lawful : (req : CreateRequest) (o : Option Fault) → Lawful in_flight (on_dial a req o)
  unfolding on_dial
  on_dial-Lawful req none = called-Lawful req (a.call req)
  on_dial-Lawful req (some fault) = dial_failed-Lawful fault

  made-Lawful : (snap : Snapshot) (req : CreateRequest) → Lawful absent (made a snap req)
  unfolding made before
  made-Lawful snap req =
      let run = on_dial-Lawful req (a.dial_fault snap.spec.node) in
      elim (Bool-cases a.created) [
        | inl c ↦ elim (Bool-cases a.creating_marked) [
          | inl m ↦ rw (c, m) run
          | inr m ↦ rw (c, m) (unmarked, refl, refl)
        ]
        | inr c ↦ rw c (absent, refl, refl)
      ]

  when_kept-Lawful :
      (sb : Sandbox Q) (spec : SandboxSnapshotSpec) (pod : Pod) (ref : String)
      (o : Option (Snapshot × String × List ℕ))
      → Lawful absent (when_kept a sb spec pod ref o)
  unfolding when_kept
  when_kept-Lawful sb spec pod ref none = (absent, refl, refl)
  when_kept-Lawful sb spec pod ref (some (snap, backend, kek)) =
      made-Lawful snap (create_request a sb spec pod ref backend kek)

  with_parent-Lawful :
      (sb : Sandbox Q) (spec : SandboxSnapshotSpec) (pod : Pod) (o : Option String)
      → Lawful absent (with_parent a sb spec pod o)
  unfolding with_parent
  with_parent-Lawful sb spec pod none = (absent, refl, refl)
  with_parent-Lawful sb spec pod (some ref) =
      when_kept-Lawful sb spec pod ref (apply_kept a spec (new_snapshot_cr a sb spec pod) ref)

  from_pod-Lawful :
      (sb : Sandbox Q) (spec : SandboxSnapshotSpec) (o : Option Pod)
      → Lawful absent (from_pod a sb spec o)
  unfolding from_pod
  from_pod-Lawful sb spec none = (absent, refl, refl)
  from_pod-Lawful sb spec (some pod) = elim (Bool-cases (pod.node_name == "")) [
    | inl e ↦ rw e (absent, refl, refl)
    | inr e ↦ rw e (with_parent-Lawful sb spec pod (diff_parent a sb spec pod.uid))
  ]

  when_free-Lawful :
      (sb : Sandbox Q) (spec : SandboxSnapshotSpec) (r : Read Snapshot)
      → Lawful absent (when_free a sb spec r)
  unfolding when_free
  when_free-Lawful sb spec missing = from_pod-Lawful sb spec a.pod
  when_free-Lawful sb spec unread = (absent, refl, refl)
  when_free-Lawful sb spec (found snap) = (absent, refl, refl)

  named-Lawful : (sb : Sandbox Q) (o : Option SandboxSnapshotSpec) → Lawful absent (named a sb o)
  unfolding named
  named-Lawful sb none = (absent, refl, refl)
  named-Lawful sb (some spec) = elim (Bool-cases (spec.name == "")) [
    | inl e ↦ rw e (absent, refl, refl)
    | inr e ↦ rw e (when_free-Lawful sb spec a.existing)
  ]

-- Whatever the answers are, a run of CreateSnapshot follows the protocol `next` from no Snapshot, to a
-- stage that fits its answer. So the node agent is called only for a Snapshot that is marked Creating;
-- Ready is written only after the node agent answered that the state is stored and the storage reference
-- and the size of that answer were recorded, with no failure between, and a generation that is recorded
-- in between is that of the request;
-- a run succeeds only then; and a Snapshot that was marked Creating is in the end shown Ready, recorded
-- as failed, or removed, each of the three as far as its write goes, and removed only when the node
-- agent stored nothing.
pub create_snapshot-Lawful :
    {Q : Type 0} (a : Answers Q) (sb : Sandbox Q) → Lawful absent (create_snapshot a sb)
unfolding create_snapshot
create_snapshot-Lawful a sb = named-Lawful a sb sb.spec.snapshot
