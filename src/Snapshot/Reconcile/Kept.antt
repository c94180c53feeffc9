-- ===== src/Snapshot/Reconcile/Kept.antt =====
-- A Snapshot that is in use stays, and so does one whose stored state a node agent failed to erase.
use setec.Prelude.{
  ℕ, ◌+◌, ◌-◌, min, ◌^◌, ◌≡◌, ◌≢◌, ◌⊎◌, refl, ap, ◌∙◌, inl, inr, Bool, true, false, String, Option,
  none, some, List, [], ◌∷◌, ◌++◌, ◌==◌, string_eq, nat_eq, Bool-cases, arith, eq_iff, is_some,
}
use mathlib.Core.List.{append-nil}
use setec.Prelude.Time.{Duration}
use setec.Api.{Sandbox, Snapshot, SnapshotStatus, snapshot_phase_eq}
use setec.Snapshot.Reconcile.{
  Read, found, missing, unread, Erase, rpc_error, response, Coordinator, Server, Act, patch_count,
  erase, has_finalizer, remove_finalizer, delete_snapshot, count, counted, reference_count, in_use,
  builds_on, node_gone, erased, unless_gone, delete_stored, stored, release, finalize_snapshot,
  by_ttl, settled, with_count, reconcile_found, reconcile,
}

-- Whether a run took the finalizer off, and whether it deleted the object.
abbrev pub removes : List Act → Bool
removes [] = false
removes (remove_finalizer ∷ l) = true
removes (a ∷ l) = removes l

abbrev pub deletes : List Act → Bool
deletes [] = false
deletes (delete_snapshot ∷ l) = true
deletes (a ∷ l) = deletes l

-- The calls that erase a storage ref at a node.
abbrev pub erasures : List Act → List (String × String)
erasures [] = []
erasures (erase node ref ∷ l) = (node, ref) ∷ erasures l
erasures (a ∷ l) = erasures l

erasures-append : (l m : List Act) → erasures (l ++ m) ≡ erasures l ++ erasures m
erasures-append [] m = refl
erasures-append (erase node ref ∷ l) m = ap (λ k. (node, ref) ∷ k) (erasures-append l m)
erasures-append (a ∷ l) m = erasures-append l m

abbrev pub Quiet : List Act → Type 0
Quiet l = (removes l ≡ false) × (deletes l ≡ false)

-- A count of nothing is a list of nothing.
count-zero {ℓ} :
    {A : Type ℓ} (p : A → Bool) (front : List A) (x : A) (back : List A)
    → count p (front ++ x ∷ back) ≡ 0
    → p x ≡ false
unfolding count
count-zero p [] x back h = ground arith
count-zero p (y ∷ front) x back h = count-zero p front x back (ground arith)

-- Nothing of the lists refers to the Snapshot.
abbrev pub Unreferenced : {Q : Type 0} → Server Q → Snapshot → Type 0
Unreferenced {Q} c snap =
    (sbs : List (Sandbox Q)) × (ss : List Snapshot) × (c.all_sandboxes ≡ some sbs)
    × (c.all_snapshots ≡ some ss)
    × ((front : List (Sandbox Q)) (sb : Sandbox Q) (back : List (Sandbox Q))
        → sbs ≡ front ++ sb ∷ back
        → in_use snap sb ≡ false)
    × ((front : List Snapshot) (s : Snapshot) (back : List Snapshot)
        → ss ≡ front ++ s ∷ back
        → builds_on snap s ≡ false)

counted_parts :
    {Q : Type 0} (c : Server Q) (snap : Snapshot) (o : Option (List (Sandbox Q)))
    (q : Option (List Snapshot))
    → c.all_sandboxes ≡ o
    → c.all_snapshots ≡ q
    → counted snap o q ≡ some 0
    → Unreferenced c snap
unfolding counted
counted_parts c snap none q e f h = absurd (cc)
counted_parts c snap (some sbs) none e f h = absurd (cc)
counted_parts c snap (some sbs) (some ss) e f h =
    let total : count (in_use snap) sbs + count (builds_on snap) ss ≡ 0 = cc in
    (
      sbs,
      ss,
      e,
      f,
      λ front sb back g.
          let n : count (in_use snap) sbs ≡ 0 = omega (arith, total) in
          count-zero (in_use snap) front sb back (rw g at n),
      λ front s back g.
          let n : count (builds_on snap) ss ≡ 0 = omega (arith, total) in
          count-zero (builds_on snap) front s back (rw g at n),
    )

counted-zero :
    {Q : Type 0} (c : Server Q) (snap : Snapshot)
    → reference_count c snap ≡ some 0
    → Unreferenced c snap
unfolding reference_count
counted-zero c snap h = counted_parts c snap c.all_sandboxes c.all_snapshots refl refl h

-- A node agent erased the state in a run: its one call for that was answered with no error and no
-- refusal.
abbrev pub ErasedBy : Coordinator → Snapshot → List Act → Type 0
ErasedBy k snap acts =
    (answer : Option Bool) × (k.dial snap.spec.node ≡ some (response answer))
    × (answer ≢ some false)
    × (erasures acts ≡ (snap.spec.node, snap.spec.storage_ref) ∷ [])

-- Why a coordinator lets a Snapshot go: it has no storage ref, or its node is gone with its local disk,
-- or the node agent erased its state in this run.
abbrev pub Settles : Coordinator → Snapshot → List Act → Type 0
Settles k snap acts =
    (snap.spec.storage_ref ≡ "") ⊎ (node_gone k snap ≡ some true) ⊎ ErasedBy k snap acts

-- The same of the controller, which erases nothing without a coordinator.
abbrev pub Erased : {Q : Type 0} → Server Q → Snapshot → List Act → Type 0
Erased c snap acts =
    (c.coordinator ≡ none) ⊎ ((k : Coordinator) × (c.coordinator ≡ some k) × Settles k snap acts)

-- What a node agent's answer says.
erased-true :
    (snap : Snapshot) (o : Option Erase)
    → (erased snap o).1 ≡ true
    → (answer : Option Bool) × (o ≡ some (response answer))
      × (answer ≢ some false)
      × (erasures (erased snap o).0 ≡ (snap.spec.node, snap.spec.storage_ref) ∷ [])
unfolding erased
erased-true snap none h = absurd (cc)
erased-true snap (some rpc_error) h = absurd (cc)
erased-true snap (some (response none)) h = (none, refl, λ e. cc, refl)
erased-true snap (some (response (some true))) h = (some true, refl, λ e. cc, refl)
erased-true snap (some (response (some false))) h = absurd (cc)

erased-Quiet : (snap : Snapshot) (o : Option Erase) → Quiet (erased snap o).0
unfolding erased
erased-Quiet snap none = (refl, refl)
erased-Quiet snap (some rpc_error) = (refl, refl)
erased-Quiet snap (some (response none)) = (refl, refl)
erased-Quiet snap (some (response (some ok))) = (refl, refl)

unless_gone-Quiet :
    (k : Coordinator) (snap : Snapshot) (o : Option Bool) → Quiet (unless_gone k snap o).0
unfolding unless_gone
unless_gone-Quiet k snap none = (refl, refl)
unless_gone-Quiet k snap (some true) = (refl, refl)
unless_gone-Quiet k snap (some false) = erased-Quiet snap (k.dial snap.spec.node)

unless_gone-true :
    (k : Coordinator) (snap : Snapshot) (o : Option Bool)
    → (unless_gone k snap o).1 ≡ true
    → (o ≡ some true) ⊎ ErasedBy k snap (unless_gone k snap o).0
unfolding unless_gone
unless_gone-true k snap none h = absurd (cc)
unless_gone-true k snap (some true) h = inl refl
unless_gone-true k snap (some false) h = inr (erased-true snap (k.dial snap.spec.node) h)

delete_stored-Quiet : (k : Coordinator) (snap : Snapshot) → Quiet (delete_stored k snap).0
unfolding delete_stored
delete_stored-Quiet k snap =
    let (r, d) = unless_gone-Quiet k snap (node_gone k snap) in (ground arith, ground arith)

delete_stored-true :
    (k : Coordinator) (snap : Snapshot)
    → (delete_stored k snap).1 ≡ true
    → Settles k snap (delete_stored k snap).0
unfolding delete_stored
delete_stored-true k snap h = elim (Bool-cases (snap.spec.storage_ref == "")) [
  | inl e ↦ inl ((eq_iff snap.spec.storage_ref "").0 e)
  | inr e ↦ elim (Bool-cases (snap.spec.node == "")) [
    | inl n ↦ absurd (let g = rw (e, n) at h in cc)
    | inr n ↦ rw (e, n) (inr (unless_gone-true k snap (node_gone k snap) (rw (e, n) at h)))
  ]
]

module _ {Q : Type 0} (c : Server Q) where
  pub stored-Quiet : (k : Option Coordinator) (snap : Snapshot) → Quiet (stored c k snap).0
  unfolding stored
  stored-Quiet none snap = (refl, refl)
  stored-Quiet (some k) snap = delete_stored-Quiet k snap

  stored-Erased :
      (k : Option Coordinator) (snap : Snapshot)
      → c.coordinator ≡ k
      → (stored c k snap).1 ≡ true
      → Erased c snap (stored c k snap).0
  unfolding stored
  stored-Erased none snap e h = inl e
  stored-Erased (some k) snap e h = inr (k, e, delete_stored-true k snap h)

  release-true :
      (snap : Snapshot) (r : List Act × Bool)
      → removes r.0 ≡ false
      → removes (release c snap r).0 ≡ true
      → (r.1 ≡ true) × (erasures (release c snap r).0 ≡ erasures r.0)
  unfolding release
  release-true snap (l, true) q h = elim (Bool-cases (has_finalizer snap.finalizers)) [
    | inl e ↦ rw e (refl, erasures-append l (remove_finalizer ∷ []) ∙ append-nil (erasures l))
    | inr e ↦ rw e (refl, refl)
  ]
  release-true snap (l, false) q h = absurd (cc)

  -- Only the erasures of a run count.
  Erased-same :
      (snap : Snapshot) (l m : List Act)
      → erasures m ≡ erasures l
      → Erased c snap l
      → Erased c snap m
  Erased-same snap l m e (inl n) = inl n
  Erased-same snap l m e (inr (k, is_k, inl x)) = inr (k, is_k, inl x)
  Erased-same snap l m e (inr (k, is_k, inr (inl x))) = inr (k, is_k, inr (inl x))
  Erased-same snap l m e (inr (k, is_k, inr (inr (answer, d, n, x)))) =
      inr (k, is_k, inr (inr (answer, d, n, e ∙ x)))

  finalize_snapshot-removes :
      (snap : Snapshot) (n : ℕ)
      → removes (finalize_snapshot c snap n).0 ≡ true
      → (n ≡ 0) × Erased c snap (finalize_snapshot c snap n).0
  unfolding finalize_snapshot
  finalize_snapshot-removes snap n h =
      let run = stored c c.coordinator snap in
      let free : n ≡ 0 = ground arith in
      let went : removes (release c snap run).0 ≡ true = ground arith in
      let (fine, same) = release-true snap run (stored-Quiet c.coordinator snap).0 went in
      let all : erasures (finalize_snapshot c snap n).0 ≡ erasures (release c snap run).0 =
        ground arith in
      (
        free,
        Erased-same snap run.0 (finalize_snapshot c snap n).0 (all ∙ same)
            (stored-Erased c.coordinator snap refl fine),
      )

  by_ttl-removes :
      (snap : Snapshot) (n : ℕ) (ttl : Option Duration) → removes (by_ttl c snap n ttl).0 ≡ false
  unfolding by_ttl
  by_ttl-removes snap n none = refl
  by_ttl-removes snap n (some ttl) = ground arith

  settled-removes :
      (snap : Snapshot) (n : ℕ)
      → removes (settled c snap n).0 ≡ true
      → (is_some snap.deletion_timestamp ≡ true) × (n ≡ 0) × Erased c snap (settled c snap n).0
  unfolding settled
  settled-removes snap n h =
      let quiet = by_ttl-removes snap n snap.spec.ttl in
      let wanted : is_some snap.deletion_timestamp ≡ true = ground arith in
      let went : removes (finalize_snapshot c snap n).0 ≡ true = ground arith in
      let (free, rest) = finalize_snapshot-removes snap n went in (wanted, free, rw wanted rest)

  -- What a run that takes the finalizer off has seen and done.
  abbrev pub Freed : Snapshot → List Act → Type 0
  Freed snap acts =
      (is_some snap.deletion_timestamp ≡ true) × Unreferenced c snap × Erased c snap acts

  Erased-status :
      (snap : Snapshot) (st : SnapshotStatus) (acts : List Act)
      → Erased c (record snap { status = st }) acts
      → Erased c snap acts
  unfolding node_gone
  Erased-status snap st acts e = e

  with_count-Freed :
      (snap : Snapshot) (n : Option ℕ)
      → reference_count c snap ≡ n
      → removes (with_count c snap n).0 ≡ true
      → Freed snap (with_count c snap n).0
  unfolding with_count
  with_count-Freed snap none r h = absurd (cc)
  with_count-Freed snap (some n) r h =
      elim (Bool-cases (snap.status.reference_count == min n (2 ^ 31 - 1))) [
        | inl e ↦
            let (w, z, rest) = settled-removes snap n (rw e at h) in
            rw e (w, counted-zero c snap (r ∙ ap some z), rest)
        | inr e ↦
            let refs = min n (2 ^ 31 - 1) in
            let st = record (snap.status) {
              reference_count = refs;
              last_transition_time = some c.now;
            } in
            let next = record snap { status = st } in
            let h2 = rw e at h in
            elim (Bool-cases c.count_patched) [
              | inr p ↦ absurd (let h3 = rw p at h2 in cc)
              | inl p ↦
                  let (w, z, rest) = settled-removes next n (rw p at h2) in
                  let whole =
                    Erased-same next (settled c next n).0 (patch_count refs ∷ (settled c next n).0)
                      refl rest in
                  rw (e, p)
                    (
                      w,
                      counted-zero c snap (r ∙ ap some z),
                      Erased-status snap st (patch_count refs ∷ (settled c next n).0) whole,
                    )
            ]
      ]

  reconcile_found-Freed :
      (r : Read Snapshot)
      → c.snapshot ≡ r
      → removes (reconcile_found c r).0 ≡ true
      → (snap : Snapshot) × (c.snapshot ≡ found snap) × Freed snap (reconcile_found c r).0
  unfolding reconcile_found
  reconcile_found-Freed missing e h = absurd (cc)
  reconcile_found-Freed unread e h = absurd (cc)
  reconcile_found-Freed (found snap) e h =
      (snap, e, with_count-Freed snap (reference_count c snap) refl h)

-- A reconcile takes the finalizer off only a Snapshot whose deletion was asked for, to which no Sandbox
-- of its namespace refers that has not loaded it and on which no diff builds; and only when one of these
-- holds: the controller has no coordinator, so that it erases nothing; no storage ref is recorded for the
-- Snapshot; its local disk went with its node; or its node agent was called once in this run to erase
-- that ref, and neither failed nor refused.
pub reconcile-Freed :
    {Q : Type 0} (c : Server Q)
    → removes (reconcile c).0 ≡ true
    → (snap : Snapshot) × (c.snapshot ≡ found snap) × Freed c snap (reconcile c).0
unfolding reconcile
reconcile-Freed c h = reconcile_found-Freed c c.snapshot refl h
