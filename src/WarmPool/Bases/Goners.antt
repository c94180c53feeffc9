-- ===== src/WarmPool/Bases/Goners.antt =====
-- The bases that a prune deletes.
use setec.Prelude.{
  ℕ, ◌+◌, ◌≤◌, ◌≡◌, ◌≢◌, refl, ◌∙◌, inl, inr, Bool, true, false, String, Option, List, [], ◌∷◌,
  ◌==◌, not, min, leb, string_eq, Bool-cases, if◌then◌else◌, arith, map, ◌||◌,
}
use setec.Prelude.Time.{Time}
use setec.Api.{Snapshot, ready, failed, snapshot_phase_eq}
use setec.Checkpoint.{Write, done, moot, refused}
use setec.WarmPool.Bases.{
  Counts, Nodes, drops, PoolAct, drop_base, base_key, verdict, next_count, next_nodes, dropped,
  prune,
}
use setec.WarmPool.Bases.Counted.{ready_of, late, next_count-Steady}

module _ (current : String → Bool) (pods : List String) (now : Time) (want : ℕ)
    (deleted : Snapshot → Write) where
  -- A base that has to go, after the bases that were seen: its key is not current, it failed, there are
  -- Ready ones enough of its key before it, or it is the write of a Pod that is gone.
  abbrev pub doomed : List Snapshot → Snapshot → Bool
  doomed seen b =
      let k = base_key b.annotations in
      if not (current k) || b.status.phase == failed
      then true
      else if b.status.phase == ready
      then leb want (ready_of k seen)
      else late current pods now want deleted b

  abbrev pub goners : List Snapshot → List Snapshot → List Snapshot
  goners seen [] = []
  goners seen (b ∷ bs) = let rest = goners (b ∷ seen) bs in if doomed seen b then b ∷ rest else rest

  abbrev pub drop_of : Snapshot → PoolAct
  drop_of b = drop_base b.name (deleted b)

  -- The counts are those of the Ready bases that were seen, up to the wanted count.
  abbrev pub Tally : List Snapshot → Counts → Type 0
  Tally seen n = (k : String) → (n k ≤ want) × (current k ≡ true → n k ≡ min want (ready_of k seen))

  Tally-next :
      (seen : List Snapshot) (n : Counts) (b : Snapshot)
      → Tally seen n
      → Tally (b ∷ seen) (next_count (verdict current pods now want n b) (base_key b.annotations) n)
  Tally-next seen n b h k =
      let next = next_count (verdict current pods now want n b) (base_key b.annotations) n in
      let (same, le) = next_count-Steady current pods now want deleted k n b [] (h k).0 in
      (le, λ c. counted (next k) (n k) (current k) _ (ready_of k seen) c le same ((h k).1 c))
    where
      counted :
          (m r : ℕ) (c : Bool) (one s : ℕ)
          → c ≡ true
          → m ≤ want
          → (if c then min want (m + 0) else m) ≡ (if c then min want (r + (one + 0)) else r)
          → r ≡ min want s
          → m ≡ min want (one + s)
      counted m r true one s e le same t = omega (arith, le, same, t)
      counted m r false one s e le same t = absurd (cc)

  dropped-drops :
      {A : Type 0} (name : String) (w : Write) (r : List PoolAct × Option A)
      → w ≢ refused
      → (dropped drops name w r).0 ≡ drop_base name w ∷ r.0
  unfolding dropped
  dropped-drops name refused r h = absurd (h refl)
  dropped-drops name done r h = refl
  dropped-drops name moot r h = refl

  dropped-doomed :
      {A : Type 0} (seen : List Snapshot) (n : Counts) (b : Snapshot) (r : List PoolAct × Option A)
      → Tally seen n
      → deleted b ≢ refused
      → (dropped (verdict current pods now want n b) b.name (deleted b) r).0
        ≡ (if doomed seen b then drop_of b ∷ r.0 else r.0)
  unfolding verdict
  dropped-doomed seen b_counts b r h a =
      let j = base_key b.annotations in
      let goes = dropped-drops b.name (deleted b) r a in
      elim (Bool-cases (current j)) [
        | inr c ↦ rw c goes
        | inl c ↦ elim (Bool-cases (b.status.phase == failed)) [
          | inl f ↦ rw (c, f) goes
          | inr f ↦
              let t = (h j).1 c in
              let same : leb want (b_counts j) ≡ leb want (ready_of j seen) =
                rw t (leb_min (ready_of j seen)) in
              elim (Bool-cases (b.status.phase == ready)) [
                | inl p ↦ elim (Bool-cases (leb want (ready_of j seen))) [
                  | inl w ↦ rw (c, f, p, same, w) goes
                  | inr w ↦ rw (c, f, p, same, w) (unfold dropped in refl)
                ]
                | inr p ↦ elim (Bool-cases (late current pods now want deleted b)) [
                  | inl w ↦ rw (c, f, p, w) goes
                  | inr w ↦ rw (c, f, p, w) (unfold dropped in refl)
                ]
              ]
        ]
      ]
    where
      leb_min : (s : ℕ) → leb want (min want s) ≡ leb want s
      leb_min s = ground arith

  pub prune-goners :
      (seen : List Snapshot) (n : Counts) (nodes : Nodes) (bs : List Snapshot)
      → ((b : Snapshot) → deleted b ≢ refused)
      → Tally seen n
      → (prune current pods now want deleted n nodes bs).0 ≡ map drop_of (goners seen bs)
  unfolding prune
  prune-goners seen n nodes [] a h = refl
  prune-goners seen n nodes (b ∷ bs) a h =
      let v = verdict current pods now want n b in
      let next = next_count v (base_key b.annotations) n in
      let held = next_nodes v b nodes in
      let rest = prune current pods now want deleted next held bs in
      let later = prune-goners (b ∷ seen) next held bs a (Tally-next seen n b h) in
      dropped-doomed seen n b rest h (a b) ∙ elim (Bool-cases (doomed seen b)) [
        | inl d ↦ rw (d, later) refl
        | inr d ↦ rw (d, later) refl
      ]
