-- ===== src/WarmPool/Bases/Counted.antt =====
-- The counts of a prune, base by base.
use setec.Prelude.{
  ℕ, ◌+◌, ◌≤◌, ◌≡◌, ◌≢◌, refl, sym, ap, ◌∙◌, inl, inr, Bool, true, false, String, Option, some,
  List, [], ◌∷◌, ◌==◌, ◌&&◌, not, any, min, leb, string_eq, eq_iff, Bool-cases, if◌then◌else◌,
  arith,
}
use setec.Prelude.Int.{ltb_ℤ}
use setec.Prelude.Time.{Time, sub}
use mathlib.Core.Path.{subst}
use setec.WarmPool.{base_write_timeout}
use setec.Api.{SnapshotPhase-discrete, Snapshot, ready, failed, snapshot_phase_eq}
use setec.Checkpoint.{Write, done, moot, refused}
use setec.WarmPool.Bases.{
  Counts, no_count, Nodes, bump, Verdict, drops, counts, waits, PoolAct, base_key, verdict,
  next_count, next_nodes, dropped, prune, prune_bases,
}

-- The Ready bases with a key.
abbrev pub ready_of : String → List Snapshot → ℕ
ready_of k [] = 0
ready_of k (b ∷ bs) =
    (if b.status.phase == ready && base_key b.annotations == k then 1 else 0) + ready_of k bs

string_apart : (j k : String) → (j == k) ≡ false → (k == j) ≡ false
string_apart j k h = elim (Bool-cases (k == j)) [
  | inr e ↦ e
  | inl e ↦ absurd (let n = (eq_iff j k).1 (sym ((eq_iff k j).0 e)) in cc)
]

module _ (current : String → Bool) (pods : List String) (now : Time) (want : ℕ)
    (deleted : Snapshot → Write) where
  -- The count of a key after the prune.
  abbrev pub total : String → Counts → List Snapshot → ℕ
  total k n bs = if current k then min want (n k + ready_of k bs) else n k

  -- What a step leaves of a count.
  abbrev pub Steady : String → Counts → Snapshot → List Snapshot → Type 0
  Steady k n b bs =
      (total k (next_count (verdict current pods now want n b) (base_key b.annotations) n) bs
        ≡ total k n (b ∷ bs))
      × (next_count (verdict current pods now want n b) (base_key b.annotations) n k ≤ want)

  -- A write that stopped with its Pod.
  abbrev pub late : Snapshot → Bool
  late b =
      not (any (λ p. p == b.name) pods) && ltb_ℤ base_write_timeout (sub now b.creation_timestamp)

  ready_not_failed :
      (b : Snapshot) → b.status.phase == ready ≡ true → b.status.phase == failed ≡ false
  unfolding SnapshotPhase-discrete
  ready_not_failed b h = rw ((snapshot_phase_eq.equal_iff b.status.phase ready).0 h) refl

  Steady-same :
      (n : Counts) (b : Snapshot) (bs : List Snapshot)
      → n (base_key b.annotations) ≤ want
      → Steady (base_key b.annotations) n b bs
  unfolding next_count verdict bump
  Steady-same n b bs h =
      let j = base_key b.annotations in
      let same : (j == j) ≡ true = (eq_iff j j).1 refl in
      elim (Bool-cases (current j)) [
        | inr c ↦ rw c (refl, h)
        | inl c ↦ elim (Bool-cases (b.status.phase == ready)) [
          | inl r ↦
              let f = ready_not_failed b r in
              elim (Bool-cases (leb want (n j))) [
                | inl w ↦
                    let le : want ≤ n j = ground arith in rw (c, r, f, w, same) (omega arith, h)
                | inr w ↦ rw (c, r, f, w, same) (ground arith, ground arith)
              ]
          | inr r ↦ elim (Bool-cases (b.status.phase == failed)) [
            | inl f ↦ rw (c, r, f) (ground arith, h)
            | inr f ↦ elim (Bool-cases (late b)) [
              | inl w ↦ rw (c, r, f, w) (ground arith, h)
              | inr w ↦ rw (c, r, f, w) (ground arith, h)
            ]
          ]
        ]
      ]

  Steady-other :
      (k : String) (n : Counts) (b : Snapshot) (bs : List Snapshot)
      → base_key b.annotations == k ≡ false
      → n k ≤ want
      → Steady k n b bs
  unfolding next_count verdict bump
  Steady-other k n b bs e h =
      let j = base_key b.annotations in
      let apart : (k == j) ≡ false = string_apart j k e in
      elim (Bool-cases (current j)) [
        | inr c ↦ rw (c, e) (ground arith, h)
        | inl c ↦ elim (Bool-cases (b.status.phase == ready)) [
          | inl r ↦
              let f = ready_not_failed b r in
              elim (Bool-cases (leb want (n j))) [
                | inl w ↦ rw (c, r, f, w, e) (ground arith, h)
                | inr w ↦ rw (c, r, f, w, e, apart) (ground arith, h)
              ]
          | inr r ↦ elim (Bool-cases (b.status.phase == failed)) [
            | inl f ↦ rw (c, r, f) (ground arith, h)
            | inr f ↦ elim (Bool-cases (late b)) [
              | inl w ↦ rw (c, r, f, w) (ground arith, h)
              | inr w ↦ rw (c, r, f, w) (ground arith, h)
            ]
          ]
        ]
      ]

  pub next_count-Steady :
      (k : String) (n : Counts) (b : Snapshot) (bs : List Snapshot) → n k ≤ want → Steady k n b bs
  next_count-Steady k n b bs h = elim (Bool-cases (base_key b.annotations == k)) [
    | inr e ↦ Steady-other k n b bs e h
    | inl e ↦
        let same = (eq_iff (base_key b.annotations) k).0 e in
        subst (λ j. Steady j n b bs) same
          (Steady-same n b bs (subst (λ j. n j ≤ want) (sym same) h))
  ]

  dropped-some :
      {A : Type 0} (v : Verdict) (name : String) (w : Write) (r : List PoolAct × Option A)
      → w ≢ refused
      → (dropped v name w r).1 ≡ r.1
  unfolding dropped
  dropped-some drops name refused r h = absurd (h refl)
  dropped-some drops name done r h = refl
  dropped-some drops name moot r h = refl
  dropped-some counts name w r h = refl
  dropped-some waits name w r h = refl

  -- What a prune ends with.
  abbrev pub Ends : Counts → List Snapshot → Option (Counts × Nodes) → Type 0
  Ends n bs o =
      (m : Counts) × (nodes : Nodes) × (o ≡ some (m, nodes)) × ((k : String) → m k ≡ total k n bs)

  pub prune-Ends :
      (n : Counts) (nodes : Nodes) (bs : List Snapshot)
      → ((b : Snapshot) → deleted b ≢ refused)
      → ((k : String) → n k ≤ want)
      → Ends n bs (prune current pods now want deleted n nodes bs).1
  unfolding prune
  prune-Ends n nodes [] a h = (n, nodes, refl, λ k. nothing k (current k) (h k))
    where
      nothing : (k : String) (c : Bool) → n k ≤ want → n k ≡ (if c then min want (n k + 0) else n k)
      nothing k true le = omega arith
      nothing k false le = refl
  prune-Ends n nodes (b ∷ bs) a h =
      let v = verdict current pods now want n b in
      let next = next_count v (base_key b.annotations) n in
      let held = next_nodes v b nodes in
      let (m, last, e, same) =
        prune-Ends next held bs a (λ k. (next_count-Steady k n b bs (h k)).1) in
      (
        m,
        last,
        dropped-some v b.name (deleted b) (prune current pods now want deleted next held bs) (a b)
            ∙ e,
        λ k. same k ∙ (next_count-Steady k n b bs (h k)).0,
      )

module _ (current : String → Bool) (pods : List String) (now : Time) (want : ℕ)
    (deleted : Snapshot → Write) where
  dropped-eq_some :
      {A : Type 0} (v : Verdict) (name : String) (w : Write) (r : List PoolAct × Option A) (a : A)
      → (dropped v name w r).1 ≡ some a
      → r.1 ≡ some a
  unfolding dropped
  dropped-eq_some drops name refused r a h = absurd (cc)
  dropped-eq_some drops name done r a h = h
  dropped-eq_some drops name moot r a h = h
  dropped-eq_some counts name w r a h = h
  dropped-eq_some waits name w r a h = h

  prune-eq_some :
      (n : Counts) (nodes : Nodes) (bs : List Snapshot) (m : Counts) (last : Nodes)
      → ((k : String) → n k ≤ want)
      → (prune current pods now want deleted n nodes bs).1 ≡ some (m, last)
      → (k : String) → m k ≡ total current pods now want deleted k n bs
  unfolding prune
  prune-eq_some n nodes [] m last h e k =
      let p : (n, nodes) ≡ (m, last) = cc in
      let q : n k ≡ m k = ap (λ (r : Counts × Nodes). r.0 k) p in nothing (current k) (h k) q
    where
      nothing : (c : Bool) → n k ≤ want → n k ≡ m k → m k ≡ (if c then min want (n k + 0) else n k)
      nothing true le e = omega arith
      nothing false le e = sym e
  prune-eq_some n nodes (b ∷ bs) m last h e k =
      let v = verdict current pods now want n b in
      let next = next_count v (base_key b.annotations) n in
      let held = next_nodes v b nodes in
      let rest = prune current pods now want deleted next held bs in
      let steady = next_count-Steady current pods now want deleted in
      prune-eq_some next held bs m last (λ j. (steady j n b bs (h j)).1)
        (dropped-eq_some v b.name (deleted b) rest (m, last) e) k
      ∙ (steady k n b bs (h k)).0

  -- What a prune that ends with no error counts of a key that is current.
  pub prune_bases-eq_some :
      (bases : List Snapshot) (m : Counts) (nodes : Nodes) (k : String)
      → (prune_bases current pods now want deleted bases).1 ≡ some (m, nodes)
      → current k ≡ true
      → m k ≡ min want (ready_of k bases)
  unfolding prune_bases
  prune_bases-eq_some bases m nodes k e h =
      let total_is = prune-eq_some no_count [] bases m nodes (λ j. omega arith) e k in
      total_is ∙ rw h (omega arith)
