-- ===== src/Snapshot/Reconcile/Expired.antt =====
-- The TTL of a Snapshot.
use setec.Prelude.{
  ℕ, ◌+◌, ◌-◌, ◌≤◌, ◌<◌, min, ◌^◌, ◌≡◌, ◌↔◌, refl, sym, ap, ◌∙◌, inl, inr, Bool, true, false,
  Option, none, some, List, [], ◌∷◌, ◌++◌, ◌==◌, string_eq, nat_eq, Bool-cases, arith, is_some,
}
use setec.Prelude.Int.{pos, negsuc}
use setec.Prelude.Time.{Duration, max_duration}
use setec.Api.{Snapshot, snapshot_phase_eq}
use setec.Snapshot.Reconcile.{
  found, Server, Act, remove_finalizer, delete_snapshot, reference_count, stored, release,
  finalize_snapshot, by_ttl, settled, with_count, reconcile_found, reconcile,
}
use setec.Snapshot.Reconcile.Kept.{deletes, stored-Quiet}

deletes-remove : (l : List Act) → deletes (l ++ remove_finalizer ∷ []) ≡ deletes l
deletes-remove [] = refl
deletes-remove (delete_snapshot ∷ l) = refl
deletes-remove (a ∷ l) = deletes-remove l

module _ {Q : Type 0} (c : Server Q) where
  release-deletes :
      (snap : Snapshot) (r : List Act × Bool)
      → deletes r.0 ≡ false
      → deletes (release c snap r).0 ≡ false
  unfolding release
  release-deletes snap (l, false) h = h
  release-deletes snap (l, true) h = let more = deletes-remove l ∙ h in ground arith

  finalize_snapshot-deletes :
      (snap : Snapshot) (n : ℕ) → deletes (finalize_snapshot c snap n).0 ≡ false
  unfolding finalize_snapshot
  finalize_snapshot-deletes snap n =
      let quiet =
        release-deletes snap (stored c c.coordinator snap) (stored-Quiet c c.coordinator snap).1 in
      ground arith

  -- A positive TTL whose time is over, on a Snapshot that nothing refers to and that is not pinned.
  abbrev Over : Snapshot → ℕ → Option Duration → Type 0
  Over snap n ttl =
      (n ≡ 0)
      × (snap.spec.pinned ≡ false)
      × ((d : ℕ) × (ttl ≡ some (pos d)) × (0 < d) × (snap.creation_timestamp + d ≤ c.now))

  by_ttl-Over :
      (snap : Snapshot) (n : ℕ) (ttl : Option Duration)
      → ((d : ℕ) → ttl ≡ some (pos d) → d ≤ max_duration)
      → (deletes (by_ttl c snap n ttl).0 ≡ true) ↔ Over snap n ttl
  unfolding by_ttl
  by_ttl-Over snap n none m = (λ h. absurd (cc), λ o. absurd (let (z, p, (d, e, l, t)) = o in cc))
  by_ttl-Over snap n (some (negsuc d)) m =
      (λ h. absurd (ground arith), λ o. absurd (let (z, p, (d, e, l, t)) = o in cc))
  by_ttl-Over snap n (some (pos d)) m =
      let small = m d refl in
      (
        λ h. (ground arith, ground arith, (d, refl, ground arith, ground arith)),
        λ o. let (z, p, (k, e, l, t)) = o in let same : d ≡ k = cc in ground arith,
      )

  settled-deletes :
      (snap : Snapshot) (n : ℕ)
      → c.finalizer_added ≡ true
      → (deletes (settled c snap n).0 ≡ true) ↔ (
          (is_some snap.deletion_timestamp ≡ false)
          × (deletes (by_ttl c snap n snap.spec.ttl).0 ≡ true))
  unfolding settled
  settled-deletes snap n a =
      let kept = finalize_snapshot-deletes snap n in
      (λ h. (ground arith, ground arith), λ o. let (p, q) = o in ground arith)

  -- Nothing asked for the deletion, nothing refers to it, and its TTL is over.
  abbrev pub Expired : Snapshot → Type 0
  Expired snap =
      (is_some snap.deletion_timestamp ≡ false)
      × (reference_count c snap ≡ some 0)
      × (snap.spec.pinned ≡ false)
      × ((d : ℕ) × (snap.spec.ttl ≡ some (pos d)) × (0 < d) × (snap.creation_timestamp + d ≤ c.now))

  settled-Over :
      (snap : Snapshot) (n : ℕ)
      → c.finalizer_added ≡ true
      → ((d : ℕ) → snap.spec.ttl ≡ some (pos d) → d ≤ max_duration)
      → (deletes (settled c snap n).0 ≡ true)
        ↔ ((is_some snap.deletion_timestamp ≡ false) × Over snap n snap.spec.ttl)
  settled-Over snap n a m =
      let (f, g) = settled-deletes snap n a in
      let (f2, g2) = by_ttl-Over snap n snap.spec.ttl m in
      (λ h. let (p, q) = f h in (p, f2 q), λ o. let (p, q) = o in g (p, g2 q))

  with_count-Over :
      (snap : Snapshot) (n : ℕ)
      → c.count_patched ≡ true
      → c.finalizer_added ≡ true
      → ((d : ℕ) → snap.spec.ttl ≡ some (pos d) → d ≤ max_duration)
      → (deletes (with_count c snap (some n)).0 ≡ true)
        ↔ ((is_some snap.deletion_timestamp ≡ false) × Over snap n snap.spec.ttl)
  unfolding with_count
  with_count-Over snap n b a m =
      elim (Bool-cases (snap.status.reference_count == min n (2 ^ 31 - 1))) [
        | inl e ↦ rw e (settled-Over snap n a m)
        | inr e ↦
            let st = record (snap.status) {
              reference_count = min n (2 ^ 31 - 1);
              last_transition_time = some c.now;
            } in
            let (f, g) = settled-Over (record snap { status = st }) n a m in
            rw (e, b) (λ h. f h, λ o. g o)
      ]

  counted-Expired :
      (snap : Snapshot) (n : Option ℕ)
      → reference_count c snap ≡ n
      → c.count_patched ≡ true
      → c.finalizer_added ≡ true
      → ((d : ℕ) → snap.spec.ttl ≡ some (pos d) → d ≤ max_duration)
      → (deletes (with_count c snap n).0 ≡ true) ↔ Expired snap
  counted-Expired snap none r b a m =
      (λ h. absurd (unfold with_count in cc), λ o. absurd (let (w, z, p, rest) = o in cc))
  counted-Expired snap (some n) r b a m =
      let (f, g) = with_count-Over snap n b a m in
      (
        λ h. let (w, (z, p, rest)) = f h in (w, r ∙ ap some z, p, rest),
        λ o. let (w, z, p, rest) = o in let none_left : n ≡ 0 = cc in g (w, (none_left, p, rest)),
      )

-- When the writes before it succeed, a reconcile deletes a Snapshot exactly when nothing asked for its
-- deletion yet, nothing refers to it, it is not pinned, and its TTL is positive and over.
pub reconcile-Expired :
    {Q : Type 0} (c : Server Q) (snap : Snapshot)
    → c.snapshot ≡ found snap
    → c.count_patched ≡ true
    → c.finalizer_added ≡ true
    → ((d : ℕ) → snap.spec.ttl ≡ some (pos d) → d ≤ max_duration)
    → (deletes (reconcile c).0 ≡ true) ↔ Expired c snap
unfolding reconcile reconcile_found
reconcile-Expired c snap e b a m =
    let (f, g) = counted-Expired c snap (reference_count c snap) refl b a m in
    let same : deletes (reconcile_found c c.snapshot).0
        ≡ deletes (with_count c snap (reference_count c snap)).0 =
      ap (λ r. deletes (reconcile_found c r).0) e in
    (λ h. f (sym same ∙ h), λ o. same ∙ g o)
