-- ===== src/Netpol/Exempt.antt =====
-- What a class's exemptions take from the reserved blocks: exactly their own addresses.
use setec.Prelude.{
  ℕ, zero, suc, ◌-◌, ◌≤◌, ◌<◌, ◌≡◌, ◌⊎◌, inl, inr, refl, ◌∙◌, Bool, true, false, List, [], ◌∷◌,
  ◌++◌, ◌&&◌, ◌||◌, not, leb, length, arith, Bool-cases,
}
use setec.Netpol.{
  bit_eq, starts, Prefix, Address, contains_address, overlaps, half, siblings, cut_one, cut_prefix,
  cut_all, covers,
}
use setec.Netpol.Bits.{starts-both, starts_trans, shorter-starts, starts-rest, siblings-covers}

-- A prefix of the family of the address has at most as many bits.
abbrev pub Fits : Prefix → Address → Type 0
Fits p a = (bit_eq p.is4 a.is4 ≡ false) ⊎ (length p.bits ≤ length a.bits)

abbrev pub AllFit : List Prefix → Address → Type 0
AllFit [] a = Unit
AllFit (p ∷ ps) a = Fits p a × AllFit ps a

pub covers-append :
    (ps qs : List Prefix) (a : Address) → covers (ps ++ qs) a ≡ (covers ps a || covers qs a)
covers-append [] qs a = refl
covers-append (p ∷ ps) qs a = let ih = covers-append ps qs a in ground arith

-- The siblings are of the family of the prefix.
siblings-other :
    (n : ℕ) (cur hole : Prefix) (a : Address)
    → bit_eq cur.is4 a.is4 ≡ false
    → covers (siblings n cur hole) a ≡ false
unfolding siblings contains_address
siblings-other zero cur hole a f = refl
siblings-other (suc n) cur hole a f =
    let ih = siblings-other n (half cur (not (overlaps (half cur false) hole))) hole a f in
    ground arith

module _ (hole p : Prefix) (a : Address) where
  apart :
      overlaps p hole ≡ false
      → (contains_address p a || false) ≡ (contains_address p a && not (contains_address hole a))
  unfolding overlaps contains_address
  apart h = let both = starts-both p.bits hole.bits a.bits in ground arith

  inside :
      overlaps p hole ≡ true
      → length hole.bits ≤ length p.bits
      → false ≡ (contains_address p a && not (contains_address hole a))
  unfolding overlaps contains_address
  inside h l =
      let s = shorter-starts p.bits hole.bits in
      let t = starts_trans hole.bits p.bits a.bits in ground arith

  overlap_parts :
      overlaps p hole ≡ true
      → (bit_eq p.is4 hole.is4 ≡ true)
        × ((starts hole.bits p.bits || starts p.bits hole.bits) ≡ true)
  unfolding overlaps
  overlap_parts h = ground arith

  bit_eq-eq : (x y : Bool) → bit_eq x y ≡ true → x ≡ y
  bit_eq-eq x y h = ground arith

  around :
      Fits hole a
      → overlaps p hole ≡ true
      → length p.bits < length hole.bits
      → covers (siblings (length hole.bits - length p.bits) p hole) a
        ≡ (contains_address p a && not (contains_address hole a))
  around (inl other) h l =
      let same = bit_eq-eq p.is4 hole.is4 (overlap_parts h).0 in
      let mine : bit_eq p.is4 a.is4 ≡ false = rw same other in
      siblings-other _ p hole a mine ∙ (unfold contains_address in ground arith)
  around (inr fits) h l =
      let same = bit_eq-eq p.is4 hole.is4 (overlap_parts h).0 in
      let s = shorter-starts hole.bits p.bits (overlap_parts h).1 (omega (arith, l)) in
      let (r, e, k) = starts-rest p.bits hole.bits s in siblings-covers _ p hole r a same e k fits

  shorter_or : (m n : ℕ) → ((leb m n ≡ true) × (m ≤ n)) ⊎ ((leb m n ≡ false) × (n < m))
  shorter_or m n = ground arith

  cut_one-covers :
      Fits hole a
      → covers (cut_one hole p) a ≡ (contains_address p a && not (contains_address hole a))
  unfolding cut_one
  cut_one-covers fits = elim (Bool-cases (overlaps p hole)) [
    | inr h ↦ rw h (apart h)
    | inl h ↦ elim (shorter_or (length hole.bits) (length p.bits)) [
      | inl (t, l) ↦ rw (h, t) (inside h l)
      | inr (t, l) ↦ rw (h, t) (around fits h l)
    ]
  ]

module _ (a : Address) where
  cut_prefix-covers :
      (set : List Prefix) (hole : Prefix)
      → Fits hole a
      → covers (cut_prefix set hole) a ≡ (covers set a && not (contains_address hole a))
  unfolding cut_prefix
  cut_prefix-covers [] hole fits = refl
  cut_prefix-covers (p ∷ set) hole fits =
      let ih = cut_prefix-covers set hole fits in
      let one = cut_one-covers hole p a fits in
      covers-append (cut_one hole p) (cut_prefix set hole) a ∙ rw (one, ih) (ground arith)

  -- For an address that is at least as long as every exemption of its family: the pieces that are left
  -- of the reserved prefixes contain it exactly when a reserved prefix does and no exemption does.
  pub cut_all-covers :
      (pieces exempt : List Prefix)
      → AllFit exempt a
      → covers (cut_all pieces exempt) a ≡ (covers pieces a && not (covers exempt a))
  unfolding cut_all
  cut_all-covers pieces [] fit = ground arith
  cut_all-covers pieces (e ∷ exempt) fit =
      let ih = cut_all-covers (cut_prefix pieces e) exempt fit.1 in
      let one = cut_prefix-covers pieces e fit.0 in ih ∙ rw one (ground arith)
