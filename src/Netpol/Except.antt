-- ===== src/Netpol/Except.antt =====
-- What exceptFor subtracts from a base block: every reserved address in it.
use setec.Prelude.{
  ℕ, ◌≤◌, ◌≡◌, ◌⊎◌, inl, inr, refl, ◌∙◌, Bool, true, false, Option, none, some, List, [], ◌∷◌, ◌++◌,
  ◌&&◌, ◌||◌, leb, length, arith, Bool-cases, if◌then◌else◌,
}
use setec.Netpol.{
  bit_eq, Prefix, Address, contains_address, overlaps, except_from, except_for, covers,
}
use setec.Netpol.Bits.{starts-both, starts_trans, shorter-starts}
use setec.Netpol.Exempt.{covers-append}

-- Some prefix of the list is of the family of the base.
abbrev pub has_family : Prefix → List Prefix → Bool
has_family base [] = false
has_family base (r ∷ rs) = bit_eq r.is4 base.is4 || has_family base rs

-- Either the excepted prefixes are known, and contain the address exactly when a reserved one (or an
-- earlier excepted one) does; or the rule is dropped, since a reserved prefix contains the address or
-- none is of the family.
abbrev pub HeldBack :
    Prefix → Address → Bool → List Prefix → List Prefix → Option (List Prefix) → Type 0
HeldBack base a same except reserved (some ex) =
    covers ex a ≡ (covers except a || covers reserved a)
HeldBack base a same except reserved none =
    (covers reserved a ≡ true) ⊎ ((has_family base reserved || same) ≡ false)

module _ (base : Prefix) (a : Address) (here : contains_address base a ≡ true) where
  outside : (r : Prefix) → overlaps base r ≡ false → contains_address r a ≡ false
  unfolding overlaps contains_address
  outside r h = let both = starts-both base.bits r.bits a.bits in let i = here in ground arith

  whole :
      (r : Prefix)
      → overlaps r base ≡ true
      → length r.bits ≤ length base.bits
      → contains_address r a ≡ true
  unfolding overlaps contains_address
  whole r h l =
      let s = shorter-starts base.bits r.bits in
      let t = starts_trans r.bits base.bits a.bits in let i = here in ground arith

  next-covers :
      (r : Prefix) (except : List Prefix)
      → covers (if overlaps base r then except ++ r ∷ [] else except) a
        ≡ (covers except a || contains_address r a)
  next-covers r except = elim (Bool-cases (overlaps base r)) [
    | inl h ↦ rw h (covers-append except (r ∷ []) a ∙ ground arith)
    | inr h ↦ rw (h, outside r h) (ground arith)
  ]

  both_parts : (x : Bool) (m n : ℕ) → (x && leb m n) ≡ true → (x ≡ true) × (m ≤ n)
  both_parts x m n h = ground arith

  covered_by :
      (r : Prefix)
      → (overlaps r base && leb (length r.bits) (length base.bits)) ≡ true
      → contains_address r a ≡ true
  covered_by r h = let (o, l) = both_parts _ _ _ h in whole r o l

  HeldBack-next :
      (r : Prefix) (rs except next : List Prefix) (same : Bool) (o : Option (List Prefix))
      → covers next a ≡ (covers except a || contains_address r a)
      → HeldBack base a (bit_eq r.is4 base.is4 || same) next rs o
      → HeldBack base a same except (r ∷ rs) o
  HeldBack-next r rs except next same none e (inl k) = inl (rw k (ground arith))
  HeldBack-next r rs except next same none e (inr k) = inr (ground arith)
  HeldBack-next r rs except next same (some ex) e k = k ∙ rw e (ground arith)

  except_from-HeldBack :
      (same : Bool) (except reserved : List Prefix)
      → HeldBack base a same except reserved (except_from base same except reserved)
  unfolding except_from
  except_from-HeldBack true except [] = ground arith
  except_from-HeldBack false except [] = inr refl
  except_from-HeldBack same except (r ∷ rs) =
      elim (Bool-cases (overlaps r base && leb (length r.bits) (length base.bits))) [
        | inl h ↦ rw h (inl (rw (covered_by r h) refl))
        | inr h ↦ rw h (
            HeldBack-next r rs except _ same _ (next-covers r except) (
              except_from-HeldBack (bit_eq r.is4 base.is4 || same)
                (if overlaps base r then except ++ r ∷ [] else except) rs))
      ]

  -- For an address of the base block: either exceptFor returns prefixes that contain it exactly when a
  -- reserved prefix does, or it reports the base as covered, and then a reserved prefix contains the
  -- address or no reserved prefix is of the family of the base.
  pub except_for-HeldBack :
      (reserved : List Prefix) → HeldBack base a false [] reserved (except_for base reserved)
  unfolding except_for
  except_for-HeldBack reserved = except_from-HeldBack false [] reserved
