-- ===== src/Netpol.antt =====
-- internal/netpol/generator.go: the arithmetic on address blocks that decides which cluster addresses a
-- rule holds back. A masked netip.Prefix is its family and its leading bits, and an address its family
-- and all its bits. Parsing and printing prefixes, and IPv4
-- addresses mapped into IPv6, are left out.
pub mod Bits
pub mod Exempt
pub mod Except
mod Tests
use setec.Prelude.{
  ℕ, zero, suc, ◌-◌, Bool, true, false, String, Option, none, some, List, [], ◌∷◌, ◌++◌, ◌&&◌, ◌||◌,
  not, ltb, leb, length, any, is_some, if◌then◌else◌,
}

abbrev pub bit_eq : Bool → Bool → Bool
bit_eq true b = b
bit_eq false b = not b

-- Two lists of leading bits: the first is where the second starts.
abbrev pub starts : List Bool → List Bool → Bool
starts [] ys = true
starts (x ∷ xs) [] = false
starts (x ∷ xs) (y ∷ ys) = bit_eq x y && starts xs ys

pub record Prefix : Type 0 where
  pub is4 : Bool
  pub bits : List Bool

pub record Address : Type 0 where
  pub is4 : Bool
  pub bits : List Bool

-- Prefix.Contains and Prefix.Overlaps.
unfoldable pub contains_address : Prefix → Address → Bool
contains_address p a = bit_eq p.is4 a.is4 && starts p.bits a.bits

unfoldable pub overlaps : Prefix → Prefix → Bool
overlaps p q = bit_eq p.is4 q.is4 && (starts p.bits q.bits || starts q.bits p.bits)

-- One half of a prefix: splitPrefix returns that of bit 0 and that of bit 1.
abbrev pub half : Prefix → Bool → Prefix
half p b = record { is4 = p.is4; bits = p.bits ++ b ∷ [] }

-- The loop from cur down to hole, with the siblings that it keeps. The fuel is the difference of the
-- two lengths, and each round makes cur one bit longer.
unfoldable pub siblings : ℕ → Prefix → Prefix → List Prefix
unfolding overlaps
siblings zero cur hole = []
siblings (suc n) cur hole =
    let low = overlaps (half cur false) hole in
    let rest = siblings n (half cur (not low)) hole in
    if ltb (length cur.bits) (length hole.bits) then half cur low ∷ rest else []

unfoldable pub cut_one : Prefix → Prefix → List Prefix
unfolding siblings
cut_one hole p =
    if not (overlaps p hole)
    then p ∷ []
    else if leb (length hole.bits) (length p.bits)
    then []
    else siblings (length hole.bits - length p.bits) p hole

unfoldable pub cut_prefix : List Prefix → Prefix → List Prefix
unfolding cut_one
cut_prefix [] hole = []
cut_prefix (p ∷ set) hole = cut_one hole p ++ cut_prefix set hole

-- The pieces of a reserved prefix: subtractExempt cuts each exemption from those that are left.
unfoldable pub cut_all : List Prefix → List Prefix → List Prefix
cut_all pieces [] = pieces
cut_all pieces (e ∷ exempt) = cut_all (cut_prefix pieces e) exempt

-- The loop of exceptFor over what is left of the reserved list: whether a prefix of the family of the
-- base was seen, and the prefixes to subtract. `none` stands for `covered`.
unfoldable pub except_from : Prefix → Bool → List Prefix → List Prefix → Option (List Prefix)
unfolding overlaps
except_from base same_family except [] = if not same_family then none else some except
except_from base same_family except (r ∷ reserved) =
    let next = if overlaps base r then except ++ r ∷ [] else except in
    let rest = except_from base (bit_eq r.is4 base.is4 || same_family) next reserved in
    if overlaps r base && leb (length r.bits) (length base.bits) then none else rest

unfoldable pub except_for : Prefix → List Prefix → Option (List Prefix)
unfolding except_from
except_for base reserved = except_from base false [] reserved

-- Some prefix of the list contains the address.
abbrev pub covers : List Prefix → Address → Bool
covers [] a = false
covers (p ∷ ps) a = contains_address p a || covers ps a
