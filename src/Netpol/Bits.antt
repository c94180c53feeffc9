-- ===== src/Netpol/Bits.antt =====
-- Lists of leading bits, and the siblings that a cut keeps.
use setec.Prelude.{
  ℕ, zero, suc, ◌+◌, ◌-◌, ◌<◌, ◌≤◌, ◌≡◌, refl, sym, ap, ◌∙◌, Bool, true, false, List, [], ◌∷◌, ◌++◌,
  ◌&&◌, ◌||◌, not, ltb, length, length-append, arith,
}
use setec.Netpol.{
  bit_eq, starts, Prefix, Address, contains_address, overlaps, half, siblings, covers,
}

append-append {ℓ} : {A : Type ℓ} (xs ys zs : List A) → (xs ++ ys) ++ zs ≡ xs ++ (ys ++ zs)
append-append [] ys zs = refl
append-append (x ∷ xs) ys zs = ap (λ l. x ∷ l) (append-append xs ys zs)

bit_eq_refl : (b : Bool) → bit_eq b b ≡ true
bit_eq_refl true = refl
bit_eq_refl false = refl

-- An address that is longer than cur lies in one half of it.
starts-halves :
    (cur r a : List Bool) (b : Bool)
    → length cur < length a
    → (starts (cur ++ not b ∷ []) a || (starts (cur ++ b ∷ []) a && not (starts (cur ++ b ∷ r) a)))
      ≡ (starts cur a && not (starts (cur ++ b ∷ r) a))
starts-halves [] r [] b l = absurd (omega (arith, l))
starts-halves [] r (y ∷ a) b l = ground arith
starts-halves (x ∷ cur) r [] b l = absurd (omega (arith, l))
starts-halves (x ∷ cur) r (y ∷ a) b l =
    let ih = starts-halves cur r a b (omega (arith, l)) in ground arith

-- Which half overlaps what lies below cur.
low-half :
    (cur r : List Bool) (b : Bool)
    → (starts (cur ++ false ∷ []) (cur ++ b ∷ r) || starts (cur ++ b ∷ r) (cur ++ false ∷ []))
      ≡ not b
low-half [] r b = ground arith
low-half (x ∷ cur) r b = let ih = low-half cur r b in let e = bit_eq_refl x in rw e (ground arith)

-- Two prefixes of one address overlap.
pub starts-both :
    (p q a : List Bool) → starts p a ≡ true → starts q a ≡ true → (starts p q || starts q p) ≡ true
starts-both [] q a h k = refl
starts-both (x ∷ p) [] a h k = ground arith
starts-both (x ∷ p) (y ∷ q) [] h k = absurd (ground arith)
starts-both (x ∷ p) (y ∷ q) (z ∷ a) h k = let ih = starts-both p q a in ground arith

pub starts_trans : (p q a : List Bool) → starts p q ≡ true → starts q a ≡ true → starts p a ≡ true
starts_trans [] q a h k = refl
starts_trans (x ∷ p) [] a h k = absurd (ground arith)
starts_trans (x ∷ p) (y ∷ q) [] h k = absurd (ground arith)
starts_trans (x ∷ p) (y ∷ q) (z ∷ a) h k = let ih = starts_trans p q a in ground arith

-- Of two that overlap, the shorter is where the longer starts.
pub shorter-starts :
    (p q : List Bool) → (starts p q || starts q p) ≡ true → length q ≤ length p → starts q p ≡ true
shorter-starts p [] h l = refl
shorter-starts [] (y ∷ q) h l = absurd (omega (arith, l))
shorter-starts (x ∷ p) (y ∷ q) h l = let ih = shorter-starts p q in ground arith

-- What is left of a list after where it starts.
pub starts-rest :
    (p q : List Bool)
    → starts p q ≡ true
    → (r : List Bool) × (q ≡ p ++ r) × (length r ≡ length q - length p)
starts-rest [] q h = (q, refl, omega arith)
starts-rest (x ∷ p) [] h = absurd (ground arith)
starts-rest (x ∷ p) (y ∷ q) h =
    let (r, e, l) = starts-rest p q (ground arith) in
    let same : x ≡ y = ground arith in (r, rw (same, e) refl, omega (arith, l))

append-nil : (xs : List Bool) → xs ++ [] ≡ xs
append-nil [] = refl
append-nil (x ∷ xs) = ap (λ l. x ∷ l) (append-nil xs)

not_both : (x : Bool) → (x && not x) ≡ false
not_both true = refl
not_both false = refl

not-not : (x : Bool) → not (not x) ≡ x
not-not true = refl
not-not false = refl

-- An equation on bits, for prefixes of one family.
with_family :
    (c h d low next cur hole : Bool)
    → c ≡ h
    → (low || (next && not hole)) ≡ (cur && not hole)
    → (bit_eq c d && low || (bit_eq c d && next && not (bit_eq h d && hole)))
      ≡ (bit_eq c d && cur && not (bit_eq h d && hole))
with_family c h d low next cur hole f e = ground arith

low-overlaps :
    (cur hole : Prefix) (r : List Bool) (b : Bool)
    → cur.is4 ≡ hole.is4
    → hole.bits ≡ cur.bits ++ b ∷ r
    → overlaps (half cur false) hole ≡ not b
unfolding overlaps
low-overlaps cur hole r b f e = rw (f, e, bit_eq_refl hole.is4) (low-half cur.bits r b)

siblings-none :
    (cur hole : Prefix) (a : Address)
    → cur.is4 ≡ hole.is4
    → hole.bits ≡ cur.bits ++ []
    → false ≡ (contains_address cur a && not (contains_address hole a))
unfolding contains_address
siblings-none cur hole a f e =
    rw (f, e, append-nil cur.bits)
      (sym (not_both (bit_eq hole.is4 a.is4 && starts cur.bits a.bits)))

-- One round of the loop, when the half that leads to the hole is that of b.
siblings-step :
    (n : ℕ) (cur hole : Prefix) (b : Bool)
    → overlaps (half cur false) hole ≡ not b
    → length cur.bits < length hole.bits
    → siblings (suc n) cur hole ≡ half cur (not b) ∷ siblings n (half cur b) hole
unfolding siblings
siblings-step n cur hole b low l =
    let t : ltb (length cur.bits) (length hole.bits) ≡ true = ground arith in
    rw (t, low, not-not b) refl

-- The kept siblings contain what the prefix contains and the hole does not.
pub siblings-covers :
    (n : ℕ) (cur hole : Prefix) (r : List Bool) (a : Address)
    → cur.is4 ≡ hole.is4
    → hole.bits ≡ cur.bits ++ r
    → length r ≡ n
    → length hole.bits ≤ length a.bits
    → covers (siblings n cur hole) a ≡ (contains_address cur a && not (contains_address hole a))
siblings-covers zero cur hole [] a f e l w = unfold siblings in siblings-none cur hole a f e
siblings-covers zero cur hole (b ∷ r) a f e l w = absurd (omega (arith, l))
siblings-covers (suc n) cur hole [] a f e l w = absurd (omega (arith, l))
siblings-covers (suc n) cur hole (b ∷ r) a f e l w =
    let long : length hole.bits ≡ length cur.bits + suc (length r) =
      ap length e ∙ length-append cur.bits (b ∷ r) in
    let next : hole.bits ≡ (half cur b).bits ++ r = e ∙ sym (append-append cur.bits (b ∷ []) r) in
    let ih = siblings-covers n (half cur b) hole r a f next (omega (arith, l)) w in
    let two = starts-halves cur.bits r a.bits b (omega (arith, long, w)) in
    rw (siblings-step n cur hole b (low-overlaps cur hole r b f e) (omega (arith, long)), ih)
      (unfold contains_address in with_family cur.is4 hole.is4 a.is4 _ _ _ _ f (rw e two))
