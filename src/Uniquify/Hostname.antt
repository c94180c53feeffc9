-- ===== src/Uniquify/Hostname.antt =====
-- `SanitizeHostname` of internal/uniquify/host.go, over the code points of a name. Go's lower-case
-- mapping of a code point is a parameter. After the replacement each code point is one byte, so `len`
-- and the slice of 63 bytes are those of the list.
use setec.Prelude.{
  ℕ, zero, suc, ◌≤◌, ◌<◌, ◌≡◌, ◌≢◌, inl, inr, Bool, true, List, [], ◌∷◌, map, ◌==◌, ◌&&◌, ◌||◌,
  nat_eq, leb, ltb, length, take, length-take, arith, Bool-cases, if◌then◌else◌,
}

abbrev pub dash : ℕ
dash = b'-'

-- [a-z0-9-]
abbrev pub is_label : ℕ → Bool
is_label c = leb b'a' c && leb c b'z' || leb b'0' c && leb c b'9' || c == dash

abbrev replace : ℕ → ℕ
replace c = if is_label c then c else dash

-- strings.Trim(s, "-").
trim_left : List ℕ → List ℕ
trim_left [] = []
trim_left (c ∷ s) = if c == dash then trim_left s else c ∷ s

keep : ℕ → List ℕ → List ℕ
keep c [] = if c == dash then [] else c ∷ []
keep c (d ∷ s) = c ∷ d ∷ s

trim_right : List ℕ → List ℕ
unfolding keep
trim_right [] = []
trim_right (c ∷ s) = keep c (trim_right s)

trim : List ℕ → List ℕ
unfolding trim_left trim_right
trim s = trim_right (trim_left s)

-- "setec-sandbox"
abbrev fallback : List ℕ
fallback =
    b's' ∷ b'e' ∷ b't' ∷ b'e' ∷ b'c' ∷ b'-' ∷ b's' ∷ b'a' ∷ b'n' ∷ b'd' ∷ b'b' ∷ b'o' ∷ b'x' ∷ []

or_fallback : List ℕ → List ℕ
or_fallback [] = fallback
or_fallback (c ∷ s) = c ∷ s

unfoldable pub sanitize_hostname : (ℕ → ℕ) → List ℕ → List ℕ
unfolding or_fallback trim
sanitize_hostname to_lower name =
    let s = trim (map (λ c. replace (to_lower c)) name) in
    or_fallback (if ltb 63 (length s) then trim (take 63 s) else s)

abbrev pub AllLabel : List ℕ → Type 0
AllLabel [] = Unit
AllLabel (c ∷ s) = (is_label c ≡ true) × AllLabel s

abbrev StartsWell : List ℕ → Type 0
StartsWell [] = Unit
StartsWell (c ∷ s) = c ≢ dash

abbrev EndsWell : List ℕ → Type 0
EndsWell [] = Unit
EndsWell (c ∷ []) = c ≢ dash
EndsWell (c ∷ d ∷ s) = EndsWell (d ∷ s)

-- A valid hostname label: one to 63 characters of [a-z0-9-], no dash at either end.
pub record IsHostname (s : List ℕ) : Type 0 where
  pub chars : AllLabel s
  pub starts : StartsWell s
  pub ends : EndsWell s
  pub non_empty : 0 < length s
  pub short : length s ≤ 63

AllLabel-replace : (to_lower : ℕ → ℕ) (s : List ℕ) → AllLabel (map (λ c. replace (to_lower c)) s)
AllLabel-replace to_lower [] = tt
AllLabel-replace to_lower (c ∷ s) = (ground arith, AllLabel-replace to_lower s)

AllLabel-trim_left : (s : List ℕ) → AllLabel s → AllLabel (trim_left s)
unfolding trim_left
AllLabel-trim_left [] h = tt
AllLabel-trim_left (c ∷ s) h = elim (Bool-cases (c == dash)) [
  | inl e ↦ rw e (AllLabel-trim_left s h.1)
  | inr e ↦ rw e h
]

AllLabel-keep : (c : ℕ) (s : List ℕ) → is_label c ≡ true → AllLabel s → AllLabel (keep c s)
unfolding keep
AllLabel-keep c [] p h = ground arith
AllLabel-keep c (d ∷ s) p h = (p, h)

AllLabel-trim_right : (s : List ℕ) → AllLabel s → AllLabel (trim_right s)
unfolding trim_right
AllLabel-trim_right [] h = tt
AllLabel-trim_right (c ∷ s) h = AllLabel-keep c (trim_right s) h.0 (AllLabel-trim_right s h.1)

AllLabel-take : (n : ℕ) (s : List ℕ) → AllLabel s → AllLabel (take n s)
AllLabel-take zero s h = tt
AllLabel-take (suc n) [] h = tt
AllLabel-take (suc n) (c ∷ s) h = (h.0, AllLabel-take n s h.1)

StartsWell-trim_left : (s : List ℕ) → StartsWell (trim_left s)
unfolding trim_left
StartsWell-trim_left [] = tt
StartsWell-trim_left (c ∷ s) = elim (Bool-cases (c == dash)) [
  | inl e ↦ rw e (StartsWell-trim_left s)
  | inr e ↦ rw e (ground arith)
]

StartsWell-keep : (c : ℕ) (s : List ℕ) → c ≢ dash → StartsWell (keep c s)
unfolding keep
StartsWell-keep c [] h = ground arith
StartsWell-keep c (d ∷ s) h = h

StartsWell-trim_right : (s : List ℕ) → StartsWell s → StartsWell (trim_right s)
unfolding trim_right
StartsWell-trim_right [] h = tt
StartsWell-trim_right (c ∷ s) h = StartsWell-keep c (trim_right s) h

EndsWell-keep : (c : ℕ) (s : List ℕ) → EndsWell s → EndsWell (keep c s)
unfolding keep
EndsWell-keep c [] h = ground arith
EndsWell-keep c (d ∷ s) h = h

EndsWell-trim_right : (s : List ℕ) → EndsWell (trim_right s)
unfolding trim_right
EndsWell-trim_right [] = tt
EndsWell-trim_right (c ∷ s) = EndsWell-keep c (trim_right s) (EndsWell-trim_right s)

length-keep : (c : ℕ) (s : List ℕ) → length (keep c s) ≤ suc (length s)
unfolding keep
length-keep c [] = ground arith
length-keep c (d ∷ s) = omega arith

length-trim_right : (s : List ℕ) → length (trim_right s) ≤ length s
unfolding trim_right
length-trim_right [] = omega arith
length-trim_right (c ∷ s) = omega (arith, length-keep c (trim_right s), length-trim_right s)

length-trim_left : (s : List ℕ) → length (trim_left s) ≤ length s
unfolding trim_left
length-trim_left [] = omega arith
length-trim_left (c ∷ s) = ground (arith, length-trim_left s)

length-trim : (s : List ℕ) → length (trim s) ≤ length s
unfolding trim
length-trim s = omega (arith, length-trim_right (trim_left s), length-trim_left s)

AllLabel-trim : (s : List ℕ) → AllLabel s → AllLabel (trim s)
unfolding trim
AllLabel-trim s h = AllLabel-trim_right (trim_left s) (AllLabel-trim_left s h)

StartsWell-trim : (s : List ℕ) → StartsWell (trim s)
unfolding trim
StartsWell-trim s = StartsWell-trim_right (trim_left s) (StartsWell-trim_left s)

EndsWell-trim : (s : List ℕ) → EndsWell (trim s)
unfolding trim
EndsWell-trim s = EndsWell-trim_right (trim_left s)

IsHostname-or_fallback :
    (s : List ℕ)
    → AllLabel s
    → StartsWell s
    → EndsWell s
    → length s ≤ 63
    → IsHostname (or_fallback s)
unfolding or_fallback
IsHostname-or_fallback [] a b e l = record {
  chars = ground arith;
  starts = omega arith;
  ends = omega arith;
  non_empty = omega arith;
  short = omega arith;
}
IsHostname-or_fallback (c ∷ s) a b e l = record {
  chars = a;
  starts = b;
  ends = e;
  non_empty = omega arith;
  short = l;
}

-- Whatever the name is, and whatever the lower-case mapping does, the hostname that a guest is
-- directed to take is a valid label: one to 63 characters of [a-z0-9-] with no dash at either end.
pub sanitize_hostname-IsHostname :
    (to_lower : ℕ → ℕ) (name : List ℕ) → IsHostname (sanitize_hostname to_lower name)
unfolding sanitize_hostname
sanitize_hostname-IsHostname to_lower name =
    let raw = map (λ c. replace (to_lower c)) name in
    let s = trim raw in
    let labels : AllLabel s = AllLabel-trim raw (AllLabel-replace to_lower name) in
    elim (Bool-cases (ltb 63 (length s))) [
      | inl long ↦ rw long (
          IsHostname-or_fallback (trim (take 63 s))
            (AllLabel-trim (take 63 s) (AllLabel-take 63 s labels)) (StartsWell-trim (take 63 s))
            (EndsWell-trim (take 63 s)) (omega (arith, length-trim (take 63 s), length-take 63 s)))
      | inr fits ↦
          rw fits (
            IsHostname-or_fallback s labels (StartsWell-trim raw) (EndsWell-trim raw)
              (ground arith))
    ]
