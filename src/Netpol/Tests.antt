-- ===== src/Netpol/Tests.antt =====
-- Blocks of four bits in place of 32, and the theorems at them.
use setec.Prelude.{◌≡◌, inr, refl, Bool, true, false, none, List, [], ◌∷◌, ◌&&◌, not, arith}
use setec.Netpol.{Prefix, Address, overlaps, cut_one, cut_prefix, cut_all, except_for, covers}
use setec.Netpol.Exempt.{cut_all-covers}
use setec.Netpol.Except.{HeldBack, except_for-HeldBack}

abbrev block : List Bool → Prefix
block bits = record { is4 = true; bits = bits }

abbrev address : Address
address = record { is4 = true; bits = true ∷ false ∷ true ∷ false ∷ [] }

-- 1/1 without 101/3 is 11/2 and 100/3.
two_siblings :
    cut_all (block (true ∷ []) ∷ []) (block (true ∷ false ∷ true ∷ []) ∷ [])
    ≡ block (true ∷ true ∷ []) ∷ block (true ∷ false ∷ false ∷ []) ∷ []
unfolding cut_all cut_prefix cut_one overlaps setec.Netpol.siblings
two_siblings = refl

covered_by_itself : except_for (block (true ∷ [])) (block (true ∷ []) ∷ []) ≡ none
unfolding except_for overlaps setec.Netpol.except_from
covered_by_itself = refl

cut_all-covers_example :
    covers (cut_all (block (true ∷ []) ∷ []) (block (true ∷ false ∷ true ∷ []) ∷ [])) address ≡ (
      covers (block (true ∷ []) ∷ []) address
      && not (covers (block (true ∷ false ∷ true ∷ []) ∷ []) address))
cut_all-covers_example =
    cut_all-covers address (block (true ∷ []) ∷ []) (block (true ∷ false ∷ true ∷ []) ∷ [])
      (inr (omega arith), tt)

except_for-HeldBack_example :
    HeldBack
      (block (true ∷ []))
      address
      false
      []
      (block (true ∷ false ∷ true ∷ []) ∷ [])
      (except_for (block (true ∷ [])) (block (true ∷ false ∷ true ∷ []) ∷ []))
unfolding setec.Netpol.contains_address
except_for-HeldBack_example =
    except_for-HeldBack (block (true ∷ [])) address refl (block (true ∷ false ∷ true ∷ []) ∷ [])
