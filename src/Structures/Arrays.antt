-- ===== src/Structures/Arrays.antt =====
-- src/discord/disco.c: an array that was read is the conversions of the elements, whether it is empty or not.
use disco_c.Prelude.{suc, ◌≡◌, refl, false, List, [], ◌∷◌, map, arith, length, ◌==◌}
use disco_c.Json.{CJson, convert_all}
use disco_c.Structures.Embed.{array_of}

module _ {J A : Type 0} (json : CJson J) where
  pub array_of-convert_all :
      (convert : J → A) (elements : List J)
      → array_of (convert_all json convert elements) ≡ map convert elements
  unfolding array_of convert_all
  array_of-convert_all convert [] = refl
  array_of-convert_all convert (v ∷ elements) =
      let e : (suc (length elements) == 0) ≡ false = ground arith in rw e refl
