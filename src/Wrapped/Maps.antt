-- ===== src/Wrapped/Maps.antt =====
-- Records that are maps stay maps, and what a new entry changes.
use sound_bit_precise_domain.Prelude.{◌≡◌, refl, Bool, true, [], ◌∷◌, arith, some}
use sound_bit_precise_domain.Container.{eq_of_eqb, eqb_refl}
use sound_bit_precise_domain.Container.SortedMap.{
  IsMap, find, assign, first, find-assign, insert-IsMap, find-Above_self,
}
use sound_bit_precise_domain.Dimension.Key.{DimensionKey, key_ord}
use sound_bit_precise_domain.Dimension.Vocabulary.{Vocabulary}
use sound_bit_precise_domain.Dimension.Versions.{VersionMap, replace_versions}
use sound_bit_precise_domain.Signedness.{
  VocabularySignedness, intersect_signedness, subtract_signedness, intersect_with_vocabulary,
}
use sound_bit_precise_domain.Signedness.Lookup.{signedness_cut_exact, vocabulary_cut_exact}
use sound_bit_precise_domain.Value.{one}
use sound_bit_precise_domain.Wrapped.Update.{Extends}
use sound_bit_precise_domain.Wrapped.Lattice.{rename_into, voc_eq}

pub keep_entry :
    (q k : DimensionKey) (s t : Bool) (vs m n : VocabularySignedness)
    → IsMap ((k, s) ∷ vs)
    → Extends m n
    → first (find q ((k, s) ∷ vs)) (find q m) ≡ some t
    → first (find q vs) (find q (assign k s n)) ≡ some t
unfolding find
keep_entry q k s t vs m n u h e =
    ground
      (arith, find-assign q k s n h.sorted, find-Above_self k vs u.0, eq_of_eqb q k, h.keeps q t)

-- A key to instantiate the lemmas at that have one.
abbrev pub some_key : DimensionKey
some_key = record { name = []; ver = 0; bitsize = one }

pub intersect_signedness-IsMap :
    (v w : VocabularySignedness) → IsMap v → IsMap w → IsMap (intersect_signedness v w)
intersect_signedness-IsMap v w h k = (signedness_cut_exact some_key v w h k).2

pub subtract_signedness-IsMap :
    (v w : VocabularySignedness) → IsMap v → IsMap w → IsMap (subtract_signedness v w)
subtract_signedness-IsMap v w h k = (signedness_cut_exact some_key v w h k).3

pub intersect_with_vocabulary-IsMap :
    (m : VocabularySignedness) (v : Vocabulary) → IsMap m → IsMap (intersect_with_vocabulary m v)
intersect_with_vocabulary-IsMap m v h = (vocabulary_cut_exact some_key m v h).2

pub rename_into-IsMap :
    (vm : VersionMap) (m new : VocabularySignedness) → IsMap new → IsMap (rename_into vm m new)
unfolding rename_into
rename_into-IsMap vm [] new h = h
rename_into-IsMap vm ((k, s) ∷ m) new h =
    rename_into-IsMap vm m _ (insert-IsMap (replace_versions k vm) s new h)

pub voc_eq_refl : (v : Vocabulary) → voc_eq v v ≡ true
unfolding voc_eq
voc_eq_refl [] = refl
voc_eq_refl (k ∷ v) = ground (arith, eqb_refl k, voc_eq_refl v)
