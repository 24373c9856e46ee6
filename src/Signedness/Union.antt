-- ===== src/Signedness/Union.antt =====
-- `UnionVocabularySignedness`.
use sound_bit_precise_domain.Prelude.{
  ◌≡◌, refl, ap₂, ◌∙◌, Bool, true, Option, none, some, [], ◌∷◌, arith, ok,
}
use sound_bit_precise_domain.Container.SortedMap.{IsMap, find, insert, first}
use sound_bit_precise_domain.Dimension.Key.{DimensionKey, key_ord}
use sound_bit_precise_domain.Signedness.{
  VocabularySignedness, keep_into, union_signedness, union_first, union_check, find_from,
}
use sound_bit_precise_domain.Signedness.Lookup.{select, find-keep_into, keep_into-IsMap}

select_all : (q : DimensionKey) (o : Option Bool) → select (λ e. true) q o ≡ o
select_all q none = refl
select_all q (some b) = refl

-- What `find_from` finds has the sign that was looked for, so the check never fails.
union_check_holds :
    (k : DimensionKey) (s : Bool) (m : VocabularySignedness)
    → union_check s (find_from (k, s) m) ≡ true
unfolding find_from union_check
union_check_holds k s [] = refl
union_check_holds k s ((j, t) ∷ m) = ground (arith, union_check_holds k s m)

union_first-eq-keep :
    (m v2 r : VocabularySignedness) → union_first m v2 r ≡ ok (keep_into (λ e. true) m r)
unfolding union_first keep_into
union_first-eq-keep [] v2 r = refl
union_first-eq-keep ((k, s) ∷ m) v2 r =
    rw (union_check_holds k s v2) (union_first-eq-keep m v2 (insert k s r))

-- For two maps the union never fails its assert, and its result is a map in which the sign of the
-- first map wins. The assert looks for an entry of the same sign, so it also lets two maps pass
-- that disagree on a sign.
pub union_signedness_total :
    (q : DimensionKey) (v1 v2 : VocabularySignedness)
    → IsMap v1
    → IsMap v2
    → (u : VocabularySignedness) × (union_signedness v1 v2 ≡ ok u)
      × IsMap u
      × (find q u ≡ first (find q v1) (find q v2))
unfolding union_signedness find
union_signedness_total q v1 v2 s t =
    let r = keep_into (λ e. true) v1 [] in
    let r-IsMap : IsMap r = keep_into-IsMap _ v1 [] tt in
    (
      keep_into (λ e. true) v2 r,
      rw (union_first-eq-keep v1 v2 []),
      keep_into-IsMap _ v2 r r-IsMap,
      find-keep_into (λ e. true) q v2 r t r-IsMap
          ∙ ap₂ first (find-keep_into (λ e. true) q v1 [] s tt ∙ select_all q (find q v1))
              (select_all q (find q v2)),
    )
