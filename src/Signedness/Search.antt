-- ===== src/Signedness/Search.antt =====
-- The moving iterator of the signedness maps finds what a search from the beginning finds.
use sound_bit_precise_domain.Prelude.{
  ◌≡◌, refl, ap, ◌∙◌, Bool, true, false, not, ◌||◌, [], ◌∷◌, All, arith, inl, inr, Bool-cases,
  if◌then◌else◌,
}
use sound_bit_precise_domain.Container.{eq_of_eqb, Above}
use sound_bit_precise_domain.Container.SortedMap.{keys, IsMap}
use sound_bit_precise_domain.Dimension.Key.{DimensionKey, key_ord}
use sound_bit_precise_domain.Signedness.{
  VocabularySignedness, entry_eq, find_from, keep_into, found, moved, intersect_from, subtract_from,
  intersect_signedness, subtract_signedness,
}

swap_if {ℓ} : {A : Type ℓ} (x y : A) (b : Bool) → (if b then x else y) ≡ (if not b then y else x)
swap_if x y true = refl
swap_if x y false = refl

-- The range holds the entry.
unfoldable pub has_entry : DimensionKey × Bool → VocabularySignedness → Bool
has_entry e [] = false
has_entry e (f ∷ m) = entry_eq e f || has_entry e m

-- An entry that is there has a key above all that is below the range.
lt_of_has_entry :
    (a : DimensionKey) (e : DimensionKey × Bool) (m : VocabularySignedness)
    → Above a (keys m)
    → has_entry e m ≡ true
    → key_ord.lt a e.0 ≡ true
unfolding has_entry
lt_of_has_entry a e [] u h = cc
lt_of_has_entry a e (f ∷ m) u h = ground (arith, lt_of_has_entry a e m u.1, eq_of_eqb e.0 f.0)

skip : (f g : DimensionKey × Bool) (b : Bool) → key_ord.lt g.0 f.0 ≡ true → b ≡ (entry_eq f g || b)
skip f g b h = ground arith

-- What `find_from` leaves holds the same entries of larger keys.
has_entry-find_from :
    (e f : DimensionKey × Bool) (m : VocabularySignedness)
    → IsMap m
    → has_entry e m ≡ true
    → key_ord.lt e.0 f.0 ≡ true
    → has_entry f (find_from e m) ≡ has_entry f m
unfolding has_entry find_from
has_entry-find_from e f [] s h lt = refl
has_entry-find_from e f (g ∷ m) s h lt = elim (Bool-cases (entry_eq e g)) [
  | inl found ↦ rw found
  | inr other ↦
      let later : has_entry e m ≡ true = ground arith in
      let below : key_ord.lt g.0 f.0 ≡ true =
        key_ord.trans g.0 e.0 f.0 (lt_of_has_entry g.0 e m s.0 later) lt in
      rw other (has_entry-find_from e f m s.1 later lt ∙ skip f g (has_entry f m) below)
]

find_from-IsMap :
    (e : DimensionKey × Bool) (m : VocabularySignedness) → IsMap m → IsMap (find_from e m)
unfolding find_from
find_from-IsMap e [] s = tt
find_from-IsMap e (g ∷ m) s = ground (arith, find_from-IsMap e m s.1)

-- The search succeeds exactly where the range holds the entry.
pub found-find_from :
    (e : DimensionKey × Bool) (m : VocabularySignedness) → found (find_from e m) ≡ has_entry e m
unfolding has_entry find_from
found-find_from e [] = refl
found-find_from e (g ∷ m) = ground (arith, found-find_from e m)

moved-IsMap :
    (e : DimensionKey × Bool) (it2 : VocabularySignedness)
    → IsMap it2
    → IsMap (moved (find_from e it2) it2)
moved-IsMap e it2 s = ground (arith, find_from-IsMap e it2 s)

-- The iterator that the loops go on with answers for larger keys as the old one does.
has_entry-moved :
    (e f : DimensionKey × Bool) (it2 : VocabularySignedness)
    → IsMap it2
    → key_ord.lt e.0 f.0 ≡ true
    → has_entry f (moved (find_from e it2) it2) ≡ has_entry f it2
has_entry-moved e f it2 s h = ground (arith, has_entry-find_from e f it2 s, found-find_from e it2)

-- The iterator answers for the remaining entries as the whole range does.
abbrev Agrees : VocabularySignedness → VocabularySignedness → VocabularySignedness → Type 0
Agrees m it2 v2 = All (λ e. has_entry e it2 ≡ has_entry e v2) m

Agrees-moved :
    (e : DimensionKey × Bool) (m it2 v2 : VocabularySignedness)
    → IsMap it2
    → Above e.0 (keys m)
    → Agrees m it2 v2
    → Agrees m (moved (find_from e it2) it2) v2
Agrees-moved e [] it2 v2 s u a = tt
Agrees-moved e (f ∷ m) it2 v2 s u a =
    (has_entry-moved e f it2 s u.0 ∙ a.0, Agrees-moved e m it2 v2 s u.1 a.1)

Agrees-refl : (m v2 : VocabularySignedness) → Agrees m v2 v2
Agrees-refl [] v2 = tt
Agrees-refl (e ∷ m) v2 = (refl, Agrees-refl m v2)

intersect_from-eq-keep :
    (m it2 v2 result : VocabularySignedness)
    → IsMap m
    → IsMap it2
    → Agrees m it2 v2
    → intersect_from m it2 result ≡ keep_into (λ e. has_entry e v2) m result
unfolding intersect_from keep_into
intersect_from-eq-keep [] it2 v2 result s t a = refl
intersect_from-eq-keep ((k, b) ∷ m) it2 v2 result s t a =
    rw (found-find_from (k, b) it2, a.0)
      (intersect_from-eq-keep m (moved (find_from (k, b) it2) it2) v2 _ s.1
        (moved-IsMap (k, b) it2 t) (Agrees-moved (k, b) m it2 v2 t s.0 a.1))

subtract_from-eq-keep :
    (m it2 v2 result : VocabularySignedness)
    → IsMap m
    → IsMap it2
    → Agrees m it2 v2
    → subtract_from m it2 result ≡ keep_into (λ e. not (has_entry e v2)) m result
unfolding subtract_from keep_into
subtract_from-eq-keep [] it2 v2 result s t a = refl
subtract_from-eq-keep ((k, b) ∷ m) it2 v2 result s t a =
    rw (found-find_from (k, b) it2, a.0)
      (subtract_from-eq-keep m (moved (find_from (k, b) it2) it2) v2 _ s.1
          (moved-IsMap (k, b) it2 t) (Agrees-moved (k, b) m it2 v2 t s.0 a.1)
        ∙ ap (keep_into (λ e. not (has_entry e v2)) m) (swap_if _ _ (has_entry (k, b) v2)))

pub intersect_signedness-eq-keep :
    (v1 v2 : VocabularySignedness)
    → IsMap v1
    → IsMap v2
    → intersect_signedness v1 v2 ≡ keep_into (λ e. has_entry e v2) v1 []
unfolding intersect_signedness
intersect_signedness-eq-keep v1 v2 s t = intersect_from-eq-keep v1 v2 v2 [] s t (Agrees-refl v1 v2)

pub subtract_signedness-eq-keep :
    (v1 v2 : VocabularySignedness)
    → IsMap v1
    → IsMap v2
    → subtract_signedness v1 v2 ≡ keep_into (λ e. not (has_entry e v2)) v1 []
unfolding subtract_signedness
subtract_signedness-eq-keep v1 v2 s t = subtract_from-eq-keep v1 v2 v2 [] s t (Agrees-refl v1 v2)
