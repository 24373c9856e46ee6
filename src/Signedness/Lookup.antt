-- ===== src/Signedness/Lookup.antt =====
-- What a dimension reads in the signedness maps that the static functions build.
use sound_bit_precise_domain.Prelude.{
  ◌≡◌, refl, sym, ap, subst, ◌∙◌, Bool, true, false, not, Option, none, some, [], ◌∷◌, arith,
  if◌then◌else◌,
}
use sound_bit_precise_domain.Container.{eqb, eq_of_eqb, Above}
use sound_bit_precise_domain.Container.SortedSet.{contains}
use sound_bit_precise_domain.Container.SortedMap.{
  keys, IsMap, find, insert, find-insert, insert-IsMap, find-Above_self, first, at_key,
}
use sound_bit_precise_domain.Dimension.Key.{DimensionKey, key_ord}
use sound_bit_precise_domain.Dimension.Vocabulary.{Vocabulary}
use sound_bit_precise_domain.Signedness.{
  VocabularySignedness, same_sign, keep_into, intersect_signedness, subtract_signedness,
  intersect_with_vocabulary, subtract_vocabulary,
}
use sound_bit_precise_domain.Signedness.Search.{
  has_entry, intersect_signedness-eq-keep, subtract_signedness-eq-keep,
}

-- A sign that passes a test.
abbrev pub select : (DimensionKey × Bool → Bool) → DimensionKey → Option Bool → Option Bool
select test q none = none
select test q (some s) = if test (q, s) then some s else none

-- The signs of the two maps where they agree, and of the first where the second does not.
abbrev pub agreed : Option Bool → Option Bool → Option Bool
agreed none t = none
agreed (some s) none = none
agreed (some s) (some t) = if same_sign s t then some s else none

abbrev pub unmatched : Option Bool → Option Bool → Option Bool
unmatched none t = none
unmatched (some s) none = some s
unmatched (some s) (some t) = if same_sign s t then none else some s

first_assoc : (a b c : Option Bool) → first (first a b) c ≡ first a (first b c)
first_assoc none b c = refl
first_assoc (some a) b c = refl

first-none : (a : Option Bool) → first a none ≡ a
first-none none = refl
first-none (some a) = refl

pub keep_into-IsMap :
    (test : DimensionKey × Bool → Bool) (m r : VocabularySignedness)
    → IsMap r
    → IsMap (keep_into test m r)
unfolding keep_into
keep_into-IsMap test [] r s = s
keep_into-IsMap test ((k, b) ∷ m) r s =
    keep_into-IsMap test m _ (ground (arith, insert-IsMap k b r))

same_test :
    (test : DimensionKey × Bool → Bool) (q k : DimensionKey) (b : Bool)
    → eqb q k ≡ true
    → test (q, b) ≡ test (k, b)
same_test test q k b h = ap (λ j. test (j, b)) (eq_of_eqb q k h)

-- One entry of the loop, as the selection at the entry's key.
select_entry :
    (test : DimensionKey × Bool → Bool) (q k : DimensionKey) (b : Bool) (r m : Option Bool)
    → (eqb q k ≡ true → m ≡ none)
    → first (if test (k, b) then first r (at_key (eqb q k) (some b) none) else r) (select test q m)
      ≡ first r (select test q (if eqb q k then some b else m))
select_entry test q k b r m h = ground (arith, same_test test q k b)

find_step :
    (test : DimensionKey × Bool → Bool) (q k : DimensionKey) (b : Bool) (r : VocabularySignedness)
    → IsMap r
    → find q (if test (k, b) then insert k b r else r)
      ≡ (if test (k, b) then first (find q r) (at_key (eqb q k) (some b) none) else find q r)
find_step test q k b r t = ground (arith, find-insert q k b r t)

find_at_head :
    (q k : DimensionKey) (m : VocabularySignedness)
    → Above k (keys m)
    → eqb q k ≡ true
    → find q m ≡ none
find_at_head q k m u h =
    subst (λ j. find j m ≡ none) (sym (eq_of_eqb q k h)) (find-Above_self k m u)

pub find-keep_into :
    (test : DimensionKey × Bool → Bool) (q : DimensionKey) (m r : VocabularySignedness)
    → IsMap m
    → IsMap r
    → find q (keep_into test m r) ≡ first (find q r) (select test q (find q m))
unfolding keep_into find
find-keep_into test q [] r s t = sym (first-none (find q r))
find-keep_into test q ((k, b) ∷ m) r s t =
    find-keep_into test q m _ s.1 (ground (arith, insert-IsMap k b r))
    ∙ ap (λ o. first o (select test q (find q m))) (find_step test q k b r t)
    ∙ select_entry test q k b (find q r) (find q m) (find_at_head q k m s.0)

-- The sign of `q` in the map, compared with `b`.
abbrev is_sign : Bool → Option Bool → Bool
is_sign b none = false
is_sign b (some c) = same_sign b c

has_entry-find :
    (q : DimensionKey) (b : Bool) (m : VocabularySignedness)
    → IsMap m
    → has_entry (q, b) m ≡ is_sign b (find q m)
unfolding has_entry find
has_entry-find q b [] s = refl
has_entry-find q b ((k, c) ∷ m) s = ground (arith, has_entry-find q b m s.1, find_at_head q k m s.0)

select-agreed :
    (q : DimensionKey) (v2 : VocabularySignedness)
    → IsMap v2
    → (o : Option Bool) → first none (select (λ e. has_entry e v2) q o) ≡ agreed o (find q v2)
select-agreed q v2 t none = refl
select-agreed q v2 t (some b) = ground (arith, has_entry-find q b v2 t)

select-unmatched :
    (q : DimensionKey) (v2 : VocabularySignedness)
    → IsMap v2
    → (o : Option Bool)
    → first none (select (λ e. not (has_entry e v2)) q o) ≡ unmatched o (find q v2)
select-unmatched q v2 t none = refl
select-unmatched q v2 t (some b) = ground (arith, has_entry-find q b v2 t)

-- With the iterator that only moves forward, the intersection holds exactly the dimensions that
-- both maps hold with the same sign, with that sign, and the difference those of the first map
-- that the second does not hold with the same sign. Both arguments are maps, and so are the
-- results.
pub signedness_cut_exact :
    (q : DimensionKey) (v1 v2 : VocabularySignedness)
    → IsMap v1
    → IsMap v2
    → (find q (intersect_signedness v1 v2) ≡ agreed (find q v1) (find q v2))
      × (find q (subtract_signedness v1 v2) ≡ unmatched (find q v1) (find q v2))
      × IsMap (intersect_signedness v1 v2)
      × IsMap (subtract_signedness v1 v2)
unfolding find
signedness_cut_exact q v1 v2 s t =
    rw (intersect_signedness-eq-keep v1 v2 s t, subtract_signedness-eq-keep v1 v2 s t)
      (
        find-keep_into (λ e. has_entry e v2) q v1 [] s tt ∙ select-agreed q v2 t (find q v1),
        find-keep_into (λ e. not (has_entry e v2)) q v1 [] s tt
            ∙ select-unmatched q v2 t (find q v1),
        keep_into-IsMap _ v1 [] tt,
        keep_into-IsMap _ v1 [] tt,
      )

select_in :
    (q : DimensionKey) (v : Vocabulary) (o : Option Bool)
    → select (λ e. contains e.0 v) q o ≡ (if contains q v then o else none)
select_in q v none = ground arith
select_in q v (some b) = refl

select_out :
    (q : DimensionKey) (v : Vocabulary) (o : Option Bool)
    → select (λ e. not (contains e.0 v)) q o ≡ (if contains q v then none else o)
select_out q v none = ground arith
select_out q v (some b) = ground arith

-- Of a map and a vocabulary, the intersection holds the dimensions of the map that are in the
-- vocabulary, and the difference those that are not, each with its sign.
pub vocabulary_cut_exact :
    (q : DimensionKey) (m : VocabularySignedness) (v : Vocabulary)
    → IsMap m
    → (find q (intersect_with_vocabulary m v) ≡ (if contains q v then find q m else none))
      × (find q (subtract_vocabulary m v) ≡ (if contains q v then none else find q m))
      × IsMap (intersect_with_vocabulary m v)
      × IsMap (subtract_vocabulary m v)
unfolding intersect_with_vocabulary subtract_vocabulary find
vocabulary_cut_exact q m v s = (
  find-keep_into (λ e. contains e.0 v) q m [] s tt ∙ select_in q v (find q m),
  find-keep_into (λ e. not (contains e.0 v)) q m [] s tt ∙ select_out q v (find q m),
  keep_into-IsMap _ m [] tt,
  keep_into-IsMap _ m [] tt,
)
