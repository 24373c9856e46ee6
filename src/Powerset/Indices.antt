-- ===== src/Powerset/Indices.antt =====
-- src/AbstractDomain/PointsetPowerset/pointset_powerset_av_impl.hpp: the map between the keys of a
-- vocabulary and the dimensions of the polyhedra (`bm_type`, a bidirectional map), by
-- `GetVocabularyIndexMap` and the functions that read it.
use sound_bit_precise_domain.Prelude.{
  ℕ, zero, suc, ◌+◌, ◌≡◌, refl, sym, ap, ap₂, ◌∙◌, All, Option-cases, Bool, true, false, ◌||◌, List,
  [], ◌∷◌, Option, none, some, arith, Bool-cases, inl, inr, ◌==◌, if◌then◌else◌,
}
use sound_bit_precise_domain.Dimension.Key.{DimensionKey, key_ord}
use sound_bit_precise_domain.Dimension.Vocabulary.{Vocabulary}
use sound_bit_precise_domain.Container.{eqb, eq_of_eqb}
use mathlib.Core.Option.{some-injective, none-ne-some}
use sound_bit_precise_domain.Container.SortedSet.{contains}
use sound_bit_precise_domain.Wrapped.Lattice.{voc_eq}

true≢false : true ≡ false → ⊥
true≢false e = ground (arith, e)

or_false : (a b : Bool) → (a || b) ≡ false → (a ≡ false) × (b ≡ false)
or_false a b h = ground arith

if_true : (a b : Bool) → (if a then b else false) ≡ true → (a ≡ true) × (b ≡ true)
if_true a b h = ground arith

-- `bm_type`. The keys of a vocabulary are distinct, so that `insert` never finds a key there.
abbrev pub BiMap : Type 0
BiMap = List (DimensionKey × ℕ)

-- The loop of `GetVocabularyIndexMap`, from `index` on.
unfoldable pub index_map_from : ℕ → Vocabulary → BiMap
index_map_from index [] = []
index_map_from index (k ∷ v) = (k, index) ∷ index_map_from (index + 1) v

-- `vocabulary_index_map_cache`, a static map, and its `find`.
abbrev pub Cache : Type 0
Cache = List (Vocabulary × BiMap)

unfoldable pub find_cached : Vocabulary → Cache → Option BiMap
find_cached v [] = none
find_cached v (entry ∷ cache) =
    let rest = find_cached v cache in if voc_eq entry.0 v then some entry.1 else rest

-- With the cache it leaves.
unfoldable pub get_vocabulary_index_map : Vocabulary → Cache → BiMap × Cache
get_vocabulary_index_map v cache = elim (find_cached v cache) [
  | some found ↦ (found, cache)
  | none ↦ let ret : BiMap = index_map_from 0 v in (ret, (v, ret) ∷ cache)
]

-- `bimap.left.at(k)`, with `found` as whether there is a result.
unfoldable pub get_ppl_dimension_type_from_dimension_key : BiMap → DimensionKey → Option ℕ
get_ppl_dimension_type_from_dimension_key [] k = none
get_ppl_dimension_type_from_dimension_key (entry ∷ bimap) k =
    let rest = get_ppl_dimension_type_from_dimension_key bimap k in
    if eqb k entry.0 then some entry.1 else rest

-- `key_index_bimap.right.at(index)`.
unfoldable pub get_dimension_key_at_ppl_dimension_type : BiMap → ℕ → Option DimensionKey
get_dimension_key_at_ppl_dimension_type [] index = none
get_dimension_key_at_ppl_dimension_type (entry ∷ bimap) index =
    let rest = get_dimension_key_at_ppl_dimension_type bimap index in
    if entry.1 == index then some entry.0 else rest

-- The key at a place of the vocabulary.
abbrev pub key_at : Vocabulary → ℕ → Option DimensionKey
key_at [] i = none
key_at (k ∷ v) zero = some k
key_at (k ∷ v) (suc i) = key_at v i

-- A key of the vocabulary has the dimension of its place, counted from the first index.
pub index_found :
    (first : ℕ) (v : Vocabulary) (k : DimensionKey)
    → contains k v ≡ true
    → (j : ℕ) × (get_ppl_dimension_type_from_dimension_key (index_map_from first v) k
        ≡ some (first + j))
      × (key_at v j ≡ some k)
unfolding get_ppl_dimension_type_from_dimension_key index_map_from contains
index_found first [] k h = elim (true≢false (sym h)) [ ]
index_found first (a ∷ v) k h = elim (Bool-cases (eqb k a)) [
  | inl same ↦ (0, rw (same) (ap some (omega arith)), ap some (sym (eq_of_eqb k a same)))
  | inr other ↦
      let later = index_found (first + 1) v k (sym (rw (other) refl) ∙ h) in
      (suc later.0, rw (other) (later.1 ∙ ap some (omega arith)), later.2)
]

pub index_none :
    (first : ℕ) (v : Vocabulary) (k : DimensionKey)
    → contains k v ≡ false
    → get_ppl_dimension_type_from_dimension_key (index_map_from first v) k ≡ none
unfolding get_ppl_dimension_type_from_dimension_key index_map_from contains
index_none first [] k h = refl
index_none first (a ∷ v) k h =
    rw (or_false (eqb k a) _ h).0 (index_none (first + 1) v k (or_false (eqb k a) _ h).1)

-- Every entry of the cache is what the loop gives.
abbrev pub IsCache : Cache → Type 0
IsCache cache = All (λ entry. entry.1 ≡ index_map_from 0 entry.0) cache

pub eq_of_voc_eq : (v w : Vocabulary) → voc_eq v w ≡ true → v ≡ w
unfolding voc_eq
eq_of_voc_eq [] [] h = refl
eq_of_voc_eq [] (j ∷ w) h = elim (true≢false (sym h)) [ ]
eq_of_voc_eq (k ∷ v) [] h = elim (true≢false (sym h)) [ ]
eq_of_voc_eq (k ∷ v) (j ∷ w) h =
    let both = if_true (eqb k j) _ h in
    ap₂ (λ a l. a ∷ l) (eq_of_eqb k j both.0) (eq_of_voc_eq v w both.1)

find_cached_lem :
    (v : Vocabulary) (cache : Cache) (m : BiMap)
    → IsCache cache
    → (found : find_cached v cache ≡ some m) → m ≡ index_map_from 0 v
unfolding find_cached
find_cached_lem v [] m ok_cache found = elim (none-ne-some m found) [ ]
find_cached_lem v (entry ∷ cache) m ok_cache found = elim (Bool-cases (voc_eq entry.0 v)) [
  | inl same ↦
      let e : some entry.1 ≡ some m = sym (rw (same) refl) ∙ found in
      sym (some-injective _ _ e) ∙ ok_cache.0 ∙ ap (index_map_from 0) (eq_of_voc_eq entry.0 v same)
  | inr other ↦ find_cached_lem v cache m ok_cache.1 (sym (rw (other) refl) ∙ found)
]

-- A cache of true entries changes no result and stays one.
pub get_vocabulary_index_map_lem :
    (v : Vocabulary) (cache : Cache)
    → IsCache cache
    → ((get_vocabulary_index_map v cache).0 ≡ index_map_from 0 v)
      × IsCache (get_vocabulary_index_map v cache).1
unfolding get_vocabulary_index_map
get_vocabulary_index_map_lem v cache ok_cache = elim (Option-cases (find_cached v cache)) [
  | inl absent ↦ rw (get_vocabulary_index_map, absent) (refl, (refl, ok_cache))
  | inr (m, found) ↦
      rw (get_vocabulary_index_map, found) (find_cached_lem v cache m ok_cache found, ok_cache)
]
