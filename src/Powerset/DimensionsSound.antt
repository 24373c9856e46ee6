-- ===== src/Powerset/DimensionsSound.antt =====
-- src/AbstractDomain/PointsetPowerset/pointset_powerset_av_impl.hpp: `AddVocabulary` and
-- `ReplaceVersions` move the value of each key from its old dimension to its new one.
use sound_bit_precise_domain.Prelude.{
  ℕ, zero, suc, ◌+◌, ◌<◌, ◌≡◌, refl, sym, ap, ◌∙◌, Bool, true, false, not, ◌&&◌, ◌||◌, [], ◌∷◌,
  ◌++◌, Option, none, some, arith, Bool-cases, inl, inr, length, All, All-imp,
}
use mathlib.Core.Option.{some-injective, some-ne-none}
use sound_bit_precise_domain.Prelude.Int.{ℤ, pos}
use sound_bit_precise_domain.Container.{eqb_refl, IsSorted}
use sound_bit_precise_domain.Container.SortedSet
use sound_bit_precise_domain.Container.SortedSet.{contains}
use sound_bit_precise_domain.Container.SortedSet.Cut
use sound_bit_precise_domain.Dimension.Key.{DimensionKey, key_ord}
use sound_bit_precise_domain.Dimension.Vocabulary.{
  Vocabulary, union_vocabularies, subtract_vocabularies,
}
use sound_bit_precise_domain.Wrapped.Lattice.{voc_eq}
use sound_bit_precise_domain.Powerset.Ppl.{Ppl, IsSound, Point}
use sound_bit_precise_domain.Powerset.Indices.{
  Cache, IsCache, index_map_from, get_vocabulary_index_map, get_vocabulary_index_map_lem,
  get_ppl_dimension_type_from_dimension_key, key_at, index_found, index_none, eq_of_voc_eq,
}
use sound_bit_precise_domain.Powerset.Dimensions.{
  Permutation, Spaces, Av, moved_from, cons_move, permutation_of, add_vocabulary,
}

in_second : (a b : Bool) → (a || b) ≡ true → a ≡ false → (b && not a) ≡ true
in_second a b h e = ground arith

zero_plus : (n : ℕ) → 0 + n ≡ n
zero_plus n = omega arith

pub union-IsSorted :
    (l m : Vocabulary) → IsSorted l → IsSorted m → IsSorted (union_vocabularies l m)
unfolding union_vocabularies
union-IsSorted l m s t = SortedSet.union-IsSorted l m s t

-- A value for each key, and the point it is under a vocabulary's dimensions.
abbrev pub Valuation : Type 0
Valuation = DimensionKey → ℤ

abbrev value_of : Valuation → Option DimensionKey → ℤ
value_of f none = pos 0
value_of f (some k) = f k

abbrev pub arrange : Valuation → Vocabulary → Point
arrange f voc i = value_of f (key_at voc i)

abbrev pub IsInjective : Permutation → Type 0
IsInjective perm = All (λ a. All (λ b. a.1 ≡ b.1 → a.0 ≡ b.0) perm) perm

-- What the library documents: new dimensions are free, and an injective function moves the
-- coordinates of the points.
pub record IsSpaces (ppl : Ppl) (snd : IsSound ppl) (spaces : Spaces ppl) : Type 0 where
  pub embed_keeps :
      (q : ppl.Pps) (n : ℕ) (p r : Point)
      → snd.HasPps q p
      → ((i : ℕ) → i < ppl.pps_dimension q → r i ≡ p i)
      → snd.HasPps (spaces.add_space_dimensions_and_embed n q) r
  pub map_keeps :
      (q : ppl.Pps) (perm : Permutation) (p r : Point)
      → IsInjective perm
      → snd.HasPps q p
      → All (λ m. r m.1 ≡ p m.0) perm
      → snd.HasPps (spaces.map_space_dimensions perm q) r

key_at-append_left : (v w : Vocabulary) (i : ℕ) → i < length v → key_at (v ++ w) i ≡ key_at v i
key_at-append_left [] w i h = let no : ⊥ = omega (arith, h) in elim no [ ]
key_at-append_left (k ∷ v) w zero h = refl
key_at-append_left (k ∷ v) w (suc i) h = key_at-append_left v w i (omega (arith, h))

key_at-append_some :
    (v w : Vocabulary) (i : ℕ) (k : DimensionKey) → key_at v i ≡ some k → key_at (v ++ w) i ≡ some k
key_at-append_some [] w i k h = elim (some-ne-none k (sym h)) [ ]
key_at-append_some (a ∷ v) w zero k h = h
key_at-append_some (a ∷ v) w (suc i) k h = key_at-append_some v w i k h

key_at-append_right : (v w : Vocabulary) (j : ℕ) → key_at (v ++ w) (length v + j) ≡ key_at w j
key_at-append_right [] w j = ap (key_at w) (omega arith)
key_at-append_right (k ∷ v) w j =
    let shifted : suc (length v) + j ≡ suc (length v + j) = omega arith in
    ap (key_at (k ∷ v ++ w)) shifted ∙ key_at-append_right v w j

-- A move takes one key from its old place to its new place.
abbrev IsMove : (from to : DimensionKey → Option ℕ) → Vocabulary → Vocabulary → ℕ × ℕ → Type 0
IsMove from to old new m =
    (k : DimensionKey) × (from k ≡ some m.0)
    × (to k ≡ some m.1)
    × (key_at old m.0 ≡ some k)
    × (key_at new m.1 ≡ some k)

module _ (from to : DimensionKey → Option ℕ) (old new : Vocabulary) where
  -- Each key of the list has both dimensions.
  abbrev HasMoves : Vocabulary → Type 0
  HasMoves keys =
      (k : DimensionKey)
      → contains k keys ≡ true
      → (i : ℕ) × (j : ℕ) × (from k ≡ some i)
        × (to k ≡ some j)
        × (key_at old i ≡ some k)
        × (key_at new j ≡ some k)

  permutation_of_lem :
      (keys : Vocabulary)
      → HasMoves keys
      → (perm : Permutation) × (permutation_of from to keys ≡ some perm)
        × All (IsMove from to old new) perm
  unfolding permutation_of cons_move contains
  permutation_of_lem [] moves = ([], refl, tt)
  permutation_of_lem (k ∷ v) moves =
      let here = moves k (ground (arith, eqb_refl k)) in
      let rest = permutation_of_lem v (λ j h. moves j (ground (arith, h))) in
      (
        (here.0, here.1) ∷ rest.0,
        rw (here.2, here.3, rest.1) refl,
        ((k, here.2, here.3, here.4, here.5), rest.2),
      )

  moves-IsInjective : (perm : Permutation) → All (IsMove from to old new) perm → IsInjective perm
  moves-IsInjective perm moves =
      All-imp
        (λ a ma.
          All-imp
            (λ b mb e.
              let same = some-injective _ _ (sym ma.4 ∙ ap (key_at new) e ∙ mb.4) in
              some-injective _ _ (sym ma.1 ∙ ap from same ∙ mb.1))
            perm moves)
        perm moves

  moves_arrange :
      (f : Valuation) (perm : Permutation)
      → All (IsMove from to old new) perm
      → All (λ m. arrange f new m.1 ≡ arrange f old m.0) perm
  moves_arrange f perm moves = All-imp (λ m mv. ap (value_of f) (mv.4 ∙ sym mv.3)) perm moves

module _ (ppl : Ppl) (snd : IsSound ppl) (spaces : Spaces ppl)
    (lawful : IsSpaces ppl snd spaces) where
  -- The dimensions of the polyhedra are the places of the vocabulary.
  pub record IsLaidOut (a : Av ppl) : Type 0 where
    pub sorted : IsSorted a.voc
    pub indexed : a.key_index_bimap ≡ index_map_from 0 a.voc

  -- The valuation is in the value.
  abbrev pub Represents : Av ppl → Valuation → Type 0
  Represents a f = snd.HasPps a.pp (arrange f a.voc)

  moved_from_lem :
      (voc v : Vocabulary) (k : DimensionKey)
      → IsSorted voc
      → IsSorted v
      → contains k (union_vocabularies voc v) ≡ true
      → (i : ℕ) × (moved_from
            (index_map_from 0 voc)
            (index_map_from 0 (subtract_vocabularies v voc))
            (length voc)
            k
          ≡ some i)
        × (key_at (voc ++ subtract_vocabularies v voc) i ≡ some k)
  unfolding moved_from union_vocabularies subtract_vocabularies
  moved_from_lem voc v k s t h = elim (Bool-cases (contains k voc)) [
    | inl old ↦
        let at = index_found 0 voc k old in
        (
          at.0,
          rw (moved_from, at.1) (ap some (zero_plus at.0)),
          key_at-append_some voc _ at.0 k at.2,
        )
    | inr new ↦
        let added : contains k (SortedSet.difference v voc) ≡ true =
          Cut.contains-difference k v voc t s
          ∙ in_second (contains k voc) (contains k v) (sym (SortedSet.contains-union k voc v) ∙ h)
              new in
        let at = index_found 0 (SortedSet.difference v voc) k added in
        (
          length voc + at.0,
          rw (moved_from, index_none 0 voc k new, at.1)
              (ap (λ n. some (length voc + n)) (zero_plus at.0)),
          key_at-append_right voc _ at.0 ∙ at.2,
        )
  ]

  -- What `AddVocabulary` returns and leaves of the cache.
  abbrev pub IsAdded : Vocabulary → Av ppl → Cache → Av ppl → Cache → Type 0
  IsAdded v a cache res left =
      (add_vocabulary ppl spaces v a cache ≡ some (res, left))
      × (res.voc ≡ union_vocabularies a.voc v)
      × IsLaidOut res
      × IsCache left
      × ((f : Valuation) → Represents a f → Represents res f)

  add_vocabulary_new :
      (v : Vocabulary) (a : Av ppl) (cache : Cache)
      → IsLaidOut a
      → ppl.pps_dimension a.pp ≡ length a.voc
      → IsSorted v
      → IsCache cache
      → voc_eq (union_vocabularies a.voc v) a.voc ≡ false
      → (res : Av ppl) × (left : Cache) × IsAdded v a cache res left
  unfolding add_vocabulary
  add_vocabulary_new v a cache laid dims t known grows =
      let union_voc = union_vocabularies a.voc v in
      let added = subtract_vocabularies v a.voc in
      let first = get_vocabulary_index_map_lem union_voc cache known in
      let left = (get_vocabulary_index_map union_voc cache).1 in
      let second = get_vocabulary_index_map_lem added left first.1 in
      let to_map = (get_vocabulary_index_map union_voc cache).0 in
      let added_map = (get_vocabulary_index_map added left).0 in
      let from : DimensionKey → Option ℕ =
        moved_from a.key_index_bimap added_map (ppl.pps_dimension a.pp) in
      let to : DimensionKey → Option ℕ = get_ppl_dimension_type_from_dimension_key to_map in
      let moves : HasMoves from to (a.voc ++ added) union_voc union_voc = λ k h.
        let out = moved_from_lem a.voc v k laid.sorted t h in
        let in_union = index_found 0 union_voc k h in
        (
          out.0,
          in_union.0,
          rw (laid.indexed, second.0, dims) out.1,
          rw first.0 (in_union.1 ∙ ap some (zero_plus in_union.0)),
          out.2,
          in_union.2,
        ) in
      let perm = permutation_of_lem from to (a.voc ++ added) union_voc union_voc moves in
      let res : Av ppl = record {
        voc = union_voc;
        pp =
            spaces.map_space_dimensions perm.0
              (spaces.add_space_dimensions_and_embed (length added) a.pp);
        key_index_bimap = to_map;
        equalities_only = a.equalities_only;
      } in
      (
        res,
        (get_vocabulary_index_map added left).1,
        (
          rw (add_vocabulary, grows, perm.1) refl,
          refl,
          record { sorted = union-IsSorted a.voc v laid.sorted t; indexed = first.0 },
          second.1,
          λ f h.
              lawful.map_keeps _ perm.0 (arrange f (a.voc ++ added)) (arrange f union_voc)
                (moves-IsInjective from to (a.voc ++ added) union_voc perm.0 perm.2)
                (lawful.embed_keeps a.pp (length added) (arrange f a.voc) _ h (λ i below.
                  ap (value_of f) (key_at-append_left a.voc added i (omega (arith, below, dims)))))
                (moves_arrange from to (a.voc ++ added) union_voc f perm.0 perm.2),
        ),
      )

  -- In a value whose dimensions are the places of its ordered vocabulary, `AddVocabulary` finds
  -- every dimension, so no assertion in it fails. The result has the union of the vocabularies,
  -- laid out in the same way, and every valuation of the value.
  pub add_vocabulary_sound :
      (v : Vocabulary) (a : Av ppl) (cache : Cache)
      → IsLaidOut a
      → ppl.pps_dimension a.pp ≡ length a.voc
      → IsSorted v
      → IsCache cache
      → (res : Av ppl) × (left : Cache) × IsAdded v a cache res left
  unfolding add_vocabulary
  add_vocabulary_sound v a cache laid dims t known =
      elim (Bool-cases (voc_eq (union_vocabularies a.voc v) a.voc)) [
        | inl same ↦ (
          a,
          cache,
          (rw (add_vocabulary, same) refl, sym (eq_of_voc_eq _ _ same), laid, known, λ f h. h),
        )
        | inr grows ↦ add_vocabulary_new v a cache laid dims t known grows
      ]
