-- ===== src/Wrapped/Bounding.antt =====
-- The constraints that bound a dimension to the range of its type, and the search for dimensions
-- that such constraints do not change.
use sound_bit_precise_domain.Prelude.{
  Bool, true, false, List, [], ◌∷◌, none, some, if◌then◌else◌, Result, ok, ◌>>=◌,
}
use sound_bit_precise_domain.Prelude.Int.{ℤ, pos}
use sound_bit_precise_domain.Mpz.{Gmp, convert_to_mpz, get_min_int, get_max_int}
use sound_bit_precise_domain.Container.SortedSet
use sound_bit_precise_domain.Container.SortedMap.{find, assign}
use sound_bit_precise_domain.Dimension.Key.{DimensionKey, key_ord}
use sound_bit_precise_domain.Dimension.Vocabulary.{Vocabulary}
use sound_bit_precise_domain.Signedness.{VocabularySignedness, get_vocabulary_from_wrapped_voc}
use sound_bit_precise_domain.Wrapped.Domain.{Domain, Constraint, ge, le}
use sound_bit_precise_domain.Wrapped.Record.{Wrapped, add_vocabulary, mark_wrapped}

module _ (gmp : Gmp) where
  unfoldable pub get_min_bounding_constraint : DimensionKey → Bool → Result Constraint
  get_min_bounding_constraint k is_signed = do
    min_mpz ← convert_to_mpz gmp (get_min_int k.bitsize is_signed) is_signed
    ok (record { lhs = ((k, pos 1) ∷ [], pos 0); rhs = ([], min_mpz); op = ge })

  unfoldable pub get_max_bounding_constraint : DimensionKey → Bool → Result Constraint
  get_max_bounding_constraint k is_signed = do
    max_mpz ← convert_to_mpz gmp (get_max_int k.bitsize is_signed) is_signed
    ok (record { lhs = ((k, pos 1) ∷ [], pos 0); rhs = ([], max_mpz); op = le })

  module _ (d : Domain) where
    -- `av_cp` with the two constraints added.
    unfoldable pub bound_dimension : d.Av → DimensionKey → Bool → Result d.Av
    bound_dimension av_cp k is_signed = do
      min_cnstr ← get_min_bounding_constraint k is_signed
      max_cnstr ← get_max_bounding_constraint k is_signed
      ok (d.add_constraint (d.add_constraint av_cp min_cnstr) max_cnstr)

    -- The body of the loop for one key: the signed bounds, then the unsigned ones on a new copy.
    -- `av_cp` stays as it is where the loop breaks.
    unfoldable pub update_dimension : Wrapped d → DimensionKey → d.Av → Result (Wrapped d × d.Av)
    update_dimension this k av_cp = elim (find k this.wrapped_voc) [
      | some s ↦ ok (this, av_cp)
      | none ↦ do
        signed_cp ← bound_dimension av_cp k true
        unsigned_cp ← bound_dimension this.av k false
        ok (
            if d.equal signed_cp this.av
            then (mark_wrapped d this k true, signed_cp)
            else if d.equal unsigned_cp this.av
            then (mark_wrapped d this k false, unsigned_cp)
            else (this, this.av))
    ]

    unfoldable pub update_dimensions : Wrapped d → Vocabulary → d.Av → Result (Wrapped d × d.Av)
    update_dimensions this [] av_cp = ok (this, av_cp)
    update_dimensions this (k ∷ voc) av_cp = do
      next ← update_dimension this k av_cp
      update_dimensions next.0 voc next.1

    unfoldable pub update_vocabulary_signedness : Wrapped d → Vocabulary → Result (Wrapped d)
    update_vocabulary_signedness this voc = do r ← update_dimensions this voc this.av; ok r.0

    -- The dimensions of the two sides, in a set.
    unfoldable pub insert_dimensions : List (DimensionKey × ℤ) → Vocabulary → Vocabulary
    insert_dimensions [] cnstr_voc = cnstr_voc
    insert_dimensions ((k, c) ∷ l) cnstr_voc = insert_dimensions l (SortedSet.insert k cnstr_voc)

    unfoldable pub add_constraint : Wrapped d → Constraint → Result (Wrapped d)
    add_constraint this c =
        update_vocabulary_signedness (record this { av = d.add_constraint this.av c })
          (insert_dimensions c.rhs.0 (insert_dimensions c.lhs.0 []))

    module _ (disable_wrapping : Bool) where
      unfoldable pub bound_wrapped : Wrapped d → DimensionKey → Bool → Result (Wrapped d)
      bound_wrapped this k is_signed = if disable_wrapping then ok this else do
        min_constr ← get_min_bounding_constraint k is_signed
        max_constr ← get_max_bounding_constraint k is_signed
        low ← add_constraint this min_constr
        add_constraint low max_constr

      unfoldable pub bound_each : Wrapped d → VocabularySignedness → Result (Wrapped d)
      bound_each this [] = ok this
      bound_each this ((k, s) ∷ vs) = do
        b ← bound_wrapped this k s
        bound_each (record b { wrapped_voc = assign k s b.wrapped_voc }) vs

      unfoldable pub add_bounding_constraints :
          Wrapped d → VocabularySignedness → Result (Wrapped d)
      add_bounding_constraints this vs =
          bound_each (add_vocabulary d this (get_vocabulary_from_wrapped_voc vs)) vs
