-- ===== src/WrappedInt/Sound.antt =====
-- What the integers of an analysis rely on, together.
use sound_bit_precise_domain.Prelude.{ℕ, ◌≡◌, true, false, none}
use sound_bit_precise_domain.Container.{IsSorted}
use sound_bit_precise_domain.Container.SortedSet.{contains}
use sound_bit_precise_domain.Container.SortedMap.{find}
use sound_bit_precise_domain.Dimension.Key.{DimensionKey, key_ord}
use sound_bit_precise_domain.Dimension.Vocabulary.{Vocabulary}
use sound_bit_precise_domain.Signedness.{VocabularySignedness}
use sound_bit_precise_domain.Mpz.{IsGmp}
use sound_bit_precise_domain.Wrapped.Domain.{Domain, Constraint}
use sound_bit_precise_domain.Wrapped.Meaning.{IsSoundDomain}
use sound_bit_precise_domain.Wrapped.Record.{Wrapped}
use sound_bit_precise_domain.WrappedInt.Setting.{Setting}
use sound_bit_precise_domain.WrappedInt.Meaning.{IsExact}

-- The dimensions that the operations of a domain do not lose.
pub record KeepsDimensions (d : Domain) : Type 0 where
  pub vocabulary-IsSorted : (a : d.Av) → IsSorted (d.get_vocabulary a)
  pub adds :
      (a : d.Av) (v : Vocabulary) (k : DimensionKey)
      → contains k v ≡ true
      → contains k (d.get_vocabulary (d.add_vocabulary a v)) ≡ true
  pub add_vocabulary_covers :
      (a : d.Av) (v : Vocabulary) (k : DimensionKey)
      → contains k (d.get_vocabulary a) ≡ true
      → contains k (d.get_vocabulary (d.add_vocabulary a v)) ≡ true
  pub add_constraint_covers :
      (a : d.Av) (c : Constraint) (k : DimensionKey)
      → contains k (d.get_vocabulary a) ≡ true
      → contains k (d.get_vocabulary (d.add_constraint a c)) ≡ true
  pub add_equality_covers :
      (a : d.Av) (i j k : DimensionKey)
      → contains k (d.get_vocabulary a) ≡ true
      → contains k (d.get_vocabulary (d.add_equality a i j)) ≡ true
  pub havoc_covers :
      (a : d.Av) (v : Vocabulary) (k : DimensionKey)
      → contains k (d.get_vocabulary a) ≡ true
      → contains k (d.get_vocabulary (d.havoc a v)) ≡ true
  pub project_covers :
      (a : d.Av) (v : Vocabulary) (k : DimensionKey)
      → contains k (d.get_vocabulary a) ≡ true
      → contains k v ≡ true
      → contains k (d.get_vocabulary (d.project a v)) ≡ true
  pub wrap_covers :
      (a : d.Av) (m : VocabularySignedness) (k : DimensionKey)
      → contains k (d.get_vocabulary a) ≡ true
      → contains k (d.get_vocabulary (d.wrap a m)) ≡ true
  pub join_covers :
      (a b : d.Av) (k : DimensionKey)
      → contains k (d.get_vocabulary a) ≡ true
      → contains k (d.get_vocabulary (d.join a b)) ≡ true
  pub meet_covers :
      (a b : d.Av) (k : DimensionKey)
      → contains k (d.get_vocabulary a) ≡ true
      → contains k (d.get_vocabulary (d.meet a b)) ≡ true

-- The functions of GMP and the domain behave as documented. Of the constants that the domain finds
-- nothing is asked.
pub record IsSound (s : Setting) : Type 1 where
  pub width : ℕ
  pub laws : IsGmp width s.gmp
  pub snd : IsSoundDomain s.d
  pub exact : IsExact s.d snd
  pub dims : KeepsDimensions s.d

-- A dimension that a value neither has nor records.
pub record IsFresh (d : Domain) (w : Wrapped d) (k : DimensionKey) : Type 0 where
  pub unknown : contains k (d.get_vocabulary w.av) ≡ false
  pub unmarked : find k w.wrapped_voc ≡ none
