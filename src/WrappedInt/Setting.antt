-- ===== src/WrappedInt/Setting.antt =====
-- What the integers of an analysis stand on, and two more queries of an abstract value, with the
-- definitions of BitpreciseWrappedAbstractValue.hpp and ReducedProductAbsVal.hpp.
use sound_bit_precise_domain.Prelude.{Bool, Option, none, some}
use sound_bit_precise_domain.Prelude.Int.{ℤ}
use sound_bit_precise_domain.Dimension.Key.{DimensionKey}
use sound_bit_precise_domain.Dimension.Vocabulary.{Vocabulary, union_vocabularies}
use sound_bit_precise_domain.Mpz.{Gmp}
use sound_bit_precise_domain.Mpz.Logic.{GmpLogic}
use sound_bit_precise_domain.Wrapped.Domain.{Domain}
use sound_bit_precise_domain.Wrapped.Record.{Wrapped}
use sound_bit_precise_domain.Product.{ReducedProduct}

-- `IsConstant` gives the constant through its parameter.
pub record Queries (d : Domain) : Type 0 where
  pub is_constant : d.Av → Option ℤ
  pub get_dependent_vocabulary : d.Av → DimensionKey → Vocabulary

pub record Setting : Type 1 where
  pub gmp : Gmp
  pub logic : GmpLogic
  pub d : Domain
  pub queries : Queries d
  pub disable_wrapping : Bool

unfoldable pub wrapped_is_constant : (s : Setting) → Wrapped s.d → Option ℤ
wrapped_is_constant s this = s.queries.is_constant this.av

unfoldable pub wrapped_get_dependent_vocabulary :
    (s : Setting) → Wrapped s.d → DimensionKey → Vocabulary
wrapped_get_dependent_vocabulary s this k = s.queries.get_dependent_vocabulary this.av k

module _ {d1 d2 : Domain} (q1 : Queries d1) (q2 : Queries d2) where
  unfoldable pub product_is_constant : ReducedProduct d1 d2 → Option ℤ
  product_is_constant this = elim (q1.is_constant this.first) [
    | some c ↦ some c
    | none ↦ q2.is_constant this.second
  ]

  unfoldable pub product_get_dependent_vocabulary : ReducedProduct d1 d2 → DimensionKey → Vocabulary
  product_get_dependent_vocabulary this k =
      union_vocabularies (q1.get_dependent_vocabulary this.first k)
        (q2.get_dependent_vocabulary this.second k)
