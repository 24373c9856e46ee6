-- ===== src/Product.antt =====
-- src/AbstractDomain/common/ReducedProductAbsVal.hpp: the product of two domains, as a domain
-- again. `Widen` is the base class's, which joins.
pub mod Sound
mod Examples
use sound_bit_precise_domain.Prelude.{Bool, ◌&&◌, ◌||◌, List, [], ◌∷◌}
use sound_bit_precise_domain.Dimension.Key.{DimensionKey}
use sound_bit_precise_domain.Dimension.Vocabulary.{
  Vocabulary, union_vocabularies, subtract_vocabularies,
}
use sound_bit_precise_domain.Dimension.Versions.{VersionMap}
use sound_bit_precise_domain.Signedness.{VocabularySignedness}
use sound_bit_precise_domain.Wrapped.Domain.{Domain, Constraint}

-- `voc` is the member of the base class.
pub record ReducedProduct (d1 d2 : Domain) : Type 0 where
  pub voc : Vocabulary
  pub first : d1.Av
  pub second : d2.Av

-- `Reduce(that)` of each of the two domains for a value of the other.
pub record Reductions (d1 d2 : Domain) : Type 0 where
  pub reduce_first : d1.Av → d2.Av → d1.Av
  pub reduce_second : d2.Av → d1.Av → d2.Av

module _ {d1 d2 : Domain} where
  unfoldable pub new_product : d1.Av → d2.Av → ReducedProduct d1 d2
  new_product a1 a2 = record {
    voc = union_vocabularies (d1.get_vocabulary a1) (d2.get_vocabulary a2);
    first = a1;
    second = a2;
  }

  unfoldable pub product_top : ReducedProduct d1 d2 → ReducedProduct d1 d2
  product_top this = new_product (d1.top this.first) (d2.top this.second)

  unfoldable pub product_bottom : ReducedProduct d1 d2 → ReducedProduct d1 d2
  product_bottom this = new_product (d1.bottom this.first) (d2.bottom this.second)

  unfoldable pub product_equal : ReducedProduct d1 d2 → ReducedProduct d1 d2 → Bool
  product_equal this other = d1.equal this.first other.first && d2.equal this.second other.second

  unfoldable pub product_is_bottom : ReducedProduct d1 d2 → Bool
  product_is_bottom this = d1.is_bottom this.first || d2.is_bottom this.second

  unfoldable pub product_overapproximates : ReducedProduct d1 d2 → ReducedProduct d1 d2 → Bool
  product_overapproximates this other =
      d1.overapproximates this.first other.first && d2.overapproximates this.second other.second

  unfoldable pub product_join : ReducedProduct d1 d2 → ReducedProduct d1 d2 → ReducedProduct d1 d2
  product_join this other = record this {
    first = d1.join this.first other.first;
    second = d2.join this.second other.second;
  }

  unfoldable pub product_join_singleton :
      ReducedProduct d1 d2 → ReducedProduct d1 d2 → ReducedProduct d1 d2
  product_join_singleton this other = record this {
    first = d1.join_singleton this.first other.first;
    second = d2.join_singleton this.second other.second;
  }

  unfoldable pub product_meet : ReducedProduct d1 d2 → ReducedProduct d1 d2 → ReducedProduct d1 d2
  product_meet this other = record this {
    first = d1.meet this.first other.first;
    second = d2.meet this.second other.second;
  }

  unfoldable pub product_add_equality :
      ReducedProduct d1 d2 → DimensionKey → DimensionKey → ReducedProduct d1 d2
  product_add_equality this v1 v2 = record this {
    first = d1.add_equality this.first v1 v2;
    second = d2.add_equality this.second v1 v2;
  }

  unfoldable pub product_project : ReducedProduct d1 d2 → Vocabulary → ReducedProduct d1 d2
  product_project this v = new_product (d1.project this.first v) (d2.project this.second v)

  unfoldable pub product_havoc : ReducedProduct d1 d2 → Vocabulary → ReducedProduct d1 d2
  product_havoc this v = new_product (d1.havoc this.first v) (d2.havoc this.second v)

  -- The dimensions that the product has already are added to neither value.
  unfoldable pub product_add_vocabulary : ReducedProduct d1 d2 → Vocabulary → ReducedProduct d1 d2
  product_add_vocabulary this v =
      let voc_to_add = subtract_vocabularies v this.voc in
      new_product (d1.add_vocabulary this.first voc_to_add)
        (d2.add_vocabulary this.second voc_to_add)

  unfoldable pub product_replace_versions : ReducedProduct d1 d2 → VersionMap → ReducedProduct d1 d2
  product_replace_versions this vm =
      new_product (d1.replace_versions this.first vm) (d2.replace_versions this.second vm)

  unfoldable pub product_wrap : ReducedProduct d1 d2 → VocabularySignedness → ReducedProduct d1 d2
  product_wrap this vs = record this {
    first = d1.wrap this.first vs;
    second = d2.wrap this.second vs;
  }

  module _ (r : Reductions d1 d2) where
    -- The second value is reduced by the first one as it is after its own reduction.
    unfoldable pub product_reduce : ReducedProduct d1 d2 → ReducedProduct d1 d2
    product_reduce this =
        let reduced = r.reduce_first this.first this.second in
        record this { first = reduced; second = r.reduce_second this.second reduced }

    unfoldable pub product_add_constraint : ReducedProduct d1 d2 → Constraint → ReducedProduct d1 d2
    product_add_constraint this c = product_reduce (record this {
      first = d1.add_constraint this.first c;
      second = d2.add_constraint this.second c;
    })

unfoldable pub product : (d1 d2 : Domain) → Reductions d1 d2 → Domain
product d1 d2 r = record {
  Av = ReducedProduct d1 d2;
  get_vocabulary = λ this. this.voc;
  top = product_top;
  bottom = product_bottom;
  equal = product_equal;
  is_bottom = product_is_bottom;
  overapproximates = product_overapproximates;
  join = product_join;
  join_singleton = product_join_singleton;
  meet = product_meet;
  widen = product_join;
  add_equality = product_add_equality;
  reduce = product_reduce r;
  project = product_project;
  havoc = product_havoc;
  add_vocabulary = product_add_vocabulary;
  replace_versions = product_replace_versions;
  wrap = product_wrap;
  add_constraint = product_add_constraint r;
}
