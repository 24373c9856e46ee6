-- ===== src/Product/Examples.antt =====
-- The product of the two-valued domain with itself, each value reduced to nothing where the other
-- is empty.
use sound_bit_precise_domain.Prelude.{◌||◌}
use sound_bit_precise_domain.Wrapped.Meaning.{IsSoundDomain}
use sound_bit_precise_domain.Semiring.Flat.{Flat, flat, neither, flat-IsSoundDomain}
use sound_bit_precise_domain.Product.{Reductions, product}
use sound_bit_precise_domain.Product.Sound.{AreSound, product-IsSoundDomain}

abbrev share_emptiness : Reductions flat flat
share_emptiness = record {
  reduce_first = λ (a b : Flat). (a.0, a.1 || b.1);
  reduce_second = λ (b a : Flat). (b.0, b.1 || a.1);
}

share_emptiness-AreSound : AreSound flat flat flat-IsSoundDomain flat-IsSoundDomain share_emptiness
share_emptiness-AreSound = record {
  reduce_first_keeps = λ (a b : Flat) p h k. neither a.1 b.1 h k;
  reduce_second_keeps = λ (b a : Flat) p h k. neither b.1 a.1 h k;
}

product-IsSoundDomain_example : IsSoundDomain (product flat flat share_emptiness)
product-IsSoundDomain_example =
    product-IsSoundDomain flat flat flat-IsSoundDomain flat-IsSoundDomain share_emptiness
      share_emptiness-AreSound
