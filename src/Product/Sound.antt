-- ===== src/Product/Sound.antt =====
-- The product of sound domains is a sound domain.
use sound_bit_precise_domain.Prelude.{◌≡◌, Bool, true, false, ◌&&◌, ◌||◌, ◌⊎◌, inl, inr, arith}
use sound_bit_precise_domain.Wrapped.Domain.{Domain}
use sound_bit_precise_domain.Wrapped.Meaning.{State, IsSoundDomain}
use sound_bit_precise_domain.Product.{
  ReducedProduct, Reductions, product, new_product, product_top, product_is_bottom,
  product_overapproximates, product_join, product_meet, product_add_equality, product_project,
  product_havoc, product_add_vocabulary, product_reduce, product_add_constraint,
}

-- Reducing a value by one of the other domain loses no step that both have.
pub record AreSound (d1 d2 : Domain) (s1 : IsSoundDomain d1) (s2 : IsSoundDomain d2)
    (r : Reductions d1 d2) : Type 0 where
  pub reduce_first_keeps :
      (a : d1.Av) (b : d2.Av) (p : State) → s1.Has a p → s2.Has b p → s1.Has (r.reduce_first a b) p
  pub reduce_second_keeps :
      (b : d2.Av) (a : d1.Av) (p : State) → s2.Has b p → s1.Has a p → s2.Has (r.reduce_second b a) p

either_true : (a b : Bool) → (a || b) ≡ true → (a ≡ true) ⊎ (b ≡ true)
either_true true b h = inl h
either_true false b h = inr h

both_true : (a b : Bool) → (a && b) ≡ true → (a ≡ true) × (b ≡ true)
both_true a b h = ground arith

module _ (d1 d2 : Domain) (s1 : IsSoundDomain d1) (s2 : IsSoundDomain d2) where
  -- The steps of a product are those of both values.
  abbrev pub HasBoth : ReducedProduct d1 d2 → State → Type 0
  HasBoth a p = s1.Has a.first p × s2.Has a.second p

  bottom_none :
      (a : ReducedProduct d1 d2) (p : State) → product_is_bottom a ≡ true → HasBoth a p → ⊥
  unfolding product_is_bottom
  bottom_none a p e h = elim (either_true (d1.is_bottom a.first) (d2.is_bottom a.second) e) [
    | inl e ↦ s1.bottom_lacks a.first p e h.0
    | inr e ↦ s2.bottom_lacks a.second p e h.1
  ]

  over_both :
      (a b : ReducedProduct d1 d2) (p : State)
      → product_overapproximates a b ≡ true
      → HasBoth b p
      → HasBoth a p
  unfolding product_overapproximates
  over_both a b p e h =
      let c =
        both_true (d1.overapproximates a.first b.first) (d2.overapproximates a.second b.second) e in
      (
        s1.overapproximates_has a.first b.first p c.0 h.0,
        s2.overapproximates_has a.second b.second p c.1 h.1,
      )

  module _ (r : Reductions d1 d2) (sound : AreSound d1 d2 s1 s2 r) where
    reduce_both :
        (a : ReducedProduct d1 d2) (p : State) → HasBoth a p → HasBoth (product_reduce r a) p
    unfolding product_reduce
    reduce_both a p h =
        let first = sound.reduce_first_keeps a.first a.second p h.0 h.1 in
        (first, sound.reduce_second_keeps a.second _ p h.1 first)

    -- If two domains are sound and reducing one by the other loses no step that both have, their
    -- product is a sound domain, whose steps are those of both of its values.
    pub product-IsSoundDomain : IsSoundDomain (product d1 d2 r)
    unfolding product product_top new_product product_join product_meet product_add_equality
        product_project product_havoc product_add_vocabulary product_add_constraint
    product-IsSoundDomain = record {
      Has = HasBoth;
      top_has = λ a p. (s1.top_has a.first p, s2.top_has a.second p);
      bottom_lacks = bottom_none;
      overapproximates_has = over_both;
      join_left =
          λ a b p h. (s1.join_left a.first b.first p h.0, s2.join_left a.second b.second p h.1);
      join_right =
          λ a b p h. (s1.join_right a.first b.first p h.0, s2.join_right a.second b.second p h.1);
      widen_left =
          λ a b p h. (s1.join_left a.first b.first p h.0, s2.join_left a.second b.second p h.1);
      widen_right =
          λ a b p h. (s1.join_right a.first b.first p h.0, s2.join_right a.second b.second p h.1);
      meet_keeps = λ a b p h k.
          (s1.meet_keeps a.first b.first p h.0 k.0, s2.meet_keeps a.second b.second p h.1 k.1);
      add_equality_keeps = λ a v1 v2 p h e. (
        s1.add_equality_keeps a.first v1 v2 p h.0 e,
        s2.add_equality_keeps a.second v1 v2 p h.1 e,
      );
      add_constraint_keeps = λ a c p h k.
          reduce_both _ p
            (s1.add_constraint_keeps a.first c p h.0 k, s2.add_constraint_keeps a.second c p h.1 k);
      reduce_keeps = reduce_both;
      project_keeps =
          λ a v p h. (s1.project_keeps a.first v p h.0, s2.project_keeps a.second v p h.1);
      havoc_keeps = λ a v p h. (s1.havoc_keeps a.first v p h.0, s2.havoc_keeps a.second v p h.1);
      add_vocabulary_keeps = λ a v p h.
          (s1.add_vocabulary_keeps a.first _ p h.0, s2.add_vocabulary_keeps a.second _ p h.1);
    }
