-- ===== src/Container/SortedSet/Extensional.antt =====
-- Sorted lists with the same elements are equal.
use sound_bit_precise_domain.Prelude.{
  ◌≡◌, refl, sym, subst, ap₂, ◌∙◌, false, List, [], ◌∷◌, arith, inl, inr, Bool-cases,
}
use sound_bit_precise_domain.Container.{Ord, eqb, eqb_refl, eq_of_eqb, Above, IsSorted}
use sound_bit_precise_domain.Container.SortedSet.{contains, contains-Above, contains-Above_self}

module _ {ℓ} {K : Type ℓ} ⦃o : Ord K⦄ where
  -- The least elements of two sorted lists with the same elements are the same.
  heads_level :
      (a b : K) (l m : List K)
      → Above b m
      → ((k : K) → contains k (a ∷ l) ≡ contains k (b ∷ m))
      → o.lt a b ≡ false
  unfolding contains
  heads_level a b l m u h = elim (Bool-cases (o.lt a b)) [
    | inl below ↦ ground (arith, h a, contains-Above a b m u below, eqb_refl a)
    | inr level ↦ level
  ]

  tails_agree :
      (a : K) (l m : List K)
      → Above a l
      → Above a m
      → ((k : K) → contains k (a ∷ l) ≡ contains k (a ∷ m))
      → (k : K) → contains k l ≡ contains k m
  unfolding contains
  tails_agree a l m u v h k = elim (Bool-cases (eqb k a)) [
    | inl same ↦
        rw (eq_of_eqb k a same) (contains-Above_self a l u ∙ sym (contains-Above_self a m v))
    | inr differ ↦ ground (arith, h k)
  ]

  pub set_ext :
      (l m : List K) → IsSorted l → IsSorted m → ((k : K) → contains k l ≡ contains k m) → l ≡ m
  unfolding contains
  set_ext [] [] s t h = refl
  set_ext [] (b ∷ m) s t h = ground (arith, h b, eqb_refl b)
  set_ext (a ∷ l) [] s t h = ground (arith, h a, eqb_refl a)
  set_ext (a ∷ l) (b ∷ m) s t h =
      let e : a ≡ b =
        o.total a b (heads_level a b l m t.0 h) (heads_level b a m l s.0 (λ k. sym (h k))) in
      let h' : (k : K) → contains k (a ∷ l) ≡ contains k (a ∷ m) =
        subst (λ c. (k : K) → contains k (a ∷ l) ≡ contains k (c ∷ m)) (sym e) h in
      let v : Above a m = subst (λ c. Above c m) (sym e) t.0 in
      ap₂ ◌∷◌ e (set_ext l m s.1 t.1 (tails_agree a l m s.0 v h'))
