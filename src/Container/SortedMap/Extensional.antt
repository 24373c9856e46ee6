-- ===== src/Container/SortedMap/Extensional.antt =====
-- Maps that read the same at every key are equal.
use sound_bit_precise_domain.Prelude.{
  ◌≡◌, refl, sym, subst, ap₂, ◌∙◌, false, List, [], ◌∷◌, arith, inl, inr, Bool-cases,
}
use sound_bit_precise_domain.Container.{Ord, eqb, eqb_refl, eq_of_eqb, Above}
use sound_bit_precise_domain.Container.SortedMap.{keys, IsMap, find, find-Above, find-Above_self}

module _ {ℓ κ} {K : Type ℓ} {V : Type κ} ⦃o : Ord K⦄ where
  -- The least keys of two maps that read the same are the same.
  heads_level :
      (a b : K) (v w : V) (l m : List (K × V))
      → Above b (keys m)
      → ((k : K) → find k ((a, v) ∷ l) ≡ find k ((b, w) ∷ m))
      → o.lt a b ≡ false
  unfolding find
  heads_level a b v w l m u h = elim (Bool-cases (o.lt a b)) [
    | inl below ↦ ground (arith, h a, find-Above a b m u below, eqb_refl a)
    | inr level ↦ level
  ]

  values_agree :
      (a : K) (v w : V) (l m : List (K × V)) → find a ((a, v) ∷ l) ≡ find a ((a, w) ∷ m) → v ≡ w
  unfolding find
  values_agree a v w l m h = ground (arith, eqb_refl a)

  tails_agree :
      (a : K) (v w : V) (l m : List (K × V))
      → Above a (keys l)
      → Above a (keys m)
      → ((k : K) → find k ((a, v) ∷ l) ≡ find k ((a, w) ∷ m))
      → (k : K) → find k l ≡ find k m
  unfolding find
  tails_agree a v w l m s t h k = elim (Bool-cases (eqb k a)) [
    | inl same ↦ rw (eq_of_eqb k a same) (find-Above_self a l s ∙ sym (find-Above_self a m t))
    | inr differ ↦ ground (arith, h k)
  ]

  pub map_ext : (l m : List (K × V)) → IsMap l → IsMap m → ((k : K) → find k l ≡ find k m) → l ≡ m
  unfolding find
  map_ext [] [] s t h = refl
  map_ext [] ((b, w) ∷ m) s t h = ground (arith, h b, eqb_refl b)
  map_ext ((a, v) ∷ l) [] s t h = ground (arith, h a, eqb_refl a)
  map_ext ((a, v) ∷ l) ((b, w) ∷ m) s t h =
      let e : a ≡ b =
        o.total a b (heads_level a b v w l m t.0 h)
          (heads_level b a w v m l s.0 (λ k. sym (h k))) in
      let h' : (k : K) → find k ((a, v) ∷ l) ≡ find k ((a, w) ∷ m) =
        subst (λ c. (k : K) → find k ((a, v) ∷ l) ≡ find k ((c, w) ∷ m)) (sym e) h in
      let above : Above a (keys m) = subst (λ c. Above c (keys m)) (sym e) t.0 in
      ap₂ ◌∷◌ (ap₂ (λ k x. (k, x)) e (values_agree a v w l m (h' a)))
        (map_ext l m s.1 t.1 (tails_agree a v w l m s.0 above h'))
