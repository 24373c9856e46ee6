-- ===== src/Powerset/WrapSound.antt =====
-- Wrapping one variable of a list of sets keeps the wrapped image of every point, if the loop
-- treats all the sets of the list alike.
use sound_bit_precise_domain.Prelude.{
  ℕ, ◌^◌, ◌<◌, ◌≡◌, refl, subst, inl, inr, Bool, true, List, [], arith, ◌&&◌, Option-cases,
  Bool-cases, some, leb,
}
use sound_bit_precise_domain.Prelude.Int.{ℤ, pos, negsuc, ◌+ℤ◌, ◌-ℤ◌, ◌≤ℤ◌, int_laws, eq_of_parts}
use sound_bit_precise_domain.Prelude.Floor.{floor_div_mono, floor_div_le, le-floor_div}
use sound_bit_precise_domain.Powerset.Ppl.{Ppl, IsSound, Point, Any}
use sound_bit_precise_domain.Powerset.WrapAssign.{
  Representation, overflow_wraps, Step, full, keep, split, is_zero, quadrant, classify, decide_step,
  split_or_full,
}
use sound_bit_precise_domain.Powerset.WrapPieces.{quadrant_of, modulus_pos, eq_of_is_zero}

-- What a step must say of a value's quadrant to treat the value's point soundly.
abbrev pub Covers : ℤ → Step → Type 0
Covers q full = Unit
Covers q (keep extra) = (extra ≡ []) × (q ≡ pos 0)
Covers q (split first n) = (first ≤ℤ q) × (q +ℤ pos 1 ≤ℤ first +ℤ pos n)

minus_mono : (a b m : ℤ) → a ≤ℤ b → a -ℤ m ≤ℤ b -ℤ m
minus_mono a b m h = omega int_laws

zero_between : (a b q : ℤ) → a ≡ pos 0 → b ≡ pos 0 → a ≤ℤ q → q ≤ℤ b → q ≡ pos 0
zero_between a b q ea eb h k =
    let lo = subst (λ c. c ≤ℤ q) ea h in
    let hi = subst (λ c. q ≤ℤ c) eb k in eq_of_parts _ _ (omega (arith, lo, hi))

-- The number of quadrants from `first` to `last`.
count_quadrants :
    (first last q n : ℤ) → q ≤ℤ last → last -ℤ first +ℤ pos 1 ≡ n → q +ℤ pos 1 ≤ℤ first +ℤ n
count_quadrants first last q n h e = subst (λ k. q +ℤ pos 1 ≤ℤ first +ℤ k) e (omega int_laws)

both_true : (a b : Bool) → a && b ≡ true → (a ≡ true) × (b ≡ true)
both_true a b h = ground arith

module _ (ppl : Ppl) (snd : IsSound ppl) (w : ℕ) (r : Representation) (w_pos : 0 < w)
    (threshold : ℕ) where
  quadrant_le :
      (x : ℕ) (s : ppl.Pset) (p : Point) (n : ℤ) (d : ℕ)
      → snd.Has s p
      → ppl.minimize x s ≡ some (n, d)
      → quadrant ppl w r overflow_wraps threshold (n, d) ≤ℤ quadrant_of r w (p x)
  unfolding quadrant quadrant_of
  quadrant_le x s p n d h e =
      let b = snd.minimize_bound x s n d p e h in
      floor_div_mono _ _ (2 ^ w) (modulus_pos w) (minus_mono _ _ _ (floor_div_le n (p x) d b.0 b.1))

  le-quadrant :
      (x : ℕ) (s : ppl.Pset) (p : Point) (n : ℤ) (d : ℕ)
      → snd.Has s p
      → ppl.maximize x s ≡ some (n, d)
      → quadrant_of r w (p x) ≤ℤ quadrant ppl w r overflow_wraps threshold (n, d)
  unfolding quadrant quadrant_of
  le-quadrant x s p n d h e =
      let b = snd.maximize_bound x s n d p e h in
      floor_div_mono _ _ (2 ^ w) (modulus_pos w) (minus_mono _ _ _ (le-floor_div n (p x) d b.0 b.1))

  split_or_full_at :
      (first q n : ℤ)
      → first ≤ℤ q
      → q +ℤ pos 1 ≤ℤ first +ℤ n
      → Covers q (split_or_full ppl w r overflow_wraps threshold first n)
  unfolding split_or_full
  split_or_full_at first q (negsuc n) lo hi = tt
  split_or_full_at first q (pos n) lo hi = elim (Bool-cases (leb n threshold)) [
    | inl few ↦ rw few (lo, hi)
    | inr many ↦ rw many tt
  ]

  split_or_full-Covers :
      (first last q : ℤ)
      → first ≤ℤ q
      → q ≤ℤ last
      → Covers q (split_or_full ppl w r overflow_wraps threshold first (last -ℤ first +ℤ pos 1))
  split_or_full-Covers first last q lo hi =
      split_or_full_at first q (last -ℤ first +ℤ pos 1) lo
        (count_quadrants first last q (last -ℤ first +ℤ pos 1) hi refl)

  decide_step-Covers :
      (x : ℕ) (first last q : ℤ)
      → first ≤ℤ q
      → q ≤ℤ last
      → Covers q (decide_step ppl w r overflow_wraps threshold x first last)
  unfolding decide_step
  decide_step-Covers x first last q lo hi = elim (Bool-cases (is_zero first && is_zero last)) [
    | inl zeros ↦
        let z = both_true (is_zero first) (is_zero last) zeros in
        rw zeros
          (refl, zero_between first last q (eq_of_is_zero first z.0) (eq_of_is_zero last z.1) lo hi)
    | inr other ↦ rw other (split_or_full-Covers first last q lo hi)
  ]

  pub classify-Covers :
      (x : ℕ) (s : ppl.Pset) (p : Point)
      → snd.Has s p
      → Covers (quadrant_of r w (p x)) (classify ppl w r overflow_wraps threshold x s)
  unfolding classify
  classify-Covers x s p h = elim (Option-cases (ppl.minimize x s)) [
    | inl e ↦ rw (e, classify) tt
    | inr (l, e) ↦ elim (Option-cases (ppl.maximize x s)) [
      | inl f ↦ rw (e, f, classify) tt
      | inr (u, f) ↦
          rw (e, f, classify)
            (decide_step-Covers x _ _ _ (quadrant_le x s p l.0 l.1 h e)
              (le-quadrant x s p u.0 u.1 h f))
    ]
  ]

-- The points of a list of sets.
abbrev pub HasAny : (ppl : Ppl) (snd : IsSound ppl) → List ppl.Pset → Point → Type 0
HasAny ppl snd l p = Any (λ s. snd.Has s p) l
