-- ===== src/Powerset/WrapPieces.antt =====
-- The pieces that a set is split into cover the wrapped image of each of its points.
use native.Mathlib.Nat.{pow-suc, one-le-pow}
use sound_bit_precise_domain.Prelude.{
  ℕ, zero, suc, ◌+◌, ◌-◌, ◌*◌, ◌^◌, ◌<◌, ◌≡◌, sym, subst, inl, inr, true, false, arith, ◌==◌,
  Bool-cases, ==_iff,
}
use mathlib.Core.Path.{fun_ext}
use sound_bit_precise_domain.Prelude.Int.{
  ℤ, pos, pos_part, neg_part, sub_ℕ, ◌+ℤ◌, ◌-ℤ◌, ◌≤ℤ◌, leb_ℤ, +ℤ_parts, -ℤ_parts, eq_of_parts,
  int_laws,
}
use sound_bit_precise_domain.Prelude.Floor.{floor_div, scale, floor_div_rest}
use sound_bit_precise_domain.Powerset.Ppl.{Ppl, IsSound, Point, at_least, at_most, Any, update}
use sound_bit_precise_domain.Powerset.WrapAssign.{
  Representation, Overflow, unsigned, signed_2_complement, min_value, max_value, is_zero, piece,
  pieces,
}

two-pow-half : (w : ℕ) → 0 < w → 2 ^ w ≡ 2 ^ (w - 1) * 2
two-pow-half zero h = elim h [ ]
two-pow-half (suc w) h = let e : suc w - 1 ≡ w = omega arith in rw e (pow-suc 2 w)

pub modulus_pos : (w : ℕ) → 0 < 2 ^ w
modulus_pos w = omega (arith, one-le-pow w 2 (omega arith))

negated : (n : ℕ) → (pos_part (sub_ℕ 0 n) ≡ 0) × (neg_part (sub_ℕ 0 n) ≡ n)
negated n = ground arith

-- The largest value lies 2 ^ w - 1 above the least.
value_range :
    (r : Representation) (w : ℕ) → 0 < w → max_value r w ≡ min_value r w +ℤ pos (2 ^ w - 1)
unfolding max_value min_value
value_range unsigned w h = eq_of_parts _ _ (omega (arith, +ℤ_parts (pos 0) (pos (2 ^ w - 1))))
value_range signed_2_complement w h =
    let m = 2 ^ w in
    let k = 2 ^ (w - 1) in
    eq_of_parts _ _ (
      omega (
        arith,
        +ℤ_parts (sub_ℕ 0 (2 ^ (w - 1))) (pos (2 ^ w - 1)),
        negated (2 ^ (w - 1)),
        two-pow-half w h,
        modulus_pos (w - 1),
      ))

-- The quadrant of a value, and the value of the machine integer that it wraps to.
unfoldable pub quadrant_of : Representation → ℕ → ℤ → ℤ
quadrant_of r w v = floor_div (v -ℤ min_value r w) (2 ^ w)

unfoldable pub wrap_value : Representation → ℕ → ℤ → ℤ
wrap_value r w v = v -ℤ scale (quadrant_of r w v) (2 ^ w)

shifted_range :
    (m v s : ℤ) (k : ℕ)
    → pos 0 ≤ℤ v -ℤ m -ℤ s
    → v -ℤ m -ℤ s ≤ℤ pos k
    → (m ≤ℤ v -ℤ s) × (v -ℤ s ≤ℤ m +ℤ pos k)
shifted_range m v s k lo hi = omega int_laws

-- A wrapped value lies in the range of the type.
pub wrap_value_in_range :
    (r : Representation) (w : ℕ) (v : ℤ)
    → 0 < w
    → (min_value r w ≤ℤ wrap_value r w v) × (wrap_value r w v ≤ℤ max_value r w)
unfolding wrap_value quadrant_of
wrap_value_in_range r w v h =
    let rest = floor_div_rest (v -ℤ min_value r w) (2 ^ w) (modulus_pos w) in
    rw (value_range r w h) (shifted_range (min_value r w) v _ (2 ^ w - 1) rest.0 rest.1)

unfoldable pub wrapped : Representation → ℕ → ℕ → Point → Point
wrapped r w x p = update p x (wrap_value r w (p x))

pub wrapped_at :
    (r : Representation) (w x : ℕ) (p : Point) → wrapped r w x p x ≡ wrap_value r w (p x)
unfolding wrapped
wrapped_at r w x p = ground arith

-- A point whose value lies in quadrant 0 is its own wrapped image.
pub wrapped_in_range :
    (r : Representation) (w x : ℕ) (p : Point) → quadrant_of r w (p x) ≡ pos 0 → wrapped r w x p ≡ p
unfolding wrapped wrap_value scale
wrapped_in_range r w x p h = fun_ext λ y. elim (Bool-cases (y == x)) [
  | inl here ↦
      rw (here, h, (==_iff y x).0 here)
        (eq_of_parts _ _ (omega (arith, -ℤ_parts (p x) (pos (0 * 2 ^ w)))))
  | inr elsewhere ↦ rw elsewhere
]

pub eq_of_is_zero : (a : ℤ) → is_zero a ≡ true → a ≡ pos 0
eq_of_is_zero a h = ground arith

part_lt : (a b : ℤ) → leb_ℤ a b ≡ false → pos_part b + neg_part a < pos_part a + neg_part b
part_lt a b h = ground arith

below_of_leb : (a b : ℤ) → leb_ℤ a b ≡ false → b +ℤ pos 1 ≤ℤ a
below_of_leb a b h = omega (int_laws, part_lt a b h)

module _ (ppl : Ppl) (snd : IsSound ppl) (w : ℕ) (r : Representation) (w_pos : 0 < w) where
  -- A set that has the wrapped image of a point keeps it under the range constraints.
  in_full_range :
      (x : ℕ) (t : ppl.Pset) (p : Point)
      → snd.Has t (wrapped r w x p)
      → snd.Has
          (ppl.refine (at_most x (max_value r w)) (ppl.refine (at_least x (min_value r w)) t))
          (wrapped r w x p)
  in_full_range x t p h =
      let range =
        subst (λ v. (min_value r w ≤ℤ v) × (v ≤ℤ max_value r w)) (sym (wrapped_at r w x p))
          (wrap_value_in_range r w (p x) w_pos) in
      snd.refine_keeps _ _ _ (snd.refine_keeps _ _ _ h range.0) range.1

  -- The piece of the value's quadrant has the wrapped image.
  piece_has :
      (o : Overflow) (threshold x : ℕ) (s : ppl.Pset) (p : Point)
      → snd.Has s p
      → snd.Has (piece ppl w r o threshold x s (quadrant_of r w (p x))) (wrapped r w x p)
  unfolding piece
  piece_has o threshold x s p h = elim (Bool-cases (is_zero (quadrant_of r w (p x)))) [
    | inl zeroth ↦
        rw (zeroth, piece)
          (in_full_range x s p
            (subst (snd.Has s) (sym (wrapped_in_range r w x p (eq_of_is_zero _ zeroth))) h))
    | inr other ↦
        rw (other, piece)
          (in_full_range x (ppl.shift x (scale (quadrant_of r w (p x)) (2 ^ w)) s) p
            (unfold wrapped wrap_value in snd.shift_image x _ s p h))
  ]

  -- A value from `first` on and below `first + n` lies in one of the `n` pieces.
  pub pieces_has :
      (o : Overflow) (threshold x : ℕ) (s : ppl.Pset) (p : Point) (first : ℤ) (n : ℕ)
      → snd.Has s p
      → first ≤ℤ quadrant_of r w (p x)
      → quadrant_of r w (p x) +ℤ pos 1 ≤ℤ first +ℤ pos n
      → Any (λ t. snd.Has t (wrapped r w x p)) (pieces ppl w r o threshold x s first n)
  unfolding pieces
  pieces_has o threshold x s p first zero h lo hi = absurd (omega int_laws)
  pieces_has o threshold x s p first (suc n) h lo hi =
      elim (Bool-cases (leb_ℤ (quadrant_of r w (p x)) first)) [
        | inl level ↦
            let e : quadrant_of r w (p x) ≡ first = eq_of_parts _ _ (ground arith) in
            inl (
              subst (λ q. snd.Has (piece ppl w r o threshold x s q) (wrapped r w x p)) e
                (piece_has o threshold x s p h))
        | inr above ↦
            let gt : first +ℤ pos 1 ≤ℤ quadrant_of r w (p x) =
              below_of_leb (quadrant_of r w (p x)) first above in
            inr (pieces_has o threshold x s p (first +ℤ pos 1) n h gt (omega int_laws))
      ]
