-- ===== src/Powerset/Ppl.antt =====
-- What the source calls of the Parma Polyhedra Library, which it does not contain: a domain of
-- point sets (`PSET`) and finite powersets of it. `Ppl` has the operations, and `IsSound` what the
-- library documents of them, as containment of integer points.
use sound_bit_precise_domain.Prelude.{
  ℕ, ◌<◌, ◌≡◌, Bool, true, List, All, Option, some, ◌==◌, if◌then◌else◌, ◌⊎◌,
}
use mathlib.Core.List.{[], ◌∷◌}
use sound_bit_precise_domain.Prelude.Int.{ℤ, ◌≤ℤ◌, ◌-ℤ◌}
use sound_bit_precise_domain.Prelude.Floor.{scale}

-- A value for each dimension.
abbrev pub Point : Type 0
Point = ℕ → ℤ

abbrev pub update : Point → ℕ → ℤ → Point
update p x v y = if y == x then v else p y

-- The constraints `c <= x` and `x <= c`.
pub data Bound : Type 0 where
  at_least at_most : ℕ → ℤ → Bound

abbrev pub Holds : Bound → Point → Type 0
Holds (at_least x c) p = c ≤ℤ p x
Holds (at_most x c) p = p x ≤ℤ c

-- The predicate holds of some element.
abbrev pub Any {ℓ} : {A : Type ℓ} → (A → Type 0) → List A → Type 0
Any P [] = ⊥
Any P (a ∷ l) = P a ⊎ Any P l

-- `minimize` and `maximize` give a numerator and a denominator, or nothing where the set is empty
-- or not bounded. `shift x c` is `affine_image(x, x - c, 1)`.
pub record Ppl : Type 1 where
  pub Pset : Type 0
  pub space_dimension : Pset → ℕ
  pub minimize : ℕ → Pset → Option (ℤ × ℕ)
  pub maximize : ℕ → Pset → Option (ℤ × ℕ)
  pub unconstrain : ℕ → Pset → Pset
  pub shift : ℕ → ℤ → Pset → Pset
  pub refine : Bound → Pset → Pset
  pub Pps : Type 0
  pub pps_dimension : Pps → ℕ
  pub empty : ℕ → Pps
  pub is_empty : Pps → Bool
  pub disjuncts : Pps → List Pset
  pub add_disjunct : Pset → Pps → Pps
  pub upper_bound : Pps → Pps → Pps
  pub refine_all : List Bound → Pps → Pps

-- The points of a set, and of a powerset.
pub record IsSound (ppl : Ppl) : Type 1 where
  pub Has : ppl.Pset → Point → Type 0
  pub HasPps : ppl.Pps → Point → Type 0
  pub minimize_bound :
      (x : ℕ) (s : ppl.Pset) (n : ℤ) (d : ℕ) (p : Point)
      → ppl.minimize x s ≡ some (n, d)
      → Has s p
      → (0 < d) × (n ≤ℤ scale (p x) d)
  pub maximize_bound :
      (x : ℕ) (s : ppl.Pset) (n : ℤ) (d : ℕ) (p : Point)
      → ppl.maximize x s ≡ some (n, d)
      → Has s p
      → (0 < d) × (scale (p x) d ≤ℤ n)
  pub unconstrain_free :
      (x : ℕ) (s : ppl.Pset) (p : Point) (v : ℤ)
      → Has s p
      → Has (ppl.unconstrain x s) (update p x v)
  pub shift_image :
      (x : ℕ) (c : ℤ) (s : ppl.Pset) (p : Point)
      → Has s p
      → Has (ppl.shift x c s) (update p x (p x -ℤ c))
  pub refine_keeps :
      (b : Bound) (s : ppl.Pset) (p : Point) → Has s p → Holds b p → Has (ppl.refine b s) p
  pub is_empty_none : (q : ppl.Pps) (p : Point) → ppl.is_empty q ≡ true → HasPps q p → ⊥
  pub disjuncts_cover :
      (q : ppl.Pps) (p : Point) → HasPps q p → Any (λ s. Has s p) (ppl.disjuncts q)
  pub add_disjunct_new :
      (s : ppl.Pset) (q : ppl.Pps) (p : Point) → Has s p → HasPps (ppl.add_disjunct s q) p
  pub add_disjunct_old :
      (s : ppl.Pset) (q : ppl.Pps) (p : Point) → HasPps q p → HasPps (ppl.add_disjunct s q) p
  pub upper_bound_left : (q r : ppl.Pps) (p : Point) → HasPps q p → HasPps (ppl.upper_bound q r) p
  pub upper_bound_right : (q r : ppl.Pps) (p : Point) → HasPps r p → HasPps (ppl.upper_bound q r) p
  pub refine_all_keeps :
      (bs : List Bound) (q : ppl.Pps) (p : Point)
      → HasPps q p
      → All (λ b. Holds b p) bs
      → HasPps (ppl.refine_all bs q) p
