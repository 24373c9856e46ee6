-- ===== src/Powerset/Interval.antt =====
-- Intervals of one dimension as the domain of point sets, and lists of them as powersets: an
-- instance of what the code relies on.
use sound_bit_precise_domain.Prelude.{
  ℕ, zero, suc, ◌<◌, ◌≡◌, sym, subst, Bool, true, false, List, [], ◌∷◌, ◌++◌, map, All, Option,
  none, some, if◌then◌else◌, ◌==◌, inl, inr, arith,
}
use sound_bit_precise_domain.Prelude.Int.{ℤ, ◌≤ℤ◌, ◌-ℤ◌, leb_ℤ, int_laws, eq_of_parts}
use sound_bit_precise_domain.Prelude.Floor.{scale, scale_parts}
use sound_bit_precise_domain.Powerset.Ppl.{
  Ppl, IsSound, Point, update, Bound, at_least, at_most, Holds, Any,
}

pub data Interval : Type 0 where
  line : Interval
  between : (lo hi : ℤ) → Interval

abbrev HasValue : Interval → ℤ → Type 0
HasValue line v = Unit
HasValue (between lo hi) v = (lo ≤ℤ v) × (v ≤ℤ hi)

abbrev pub HasPoint : Interval → Point → Type 0
HasPoint s p = HasValue s (p 0)

abbrev minimize : ℕ → Interval → Option (ℤ × ℕ)
minimize zero line = none
minimize zero (between lo hi) = some (lo, 1)
minimize (suc x) s = none

abbrev maximize : ℕ → Interval → Option (ℤ × ℕ)
maximize zero line = none
maximize zero (between lo hi) = some (hi, 1)
maximize (suc x) s = none

abbrev unconstrain : ℕ → Interval → Interval
unconstrain zero s = line
unconstrain (suc x) s = s

abbrev shift : ℕ → ℤ → Interval → Interval
shift zero c line = line
shift zero c (between lo hi) = between (lo -ℤ c) (hi -ℤ c)
shift (suc x) c s = s

abbrev refine_at : Bool → Bound → Interval → Interval
refine_at true (at_least x c) (between lo hi) = between (if leb_ℤ lo c then c else lo) hi
refine_at true (at_most x c) (between lo hi) = between lo (if leb_ℤ hi c then hi else c)
refine_at _ b s = s

abbrev bound_dimension : Bound → ℕ
bound_dimension (at_least x c) = x
bound_dimension (at_most x c) = x

abbrev refine : Bound → Interval → Interval
refine b s = refine_at (bound_dimension b == 0) b s

abbrev refine_each : List Bound → Interval → Interval
refine_each [] s = s
refine_each (b ∷ bs) s = refine_each bs (refine b s)

abbrev is_nil : List Interval → Bool
is_nil [] = true
is_nil (s ∷ q) = false

abbrev pub intervals : Ppl
intervals = record {
  Pset = Interval;
  space_dimension = λ s. 1;
  minimize = minimize;
  maximize = maximize;
  unconstrain = unconstrain;
  shift = shift;
  refine = refine;
  Pps = List Interval;
  pps_dimension = λ q. 1;
  empty = λ n. [];
  is_empty = is_nil;
  disjuncts = λ q. q;
  add_disjunct = λ s q. s ∷ q;
  upper_bound = λ q r. q ++ r;
  refine_all = λ bs q. map (refine_each bs) q;
}

abbrev HasAny : List Interval → Point → Type 0
HasAny q p = Any (λ s. HasPoint s p) q

scale_one : (a : ℤ) → scale a 1 ≡ a
scale_one a = eq_of_parts _ _ (omega (arith, scale_parts a 1))

elsewhere : (x : ℕ) (p : Point) (v : ℤ) → update p (suc x) v 0 ≡ p 0
elsewhere x p v = ground arith

pub minimize_lem :
    (x : ℕ) (s : Interval) (n : ℤ) (d : ℕ) (p : Point)
    → minimize x s ≡ some (n, d)
    → HasPoint s p
    → (0 < d) × (n ≤ℤ scale (p x) d)
minimize_lem zero line n d p e h = ground arith
minimize_lem zero (between lo hi) n d p e h = ground (arith, scale_one (p 0))
minimize_lem (suc x) s n d p e h = ground arith

minus_mono : (a b c : ℤ) → a ≤ℤ b → a -ℤ c ≤ℤ b -ℤ c
minus_mono a b c h = omega int_laws

pub maximize_lem :
    (x : ℕ) (s : Interval) (n : ℤ) (d : ℕ) (p : Point)
    → maximize x s ≡ some (n, d)
    → HasPoint s p
    → (0 < d) × (scale (p x) d ≤ℤ n)
maximize_lem zero line n d p e h = ground arith
maximize_lem zero (between lo hi) n d p e h = ground (arith, scale_one (p 0))
maximize_lem (suc x) s n d p e h = ground arith

pub shift_lem :
    (x : ℕ) (c : ℤ) (s : Interval) (p : Point)
    → HasPoint s p
    → HasPoint (shift x c s) (update p x (p x -ℤ c))
shift_lem zero c line p h = tt
shift_lem zero c (between lo hi) p h = (minus_mono lo (p 0) c h.0, minus_mono (p 0) hi c h.1)
shift_lem (suc x) c s p h = subst (HasValue s) (sym (elsewhere x p (p (suc x) -ℤ c))) h

pub any_left : (q r : List Interval) (p : Point) → HasAny q p → HasAny (q ++ r) p
any_left [] r p h = elim h [ ]
any_left (s ∷ q) r p (inl h) = inl h
any_left (s ∷ q) r p (inr h) = inr (any_left q r p h)

pub any_right : (q r : List Interval) (p : Point) → HasAny r p → HasAny (q ++ r) p
any_right [] r p h = h
any_right (s ∷ q) r p h = inr (any_right q r p h)

pub unconstrain_lem :
    (x : ℕ) (s : Interval) (p : Point) (v : ℤ)
    → HasPoint s p
    → HasPoint (unconstrain x s) (update p x v)
unconstrain_lem zero s p v h = tt
unconstrain_lem (suc x) s p v h = subst (HasValue s) (sym (elsewhere x p v)) h

pub refine_lem :
    (b : Bound) (s : Interval) (p : Point) → HasPoint s p → Holds b p → HasPoint (refine b s) p
refine_lem (at_least zero c) line p h k = tt
refine_lem (at_most zero c) line p h k = tt
refine_lem (at_least zero c) (between lo hi) p h k = ground arith
refine_lem (at_most zero c) (between lo hi) p h k = ground arith
refine_lem (at_least (suc x) c) s p h k = ground arith
refine_lem (at_most (suc x) c) s p h k = ground arith

refine_each_lem :
    (bs : List Bound) (s : Interval) (p : Point)
    → HasPoint s p
    → All (λ b. Holds b p) bs
    → HasPoint (refine_each bs s) p
refine_each_lem [] s p h k = h
refine_each_lem (b ∷ bs) s p h k = refine_each_lem bs (refine b s) p (refine_lem b s p h k.0) k.1

pub refine_all_lem :
    (bs : List Bound) (q : List Interval) (p : Point)
    → HasAny q p
    → All (λ b. Holds b p) bs
    → HasAny (map (refine_each bs) q) p
refine_all_lem bs [] p h k = h
refine_all_lem bs (s ∷ q) p (inl h) k = inl (refine_each_lem bs s p h k)
refine_all_lem bs (s ∷ q) p (inr h) k = inr (refine_all_lem bs q p h k)

pub is_nil_lem : (q : List Interval) (p : Point) → is_nil q ≡ true → HasAny q p → ⊥
is_nil_lem [] p e h = h
is_nil_lem (s ∷ q) p e h = ground arith

abbrev pub intervals-IsSound : IsSound intervals
intervals-IsSound = record {
  Has = HasPoint;
  HasPps = HasAny;
  minimize_bound = minimize_lem;
  maximize_bound = maximize_lem;
  unconstrain_free = unconstrain_lem;
  shift_image = shift_lem;
  refine_keeps = refine_lem;
  is_empty_none = is_nil_lem;
  disjuncts_cover = λ q p h. h;
  add_disjunct_new = λ s q p h. inl h;
  add_disjunct_old = λ s q p h. inr h;
  upper_bound_left = any_left;
  upper_bound_right = any_right;
  refine_all_keeps = refine_all_lem;
}
