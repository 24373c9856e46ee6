-- ===== src/Powerset/Distance.antt =====
-- src/AbstractDomain/PointsetPowerset/pointset_powerset_av_impl.hpp: the distance between two sets
-- (`GetDistance`) and the order of distances (`DistFuncComp`). A set's smallest box is the Parma
-- Polyhedra Library's.
use sound_bit_precise_domain.Prelude.{
  ℕ, zero, suc, ◌+◌, ◌*◌, ◌/◌, ◌%◌, ◌^◌, ◌≡◌, refl, Bool, true, false, not, ◌||◌, Option, none,
  some, arith, ltb, leb, ◌==◌, if◌then◌else◌,
}
use sound_bit_precise_domain.Prelude.Int.{ℤ, pos_part, neg_part, ◌-ℤ◌}
use sound_bit_precise_domain.Prelude.Floor.{scale}
use sound_bit_precise_domain.Powerset.Ppl.{Ppl}

-- A numerator and a denominator.
abbrev pub Rational : Type 0
Rational = ℤ × ℕ

-- An interval of a box: nothing is an infinite bound. `is_disjoint` is `intersect_assign` and then
-- `is_empty`.
pub record Boxes (ppl : Ppl) : Type 1 where
  pub Itv : Type 0
  pub get_interval : ppl.Pset → ℕ → Itv
  pub lower : Itv → Option Rational
  pub upper : Itv → Option Rational
  pub is_disjoint : Itv → Itv → Bool

-- Having no elements in common does not depend on the order.
pub record IsExact (ppl : Ppl) (boxes : Boxes ppl) : Type 0 where
  pub is_disjoint_comm : (a b : boxes.Itv) → boxes.is_disjoint a b ≡ boxes.is_disjoint b a

-- The number of incompatible intervals, an `unsigned`, and the sum of the other distances.
abbrev pub Distance : Type 0
Distance = ℕ × ℕ

-- `DistFuncComp`. It decides whether the counts differ by comparing the first count with the
-- second distance.
unfoldable pub dist_func_comp : Distance → Distance → Bool
dist_func_comp a1 a2 = if not (a1.0 == a2.1) then ltb a2.1 a1.0 else ltb a2.1 a1.1

-- What a lower bound and an upper bound of two intervals have between them: `unlike` where just
-- one is infinite, which makes the intervals incompatible.
pub data Gap : Type 0 where
  unlike infinite : Gap
  gap : ℕ → Gap

-- The magnitude of an integer.
unfoldable pub magnitude : ℤ → ℕ
magnitude a = pos_part a + neg_part a

-- The difference of two rationals, cut to an integer when it is assigned to an `mpz_class`, and
-- its sign then dropped.
unfoldable pub rational_gap : Rational → Rational → ℕ
rational_gap a b = magnitude (scale a.0 b.1 -ℤ scale b.0 a.1) / (a.1 * b.1)

unfoldable pub bound_gap : Option Rational → Option Rational → Gap
bound_gap none none = infinite
bound_gap none (some b) = unlike
bound_gap (some a) none = unlike
bound_gap (some a) (some b) = gap (rational_gap a b)

-- The smaller of two gaps, an infinite one only if both are, where the distance is the 0 that
-- `d2` starts with.
unfoldable pub smaller_gap : Gap → Gap → ℕ
smaller_gap (gap d1) (gap d2) = if leb d1 d2 then d1 else d2
smaller_gap (gap d1) infinite = d1
smaller_gap (gap d1) unlike = d1
smaller_gap infinite (gap d2) = d2
smaller_gap infinite infinite = 0
smaller_gap infinite unlike = 0
smaller_gap unlike (gap d2) = d2
smaller_gap unlike infinite = 0
smaller_gap unlike unlike = 0

unfoldable pub is_unlike : Gap → Bool
is_unlike unlike = true
is_unlike infinite = false
is_unlike (gap d) = false

-- One turn of the loop, on the two gaps of a variable.
unfoldable pub add_gaps : Gap → Gap → Bool → Distance → Distance
add_gaps d1 d2 disjoint dist =
    if is_unlike d1 || is_unlike d2
    then ((dist.0 + 1) % 2 ^ 32, dist.1)
    else if disjoint
    then (dist.0, dist.1 + smaller_gap d1 d2)
    else dist

module _ (ppl : Ppl) (boxes : Boxes ppl) where
  unfoldable pub add_interval : boxes.Itv → boxes.Itv → Distance → Distance
  add_interval itv1 itv2 =
      add_gaps (bound_gap (boxes.lower itv1) (boxes.upper itv2))
        (bound_gap (boxes.lower itv2) (boxes.upper itv1)) (boxes.is_disjoint itv1 itv2)

  -- The loop, from the last variable to the first.
  unfoldable pub distance_below : ℕ → ppl.Pset → ppl.Pset → Distance → Distance
  distance_below zero ps1 ps2 dist = dist
  distance_below (suc i) ps1 ps2 dist =
      distance_below i ps1 ps2
        (add_interval (boxes.get_interval ps1 i) (boxes.get_interval ps2 i) dist)

  unfoldable pub get_distance : ppl.Pset → ppl.Pset → Distance
  get_distance ps1 ps2 = distance_below (ppl.space_dimension ps1) ps1 ps2 (0, 0)

smaller_gap_comm : (a b : Gap) → smaller_gap a b ≡ smaller_gap b a
unfolding smaller_gap
smaller_gap_comm (gap d1) (gap d2) = ground arith
smaller_gap_comm (gap d1) infinite = refl
smaller_gap_comm (gap d1) unlike = refl
smaller_gap_comm infinite (gap d2) = refl
smaller_gap_comm infinite infinite = refl
smaller_gap_comm infinite unlike = refl
smaller_gap_comm unlike (gap d2) = refl
smaller_gap_comm unlike infinite = refl
smaller_gap_comm unlike unlike = refl

or_comm : (a b : Bool) → (a || b) ≡ (b || a)
or_comm a b = ground arith

add_gaps_comm :
    (a b : Gap) (disjoint : Bool) (dist : Distance)
    → add_gaps a b disjoint dist ≡ add_gaps b a disjoint dist
unfolding add_gaps
add_gaps_comm a b disjoint dist =
    rw (or_comm (is_unlike a) (is_unlike b), smaller_gap_comm a b) refl

module _ (ppl : Ppl) (boxes : Boxes ppl) (exact : IsExact ppl boxes) where
  add_interval_comm :
      (a b : boxes.Itv) (dist : Distance)
      → add_interval ppl boxes a b dist ≡ add_interval ppl boxes b a dist
  unfolding add_interval
  add_interval_comm a b dist = rw (exact.is_disjoint_comm a b) (add_gaps_comm _ _ _ dist)

  distance_below_comm :
      (i : ℕ) (ps1 ps2 : ppl.Pset) (dist : Distance)
      → distance_below ppl boxes i ps1 ps2 dist ≡ distance_below ppl boxes i ps2 ps1 dist
  unfolding distance_below
  distance_below_comm zero ps1 ps2 dist = refl
  distance_below_comm (suc i) ps1 ps2 dist =
      rw (add_interval_comm (boxes.get_interval ps1 i) (boxes.get_interval ps2 i) dist)
        (distance_below_comm i ps1 ps2 _)

  -- The distance of two sets of one dimension does not depend on their order.
  pub get_distance_comm :
      (ps1 ps2 : ppl.Pset)
      → ppl.space_dimension ps1 ≡ ppl.space_dimension ps2
      → get_distance ppl boxes ps1 ps2 ≡ get_distance ppl boxes ps2 ps1
  unfolding get_distance
  get_distance_comm ps1 ps2 same = rw (same) (distance_below_comm _ ps1 ps2 (0, 0))
