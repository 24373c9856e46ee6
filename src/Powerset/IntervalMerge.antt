-- ===== src/Powerset/IntervalMerge.antt =====
-- Intervals of one dimension with what merging sets relies on.
use sound_bit_precise_domain.Prelude.{
  ◌≡◌, refl, Bool, false, not, ◌&&◌, [], Option, none, some, if◌then◌else◌, arith,
}
use sound_bit_precise_domain.Prelude.Int.{ℤ, ◌≤ℤ◌, leb_ℤ}
use sound_bit_precise_domain.Powerset.Ppl.{Point}
use sound_bit_precise_domain.Powerset.Interval.{
  Interval, line, between, HasPoint, intervals, intervals-IsSound,
}
use sound_bit_precise_domain.Powerset.Distance.{Boxes, IsExact, Rational}
use sound_bit_precise_domain.Powerset.Merge.{Merging}
use sound_bit_precise_domain.Powerset.MergeSound.{IsMerging}

abbrev lower : Interval → Option Rational
lower line = none
lower (between lo hi) = some (lo, 1)

abbrev upper : Interval → Option Rational
upper line = none
upper (between lo hi) = some (hi, 1)

abbrev is_disjoint : Interval → Interval → Bool
is_disjoint line b = false
is_disjoint (between a b) line = false
is_disjoint (between a b) (between c d) = not (leb_ℤ a d && leb_ℤ c b)

and_comm : (a b : Bool) → (a && b) ≡ (b && a)
and_comm a b = ground arith

is_disjoint_comm : (a b : Interval) → is_disjoint a b ≡ is_disjoint b a
is_disjoint_comm line line = refl
is_disjoint_comm line (between c d) = refl
is_disjoint_comm (between a b) line = refl
is_disjoint_comm (between a b) (between c d) = rw (and_comm (leb_ℤ a d) (leb_ℤ c b)) refl

abbrev hull : Interval → Interval → Interval
hull line b = line
hull (between a b) line = line
hull (between a b) (between c d) = between (if leb_ℤ a c then a else c) (if leb_ℤ b d then d else b)

lower_left : (a c v : ℤ) → a ≤ℤ v → (if leb_ℤ a c then a else c) ≤ℤ v
lower_left a c v h = ground (arith, h)

lower_right : (a c v : ℤ) → c ≤ℤ v → (if leb_ℤ a c then a else c) ≤ℤ v
lower_right a c v h = ground (arith, h)

upper_left : (b d v : ℤ) → v ≤ℤ b → v ≤ℤ (if leb_ℤ b d then d else b)
upper_left b d v h = ground (arith, h)

upper_right : (b d v : ℤ) → v ≤ℤ d → v ≤ℤ (if leb_ℤ b d then d else b)
upper_right b d v h = ground (arith, h)

hull_left : (s t : Interval) (p : Point) → HasPoint s p → HasPoint (hull s t) p
hull_left line t p h = tt
hull_left (between a b) line p h = tt
hull_left (between a b) (between c d) p h = (lower_left a c (p 0) h.0, upper_left b d (p 0) h.1)

hull_right : (s t : Interval) (p : Point) → HasPoint t p → HasPoint (hull s t) p
hull_right line t p h = tt
hull_right (between a b) line p h = tt
hull_right (between a b) (between c d) p h = (lower_right a c (p 0) h.0, upper_right b d (p 0) h.1)

abbrev pub interval_boxes : Boxes intervals
interval_boxes = record {
  Itv = Interval;
  get_interval = λ s x. s;
  lower = lower;
  upper = upper;
  is_disjoint = is_disjoint;
}

pub interval_boxes-IsExact : IsExact intervals interval_boxes
interval_boxes-IsExact = record { is_disjoint_comm = is_disjoint_comm }

abbrev pub interval_merging : Merging intervals
interval_merging = record {
  boxes = interval_boxes;
  upper_bound_assign = hull;
  omega_reduce = λ q. q;
  clear = λ q. [];
}

pub interval_merging-IsMerging : IsMerging intervals intervals-IsSound interval_merging
interval_merging-IsMerging = record {
  upper_bound_left = hull_left;
  upper_bound_right = hull_right;
  omega_reduce_keeps = λ q p h. h;
}
