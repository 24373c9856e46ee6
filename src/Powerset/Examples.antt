-- ===== src/Powerset/Examples.antt =====
-- The wrapping of 8-bit variables run on intervals.
use sound_bit_precise_domain.Prelude.{◌≡◌, refl, List, [], ◌∷◌, ok, arith}
use sound_bit_precise_domain.Prelude.Int.{pos, ◌-ℤ◌, ◌+ℤ◌}
use sound_bit_precise_domain.Prelude.Floor.{floor_div, scale}
use sound_bit_precise_domain.Powerset.Ppl.{Point}
use sound_bit_precise_domain.Powerset.WrapAssign.{
  unsigned, overflow_wraps, wrap_assign_pointset_powerset, vars_dimension, wrap_disjuncts,
  wrap_pointset_as_pointset_powerset, add_disjuncts, wrap_variables, wrap_list, classify,
  decide_step, quadrant, min_value, split_or_full, pieces, piece, max_value, keep,
}
use sound_bit_precise_domain.Powerset.WrapPieces.{wrapped}
use sound_bit_precise_domain.Powerset.Interval.{Interval, between, intervals, intervals-IsSound}
use sound_bit_precise_domain.Powerset.WrapOne.{wrap_one_variable}
use sound_bit_precise_domain.Powerset.WrapLoss.{IsPlain, wrap_list_drops_pieces}

-- 100 to 300 covers the quadrants 0 and 1 of an unsigned byte.
abbrev hundreds : Interval
hundreds = between (pos 100) (pos 300)

abbrev digits : Interval
digits = between (pos 0) (pos 9)

wrap_hundreds :
    wrap_assign_pointset_powerset intervals 8 unsigned overflow_wraps 16 (hundreds ∷ []) (0 ∷ [])
    ≡ ok (between (pos 0) (pos 44) ∷ between (pos 100) (pos 255) ∷ [])
unfolding wrap_assign_pointset_powerset vars_dimension wrap_disjuncts
    wrap_pointset_as_pointset_powerset add_disjuncts wrap_variables wrap_list classify decide_step
    quadrant floor_div ◌-ℤ◌ min_value split_or_full ◌+ℤ◌ pieces piece max_value scale
wrap_hundreds = refl

wrap_one_variable_example :
    (res : List Interval) × (wrap_assign_pointset_powerset intervals 8 unsigned overflow_wraps 16
        (hundreds ∷ [])
        (0 ∷ [])
      ≡ ok res)
    × ((p : Point)
        → intervals-IsSound.HasPps (hundreds ∷ []) p
        → intervals-IsSound.HasPps res (wrapped unsigned 8 0 p))
wrap_one_variable_example =
    wrap_one_variable intervals intervals-IsSound 8 unsigned (omega arith) 16 (hundreds ∷ []) 0
      (omega arith)

digits_stay : classify intervals 8 unsigned overflow_wraps 16 0 digits ≡ keep []
unfolding classify decide_step quadrant floor_div ◌-ℤ◌ min_value
digits_stay = refl

hundreds_split : IsPlain (classify intervals 8 unsigned overflow_wraps 16 0 hundreds)
unfolding classify decide_step quadrant floor_div ◌-ℤ◌ min_value split_or_full ◌+ℤ◌
hundreds_split = tt

wrap_list_drops_pieces_example :
    wrap_list intervals 8 unsigned overflow_wraps 16 0 [] (hundreds ∷ digits ∷ []) [] []
    ≡ (hundreds ∷ digits ∷ [], [])
wrap_list_drops_pieces_example =
    wrap_list_drops_pieces intervals 8 unsigned overflow_wraps 16 0 [] (hundreds ∷ []) [] digits []
      (hundreds_split, tt) digits_stay
