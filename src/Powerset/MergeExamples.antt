-- ===== src/Powerset/MergeExamples.antt =====
-- Merging intervals.
use sound_bit_precise_domain.Prelude.{◌≡◌, ◌≤◌, refl, false, List, [], ◌∷◌, some, arith, length}
use sound_bit_precise_domain.Prelude.Int.{pos, ◌-ℤ◌}
use sound_bit_precise_domain.Prelude.Floor.{scale}
use sound_bit_precise_domain.Powerset.Ppl.{Point, Any}
use sound_bit_precise_domain.Powerset.Interval.{Interval, between, intervals, intervals-IsSound}
use sound_bit_precise_domain.Powerset.Distance.{
  dist_func_comp, get_distance, distance_below, add_interval, add_gaps, bound_gap, rational_gap,
  magnitude, smaller_gap, is_unlike,
}
use sound_bit_precise_domain.Powerset.Merge.{
  Pair, Cells, merged, merge_heuristic, merge_loop, merge_step, join_cells, take_out, allocate,
  insert_pairs, insert_from, insert_with, insert_pair, keep_apart, is_apart, add_all,
}
use sound_bit_precise_domain.Powerset.MergeSound.{merged_lem, merge_heuristic_sound}
use sound_bit_precise_domain.Powerset.IntervalMerge.{
  interval_boxes, interval_merging, interval_merging-IsMerging,
}

abbrev ones : Interval
ones = between (pos 0) (pos 9)

abbrev tens : Interval
tens = between (pos 12) (pos 99)

abbrev far : Interval
far = between (pos 1000) (pos 1001)

abbrev ones_tens : Pair
ones_tens = record { first = 0; second = 1; distance = (0, 3) }

abbrev ones_far : Pair
ones_far = record { first = 0; second = 2; distance = (0, 991) }

-- The distance of two bounded intervals is that of their near ends.
near : get_distance intervals interval_boxes ones tens ≡ (0, 3)
unfolding get_distance distance_below add_interval add_gaps bound_gap rational_gap magnitude
    smaller_gap is_unlike ◌-ℤ◌ scale
near = refl

-- Three intervals, down to two sets: of the pairs only the first is kept, whatever its distance, so
-- the far interval is joined with the first while the other two lie close together.
first_two :
    merge_heuristic intervals interval_merging 2 false (ones ∷ far ∷ tens ∷ [])
    ≡ some (between (pos 0) (pos 1001) ∷ tens ∷ [])
unfolding merge_heuristic merged merge_loop merge_step join_cells take_out allocate insert_pairs
    insert_from insert_with insert_pair keep_apart is_apart add_all dist_func_comp get_distance
    distance_below add_interval add_gaps bound_gap rational_gap magnitude smaller_gap is_unlike ◌-ℤ◌
    scale
first_two = refl

merged_lem_example :
    (res : Cells intervals interval_merging) × (merged intervals interval_merging 2
        (ones ∷ tens ∷ far ∷ [])
      ≡ some res)
    × (length res ≤ 2)
    × ((p : Point)
        → Any (λ s. intervals-IsSound.Has s p) (ones ∷ tens ∷ far ∷ [])
        → Any (λ c. intervals-IsSound.Has c.1 p) res)
merged_lem_example =
    merged_lem intervals intervals-IsSound interval_merging interval_merging-IsMerging 2
      (ones ∷ tens ∷ far ∷ []) (omega arith)

merge_heuristic_sound_example :
    (res : List Interval) × (merge_heuristic intervals interval_merging 2 false
        (ones ∷ tens ∷ far ∷ [])
      ≡ some res)
    × ((p : Point)
        → intervals-IsSound.HasPps (ones ∷ tens ∷ far ∷ []) p
        → intervals-IsSound.HasPps res p)
merge_heuristic_sound_example =
    merge_heuristic_sound intervals intervals-IsSound interval_merging interval_merging-IsMerging 2
      false (ones ∷ tens ∷ far ∷ []) (omega arith)
