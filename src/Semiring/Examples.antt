-- ===== src/Semiring/Examples.antt =====
-- Weights over one variable before and after a step.
use sound_bit_precise_domain.Prelude.{◌≡◌, refl, ◌⊎◌, true, false, [], ◌∷◌, none, ok, ◌>>=◌, arith}
use sound_bit_precise_domain.Value.{thirty_two}
use sound_bit_precise_domain.Container.SortedSet.{insert}
use sound_bit_precise_domain.Dimension.Key.{DimensionKey, key_ord}
use sound_bit_precise_domain.Dimension.Vocabulary.{Vocabulary}
use sound_bit_precise_domain.Semiring.{
  Weight, WideningType, regular_weight, widening_weight, widening_rule, combine, extend_weight,
  extend_av, set_to_syntactic_one,
}
use sound_bit_precise_domain.Wrapped.Meaning.{State}
use sound_bit_precise_domain.Prelude.Int.{pos}
use sound_bit_precise_domain.Container.SortedSet.{contains, contains-insert}
use sound_bit_precise_domain.Container.{eq_of_eqb}
use sound_bit_precise_domain.Prelude.{◌≢◌}
use sound_bit_precise_domain.Semiring.{compose}
use sound_bit_precise_domain.Semiring.Compose.{IsRelational, composed, compose_has}
use sound_bit_precise_domain.Semiring.Flat.{flat, flat-IsSoundDomain}
use sound_bit_precise_domain.Semiring.Rules.{extend_table, extend_follows_table}
use sound_bit_precise_domain.Semiring.Identity.{IsIdentity, set_to_syntactic_one_has}
use sound_bit_precise_domain.Semiring.Sound.{HasStep, combine_has, combine_keeps_type}

abbrev x_before : DimensionKey
x_before = record { name = 120 ∷ []; ver = 0; bitsize = thirty_two }

abbrev x_after : DimensionKey
x_after = record { name = 120 ∷ []; ver = 1; bitsize = thirty_two }

abbrev x_both : Vocabulary
x_both = insert x_before (insert x_after [])

abbrev all_steps : WideningType → Weight flat
all_steps t = record { av = (x_both, false); from = 97 ∷ []; to = 98 ∷ []; t = t; is_one = false }

abbrev unchanged : Weight flat
unchanged = record { av = (x_both, false); from = []; to = []; t = regular_weight; is_one = true }

extend_follows_table_example :
    extend_weight flat none (all_steps regular_weight) (all_steps widening_rule) ≡ (
      extend_table regular_weight widening_rule >>= λ t. ok (record {
        av = extend_av flat none (x_both, false) (x_both, false);
        from = 97 ∷ [];
        to = 98 ∷ [];
        t = t;
        is_one = false;
      }))
extend_follows_table_example =
    extend_follows_table flat none (all_steps regular_weight) (all_steps widening_rule) refl refl
      refl refl

set_to_syntactic_one_has_example :
    (r : Weight flat) × (set_to_syntactic_one flat unchanged ≡ ok r)
    × (r.is_one ≡ false)
    × (r.from ≡ unchanged.from)
    × (r.to ≡ unchanged.to)
    × (r.t ≡ regular_weight)
    × ((p : State) → IsIdentity p → flat-IsSoundDomain.Has r.av p)
set_to_syntactic_one_has_example = set_to_syntactic_one_has flat flat-IsSoundDomain unchanged refl

combine_has_example :
    (r : Weight flat) × (combine flat false unchanged (all_steps widening_weight) ≡ ok r)
    × ((p : State)
        → HasStep flat flat-IsSoundDomain unchanged p
          ⊎ HasStep flat flat-IsSoundDomain (all_steps widening_weight) p
        → HasStep flat flat-IsSoundDomain r p)
combine_has_example =
    combine_has flat flat-IsSoundDomain false unchanged (all_steps widening_weight)
      (λ e. ground arith) refl refl (λ e. refl) (λ e. refl)

combine_keeps_type_example :
    (r : Weight flat) × (combine flat false (all_steps widening_weight) unchanged ≡ ok r)
    × (r.is_one ≡ false)
    × (r.t ≡ widening_weight)
combine_keeps_type_example =
    combine_keeps_type flat flat-IsSoundDomain (all_steps widening_weight) unchanged refl refl refl
      refl

flat-IsRelational : IsRelational flat flat-IsSoundDomain
flat-IsRelational = record {
  local = λ a p s e h. h;
  renamed = λ a vm p s e h. h;
  project_only = λ a v k h. h;
}

-- The state in which every dimension is 7.
abbrev sevens : State
sevens k = pos 7

no_version_two : (k : DimensionKey) → contains k x_both ≡ true → k.ver ≢ 2
unfolding contains
no_version_two k c = ground (
  arith,
  contains-insert k x_before (insert x_after []),
  contains-insert k x_after [],
  eq_of_eqb k x_before,
  eq_of_eqb k x_after,
)

compose_has_example :
    flat-IsSoundDomain.Has (compose flat (x_both, false) (x_both, false)) (composed sevens sevens)
compose_has_example =
    compose_has flat flat-IsSoundDomain flat-IsRelational (x_both, false) (x_both, false) sevens
      sevens no_version_two no_version_two (λ k e. refl) (λ k e f. refl) refl refl
