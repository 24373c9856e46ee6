-- ===== src/Wrapped/Examples.antt =====
-- Two values over one 32-bit variable that record it as signed and as unsigned.
use sound_bit_precise_domain.Prelude.{
  ◌≡◌, refl, Bool, true, false, [], ◌∷◌, Option, none, some, ok, if◌then◌else◌, arith,
}
use sound_bit_precise_domain.Value.{thirty_two}
use sound_bit_precise_domain.Container.{IsSorted, eqb_refl}
use sound_bit_precise_domain.Container.SortedSet
use sound_bit_precise_domain.Container.SortedMap.{
  IsMap, find, find-insert, insert, first, insert-IsMap,
}
use sound_bit_precise_domain.Dimension.Key.{DimensionKey, key_ord}
use sound_bit_precise_domain.Dimension.Vocabulary.{Vocabulary}
use sound_bit_precise_domain.Signedness.{VocabularySignedness, intersect_signedness}
use sound_bit_precise_domain.Signedness.Lookup.{unmatched}
use sound_bit_precise_domain.Mpz.Exact.{gmp, gmp-IsGmp}
use sound_bit_precise_domain.Wrapped.Record.{Wrapped, wrap, map_eq}
use sound_bit_precise_domain.Wrapped.Listed.{listed, listed-KeepsVocabulary}
use sound_bit_precise_domain.Wrapped.Bounding.{add_bounding_constraints}
use sound_bit_precise_domain.Wrapped.Lattice.{widen, meet, extend, overapproximates}
use sound_bit_precise_domain.Wrapped.WrapExact.{wrap_exact}
use sound_bit_precise_domain.Wrapped.Agree.{overapproximates_returns, overapproximates_diverges}
use sound_bit_precise_domain.Wrapped.Invariant.{
  IsWellFormed, add_bounding_constraints_total, widen_total, meet_total, extend_total,
}

abbrev x_key : DimensionKey
x_key = record { name = 120 ∷ []; ver = 0; bitsize = thirty_two }

abbrev x_only : Vocabulary
x_only = SortedSet.insert x_key []

x_only-IsSorted : IsSorted x_only
x_only-IsSorted = SortedSet.insert-IsSorted x_key [] tt

abbrev x_as : Bool → VocabularySignedness
x_as s = insert x_key s []

x_as-IsMap : (s : Bool) → IsMap (x_as s)
x_as-IsMap s = insert-IsMap x_key s [] tt

abbrev value_with : VocabularySignedness → Wrapped listed
value_with w = record { voc = x_only; av = (x_only, []); wrapped_voc = w }

abbrev as_signed : Wrapped listed
as_signed = value_with (x_as true)

abbrev as_unsigned : Wrapped listed
as_unsigned = value_with (x_as false)

abbrev unwrapped : Wrapped listed
unwrapped = value_with []

finds : (s : Bool) → find x_key (x_as s) ≡ some s
unfolding find
finds s = ground (arith, find-insert x_key x_key s [] tt, eqb_refl x_key)

beside_none : (o : Option Bool) → first none o ≡ first o none
beside_none none = refl
beside_none (some s) = refl

wrap_exact_example :
    (kept : VocabularySignedness) × ((wrap listed false as_signed (x_as false)).av
      ≡ listed.wrap as_signed.av kept)
    × IsMap kept
    × ((q : DimensionKey) → find q kept ≡ unmatched (find q (x_as false)) (find q (x_as true)))
    × IsMap (wrap listed false as_signed (x_as false)).wrapped_voc
    × ((q : DimensionKey)
        → find q (wrap listed false as_signed (x_as false)).wrapped_voc
          ≡ first (find q (x_as false)) (find q (x_as true)))
wrap_exact_example =
    wrap_exact listed false as_signed (x_as false) (x_as-IsMap false) (x_as-IsMap true)

overapproximates_returns_example :
    overapproximates listed (gmp 64) false 2 as_signed unwrapped
    ≡ some (
        if map_eq (x_as true) []
        then true
        else listed.overapproximates
            (wrap listed false as_signed []).av
            (wrap listed false unwrapped (x_as true)).av)
unfolding find
overapproximates_returns_example =
    overapproximates_returns listed (gmp 64) false as_signed unwrapped 0 (x_as-IsMap true) tt
      (λ q. beside_none (find q (x_as true)))

overapproximates_diverges_example :
    overapproximates listed (gmp 64) false 1000 as_signed as_unsigned ≡ none
overapproximates_diverges_example =
    overapproximates_diverges listed (gmp 64) false 1000 as_signed as_unsigned x_key true false
      (x_as-IsMap true) (x_as-IsMap false) (finds true) (finds false) refl

add_bounding_constraints_total_example :
    (r : Wrapped listed) × (add_bounding_constraints (gmp 64) listed false as_signed (x_as false)
      ≡ ok r)
    × IsWellFormed listed r
    × ((q : DimensionKey) (s : Bool)
        → first (find q (x_as false)) (find q (x_as true)) ≡ some s
        → find q r.wrapped_voc ≡ some s)
add_bounding_constraints_total_example =
    add_bounding_constraints_total (gmp 64) 64 (gmp-IsGmp 64) listed listed-KeepsVocabulary false
      as_signed (x_as false) (x_as-IsMap true) (x_as-IsMap false)

widen_total_example :
    (r : Wrapped listed) × (widen listed (gmp 64) false as_signed as_unsigned ≡ ok r)
    × IsWellFormed listed r
    × ((q : DimensionKey) (s : Bool)
        → find q (intersect_signedness (x_as true) (x_as false)) ≡ some s
        → find q r.wrapped_voc ≡ some s)
widen_total_example =
    widen_total (gmp 64) 64 (gmp-IsGmp 64) listed listed-KeepsVocabulary false as_signed as_unsigned
      (x_as-IsMap true) (x_as-IsMap false)

meet_total_example :
    (r : Wrapped listed) × (meet listed (gmp 64) false as_signed as_unsigned ≡ ok r)
    × IsWellFormed listed r
    × ((q : DimensionKey) (s : Bool)
        → first (find q (x_as false)) (find q (x_as true)) ≡ some s
        → find q r.wrapped_voc ≡ some s)
meet_total_example =
    meet_total (gmp 64) 64 (gmp-IsGmp 64) listed listed-KeepsVocabulary false as_signed as_unsigned
      (x_as-IsMap true) (x_as-IsMap false)

extend_total_example :
    (r : Wrapped listed) × (extend listed (gmp 64) false as_signed as_unsigned ≡ ok r)
    × IsWellFormed listed r
extend_total_example =
    extend_total (gmp 64) 64 (gmp-IsGmp 64) listed listed-KeepsVocabulary false as_signed
      as_unsigned (x_as-IsMap true) (x_as-IsMap false)
