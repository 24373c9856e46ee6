-- ===== src/WrappedInt/Record.antt =====
-- The state of an integer, the ways to make one, assignment to a variable, and its relations.
use sound_bit_precise_domain.Prelude.{
  ℕ, zero, suc, ◌+◌, ◌/◌, ◌%◌, Bool, true, false, not, ◌&&◌, ◌||◌, List, [], ◌∷◌, Option, none,
  some, if◌then◌else◌, ltb, Result, err, ok, ◌>>=◌, assertion,
}
use sound_bit_precise_domain.Prelude.Int.{ℤ, pos}
use sound_bit_precise_domain.Value.{Bitsize}
use sound_bit_precise_domain.Container.SortedSet.{contains}
use sound_bit_precise_domain.Container.SortedSet
use sound_bit_precise_domain.Container.SortedMap
use sound_bit_precise_domain.Dimension.Key.{DimensionKey, key_ord}
use sound_bit_precise_domain.Dimension.Vocabulary.{Vocabulary, subset_by}
use sound_bit_precise_domain.Signedness.{VocabularySignedness, same_sign}
use sound_bit_precise_domain.Wrapped.Domain.{Affexp, Constraint, OpType, eq}
use sound_bit_precise_domain.Wrapped.Domain
use sound_bit_precise_domain.Wrapped.Record.{
  Wrapped, from_parts, is_wrapped, mark_wrapped, wrap_dimension, add_vocabulary, equal,
}
use sound_bit_precise_domain.Wrapped.Record as Wav
use sound_bit_precise_domain.Wrapped.Bounding.{
  add_constraint, add_bounding_constraints, update_vocabulary_signedness,
}
use sound_bit_precise_domain.Wrapped.Lattice.{project, havoc, overapproximates}
use sound_bit_precise_domain.Wrapped.Lattice
use sound_bit_precise_domain.WrappedInt.Setting.{
  Setting, wrapped_is_constant, wrapped_get_dependent_vocabulary,
}

-- `TVL_BOOL`.
pub data TvlBool : Type 0 where
  tvl_bottom tvl_zero tvl_one tvl_maybe : TvlBool

-- The decimal digits of a number, before those of `rest`; the fuel is the number itself.
unfoldable pub decimal : ℕ → ℕ → List ℕ → List ℕ
decimal zero n rest = (48 + n) ∷ rest
decimal (suc fuel) n rest =
    let more = decimal fuel (n / 10) ((48 + n % 10) ∷ rest) in
    if ltb n 10 then (48 + n) ∷ rest else more

-- The name is `tmp_` and the number.
unfoldable pub get_temp_key : Bitsize → ℕ → DimensionKey
get_temp_key bitsize num = record {
  name = 116 ∷ 109 ∷ 112 ∷ 95 ∷ decimal num num [];
  ver = 0;
  bitsize = bitsize;
}

-- `1*k`, and a constant.
unfoldable pub of_key : DimensionKey → Affexp
of_key k = (SortedMap.insert k (pos 1) [], pos 0)

unfoldable pub of_integer : ℤ → Affexp
of_integer c = ([], c)

unfoldable pub same_value : DimensionKey → DimensionKey → Constraint
same_value k j = record { lhs = of_key k; rhs = of_key j; op = eq }

unfoldable pub singleton : DimensionKey → Vocabulary
singleton k = SortedSet.insert k []

-- The loop of `wrap` that gives every dimension the sign.
unfoldable pub sign_all : Vocabulary → Bool → VocabularySignedness → VocabularySignedness
sign_all [] is_signed v_sign = v_sign
sign_all (j ∷ v) is_signed v_sign = sign_all v is_signed (SortedMap.insert j is_signed v_sign)

-- `wav` is the object that `wav_` points to; every copy of an integer copies it.
pub record WrappedInt (s : Setting) : Type 0 where
  pub k : DimensionKey
  pub wrapped : Bool
  pub wrapped_is_signed : Bool
  pub wav : Wrapped s.d

module _ (s : Setting) where
  -- The operations that the base class builds, on a wrapped value.
  unfoldable pub add_dimension : Wrapped s.d → DimensionKey → Wrapped s.d
  add_dimension w k = add_vocabulary s.d w (singleton k)

  unfoldable pub remove_vocabulary : Wrapped s.d → Vocabulary → Wrapped s.d
  remove_vocabulary w voc = project s.d w (subset_by (λ k. not (contains k voc)) w.voc)

  unfoldable pub remove_dimension : Wrapped s.d → DimensionKey → Wrapped s.d
  remove_dimension w k = remove_vocabulary w (singleton k)

  unfoldable pub add_constraint_no_rhs : Wrapped s.d → Affexp → OpType → Result (Wrapped s.d)
  add_constraint_no_rhs w ae op =
      add_constraint s.gmp s.d w (record { lhs = ae; rhs = of_integer (pos 0); op = op })

  unfoldable pub new_int : Wrapped s.d → DimensionKey → WrappedInt s
  new_int w k = record { k = k; wrapped = false; wrapped_is_signed = true; wav = w }

  -- The public constructor, which wraps nothing.
  unfoldable pub int_over : Bitsize → s.d.Av → Result (WrappedInt s)
  int_over bitsize av = do
    let k = get_temp_key bitsize 0
    w ← Lattice.new_wrapped s.d s.gmp s.disable_wrapping (Domain.add_dimension s.d av k) []
    ok (new_int w k)

  unfoldable pub top : WrappedInt s → Result (WrappedInt s)
  top this = do w ← Lattice.top s.d s.gmp s.disable_wrapping this.wav; ok (new_int w this.k)

  unfoldable pub bottom : WrappedInt s → Result (WrappedInt s)
  bottom this = do w ← Lattice.bottom s.d s.gmp s.disable_wrapping this.wav; ok (new_int w this.k)

  unfoldable pub of_const : WrappedInt s → ℤ → Result (WrappedInt s)
  of_const this c = do
    tmp_top ← top this
    w ←
        add_constraint s.gmp s.d tmp_top.wav
          (record { lhs = of_key tmp_top.k; rhs = of_integer c; op = eq })
    ok (record tmp_top { wav = w })

  unfoldable pub of_relation : Wrapped s.d → Bitsize → WrappedInt s
  of_relation state bitsize = let k = get_temp_key bitsize 0 in new_int (add_dimension state k) k

  -- A dimension gets the record of another one, if that has one.
  unfoldable pub mark_like : Wrapped s.d → DimensionKey → DimensionKey → Wrapped s.d
  mark_like w from to = elim (is_wrapped s.d w from) [
    | some is_signed ↦ mark_wrapped s.d w to is_signed
    | none ↦ w
  ]

  unfoldable pub of_variable : Wrapped s.d → DimensionKey → Vocabulary → Result (WrappedInt s)
  of_variable weight var prevoc = do
    let k = get_temp_key var.bitsize 0
    equated ← add_constraint s.gmp s.d (add_dimension weight k) (same_value k var)
    ok (new_int (project s.d (mark_like equated var k) (SortedSet.insert k prevoc)) k)

  -- The variant without `prevoc`, which its first statement rules out.
  unfoldable pub of_variable_any : Wrapped s.d → DimensionKey → Result (WrappedInt s)
  of_variable_any weight var = err assertion

  unfoldable pub get_one_voc_relation : WrappedInt s → Wrapped s.d
  get_one_voc_relation this = remove_dimension this.wav this.k

  -- `var := this`, before the dimension of the integer is removed.
  unfoldable pub assigned : WrappedInt s → Wrapped s.d → DimensionKey → Result (Wrapped s.d)
  assigned this w var = do
    r ← add_constraint s.gmp s.d (havoc s.d w (singleton var)) (same_value this.k var)
    ok (mark_like r this.k var)

  unfoldable pub assign_to_one_voc : WrappedInt s → DimensionKey → Result (Wrapped s.d)
  assign_to_one_voc this var = do r ← assigned this this.wav var; ok (remove_dimension r this.k)

  unfoldable pub assign_to_two_voc : WrappedInt s → DimensionKey → Vocabulary → Result (Wrapped s.d)
  assign_to_two_voc this var target_voc = do
    r ← assigned this (add_vocabulary s.d this.wav target_voc) var
    ok (project s.d r target_voc)

  unfoldable pub join : WrappedInt s → WrappedInt s → WrappedInt s
  join this that = record this { wav = Lattice.join s.d this.wav that.wav }

  unfoldable pub widen : WrappedInt s → WrappedInt s → Result (WrappedInt s)
  widen this that = do
    w ← Lattice.widen s.d s.gmp s.disable_wrapping this.wav that.wav
    ok (record this { wav = w })

  unfoldable pub meet : WrappedInt s → WrappedInt s → Result (WrappedInt s)
  meet this that = do
    w ← Lattice.meet s.d s.gmp s.disable_wrapping this.wav that.wav
    ok (record this { wav = w })

  unfoldable pub wrap_int : WrappedInt s → Bool → Result (WrappedInt s)
  wrap_int this is_signed =
      if this.wrapped && same_sign this.wrapped_is_signed is_signed then ok this else do
        let v = wrapped_get_dependent_vocabulary s this.wav this.k
        bounded ←
            add_bounding_constraints s.gmp s.d s.disable_wrapping this.wav (sign_all v is_signed [])
        ok (record this {
          wav = wrap_dimension s.d s.disable_wrapping bounded this.k is_signed;
          wrapped = true;
          wrapped_is_signed = is_signed;
        })

  unfoldable pub is_equal : WrappedInt s → WrappedInt s → Bool
  is_equal this that = equal s.d s.disable_wrapping this.wav that.wav

  unfoldable pub not_equal : WrappedInt s → WrappedInt s → Bool
  not_equal this that = not (is_equal this that)

  unfoldable pub is_bottom : WrappedInt s → Bool
  is_bottom this = Wav.is_bottom s.d this.wav

  unfoldable pub is_top : WrappedInt s → Result Bool
  is_top this = Lattice.is_top s.d s.gmp s.disable_wrapping this.wav

  unfoldable pub is_constant : WrappedInt s → Option ℤ
  is_constant this =
      if is_bottom this
      then none
      else wrapped_is_constant s (project s.d this.wav (singleton this.k))

  -- The last case of the comparison, and all of it.
  unfoldable pub disjoint_value : WrappedInt s → WrappedInt s → Result TvlBool
  disjoint_value this that = do
    m ← Lattice.meet s.d s.gmp s.disable_wrapping this.wav that.wav
    ok (if Wav.is_bottom s.d m then tvl_zero else tvl_maybe)

  unfoldable pub is_value_equal : WrappedInt s → WrappedInt s → Result TvlBool
  is_value_equal this that = if is_bottom this || is_bottom that then ok tvl_bottom else do
    this_top ← is_top this
    either_top ← if this_top then ok true else is_top that
    if either_top
        then ok tvl_maybe
        else if is_equal this that
        then ok (elim (is_constant this) [ some c ↦ tvl_one | none ↦ tvl_maybe ])
        else disjoint_value this that

  -- On the fuel of `Overapproximates`.
  unfoldable pub is_subset : ℕ → WrappedInt s → WrappedInt s → Option Bool
  is_subset fuel this that = overapproximates s.d s.gmp s.disable_wrapping fuel that.wav this.wav

  unfoldable pub any_value : WrappedInt s → WrappedInt s
  any_value this = new_int (havoc s.d this.wav (singleton this.k)) this.k

  unfoldable pub add_int_constraint : WrappedInt s → Constraint → Result (WrappedInt s)
  add_int_constraint this c = do
    w ← add_constraint s.gmp s.d this.wav c
    ok (record this { wav = w })

  unfoldable pub add_int_constraint_no_rhs : WrappedInt s → Affexp → OpType → Result (WrappedInt s)
  add_int_constraint_no_rhs this ae op = do
    w ← add_constraint_no_rhs this.wav ae op
    ok (record this { wav = w })

  unfoldable pub update_int_signedness : WrappedInt s → Result (WrappedInt s)
  update_int_signedness this = do
    w ← update_vocabulary_signedness s.gmp s.d this.wav (singleton this.k)
    ok (record this { wav = w })
