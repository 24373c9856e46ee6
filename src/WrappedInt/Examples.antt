-- ===== src/WrappedInt/Examples.antt =====
-- Two 32-bit integers, one with the value 3 and one with the value 4.
use Prim.Native.Nat.{◌-◌, bit_and, bit_or}
use sound_bit_precise_domain.Prelude.{
  ◌≡◌, refl, sym, subst, true, false, ◌&&◌, [], ◌∷◌, some, arith,
}
use sound_bit_precise_domain.Prelude.Int.{ℤ, pos, negsuc, ◌+ℤ◌, ◌*ℤ◌}
use sound_bit_precise_domain.Container.{eqb}
use sound_bit_precise_domain.Container.SortedSet
use sound_bit_precise_domain.Container.SortedMap
use sound_bit_precise_domain.Dimension.Key.{DimensionKey, key_ord, key_lt, name_eq, name_lt}
use sound_bit_precise_domain.Value.{thirty_two, get_bit_width}
use sound_bit_precise_domain.Mpz.Exact.{gmp, gmp-IsGmp}
use sound_bit_precise_domain.Wrapped.Domain.{Constraint, eq}
use sound_bit_precise_domain.Wrapped.Meaning.{State}
use sound_bit_precise_domain.Wrapped.Record.{Wrapped}
use sound_bit_precise_domain.WrappedInt.Setting.{
  Setting, wrapped_is_constant, wrapped_get_dependent_vocabulary,
}
use sound_bit_precise_domain.WrappedInt.Record.{WrappedInt, get_temp_key, decimal, is_constant}
use sound_bit_precise_domain.WrappedInt.Linear.{plus, minus, times, any_of_both}
use sound_bit_precise_domain.WrappedInt.Meaning.{Holds, unit_sum}
use sound_bit_precise_domain.WrappedInt.Sound.{IsSound, IsFresh}
use sound_bit_precise_domain.WrappedInt.Conjunction.{
  conjunction, with_dimensions, with_keys, sorted_union, conjunction-IsSoundDomain,
  conjunction-IsExact, conjunction-WrapsOne, kept,
}
use sound_bit_precise_domain.WrappedInt.Conjunction.Covers.{conjunction-KeepsDimensions}
use sound_bit_precise_domain.WrappedInt.Conjunction.Constants.{queries, constant, read}
use sound_bit_precise_domain.Value.{eight, sixty_four}
use sound_bit_precise_domain.Mpz.{word_of}
use sound_bit_precise_domain.Container.{eqb_refl}
use sound_bit_precise_domain.Prelude.{ok}
use sound_bit_precise_domain.WrappedInt.Record.{is_bottom, wrap_int, assign_to_one_voc}
use sound_bit_precise_domain.WrappedInt.Bits.{bitwise_and, trunc, sign_extend}
use sound_bit_precise_domain.Wrapped.Record as Wav
use sound_bit_precise_domain.Wrapped.Lattice.{project}
use sound_bit_precise_domain.WrappedInt.Masks.{bitwise_and_mask}
use sound_bit_precise_domain.WrappedInt.Sizes.{
  assign_to_one_voc_has, extended_has, trunc_stays_wrapped,
}
use sound_bit_precise_domain.WrappedInt.Ordered.{IsCompared}
use sound_bit_precise_domain.Prelude.Floor.{scale}
use sound_bit_precise_domain.Signedness.{same_sign}
use sound_bit_precise_domain.Value.{one}
use sound_bit_precise_domain.WrappedInt.Images.{IsImage, wrap_int_has_image}
use sound_bit_precise_domain.WrappedInt.Set.{set, set_same, eqb-false_sym, has_singleton}
use sound_bit_precise_domain.WrappedInt.Combine.{IsApart, IsClear}
use sound_bit_precise_domain.WrappedInt.Arithmetic.{IsOperand, Gives}
use sound_bit_precise_domain.WrappedInt.Sums.{
  plus-Gives, minus-Gives, found, sum_found, difference_found,
}
use sound_bit_precise_domain.WrappedInt.Products.{times-Gives, nothing_recorded}

-- The bits of a negative integer are those of the complement of a number.
abbrev conjoin : ℤ → ℤ → ℤ
conjoin (pos a) (pos b) = pos (bit_and a b)
conjoin (pos a) (negsuc b) = pos (a - bit_and a b)
conjoin (negsuc a) (pos b) = pos (b - bit_and a b)
conjoin (negsuc a) (negsuc b) = negsuc (bit_or a b)

abbrev complement : ℤ → ℤ
complement (pos n) = negsuc n
complement (negsuc n) = pos n

abbrev setting : Setting
setting = record {
  gmp = gmp 64;
  logic = record {
    and = conjoin;
    ior = λ a b. complement (conjoin (complement a) (complement b));
    complement = complement;
  };
  d = conjunction;
  queries = queries;
  disable_wrapping = false;
}

abbrev sound : IsSound setting
sound = record {
  width = 64;
  laws = gmp-IsGmp 64;
  snd = conjunction-IsSoundDomain;
  exact = conjunction-IsExact;
  dims = conjunction-KeepsDimensions;
}

abbrev int_key : DimensionKey
int_key = record { name = 116 ∷ 109 ∷ 112 ∷ 95 ∷ 48 ∷ []; ver = 0; bitsize = thirty_two }

abbrev equals : ℤ → Constraint
equals c = record { lhs = ((int_key, pos 1) ∷ [], pos 0); rhs = ([], c); op = eq }

abbrev value : ℤ → Wrapped conjunction
value c = record { voc = int_key ∷ []; av = (int_key ∷ [], equals c ∷ []); wrapped_voc = [] }

abbrev integer : ℤ → WrappedInt setting
integer c = record { k = int_key; wrapped = false; wrapped_is_signed = true; wav = value c }

abbrev three : State
three k = pos 3

int_key-IsApart : IsApart int_key
unfolding get_temp_key decimal key_ord key_lt name_eq name_lt
int_key-IsApart = record { first = refl; second = refl }

value-IsFresh : (c : ℤ) (k : DimensionKey) → eqb k int_key ≡ false → IsFresh conjunction (value c) k
unfolding with_dimensions with_keys sorted_union SortedSet.insert SortedSet.contains SortedMap.find
value-IsFresh c k h = record { unknown = ground (arith, h); unmarked = refl }

value-IsClear : (c : ℤ) → IsClear setting sound (value c) int_key
value-IsClear c = record {
  first = value-IsFresh c _ (eqb-false_sym _ _ int_key-IsApart.first);
  second = value-IsFresh c _ (eqb-false_sym _ _ int_key-IsApart.second);
}

value-Holds : (c : ℤ) → Holds conjunction conjunction-IsSoundDomain (value c) (set three int_key c)
unfolding key_ord key_lt name_eq name_lt get_bit_width
value-Holds c = record {
  sorted = tt;
  fits = nothing_recorded (set three int_key c);
  has = (unit_sum c, tt);
}

integer-IsOperand : (c : ℤ) → IsOperand setting sound (integer c) int_key (set three int_key c)
integer-IsOperand c = record {
  key = refl;
  apart = int_key-IsApart;
  clear = value-IsClear c;
  holds = value-Holds c;
}

three-IsOperand : IsOperand setting sound (integer (pos 3)) int_key three
three-IsOperand = record {
  key = refl;
  apart = int_key-IsApart;
  clear = value-IsClear (pos 3);
  holds = record { sorted = tt; fits = nothing_recorded three; has = (unit_sum (pos 3), tt) };
}

plus-Gives_example :
    Gives setting sound (plus setting (integer (pos 3)) (integer (pos 4))) int_key three (
      sum_found
        (is_constant setting (integer (pos 3)))
        (is_constant setting (integer (pos 4)))
        (pos 3)
        (pos 4))
plus-Gives_example =
    plus-Gives setting sound (integer (pos 3)) (integer (pos 4)) int_key three (pos 4)
      three-IsOperand (integer-IsOperand (pos 4))

minus-Gives_example :
    Gives setting sound (minus setting (integer (pos 3)) (integer (pos 4))) int_key three (
      difference_found
        (is_constant setting (integer (pos 3)))
        (is_constant setting (integer (pos 4)))
        (pos 3)
        (pos 4))
minus-Gives_example =
    minus-Gives setting sound (integer (pos 3)) (integer (pos 4)) int_key three (pos 4)
      three-IsOperand (integer-IsOperand (pos 4))

times-Gives_example :
    Gives setting sound (times setting (integer (pos 3)) (integer (pos 4))) int_key three (
      found (is_constant setting (integer (pos 3))) (pos 3)
      *ℤ found (is_constant setting (integer (pos 4))) (pos 4))
times-Gives_example =
    times-Gives setting sound (integer (pos 3)) (integer (pos 4)) int_key three (pos 4)
      three-IsOperand (integer-IsOperand (pos 4))

-- The integers after they are wrapped as signed.
abbrev signed_integer : ℤ → WrappedInt setting
signed_integer c = record (integer c) { wrapped = true }

signed-IsCompared :
    (c : ℤ) (p : State)
    → Holds conjunction conjunction-IsSoundDomain (value c) p
    → IsCompared setting sound (signed_integer c) int_key p
unfolding with_dimensions with_keys sorted_union SortedSet.insert SortedSet.contains
signed-IsCompared c p h = record {
  key = refl;
  apart = int_key-IsApart.first;
  fresh = (value-IsClear c).first;
  there = ground (arith, eqb_refl int_key);
  holds = h;
}

-- 2 ^ 32 + 5, whose signed image is 5.
abbrev large : ℤ
large = pos 4294967301

large-IsImage : IsImage int_key true large (pos 5)
unfolding ◌+ℤ◌ scale get_bit_width
large-IsImage = record { range = (omega arith, omega arith); turns = negsuc 0; congruent = refl }

four_bytes : thirty_two ≡ one → ⊥
four_bytes e = cc

nothing_depends :
    (j : DimensionKey)
    → SortedSet.contains j (wrapped_get_dependent_vocabulary setting (value large) int_key) ≡ true
    → ⊥
unfolding wrapped_get_dependent_vocabulary SortedSet.contains
nothing_depends j e = ground (arith, e)

wrap_int_has_image_example :
    (r : WrappedInt setting) × (wrap_int setting (integer large) true ≡ ok r)
    × (r.k ≡ int_key)
    × ((r.wrapped && same_sign r.wrapped_is_signed true) ≡ true)
    × (SortedMap.find int_key r.wav.wrapped_voc ≡ some true)
    × Holds conjunction conjunction-IsSoundDomain r.wav
        (set (set three int_key large) int_key (pos 5))
wrap_int_has_image_example =
    wrap_int_has_image setting sound conjunction-WrapsOne (integer large) true
      (set three int_key large) (pos 5) refl refl four_bytes (λ j e. elim (nothing_depends j e) [ ])
      (subst (λ x. IsImage int_key true x (pos 5)) (sym (set_same three int_key large))
        large-IsImage)
      (value-Holds large)

abbrev x_key : DimensionKey
x_key = record { name = 120 ∷ []; ver = 0; bitsize = thirty_two }

x-apart : eqb int_key x_key ≡ false
unfolding key_ord key_lt name_eq name_lt
x-apart = refl

assign_to_one_voc_has_example :
    (r : Wrapped conjunction) × (assign_to_one_voc setting (integer (pos 3)) x_key ≡ ok r)
    × Holds conjunction conjunction-IsSoundDomain r (set three x_key (pos 3))
assign_to_one_voc_has_example =
    assign_to_one_voc_has setting sound (integer (pos 3)) x_key three x-apart refl
      (signed-IsCompared (pos 3) three three-IsOperand.holds).there three-IsOperand.holds

long-apart : eqb (get_temp_key sixty_four 0) int_key ≡ false
unfolding get_temp_key decimal key_ord key_lt name_eq name_lt get_bit_width
long-apart = ground arith

long-IsFresh : IsFresh conjunction (value (pos 3)) (get_temp_key sixty_four 0)
long-IsFresh = value-IsFresh (pos 3) _ long-apart

extended_has_example :
    (r : WrappedInt setting) × (sign_extend setting (signed_integer (pos 3)) sixty_four ≡ ok r)
    × (r.k ≡ get_temp_key sixty_four 0)
    × Holds conjunction conjunction-IsSoundDomain r.wav (set three r.k (pos 3))
unfolding get_bit_width
extended_has_example =
    extended_has setting sound (signed_integer (pos 3)) sixty_four true three refl
      (eqb-false_sym (get_temp_key sixty_four 0) int_key long-apart) long-IsFresh
      (signed-IsCompared (pos 3) three three-IsOperand.holds).there (omega arith)
      three-IsOperand.holds

trunc_stays_wrapped_example :
    (wrap_int setting (trunc setting (signed_integer (pos 300)) eight) true
      ≡ ok (trunc setting (signed_integer (pos 300)) eight))
    × (sign_extend setting (trunc setting (signed_integer (pos 300)) eight) thirty_two
        ≡ ok (trunc setting (trunc setting (signed_integer (pos 300)) eight) thirty_two))
trunc_stays_wrapped_example =
    trunc_stays_wrapped setting sound (signed_integer (pos 300)) eight thirty_two true refl

-- An integer of which nothing is known, beside one whose constant has the word 1.
abbrev unknown : WrappedInt setting
unknown = record (integer (pos 0)) {
  wav = record { voc = int_key ∷ []; av = (int_key ∷ [], []); wrapped_voc = [] };
}

minus_one-IsConstant : is_constant setting (integer (negsuc 0)) ≡ some (negsuc 0)
unfolding is_constant is_bottom Wav.is_bottom project wrapped_is_constant kept constant read
minus_one-IsConstant = rw (has_singleton int_key) refl

bitwise_and_mask_example :
    bitwise_and setting unknown (integer (negsuc 0))
    ≡ any_of_both setting unknown (integer (negsuc 0))
unfolding is_constant is_bottom Wav.is_bottom project wrapped_is_constant kept constant word_of
bitwise_and_mask_example =
    bitwise_and_mask setting sound unknown (integer (negsuc 0)) (negsuc 0) refl minus_one-IsConstant
      (ground arith)
