-- ===== src/Semiring/Rules.antt =====
-- The widening types of extended weights, and the neutral weights.
use sound_bit_precise_domain.Prelude.{
  ◌≡◌, refl, true, false, not, ◌&&◌, Option, Result, ok, err, ◌>>=◌, ◌>>◌, guard, assertion,
  if◌then◌else◌,
}
use sound_bit_precise_domain.Wrapped.Domain.{Domain}
use sound_bit_precise_domain.Semiring.{
  Weight, WideningType, regular_weight, widening_weight, widening_rule, is_rule, is_widening,
  is_regular, one_weight, zero_weight, combine, extend_weight, extend_av,
}

-- The table of the types of extended weights.
abbrev pub extend_table : WideningType → WideningType → Result WideningType
extend_table regular_weight regular_weight = ok regular_weight
extend_table regular_weight widening_rule = ok widening_weight
extend_table widening_weight regular_weight = ok widening_weight
extend_table widening_weight widening_rule = ok widening_weight
extend_table widening_rule t = err assertion
extend_table t widening_weight = err assertion

by_type :
    {A : Type 0} (make : WideningType → A) (t u : WideningType)
    → (guard (not (is_rule t) && not (is_widening u)) assertion
        >> ok (make (if is_regular t && is_regular u then regular_weight else widening_weight)))
      ≡ (extend_table t u >>= λ v. ok (make v))
by_type make regular_weight regular_weight = refl
by_type make regular_weight widening_weight = refl
by_type make regular_weight widening_rule = refl
by_type make widening_weight regular_weight = refl
by_type make widening_weight widening_weight = refl
by_type make widening_weight widening_rule = refl
by_type make widening_rule regular_weight = refl
by_type make widening_rule widening_weight = refl
by_type make widening_rule widening_rule = refl

-- Extending two weights that are neither empty nor the special one follows the table: where the
-- table has an entry the result has its type, the value that the domain gives and the ends of the
-- path, and where the table has none the assert fails.
pub extend_follows_table :
    (d : Domain) (own : Option (d.Av → d.Av → d.Av)) (this op2 : Weight d)
    → d.is_bottom this.av ≡ false
    → d.is_bottom op2.av ≡ false
    → this.is_one ≡ false
    → op2.is_one ≡ false
    → extend_weight d own this op2 ≡ (
        extend_table this.t op2.t >>= λ t. ok (record {
          av = extend_av d own this.av op2.av;
          from = this.from;
          to = op2.to;
          t = t;
          is_one = false;
        }))
unfolding extend_weight
extend_follows_table d own this op2 b c o q =
    rw (b, c, o, q)
      (by_type
        (λ t. record {
          av = extend_av d own this.av op2.av;
          from = this.from;
          to = op2.to;
          t = t;
          is_one = false;
        })
        this.t op2.t)

-- Where the domain's top is not empty and its bottom is, a weight that is not empty, not the
-- special one and no widening rule is not changed by extending it with the special one on either
-- side or by adding zero on either side, and extending it with zero on either side gives zero.
pub neutral_weights :
    (d : Domain) (own : Option (d.Av → d.Av → d.Av)) (u w : Weight d)
    → d.is_bottom (d.top u.av) ≡ false
    → d.is_bottom (d.bottom u.av) ≡ true
    → d.is_bottom w.av ≡ false
    → w.is_one ≡ false
    → is_rule w.t ≡ false
    → (extend_weight d own (one_weight d u) w ≡ ok w)
      × (extend_weight d own w (one_weight d u) ≡ ok w)
      × (extend_weight d own (zero_weight d u) w ≡ ok (zero_weight d (zero_weight d u)))
      × (extend_weight d own w (zero_weight d u) ≡ ok (zero_weight d w))
      × (combine d false (zero_weight d u) w ≡ ok w)
      × (combine d false w (zero_weight d u) ≡ ok w)
unfolding extend_weight combine one_weight zero_weight
neutral_weights d own u w ht hb hw ho hr = (
  rw (ht, hw) refl,
  rw (hw, ht, ho) refl,
  rw hb refl,
  rw (hw, hb) refl,
  rw (hr, hb) refl,
  rw (hr, hw, hb) refl,
)
