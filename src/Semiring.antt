-- ===== src/Semiring.antt =====
-- src/AbstractDomain/common/AvSemiring.hpp and AvSemiring.cpp: the weights of a pushdown system,
-- abstract values that are combined along paths. Copies are deep, so a value stands for an
-- object; where the code compares addresses the model takes the result of the comparison.
pub mod Rules
pub mod Identity
pub mod Sound
pub mod Compose
pub mod Flat
mod Examples
use sound_bit_precise_domain.Prelude.{
  ℕ, Bool, true, false, not, ◌&&◌, ◌||◌, List, [], ◌∷◌, Option, none, some, if◌then◌else◌, Result,
  ok, ◌>>=◌, ◌>>◌, guard, assertion,
}
use sound_bit_precise_domain.Dimension.Key.{DimensionKey, Name, key_eq}
use sound_bit_precise_domain.Dimension.Vocabulary.{
  Vocabulary, is_version_in_dimension, union_vocabularies, get_vocabulary_subset,
  get_unversioned_vocabulary_subset,
}
use sound_bit_precise_domain.Dimension.Versions.{replace_version, shift_map}
use sound_bit_precise_domain.Wrapped.Domain.{Domain, replace_version_av}
use sound_bit_precise_domain.Wrapped.Lattice.{voc_eq}

pub data WideningType : Type 0 where
  regular_weight widening_weight widening_rule : WideningType

abbrev pub is_rule : WideningType → Bool
is_rule widening_rule = true
is_rule _ = false

abbrev pub is_widening : WideningType → Bool
is_widening widening_weight = true
is_widening _ = false

abbrev pub is_regular : WideningType → Bool
is_regular regular_weight = true
is_regular _ = false

abbrev pub same_type : WideningType → WideningType → Bool
same_type regular_weight t = is_regular t
same_type widening_weight t = is_widening t
same_type widening_rule t = is_rule t

-- `s.size() == 0`, and the name that an empty one takes.
abbrev pub or_name : Name → Name → Name
or_name [] other = other
or_name (c ∷ n) other = c ∷ n

pub record Weight (d : Domain) : Type 0 where
  pub av : d.Av
  pub from : Name
  pub to : Name
  pub t : WideningType
  pub is_one : Bool

-- The inner and the outer loop of `SetToSyntacticOne`, as the pairs that they make equal.
unfoldable pub is_pair : DimensionKey → DimensionKey → Bool
is_pair k1 k2 =
    if key_eq k1 k2
    then false
    else if is_version_in_dimension k1 0
        && not (is_version_in_dimension k1 1)
        && not (is_version_in_dimension k2 0)
        && is_version_in_dimension k2 1
    then key_eq (replace_version k1 0 1) (replace_version k2 0 1)
    else false

module _ (d : Domain) where
  unfoldable pub equate_inner : DimensionKey → Vocabulary → d.Av → d.Av
  equate_inner k1 [] a = a
  equate_inner k1 (k2 ∷ voc) a =
      equate_inner k1 voc (if is_pair k1 k2 then d.add_equality a k1 k2 else a)

  unfoldable pub equate_outer : Vocabulary → Vocabulary → d.Av → d.Av
  equate_outer [] voc a = a
  equate_outer (k1 ∷ rest) voc a = equate_outer rest voc (equate_inner k1 voc a)

  unfoldable pub set_to_syntactic_one : Weight d → Result (Weight d)
  set_to_syntactic_one this = do
    guard this.is_one assertion
    let top_av = d.top this.av
    let voc = d.get_vocabulary top_av
    ok (record this { is_one = false; av = equate_outer voc voc top_av })

  unfoldable pub one_weight : Weight d → Weight d
  one_weight this = record {
    av = d.top this.av;
    from = [];
    to = [];
    t = regular_weight;
    is_one = true;
  }

  unfoldable pub zero_weight : Weight d → Weight d
  zero_weight this = record {
    av = d.bottom this.av;
    from = [];
    to = [];
    t = regular_weight;
    is_one = false;
  }

  unfoldable pub bottom_weight : Weight d → Weight d
  bottom_weight this = record {
    av = d.top this.av;
    from = [];
    to = [];
    t = regular_weight;
    is_one = false;
  }

  unfoldable pub quasi_one : Weight d → Weight d
  quasi_one = one_weight

  unfoldable pub is_equal : Bool → Weight d → Weight d → Bool
  is_equal same_object this op2 =
      if same_object
      then true
      else if not (same_type this.t op2.t)
      then false
      else if this.is_one && op2.is_one
      then true
      else if this.is_one && not op2.is_one
      then false
      else if not this.is_one && op2.is_one
      then false
      else d.equal this.av op2.av

  -- A value of one that is joined is first written out.
  unfoldable pub written_out : Weight d → Result (Weight d)
  written_out w = if w.is_one then set_to_syntactic_one w else ok w

  -- `combine` from where neither value is empty.
  unfoldable pub join_weights : Weight d → Weight d → Result (Weight d)
  join_weights this op2 = do
    let added = d.add_vocabulary this.av (d.get_vocabulary op2.av)
    let result = record this {
      av = added;
      from = or_name this.from op2.from;
      to = or_name this.to op2.to;
    }
    let op2_cp =
        if voc_eq (d.get_vocabulary added) (d.get_vocabulary op2.av)
        then op2
        else record op2 { av = d.add_vocabulary op2.av (d.get_vocabulary added) }
    left ← written_out result
    right ← written_out op2_cp
    let joined = d.join left.av right.av
    let widens = is_widening this.t || is_widening op2.t
    ok (record left { av = if widens then d.widen joined this.av else joined })

  unfoldable pub combine : Bool → Weight d → Weight d → Result (Weight d)
  combine same_object this op2 = if same_object then ok this else do
    guard (not (is_rule this.t) && not (is_rule op2.t)) assertion
    (if d.is_bottom this.av
        then ok op2
        else if d.is_bottom op2.av
        then ok this
        else join_weights this op2)

  -- The composition where the domain has none of its own.
  unfoldable pub compose : d.Av → d.Av → d.Av
  compose this_av op2_av =
      let shifted = d.replace_versions op2_av shift_map in
      let met = d.reduce (d.meet this_av shifted) in
      let voc_3 = d.get_vocabulary met in
      let voc_to_prj =
        union_vocabularies
          (union_vocabularies (get_vocabulary_subset voc_3 0) (get_vocabulary_subset voc_3 2))
          (get_unversioned_vocabulary_subset (d.get_vocabulary shifted)) in
      replace_version_av d (d.project met voc_to_prj) 2 1

  -- `own` is the domain's `Extend`, where `ImplementsExtend` holds.
  unfoldable pub extend_av : Option (d.Av → d.Av → d.Av) → d.Av → d.Av → d.Av
  extend_av none this_av op2_av = compose this_av op2_av
  extend_av (some own) this_av op2_av = own this_av op2_av

  unfoldable pub extend_weight :
      Option (d.Av → d.Av → d.Av) → Weight d → Weight d → Result (Weight d)
  extend_weight own this op2 =
      if d.is_bottom this.av
      then ok (zero_weight this)
      else if d.is_bottom op2.av
      then ok (zero_weight this)
      else if this.is_one
      then ok op2
      else if op2.is_one
      then ok this
      else do
        let result_av = extend_av own this.av op2.av
        guard (not (is_rule this.t) && not (is_widening op2.t)) assertion
        ok (record {
          av = result_av;
          from = this.from;
          to = op2.to;
          t = if is_regular this.t && is_regular op2.t then regular_weight else widening_weight;
          is_one = false;
        })
