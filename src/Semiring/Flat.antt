-- ===== src/Semiring/Flat.antt =====
-- The domain of two values over each vocabulary: all steps, or none.
use sound_bit_precise_domain.Prelude.{Bool, true, false, not, ◌&&◌, ◌||◌, [], ◌∷◌, refl, ◌≡◌, arith}
use sound_bit_precise_domain.Container.SortedSet.{insert}
use sound_bit_precise_domain.Dimension.Key.{key_ord}
use sound_bit_precise_domain.Dimension.Vocabulary.{Vocabulary, union_vocabularies}
use sound_bit_precise_domain.Dimension.Versions.{VersionMap, replace_versions}
use sound_bit_precise_domain.Wrapped.Domain.{Domain}
use sound_bit_precise_domain.Wrapped.Meaning.{State, IsSoundDomain}

-- The vocabulary, and whether the value is empty.
abbrev pub Flat : Type 0
Flat = Vocabulary × Bool

abbrev pub rename : VersionMap → Vocabulary → Vocabulary
rename vm [] = []
rename vm (k ∷ v) = insert (replace_versions k vm) (rename vm v)

abbrev pub flat : Domain
flat = record {
  Av = Flat;
  get_vocabulary = λ (a : Flat). a.0;
  top = λ (a : Flat). (a.0, false);
  bottom = λ (a : Flat). (a.0, true);
  equal = λ (a b : Flat). (a.1 && b.1) || (not a.1 && not b.1);
  is_bottom = λ (a : Flat). a.1;
  overapproximates = λ (a b : Flat). b.1 || not a.1;
  join = λ (a b : Flat). (union_vocabularies a.0 b.0, a.1 && b.1);
  join_singleton = λ (a b : Flat). (union_vocabularies a.0 b.0, a.1 && b.1);
  meet = λ (a b : Flat). (union_vocabularies a.0 b.0, a.1 || b.1);
  widen = λ (a b : Flat). (union_vocabularies a.0 b.0, a.1 && b.1);
  add_equality = λ (a : Flat) v1 v2. a;
  reduce = λ (a : Flat). a;
  project = λ (a : Flat) v. (v, a.1);
  havoc = λ (a : Flat) v. a;
  add_vocabulary = λ (a : Flat) v. (union_vocabularies a.0 v, a.1);
  replace_versions = λ (a : Flat) vm. (rename vm a.0, a.1);
  wrap = λ (a : Flat) v. a;
  add_constraint = λ (a : Flat) c. a;
}

abbrev pub HasAll : Flat → State → Type 0
HasAll a p = a.1 ≡ false

pub either_side : (a b : Bool) → b ≡ false → (a && b) ≡ false
either_side a b h = ground arith

pub first_side : (a b : Bool) → a ≡ false → (a && b) ≡ false
first_side a b h = ground arith

pub not_both : (b : Bool) → b ≡ true → b ≡ false → ⊥
not_both b h k = ground arith

pub covers : (a b : Bool) → (b || not a) ≡ true → b ≡ false → a ≡ false
covers a b h k = ground arith

pub neither : (a b : Bool) → a ≡ false → b ≡ false → (a || b) ≡ false
neither a b h k = ground arith

abbrev pub flat-IsSoundDomain : IsSoundDomain flat
flat-IsSoundDomain = record {
  Has = HasAll;
  top_has = λ a p. refl;
  bottom_lacks = λ (a : Flat) p e h. not_both a.1 e h;
  add_equality_keeps = λ a v1 v2 p h e. h;
  add_vocabulary_keeps = λ a v p h. h;
  join_left = λ (a b : Flat) p h. first_side a.1 b.1 h;
  join_right = λ (a b : Flat) p h. either_side a.1 b.1 h;
  overapproximates_has = λ (a b : Flat) p e h. covers a.1 b.1 e h;
  widen_left = λ (a b : Flat) p h. first_side a.1 b.1 h;
  widen_right = λ (a b : Flat) p h. either_side a.1 b.1 h;
  meet_keeps = λ (a b : Flat) p h k. neither a.1 b.1 h k;
  add_constraint_keeps = λ a c p h k. h;
  reduce_keeps = λ a p h. h;
  project_keeps = λ a v p h. h;
  havoc_keeps = λ a v p h. h;
}
