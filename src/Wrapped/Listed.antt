-- ===== src/Wrapped/Listed.antt =====
-- A domain whose values are a vocabulary and a list of constraints on it.
use sound_bit_precise_domain.Prelude.{false, List, [], ◌∷◌, ◌++◌, length, leb, ◌==◌, refl}
use sound_bit_precise_domain.Container.SortedSet.{insert}
use sound_bit_precise_domain.Dimension.Key.{key_ord}
use sound_bit_precise_domain.Dimension.Vocabulary.{Vocabulary, union_vocabularies}
use sound_bit_precise_domain.Dimension.Versions.{VersionMap, replace_versions}
use sound_bit_precise_domain.Wrapped.Domain.{Domain, Constraint}
use sound_bit_precise_domain.Wrapped.Invariant.{KeepsVocabulary}

abbrev pub Listed : Type 0
Listed = Vocabulary × List Constraint

abbrev pub rename : VersionMap → Vocabulary → Vocabulary
rename vm [] = []
rename vm (k ∷ v) = insert (replace_versions k vm) (rename vm v)

-- What an operation does not know it drops, so the values are approximations.
abbrev pub listed : Domain
listed = record {
  Av = Listed;
  get_vocabulary = λ (a : Listed). a.0;
  top = λ (a : Listed). (a.0, []);
  bottom = λ (a : Listed). (a.0, []);
  equal = λ (a b : Listed). length a.1 == length b.1;
  is_bottom = λ (a : Listed). false;
  overapproximates = λ (a b : Listed). leb (length a.1) (length b.1);
  join = λ (a b : Listed). (union_vocabularies a.0 b.0, []);
  join_singleton = λ (a b : Listed). (union_vocabularies a.0 b.0, []);
  meet = λ (a b : Listed). (union_vocabularies a.0 b.0, a.1 ++ b.1);
  widen = λ (a b : Listed). (union_vocabularies a.0 b.0, []);
  add_equality = λ (a : Listed) v1 v2. a;
  reduce = λ (a : Listed). a;
  project = λ (a : Listed) v. (v, []);
  havoc = λ (a : Listed) v. (a.0, []);
  add_vocabulary = λ (a : Listed) v. (union_vocabularies a.0 v, a.1);
  replace_versions = λ (a : Listed) vm. (rename vm a.0, []);
  wrap = λ (a : Listed) v. (a.0, []);
  add_constraint = λ (a : Listed) c. (a.0, c ∷ a.1);
}

pub listed-KeepsVocabulary : KeepsVocabulary listed
listed-KeepsVocabulary = record { add_constraint_keeps = λ a c. refl; reduce_keeps = λ a. refl }
