-- ===== src/Semiring/Compose.antt =====
-- The composition of two relations, as `extend` computes it where the domain has no extension of
-- its own.
use sound_bit_precise_domain.Prelude.{
  ℕ, ◌≡◌, ◌≢◌, sym, ap, ◌∙◌, Bool, true, false, [], ◌∷◌, if◌then◌else◌, ◌==◌, arith, Bool-cases,
  ==_iff, inl, inr,
}
use sound_bit_precise_domain.Container.SortedSet.{contains, contains-union}
use sound_bit_precise_domain.Dimension.Key.{DimensionKey, key_ord, unversioned_version}
use sound_bit_precise_domain.Dimension.Vocabulary.{
  Vocabulary, union_vocabularies, get_vocabulary_subset, get_unversioned_vocabulary_subset,
  subsets_exact,
}
use sound_bit_precise_domain.Dimension.Versions.{
  VersionMap, replace_versions, shift_map, target, replace_versions-eq-target,
}
use sound_bit_precise_domain.Value.{one}
use sound_bit_precise_domain.Wrapped.Domain.{Domain, replace_version_av}
use sound_bit_precise_domain.Wrapped.Meaning.{State, IsSoundDomain}
use sound_bit_precise_domain.Semiring.{compose}

-- What the composition relies on beyond soundness: a value says nothing of the dimensions that it
-- does not have, renaming carries a step over, and a projection has no other dimensions than
-- those asked for.
pub record IsRelational (d : Domain) (snd : IsSoundDomain d) : Type 0 where
  pub local :
      (a : d.Av) (p s : State)
      → ((k : DimensionKey) → contains k (d.get_vocabulary a) ≡ true → s k ≡ p k)
      → snd.Has a p
      → snd.Has a s
  pub renamed :
      (a : d.Av) (vm : VersionMap) (p s : State)
      → ((k : DimensionKey)
          → contains k (d.get_vocabulary a) ≡ true
          → s (replace_versions k vm) ≡ p k)
      → snd.Has a p
      → snd.Has (d.replace_versions a vm) s
  pub project_only :
      (a : d.Av) (v : Vocabulary) (k : DimensionKey)
      → contains k (d.get_vocabulary (d.project a v)) ≡ true
      → contains k v ≡ true

-- The three states of two steps, and the step from the first to the last.
abbrev between_steps : State → State → State
between_steps p q k = if k.ver == 2 then q (record k { ver = 1 }) else p k

abbrev pub composed : State → State → State
composed p q k = if k.ver == 1 then q k else p k

kept_versions :
    (k : DimensionKey) (v w : Vocabulary)
    → contains k (
        union_vocabularies
          (union_vocabularies (get_vocabulary_subset v 0) (get_vocabulary_subset v 2))
          (get_unversioned_vocabulary_subset w))
      ≡ true
    → k.ver ≢ 1
unfolding union_vocabularies get_unversioned_vocabulary_subset
kept_versions k v w h e =
    let pre = subsets_exact k v 0 one in
    let post = subsets_exact k v 2 one in
    let free = subsets_exact k w unversioned_version one in
    ground (
      arith,
      contains-union k (union_vocabularies (get_vocabulary_subset v 0) (get_vocabulary_subset v 2))
          (get_vocabulary_subset w unversioned_version),
      contains-union k (get_vocabulary_subset v 0) (get_vocabulary_subset v 2),
      pre.0,
      post.0,
      free.0,
    )

shift_zero : (v : ℕ) → v ≡ 0 → target shift_map v ≡ 1
shift_zero v h = ground arith

shift_one : (v : ℕ) → v ≡ 1 → target shift_map v ≡ 2
shift_one v h = ground arith

shift_other : (v : ℕ) → (v == 0) ≡ false → (v == 1) ≡ false → target shift_map v ≡ v
shift_other v h k = ground arith

back_two : (v : ℕ) → v ≡ 2 → target ((2, 1) ∷ []) v ≡ 1
back_two v h = ground arith

back_other : (v : ℕ) → (v == 2) ≡ false → target ((2, 1) ∷ []) v ≡ v
back_other v h = ground arith

same_key : (k : DimensionKey) (v : ℕ) → k.ver ≡ v → record k { ver = v } ≡ k
same_key k v e = ap (λ t. record k { ver = t }) (sym e)

other_version : (v w : ℕ) → v ≢ w → (v == w) ≡ false
other_version v w h = ground arith

different : (v w : ℕ) → (v == w) ≡ false → v ≢ w
different v w h = ground arith

module _ (p q : State) where
  at_other : (k : DimensionKey) → (k.ver == 2) ≡ false → between_steps p q k ≡ p k
  at_other k h = ap (λ (b : Bool). if b then q (record k { ver = 1 }) else p k) h

  at_two : (k : DimensionKey) → k.ver ≡ 2 → between_steps p q k ≡ q (record k { ver = 1 })
  at_two k h = ap (λ (b : Bool). if b then q (record k { ver = 1 }) else p k) ((==_iff k.ver 2).1 h)

  composed_other : (k : DimensionKey) → k.ver ≢ 1 → composed p q k ≡ p k
  composed_other k h = ap (λ (b : Bool). if b then q k else p k) (other_version k.ver 1 h)

  before_shift :
      (k : DimensionKey)
      → (k.ver ≡ 0 → p (record k { ver = 1 }) ≡ q k)
      → k.ver ≢ 2
      → (k.ver ≢ 0 → k.ver ≢ 1 → p k ≡ q k)
      → between_steps p q (replace_versions k shift_map) ≡ q k
  before_shift k mid two rest =
      let to = λ (v : ℕ). between_steps p q (record k { ver = v }) in
      ap (between_steps p q) (replace_versions-eq-target k shift_map)
      ∙ elim (Bool-cases (k.ver == 0)) [
        | inl zeroth ↦ let e = (==_iff k.ver 0).0 zeroth in ap to (shift_zero k.ver e) ∙ mid e
        | inr later ↦ elim (Bool-cases (k.ver == 1)) [
          | inl first ↦
              let e = (==_iff k.ver 1).0 first in ap to (shift_one k.ver e) ∙ ap q (same_key k 1 e)
          | inr other ↦
              ap to (shift_other k.ver later other)
              ∙ at_other k (other_version k.ver 2 two)
              ∙ rest (different k.ver 0 later) (different k.ver 1 other)
        ]
      ]

  after_shift :
      (k : DimensionKey)
      → k.ver ≢ 1
      → composed p q (replace_versions k ((2, 1) ∷ [])) ≡ between_steps p q k
  after_shift k h =
      let to = λ (v : ℕ). composed p q (record k { ver = v }) in
      ap (composed p q) (replace_versions-eq-target k ((2, 1) ∷ []))
      ∙ elim (Bool-cases (k.ver == 2)) [
        | inl second ↦
            let e = (==_iff k.ver 2).0 second in ap to (back_two k.ver e) ∙ sym (at_two k e)
        | inr other ↦ ap to (back_other k.ver other) ∙ composed_other k h ∙ sym (at_other k other)
      ]

-- Over a sound domain whose values say nothing of the dimensions that they do not have, whose
-- renaming carries steps over and whose projection has only the dimensions asked for, the
-- composition of two values without dimensions of version 2 has the composition of each step of
-- the first with each step of the second that starts where the first ends and agrees with it on
-- the dimensions of other versions: the values before from the first, those after from the second.
pub compose_has :
    (d : Domain) (snd : IsSoundDomain d) (rel : IsRelational d snd) (a b : d.Av) (p q : State)
    → ((k : DimensionKey) → contains k (d.get_vocabulary a) ≡ true → k.ver ≢ 2)
    → ((k : DimensionKey) → contains k (d.get_vocabulary b) ≡ true → k.ver ≢ 2)
    → ((k : DimensionKey) → k.ver ≡ 0 → p (record k { ver = 1 }) ≡ q k)
    → ((k : DimensionKey) → k.ver ≢ 0 → k.ver ≢ 1 → p k ≡ q k)
    → snd.Has a p
    → snd.Has b q
    → snd.Has (compose d a b) (composed p q)
unfolding compose replace_version_av
compose_has d snd rel a b p q na nb mid rest ha hb =
    let s = between_steps p q in
    let first = rel.local a p s (λ k c. at_other p q k (other_version k.ver 2 (na k c))) ha in
    let second =
      rel.renamed b shift_map q s (λ k c. before_shift p q k (mid k) (nb k c) (rest k)) hb in
    let met = snd.reduce_keeps _ s (snd.meet_keeps _ _ s first second) in
    rel.renamed _ ((2, 1) ∷ []) s (composed p q)
      (λ k c. after_shift p q k (kept_versions k _ _ (rel.project_only _ _ k c)))
      (snd.project_keeps _ _ s met)
