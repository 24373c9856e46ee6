-- ===== src/Semiring/Identity.antt =====
-- The value that `SetToSyntacticOne` writes out.
use sound_bit_precise_domain.Prelude.{
  ◌≡◌, refl, sym, ap, ◌∙◌, ◌↔◌, true, false, [], ◌∷◌, ok, ◌>>◌, guard, assertion, arith, Bool-cases,
  inl, inr,
}
use sound_bit_precise_domain.Dimension.Key.{DimensionKey, key_ord, key_eq_refl, eq_of_key_eq}
use sound_bit_precise_domain.Dimension.Vocabulary.{Vocabulary, is_version_in_dimension}
use sound_bit_precise_domain.Dimension.Versions.{replace_version}
use sound_bit_precise_domain.Wrapped.Domain.{Domain}
use sound_bit_precise_domain.Wrapped.Meaning.{State, IsSoundDomain}
use sound_bit_precise_domain.Semiring.{
  Weight, is_pair, equate_inner, equate_outer, set_to_syntactic_one,
}

-- The step changes nothing.
abbrev pub IsIdentity : State → Type 0
IsIdentity p = (k : DimensionKey) → k.ver ≡ 0 → p k ≡ p (record k { ver = 1 })

-- The loops make two dimensions equal if they are one dimension before and after the step.
is_pair_iff :
    (k1 k2 : DimensionKey) → (is_pair k1 k2 ≡ true) ↔ ((k1.ver ≡ 0) × (k2 ≡ record k1 { ver = 1 }))
unfolding is_pair is_version_in_dimension replace_version
is_pair_iff k1 k2 = ground (
  arith,
  key_eq_refl k2,
  key_eq_refl (record k1 { ver = 1 }),
  eq_of_key_eq (record k1 { ver = 1 }) k2,
  eq_of_key_eq (record k1 { ver = 1 }) (record k2 { ver = 1 }),
  eq_of_key_eq k1 k2,
)

module _ (d : Domain) (snd : IsSoundDomain d) (p : State) (id : IsIdentity p) where
  pair_equal : (k1 k2 : DimensionKey) → is_pair k1 k2 ≡ true → p k1 ≡ p k2
  pair_equal k1 k2 h = let e = (is_pair_iff k1 k2).0 h in id k1 e.0 ∙ ap p (sym e.1)

  equate_inner_keeps :
      (k1 : DimensionKey) (voc : Vocabulary) (a : d.Av)
      → snd.Has a p
      → snd.Has (equate_inner d k1 voc a) p
  unfolding equate_inner
  equate_inner_keeps k1 [] a h = h
  equate_inner_keeps k1 (k2 ∷ voc) a h = elim (Bool-cases (is_pair k1 k2)) [
    | inl pair ↦
        rw (pair, equate_inner)
          (equate_inner_keeps k1 voc _ (snd.add_equality_keeps a k1 k2 p h (pair_equal k1 k2 pair)))
    | inr other ↦ rw (other, equate_inner) (equate_inner_keeps k1 voc a h)
  ]

  equate_outer_keeps :
      (rest voc : Vocabulary) (a : d.Av) → snd.Has a p → snd.Has (equate_outer d rest voc a) p
  unfolding equate_outer
  equate_outer_keeps [] voc a h = h
  equate_outer_keeps (k1 ∷ rest) voc a h =
      equate_outer_keeps rest voc _ (equate_inner_keeps k1 voc a h)

-- Over a sound domain `SetToSyntacticOne` of the special one clears the mark, keeps the ends and
-- the type, and gives a value that has every step that changes nothing.
pub set_to_syntactic_one_has :
    (d : Domain) (snd : IsSoundDomain d) (w : Weight d)
    → w.is_one ≡ true
    → (r : Weight d) × (set_to_syntactic_one d w ≡ ok r)
      × (r.is_one ≡ false)
      × (r.from ≡ w.from)
      × (r.to ≡ w.to)
      × (r.t ≡ w.t)
      × ((p : State) → IsIdentity p → snd.Has r.av p)
unfolding set_to_syntactic_one
set_to_syntactic_one_has d snd w h =
    let voc = d.get_vocabulary (d.top w.av) in
    let a = equate_outer d voc voc (d.top w.av) in
    (
      record w { is_one = false; av = a },
      ap (λ b. guard b assertion >> ok (record w { is_one = false; av = a })) h,
      refl,
      refl,
      refl,
      refl,
      λ p id. equate_outer_keeps d snd p id voc voc (d.top w.av) (snd.top_has w.av p),
    )
