-- ===== src/Semiring/Sound.antt =====
-- Combining two weights keeps the steps of both.
use sound_bit_precise_domain.Prelude.{
  ◌≡◌, refl, sym, subst, ap, ◌∙◌, ◌⊎◌, inl, inr, Bool, true, false, ◌||◌, ok, if◌then◌else◌, arith,
  Bool-cases,
}
use sound_bit_precise_domain.Dimension.Vocabulary.{Vocabulary}
use sound_bit_precise_domain.Wrapped.Domain.{Domain}
use sound_bit_precise_domain.Wrapped.Lattice.{voc_eq}
use sound_bit_precise_domain.Semiring.{
  Weight, is_rule, is_widening, or_name, written_out, join_weights, combine, set_to_syntactic_one,
}
use sound_bit_precise_domain.Semiring.Identity.{IsIdentity, set_to_syntactic_one_has}
use sound_bit_precise_domain.Wrapped.Meaning.{State, IsSoundDomain}

true_ne_false : true ≡ false → ⊥
true_ne_false e = ground (arith, e)

module _ (d : Domain) (snd : IsSoundDomain d) where
  -- The steps of a weight: the special one has those that change nothing.
  abbrev pub HasStep : Weight d → State → Type 0
  HasStep w p = ((w.is_one ≡ true) × IsIdentity p) ⊎ ((w.is_one ≡ false) × snd.Has w.av p)

  only_identity :
      (w : Weight d)
      → w.is_one ≡ true
      → (p : State) {X : Type 0} → (IsIdentity p → X)
      → HasStep w p
      → X
  only_identity w one p f (inl (e, id)) = f id
  only_identity w one p f (inr (e, has)) = absurd (true_ne_false (sym one ∙ e))

  only_plain : (w : Weight d) → w.is_one ≡ false → (p : State) → HasStep w p → snd.Has w.av p
  only_plain w plain p (inl (e, id)) = absurd (true_ne_false (sym e ∙ plain))
  only_plain w plain p (inr (e, has)) = has

  written_out_has :
      (w : Weight d)
      → (r : Weight d) × (written_out d w ≡ ok r)
        × (r.is_one ≡ false)
        × (r.t ≡ w.t)
        × ((p : State) → HasStep w p → snd.Has r.av p)
  unfolding written_out
  written_out_has w = elim (Bool-cases w.is_one) [
    | inl one ↦
        let s = set_to_syntactic_one_has d snd w one in
        (
          s.0,
          ap (λ b. if b then set_to_syntactic_one d w else ok w) one ∙ s.1,
          s.2,
          s.5,
          λ p. only_identity w one p (s.6 p),
        )
    | inr plain ↦ (
      w,
      ap (λ b. if b then set_to_syntactic_one d w else ok w) plain,
      plain,
      refl,
      λ p. only_plain w plain p,
    )
  ]

  -- `result` and `op2_cp`, over the vocabularies of both.
  abbrev enlarged : Weight d → Weight d → Weight d
  enlarged this op2 = record this {
    av = d.add_vocabulary this.av (d.get_vocabulary op2.av);
    from = or_name this.from op2.from;
    to = or_name this.to op2.to;
  }

  abbrev matched : Weight d → Weight d → Weight d
  matched this op2 =
      let voc = d.get_vocabulary (d.add_vocabulary this.av (d.get_vocabulary op2.av)) in
      if voc_eq voc (d.get_vocabulary op2.av)
      then op2
      else record op2 { av = d.add_vocabulary op2.av voc }

  enlarged_has : (this op2 : Weight d) (p : State) → HasStep this p → HasStep (enlarged this op2) p
  enlarged_has this op2 p (inl h) = inl h
  enlarged_has this op2 p (inr (plain, has)) = inr (plain, snd.add_vocabulary_keeps _ _ p has)

  grown_has :
      (b : Bool) (w : Weight d) (v : Vocabulary) (p : State)
      → HasStep w p
      → HasStep (if b then w else record w { av = d.add_vocabulary w.av v }) p
  grown_has true w v p h = h
  grown_has false w v p (inl h) = inl h
  grown_has false w v p (inr (plain, has)) = inr (plain, snd.add_vocabulary_keeps _ _ p has)

  matched_has : (this op2 : Weight d) (p : State) → HasStep op2 p → HasStep (matched this op2) p
  matched_has this op2 p h = grown_has _ op2 _ p h

  widened_has :
      (b : Bool) (joined a : d.Av) (p : State)
      → snd.Has joined p
      → snd.Has (if b then d.widen joined a else joined) p
  widened_has true joined a p h = snd.widen_left joined a p h
  widened_has false joined a p h = h

  empty_lacks :
      (w : Weight d)
      → (w.is_one ≡ true → d.is_bottom w.av ≡ false)
      → d.is_bottom w.av ≡ true
      → (p : State) → HasStep w p
      → ⊥
  empty_lacks w n e p (inl (one, id)) = true_ne_false (sym e ∙ n one)
  empty_lacks w n e p (inr (plain, has)) = snd.bottom_lacks w.av p e has

  -- `combine` past its early returns.
  join_weights_has :
      (this op2 : Weight d)
      → (r : Weight d) × (join_weights d this op2 ≡ ok r)
        × (r.is_one ≡ false)
        × (r.t ≡ this.t)
        × ((p : State) → HasStep this p ⊎ HasStep op2 p → snd.Has r.av p)
  unfolding join_weights
  join_weights_has this op2 =
      let left = written_out_has (enlarged this op2) in
      let right = written_out_has (matched this op2) in
      let joined = d.join left.0.av right.0.av in
      (
        record left.0 {
          av = if is_widening this.t || is_widening op2.t then d.widen joined this.av else joined;
        },
        rw (left.1, right.1) refl,
        left.2,
        left.3,
        λ p h. widened_has (is_widening this.t || is_widening op2.t) joined this.av p (elim h [
          | inl h ↦ snd.join_left left.0.av right.0.av p (left.4 p (enlarged_has this op2 p h))
          | inr h ↦ snd.join_right left.0.av right.0.av p (right.4 p (matched_has this op2 p h))
        ]),
      )

  -- Over a sound domain `combine` of two weights that are no widening rules never faults, and the
  -- result has every step of both, the special one standing for the steps that change nothing.
  -- `same_object` says whether the two are one object. A weight that is the special one is taken
  -- to hold a value that is not empty.
  pub combine_has :
      (same_object : Bool) (this op2 : Weight d)
      → (same_object ≡ true → this ≡ op2)
      → is_rule this.t ≡ false
      → is_rule op2.t ≡ false
      → (this.is_one ≡ true → d.is_bottom this.av ≡ false)
      → (op2.is_one ≡ true → d.is_bottom op2.av ≡ false)
      → (r : Weight d) × (combine d same_object this op2 ≡ ok r)
        × ((p : State) → HasStep this p ⊎ HasStep op2 p → HasStep r p)
  unfolding combine
  combine_has true this op2 same ht ho nt nw = (
    this,
    refl,
    λ p h. elim h [ inl h ↦ h | inr h ↦ subst (λ w. HasStep w p) (sym (same refl)) h ],
  )
  combine_has false this op2 same ht ho nt nw = elim (Bool-cases (d.is_bottom this.av)) [
    | inl e ↦ (
      op2,
      rw (ht, ho, e) refl,
      λ p h. elim h [ inl h ↦ absurd (empty_lacks this nt e p h) | inr h ↦ h ],
    )
    | inr ne ↦ elim (Bool-cases (d.is_bottom op2.av)) [
      | inl e ↦ (
        this,
        rw (ht, ho, ne, e) refl,
        λ p h. elim h [ inl h ↦ h | inr h ↦ absurd (empty_lacks op2 nw e p h) ],
      )
      | inr neo ↦
          let j = join_weights_has this op2 in
          (j.0, rw (ht, ho, ne, neo) j.1, λ p h. inr (j.2, j.4 p h))
    ]
  ]

  -- Over a sound domain the result of combining two weights that are different objects, not empty
  -- and no widening rules is not marked as the special one and has the type of the first weight,
  -- also where that is a widening weight.
  pub combine_keeps_type :
      (this op2 : Weight d)
      → is_rule this.t ≡ false
      → is_rule op2.t ≡ false
      → d.is_bottom this.av ≡ false
      → d.is_bottom op2.av ≡ false
      → (r : Weight d) × (combine d false this op2 ≡ ok r) × (r.is_one ≡ false) × (r.t ≡ this.t)
  unfolding combine
  combine_keeps_type this op2 ht ho ne neo =
      let j = join_weights_has this op2 in (j.0, rw (ht, ho, ne, neo) j.1, j.2, j.3)
