-- ===== src/Wrapped/WrapExact.antt =====
-- What the loop of `Wrap` records and what it leaves to the domain.
use sound_bit_precise_domain.Prelude.{
  ◌≡◌, refl, ◌∙◌, Bool, true, [], ◌∷◌, arith, inl, inr, Bool-cases, Option-cases, if◌then◌else◌,
}
use sound_bit_precise_domain.Container.{eq_of_eqb, Above}
use sound_bit_precise_domain.Container.SortedMap.{
  keys, IsMap, find, insert, assign, first, find-insert, find-assign, insert-IsMap, assign-IsMap,
  find-Above_self,
}
use sound_bit_precise_domain.Dimension.Key.{DimensionKey, key_ord}
use sound_bit_precise_domain.Signedness.{VocabularySignedness, same_sign}
use sound_bit_precise_domain.Signedness.Lookup.{unmatched}
use sound_bit_precise_domain.Wrapped.Record.{Wrapped, wrap, wrap_loop}
use sound_bit_precise_domain.Wrapped.Domain.{Domain}

Kept-Above :
    (a : DimensionKey) (v w : VocabularySignedness)
    → Above a (keys v)
    → Above a (keys (wrap_loop v w).0)
unfolding wrap_loop
Kept-Above a [] w u = tt
Kept-Above a ((k, s) ∷ v) w u = elim (Option-cases (find k w)) [
  | inl e ↦ rw (e, wrap_loop) (u.0, Kept-Above a v (insert k s w) u.1)
  | inr (t, e) ↦ elim (Bool-cases (same_sign t s)) [
    | inl same ↦ rw (e, same, wrap_loop) (Kept-Above a v w u.1)
    | inr differ ↦ rw (e, differ, wrap_loop) (u.0, Kept-Above a v (assign k s w) u.1)
  ]
]

kept-IsMap : (v w : VocabularySignedness) → IsMap v → IsMap (wrap_loop v w).0
unfolding wrap_loop
kept-IsMap [] w s = tt
kept-IsMap ((k, s) ∷ v) w m = elim (Option-cases (find k w)) [
  | inl e ↦ rw (e, wrap_loop) (Kept-Above k v (insert k s w) m.0, kept-IsMap v (insert k s w) m.1)
  | inr (t, e) ↦ elim (Bool-cases (same_sign t s)) [
    | inl same ↦ rw (e, same, wrap_loop) (kept-IsMap v w m.1)
    | inr differ ↦
        rw (e, differ, wrap_loop)
          (Kept-Above k v (assign k s w) m.0, kept-IsMap v (assign k s w) m.1)
  ]
]

pub wrapped-IsMap : (v w : VocabularySignedness) → IsMap w → IsMap (wrap_loop v w).1
unfolding wrap_loop
wrapped-IsMap [] w m = m
wrapped-IsMap ((k, s) ∷ v) w m = elim (Option-cases (find k w)) [
  | inl e ↦ rw (e, wrap_loop) (wrapped-IsMap v (insert k s w) (insert-IsMap k s w m))
  | inr (t, e) ↦ elim (Bool-cases (same_sign t s)) [
    | inl same ↦ rw (e, same, wrap_loop) (wrapped-IsMap v w m)
    | inr differ ↦ rw (e, differ, wrap_loop) (wrapped-IsMap v (assign k s w) (assign-IsMap k s w m))
  ]
]

same_sign_eq : (s t : Bool) → same_sign s t ≡ true → s ≡ t
same_sign_eq s t h = ground arith

pub find-wrapped :
    (q : DimensionKey) (v w : VocabularySignedness)
    → IsMap v
    → IsMap w
    → find q (wrap_loop v w).1 ≡ first (find q v) (find q w)
unfolding wrap_loop find
find-wrapped q [] w mv mw = refl
find-wrapped q ((k, s) ∷ v) w mv mw = elim (Option-cases (find k w)) [
  | inl e ↦
      rw (e, wrap_loop)
        (find-wrapped q v (insert k s w) mv.1 (insert-IsMap k s w mw)
          ∙ ground (arith, find-insert q k s w mw, find-Above_self k v mv.0, eq_of_eqb q k))
  | inr (t, e) ↦ elim (Bool-cases (same_sign t s)) [
    | inl same ↦
        rw (e, same, wrap_loop)
          (find-wrapped q v w mv.1 mw
            ∙ ground (arith, find-Above_self k v mv.0, eq_of_eqb q k, same_sign_eq t s same))
    | inr differ ↦
        rw (e, differ, wrap_loop)
          (find-wrapped q v (assign k s w) mv.1 (assign-IsMap k s w mw)
            ∙ ground (arith, find-assign q k s w mw, find-Above_self k v mv.0, eq_of_eqb q k))
  ]
]

find-kept :
    (q : DimensionKey) (v w : VocabularySignedness)
    → IsMap v
    → IsMap w
    → find q (wrap_loop v w).0 ≡ unmatched (find q v) (find q w)
unfolding wrap_loop find
find-kept q [] w mv mw = refl
find-kept q ((k, s) ∷ v) w mv mw = elim (Option-cases (find k w)) [
  | inl e ↦
      rw (e, wrap_loop)
        (ground (
          arith,
          find-kept q v (insert k s w) mv.1 (insert-IsMap k s w mw),
          find-insert q k s w mw,
          find-Above_self k v mv.0,
          eq_of_eqb q k,
        ))
  | inr (t, e) ↦ elim (Bool-cases (same_sign t s)) [
    | inl same ↦
        rw (e, same, wrap_loop)
          (ground (
            arith,
            find-kept q v w mv.1 mw,
            find-Above_self k v mv.0,
            eq_of_eqb q k,
            same_sign_eq t s same,
          ))
    | inr differ ↦
        rw (e, differ, wrap_loop)
          (ground (
            arith,
            find-kept q v (assign k s w) mv.1 (assign-IsMap k s w mw),
            find-assign q k s w mw,
            find-Above_self k v mv.0,
            eq_of_eqb q k,
            differ,
          ))
  ]
]

-- `Wrap` records every dimension that it is given with the sign that it is given, over the sign
-- recorded before, and keeps what else is recorded. Unless wrapping is disabled, the domain is
-- asked to wrap exactly the dimensions that were not recorded with that same sign. This holds for
-- maps.
pub wrap_exact :
    (d : Domain) (disable_wrapping : Bool) (this : Wrapped d) (v : VocabularySignedness)
    → IsMap v
    → IsMap this.wrapped_voc
    → (kept : VocabularySignedness) × ((wrap d disable_wrapping this v).av
        ≡ (if disable_wrapping then this.av else d.wrap this.av kept))
      × IsMap kept
      × ((q : DimensionKey) → find q kept ≡ unmatched (find q v) (find q this.wrapped_voc))
      × IsMap (wrap d disable_wrapping this v).wrapped_voc
      × ((q : DimensionKey)
          → find q (wrap d disable_wrapping this v).wrapped_voc
            ≡ first (find q v) (find q this.wrapped_voc))
unfolding wrap
wrap_exact d disable_wrapping this v mv mw = (
  (wrap_loop v this.wrapped_voc).0,
  refl,
  kept-IsMap v this.wrapped_voc mv,
  λ q. find-kept q v this.wrapped_voc mv mw,
  wrapped-IsMap v this.wrapped_voc mw,
  λ q. find-wrapped q v this.wrapped_voc mv mw,
)
