-- ===== src/Powerset/WrapLoss.antt =====
-- The loop over `ret_list` where it ends on a set that needs no wrapping.
use sound_bit_precise_domain.Prelude.{ℕ, ◌≡◌, refl, ap, ◌∙◌, List, [], ◌∷◌, ◌++◌, All}
use mathlib.Core.List.{append_assoc, append-nil}
use sound_bit_precise_domain.Powerset.Ppl.{Ppl, Bound}
use sound_bit_precise_domain.Powerset.WrapAssign.{
  Representation, Overflow, Step, full, keep, split, classify, pieces, wrap_list,
}

-- The step neither unconstrains the set nor adds bounds.
abbrev pub IsPlain : Step → Type 0
IsPlain full = ⊥
IsPlain (keep extra) = extra ≡ []
IsPlain (split first n) = Unit

module _ (ppl : Ppl) (w : ℕ) (r : Representation) (o : Overflow) (threshold : ℕ) where
  keep_plain :
      (x : ℕ) (before rest new : List ppl.Pset) (s : ppl.Pset) (bs extra : List Bound)
      → classify ppl w r o threshold x s ≡ keep extra
      → extra ≡ []
      → wrap_list ppl w r o threshold x before (s ∷ rest) new bs
        ≡ wrap_list ppl w r o threshold x (before ++ s ∷ []) rest (before ++ s ∷ rest) bs
  unfolding wrap_list
  keep_plain x before rest new s bs extra e h = rw (e, h, append-nil bs, wrap_list) refl

  plain_step :
      (x : ℕ) (before rest new : List ppl.Pset) (s : ppl.Pset) (bs : List Bound) (step : Step)
      → classify ppl w r o threshold x s ≡ step
      → IsPlain step
      → (new' : List ppl.Pset) × (wrap_list ppl w r o threshold x before (s ∷ rest) new bs
          ≡ wrap_list ppl w r o threshold x (before ++ s ∷ []) rest new' bs)
  unfolding wrap_list
  plain_step x before rest new s bs full e h = elim h [ ]
  plain_step x before rest new s bs (keep extra) e h =
      (before ++ s ∷ rest, keep_plain x before rest new s bs extra e h)
  plain_step x before rest new s bs (split first n) e h =
      (new ++ pieces ppl w r o threshold x s first n, rw (e, wrap_list) refl)

  last_step :
      (x : ℕ) (before new : List ppl.Pset) (s : ppl.Pset) (bs : List Bound)
      → classify ppl w r o threshold x s ≡ keep []
      → wrap_list ppl w r o threshold x before (s ∷ []) new bs ≡ (before ++ s ∷ [], bs)
  unfolding wrap_list
  last_step x before new s bs e = rw (e, append-nil bs, wrap_list) refl

  -- If the last set of the list needs no wrapping and no other is unconstrained or bounded, the
  -- loop returns the list that it got: every piece that it split off before is dropped.
  pub wrap_list_drops_pieces :
      (x : ℕ) (before l new : List ppl.Pset) (s : ppl.Pset) (bs : List Bound)
      → All (λ t. IsPlain (classify ppl w r o threshold x t)) l
      → classify ppl w r o threshold x s ≡ keep []
      → wrap_list ppl w r o threshold x before (l ++ s ∷ []) new bs ≡ (before ++ (l ++ s ∷ []), bs)
  wrap_list_drops_pieces x before [] new s bs h e = last_step x before new s bs e
  wrap_list_drops_pieces x before (t ∷ l) new s bs h e =
      let step = plain_step x before (l ++ s ∷ []) new t bs _ refl h.0 in
      step.1
      ∙ wrap_list_drops_pieces x (before ++ t ∷ []) l step.0 s bs h.1 e
      ∙ ap (λ m. (m, bs)) (append_assoc before (t ∷ []) (l ++ s ∷ []))
