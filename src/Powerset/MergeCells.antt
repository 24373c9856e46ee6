-- ===== src/Powerset/MergeCells.antt =====
-- src/AbstractDomain/PointsetPowerset/pointset_powerset_av_impl.hpp: the addresses in `pp_copy` and
-- `dist_func` while `MergeHeuristic` runs.
use sound_bit_precise_domain.Prelude.{
  ℕ, suc, ◌≡◌, ◌⊎◌, inl, inr, refl, sym, ap, ◌∙◌, subst, true, false, List, [], ◌∷◌, ◌++◌, some,
  arith, Bool-cases, ◌==◌, ==_iff, length, All,
}
use sound_bit_precise_domain.Powerset.Ppl.{Ppl, Any}
use sound_bit_precise_domain.Powerset.Distance.{dist_func_comp}
use sound_bit_precise_domain.Powerset.Merge.{
  Pair, insert_pair, is_apart, keep_apart, Merging, Cells, take_out,
}

==-false : (a b : ℕ) → (a == b) ≡ false → a ≡ b → ⊥
==-false a b h e = ground (arith, h, e)

module _ (ppl : Ppl) (merging : Merging ppl) where
  -- An address is in the list; no address is twice.
  abbrev pub At : ℕ → Cells ppl merging → Type 0
  At a [] = ⊥
  At a (c ∷ cells) = (c.0 ≡ a) ⊎ At a cells

  abbrev pub Unique : Cells ppl merging → Type 0
  Unique [] = Unit
  Unique (c ∷ cells) = (At c.0 cells → ⊥) × Unique cells

  -- The two addresses of a pair are different ones of the list.
  abbrev pub Joins : Cells ppl merging → Pair → Type 0
  Joins cells e = At e.first cells × At e.second cells × (e.first ≡ e.second → ⊥)

  pub At-last :
      (a b : ℕ) (s : ppl.Pset) (cells : Cells ppl merging)
      → At a (cells ++ (b, s) ∷ [])
      → At a cells ⊎ (b ≡ a)
  At-last a b s [] (inl e) = inr e
  At-last a b s [] (inr h) = elim h [ ]
  At-last a b s (c ∷ cells) (inl e) = inl (inl e)
  At-last a b s (c ∷ cells) (inr h) = elim (At-last a b s cells h) [
    | inl k ↦ inl (inr k)
    | inr e ↦ inr e
  ]

  pub At-old :
      (a : ℕ) (c : ℕ × ppl.Pset) (cells : Cells ppl merging) → At a cells → At a (cells ++ c ∷ [])
  At-old a c [] h = elim h [ ]
  At-old a c (d ∷ cells) (inl e) = inl e
  At-old a c (d ∷ cells) (inr h) = inr (At-old a c cells h)

  pub At-new : (c : ℕ × ppl.Pset) (cells : Cells ppl merging) → At c.0 (cells ++ c ∷ [])
  At-new c [] = inl refl
  At-new c (d ∷ cells) = inr (At-new c cells)

  pub Unique-last :
      (a : ℕ) (s : ppl.Pset) (cells : Cells ppl merging)
      → Unique cells
      → (At a cells → ⊥)
      → Unique (cells ++ (a, s) ∷ [])
  Unique-last a s [] u new = ((λ h. h), tt)
  Unique-last a s (c ∷ cells) u new = (
    (λ h. elim (At-last c.0 a s cells h) [ inl k ↦ u.0 k | inr e ↦ new (inl (sym e)) ]),
    Unique-last a s cells u.1 (λ h. new (inr h)),
  )

  -- What taking an address out leaves.
  pub record IsRest (a : ℕ) (s : ppl.Pset) (cells rest : Cells ppl merging) : Type 1 where
    pub one_less : length cells ≡ suc (length rest)
    pub others_stay : (b : ℕ) → At b cells → (a ≡ b → ⊥) → At b rest
    pub none_new : (b : ℕ) → At b rest → At b cells
    pub stays_unique : Unique cells → Unique rest
    pub gone : Unique cells → At a rest → ⊥
    pub splits : (P : ppl.Pset → Type 0) → Any (λ c. P c.1) cells → P s ⊎ Any (λ c. P c.1) rest

  IsRest-here :
      (c : ℕ × ppl.Pset) (a : ℕ) (cells : Cells ppl merging)
      → c.0 ≡ a
      → IsRest a c.1 (c ∷ cells) cells
  IsRest-here c a cells e = record {
    one_less = refl;
    others_stay = λ b h n. elim h [ inl same ↦ elim (n (sym e ∙ same)) [ ] | inr later ↦ later ];
    none_new = λ b h. inr h;
    stays_unique = λ u. u.1;
    gone = λ u h. u.0 (subst (λ b. At b cells) (sym e) h);
    splits = λ P h. h;
  }

  IsRest-there :
      (c : ℕ × ppl.Pset) (a : ℕ) (s : ppl.Pset) (cells rest : Cells ppl merging)
      → (c.0 ≡ a → ⊥)
      → IsRest a s cells rest
      → IsRest a s (c ∷ cells) (c ∷ rest)
  IsRest-there c a s cells rest n r = record {
    one_less = ap suc r.one_less;
    others_stay =
        λ b h m. elim h [ inl same ↦ inl same | inr later ↦ inr (r.others_stay b later m) ];
    none_new = λ b h. elim h [ inl same ↦ inl same | inr later ↦ inr (r.none_new b later) ];
    stays_unique = λ u. ((λ h. u.0 (r.none_new c.0 h)), r.stays_unique u.1);
    gone = λ u h. elim h [ inl same ↦ n same | inr later ↦ r.gone u.1 later ];
    splits = λ P h. elim h [
      | inl here ↦ inr (inl here)
      | inr later ↦ elim (r.splits P later) [ inl out ↦ inl out | inr stays ↦ inr (inr stays) ]
    ];
  }

  -- An address of the list can be taken out, so the assertions on `std::find` hold.
  pub take_out_lem :
      (a : ℕ) (cells : Cells ppl merging)
      → At a cells
      → (s : ppl.Pset) × (rest : Cells ppl merging) × (take_out ppl merging a cells
          ≡ some (s, rest))
        × IsRest a s cells rest
  unfolding take_out
  take_out_lem a [] h = elim h [ ]
  take_out_lem a (c ∷ cells) h = elim (Bool-cases (c.0 == a)) [
    | inl same ↦ (c.1, cells, rw (same) refl, IsRest-here c a cells ((==_iff c.0 a).0 same))
    | inr other ↦
        let n = ==-false c.0 a other in
        elim h [
          | inl e ↦ elim (n e) [ ]
          | inr later ↦
              let r = take_out_lem a cells later in
              (r.0, c ∷ r.1, rw (other, r.2) refl, IsRest-there c a r.0 cells r.1 n r.3)
        ]
  ]

  -- What a pair says of the list it was made for, once two other addresses are out and the first
  -- is back at the end.
  pub Joins-rest :
      (a b : ℕ) (s s1 s2 : ppl.Pset) (cells r1 r2 : Cells ppl merging)
      → IsRest a s1 cells r1
      → IsRest b s2 r1 r2
      → (e : Pair) → is_apart a b e ≡ true
      → Joins cells e
      → Joins (r2 ++ (a, s) ∷ []) e
  unfolding is_apart
  Joins-rest a b s s1 s2 cells r1 r2 out1 out2 e apart j =
      let stays : (k : ℕ) → At k cells → (a ≡ k → ⊥) → (b ≡ k → ⊥) → At k (r2 ++ (a, s) ∷ []) =
        λ k h m n. At-old k (a, s) r2 (out2.others_stay k (out1.others_stay k h m) n) in
      (
        stays e.first j.0 (ground (arith, apart)) (ground (arith, apart)),
        stays e.second j.1 (ground (arith, apart)) (ground (arith, apart)),
        j.2,
      )

-- The set of pairs is not empty.
abbrev pub IsCons : List Pair → Type 0
IsCons [] = ⊥
IsCons (e ∷ l) = Unit

pub insert_pair-All :
    (P : Pair → Type 0) (e : Pair) (l : List Pair) → P e → All P l → All P (insert_pair e l)
unfolding insert_pair
insert_pair-All P e [] p h = (p, tt)
insert_pair-All P e (x ∷ l) p h = elim (Bool-cases (dist_func_comp e.distance x.distance)) [
  | inl before ↦ rw (before) (p, h)
  | inr later ↦ elim (Bool-cases (dist_func_comp x.distance e.distance)) [
    | inl after ↦ rw (later, after) (h.0, insert_pair-All P e l p h.1)
    | inr alike ↦ rw (later, alike) h
  ]
]

pub insert_pair-IsCons : (e : Pair) (l : List Pair) → IsCons (insert_pair e l)
unfolding insert_pair
insert_pair-IsCons e [] = tt
insert_pair-IsCons e (x ∷ l) = elim (Bool-cases (dist_func_comp e.distance x.distance)) [
  | inl before ↦ rw (before) tt
  | inr later ↦ elim (Bool-cases (dist_func_comp x.distance e.distance)) [
    | inl after ↦ rw (later, after) tt
    | inr alike ↦ rw (later, alike) tt
  ]
]

-- Erasing the pairs of two addresses.
pub keep_apart-All :
    (P Q : Pair → Type 0) (a b : ℕ)
    → ((e : Pair) → is_apart a b e ≡ true → P e → Q e)
    → (l : List Pair) → All P l
    → All Q (keep_apart a b l)
unfolding keep_apart
keep_apart-All P Q a b f [] h = tt
keep_apart-All P Q a b f (e ∷ l) h = elim (Bool-cases (is_apart a b e)) [
  | inl apart ↦ rw (apart) (f e apart h.0, keep_apart-All P Q a b f l h.1)
  | inr touched ↦ rw (touched) (keep_apart-All P Q a b f l h.1)
]
