-- ===== src/Value/Extend.antt =====
-- utils/gmp/value.cpp: the changes of width of `Value`.
use sound_bit_precise_domain.Prelude.{
  ℕ, ◌+◌, ◌-◌, ◌^◌, ◌%◌, ◌≤◌, ◌<◌, ◌≡◌, ◌≢◌, refl, ap, sym, subst, ◌∙◌, arith, inl, inr, Bool-cases,
  ==_iff, Result, ok, ◌>>=◌, ◌>>◌, guard, ltb, leb, ◌==◌, if◌then◌else◌, assertion,
}
use sound_bit_precise_domain.Value.Signed.{signed}
use sound_bit_precise_domain.Value.{
  Value, Bitsize, sixty_four, thirty_two, sixteen, eight, one, make, member, defined, get_bit_width,
  modulus, IsAt, make-IsAt, make_congr,
}

unfoldable pub zero_extend : Value → Bitsize → Result Value
zero_extend a new = do
  guard (leb (get_bit_width a.size) (get_bit_width new)) assertion
  x ← defined (member a.size a)
  ok (make new x)

-- `LONG_UINT(LONG_INT(INT(bv32_)))` and its like; a 1-bit word goes through `bool`.
unfoldable pub sign_bits : Bitsize → ℕ → ℕ
sign_bits sixty_four x = x
sign_bits thirty_two x = if leb (2 ^ 31) x then x + (2 ^ 64 - 2 ^ 32) else x
sign_bits sixteen x = if leb (2 ^ 15) x then x + (2 ^ 64 - 2 ^ 16) else x
sign_bits eight x = if leb (2 ^ 7) x then x + (2 ^ 64 - 2 ^ 8) else x
sign_bits one x = x

unfoldable pub sign_extend : Value → Bitsize → Result Value
sign_extend a new = do
  guard (leb (get_bit_width a.size) (get_bit_width new)) assertion
  x ← defined (member a.size a)
  ok (make new (sign_bits a.size x))

unfoldable pub trunc : Value → Bitsize → Result Value
trunc a new = do
  guard (leb (get_bit_width new) (get_bit_width a.size)) assertion
  x ← defined (member a.size a)
  ok (make new x)

unfoldable pub sign_extend_or_trunc : Value → Bitsize → Result Value
sign_extend_or_trunc a new =
    if get_bit_width a.size == get_bit_width new
    then ok a
    else if ltb (get_bit_width a.size) (get_bit_width new)
    then sign_extend a new
    else trunc a new

zero_extend-IsAt :
    (s new : Bitsize) {a : Value} {x : ℕ}
    → IsAt s a x
    → get_bit_width s ≤ get_bit_width new
    → zero_extend a new ≡ ok (make new x)
unfolding zero_extend
zero_extend-IsAt s new ha h = ground arith

sign_extend-IsAt :
    (s new : Bitsize) {a : Value} {x : ℕ}
    → IsAt s a x
    → get_bit_width s ≤ get_bit_width new
    → sign_extend a new ≡ ok (make new (sign_bits s x))
unfolding sign_extend
sign_extend-IsAt s new ha h = ground arith

trunc-IsAt :
    (s new : Bitsize) {a : Value} {x : ℕ}
    → IsAt s a x
    → get_bit_width new ≤ get_bit_width s
    → trunc a new ≡ ok (make new x)
unfolding trunc
trunc-IsAt s new ha h = ground arith

-- Cutting to a smaller width forgets the reduction modulo the larger one.
mod_mod_width :
    (s new : Bitsize) (n : ℕ)
    → get_bit_width s ≤ get_bit_width new
    → n % modulus new % modulus s ≡ n % modulus s
unfolding get_bit_width
mod_mod_width s new n h = ground arith

sign_bits_low : (s : Bitsize) (x : ℕ) → x < modulus s → sign_bits s x % modulus s ≡ x % modulus s
unfolding sign_bits
sign_bits_low s x h = ground arith

sign_bits_high :
    (s new : Bitsize) (x : ℕ)
    → s ≢ one
    → x < modulus s
    → get_bit_width s ≤ get_bit_width new
    → signed (modulus new) (sign_bits s x % modulus new) ≡ signed (modulus s) x
unfolding sign_bits signed get_bit_width
sign_bits_high sixty_four new x ne p h = ground arith
sign_bits_high thirty_two new x ne p h = ground arith
sign_bits_high sixteen new x ne p h = ground arith
sign_bits_high eight new x ne p h = ground arith
sign_bits_high one new x ne p h = absurd (ne refl)

-- Widening a value that holds a number and cutting the result back to the old size gives the
-- value's number, whether the widening fills with zeros or with the sign, for any new size that
-- is not smaller.
pub trunc-extend :
    (s new : Bitsize) (a : Value) (x : ℕ)
    → IsAt s a x
    → get_bit_width s ≤ get_bit_width new
    → ((zero_extend a new >>= λ b. trunc b s) ≡ ok (make s x))
      × ((sign_extend a new >>= λ b. trunc b s) ≡ ok (make s x))
trunc-extend s new a x ha h = (
  rw (zero_extend-IsAt s new ha h)
      (trunc-IsAt new s (make-IsAt new x) h ∙ ap ok (make_congr s _ _ (mod_mod_width s new x h))),
  rw (sign_extend-IsAt s new ha h) (
      trunc-IsAt new s (make-IsAt new (sign_bits s x)) h
      ∙ ap ok (make_congr s _ _ (mod_mod_width s new _ h ∙ sign_bits_low s x ha.fits))),
)

-- Sign extension of a value that holds a number from 8, 16, 32 or 64 bits to a size that is not
-- smaller keeps the integer that the word stands for.
pub signed-sign_extend :
    (s new : Bitsize) (a : Value) (x : ℕ)
    → IsAt s a x
    → s ≢ one
    → get_bit_width s ≤ get_bit_width new
    → (b : Value) × (y : ℕ) × (sign_extend a new ≡ ok b)
      × IsAt new b y
      × (signed (modulus new) y ≡ signed (modulus s) x)
signed-sign_extend s new a x ha ne h = (
  make new (sign_bits s x),
  sign_bits s x % modulus new,
  sign_extend-IsAt s new ha h,
  make-IsAt new (sign_bits s x),
  sign_bits_high s new x ne ha.fits h,
)

width_injective : (s new : Bitsize) → get_bit_width s ≡ get_bit_width new → s ≡ new
unfolding get_bit_width
width_injective s new h = ground arith

keeps_same_width :
    (s new : Bitsize) {a : Value} {x : ℕ}
    → IsAt s a x
    → get_bit_width s ≡ get_bit_width new
    → IsAt new a (sign_bits s x % modulus new)
keeps_same_width s new {a} {x} ha e =
    let low : sign_bits s x % modulus s ≡ x = sign_bits_low s x ha.fits ∙ ground arith in
    subst (λ t. IsAt t a (sign_bits s x % modulus t)) (width_injective s new e) (rw low ha)

sign_bits_cut :
    (s new : Bitsize) (x : ℕ)
    → x < modulus s
    → get_bit_width new ≤ get_bit_width s
    → make new x ≡ make new (sign_bits s x)
sign_bits_cut s new x p h = make_congr new _ _ (
    sym (mod_mod_width new s x h)
    ∙ ap (λ t. t % modulus new) (sym (sign_bits_low s x p))
    ∙ mod_mod_width new s (sign_bits s x) h)

-- For a value that holds a number `SignExtendOrTrunc` meets the asserts of the function that it
-- picks: to any new size it gives the number, filled with the sign where the size grows and cut
-- where it shrinks.
pub sign_extend_or_trunc_total :
    (s new : Bitsize) (a : Value) (x : ℕ)
    → IsAt s a x
    → (b : Value) × (sign_extend_or_trunc a new ≡ ok b) × IsAt new b (sign_bits s x % modulus new)
unfolding sign_extend_or_trunc
sign_extend_or_trunc_total s new a x ha =
    let w : get_bit_width a.size ≡ get_bit_width s = ap get_bit_width ha.tagged in
    elim (Bool-cases (get_bit_width a.size == get_bit_width new)) [
      | inl same ↦ (a, rw same, keeps_same_width s new ha (sym w ∙ (==_iff _ _).0 same))
      | inr differ ↦ (
        make new (sign_bits s x),
        rw differ (elim (Bool-cases (ltb (get_bit_width a.size) (get_bit_width new))) [
          | inl up ↦ rw up (sign_extend-IsAt s new ha (ground arith))
          | inr down ↦ rw down (
              trunc-IsAt s new ha (ground arith)
              ∙ ap ok (sign_bits_cut s new x ha.fits (ground arith)))
        ]),
        make-IsAt new (sign_bits s x),
      )
    ]
