-- ===== src/Dimension/Key.antt =====
-- `DimensionKey` and its comparison, which orders by name, then version, then bit size.
use sound_bit_precise_domain.Prelude.{
  ℕ, ◌-◌, ◌^◌, ◌≡◌, refl, Bool, true, false, not, ◌&&◌, List, [], ◌∷◌, arith, ltb, ◌==◌,
  if◌then◌else◌,
}
use sound_bit_precise_domain.Value.{Bitsize, get_bit_width}
use sound_bit_precise_domain.Container.{IsOrder, Ord}

-- A name is its bytes.
abbrev pub Name : Type 0
Name = List ℕ

-- `(Version)-1` in an `unsigned` of 32 bits.
abbrev pub unversioned_version : ℕ
unversioned_version = 2 ^ 32 - 1

pub record DimensionKey : Type 0 where
  pub name : Name
  pub ver : ℕ
  pub bitsize : Bitsize

-- `operator==` and `operator<` of `std::string`.
unfoldable pub name_eq : Name → Name → Bool
name_eq [] [] = true
name_eq [] (y ∷ n) = false
name_eq (x ∷ m) [] = false
name_eq (x ∷ m) (y ∷ n) = x == y && name_eq m n

unfoldable pub name_lt : Name → Name → Bool
name_lt [] [] = false
name_lt [] (y ∷ n) = true
name_lt (x ∷ m) [] = false
name_lt (x ∷ m) (y ∷ n) =
    let rest = name_lt m n in if ltb x y then true else if ltb y x then false else rest

-- `DimensionKey::operator<`.
unfoldable pub key_lt : DimensionKey → DimensionKey → Bool
key_lt a b =
    if not (name_eq a.name b.name)
    then name_lt a.name b.name
    else if not (a.ver == b.ver)
    then ltb a.ver b.ver
    else ltb (get_bit_width a.bitsize) (get_bit_width b.bitsize)

-- `DimensionKey::operator==`.
unfoldable pub key_eq : DimensionKey → DimensionKey → Bool
key_eq a b = not (key_lt a b) && not (key_lt b a)

name_lt_irrefl : (a : Name) → name_lt a a ≡ false
unfolding name_lt
name_lt_irrefl [] = refl
name_lt_irrefl (x ∷ a) = ground (arith, name_lt_irrefl a)

name_lt_trans : (a b c : Name) → name_lt a b ≡ true → name_lt b c ≡ true → name_lt a c ≡ true
unfolding name_lt
name_lt_trans [] [] c h k = cc
name_lt_trans [] (y ∷ b) [] h k = cc
name_lt_trans [] (y ∷ b) (z ∷ c) h k = refl
name_lt_trans (x ∷ a) [] c h k = cc
name_lt_trans (x ∷ a) (y ∷ b) [] h k = cc
name_lt_trans (x ∷ a) (y ∷ b) (z ∷ c) h k = ground (arith, name_lt_trans a b c)

name_lt_total : (a b : Name) → name_lt a b ≡ false → name_lt b a ≡ false → a ≡ b
unfolding name_lt
name_lt_total [] [] h k = refl
name_lt_total [] (y ∷ b) h k = cc
name_lt_total (x ∷ a) [] h k = cc
name_lt_total (x ∷ a) (y ∷ b) h k = ground (arith, name_lt_total a b)

name_eq_refl : (a : Name) → name_eq a a ≡ true
unfolding name_eq
name_eq_refl [] = refl
name_eq_refl (x ∷ a) = ground (arith, name_eq_refl a)

eq_of_name_eq : (a b : Name) → name_eq a b ≡ true → a ≡ b
unfolding name_eq
eq_of_name_eq [] [] h = refl
eq_of_name_eq [] (y ∷ b) h = cc
eq_of_name_eq (x ∷ a) [] h = cc
eq_of_name_eq (x ∷ a) (y ∷ b) h = ground (arith, eq_of_name_eq a b)

width_eq : (s t : Bitsize) → get_bit_width s ≡ get_bit_width t → s ≡ t
unfolding get_bit_width
width_eq s t h = ground arith

key_lt_irrefl : (a : DimensionKey) → key_lt a a ≡ false
unfolding key_lt
key_lt_irrefl a = ground (arith, name_eq_refl a.name)

key_lt_trans : (a b c : DimensionKey) → key_lt a b ≡ true → key_lt b c ≡ true → key_lt a c ≡ true
unfolding key_lt
key_lt_trans a b c h k = ground (
  arith,
  name_lt_trans a.name b.name c.name,
  eq_of_name_eq a.name b.name,
  eq_of_name_eq b.name c.name,
  eq_of_name_eq a.name c.name,
  name_eq_refl a.name,
  name_lt_irrefl a.name,
  name_lt_irrefl b.name,
  name_lt_total a.name b.name,
  name_lt_trans a.name b.name a.name,
)

name_eq_sym : (a b : Name) → name_eq a b ≡ name_eq b a
unfolding name_eq
name_eq_sym [] [] = refl
name_eq_sym [] (y ∷ b) = refl
name_eq_sym (x ∷ a) [] = refl
name_eq_sym (x ∷ a) (y ∷ b) = ground (arith, name_eq_sym a b)

key_lt_total : (a b : DimensionKey) → key_lt a b ≡ false → key_lt b a ≡ false → a ≡ b
unfolding key_lt
key_lt_total a b h k = ground (
  arith,
  name_lt_total a.name b.name,
  eq_of_name_eq a.name b.name,
  name_eq_sym a.name b.name,
  name_eq_refl a.name,
  width_eq a.bitsize b.bitsize,
)

-- `operator<` on keys is irreflexive and transitive, and two keys of which neither is below the
-- other have the same name, version and bit size.
pub key_lt-IsOrder : IsOrder key_lt
key_lt-IsOrder = record { irrefl = key_lt_irrefl; trans = key_lt_trans; total = key_lt_total }

instance unfoldable pub key_ord : Ord DimensionKey
key_ord = record { lt = key_lt; order = key_lt-IsOrder }

pub key_eq_refl : (a : DimensionKey) → key_eq a a ≡ true
unfolding key_eq
key_eq_refl a = ground (arith, key_lt_irrefl a)

pub eq_of_key_eq : (a b : DimensionKey) → key_eq a b ≡ true → a ≡ b
unfolding key_eq
eq_of_key_eq a b h = ground (arith, key_lt_total a b)
