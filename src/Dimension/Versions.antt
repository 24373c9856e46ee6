-- ===== src/Dimension/Versions.antt =====
-- The changes of version in dimension.cpp.
use sound_bit_precise_domain.Prelude.{
  ℕ, ◌≡◌, ◌≢◌, ◌⊎◌, ◌↔◌, ◌<◌, refl, Bool, true, false, not, ◌&&◌, List, [], ◌∷◌, All, arith, ◌==◌,
  if◌then◌else◌,
}
use sound_bit_precise_domain.Container.SortedSet.{insert}
use sound_bit_precise_domain.Dimension.Key.{
  DimensionKey, key_ord, key_eq, key_eq_refl, eq_of_key_eq,
}
use sound_bit_precise_domain.Dimension.Vocabulary.{Vocabulary, is_version_in_dimension}

-- `std::map<Version, Version>`, as its entries in the order of iteration.
abbrev pub VersionMap : Type 0
VersionMap = List (ℕ × ℕ)

unfoldable pub replace_version : DimensionKey → ℕ → ℕ → DimensionKey
replace_version k from to = if k.ver == from then record k { ver = to } else k

-- The loop returns at the first entry that changes the key.
unfoldable pub replace_versions : DimensionKey → VersionMap → DimensionKey
replace_versions k [] = k
replace_versions k ((from, to) ∷ m) =
    let new_k = replace_version k from to in
    let rest = replace_versions k m in if not (key_eq new_k k) then new_k else rest

unfoldable pub replace_version_vocabulary : Vocabulary → ℕ → ℕ → Vocabulary
replace_version_vocabulary [] from to = []
replace_version_vocabulary (k ∷ v) from to =
    insert (replace_version k from to) (replace_version_vocabulary v from to)

-- The inner loop of `replaceVersions` on a vocabulary. It inserts the key once for each entry
-- that leaves it as it is, and stops at the first entry that changes it.
unfoldable pub insert_replaced : DimensionKey → VersionMap → Vocabulary → Vocabulary
insert_replaced k [] ret = ret
insert_replaced k ((from, to) ∷ m) ret =
    let rest = insert_replaced k m (insert k ret) in
    if not (key_eq (replace_version k from to) k) then ret else rest

unfoldable pub replace_versions_from : Vocabulary → VersionMap → Vocabulary → Vocabulary
replace_versions_from [] m ret = ret
replace_versions_from (k ∷ v) m ret = replace_versions_from v m (insert_replaced k m ret)

unfoldable pub replace_versions_vocabulary : Vocabulary → VersionMap → Vocabulary
replace_versions_vocabulary v m = replace_versions_from v m []

unfoldable pub corresponding_dimensions : DimensionKey → DimensionKey → Bool
corresponding_dimensions k1 k2 =
    if is_version_in_dimension k1 0
    then key_eq (replace_version k1 0 1) k2
    else key_eq (replace_version k1 1 0) k2

-- The version that an entry list gives to `v`: that of the first entry for `v` that changes it.
abbrev pub target : VersionMap → ℕ → ℕ
target [] v = v
target ((from, to) ∷ m) v = let rest = target m v in if v == from && not (to == v) then to else rest

replace_version_same :
    (k : DimensionKey) (from to : ℕ)
    → key_eq (replace_version k from to) k ≡ not (k.ver == from && not (to == k.ver))
unfolding replace_version
replace_version_same k from to =
    ground (arith, key_eq_refl k, eq_of_key_eq (record k { ver = to }) k)

-- `replaceVersions` on a key replaces its version in one step, by the first entry of the map that
-- changes it: an entry never acts on the result of another one.
pub replace_versions-eq-target :
    (k : DimensionKey) (m : VersionMap) → replace_versions k m ≡ record k { ver = target m k.ver }
unfolding replace_versions replace_version
replace_versions-eq-target k [] = refl
replace_versions-eq-target k ((from, to) ∷ m) =
    ground (arith, replace_version_same k from to, replace_versions-eq-target k m)

-- The map that `Extend` renames the second operand with.
abbrev pub shift_map : VersionMap
shift_map = (0, 1) ∷ (1, 2) ∷ []

-- Moving the pre-state to version 1 and the post-state to version 2 keeps different keys
-- different, as long as no key has version 2.
pub shift_injective :
    (a b : DimensionKey)
    → a.ver ≢ 2
    → b.ver ≢ 2
    → replace_versions a shift_map ≡ replace_versions b shift_map
    → a ≡ b
shift_injective a b na nb h =
    ground (arith, replace_versions-eq-target a shift_map, replace_versions-eq-target b shift_map)

replaced_away :
    (v : Vocabulary) (from to : ℕ) (m : VersionMap)
    → All (λ k. k.ver ≡ from) v
    → from ≢ to
    → replace_versions_from v ((from, to) ∷ m) [] ≡ []
unfolding replace_versions_from insert_replaced
replaced_away [] from to m h ne = refl
replaced_away (k ∷ v) from to m h ne =
    let moved : key_eq (replace_version k from to) k ≡ false =
      ground (arith, replace_version_same k from to) in
    rw moved (replaced_away v from to m h.1 ne)

-- `replaceVersions` on a vocabulary drops the keys that it should rename: if every key has the
-- version that the first entry of the map changes, the result is the empty vocabulary.
pub replace_versions_vocabulary_drops :
    (v : Vocabulary) (from to : ℕ) (m : VersionMap)
    → All (λ k. k.ver ≡ from) v
    → from ≢ to
    → replace_versions_vocabulary v ((from, to) ∷ m) ≡ []
unfolding replace_versions_vocabulary
replace_versions_vocabulary_drops v from to m h ne = replaced_away v from to m h ne

-- Two keys correspond where the first has version 0 and the second is the first at version 1,
-- where the first has version 1 and the second is the first at version 0, or where the first has
-- another version and the second is the first.
pub corresponding_dimensions_iff :
    (k1 k2 : DimensionKey)
    → (corresponding_dimensions k1 k2 ≡ true) ↔ (
        ((k1.ver ≡ 0) × (k2 ≡ record k1 { ver = 1 }))
        ⊎ ((k1.ver ≡ 1) × (k2 ≡ record k1 { ver = 0 }))
        ⊎ ((1 < k1.ver) × (k2 ≡ k1)))
unfolding corresponding_dimensions is_version_in_dimension replace_version
corresponding_dimensions_iff k1 k2 = ground (
  arith,
  key_eq_refl k2,
  eq_of_key_eq (record k1 { ver = 1 }) k2,
  eq_of_key_eq (record k1 { ver = 0 }) k2,
  eq_of_key_eq k1 k2,
)
