-- ===== src/Wrapped/Record.antt =====
-- The state of a wrapped value, its queries, and `Wrap`.
use sound_bit_precise_domain.Prelude.{Bool, true, false, [], ◌∷◌, Option, none, some, if◌then◌else◌}
use sound_bit_precise_domain.Container.SortedMap.{find, insert, assign}
use sound_bit_precise_domain.Dimension.Key.{DimensionKey, key_ord}
use sound_bit_precise_domain.Dimension.Vocabulary.{Vocabulary}
use sound_bit_precise_domain.Signedness.{VocabularySignedness, same_sign, entry_eq}
use sound_bit_precise_domain.Wrapped.Domain.{Domain}

-- `voc` is the member of the base class.
pub record Wrapped (d : Domain) : Type 0 where
  pub voc : Vocabulary
  pub av : d.Av
  pub wrapped_voc : VocabularySignedness

-- `operator==` of `std::map`.
unfoldable pub map_eq : VocabularySignedness → VocabularySignedness → Bool
map_eq [] [] = true
map_eq [] (f ∷ n) = false
map_eq (e ∷ m) [] = false
map_eq (e ∷ m) (f ∷ n) = let rest = map_eq m n in if entry_eq e f then rest else false

-- The loop of `Wrap`: the entries of `v` that stay for the domain to wrap, and `wrapped_voc_`.
unfoldable pub wrap_loop :
    VocabularySignedness → VocabularySignedness → VocabularySignedness × VocabularySignedness
wrap_loop [] w = ([], w)
wrap_loop ((k, s) ∷ v) w =
    let added = wrap_loop v (insert k s w) in
    let same = wrap_loop v w in
    let changed = wrap_loop v (assign k s w) in
    elim (find k w) [
      | none ↦ ((k, s) ∷ added.0, added.1)
      | some t ↦ if same_sign t s then same else ((k, s) ∷ changed.0, changed.1)
    ]

module _ (d : Domain) where
  -- The constructor that neither copies nor wraps.
  unfoldable pub from_parts : d.Av → VocabularySignedness → Wrapped d
  from_parts a voc_to_wrap = record { voc = d.get_vocabulary a; av = a; wrapped_voc = voc_to_wrap }

  -- `IsWrapped` gives the sign through its second parameter.
  unfoldable pub is_wrapped : Wrapped d → DimensionKey → Option Bool
  is_wrapped this k = find k this.wrapped_voc

  unfoldable pub mark_wrapped : Wrapped d → DimensionKey → Bool → Wrapped d
  mark_wrapped this k signedness = record this {
    wrapped_voc = insert k signedness this.wrapped_voc;
  }

  unfoldable pub is_bottom : Wrapped d → Bool
  is_bottom this = d.is_bottom this.av

  unfoldable pub reduce : Wrapped d → Wrapped d
  reduce this = record this { av = d.reduce this.av }

  unfoldable pub add_vocabulary : Wrapped d → Vocabulary → Wrapped d
  add_vocabulary this v =
      let a = d.add_vocabulary this.av v in record this { av = a; voc = d.get_vocabulary a }

  module _ (disable_wrapping : Bool) where
    unfoldable pub wrap : Wrapped d → VocabularySignedness → Wrapped d
    wrap this v_cons =
        let r = wrap_loop v_cons this.wrapped_voc in
        record this {
          av = if disable_wrapping then this.av else d.wrap this.av r.0;
          wrapped_voc = r.1;
        }

    unfoldable pub wrap_dimension : Wrapped d → DimensionKey → Bool → Wrapped d
    wrap_dimension this k is_signed =
        if disable_wrapping then this else wrap this (insert k is_signed [])

    unfoldable pub equal : Wrapped d → Wrapped d → Bool
    equal this that =
        if map_eq this.wrapped_voc that.wrapped_voc
        then d.equal this.av that.av
        else d.equal (wrap this that.wrapped_voc).av (wrap that this.wrapped_voc).av
