-- ===== src/Query/Fragments.antt =====
-- Which fragments a block filter needs.
use starkstream_dna.Base.{
  ℕ, Bool, true, false, ◌||◌, ◌==◌, Bool-cases, inl, inr, List, [], ◌∷◌, ◌++◌, ◌≡◌, refl, sym, ap,
  ◌∙◌, arith,
}
use starkstream_dna.Base.Maps.{
  nat_ord, BTreeMap, insert, lookup_or, lookup_or-insert, lookup, key_eq,
}
use starkstream_dna.Bitmaps.{has_row}
use starkstream_dna.Bitmaps.Lists.{has_row-append}
use starkstream_dna.Query.{
  Filter, BlockFilter, HeaderFilter, add_filter, joined_ids, fragment_ids, all_fragment_ids,
}

-- Filters, added in order.
unfoldable pub add_filters : List Filter → BlockFilter → BlockFilter
add_filters [] b = b
add_filters (f ∷ filters) b = add_filters filters (add_filter f b)

-- Whether a filter needs a fragment: it filters it, or joins it.
unfoldable pub needed : ℕ → List Filter → Bool
needed id [] = false
needed id (f ∷ filters) = id == f.fragment_id || has_row id f.joins || needed id filters

joined_ids-snoc :
    (id : ℕ) (filters : List Filter) (f : Filter)
    → has_row id (joined_ids (filters ++ f ∷ []))
      ≡ (has_row id (joined_ids filters) || has_row id f.joins)
unfolding joined_ids has_row
joined_ids-snoc id [] f = has_row-append id f.joins [] ∙ ground arith
joined_ids-snoc id (g ∷ filters) f =
    has_row-append id g.joins (joined_ids (filters ++ f ∷ []))
    ∙ rw (joined_ids-snoc id filters f, has_row-append id g.joins (joined_ids filters))
        (ground arith)

fragment_ids-cons :
    (id k : ℕ) (filters : List Filter) (m : BTreeMap ℕ (List Filter))
    → has_row id (fragment_ids ((k, filters) ∷ m))
      ≡ (id == k || (has_row id (joined_ids filters) || has_row id (fragment_ids m)))
unfolding fragment_ids has_row
fragment_ids-cons id k filters m =
    ap (λ b. id == k || b) (has_row-append id (joined_ids filters) (fragment_ids m))

-- What an entry joins is needed.
lookup_or-joined :
    (id k : ℕ) (m : BTreeMap ℕ (List Filter))
    → (has_row id (joined_ids (lookup_or k [] m)) || has_row id (fragment_ids m))
      ≡ has_row id (fragment_ids m)
unfolding lookup_or lookup joined_ids has_row
lookup_or-joined id k [] = refl
lookup_or-joined id k ((j, w) ∷ m) =
    let later = lookup_or-joined id k m in
    let whole = fragment_ids-cons id j w m in
    elim (Bool-cases (key_eq k j)) [
      | inl same ↦ rw same (ground (arith, whole))
      | inr other ↦ rw other (ground (arith, whole, later))
    ]

-- The replaced entry is put back on both sides.
fragment_ids-replaced :
    (id k : ℕ) (fs : List Filter) (m : BTreeMap ℕ (List Filter))
    → (has_row id (fragment_ids (insert k fs m)) || has_row id (joined_ids (lookup_or k [] m)))
      ≡ (id == k || (has_row id (joined_ids fs) || has_row id (fragment_ids m)))
unfolding insert lookup_or lookup joined_ids has_row
fragment_ids-replaced id k fs [] = ground (arith, fragment_ids-cons id k fs [])
fragment_ids-replaced id k fs ((j, w) ∷ m) =
    let later = fragment_ids-replaced id k fs m in
    let whole = fragment_ids-cons id j w m in
    let front = fragment_ids-cons id k fs ((j, w) ∷ m) in
    let over = fragment_ids-cons id k fs m in
    let behind = fragment_ids-cons id j w (insert k fs m) in
    let old = lookup_or-joined id k m in ground (arith, later, whole, front, over, behind, old)

fragment_ids-insert :
    (id k : ℕ) (f : Filter) (m : BTreeMap ℕ (List Filter))
    → has_row id (fragment_ids (insert k (lookup_or k [] m ++ f ∷ []) m))
      ≡ (id == k || (has_row id f.joins || has_row id (fragment_ids m)))
fragment_ids-insert id k f m =
    let fs = lookup_or k [] m ++ f ∷ [] in
    let same : key_eq k k ≡ true = ground arith in
    let here : lookup_or k [] (insert k fs m) ≡ fs = lookup_or-insert k k [] fs m ∙ rw same in
    let inside : (has_row id (joined_ids fs) || has_row id (fragment_ids (insert k fs m)))
        ≡ has_row id (fragment_ids (insert k fs m)) =
      ap (λ fs'. has_row id (joined_ids fs') || has_row id (fragment_ids (insert k fs m)))
        (sym here)
      ∙ lookup_or-joined id k (insert k fs m) in
    ground (
      arith,
      inside,
      fragment_ids-replaced id k fs m,
      joined_ids-snoc id (lookup_or k [] m) f,
      lookup_or-joined id k m,
    )

add_filter-ids :
    (id : ℕ) (f : Filter) (b : BlockFilter)
    → has_row id (all_fragment_ids (add_filter f b))
      ≡ (id == f.fragment_id || (has_row id f.joins || has_row id (all_fragment_ids b)))
unfolding add_filter all_fragment_ids
add_filter-ids id f b = fragment_ids-insert id f.fragment_id f b.filters

add_filters-ids :
    (id : ℕ) (filters : List Filter) (b : BlockFilter)
    → has_row id (all_fragment_ids (add_filters filters b))
      ≡ (needed id filters || has_row id (all_fragment_ids b))
unfolding add_filters needed
add_filters-ids id [] b = refl
add_filters-ids id (f ∷ filters) b =
    add_filters-ids id filters (add_filter f b) ∙ rw (add_filter-ids id f b) (ground arith)

-- A block filter without filters.
abbrev pub no_filters : HeaderFilter → BlockFilter
no_filters header_filter = record { header_filter = header_filter; filters = [] }

-- The fragments that a block filter asks for, after filters were added to an empty one, are exactly
-- those that one of its filters filters or joins with.
pub all_fragment_ids-add_filters :
    (id : ℕ) (filters : List Filter) (header_filter : HeaderFilter)
    → has_row id (all_fragment_ids (add_filters filters (no_filters header_filter)))
      ≡ needed id filters
unfolding all_fragment_ids fragment_ids has_row
all_fragment_ids-add_filters id filters header_filter =
    add_filters-ids id filters (no_filters header_filter) ∙ ground arith
