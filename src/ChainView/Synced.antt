-- ===== src/ChainView/Synced.antt =====
-- What the synchronisation keeps of the view.
use starkstream_dna.Base.{
  ℕ, ◌≤◌, Bool, true, false, not, ◌&&◌, ◌==◌, leb, Bool-cases, if-cases, ◌⊎◌, inl, inr, Option,
  none, some, List, [], ◌∷◌, ◌≡◌, ◌≢◌, ◌++◌, refl, sym, ap, ◌∙◌, subst, arith, ok, err, panic,
  >>=-eq-ok, err-not-ok, ok-injective, change_context, change_context-eq-ok, ensure, bytes_eq,
}
use starkstream_dna.Chain.{CanonicalChainSegment}
use starkstream_dna.ChainView.Full.{chain_view, set_recent}
use starkstream_dna.ChainView.View.{
  ChainView, set_finalized_block, set_pending_generation, set_segmented_block, set_grouped_block,
  set_recent_segment,
}
use starkstream_dna.Etcd.{Etcd}
use starkstream_dna.StateClient.{RecentSegmentPointer, PointerJson, get_recent}
use starkstream_dna.StateClient.Update.{
  IngestionStateUpdate, starting_block, finalized, pending, segmented, grouped, recent, starts_with,
}
use starkstream_dna.ChainView.Sync.{
  chain_store_error, Snapshots, validate_recent_pointer, check_range, get_recent_snapshot,
  current_snapshot, or_current, announced_recent, with_recent, apply_update, sync_updates,
  expected_prefix, no_bytes,
}

ensure-true : {test : Bool} → ensure test chain_store_error ≡ ok tt → test ≡ true
ensure-true {test = true} h = refl
ensure-true {test = false} h = cc

starts_with-append : (xs s : List ℕ) → starts_with xs s ≡ true → (rest : List ℕ) × (s ≡ xs ++ rest)
unfolding starts_with
starts_with-append [] s h = (s, refl)
starts_with-append (b ∷ bs) [] h = cc
starts_with-append (b ∷ bs) (c ∷ s) h = elim (Bool-cases (b == c)) [
  | inl same ↦
      let (rest, e) = starts_with-append bs s (rw same at h) in
      let first : c ≡ b = ground arith in (rest, ap (◌∷◌ c) e ∙ ap (λ d. d ∷ bs ++ rest) first)
  | inr other ↦ absurd (let no : false ≡ true = rw other at h in cc)
]

filled : (bytes : List ℕ) → not (no_bytes bytes) ≡ true → bytes ≢ []
filled [] h = cc
filled (b ∷ bytes) h = λ e. cc

-- A segment that was read from the store through a pointer: the pointer's key starts with
-- "canon/recent/", it has a version, its blocks are a range, and the segment has that range.
pub record Taken (store : Snapshots) (segment : CanonicalChainSegment) : Type 0 where
  pub pointer : RecentSegmentPointer
  pub rest : List ℕ
  pub key :
      pointer.key ≡ 99 ∷ 97 ∷ 110 ∷ 111 ∷ 110 ∷ 47 ∷ 114 ∷ 101 ∷ 99 ∷ 101 ∷ 110 ∷ 116 ∷ 47 ∷ rest
  pub version : pointer.version ≢ []
  pub range : pointer.first_block ≤ pointer.last_block
  pub read : store.get_by_key pointer.key pointer.version ≡ ok (some segment)
  pub first : segment.info.first_block.number ≡ pointer.first_block
  pub last : segment.info.last_block.number ≡ pointer.last_block

-- What may become of a read: nothing, or a segment that was taken.
abbrev TakenOrNone : Snapshots → Option CanonicalChainSegment → Type 0
TakenOrNone store none = Unit
TakenOrNone store (some segment) = Taken store segment

validate_recent_pointer-ok :
    (pointer : RecentSegmentPointer)
    → validate_recent_pointer pointer ≡ ok tt
    → (rest : List ℕ) × (pointer.key ≡ expected_prefix ++ rest)
      × (pointer.version ≢ [])
      × (pointer.first_block ≤ pointer.last_block)
unfolding validate_recent_pointer
validate_recent_pointer-ok pointer valid =
    let (_, p, v1) =
      >>=-eq-ok (ensure (starts_with expected_prefix pointer.key) chain_store_error) _ valid in
    let (_, v, v2) =
      >>=-eq-ok (ensure (not (no_bytes pointer.version)) chain_store_error)
        (λ (u : Unit {0}). ensure (leb pointer.first_block pointer.last_block) chain_store_error)
        v1 in
    let (rest, key) = starts_with-append expected_prefix pointer.key (ensure-true p) in
    let test : leb pointer.first_block pointer.last_block ≡ true = ensure-true v2 in
    (rest, key, filled pointer.version (ensure-true v), ground arith)

check_range-ok :
    (pointer : RecentSegmentPointer) (o : Option CanonicalChainSegment)
    {r : Option CanonicalChainSegment}
    → check_range pointer o ≡ ok r
    → (r ≡ none)
      ⊎ ((segment : CanonicalChainSegment) × (o ≡ some segment)
          × (r ≡ some segment)
          × (segment.info.first_block.number ≡ pointer.first_block)
          × (segment.info.last_block.number ≡ pointer.last_block))
unfolding check_range
check_range-ok pointer none h = inl (sym (ok-injective h))
check_range-ok pointer (some segment) h =
    elim (if-cases
      (segment.info.first_block.number == pointer.first_block
        && segment.info.last_block.number == pointer.last_block)
      h) [
        | inl (same, h1) ↦
            inr (segment, refl, sym (ok-injective h1), ground (arith, same), ground (arith, same))
        | inr (_, h1) ↦ absurd (err-not-ok h1)
      ]

get_recent_snapshot-Taken :
    (store : Snapshots) (pointer : RecentSegmentPointer) {r : Option CanonicalChainSegment}
    → get_recent_snapshot store pointer ≡ ok r
    → TakenOrNone store r
unfolding get_recent_snapshot
get_recent_snapshot-Taken store pointer h =
    let (_, valid, h1) = >>=-eq-ok (validate_recent_pointer pointer) _ h in
    let (rest, key, version, range) = validate_recent_pointer-ok pointer valid in
    let (found, read, h2) = >>=-eq-ok (store.get_by_key pointer.key pointer.version) _ h1 in
    elim (check_range-ok pointer found h2) [
      | inl nothing ↦ subst (TakenOrNone store) (sym nothing) tt
      | inr (segment, held, e, first, last) ↦ subst (TakenOrNone store) (sym e) (record {
        pointer = pointer;
        rest = rest;
        key = key;
        version = version;
        range = range;
        read = read ∙ ap ok held;
        first = first;
        last = last;
      })
    ]

-- What stays of a view: the recent segment is the same or one that was taken from the store, and the
-- sizes and the start are the same.
pub record Keeps (store : Snapshots) (v w : ChainView) : Type 0 where
  pub recent : (w.canonical.recent ≡ v.canonical.recent) ⊎ Taken store w.canonical.recent
  pub start : w.canonical.starting_block ≡ v.canonical.starting_block
  pub chain_size : w.canonical.chain_segment_size ≡ v.canonical.chain_segment_size
  pub segment_size : w.segment_size ≡ v.segment_size
  pub group_size : w.group_size ≡ v.group_size

Keeps-refl : (store : Snapshots) (v : ChainView) → Keeps store v v
Keeps-refl store v = record {
  recent = inl refl;
  start = refl;
  chain_size = refl;
  segment_size = refl;
  group_size = refl;
}

recent_trans :
    (store : Snapshots) (u v w : ChainView)
    → Keeps store u v
    → Keeps store v w
    → (w.canonical.recent ≡ u.canonical.recent) ⊎ Taken store w.canonical.recent
recent_trans store u v w k l = elim l.recent [
  | inl same ↦ elim k.recent [
    | inl before ↦ inl (same ∙ before)
    | inr taken ↦ inr (subst (Taken store) (sym same) taken)
  ]
  | inr taken ↦ inr taken
]

Keeps-trans :
    {store : Snapshots} {u v w : ChainView} → Keeps store u v → Keeps store v w → Keeps store u w
Keeps-trans {store} {u} {v} {w} k l = record {
  recent = recent_trans store u v w k l;
  start = l.start ∙ k.start;
  chain_size = l.chain_size ∙ k.chain_size;
  segment_size = l.segment_size ∙ k.segment_size;
  group_size = l.group_size ∙ k.group_size;
}

module _ (E : Etcd) (prefix : List ℕ) (json : PointerJson) (store : Snapshots) where
  current_snapshot-Taken :
      (s : E.State) (pointer : RecentSegmentPointer) (o : Option RecentSegmentPointer)
      {r : Option CanonicalChainSegment}
      → current_snapshot E prefix json store s pointer o ≡ ok r
      → TakenOrNone store r
  unfolding current_snapshot
  current_snapshot-Taken s pointer none h = subst (TakenOrNone store) (ok-injective h) tt
  current_snapshot-Taken s pointer (some current) h =
      elim (if-cases (bytes_eq current.key pointer.key) h) [
        | inl (_, h1) ↦ subst (TakenOrNone store) (ok-injective h1) tt
        | inr (_, h1) ↦
            get_recent_snapshot-Taken store current
              (change_context-eq-ok chain_view (get_recent_snapshot store current) h1)
      ]

  or_current-Taken :
      (s : E.State) (pointer : RecentSegmentPointer) (o : Option CanonicalChainSegment)
      {r : Option CanonicalChainSegment}
      → TakenOrNone store o
      → or_current E prefix json store s pointer o ≡ ok r
      → TakenOrNone store r
  unfolding or_current
  or_current-Taken s pointer (some segment) range h =
      subst (TakenOrNone store) (ok-injective h) range
  or_current-Taken s pointer none range h =
      let (current, _, h1) =
        >>=-eq-ok (change_context chain_view (get_recent E prefix json s)) _ h in
      current_snapshot-Taken s pointer current h1

  announced_recent-Taken :
      (s : E.State) (pointer : RecentSegmentPointer) {r : Option CanonicalChainSegment}
      → announced_recent E prefix json store s pointer ≡ ok r
      → TakenOrNone store r
  unfolding announced_recent
  announced_recent-Taken s pointer h =
      let (snapshot, read, h1) =
        >>=-eq-ok (change_context chain_view (get_recent_snapshot store pointer)) _ h in
      or_current-Taken s pointer snapshot
        (get_recent_snapshot-Taken store pointer
          (change_context-eq-ok chain_view (get_recent_snapshot store pointer) read))
        h1

  with_recent-Keeps :
      (v : ChainView) (o : Option CanonicalChainSegment)
      → TakenOrNone store o
      → Keeps store v (with_recent v o)
  unfolding with_recent set_recent_segment set_recent
  with_recent-Keeps v none range = Keeps-refl store v
  with_recent-Keeps v (some segment) range = record {
    recent = inr range;
    start = refl;
    chain_size = refl;
    segment_size = refl;
    group_size = refl;
  }

  apply_update-Keeps :
      (s : E.State) (update : IngestionStateUpdate) (v : ChainView) {w : ChainView}
      → apply_update E prefix json store s update v ≡ ok w
      → Keeps store v w
  unfolding apply_update set_finalized_block set_pending_generation set_segmented_block
      set_grouped_block
  apply_update-Keeps s (starting_block block) v h =
      subst (Keeps store v) (ok-injective h) (Keeps-refl store v)
  apply_update-Keeps s (finalized block) v h = subst (Keeps store v) (ok-injective h) (record {
    recent = inl refl;
    start = refl;
    chain_size = refl;
    segment_size = refl;
    group_size = refl;
  })
  apply_update-Keeps s (segmented block) v h = subst (Keeps store v) (ok-injective h) (record {
    recent = inl refl;
    start = refl;
    chain_size = refl;
    segment_size = refl;
    group_size = refl;
  })
  apply_update-Keeps s (grouped block) v h = subst (Keeps store v) (ok-injective h) (record {
    recent = inl refl;
    start = refl;
    chain_size = refl;
    segment_size = refl;
    group_size = refl;
  })
  apply_update-Keeps s (pending generation) v h = subst (Keeps store v) (ok-injective h) (record {
    recent = inl refl;
    start = refl;
    chain_size = refl;
    segment_size = refl;
    group_size = refl;
  })
  apply_update-Keeps s (recent pointer) v h =
      let (segment, read, h1) = >>=-eq-ok (announced_recent E prefix json store s pointer) _ h in
      subst (Keeps store v) (ok-injective h1)
        (with_recent-Keeps v segment (announced_recent-Taken s pointer read))

pub sync_updates-Keeps :
    (E : Etcd) (prefix : List ℕ) (json : PointerJson) (store : Snapshots)
    (updates : List (E.State × IngestionStateUpdate)) (v : ChainView)
    → Keeps store v (sync_updates E prefix json store updates v)
unfolding sync_updates
sync_updates-Keeps E prefix json store [] v = Keeps-refl store v
sync_updates-Keeps E prefix json store ((s, update) ∷ updates) v =
    (elim (apply_update E prefix json store s update v)
        as (λ r.
          ((w : ChainView) → r ≡ ok w → Keeps store v w)
          → Keeps store v (elim r as (λ _. ChainView) [
            | ok next ↦ sync_updates E prefix json store updates next
            | err e ↦ v
            | panic ↦ v
          ])) [
            | ok next ↦ λ each.
                Keeps-trans (each next refl) (sync_updates-Keeps E prefix json store updates next)
            | err e ↦ λ each. Keeps-refl store v
            | panic ↦ λ each. Keeps-refl store v
          ])
      (λ w. apply_update-Keeps E prefix json store s update v)
