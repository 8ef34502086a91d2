-- ===== src/Compaction/Packed.antt =====
-- A segment holds each of its blocks once, in the order in which they were added.
use starkstream_dna.Base.{
  ℕ, ◌==◌, true, false, if◌then◌else◌, ℕ_discrete, map, Option, none, some, List, [], ◌∷◌, ◌++◌,
  ◌≡◌, refl, sym, ap, ◌∙◌, subst, arith,
}
use mathlib.Core.List.{append_assoc, append-nil}
use starkstream_dna.Base.Maps.{nat_ord, key_eq, lookup, lookup-insert}
use starkstream_dna.Base.Orders.{IsSorted, nat-IsOrder, insert-IsSorted}
use starkstream_dna.Core.{Cursor}
use starkstream_dna.Compaction.{FragmentData}
use starkstream_dna.Compaction.Blocks.{BodyFragment, Block}
use starkstream_dna.Compaction.Segments.{
  Body, SegmentBuilder, push_entry, push_fragment, push_fragments, push_block,
}

-- The blocks of a segment, with their cursors, and what each list of the builder has of them.
abbrev pub Blocks : Type 0
Blocks = List (Cursor × Block)

abbrev pub parts : {T : Type 0} → (Block → T) → Blocks → List (FragmentData T)
parts part blocks = map (λ b. record { cursor = b.0; content = part b.1 }) blocks

-- The fragments that have a number.
unfoldable pub numbered : ℕ → Cursor → List BodyFragment → List (FragmentData BodyFragment)
numbered id cursor [] = []
numbered id cursor (f ∷ fs) =
    (if f.fragment_id == id then record { cursor = cursor; content = f } ∷ [] else [])
    ++ numbered id cursor fs

unfoldable pub fragments_with : ℕ → Blocks → List (FragmentData BodyFragment)
fragments_with id [] = []
fragments_with id ((cursor, block) ∷ blocks) =
    numbered id cursor block.body ++ fragments_with id blocks

-- The fragments that an entry of the builder holds.
abbrev pub fragments_of :
    Option (List ℕ × List (FragmentData BodyFragment)) → List (FragmentData BodyFragment)
fragments_of none = []
fragments_of (some (name, fragments)) = fragments

push_entry-fragments :
    (cursor : Cursor) (f : BodyFragment) (o : Option (List ℕ × List (FragmentData BodyFragment)))
    → fragments_of (some (push_entry cursor f o))
      ≡ fragments_of o ++ record { cursor = cursor; content = f } ∷ []
push_entry-fragments cursor f none = refl
push_entry-fragments cursor f (some (name, existing)) = refl

push_fragment-fragments :
    (id : ℕ) (cursor : Cursor) (f : BodyFragment) (body : Body)
    → fragments_of (lookup id (push_fragment cursor f body))
      ≡ fragments_of (lookup id body)
        ++ (if f.fragment_id == id then record { cursor = cursor; content = f } ∷ [] else [])
unfolding push_fragment
push_fragment-fragments id cursor f body =
    let entry = push_entry cursor f (lookup f.fragment_id body) in
    ap fragments_of (lookup-insert id f.fragment_id entry body)
    ∙ (elim (ℕ_discrete f.fragment_id id) [
      | yes same ↦
          let a : key_eq id f.fragment_id ≡ true = ground arith in
          let b : (f.fragment_id == id) ≡ true = ground arith in
          rw (a, b)
            (push_entry-fragments cursor f (lookup f.fragment_id body)
              ∙ ap
                  (λ i.
                    fragments_of (lookup i body) ++ record { cursor = cursor; content = f } ∷ [])
                  same)
      | no other ↦
          let a : key_eq id f.fragment_id ≡ false = ground arith in
          let b : (f.fragment_id == id) ≡ false = ground arith in
          rw (a, b) (sym (append-nil (fragments_of (lookup id body))))
    ])

pub push_fragments-fragments :
    (id : ℕ) (cursor : Cursor) (fs : List BodyFragment) (body : Body)
    → fragments_of (lookup id (push_fragments cursor fs body))
      ≡ fragments_of (lookup id body) ++ numbered id cursor fs
unfolding push_fragments numbered
push_fragments-fragments id cursor [] body = sym (append-nil (fragments_of (lookup id body)))
push_fragments-fragments id cursor (f ∷ fs) body =
    push_fragments-fragments id cursor fs (push_fragment cursor f body)
    ∙ ap (λ old. old ++ numbered id cursor fs) (push_fragment-fragments id cursor f body)
    ∙ append_assoc (fragments_of (lookup id body))
        (if f.fragment_id == id then record { cursor = cursor; content = f } ∷ [] else [])
        (numbered id cursor fs)

-- An entry has the name of its first fragment.
abbrev pub Named : Option (List ℕ × List (FragmentData BodyFragment)) → Type 0
Named none = Unit
Named (some (name, [])) = ⊥
Named (some (name, f ∷ fs)) = name ≡ f.content.name

push_entry-Named :
    (cursor : Cursor) (f : BodyFragment) (o : Option (List ℕ × List (FragmentData BodyFragment)))
    → Named o
    → Named (some (push_entry cursor f o))
push_entry-Named cursor f none h = refl
push_entry-Named cursor f (some (name, [])) h = elim h [ ]
push_entry-Named cursor f (some (name, g ∷ gs)) h = h

-- A body whose entries are named, by rising numbers.
abbrev IsOrdered : Body → Type 0
IsOrdered body = ((id : ℕ) → Named (lookup id body)) × IsSorted nat_ord body

push_fragment-IsOrdered :
    (cursor : Cursor) (f : BodyFragment) (body : Body)
    → IsOrdered body
    → IsOrdered (push_fragment cursor f body)
unfolding push_fragment
push_fragment-IsOrdered cursor f body (named, sorted) =
    let entry = push_entry cursor f (lookup f.fragment_id body) in
    (
      λ id.
          subst Named (sym (lookup-insert id f.fragment_id entry body))
            (elim (key_eq id f.fragment_id)
              as (λ b. Named (if b then some entry else lookup id body)) [
                | true ↦ push_entry-Named cursor f (lookup f.fragment_id body) (named f.fragment_id)
                | false ↦ named id
              ]),
      insert-IsSorted nat_ord nat-IsOrder f.fragment_id entry body sorted,
    )

push_fragments-IsOrdered :
    (cursor : Cursor) (fs : List BodyFragment) (body : Body)
    → IsOrdered body
    → IsOrdered (push_fragments cursor fs body)
unfolding push_fragments
push_fragments-IsOrdered cursor [] body h = h
push_fragments-IsOrdered cursor (f ∷ fs) body h =
    push_fragments-IsOrdered cursor fs (push_fragment cursor f body)
      (push_fragment-IsOrdered cursor f body h)

-- What a builder holds: each of the blocks once, in order.
pub record Holds (b : SegmentBuilder) (blocks : Blocks) : Type 0 where
  pub headers : b.headers ≡ parts (λ block. block.header) blocks
  pub indexes : b.indexes ≡ parts (λ block. block.index) blocks
  pub joins : b.joins ≡ parts (λ block. block.join) blocks
  pub body : (id : ℕ) → fragments_of (lookup id b.body) ≡ fragments_with id blocks
  pub named : (id : ℕ) → Named (lookup id b.body)
  pub sorted : IsSorted nat_ord b.body

parts-snoc :
    {T : Type 0} (part : Block → T) (blocks : Blocks) (cursor : Cursor) (block : Block)
    → parts part (blocks ++ (cursor, block) ∷ [])
      ≡ parts part blocks ++ record { cursor = cursor; content = part block } ∷ []
parts-snoc part [] cursor block = refl
parts-snoc part ((c, b) ∷ blocks) cursor block =
    ap (◌∷◌ (record { cursor = c; content = part b })) (parts-snoc part blocks cursor block)

fragments_with-snoc :
    (id : ℕ) (blocks : Blocks) (cursor : Cursor) (block : Block)
    → fragments_with id (blocks ++ (cursor, block) ∷ [])
      ≡ fragments_with id blocks ++ numbered id cursor block.body
unfolding fragments_with
fragments_with-snoc id [] cursor block = append-nil (numbered id cursor block.body)
fragments_with-snoc id ((c, b) ∷ blocks) cursor block =
    ap (◌++◌ (numbered id c b.body)) (fragments_with-snoc id blocks cursor block)
    ∙ sym (
        append_assoc (numbered id c b.body) (fragments_with id blocks)
          (numbered id cursor block.body))

pub push_block-Holds :
    (cursor : Cursor) (block : Block) (expected : Option ℕ) (b : SegmentBuilder) (blocks : Blocks)
    → Holds b blocks
    → Holds (push_block cursor block expected b) (blocks ++ (cursor, block) ∷ [])
unfolding push_block
push_block-Holds cursor block expected b blocks h = record {
  headers = rw h.headers (sym (parts-snoc (λ block. block.header) blocks cursor block));
  indexes = rw h.indexes (sym (parts-snoc (λ block. block.index) blocks cursor block));
  joins = rw h.joins (sym (parts-snoc (λ block. block.join) blocks cursor block));
  body = λ id.
      push_fragments-fragments id cursor block.body b.body
      ∙ rw (h.body id) (sym (fragments_with-snoc id blocks cursor block));
  named = (push_fragments-IsOrdered cursor block.body b.body (h.named, h.sorted)).0;
  sorted = (push_fragments-IsOrdered cursor block.body b.body (h.named, h.sorted)).1;
}
