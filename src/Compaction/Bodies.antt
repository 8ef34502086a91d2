-- ===== src/Compaction/Bodies.antt =====
-- The last segments of the data of a segment: one for each number of a fragment.
use mathlib.Core.List.{Memᴰ}
use starkstream_dna.Base.{
  ℕ, ◌<◌, ◌==◌, Bool, true, false, Bool-cases, inl, inr, ◌⊎◌, length, map, Option-cases, some, List,
  [], ◌∷◌, ==_iff, ◌≡◌, refl, sym, ap, ◌∙◌, subst, arith, ok, >>=-eq-ok, ok-injective, ensure,
  ok_or, ok_or-eq-ok,
}
use starkstream_dna.Base.Maps.{nat_ord, key_eq, lookup}
use starkstream_dna.Base.Orders.{Below, IsSorted}
use starkstream_dna.Core.{Cursor}
use starkstream_dna.Compaction.{compaction_error, FragmentData}
use starkstream_dna.Compaction.Blocks.{BodyFragment}
use starkstream_dna.Compaction.Segments.{Archive, SerializedSegment, Body, body_segments}
use starkstream_dna.Compaction.Packed.{Blocks, fragments_with, fragments_of, Named}

-- A number below all of others.
abbrev pub IsBelow : ℕ → List ℕ → Type 0
IsBelow k [] = Unit
IsBelow k (j ∷ js) = (k < j) × IsBelow k js

abbrev pub IsRising : List ℕ → Type 0
IsRising [] = Unit
IsRising (k ∷ ks) = IsBelow k ks × IsRising ks

abbrev pub keys : Body → List ℕ
keys body = map (λ e. e.0) body

Below-keys : (k : ℕ) (body : Body) → Below nat_ord k body → IsBelow k (keys body)
Below-keys k [] h = tt
Below-keys k ((j, e) ∷ body) (h, hs) = (ground arith, Below-keys k body hs)

pub keys-IsRising : (body : Body) → IsSorted nat_ord body → IsRising (keys body)
keys-IsRising [] s = tt
keys-IsRising ((k, e) ∷ body) (b, s) = (Below-keys k body b, keys-IsRising body s)

-- The entries of a body are those that a lookup in another one finds.
abbrev Known : Body → Body → Type 0
Known full [] = Unit
Known full ((k, e) ∷ body) = (lookup k full ≡ some e) × Known full body

Known-behind :
    (k : ℕ) (e : List ℕ × List (FragmentData BodyFragment)) (full body : Body)
    → Below nat_ord k body
    → Known full body
    → Known ((k, e) ∷ full) body
unfolding lookup
Known-behind k e full [] b h = tt
Known-behind k e full ((j, d) ∷ body) (b, bs) (h, hs) =
    let other : key_eq j k ≡ false = ground arith in (rw other h, Known-behind k e full body bs hs)

sorted-Known : (body : Body) → IsSorted nat_ord body → Known body body
unfolding lookup
sorted-Known [] s = tt
sorted-Known ((k, e) ∷ body) (b, s) =
    let same : key_eq k k ≡ true = ground arith in
    (rw same refl, Known-behind k e body body b (sorted-Known body s))

lookup-keys :
    (id : ℕ) (body : Body) {e : List ℕ × List (FragmentData BodyFragment)}
    → lookup id body ≡ some e
    → Memᴰ id (keys body)
unfolding lookup
lookup-keys id [] h = cc
lookup-keys id ((k, d) ∷ body) h = elim (Bool-cases (key_eq id k)) [
  | inl same ↦ Memᴰ.head (ground arith)
  | inr other ↦ Memᴰ.tail (lookup-keys id body (rw other at h))
]

ensure-true : {test : Bool} → ensure test compaction_error ≡ ok tt → test ≡ true
ensure-true {test = true} h = refl
ensure-true {test = false} h = cc

-- The segment of a number: it has the name of the first fragment with the number, and the bytes of
-- all of them, which are as many as the blocks.
pub record IsBody (archive : Archive) (first_block : Cursor) (blocks : Blocks) (id : ℕ)
    (segment : SerializedSegment) : Type 0 where
  pub first : FragmentData BodyFragment
  pub others : List (FragmentData BodyFragment)
  pub fragments : fragments_with id blocks ≡ first ∷ others
  pub name : segment.name ≡ first.content.name
  pub count : length (fragments_with id blocks) ≡ length blocks
  pub bytes :
      archive.body_to_bytes
        (record { first_block = first_block; content = fragments_with id blocks })
      ≡ some segment.content

module _ (archive : Archive) (first_block : Cursor) (blocks : Blocks) where
  abbrev pub AreBodies : List ℕ → List SerializedSegment → Type 0
  AreBodies [] [] = Unit
  AreBodies [] (segment ∷ segments) = ⊥
  AreBodies (id ∷ ids) [] = ⊥
  AreBodies (id ∷ ids) (segment ∷ segments) =
      IsBody archive first_block blocks id segment × AreBodies ids segments

  entry-IsBody :
      (id : ℕ) (name bytes : List ℕ) (fragments : List (FragmentData BodyFragment))
      → fragments ≡ fragments_with id blocks
      → Named (some (name, fragments))
      → length fragments ≡ length blocks
      → archive.body_to_bytes (record { first_block = first_block; content = fragments })
        ≡ some bytes
      → IsBody archive first_block blocks id (record { name = name; content = bytes })
  entry-IsBody id name bytes [] same named count written = elim named [ ]
  entry-IsBody id name bytes (f ∷ fs) same named count written = record {
    first = f;
    others = fs;
    fragments = sym same;
    name = named;
    count = ap length (sym same) ∙ count;
    bytes =
        ap (λ fs. archive.body_to_bytes (record { first_block = first_block; content = fs }))
          (sym same)
        ∙ written;
  }

  module _ (full : Body)
      (held : (id : ℕ) → fragments_of (lookup id full) ≡ fragments_with id blocks)
      (named : (id : ℕ) → Named (lookup id full)) where
    Known-AreBodies :
        (body : Body) {segments : List SerializedSegment}
        → Known full body
        → body_segments archive first_block (length blocks) body ≡ ok segments
        → AreBodies (keys body) segments
    unfolding body_segments
    Known-AreBodies [] known h = subst (AreBodies []) (ok-injective h) tt
    Known-AreBodies ((id, (name, fs)) ∷ body) (here, known) h =
        let (_, fits, h1) = >>=-eq-ok (ensure (length fs == length blocks) compaction_error) _ h in
        let (bytes, out, h2) =
          >>=-eq-ok
            (ok_or compaction_error
              (archive.body_to_bytes (record { first_block = first_block; content = fs })))
            _ h1 in
        let (rest, later, h3) =
          >>=-eq-ok (body_segments archive first_block (length blocks) body) _ h2 in
        let same : fs ≡ fragments_with id blocks = ap fragments_of (sym here) ∙ held id in
        subst (AreBodies (id ∷ keys body)) (ok-injective h3) (
          entry-IsBody id name bytes fs same (subst Named here (named id))
              ((==_iff (length fs) (length blocks)).0 (ensure-true fits))
              (ok_or-eq-ok compaction_error _ out),
          Known-AreBodies body known later,
        )

    pub body_segments-AreBodies :
        {segments : List SerializedSegment}
        → IsSorted nat_ord full
        → body_segments archive first_block (length blocks) full ≡ ok segments
        → AreBodies (keys full) segments
    body_segments-AreBodies sorted h = Known-AreBodies full (sorted-Known full sorted) h

    pub fragments_with-keys : (id : ℕ) → (fragments_with id blocks ≡ []) ⊎ Memᴰ id (keys full)
    fragments_with-keys id = elim (Option-cases (lookup id full)) [
      | inl missing ↦ inl (sym (held id) ∙ ap fragments_of missing)
      | inr (e, found) ↦ inr (lookup-keys id full found)
    ]
