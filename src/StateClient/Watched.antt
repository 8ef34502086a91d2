-- ===== src/StateClient/Watched.antt =====
-- What the setters of a block write, and what a watch reports of it.
use starkstream_dna.Base.{
  ℕ, ◌≤◌, ◌<◌, u64_mod, false, Option, none, some, List, [], ◌∷◌, ◌++◌, ◌≡◌, refl, ap, ◌∙◌, subst,
  Result, ok, err, panic, ◌>>=◌, >>=-eq-ok, ok-injective, ok_or, ok_or-eq-ok, arith,
}
use starkstream_dna.Base.Decimal.{from_utf8, parse_u64, from_utf8-append, utf8_step}
use starkstream_dna.Etcd.{KeyValue, Etcd, EtcdLaws, value_of}
use starkstream_dna.StateClient.{
  IngestionStateClientError, state_client_error, decode_block, PointerJson, put_block,
  put_starting_block, put_finalized, put_pending,
}
use starkstream_dna.StateClient.Keys.{
  recent_key, pending_key, starting_block_key, finalized_key, segmented_key, grouped_key,
}
use starkstream_dna.StateClient.Update.{
  IngestionStateUpdate, starting_block, finalized, pending, segmented, grouped, reverse_onto,
  starts_with, ends_with, block_update, pending_update, update_of, from_kv,
}
use starkstream_dna.StateClient.Raise.{Others, put_if_higher, put_segmented, put_grouped}
use starkstream_dna.StateClient.Stored.{decode_block-to_string, put_block-entry}
use starkstream_dna.StateClient.Rises.{number, number_of, Writers}
use starkstream_dna.StateClient.Loop.{put_if_higher-Reaches}

reverse_onto-append :
    (xs ys acc : List ℕ) → reverse_onto (xs ++ ys) acc ≡ reverse_onto ys (reverse_onto xs acc)
unfolding reverse_onto
reverse_onto-append [] ys acc = refl
reverse_onto-append (x ∷ xs) ys acc = reverse_onto-append xs ys (x ∷ acc)

pending_update-parsed :
    (value : List ℕ) {block : ℕ}
    → parse_u64 value ≡ some block
    → pending_update value ≡ ok (some (pending (some block)))
unfolding pending_update parse_u64
pending_update-parsed [] h = cc
pending_update-parsed (b ∷ value) h = rw h

-- An entry whose value is the text of a block.
module _ (json : PointerJson) (prefix : List ℕ) (kv : KeyValue) (value : List ℕ) (block : ℕ)
    (text : from_utf8 prefix ≡ some prefix) (decoded : from_utf8 kv.value ≡ some value)
    (read : parse_u64 value ≡ some block) where
  -- The update of a key, by the key backwards.
  from_kv-tests :
      (key : List ℕ)
      → kv.key ≡ prefix ++ key
      → from_utf8 (prefix ++ key) ≡ some (prefix ++ key)
      → ends_with (prefix ++ key) recent_key ≡ false
      → from_kv json kv ≡ block_update (prefix ++ key) value
  unfolding from_kv update_of
  from_kv-tests key at utf8 other = rw (at, utf8, other, decoded)

  from_kv-starting_block :
      kv.key ≡ prefix ++ starting_block_key → from_kv json kv ≡ ok (some (starting_block block))
  unfolding block_update reverse_onto starts_with from_utf8 utf8_step
  from_kv-starting_block at =
      from_kv-tests starting_block_key at (from_utf8-append prefix starting_block_key text refl)
        (rw (reverse_onto-append prefix starting_block_key []))
      ∙ rw (reverse_onto-append prefix starting_block_key [], read)

  from_kv-finalized :
      kv.key ≡ prefix ++ finalized_key → from_kv json kv ≡ ok (some (finalized block))
  unfolding block_update reverse_onto starts_with from_utf8 utf8_step
  from_kv-finalized at =
      from_kv-tests finalized_key at (from_utf8-append prefix finalized_key text refl)
        (rw (reverse_onto-append prefix finalized_key []))
      ∙ rw (reverse_onto-append prefix finalized_key [], read)

  from_kv-pending :
      kv.key ≡ prefix ++ pending_key → from_kv json kv ≡ ok (some (pending (some block)))
  unfolding block_update reverse_onto starts_with from_utf8 utf8_step
  from_kv-pending at =
      from_kv-tests pending_key at (from_utf8-append prefix pending_key text refl)
        (rw (reverse_onto-append prefix pending_key []))
      ∙ rw (reverse_onto-append prefix pending_key [], pending_update-parsed value read)

  from_kv-segmented :
      kv.key ≡ prefix ++ segmented_key → from_kv json kv ≡ ok (some (segmented block))
  unfolding block_update reverse_onto starts_with from_utf8 utf8_step
  from_kv-segmented at =
      from_kv-tests segmented_key at (from_utf8-append prefix segmented_key text refl)
        (rw (reverse_onto-append prefix segmented_key []))
      ∙ rw (reverse_onto-append prefix segmented_key [], read)

  from_kv-grouped : kv.key ≡ prefix ++ grouped_key → from_kv json kv ≡ ok (some (grouped block))
  unfolding block_update reverse_onto starts_with from_utf8 utf8_step
  from_kv-grouped at =
      from_kv-tests grouped_key at (from_utf8-append prefix grouped_key text refl)
        (rw (reverse_onto-append prefix grouped_key []))
      ∙ rw (reverse_onto-append prefix grouped_key [], read)

-- The setters whose entries a watch reports as blocks.
pub data Setter : Type 0 where
  sets_starting_block : Setter
  sets_finalized : Setter
  sets_pending : Setter
  sets_segmented : Setter
  sets_grouped : Setter

-- The key that a watch looks for, and the update that it reports.
abbrev pub key_of : Setter → List ℕ
key_of sets_starting_block = starting_block_key
key_of sets_finalized = finalized_key
key_of sets_pending = pending_key
key_of sets_segmented = segmented_key
key_of sets_grouped = grouped_key

abbrev pub reported : Setter → ℕ → IngestionStateUpdate
reported sets_starting_block block = starting_block block
reported sets_finalized block = finalized block
reported sets_pending block = pending (some block)
reported sets_segmented block = segmented block
reported sets_grouped block = grouped block

-- The block that is reported after a block was set: this one, or for a setter that only raises, this
-- one or a later one.
abbrev pub Leaves : Setter → ℕ → ℕ → Type 0
Leaves sets_starting_block block b = b ≡ block
Leaves sets_finalized block b = b ≡ block
Leaves sets_pending block b = b ≡ block
Leaves sets_segmented block b = block ≤ b
Leaves sets_grouped block b = block ≤ b

-- A setter, called with a block; two of them take the other writers of their turns.
abbrev pub set :
    (E : Etcd)
    → List ℕ
    → Setter
    → List (Others E)
    → ℕ
    → E.State
    → Result IngestionStateClientError (Option E.State)
set E prefix sets_starting_block others block s = do
  next ← put_starting_block E prefix block s
  ok (some next)
set E prefix sets_finalized others block s = do
  next ← put_finalized E prefix block s
  ok (some next)
set E prefix sets_pending others block s = do next ← put_pending E prefix block s; ok (some next)
set E prefix sets_segmented others block s = put_segmented E prefix others block s
set E prefix sets_grouped others block s = put_grouped E prefix others block s

-- An entry of a key that is read as a block.
abbrev Numbered : (E : Etcd) → List ℕ → (ℕ → Type 0) → E.State → Type 0
Numbered E key P s =
    (kv : KeyValue) × (b : ℕ) × (E.entry key s ≡ some kv) × (decode_block kv.value ≡ ok b) × P b

decode_block-parts :
    (bytes : List ℕ) {block : ℕ}
    → decode_block bytes ≡ ok block
    → (value : List ℕ) × (from_utf8 bytes ≡ some value) × (parse_u64 value ≡ some block)
unfolding decode_block
decode_block-parts bytes h =
    let (value, decoded, h1) = >>=-eq-ok (ok_or state_client_error (from_utf8 bytes)) _ h in
    (
      value,
      ok_or-eq-ok state_client_error (from_utf8 bytes) decoded,
      ok_or-eq-ok state_client_error (parse_u64 value) h1,
    )

number_of-ok : (r : Result IngestionStateClientError ℕ) {b : ℕ} → number_of r ≡ some b → r ≡ ok b
number_of-ok (ok c) h = cc
number_of-ok (err e) h = cc
number_of-ok panic h = cc

module _ (E : Etcd) (key : List ℕ) (P : ℕ → Type 0) (s : E.State) where
  value-Numbered :
      (o : Option KeyValue) {value : List ℕ} {b : ℕ}
      → E.entry key s ≡ o
      → value_of o ≡ some value
      → decode_block value ≡ ok b
      → P b
      → Numbered E key P s
  value-Numbered none e h d p = cc
  value-Numbered (some kv) {value} {b} e h d p =
      let same : kv.value ≡ value = cc in (kv, b, e, ap decode_block same ∙ d, p)

  number-Numbered :
      (o : Option KeyValue) {b : ℕ}
      → E.entry key s ≡ o
      → number (value_of o) ≡ some b
      → P b
      → Numbered E key P s
  unfolding number
  number-Numbered none e h p = cc
  number-Numbered (some kv) {b} e h p = (kv, b, e, number_of-ok (decode_block kv.value) h, p)

module _ (E : Etcd) (L : EtcdLaws E) (prefix : List ℕ) (block : ℕ) (small : block < u64_mod)
    (s : E.State) where
  put_block-Numbered :
      (key : List ℕ) {next : E.State}
      → (put_block E prefix key block s >>= λ next. ok (some next)) ≡ ok (some next)
      → Numbered E (prefix ++ key) (λ b. b ≡ block) next
  put_block-Numbered key {next} h =
      let (after, done, h1) = >>=-eq-ok (put_block E prefix key block s) _ h in
      let same : after ≡ next = ground (arith, ok-injective h1) in
      subst (Numbered E (prefix ++ key) (λ b. b ≡ block)) same (
        value-Numbered E (prefix ++ key) (λ b. b ≡ block) after (E.entry (prefix ++ key) after) refl
          (put_block-entry E L prefix key block s done) (decode_block-to_string block small) refl)

  put_if_higher-Numbered :
      (key : List ℕ) (others : List (Others E)) {next : E.State}
      → Writers E prefix key others
      → put_if_higher E prefix others key block s ≡ ok (some next)
      → Numbered E (prefix ++ key) (λ b. block ≤ b) next
  put_if_higher-Numbered key others {next} w h =
      let ((b, here, high, _), _) = put_if_higher-Reaches E prefix key block others s L small w h in
      number-Numbered E (prefix ++ key) (λ b. block ≤ b) next (E.entry (prefix ++ key) next) refl
        here high

  set-Numbered :
      (setter : Setter) (others : List (Others E)) {next : E.State}
      → Writers E prefix (key_of setter) others
      → set E prefix setter others block s ≡ ok (some next)
      → Numbered E (prefix ++ key_of setter) (Leaves setter block) next
  unfolding put_starting_block put_finalized put_pending put_segmented put_grouped
  set-Numbered sets_starting_block others w h = put_block-Numbered starting_block_key h
  set-Numbered sets_finalized others w h = put_block-Numbered finalized_key h
  set-Numbered sets_pending others w h = put_block-Numbered pending_key h
  set-Numbered sets_segmented others w h = put_if_higher-Numbered segmented_key others w h
  set-Numbered sets_grouped others w h = put_if_higher-Numbered grouped_key others w h

from_kv-reported :
    (json : PointerJson) (prefix : List ℕ) (setter : Setter) (kv : KeyValue) (b : ℕ)
    → from_utf8 prefix ≡ some prefix
    → kv.key ≡ prefix ++ key_of setter
    → decode_block kv.value ≡ ok b
    → from_kv json kv ≡ ok (some (reported setter b))
from_kv-reported json prefix setter kv b text at decoded =
    let (value, utf8, read) = decode_block-parts kv.value decoded in
    (elim setter
        as (λ x. kv.key ≡ prefix ++ key_of x → from_kv json kv ≡ ok (some (reported x b))) [
          | sets_starting_block ↦ from_kv-starting_block json prefix kv value b text utf8 read
          | sets_finalized ↦ from_kv-finalized json prefix kv value b text utf8 read
          | sets_pending ↦ from_kv-pending json prefix kv value b text utf8 read
          | sets_segmented ↦ from_kv-segmented json prefix kv value b text utf8 read
          | sets_grouped ↦ from_kv-grouped json prefix kv value b text utf8 read
        ])
      at

-- After a setter of the starting, finalized, pending, segmented or grouped block returned without an
-- error, the store holds an entry under the prefix and the setter's key that a watch reports as the
-- update of this kind: with the block that was set, or for the segmented and the grouped block, which
-- are only raised, with this block or a later one. The prefix is text, and the other writers of a
-- raised key leave it alone or write a greater number with a new revision.
pub from_kv-set :
    (E : Etcd) (json : PointerJson) (prefix : List ℕ) (setter : Setter) (others : List (Others E))
    (block : ℕ) (s : E.State) {next : E.State}
    → EtcdLaws E
    → from_utf8 prefix ≡ some prefix
    → block < u64_mod
    → Writers E prefix (key_of setter) others
    → set E prefix setter others block s ≡ ok (some next)
    → (kv : KeyValue) × (b : ℕ) × (E.entry (prefix ++ key_of setter) next ≡ some kv)
      × (from_kv json kv ≡ ok (some (reported setter b)))
      × Leaves setter block b
from_kv-set E json prefix setter others block s {next} L text small w h =
    let (kv, b, held, decoded, leaves) = set-Numbered E L prefix block small s setter others w h in
    (
      kv,
      b,
      held,
      from_kv-reported json prefix setter kv b text
          (L.entry-key (prefix ++ key_of setter) next held) decoded,
      leaves,
    )
