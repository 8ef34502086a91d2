-- ===== src/StateClient/Stored.antt =====
-- What is written is read back by the getters.
use starkstream_dna.Base.{
  ℕ, ◌<◌, u64_mod, true, bytes_eq, bytes_eq_iff, Option, none, some, List, ◌++◌, ◌≡◌, refl, sym,
  ◌∙◌, ok, >>=-eq-ok, ok-injective, change_context, change_context-eq-ok, subst,
}
use starkstream_dna.Base.Decimal.{to_string, from_utf8-to_string, parse_u64-to_string}
use starkstream_dna.Etcd.{KeyValue, Etcd, EtcdLaws, value_of, format_key, get_key, put_key}
use starkstream_dna.StateClient.{
  state_client_error, decode_block, decode_first, get_block, put_block,
}

pub decode_block-to_string :
    (block : ℕ) → block < u64_mod → decode_block (to_string block) ≡ ok block
unfolding decode_block
decode_block-to_string block h = rw (from_utf8-to_string block, parse_u64-to_string block h)

-- A response is decoded by its value.
decode_first-value :
    (response : Option KeyValue) {value : List ℕ} {block : ℕ}
    → value_of response ≡ some value
    → decode_block value ≡ ok block
    → decode_first response ≡ ok (some block)
unfolding decode_first
decode_first-value none h e = cc
decode_first-value (some kv) {value} h e = let same : kv.value ≡ value = cc in rw (same, e)

module _ (E : Etcd) (L : EtcdLaws E) (prefix : List ℕ) where
  pub get_key-entry :
      (key : List ℕ) (s : E.State) {response : Option KeyValue}
      → change_context state_client_error (get_key E prefix key s) ≡ ok response
      → response ≡ E.entry (prefix ++ key) s
  unfolding get_key format_key
  get_key-entry key s read = L.get-entry (prefix ++ key) s (
      change_context-eq-ok _ (E.get (prefix ++ key) s)
        (change_context-eq-ok _ (get_key E prefix key s) read))

  get_block-entry :
      (key : List ℕ) (s : E.State) {r : Option ℕ}
      → get_block E prefix key s ≡ ok r
      → decode_first (E.entry (prefix ++ key) s) ≡ ok r
  unfolding get_block
  get_block-entry key s {r} h =
      let (response, read, h1) =
        >>=-eq-ok (change_context state_client_error (get_key E prefix key s)) decode_first h in
      subst (λ e. decode_first e ≡ ok r) (get_key-entry key s read) h1

  pub put_block-entry :
      (key : List ℕ) (block : ℕ) (s : E.State) {next : E.State}
      → put_block E prefix key block s ≡ ok next
      → value_of (E.entry (prefix ++ key) next) ≡ some (to_string block)
  unfolding put_block put_key format_key
  put_block-entry key block s h =
      let same : bytes_eq (prefix ++ key) (prefix ++ key) ≡ true =
        (bytes_eq_iff (prefix ++ key) (prefix ++ key)).1 refl in
      L.put-entry (prefix ++ key) (to_string block) s
        (change_context-eq-ok _ (E.put (prefix ++ key) (to_string block) s)
          (change_context-eq-ok _ (put_key E prefix key (to_string block) s) h))
        (prefix ++ key)
      ∙ rw same

-- After a block was written under a key, a read of the key that does not fail returns the block.
pub get_block-put_block :
    (E : Etcd) (prefix key : List ℕ) (block : ℕ) (s : E.State) {next : E.State} {r : Option ℕ}
    → EtcdLaws E
    → block < u64_mod
    → put_block E prefix key block s ≡ ok next
    → get_block E prefix key next ≡ ok r
    → r ≡ some block
get_block-put_block E prefix key block s {next} L small written read =
    let held = put_block-entry E L prefix key block s written in
    let seen = get_block-entry E L prefix key next read in
    ok-injective (
      sym seen
      ∙ decode_first-value (E.entry (prefix ++ key) next) held (decode_block-to_string block small))
