-- ===== src/Etcd.antt =====
-- etcd/src/kv.rs: the client of the key-value store. The store itself, and the library that talks to
-- it, are a parameter.
pub mod Memory
use starkstream_dna.Base.{
  ℕ, ◌<◌, Bool, true, false, ◌&&◌, ◌==◌, if◌then◌else◌, bytes_eq, Option, none, some, List, [], ◌∷◌,
  ◌++◌, ◌≡◌, Result, ok, err, panic, ◌>>=◌, change_context,
}

pub record KeyValue : Type 0 where
  pub key : List ℕ
  pub value : List ℕ
  pub mod_revision : ℕ

-- `Compare::mod_revision(key, CompareOp::Equal, revision)`
pub record Compare : Type 0 where
  pub key : List ℕ
  pub mod_revision : ℕ

pub data TxnOp : Type 0 where
  put_op : List ℕ → List ℕ → TxnOp
  delete_op : List ℕ → TxnOp

pub record Txn : Type 0 where
  pub when : List Compare
  pub and_then : List TxnOp

pub data EtcdClientError : Type 0 where
  etcd_client_error : EtcdClientError

-- The library's calls, each of which may fail, and what the store holds under a key.
pub record Etcd : Type 1 where
  pub State : Type 0
  pub get : List ℕ → State → Result EtcdClientError (Option KeyValue)
  pub put : List ℕ → List ℕ → State → Result EtcdClientError State
  pub delete : List ℕ → State → Result EtcdClientError State
  pub txn : Txn → State → Result EtcdClientError (Bool × State)
  pub entry : List ℕ → State → Option KeyValue

abbrev pub value_of : Option KeyValue → Option (List ℕ)
value_of none = none
value_of (some kv) = some kv.value

-- A missing key has revision 0.
abbrev pub revision_of : Option KeyValue → ℕ
revision_of none = 0
revision_of (some kv) = kv.mod_revision

-- A conditional put of one key.
abbrev pub put_if : List ℕ → List ℕ → ℕ → Txn
put_if key value revision = record {
  when = record { key = key; mod_revision = revision } ∷ [];
  and_then = put_op key value ∷ [];
}

-- What the documentation of the store says.
pub record EtcdLaws (E : Etcd) : Type 0 where
  pub get-entry :
      (key : List ℕ) (s : E.State) {r : Option KeyValue} → E.get key s ≡ ok r → r ≡ E.entry key s
  pub entry-key :
      (key : List ℕ) (s : E.State) {kv : KeyValue} → E.entry key s ≡ some kv → kv.key ≡ key
  pub put-entry :
      (key value : List ℕ) (s : E.State) {next : E.State}
      → E.put key value s ≡ ok next
      → (other : List ℕ)
      → value_of (E.entry other next)
        ≡ (if bytes_eq other key then some value else value_of (E.entry other s))
  pub txn-put_if :
      (key value : List ℕ) (revision : ℕ) (s : E.State) {applied : Bool} {next : E.State}
      → E.txn (put_if key value revision) s ≡ ok (applied, next)
      → (applied ≡ (revision_of (E.entry key s) == revision))
        × ((other : List ℕ)
            → value_of (E.entry other next)
              ≡ (if applied && bytes_eq other key then some value else value_of (E.entry other s)))

module _ (E : Etcd) (prefix : List ℕ) where
  unfoldable pub format_key : List ℕ → List ℕ
  format_key key = prefix ++ key

  -- `KvClient::get`, with the first entry of the response
  unfoldable pub get_key : List ℕ → E.State → Result EtcdClientError (Option KeyValue)
  get_key key s = change_context etcd_client_error (E.get (format_key key) s)

  unfoldable pub put_key : List ℕ → List ℕ → E.State → Result EtcdClientError E.State
  put_key key value s = change_context etcd_client_error (E.put (format_key key) value s)

  unfoldable pub put_if_mod_revision :
      List ℕ → List ℕ → ℕ → E.State → Result EtcdClientError (Bool × E.State)
  put_if_mod_revision key value mod_revision s =
      change_context etcd_client_error (E.txn (put_if (format_key key) value mod_revision) s)

  unfoldable pub delete_key : List ℕ → E.State → Result EtcdClientError E.State
  delete_key key s = change_context etcd_client_error (E.delete (format_key key) s)

  unfoldable pub put_and_delete :
      List ℕ → List ℕ → List ℕ → E.State → Result EtcdClientError E.State
  put_and_delete put_key put_value del_key s = do
    response ← change_context etcd_client_error (
        E.txn
          (record {
            when = [];
            and_then = put_op (format_key put_key) put_value ∷ delete_op (format_key del_key) ∷ [];
          })
          s)
    ok response.1
