-- ===== src/Etcd/Memory.antt =====
-- A key-value store in memory that never fails: the laws can hold.
use starkstream_dna.Base.{
  ℕ, suc, Bool, true, false, ◌&&◌, ◌==◌, if◌then◌else◌, bytes_eq, Option, none, some, List, [], ◌∷◌,
  ◌≡◌, refl, sym, ap, ◌∙◌, arith, Result, ok, ok-injective,
}
use starkstream_dna.Base.Maps.{bytes_ord, key_eq, BTreeMap, lookup, insert, remove, lookup-insert}
use starkstream_dna.Etcd.{
  KeyValue, Compare, TxnOp, put_op, delete_op, EtcdClientError, Etcd, EtcdLaws, value_of,
  revision_of,
}

-- The entries, and the revision of the store; the revision of an entry is one more than what is kept.
pub record Memory : Type 0 where
  pub entries : BTreeMap (List ℕ) (List ℕ × ℕ)
  pub revision : ℕ

abbrev pub entry_of : List ℕ → Option (List ℕ × ℕ) → Option KeyValue
entry_of key none = none
entry_of key (some (value, revision)) =
    some (record { key = key; value = value; mod_revision = suc revision })

abbrev pub memory_entry : List ℕ → Memory → Option KeyValue
memory_entry key s = entry_of key (lookup key s.entries)

abbrev pub memory_op : TxnOp → Memory → Memory
memory_op (put_op key value) s = record {
  entries = insert key (value, s.revision) s.entries;
  revision = suc s.revision;
}
memory_op (delete_op key) s = record { entries = remove key s.entries; revision = suc s.revision }

abbrev pub memory_ops : List TxnOp → Memory → Memory
memory_ops [] s = s
memory_ops (op ∷ ops) s = memory_ops ops (memory_op op s)

abbrev pub memory_when : List Compare → Memory → Bool
memory_when [] s = true
memory_when (c ∷ cs) s = (revision_of (memory_entry c.key s) == c.mod_revision) && memory_when cs s

abbrev pub memory : Etcd
memory = record {
  State = Memory;
  get = λ key s. ok (memory_entry key s);
  put = λ key value s. ok (memory_op (put_op key value) s);
  delete = λ key s. ok (memory_op (delete_op key) s);
  txn =
      λ t s. ok (memory_when t.when s, if memory_when t.when s then memory_ops t.and_then s else s);
  entry = memory_entry;
}

entry_of-key :
    (key : List ℕ) (o : Option (List ℕ × ℕ)) {kv : KeyValue}
    → entry_of key o ≡ some kv
    → kv.key ≡ key
entry_of-key key none h = cc
entry_of-key key (some (value, revision)) {kv} h =
    let same : record { key = key; value = value; mod_revision = suc revision } ≡ kv = cc in
    ap (λ (kv : KeyValue). kv.key) (sym same)

value_of-put :
    (key value : List ℕ) (s : Memory) (other : List ℕ)
    → value_of (memory_entry other (memory_op (put_op key value) s))
      ≡ (if bytes_eq other key then some value else value_of (memory_entry other s))
unfolding bytes_eq
value_of-put key value s other =
    ap (λ o. value_of (entry_of other o)) (lookup-insert other key (value, s.revision) s.entries)
    ∙ (elim (key_eq other key)
        as (λ b.
          value_of (entry_of other (if b then some (value, s.revision) else lookup other s.entries))
          ≡ (if b then some value else value_of (memory_entry other s))) [
            | true ↦ refl
            | false ↦ refl
          ])

abbrev pub after_put : Bool → List ℕ → List ℕ → Memory → Memory
after_put applied key value s = if applied then memory_op (put_op key value) s else s

value_of-after_put :
    (applied : Bool) (key value : List ℕ) (s : Memory) (other : List ℕ)
    → value_of (memory_entry other (after_put applied key value s))
      ≡ (if applied && bytes_eq other key then some value else value_of (memory_entry other s))
value_of-after_put true key value s other = value_of-put key value s other
value_of-after_put false key value s other = refl

pair-parts :
    {a b : Bool} {s t : Memory}
    → ◌≡◌ {A = Result EtcdClientError (Bool × Memory)} (ok (a, s)) (ok (b, t))
    → (a ≡ b) × (s ≡ t)
pair-parts e = (
  ap (λ (x : Bool × Memory). x.0) (ok-injective e),
  ap (λ (x : Bool × Memory). x.1) (ok-injective e),
)

and_true : (b : Bool) → (b && true) ≡ b
and_true b = ground arith

pub memory-EtcdLaws : EtcdLaws memory
memory-EtcdLaws = record {
  get-entry = λ key s e. sym (ok-injective e);
  entry-key = λ key s e. entry_of-key key (lookup key s.entries) e;
  put-entry = λ key value s {next} e other.
      ap (λ s. value_of (memory_entry other s)) (sym (ok-injective e))
      ∙ value_of-put key value s other;
  txn-put_if = λ key value revision s {applied} {next} e.
      let held = revision_of (memory_entry key s) == revision in
      let (first, second) = pair-parts e in
      let decided : held ≡ applied = sym (and_true held) ∙ first in
      let after : after_put applied key value s ≡ next =
        ap (λ b. after_put b key value s) (sym first) ∙ second in
      (
        sym decided,
        λ other.
            ap (λ s. value_of (memory_entry other s)) (sym after)
            ∙ value_of-after_put applied key value s other,
      );
}
