-- ===== src/StateClient/Rises.antt =====
-- The loop that raises a block number, among other writers of the same key.
use starkstream_dna.Base.{
  ℕ, suc, ◌-◌, ◌≤◌, ◌<◌, u64_mod, leb, true, Bool-cases, bytes_eq, bytes_eq_iff, ℕ_discrete, Option,
  none, some, List, [], ◌∷◌, ◌++◌, ◌≡◌, ◌≢◌, refl, sym, ap, ◌∙◌, subst, arith, inl, inr, Result, ok,
  err, panic, >>=-eq-ok, ok-injective, change_context, change_context-eq-ok,
}
use starkstream_dna.Base.Decimal.{to_string}
use starkstream_dna.Etcd.{
  KeyValue, Etcd, EtcdLaws, value_of, revision_of, put_if, format_key, get_key, put_if_mod_revision,
}
use starkstream_dna.StateClient.{IngestionStateClientError, state_client_error, decode_block}
use starkstream_dna.StateClient.Raise.{
  revision_to_write, Turn, returned, again, Others, write_turn, turn,
}
use starkstream_dna.StateClient.Stored.{decode_block-to_string, get_key-entry}

-- The block number in a value.
abbrev pub number_of : Result IngestionStateClientError ℕ → Option ℕ
number_of (ok block) = some block
number_of (err e) = none
number_of panic = none

unfoldable pub number : Option (List ℕ) → Option ℕ
number none = none
number (some value) = number_of (decode_block value)

number-decoded :
    (value : List ℕ) {block : ℕ} → decode_block value ≡ ok block → number (some value) ≡ some block
unfolding number
number-decoded value h = ap number_of h

-- A number that appears or is greater than before.
abbrev pub Above : Option ℕ → Option ℕ → Type 0
Above none none = ⊥
Above none (some b) = Unit
Above (some a) none = ⊥
Above (some a) (some b) = a < b

-- A number that does not fall or disappear.
abbrev pub Rises : Option ℕ → Option ℕ → Type 0
Rises none b = Unit
Rises (some a) none = ⊥
Rises (some a) (some b) = a ≤ b

pub Rises-trans : (a b c : Option ℕ) → Rises a b → Rises b c → Rises a c
Rises-trans none b c h k = tt
Rises-trans (some a) none c h k = elim h [ ]
Rises-trans (some a) (some b) none h k = elim k [ ]
Rises-trans (some a) (some b) (some c) h k = omega arith

pub Rises-refl : (a : Option ℕ) → Rises a a
Rises-refl none = tt
Rises-refl (some a) = omega arith

Above-Rises : (a b : Option ℕ) → Above a b → Rises a b
Above-Rises none b h = tt
Above-Rises (some a) none h = elim h [ ]
Above-Rises (some a) (some b) h = omega arith

-- How often the number can still rise before it reaches a block.
abbrev pub room : ℕ → Option ℕ → ℕ
room block none = suc block
room block (some b) = block - b

module _ (E : Etcd) (prefix key : List ℕ) where
  abbrev pub number_at : E.State → Option ℕ
  number_at s = number (value_of (E.entry (prefix ++ key) s))

  abbrev pub revision_at : E.State → ℕ
  revision_at s = revision_of (E.entry (prefix ++ key) s)

  -- Writers that leave the entry alone or write a greater number, with a new revision.
  pub record Writer (others : Others E) : Type 0 where
    pub keeps :
        (s : E.State)
        → revision_at (others s) ≡ revision_at s
        → E.entry (prefix ++ key) (others s) ≡ E.entry (prefix ++ key) s
    pub climbs :
        (s : E.State)
        → revision_at (others s) ≢ revision_at s
        → Above (number_at s) (number_at (others s))

  abbrev pub Writers : List (Others E) → Type 0
  Writers [] = Unit
  Writers (others ∷ more) = Writer others × Writers more

  pub Writer-Rises :
      (others : Others E)
      → Writer others
      → (s : E.State) → Rises (number_at s) (number_at (others s))
  Writer-Rises others w s = elim (ℕ_discrete (revision_at (others s)) (revision_at s)) [
    | yes same ↦
        subst (λ e. Rises (number_at s) (number (value_of e))) (sym (w.keeps s same))
          (Rises-refl (number_at s))
    | no changed ↦ Above-Rises (number_at s) (number_at (others s)) (w.climbs s changed)
  ]

  -- What a turn reads and decides: the number is reached, or it is below and the revision is known.
  data Read (block : ℕ) (s : E.State) : Option ℕ → Type 0 where
    reached : (b : ℕ) → number_at s ≡ some b → block ≤ b → Read block s none
    below :
        (revision : ℕ)
        → revision ≡ revision_at s
        → Rises (number_at s) (some block)
        → 0 < room block (number_at s)
        → Read block s (some revision)

  module _ (L : EtcdLaws E) (block : ℕ) where
    revision_to_write-Read :
        (s : E.State) (e : Option KeyValue) {r : Option ℕ}
        → e ≡ E.entry (prefix ++ key) s
        → revision_to_write block e ≡ ok r
        → Read block s r
    unfolding revision_to_write number
    revision_to_write-Read s none {r} e h = subst (Read block s) (ok-injective h) (
        below 0 (ap revision_of e) (subst (λ e. Rises (number (value_of e)) (some block)) e tt)
          (subst (λ e. 0 < room block (number (value_of e))) e (omega arith)))
    revision_to_write-Read s (some kv) {r} e h =
        let (current, read, h1) = >>=-eq-ok (decode_block kv.value) _ h in
        let here : number_at s ≡ some current =
          ap (λ e. number (value_of e)) (sym e) ∙ number-decoded kv.value read in
        elim (Bool-cases (leb block current)) [
          | inl high ↦
              subst (Read block s) (ok-injective (rw high at h1))
                (reached current here (ground arith))
          | inr low ↦ subst (Read block s) (ok-injective (rw low at h1)) (
              below kv.mod_revision (ap revision_of e)
                (subst (λ n. Rises n (some block)) (sym here) (ground arith))
                (subst (λ n. 0 < room block n) (sym here) (ground arith)))
        ]

    -- How a turn ends.
    pub data Ended (s : E.State) (others : Others E) : Turn E → Type 0 where
      unchanged : (b : ℕ) → number_at s ≡ some b → block ≤ b → Ended s others (returned s)
      written :
          (next : E.State)
          → number_at next ≡ some block
          → Rises (number_at s) (some block)
          → Rises (number_at (others s)) (number_at next)
          → Ended s others (returned next)
      overtaken :
          (next : E.State)
          → number_at next ≡ number_at (others s)
          → revision_at (others s) ≢ revision_at s
          → 0 < room block (number_at s)
          → Ended s others (again next)

    module _ (small : block < u64_mod) where
      -- A write that was applied found the entry as it was read, so nothing came in between.
      applied-Rises :
          (s : E.State) (others : Others E) (next : E.State)
          → Writer others
          → revision_at (others s) ≡ revision_at s
          → number_at next ≡ some block
          → Rises (number_at s) (some block)
          → Rises (number_at (others s)) (number_at next)
      applied-Rises s others next w same value rises =
          let kept : number_at (others s) ≡ number_at s =
            ap (λ e. number (value_of e)) (w.keeps s same) in
          subst (λ n. Rises n (number_at next)) (sym kept)
            (subst (Rises (number_at s)) (sym value) rises)

      write_turn-Ended :
          (s : E.State) (others : Others E) (r : Option ℕ) {t : Turn E}
          → Writer others
          → Read block s r
          → write_turn E prefix key block s r others ≡ ok t
          → Ended s others t
      unfolding write_turn put_if_mod_revision format_key
      write_turn-Ended s others none w (reached b here high) h =
          subst (Ended s others) (ok-injective h) (unchanged b here high)
      write_turn-Ended s others (some revision) w (below _ same rises left) h =
          let put = put_if_mod_revision E prefix key (to_string block) revision (others s) in
          let ((applied, next), done, h1) = >>=-eq-ok (change_context state_client_error put) _ h in
          let (decided, values) =
            L.txn-put_if (prefix ++ key) (to_string block) revision (others s) (
              change_context-eq-ok _
                (E.txn (put_if (prefix ++ key) (to_string block) revision) (others s))
                (change_context-eq-ok _ put done)) in
          let own : bytes_eq (prefix ++ key) (prefix ++ key) ≡ true =
            (bytes_eq_iff (prefix ++ key) (prefix ++ key)).1 refl in
          elim (Bool-cases applied) [
            | inl took ↦
                let value : value_of (E.entry (prefix ++ key) next) ≡ some (to_string block) =
                  values (prefix ++ key) ∙ rw (took, own) in
                let stored : number_at next ≡ some block =
                  ap number value
                  ∙ number-decoded (to_string block) (decode_block-to_string block small) in
                let still : revision_at (others s) ≡ revision_at s =
                  ground (arith, decided, took, same) in
                subst (Ended s others) (ok-injective (rw took at h1))
                  (written next stored rises (applied-Rises s others next w still stored rises))
            | inr refused ↦
                let value : value_of (E.entry (prefix ++ key) next)
                    ≡ value_of (E.entry (prefix ++ key) (others s)) =
                  values (prefix ++ key) ∙ rw refused in
                subst (Ended s others) (ok-injective (rw refused at h1))
                  (overtaken next (ap number value) (ground (arith, decided, refused, same)) left)
          ]

      pub turn-Ended :
          (s : E.State) (others : Others E) {t : Turn E}
          → Writer others
          → turn E prefix key block others s ≡ ok t
          → Ended s others t
      unfolding turn
      turn-Ended s others w h =
          let (e, read, h1) =
            >>=-eq-ok (change_context state_client_error (get_key E prefix key s)) _ h in
          let (r, chosen, h2) = >>=-eq-ok (revision_to_write block e) _ h1 in
          write_turn-Ended s others r w
            (revision_to_write-Read s e (get_key-entry E L prefix key s read) chosen) h2
