-- ===== src/StateClient/Loop.antt =====
-- What the loop of `put_if_higher` reaches, and when it ends.
use starkstream_dna.Base.{
  ℕ, ◌≤◌, ◌<◌, u64_mod, Option, none, some, List, [], ◌∷◌, length, ◌≡◌, ◌≢◌, refl, sym, subst,
  arith, ◌⊎◌, inl, inr, Result, ok, >>=-eq-ok, ok-injective,
}
use starkstream_dna.Etcd.{Etcd, EtcdLaws}
use starkstream_dna.StateClient.{IngestionStateClientError}
use starkstream_dna.StateClient.Raise.{Turn, returned, again, Others, turn, put_if_higher}
use starkstream_dna.StateClient.Rises.{
  Above, Rises, Rises-refl, Rises-trans, room, number_at, Writer, Writers, Writer-Rises, Ended,
  unchanged, written, overtaken, turn-Ended,
}

-- A number that is at a block or past it, and was not lower before.
abbrev pub Reaches : ℕ → Option ℕ → Option ℕ → Type 0
Reaches block before after = (b : ℕ) × (after ≡ some b) × (block ≤ b) × Rises before after

module _ (E : Etcd) (prefix key : List ℕ) (block : ℕ) where
  -- The turns of a loop that returned, with what the other writers did before each write. A turn that
  -- returns wrote nothing, or left a number that is not lower than theirs; one that is repeated left
  -- the number that they stored.
  pub data Trace : List (Others E) → E.State → E.State → Type 0 where
    ended :
        (others : Others E) (more : List (Others E)) (s next : E.State)
        → turn E prefix key block others s ≡ ok (returned next)
        → (next ≡ s) ⊎ Rises (number_at E prefix key (others s)) (number_at E prefix key next)
        → Trace (others ∷ more) s next
    repeated :
        (others : Others E) (more : List (Others E)) (s mid next : E.State)
        → turn E prefix key block others s ≡ ok (again mid)
        → number_at E prefix key mid ≡ number_at E prefix key (others s)
        → Trace more mid next
        → Trace (others ∷ more) s next

module _ (E : Etcd) (L : EtcdLaws E) (prefix key : List ℕ) (block : ℕ)
    (small : block < u64_mod) where
  abbrev onward : List (Others E) → Turn E → Result IngestionStateClientError (Option E.State)
  onward more (returned next) = ok (some next)
  onward more (again next) = put_if_higher E prefix more key block next

  turns :
      (others : Others E) (more : List (Others E)) (s : E.State) {r : Option E.State}
      → Writer E prefix key others
      → put_if_higher E prefix (others ∷ more) key block s ≡ ok r
      → (t : Turn E) × Ended E prefix key L block s others t
        × (onward more t ≡ ok r)
        × (turn E prefix key block others s ≡ ok t)
  unfolding put_if_higher
  turns others more s {r} w h =
      let (t, e, h1) = >>=-eq-ok (turn E prefix key block others s) _ h in
      (
        t,
        turn-Ended E prefix key L block small s others w e,
        elim t
              as (λ t.
                (elim t as (λ _. Result IngestionStateClientError (Option E.State)) [
                  | returned next ↦ ok (some next)
                  | again next ↦ put_if_higher E prefix more key block next
                ])
                  ≡ ok r
                → onward more t ≡ ok r) [ returned next ↦ λ h. h | again next ↦ λ h. h ]
            h1,
        e,
      )

  none-not-some : {A : Type 0} {a : A} → ¬ (◌≡◌ {A = Option A} none (some a))
  none-not-some e = cc

  loop-Reaches :
      (others : List (Others E)) (s : E.State) {next : E.State}
      → Writers E prefix key others
      → put_if_higher E prefix others key block s ≡ ok (some next)
      → Reaches block (number_at E prefix key s) (number_at E prefix key next)
        × Trace E prefix key block others s next
  unfolding put_if_higher
  loop-Reaches [] s w h = absurd (none-not-some (ok-injective h))
  loop-Reaches (others ∷ more) s {next} (w, ws) h =
      let (t, end, h1, run) = turns others more s w h in
      let N = number_at E prefix key in
      let Goal : E.State → Type 0 =
        λ x. Reaches block (N s) (N x) × Trace E prefix key block (others ∷ more) s x in
      elim end
          as (λ t _.
            onward more t ≡ ok (some next) → turn E prefix key block others s ≡ ok t → Goal next) [
              | unchanged b here high ↦ λ h run.
                  let same : s ≡ next = ground (arith, ok-injective h) in
                  subst Goal same
                    ((b, here, high, Rises-refl (N s)), ended others more s s run (inl refl))
              | written after value rises later ↦ λ h run.
                  let same : after ≡ next = ground (arith, ok-injective h) in
                  subst Goal same (
                    (block, value, omega arith, subst (Rises (N s)) (sym value) rises),
                    ended others more s after run (inr later),
                  )
              | overtaken after value changed left ↦ λ h run.
                  let ((b, here, high, later), trace) = loop-Reaches more after ws h in
                  (
                    (
                      b,
                      here,
                      high,
                      Rises-trans (N s) (N after) (N next)
                          (subst (Rises (N s)) (sym value) (Writer-Rises E prefix key others w s))
                          later,
                    ),
                    repeated others more s after next run value trace,
                  )
            ]
        h1 run

  room-Above : (a b : Option ℕ) → Above a b → 0 < room block a → room block b < room block a
  room-Above none none h left = elim h [ ]
  room-Above none (some b) h left = omega arith
  room-Above (some a) none h left = elim h [ ]
  room-Above (some a) (some b) h left = omega arith

  loop-ends :
      (others : List (Others E)) (s : E.State)
      → Writers E prefix key others
      → room block (number_at E prefix key s) < length others
      → put_if_higher E prefix others key block s ≢ ok none
  unfolding put_if_higher
  loop-ends [] s w fits = absurd (omega arith)
  loop-ends (others ∷ more) s (w, ws) fits = λ h.
      let (t, end, h1, _) = turns others more s w h in
      let N = number_at E prefix key in
      elim end as (λ t _. ¬ (onward more t ≡ ok none)) [
        | unchanged b here high ↦ λ h. none-not-some (sym (ok-injective h))
        | written after value rises later ↦ λ h. none-not-some (sym (ok-injective h))
        | overtaken after value changed left ↦
            let lower = room-Above (N s) (N (others s)) (w.climbs s changed) left in
            let fewer : room block (N after) < room block (N s) =
              subst (λ n. room block n < room block (N s)) (sym value) lower in
            loop-ends more after ws (omega arith)
      ]
        h1

-- When `put_if_higher` returns without an error, among writers that leave the entry alone or write a
-- greater number with a new revision, the stored number is at the block or past it, and it is not
-- lower than it was before the call. In each of its turns it lowers no number that the other writers
-- stored between its read and its write.
pub put_if_higher-Reaches :
    (E : Etcd) (prefix key : List ℕ) (block : ℕ) (others : List (Others E)) (s : E.State)
    {next : E.State}
    → EtcdLaws E
    → block < u64_mod
    → Writers E prefix key others
    → put_if_higher E prefix others key block s ≡ ok (some next)
    → Reaches block (number_at E prefix key s) (number_at E prefix key next)
      × Trace E prefix key block others s next
put_if_higher-Reaches E prefix key block others s L small w h =
    loop-Reaches E L prefix key block small others s w h

-- Among such writers the loop of `put_if_higher` ends, with or without an error, within one turn more
-- than the number has room to rise: `block + 1` when the key is missing, else what is missing to the
-- block.
pub put_if_higher-ends :
    (E : Etcd) (prefix key : List ℕ) (block : ℕ) (others : List (Others E)) (s : E.State)
    → EtcdLaws E
    → block < u64_mod
    → Writers E prefix key others
    → room block (number_at E prefix key s) < length others
    → put_if_higher E prefix others key block s ≢ ok none
put_if_higher-ends E prefix key block others s L small w fits =
    loop-ends E L prefix key block small others s w fits
