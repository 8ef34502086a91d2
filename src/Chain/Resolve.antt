-- ===== src/Chain/Resolve.antt =====
-- Where a client that sits on a reorged block is sent: to heads that are canonical, or that were
-- replaced in turn, until a canonical block is reached.
use starkstream_dna.Base.{
  ℕ, ◌<◌, ◌≤◌, ◌≡◌, sym, ◌∙◌, ◌⊎◌, inl, inr, ◌&&◌, refl, Option, none, some, arith, ltb, dec_le,
  Bool-cases, subst,
}
use starkstream_dna.Base.Maps.{nat_ord, bytes_ord}
use starkstream_dna.Core.{Hash, Cursor}
use starkstream_dna.Chain.{BlockInfo, Building, CanonicalChainSegment, CanonicalChainSegmentInfo}
use starkstream_dna.Chain.Abstract.{hash_at, reorg_at, IsValid, hash_at_range, hash_at-cases}
use starkstream_dna.Chain.Grow.{Grows}
use starkstream_dna.Chain.Restore.{Restores, reorg_kept}
use starkstream_dna.Chain.Shrink.{Shrinks, is_hash, is_hash_iff}

-- The block is canonical, or was replaced.
abbrev pub Known : Building → Cursor → Type 0
Known b t =
    (hash_at b t.number ≡ some t.hash) ⊎ ((u : Cursor) × (reorg_at b t.number t.hash ≡ some u))

-- Each recorded target lies below its block, within the builder, and is known itself.
pub record Target (b : Building) (n : ℕ) (t : Cursor) : Type 0 where
  pub below : t.number < n
  pub within : b.info.first_block.number ≤ t.number
  pub known : Known b t

abbrev pub Resolves : Building → Type 0
Resolves b = (n : ℕ) (h : Hash) (t : Cursor) → reorg_at b n h ≡ some t → Target b n t

module _ (b : Building) (v : IsValid b) (r : Resolves b) where
  pub Grows-Resolves :
      (block : BlockInfo)
      → b.info.last_block.number < block.number
      → (g : Grows b block) → Resolves g.after
  Grows-Resolves block higher g n h t e = record {
    below = old.below;
    within = subst (λ (c : Cursor). c.number ≤ t.number) (sym g.start) old.within;
    known = kept old.known;
  }
    where
      old : Target b n t
      old = r n h t (sym (g.reorgs n h) ∙ e)

      kept : Known b t → Known g.after t
      kept (inl c) = inl (ground (arith, g.hashes t.number, hash_at_range b v t.number c, higher))
      kept (inr (u, f)) = inr (u, g.reorgs t.number t.hash ∙ f)

  module _ (head : Cursor) (canonical : hash_at b head.number ≡ some head.hash)
      (s : Shrinks b head) where
    Shrinks-Known : (t : Cursor) → Known b t → Known s.after t
    Shrinks-Known t (inl c) = elim (dec_le t.number head.number) [
      | yes low ↦ inl (ground (arith, s.hashes t.number))
      | no high ↦
          let known = (is_hash_iff (hash_at b t.number) t.hash).1 c in
          inr (head, ground (arith, s.reorgs t.number t.hash, known))
    ]
    Shrinks-Known t (inr (u, f)) =
        elim (Bool-cases (ltb head.number t.number && is_hash (hash_at b t.number) t.hash)) [
          | inl fresh ↦ inr (head, s.reorgs t.number t.hash ∙ rw fresh)
          | inr old ↦ inr (u, s.reorgs t.number t.hash ∙ rw old f)
        ]

    head-Target : (n : ℕ) → head.number < n → Target s.after n head
    head-Target n above = record {
      below = above;
      within =
          subst (λ c. c.number ≤ head.number) (sym s.start)
            (hash_at_range b v head.number canonical).0;
      known = Shrinks-Known head (inl canonical);
    }

    pub Shrinks-Resolves : Resolves s.after
    Shrinks-Resolves n h t e = elim (Bool-cases (ltb head.number n && is_hash (hash_at b n) h)) [
      | inl fresh ↦
          let same : head ≡ t = ground (arith, e, s.reorgs n h, fresh) in
          subst (λ c. Target s.after n c) same (head-Target n (ground arith))
      | inr stale ↦
          let old = r n h t (ground (arith, e, s.reorgs n h, stale)) in
          record {
            below = old.below;
            within = subst (λ c. c.number ≤ t.number) (sym s.start) old.within;
            known = Shrinks-Known t old.known;
          }
    ]

-- A kept reorg was recorded at the number of a canonical block.
reorg_kept-some :
    (o : Option Hash) (r : Option Cursor) {t : Cursor}
    → reorg_kept o r ≡ some t
    → (r ≡ some t) × ((g : Hash) × (o ≡ some g))
reorg_kept-some none r h = cc
reorg_kept-some (some g) r h = (h, (g, refl))

module _ (b : Building) (v : IsValid b) (r : Resolves b) (s : CanonicalChainSegment)
    (k : Restores b s) where
  Restores-Known :
      (t : Cursor)
      → b.info.first_block.number ≤ t.number
      → t.number ≤ b.info.last_block.number
      → Known b t
      → Known k.after t
  Restores-Known t low high (inl c) = inl (k.hashes t.number ∙ c)
  Restores-Known t low high (inr (u, f)) = elim (hash_at-cases b v t.number) [
    | inl (inl below, _) ↦ absurd (omega arith)
    | inl (inr above, _) ↦ absurd (omega arith)
    | inr (g, held, _, _) ↦ inr (u, k.reorgs t.number t.hash ∙ rw (held, f))
  ]

  pub Restores-Resolves : Resolves k.after
  Restores-Resolves n h t e =
      let (recorded, (g, held)) =
        reorg_kept-some (hash_at b n) (reorg_at b n h) (sym (k.reorgs n h) ∙ e) in
      let old = r n h t recorded in
      let range = hash_at_range b v n held in
      record {
        below = old.below;
        within =
            subst (λ (i : CanonicalChainSegmentInfo). i.first_block.number ≤ t.number)
              (sym k.same_info) old.within;
        known = Restores-Known t old.within (omega (arith, old.below, range)) old.known;
      }
