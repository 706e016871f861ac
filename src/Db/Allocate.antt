-- ===== src/Db/Allocate.antt =====
-- db_allocate on the free list.
use pcd_file_system.Prelude.{
  ℕ, suc, ◌-◌, ◌≤◌, ◌≡◌, ◌≢◌, refl, true, false, none, some, List, ◌∷◌, arith, ◌==◌, ◌∙◌,
  if◌then◌else◌, Option-cases, inl, inr,
}
use pcd_file_system.Prelude.Lists.{length}
use pcd_file_system.Prelude.Run.{Returns, returns, returned}
use pcd_file_system.Block.{Block, zero_block, word, set_word}
use pcd_file_system.Disk.Contract.{DiskOps, IsDisk}
use pcd_file_system.Sb.{Sb, encode_sb}
use pcd_file_system.Sb.Store.{IsSb, super_of, sb_read-super_of, sb_write-super_of}
use pcd_file_system.Db.{
  uint_max, no_free_block, find_used, take_entry, take_head, allocate_in, db_allocate,
}
use pcd_file_system.Db.FreeList.{
  Chain, Chain-head, Chain-take_entry, Chain-take_head, AreFree, IsFreeList, exhausted, listed,
}

AreFree-tail : (a : ℕ) (ids : List ℕ) → AreFree (a ∷ ids) → AreFree ids
AreFree-tail a ids f = record {
  distinct = f.distinct.1;
  positive = λ b i. f.positive b (ground arith);
  small = λ b i. f.small b (ground arith);
}

module _ (ops : DiskOps) (disk : IsDisk ops) (junk : Block) where
  open ops use {State}
  open disk use {Good, view}

  abbrev super' : State → Sb
  super' = super_of ops disk junk

  take_entry_lem :
      (s : State) (super : Sb) (buffer : Block) (i : ℕ)
      → Good s
      → IsSb super
      → disk.Within super.free_list
      → Returns
          (λ r s'.
            (r ≡ word buffer i)
            × Good s'
            × (super' s' ≡ super)
            × ((a : ℕ)
                → view s' a ≡ (
                    if a == 0
                    then encode_sb junk super
                    else (if a == super.free_list then set_word buffer i 0 else view s a))))
          (take_entry ops junk super buffer i s)
  unfolding take_entry
  take_entry_lem s super buffer i g is lt =
      let (_, s2, e2, w2) = returned (disk.writes s (set_word buffer i 0) super.free_list g lt) in
      let (g2, v2) = w2 in
      let (_, s3, e3, w3) = returned (sb_write-super_of ops disk junk s2 super g2 is) in
      let (g3, sup, v3) = w3 in
      rw e2 (rw e3 (returns (refl, g3, sup, λ a. v3 a ∙ ground (arith, v2 a))))

  -- the super block after the head was handed out
  after_head : Sb → Block → Sb
  after_head super buffer =
      if word buffer 0 == super.free_list
      then record super { num_free_block = 0; free_list = uint_max }
      else record super { free_list = word buffer 0 }

  take_head_lem :
      (s : State) (super : Sb) (buffer : Block)
      → Good s
      → IsSb (after_head super buffer)
      → Returns
          (λ r s'.
            (r ≡ super.free_list)
            × Good s'
            × (super' s' ≡ after_head super buffer)
            × ((a : ℕ)
                → view s' a
                  ≡ (if a == 0 then encode_sb junk (after_head super buffer) else view s a)))
          (take_head ops junk super buffer s)
  unfolding take_head after_head
  take_head_lem s super buffer g is =
      let (_, s2, e2, w2) =
        returned (sb_write-super_of ops disk junk s (after_head super buffer) g is) in
      let (g2, sup, v2) = w2 in rw e2 (returns (refl, g2, sup, v2))

  -- What a call leaves: the free list, and the blocks outside it.
  pub record Leaves (s s' : State) (ids : List ℕ) : Type 0 where
    pub good : Good s'
    pub super_ok : IsSb (super' s')
    pub free : IsFreeList (view s') (super' s') ids
    pub others : (a : ℕ) → a ≢ 0 → a ≢ (super' s).free_list → view s' a ≡ view s a

  module _ (s : State) (id : ℕ) (ids : List ℕ) (g : Good s) (is : IsSb (super' s)) where
    -- the state in which the allocation looks at the entries
    taken : Sb
    taken = record (super' s) { num_free_block = (super' s).num_free_block - 1 }

    IsSb-taken : IsSb (super' s) → IsSb taken
    unfolding taken
    IsSb-taken i = omega arith

    module _ (c : Chain (view s) (super' s).free_list (id ∷ ids))
        (count : suc (length ids) ≤ (super' s).num_free_block)
        (near : disk.Within (super' s).free_list) (free : AreFree (id ∷ ids)) (s1 : State)
        (g1 : Good s1) (same : (a : ℕ) → view s1 a ≡ view s a) where
      entry :
          (i : ℕ)
          → find_used (view s (super' s).free_list) 1023 1 ≡ some i
          → Returns
              (λ r s'. (r ≡ id) × Leaves s s' ids)
              (take_entry ops junk taken (view s (super' s).free_list) i s1)
      unfolding taken
      entry i found =
          let l = (super' s).free_list in
          let nz = free.positive l (Chain-head (view s) l (id ∷ ids) c) in
          let (r, s', e, run) =
            returned (take_entry_lem s1 taken (view s l) i g1 (IsSb-taken is) near) in
          let (value, g', sup, new) = run in
          let now : view s' l ≡ set_word (view s l) i 0 = new l ∙ ground arith in
          let kept : (a : ℕ) → a ≢ l → a ≢ 0 → view s' a ≡ view s a =
            λ a nl na. new a ∙ ground (arith, same a) in
          let (first, chain) =
            Chain-take_entry (view s) (view s') l id ids free i c found now kept in
          rw e (
            returns (
              value ∙ first,
              record {
                good = g';
                super_ok = rw sup (IsSb-taken is);
                free = rw sup (listed chain (omega (arith, count)) (AreFree-tail id ids free));
                others = λ a na nl. kept a nl na;
              },
            ))

      -- the next block of the list, where there is one, is a block of the disk
      IsSb-after_head :
          find_used (view s (super' s).free_list) 1023 1 ≡ none
          → IsSb (after_head taken (view s (super' s).free_list))
      unfolding taken after_head
      IsSb-after_head found =
          let l = (super' s).free_list in
          let (first, next) =
            Chain-take_head (view s) (view s) l id ids free c found λ a na. refl in
          elim next [
            | inl (self, none_left) ↦
                let stop : (word (view s l) 0 == l) ≡ true = ground arith in rw stop (omega arith)
            | inr (ne, chain) ↦
                let go : (word (view s l) 0 == l) ≡ false = ground arith in
                let inside = Chain-head (view s) (word (view s l) 0) ids chain in
                let small = free.small (word (view s l) 0) (ground arith) in rw go (omega arith)
          ]

      -- the list after the head was handed out
      rest :
          (s' : State)
          → find_used (view s (super' s).free_list) 1023 1 ≡ none
          → ((a : ℕ) → a ≢ 0 → view s' a ≡ view s a)
          → ((super' s).free_list ≡ id)
            × IsFreeList (view s') (after_head taken (view s (super' s).free_list)) ids
      unfolding taken after_head
      rest s' found kept =
          let l = (super' s).free_list in
          let (first, next) = Chain-take_head (view s) (view s') l id ids free c found kept in
          elim next [
            | inl (self, none_left) ↦
                let stop : (word (view s l) 0 == l) ≡ true = ground arith in
                (first, rw stop (exhausted refl refl none_left))
            | inr (ne, chain) ↦
                let go : (word (view s l) 0 == l) ≡ false = ground arith in
                (first, rw go (listed chain (omega (arith, count)) (AreFree-tail id ids free)))
          ]

      head :
          find_used (view s (super' s).free_list) 1023 1 ≡ none
          → Returns
              (λ r s'. (r ≡ id) × Leaves s s' ids)
              (take_head ops junk taken (view s (super' s).free_list) s1)
      unfolding taken
      head found =
          let b = view s (super' s).free_list in
          let is' = IsSb-after_head found in
          let (r, s', e, run) = returned (take_head_lem s1 taken b g1 is') in
          let (value, g', sup, new) = run in
          let kept : (a : ℕ) → a ≢ 0 → view s' a ≡ view s a =
            λ a na. new a ∙ ground (arith, same a) in
          let (first, free') = rest s' found kept in
          rw e (
            returns (
              value ∙ first,
              record {
                good = g';
                super_ok = rw sup is';
                free = rw sup free';
                others = λ a na nl. kept a na;
              },
            ))

    -- On a disk with a free list that stands for the ids id, ids, all different, not 0 and below
    -- UINT_MAX, and no more than NUM_FREE_BLOCK, where the super block and the head of the list
    -- are within the contract of disk.c (they are while they are in the cache), db_allocate
    -- returns id, and the list stands for ids afterwards; the blocks but the super block and the
    -- head of the list are as before.
    pub db_allocate-FreeList :
        disk.Within (super' s).free_list
        → IsFreeList (view s) (super' s) (id ∷ ids)
        → Returns (λ r s'. (r ≡ id) × Leaves s s' ids) (db_allocate ops junk s)
    unfolding db_allocate allocate_in no_free_block taken
    db_allocate-FreeList near (exhausted n f e) = cc
    db_allocate-FreeList near (listed c n f) =
        let l = (super' s).free_list in
        let mark = f.small l (Chain-head (view s) l (id ∷ ids) c) in
        let some_free : no_free_block (super' s) ≡ false = ground arith in
        let (_, s0, e0, w0) = returned (sb_read-super_of ops disk junk s g) in
        let (value0, g0, same0) = w0 in
        let (_, s1, e1, w1) = returned (disk.reads s0 zero_block l g0 near) in
        let (value1, g1, same1) = w1 in
        let same : (a : ℕ) → view s1 a ≡ view s a = λ a. same1 a ∙ same0 a in
        rw (e0, value0, some_free, e1, value1, same0 l)
          (elim (Option-cases (find_used (view s l) 1023 1)) [
            | inl found ↦ rw found (head c n near f s1 g1 same found)
            | inr (i, found) ↦ rw found (entry c n near f s1 g1 same i found)
          ])
