-- ===== src/Db/Free.antt =====
-- db_free on the free list.
use pcd_file_system.Prelude.{
  ℕ, ◌+◌, ◌-◌, ◌%◌, ◌^◌, ◌≤◌, ◌<◌, ◌≡◌, ◌≢◌, refl, true, false, some, List, [], ◌∷◌, ◌++◌, arith,
  ltb, ◌∙◌, Option-cases, inl, inr,
}
use pcd_file_system.Prelude.Lists.{has, has-length, has_ne, length}
use pcd_file_system.Prelude.Run.{Fails, Returns, returns, fails, returned}
use pcd_file_system.Block.{Block, zero_block, set_word}
use pcd_file_system.Disk.Contract.{DiskOps, IsDisk}
use pcd_file_system.Sb.{Sb}
use pcd_file_system.Sb.Store.{IsSb, super_of, super_of-same, sb_read-super_of, sb_write-super_of}
use pcd_file_system.Db.{no_free_block, find_empty, free_first, free_entry, free_head, db_free}
use pcd_file_system.Db.FreeList.{
  Chain, Chain-head, Chain-frame, AreFree, IsFreeList, exhausted, listed,
}
use pcd_file_system.Db.Grow.{AreFree-put, link, Chain-single, Chain-push, Chain-put, listed-put}

-- What a call leaves.
pub record Joins (ops : DiskOps) (disk : IsDisk ops) (junk : Block) (b : ℕ) (ids : List ℕ)
    (s s' : ops.State) : Type 0 where
  pub good : disk.Good s'
  pub front : List ℕ
  pub back : List ℕ
  pub old : ids ≡ front ++ back
  pub free : IsFreeList (disk.view s') (super_of ops disk junk s') (front ++ b ∷ back)
  pub super_ok : IsSb (super_of ops disk junk s')
  pub others :
      (a : ℕ)
      → a ≢ 0
      → a ≢ (super_of ops disk junk s).free_list
      → a ≢ b
      → disk.view s' a ≡ disk.view s a

module _ (ops : DiskOps) (disk : IsDisk ops) (junk : Block) where
  open ops use {State}
  open disk use {Good, view}

  abbrev super' : State → Sb
  super' = super_of ops disk junk

  module _ (s : State) (b : ℕ) (ids : List ℕ) (is : IsSb (super' s)) (nz : b ≢ 0)
      (lt : b < 2 ^ 32 - 1) (near : disk.Within b) (s1 : State) (g1 : Good s1)
      (same : (a : ℕ) → view s1 a ≡ view s a) where
    first : Returns (λ _ s'. Joins ops disk junk b [] s s') (free_first ops junk (super' s) b s1)
    unfolding free_first
    first =
        let super2 = record (super' s) { num_free_block = 1; free_list = b } in
        let (_, s2, e2, w2) =
          returned (sb_write-super_of ops disk junk s1 super2 g1 (omega arith)) in
        let (g2, sup2, v2) = w2 in
        let (_, s3, e3, w3) = returned (disk.writes s2 (link b) b g2 near) in
        let (g3, v3) = w3 in
        let sup3 : super' s3 ≡ super2 =
          super_of-same ops disk junk s2 s3 (v3 0 ∙ ground arith) ∙ sup2 in
        let alone : AreFree (b ∷ []) = record {
          distinct = (refl, _);
          positive = λ a i. ground arith;
          small = λ a i. ground arith;
        } in
        let here : view s3 b ≡ link b = v3 b ∙ ground arith in
        rw (e2, e3)
          (returns record {
            good = g3;
            front = [];
            back = [];
            old = refl;
            free =
                rw sup3 (listed (Chain-single (view s3) b (omega arith) here) (omega arith) alone);
            super_ok = rw sup3 (omega arith);
            others = λ a n0 nl nb. v3 a ∙ ground (arith, v2 a, same a);
          })

    module _ (c : Chain (view s) (super' s).free_list ids)
        (count : length ids ≤ (super' s).num_free_block) (free : AreFree ids)
        (near_l : disk.Within (super' s).free_list) (room : (super' s).num_free_block + 1 < 2 ^ 32)
        (out : has b ids ≡ false) where
      entry :
          (i : ℕ)
          → find_empty (view s (super' s).free_list) 1023 1 ≡ some i
          → Returns
              (λ _ s'. Joins ops disk junk b ids s s')
              (free_entry ops junk (super' s) (view s (super' s).free_list) i b s1)
      unfolding free_entry
      entry i found =
          let l = (super' s).free_list in
          let inside = Chain-head (view s) l ids c in
          let l_nz = free.positive l inside in
          let super3 = record (super' s) {
            num_free_block = ((super' s).num_free_block + 1) % 2 ^ 32;
          } in
          let (_, s2, e2, w2) = returned (disk.writes s1 (set_word (view s l) i b) l g1 near_l) in
          let (g2, v2) = w2 in
          let (_, s3, e3, w3) =
            returned (sb_write-super_of ops disk junk s2 super3 g2 (omega arith)) in
          let (g3, sup3, v3) = w3 in
          let (us, vs, split, chain) =
            Chain-put (view s) (view s3) l ids b i free c found nz (omega arith)
              (v3 l ∙ ground (arith, v2 l)) (λ a nl na. v3 a ∙ ground (arith, v2 a, same a)) in
          rw (e2, e3)
            (returns record {
              good = g3;
              front = us;
              back = vs;
              old = split;
              free = rw sup3 (
                  listed-put (view s3) super3 ids us vs b split free out nz lt
                    (omega (arith, count)) chain);
              super_ok = rw sup3 (omega arith);
              others = λ a n0 nl nb. v3 a ∙ ground (arith, v2 a, same a);
            })

      head : Returns (λ _ s'. Joins ops disk junk b ids s s') (free_head ops junk (super' s) b s1)
      unfolding free_head
      head =
          let l = (super' s).free_list in
          let inside = Chain-head (view s) l ids c in
          let l_lt = free.small l inside in
          let apart = has_ne l b ids inside out in
          let super2 = record (super' s) {
            free_list = b;
            num_free_block = ((super' s).num_free_block + 1) % 2 ^ 32;
          } in
          let (_, s2, e2, w2) =
            returned (sb_write-super_of ops disk junk s1 super2 g1 (omega arith)) in
          let (g2, sup2, v2) = w2 in
          let (_, s3, e3, w3) = returned (disk.writes s2 (link l) b g2 near) in
          let (g3, v3) = w3 in
          let sup3 : super' s3 ≡ super2 =
            super_of-same ops disk junk s2 s3 (v3 0 ∙ ground arith) ∙ sup2 in
          let kept : (a : ℕ) → has a ids ≡ true → view s3 a ≡ view s a =
            λ a i. v3 a ∙ ground (arith, v2 a, same a, free.positive a i, has_ne a b ids i out) in
          let chain : Chain (view s3) b (b ∷ ids) =
            Chain-push (view s3) l b ids (omega arith) apart (v3 b ∙ ground arith)
              (Chain-frame (view s) (view s3) l ids c kept) in
          rw (e2, e3)
            (returns record {
              good = g3;
              front = [];
              back = ids;
              old = refl;
              free =
                  rw sup3
                    (listed chain (omega (arith, count)) (AreFree-put [] ids b free out nz lt));
              super_ok = rw sup3 (omega arith);
              others = λ a n0 nl nb. v3 a ∙ ground (arith, v2 a, same a);
            })

  -- On a disk with a free list that stands for ids, all different, not 0 and below UINT_MAX, and
  -- no more than NUM_FREE_BLOCK, db_free of a block that is not among them, is not 0 and at most
  -- NUM_BLOCK, where the super block, the block and the head of the list are within the contract
  -- of disk.c (they are while they are in the cache), adds the block to the list, between two
  -- parts of ids in their order; the blocks but the super block, the head of the list and the
  -- block itself are as before. A condition is that the count of free blocks plus one fits an
  -- unsigned int.
  pub db_free-FreeList :
      (s : State) (b : ℕ) (ids : List ℕ)
      → Good s
      → IsSb (super' s)
      → IsFreeList (view s) (super' s) ids
      → (super' s).num_free_block + 1 < 2 ^ 32
      → has b ids ≡ false
      → b ≢ 0
      → disk.Within b
      → (has (super' s).free_list ids ≡ true → disk.Within (super' s).free_list)
      → b ≤ (super' s).num_block
      → Returns (λ _ s'. Joins ops disk junk b ids s s') (db_free ops junk b s)
  unfolding db_free no_free_block
  db_free-FreeList s b ids g is (exhausted n f e) room out nz near nears le =
      let (_, s0, e0, w0) = returned (sb_read-super_of ops disk junk s g) in
      let (value0, g0, same0) = w0 in
      let bound : ltb (super' s).num_block b ≡ false = ground arith in
      let done : no_free_block (super' s) ≡ true = ground arith in
      rw (e0, value0, bound, done, e) (first s b [] is nz (disk.below_max b near) near s0 g0 same0)
  db_free-FreeList s b ids g is (listed c n f) room out nz near nears le =
      let l = (super' s).free_list in
      let inside = Chain-head (view s) l ids c in
      let near_l = nears inside in
      let mark = f.small l inside in
      let lt = disk.below_max b near in
      let (_, s0, e0, w0) = returned (sb_read-super_of ops disk junk s g) in
      let (value0, g0, same0) = w0 in
      let (_, s1, e1, w1) = returned (disk.reads s0 zero_block l g0 near_l) in
      let (value1, g1, same1) = w1 in
      let same : (a : ℕ) → view s1 a ≡ view s a = λ a. same1 a ∙ same0 a in
      let bound : ltb (super' s).num_block b ≡ false = ground arith in
      let not_done : no_free_block (super' s) ≡ false = ground (arith, has-length l ids inside) in
      rw (e0, value0, bound, not_done, e1, value1, same0 l)
        (elim (Option-cases (find_empty (view s l) 1023 1)) [
          | inl found ↦ rw found (head s b ids is nz lt near s1 g1 same c n f near_l room out)
          | inr (i, found) ↦
              rw found (entry s b ids is nz lt near s1 g1 same c n f near_l room out i found)
        ])

  -- On a disk that meets the contract, db_free of a block above NUM_BLOCK returns -1, and no block
  -- changes.
  pub db_free-above :
      (s : State) (b : ℕ)
      → Good s
      → (super' s).num_block < b
      → Fails (λ s'. Good s' × ((a : ℕ) → view s' a ≡ view s a)) (db_free ops junk b s)
  unfolding db_free
  db_free-above s b g lt =
      let (_, s0, e0, w0) = returned (sb_read-super_of ops disk junk s g) in
      let (value0, g0, same0) = w0 in
      let bound : ltb (super' s).num_block b ≡ true = ground arith in
      rw (e0, value0, bound) (fails (g0, same0))
