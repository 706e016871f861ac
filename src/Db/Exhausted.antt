-- ===== src/Db/Exhausted.antt =====
-- db_allocate where no block is left.
use pcd_file_system.Prelude.{ℕ, ◌≡◌, ◌≢◌, refl, Bool, true, false, arith, ◌==◌, ◌∙◌, if◌then◌else◌}
use pcd_file_system.Prelude.Run.{Fails, Returns, attempt, pure, returned, returns, fails}
use pcd_file_system.Block.{Block}
use pcd_file_system.Disk.Contract.{DiskOps, IsDisk}
use pcd_file_system.Sb.{Sb, sb_write}
use pcd_file_system.Sb.Store.{IsSb, super_of, super_of-same, sb_read-super_of, sb_write-super_of}
use pcd_file_system.Db.{uint_max, no_free_block, mend, db_allocate}

module _ (ops : DiskOps) (disk : IsDisk ops) (junk : Block) where
  open ops use {State}
  open disk use {Good, view}

  abbrev super' : State → Sb
  super' = super_of ops disk junk

  -- a write of the super block that is left out where it holds already
  module _ (s : State) (old new : Sb) (g : Good s) (sup : super' s ≡ old) (is : IsSb new) where
    save_unless :
        (c : Bool)
        → (c ≡ true → old ≡ new)
        → Returns
            (λ _ s'. Good s' × (super' s' ≡ new) × ((a : ℕ) → a ≢ 0 → view s' a ≡ view s a))
            (attempt (if c then pure tt else sb_write ops junk new) s)
    save_unless true e = returns (g, sup ∙ e refl, λ a na. refl)
    save_unless false e =
        let (_, s', e', w) = returned (sb_write-super_of ops disk junk s new g is) in
        let (g', sup', v') = w in rw e' (returns (g', sup', λ a na. v' a ∙ ground arith))

  -- Where the super block is within the contract of disk.c (it is while it is in the cache) and
  -- has no free block or UINT_MAX as its free list, db_allocate returns -1. The super block has
  -- both afterwards, and the other blocks are as before.
  pub db_allocate-no_free_block :
      (s : State)
      → Good s
      → IsSb (super' s)
      → no_free_block (super' s) ≡ true
      → Fails
          (λ s'.
            Good s'
            × (super' s' ≡ record (super' s) { num_free_block = 0; free_list = uint_max })
            × ((a : ℕ) → a ≢ 0 → view s' a ≡ view s a))
          (db_allocate ops junk s)
  unfolding db_allocate mend
  db_allocate-no_free_block s g is none_left =
      let super = super' s in
      let super1 = record super { free_list = uint_max } in
      let super2 = record super1 { num_free_block = 0 } in
      let e_list : (super.free_list == uint_max) ≡ true → super.free_list ≡ uint_max =
        λ h. ground arith in
      let e_num : (super.num_free_block == 0) ≡ true → super.num_free_block ≡ 0 =
        λ h. ground arith in
      let (_, s0, e0, w0) = returned (sb_read-super_of ops disk junk s g) in
      let (value0, g0, same0) = w0 in
      let (_, s1, e1, w1) = returned (
        save_unless s0 super super1 g0 (super_of-same ops disk junk s s0 (same0 0)) (omega arith)
          (super.free_list == uint_max) λ c i. record super { free_list = e_list c i }) in
      let (g1, sup1, same1) = w1 in
      let (_, s2, e2, w2) = returned (
        save_unless s1 super1 super2 g1 sup1 (omega arith) (super.num_free_block == 0)
          λ c i. record super1 { num_free_block = e_num c i }) in
      let (g2, sup2, same2) = w2 in
      rw (e0, value0, none_left, e1, e2)
        (fails (g2, sup2, λ a na. same2 a na ∙ same1 a na ∙ same0 a))
