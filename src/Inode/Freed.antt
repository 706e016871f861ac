-- ===== src/Inode/Freed.antt =====
-- inode_free and the bitmap.
use mathlib.Core.Path.{subst}
use pcd_file_system.Prelude.{
  ℕ, ◌+◌, ◌*◌, ◌/◌, ◌%◌, ◌^◌, ◌<◌, ◌≡◌, ◌≢◌, ◌∙◌, true, false, arith, ltb, ◌==◌, if◌then◌else◌,
  Bool-cases, inl, inr,
}
use pcd_file_system.Prelude.Run.{returned, Returns, returns}
use pcd_file_system.Block.{Block, set_byte}
use pcd_file_system.Disk.Contract.{DiskOps, IsDisk}
use pcd_file_system.Sb.{Sb}
use pcd_file_system.Sb.Store.{super_of-same}
use pcd_file_system.Inode.{Fs}
use pcd_file_system.Inode.Store.{
  IsLaidOut, bit_at, node_at, blocks, super', read_block_lem, write_block_lem,
}
use pcd_file_system.Inode.Access.{HasInode, loaded}
use pcd_file_system.Inode.Life.{num_blocks, clear_bit, inode_free}

-- the bits after byte `2 * inum` of the bitmap's first block was set to 0
module _ (v v' : ℕ → Block) (inum : ℕ) (lt : inum < 2048)
    (new : (a : ℕ) → v' a ≡ (if a == 1 then set_byte (v 1) (2 * inum) 0 else v a)) where
  cleared : bit_at v' (2 * inum) ≡ 0
  unfolding bit_at set_byte
  cleared =
      let bid : 1 + 2 * inum / 4096 ≡ 1 = omega arith in
      let at : 2 * inum % 4096 ≡ 2 * inum = omega arith in rw (bid, at, new 1) (ground arith)

  kept : (j : ℕ) → j ≢ 2 * inum → bit_at v' j ≡ bit_at v j
  unfolding bit_at set_byte
  kept j ne = elim (Bool-cases (1 + j / 4096 == 1)) [
    | inl first ↦
        let bid : 1 + j / 4096 ≡ 1 = ground arith in
        let at : (j % 4096 == 2 * inum) ≡ false = ground arith in rw (bid, new 1) (rw at)
    | inr later ↦ rw (new (1 + j / 4096), later)
  ]

module _ (ops : DiskOps) (disk : IsDisk ops) (junk : Block) where
  open ops use {State}
  open disk use {Good, view}

  abbrev blocks' : Fs State → ℕ → Block
  blocks' s = blocks ops disk junk s

  module _ (super : Sb) (laid : IsLaidOut super) (inum : ℕ) (lt : inum < 2048)
      (near : disk.Within 1) where
    bid_lem : (super.start_bitmap + inum / super.blocksize) % 2 ^ 32 ≡ 1
    bid_lem = rw (laid.start_bitmap, laid.blocksize) (omega arith)

    at_lem : (inum + inum % super.blocksize) % 2 ^ 32 ≡ 2 * inum
    at_lem = rw laid.blocksize (omega arith)

    clear_bit_lem :
        (s : Fs State)
        → Good s.disk
        → super' ops disk junk s ≡ super
        → Returns
            (λ _ s'.
              Good s'.disk
              × ((a : ℕ)
                  → blocks' s' a
                    ≡ (if a == 1 then set_byte (blocks' s 1) (2 * inum) 0 else blocks' s a)))
            (clear_bit ops junk super inum s)
    unfolding clear_bit
    clear_bit_lem s g e =
        let (d1, e1, g1, same1) =
          read_block_lem ops disk junk s g 1 (rw e (omega (arith, laid.num_block))) near s.bitmap in
        let b = set_byte (blocks' s 1) (2 * inum) 0 in
        let s1 : Fs State = record s { disk = d1; bitmap = b } in
        let sup1 = super_of-same ops disk junk s.disk d1 (same1 0) ∙ e in
        let (d2, e2, g2, new) =
          write_block_lem ops disk junk s1 g1 1 (rw sup1 (omega (arith, laid.num_block))) near b in
        let inside : ltb (2 * inum) 4096 ≡ true = ground arith in
        rw (bid_lem, e1, at_lem, inside, e2) (returns (g2, λ a. new a ∙ ground (arith, same1 a)))

  empty_lem : (size block_size : ℕ) → size ≡ 0 → block_size ≡ 4096 → num_blocks size block_size ≡ 0
  unfolding num_blocks
  empty_lem size block_size e laid = rw (e, laid)

  module _ (s : Fs State) (inum : ℕ) (h : HasInode ops disk junk s inum) where
    -- On a disk that mkfs laid out, where the blocks that are used are within the contract of
    -- disk.c (they are while they are in the cache), inode_free of an empty inode in use, with a
    -- number below 2048, clears the byte of the bitmap at twice that number, and no other byte:
    -- the inode itself stays marked, unless it is inode 0.
    pub inode_free-bit_at :
        (node_at (blocks' s) inum).size ≡ 0
        → inum < 2048
        → Returns
            (λ _ s'.
              Good s'.disk
              × (bit_at (blocks' s') (2 * inum) ≡ 0)
              × ((j : ℕ) → j ≢ 2 * inum → bit_at (blocks' s') j ≡ bit_at (blocks' s) j))
            (inode_free ops junk inum s)
    unfolding inode_free bit_at
    inode_free-bit_at size lt =
        let super = super' ops disk junk s in
        let (s1, s2, m, e1, e2, value, t, g2, same, sup) = loaded ops disk junk s inum h in
        let empty =
          empty_lem (node_at (blocks' s) inum).size super.blocksize size h.laid.blocksize in
        let first : 1 + inum / 4096 ≡ 1 = omega arith in
        let near : disk.Within 1 = subst disk.Within first h.near.bitmap in
        let (_, s3, e3, w3) = returned (clear_bit_lem super h.laid inum lt near s2 g2 sup) in
        let (g3, new) = w3 in
        let new' : (a : ℕ)
            → blocks' s3 a ≡ (if a == 1 then set_byte (blocks' s 1) (2 * inum) 0 else blocks' s a) =
          λ a.
            subst (λ v. blocks' s3 a ≡ (if a == 1 then set_byte (v 1) (2 * inum) 0 else v a)) same
              (new a) in
        rw (e1, e2, value, empty, e3)
          (returns (
            g3,
            cleared (blocks' s) (blocks' s3) inum lt new',
            kept (blocks' s) (blocks' s3) inum lt new',
          ))
