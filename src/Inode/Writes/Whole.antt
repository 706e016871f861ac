-- ===== src/Inode/Writes/Whole.antt =====
-- write_file of inode.c where the bytes that are written are in the file already, and a read of
-- them.
use mathlib.Core.Path.{subst}
use pcd_file_system.Prelude.{
  ℕ, suc, ◌+◌, ◌-◌, ◌*◌, ◌/◌, ◌%◌, ◌^◌, ◌≤◌, ◌<◌, ◌≡◌, inl, refl, ◌∙◌, false, arith, leb, ltb, ◌==◌,
}
use pcd_file_system.Prelude.Run.{Returns, mono}
use pcd_file_system.Block.{Block}
use pcd_file_system.Disk.Contract.{DiskOps, IsDisk}
use pcd_file_system.Sb.{Sb}
use pcd_file_system.Inode.{Fs, Inode}
use pcd_file_system.Inode.Store.{blocks, super', is_inum_lem}
use pcd_file_system.Inode.Blocks.Find.{IsIndexed}
use pcd_file_system.Inode.Files.{at_most}
use pcd_file_system.Inode.Files.Read.{range-Covers, range_rounds}
use pcd_file_system.Inode.Files.Bytes.{size_lem, super_lem}
use pcd_file_system.Inode.Writes.{write_blocks, write_range, write_file_with, write_file}
use pcd_file_system.Inode.Files.{read_file}
use pcd_file_system.Inode.Files.Bytes.{read_file-IsRead}
use pcd_file_system.Prelude.Run.{bind_ok, ◌>>◌}
use pcd_file_system.Inode.Writes.Blocks.{AreBlocks, Writable, Writable-HasBlock, Writable-same}
use pcd_file_system.Inode.Writes.InPlace.{Outcome, write_blocks-Written}

module _ (ops : DiskOps) (disk : IsDisk ops) (junk : Block) where
  open ops use {State}
  open disk use {Good, view}

  abbrev blocks' : Fs State → ℕ → Block
  blocks' s = blocks ops disk junk s

  abbrev super'' : Fs State → Sb
  super'' s = super' ops disk junk s

  module _ (super : Sb) (ix : IsIndexed super) (inum : ℕ) (n : Inode) (ids : ℕ → ℕ) (count : ℕ)
      (are : AreBlocks ops disk junk super ids count) where
    range_lem :
        (buf : Block) (size offset file_size : ℕ) (s : Fs State)
        → super.blocksize ≡ 4096
        → offset + size < 2 ^ 31
        → write_range ops junk super inum buf size offset file_size s
          ≡ write_blocks ops junk 4096 inum buf offset
              (range_rounds offset size)
              (offset / 4096)
              (offset % 4096)
              size
              (at_most (4096 - offset % 4096) size)
              0
              file_size
              junk
              s
    unfolding write_range
    range_lem buf size offset file_size s bs lt =
        let e : (offset + size) % 2 ^ 32 ≡ offset + size = omega arith in rw (bs, e) refl

    -- On a disk that mkfs laid out, where the blocks that are used are within the contract of
    -- disk.c (they are while they are in the cache), for a file in use all of whose blocks are
    -- data blocks, with ids that are at most NUM_BLOCK, of the first two levels of its tree, no
    -- two the same and none of them a block of ids of the file, write_file of one byte or more
    -- that all lie within the size of the file, below 2^31 and the limits of the super block,
    -- returns the number of bytes; they are in the file then, its other bytes, its inode and all
    -- other blocks of the disk are as before, and the file can be written again.
    pub write_file-Written :
        (depth : ℕ) (v : ℕ → Block) (buf : Block) (size offset : ℕ) (s : Fs State)
        → Writable ops disk junk super ix inum n ids count are v s
        → 0 < size
        → offset + size ≤ n.size
        → n.size ≤ 4096 * count
        → offset + size < 2 ^ 31
        → offset + size ≤ super.filesize
        → offset + size ≤ super.max_file_size
        → Returns
            (Outcome ops disk junk super ix inum n ids count are v buf 0 offset size)
            (write_file ops junk (suc depth) inum buf size offset s)
    unfolding write_file write_file_with
    write_file-Written depth v buf size offset s w some_bytes le whole lt room room' =
        let (s1, e1, r1) = super_lem ops disk junk super ix v inum ids s w.readable in
        let (s2, e2, r2) = size_lem ops disk junk super ix v inum ids s1 r1 in
        let sum : (offset + size) % 2 ^ 32 ≡ offset + size = omega arith in
        let a : leb (2 ^ 31) offset ≡ false = ground arith in
        let b : leb (2 ^ 31) size ≡ false = ground arith in
        let ab : leb (2 ^ 31) (offset + size) ≡ false = ground arith in
        let t1 : ltb super.filesize (offset + size) ≡ false = ground arith in
        let t2 : ltb super.max_file_size (offset + size) ≡ false = ground arith in
        let t3 =
          is_inum_lem super inum (rw (← w.readable.super_same) w.readable.has.laid)
            w.readable.has.small in
        let t4 : (size == 0) ≡ false = ground arith in
        let t5 : ltb n.size offset ≡ false = ground arith in
        let c = range-Covers offset size some_bytes lt in
        let together : 4096 * (offset / 4096) + offset % 4096 ≡ offset = omega arith in
        let bs : super.blocksize ≡ 4096 =
          rw (← w.readable.super_same) w.readable.has.laid.blocksize in
        rw
          (
            e1,
            sum,
            a,
            b,
            ab,
            t1,
            t2,
            t3,
            t4,
            e2,
            w.node,
            t5,
            range_lem buf size offset n.size s2 bs lt,
          )
          (subst
            (λ pos. Returns (Outcome ops disk junk super ix inum n ids count are v buf 0 pos size) (
              write_blocks ops junk 4096 inum buf offset (range_rounds offset size) (offset / 4096)
                (offset % 4096) size (at_most (4096 - offset % 4096) size) 0 n.size junk s2))
            together
            (write_blocks-Written ops disk junk super ix inum n ids count are v
              (range_rounds offset size) (offset / 4096) (offset % 4096) size 0 offset n.size junk
              buf s2 (Writable-same ops disk junk super ix inum n ids count are v s s2 w r2)
              (omega (arith, c.least)) c (inl (omega arith)) (omega arith) (omega arith)))

    -- For a file as in write_file-Written, write_file of one byte or more within its size,
    -- followed by read_file of the same range, gives the bytes that were written.
    pub write_file-read_file :
        (depth : ℕ) (v : ℕ → Block) (buf out : Block) (size offset : ℕ) (s : Fs State)
        → Writable ops disk junk super ix inum n ids count are v s
        → 0 < size
        → offset + size ≤ n.size
        → n.size ≤ 4096 * count
        → offset + size < 2 ^ 31
        → offset + size ≤ super.filesize
        → offset + size ≤ super.max_file_size
        → Returns
            (λ r s'. (r.0 ≡ size) × ((k : ℕ) → k < size → r.1 k ≡ buf k))
            ((write_file ops junk (suc depth) inum buf size offset
                >> read_file ops junk inum out size offset)
              s)
    write_file-read_file depth v buf out size offset s w some_bytes le whole lt room room' =
        bind_ok (write_file-Written depth v buf size offset s w some_bytes le whole lt room room')
          λ r s1 o.
            let w1 = o.writable in
            mono
              (read_file-IsRead ops disk junk super ix o.disk_after inum ids out size offset s1
                w1.readable some_bytes (rw w1.node le) lt
                λ k ge k_lt.
                  Writable-HasBlock ops disk junk super ix inum n ids count are o.disk_after s1 k w1
                    (omega arith))
              λ got s2 (read, r2). (
                omega (arith, read.length),
                λ k k_lt.
                    let index : 0 + k ≡ k = omega arith in
                    subst (λ i. got.1 i ≡ buf i) index (read.bytes k k_lt ∙ o.written.bytes k k_lt),
              )
