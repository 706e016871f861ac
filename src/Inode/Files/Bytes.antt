-- ===== src/Inode/Files/Bytes.antt =====
-- read_file of inode.c against the bytes of the blocks that the tree of the inode leads to.
use mathlib.Core.Path.{subst}
use pcd_file_system.Prelude.{
  ℕ, zero, suc, ◌+◌, ◌-◌, ◌*◌, ◌/◌, ◌%◌, ◌^◌, ◌≤◌, ◌<◌, ◌≡◌, ◌≢◌, refl, sym, ap, ◌∙◌, fun_ext,
  false, arith, leb, ltb, ◌==◌,
}
use pcd_file_system.Prelude.Run.{Returns, returned, returns, ok, mono}
use pcd_file_system.Block.{Block}
use pcd_file_system.Disk.Contract.{DiskOps, IsDisk}
use pcd_file_system.Sb.{Sb}
use pcd_file_system.Sb.Store.{super_of-same}
use pcd_file_system.Db.{uint_max}
use pcd_file_system.Inode.{Fs, read_block, load_super}
use pcd_file_system.Inode.Fields.{get_inode_size}
use pcd_file_system.Inode.Store.{node_at, blocks, super', load_super_lem, read_block_lem}
use pcd_file_system.Inode.Access.{HasInode, HasInode-same, load_target_lem}
use pcd_file_system.Inode.Blocks.{find_block_by_num}
use pcd_file_system.Inode.Blocks.Find.{IsIndexed, Leads, Usable, find_block_by_num-Leads}
use pcd_file_system.Inode.Files.{copy, at_most, read_blocks, read_range, read_file}
use pcd_file_system.Inode.Files.Read.{
  IsRead, IsRead-round, file_byte, in_block, at_most-IsPart, Covers, next_pos, next-Covers,
  range-Covers, range_rounds,
}

module _ (ops : DiskOps) (disk : IsDisk ops) (junk : Block) where
  open ops use {State}
  open disk use {Good, view}

  abbrev blocks' : Fs State → ℕ → Block
  blocks' s = blocks ops disk junk s

  abbrev super'' : Fs State → Sb
  super'' s = super' ops disk junk s

  range_lem :
      (super : Sb) (inum : ℕ) (buf : Block) (size offset : ℕ) (s : Fs State)
      → super.blocksize ≡ 4096
      → read_range ops junk super inum buf size offset ((offset + size) / super.blocksize) s
        ≡ read_blocks ops junk 4096 inum
            (range_rounds offset size)
            (offset / 4096)
            (offset % 4096)
            size
            (at_most (4096 - offset % 4096) size)
            0
            junk
            buf
            s
  unfolding read_range
  range_lem super inum buf size offset s bs = rw bs refl

  -- Block `num` of the file is the block `bid`, which db_read takes.
  pub record HasBlock (super : Sb) (v : ℕ → Block) (inum num bid : ℕ) : Type 0 where
    pub leads : Leads (Usable ops disk junk super) v (node_at v inum) num bid
    pub usable : Usable ops disk junk super bid
    pub not_max : bid ≢ uint_max

  module _ (super : Sb) (ix : IsIndexed super) (v : ℕ → Block) (inum : ℕ) (ids : ℕ → ℕ) where
    -- a state in which the file can be read
    pub record Readable (s : Fs State) : Type 0 where
      pub has : HasInode ops disk junk s inum
      pub super_same : super'' s ≡ super
      pub same : blocks' s ≡ v

    pub Readable-same :
        (s s' : Fs State) → Readable s → Good s'.disk → blocks' s' ≡ blocks' s → Readable s'
    Readable-same s s' r g same = record {
      has = HasInode-same ops disk junk s s' inum r.has g same;
      super_same = super_of-same ops disk junk s.disk s'.disk (ap (λ v. v 0) same) ∙ r.super_same;
      same = same ∙ r.same;
    }

    -- one block is found
    pub find_lem :
        (s : Fs State) (num : ℕ)
        → Readable s
        → HasBlock super v inum num (ids num)
        → (s' : Fs State) × (find_block_by_num ops junk inum num s ≡ ok (ids num) s') × Readable s'
    find_lem s num r b =
        let leads =
          subst (λ w. Leads (Usable ops disk junk (super'' s)) w (node_at w inum) num (ids num))
            (sym r.same)
            (subst (λ sup. Leads (Usable ops disk junk sup) v (node_at v inum) num (ids num))
              (sym r.super_same) b.leads) in
        let ix' : IsIndexed (super'' s) = rw r.super_same ix in
        let (bid, s1, e, w) =
          returned (
            find_block_by_num-Leads ops disk junk s inum num r.has ix' (ids num) leads b.not_max) in
        let (value, g1, same1) = w in
        (
          s1,
          subst (λ x. find_block_by_num ops junk inum num s ≡ ok x s1) value e,
          Readable-same s s1 r g1 (fun_ext same1),
        )

    -- and read
    pub block_lem :
        (s : Fs State) (num : ℕ) (out : Block)
        → Readable s
        → HasBlock super v inum num (ids num)
        → (s' : Fs State) × (s2 : Fs State) × (find_block_by_num ops junk inum num s
            ≡ ok (ids num) s')
          × (read_block ops junk out (ids num) s' ≡ ok (v (ids num)) s2)
          × Readable s2
    block_lem s num out r b =
        let (s1, e1, r1) = find_lem s num r b in
        let (d2, e2, g2, same2) =
          read_block_lem ops disk junk s1 r1.has.good (ids num) (rw r1.super_same b.usable.0)
            b.usable.1 out in
        let s2 : Fs State = record s1 { disk = d2 } in
        let there = ap (λ w. w (ids num)) r1.same in
        (
          s1,
          s2,
          e1,
          subst (λ x. read_block ops junk out (ids num) s1 ≡ ok x s2) there e2,
          Readable-same s1 s2 r1 g2 (fun_ext same2),
        )

    read_blocks-IsRead :
        (rounds num off size at : ℕ) (block buf : Block) (s : Fs State)
        → Readable s
        → ((k : ℕ) → num ≤ k → k < num + rounds → HasBlock super v inum k (ids k))
        → Covers rounds num off size
        → at + size < 2 ^ 31
        → Returns
            (λ r s'. IsRead (file_byte v ids) buf at size (4096 * num + off) r.0 r.1 × Readable s')
            (read_blocks ops junk 4096 inum rounds num off size
              (at_most (4096 - off) size)
              at
              block
              buf
              s)
    unfolding read_blocks
    read_blocks-IsRead zero num off size at block buf s r has c lt =
        let none : size ≡ 0 = omega (arith, c.enough) in
        returns (
          record {
            length = omega arith;
            before = λ o lt. refl;
            bytes = λ k lt'. absurd (omega arith);
            after = λ o le. refl;
          },
          r,
        )
    read_blocks-IsRead (suc rounds) num off size at block buf s r has c lt =
        let n = at_most (4096 - off) size in
        let p = at_most-IsPart off size c.off_lt in
        let (s1, s2, e1, e2, r2) = block_lem s num block r (has num (omega arith) (omega arith)) in
        let next = next-Covers rounds num off size n c p in
        let e_size : (size + 2 ^ 32 - n) % 2 ^ 32 ≡ size - n = omega (arith, p.fits) in
        let e_at : (at + n) % 2 ^ 32 ≡ at + n = omega (arith, p.fits) in
        let rest =
          read_blocks-IsRead rounds (num + 1) 0 (size - n) (at + n) (v (ids num))
            (copy buf at (v (ids num)) off n) s2 r2 (λ k ge lt'. has k (omega arith) (omega arith))
            next (omega (arith, p.fits)) in
        rw (e1, e2, e_size, e_at)
          (mono rest λ res s' (read, r'). (
            IsRead-round (file_byte v ids) buf (v (ids num)) res.1 at n size off (4096 * num + off)
                (4096 * (num + 1) + 0) res.0
                (λ k lt'. in_block v ids num off k (omega (arith, p.inside))) p.fits
                (next_pos num p) read,
            r',
          ))

    pub size_lem :
        (s : Fs State)
        → Readable s
        → (s' : Fs State) × (get_inode_size ops junk inum s ≡ ok (node_at v inum).size s')
          × Readable s'
    unfolding get_inode_size
    size_lem s r =
        let (n, s', e, w) = returned (load_target_lem ops disk junk s inum r.has) in
        let (value, t, g, same) = w in
        let stored : s'.target_node ≡ node_at v inum =
          t ∙ value ∙ ap (λ w. node_at w inum) r.same in
        (s', rw (e, stored) refl, Readable-same s s' r g same)

    pub super_lem :
        (s : Fs State)
        → Readable s
        → (s' : Fs State) × (load_super ops junk s ≡ ok super s') × Readable s'
    super_lem s r =
        let (d, e, g, same) = load_super_lem ops disk junk s r.has.good in
        let s' : Fs State = record s { disk = d; super = super'' s } in
        (
          s',
          subst (λ x. load_super ops junk s ≡ ok x s') r.super_same e,
          Readable-same s s' r g (fun_ext same),
        )

    -- On a disk that mkfs laid out, where the blocks that are used are within the contract of
    -- disk.c (they are while they are in the cache), for an inode in use, read_file of one byte or
    -- more within the size of the file and below 2^31, where the blocks lie in the first two
    -- levels of the tree, returns the number of bytes; the buffer holds the bytes of the blocks
    -- there, and is as before elsewhere, and no block changes.
    pub read_file-IsRead :
        (buf : Block) (size offset : ℕ) (s : Fs State)
        → Readable s
        → 0 < size
        → offset + size ≤ (node_at v inum).size
        → offset + size < 2 ^ 31
        → ((k : ℕ) → offset / 4096 ≤ k → 4096 * k < offset + size → HasBlock super v inum k (ids k))
        → Returns
            (λ r s'. IsRead (file_byte v ids) buf 0 size offset r.0 r.1 × Readable s')
            (read_file ops junk inum buf size offset s)
    unfolding read_file
    read_file-IsRead buf size offset s r some_bytes le lt has =
        let (s1, e1, r1) = super_lem s r in
        let (s2, e2, r2) = size_lem s1 r1 in
        let c = range-Covers offset size some_bytes lt in
        let whole : 4096 * (offset / 4096) + offset % 4096 ≡ offset = omega arith in
        let t1 : leb (2 ^ 31) size ≡ false = ground arith in
        let t2 : ((node_at v inum).size == 0) ≡ false = ground arith in
        let t3 : leb (2 ^ 31) offset ≡ false = ground arith in
        let t4 : ltb (node_at v inum).size offset ≡ false = ground arith in
        let t5 : leb (2 ^ 31) (offset + size) ≡ false = ground arith in
        let t6 : ltb (node_at v inum).size (offset + size) ≡ false = ground arith in
        let bs : super.blocksize ≡ 4096 = rw (← r.super_same) r.has.laid.blocksize in
        rw (e1, t1, e2, t2, t3, t4, t5, t6, range_lem super inum buf size offset s2 bs)
          (subst
            (λ pos.
              Returns {A = ℕ × Block}
                (λ r s'. IsRead (file_byte v ids) buf 0 size pos r.0 r.1 × Readable s')
                (read_blocks ops junk 4096 inum (range_rounds offset size) (offset / 4096)
                  (offset % 4096) size (at_most (4096 - offset % 4096) size) 0 junk buf s2))
            whole
            (read_blocks-IsRead (range_rounds offset size) (offset / 4096) (offset % 4096) size 0
              junk buf s2 r2 (λ k ge lt'. has k ge (omega (arith, c.least))) c (omega arith)))
