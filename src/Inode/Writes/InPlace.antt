-- ===== src/Inode/Writes/InPlace.antt =====
-- the loop of write_file of inode.c where the bytes that are written are in the file already.
use mathlib.Core.Path.{subst}
use pcd_file_system.Prelude.{
  ℕ, zero, suc, ◌+◌, ◌-◌, ◌*◌, ◌%◌, ◌^◌, ◌≤◌, ◌<◌, ◌≡◌, ◌⊎◌, inl, inr, refl, sym, false, arith, ltb,
}
use pcd_file_system.Prelude.Run.{Returns, returns, ok, mono}
use pcd_file_system.Block.{Block}
use pcd_file_system.Disk.Contract.{DiskOps, IsDisk}
use pcd_file_system.Sb.{Sb}
use pcd_file_system.Inode.{Fs, Inode}
use pcd_file_system.Inode.Store.{blocks, super'}
use pcd_file_system.Inode.Blocks.Find.{IsIndexed}
use pcd_file_system.Inode.Files.{copy, at_most}
use pcd_file_system.Inode.Files.Read.{IsPart, at_most-IsPart, Covers, next_pos, next-Covers}
use pcd_file_system.Inode.Files.Bytes.{block_lem}
use pcd_file_system.Inode.Writes.{grow, lengthen, write_blocks}
use pcd_file_system.Inode.Writes.Written.{
  put, IsWritten, IsWritten-nothing, IsWritten-then, IsWritten-from, IsWritten-copy,
}
use pcd_file_system.Inode.Writes.Blocks.{
  AreBlocks, Writable, Writable-HasBlock, Writable-same, write_lem,
}

-- where the next round writes
next_place :
    (num off size n at offset rounds : ℕ)
    → IsPart off size n
    → Covers (suc rounds) num off size
    → (4096 * num + off ≡ offset + at) ⊎ (suc rounds ≡ 0)
    → (4096 * (num + 1) + 0 ≡ offset + (at + n)) ⊎ (rounds ≡ 0)
next_place num off size n at offset rounds p c (inr none) = absurd (omega arith)
next_place num off size n at offset rounds p c (inl here) = elim p.full [
  | inl full ↦ inl (omega arith)
  | inr all ↦ inr (omega (arith, c.least, p.inside, all))
]

module _ (ops : DiskOps) (disk : IsDisk ops) (junk : Block) where
  open ops use {State}
  open disk use {Good, view}

  abbrev blocks' : Fs State → ℕ → Block
  blocks' s = blocks ops disk junk s

  abbrev super'' : Fs State → Sb
  super'' s = super' ops disk junk s

  module _ (super : Sb) (ix : IsIndexed super) (inum : ℕ) (nd : Inode) (ids : ℕ → ℕ) (count : ℕ)
      (are : AreBlocks ops disk junk super ids count) where
    -- Where the bytes are in the file, a round adds no block and leaves the size as it is.
    grow_lem : (end size : ℕ) (s : Fs State) → end ≤ size → grow ops junk inum end size s ≡ ok tt s
    unfolding grow
    grow_lem end size s le = let inside : ltb size end ≡ false = ground arith in rw inside refl

    lengthen_lem :
        (end written size : ℕ) (s : Fs State)
        → end ≤ size
        → lengthen ops junk inum end written size s ≡ ok size s
    unfolding lengthen
    lengthen_lem end written size s le =
        let inside : ltb size end ≡ false = ground arith in rw inside refl

    -- What the loop returns, and leaves.
    pub record Outcome (v : ℕ → Block) (buf : Block) (at pos size r : ℕ) (s : Fs State)
        : Type 0 where
      pub length : r ≡ at + size
      pub disk_after : ℕ → Block
      pub writable : Writable ops disk junk super ix inum nd ids count are disk_after s
      pub written : IsWritten ids count v disk_after buf at pos size

    -- a round, and the rest
    Outcome-round :
        (v v1 : ℕ → Block) (buf : Block) (at pos n pos' size r : ℕ) (s : Fs State)
        → n ≤ size
        → pos + size ≤ 4096 * count
        → (pos' ≡ pos + n) ⊎ (n ≡ size)
        → IsWritten ids count v v1 buf at pos n
        → Outcome v1 buf (at + n) pos' (size - n) r s
        → Outcome v buf at pos size r s
    Outcome-round v v1 buf at pos n pos' size r s fits le from first o =
        let whole : n + (size - n) ≡ size = omega arith in
        let rest : IsWritten ids count v1 o.disk_after buf (at + n) (pos + n) (size - n) =
          IsWritten-from ids count v1 o.disk_after buf (at + n) (pos + n) pos' (size - n)
            (elim from [ inl e ↦ inl e | inr e ↦ inr (omega arith) ]) o.written in
        record {
          length = omega (arith, o.length);
          disk_after = o.disk_after;
          writable = o.writable;
          written =
              subst (λ z. IsWritten ids count v o.disk_after buf at pos z) whole
                (IsWritten-then ids count v v1 o.disk_after buf at pos n (size - n) (omega arith)
                  first rest);
        }

    pub write_blocks-Written :
        (v : ℕ → Block) (rounds num off size at offset file_size : ℕ) (block buf : Block)
        (s : Fs State)
        → Writable ops disk junk super ix inum nd ids count are v s
        → num + rounds ≤ count
        → Covers rounds num off size
        → (4096 * num + off ≡ offset + at) ⊎ (rounds ≡ 0)
        → offset + at + size ≤ file_size
        → offset + at + size < 2 ^ 31
        → Returns (Outcome v buf at (4096 * num + off) size) (
            write_blocks ops junk 4096 inum buf offset rounds num off size
              (at_most (4096 - off) size)
              at
              file_size
              block
              s)
    unfolding write_blocks
    write_blocks-Written v zero num off size at offset file_size block buf s w le c pos inside lt =
        let none : size ≡ 0 = omega (arith, c.enough) in
        let nothing = IsWritten-nothing ids count v buf at (4096 * num + off) in
        returns (record {
          length = omega arith;
          disk_after = v;
          writable = w;
          written =
              subst (λ z. IsWritten ids count v v buf at (4096 * num + off) z) (sym none) nothing;
        })
    write_blocks-Written v (suc rounds) num off size at offset file_size block buf s w le c pos
          inside lt =
        let n = at_most (4096 - off) size in
        let p = at_most-IsPart off size c.off_lt in
        let fits = p.fits in
        let (s1, s2, e1, e2, r2) =
          block_lem ops disk junk super ix v inum ids s num block w.readable (
            Writable-HasBlock ops disk junk super ix inum nd ids count are v s num w
              (omega arith)) in
        let new = copy (v (ids num)) off buf at n in
        let (s3, e3, w3) =
          write_lem ops disk junk super ix inum nd ids count are v s2 num new
            (Writable-same ops disk junk super ix inum nd ids count are v s s2 w r2)
            (omega arith) in
        let e_at : (at + n) % 2 ^ 32 ≡ at + n = omega arith in
        let e_end : ((offset + at) % 2 ^ 32 + n) % 2 ^ 32 ≡ offset + at + n = omega arith in
        let e_size : (size + 2 ^ 32 - n) % 2 ^ 32 ≡ size - n = omega arith in
        let next = next-Covers rounds num off size n c p in
        let pos' : (4096 * (num + 1) + 0 ≡ offset + (at + n)) ⊎ (rounds ≡ 0) =
          next_place num off size n at offset rounds p c pos in
        let rest =
          write_blocks-Written (put v (ids num) new) rounds (num + 1) 0 (size - n) (at + n) offset
            file_size new buf s3 w3 (omega arith) next pos' (omega arith) (omega arith) in
        rw
          (
            e_end,
            grow_lem (offset + at + n) file_size s (omega arith),
            e1,
            e2,
            e3,
            lengthen_lem (offset + at + n) n file_size s3 (omega arith),
            e_size,
            e_at,
          )
          (mono rest λ r s' o.
            Outcome-round v (put v (ids num) new) buf at (4096 * num + off) n (4096 * (num + 1) + 0)
              size r s' fits (omega (arith, c.enough)) (next_pos num p)
              (IsWritten-copy ids count v buf num off at n are.distinct (omega arith) p.inside) o)
