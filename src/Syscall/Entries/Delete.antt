-- ===== src/Syscall/Entries/Delete.antt =====
-- delete_dirent of syscall.c against the entries that the directory holds.
use mathlib.Core.Path.{subst}
use pcd_file_system.Prelude.{
  ℕ, zero, suc, ◌+◌, ◌-◌, ◌*◌, ◌%◌, ◌^◌, ◌≤◌, ◌<◌, ◌≡◌, ◌≢◌, inl, inr, sym, ◌∙◌, Bool, true, false,
  List, some, arith, ltb, ◌==◌, Bool-cases,
}
use pcd_file_system.Prelude.Run.{Returns, returns, bind_ok}
use pcd_file_system.Block.{Block, set_word, set_byte}
use pcd_file_system.Block.Words.{word-set_word}
use pcd_file_system.Disk.Contract.{DiskOps, IsDisk}
use pcd_file_system.Sb.{Sb}
use pcd_file_system.Db.{uint_max}
use pcd_file_system.Inode.{Fs, Inode}
use pcd_file_system.Inode.Blocks.Find.{IsIndexed}
use pcd_file_system.Inode.Files.Read.{file_byte}
use pcd_file_system.Inode.Writes.Blocks.{AreBlocks, Writable, Writable-same}
use pcd_file_system.Inode.Writes.InPlace.{Outcome}
use pcd_file_system.Inode.Writes.Whole.{write_file-Written}
use pcd_file_system.Dir.{name_off, entry_inum, same_name}
use pcd_file_system.Syscall.Lookup.First.{
  entry_at, same_name_cong, entry_inum_cong, num_entries_whole, IsFirst, HasEntries,
  size_or_zero_lem, entry_lem,
}
use pcd_file_system.Syscall.Entries.{cleared_entry, delete_entry, delete_dirent}

-- the name and the inum of the entry that is written
cleared_entry-name : (b : Block) → cleared_entry b name_off ≡ 0
unfolding cleared_entry set_word set_byte
cleared_entry-name b = ground arith

cleared_entry-inum : (b : Block) → entry_inum (cleared_entry b) ≡ uint_max
unfolding cleared_entry entry_inum
cleared_entry-inum b = word-set_word (set_byte b name_off 0) 0 uint_max

module _ (ops : DiskOps) (disk : IsDisk ops) (junk : Block) (super : Sb) (ix : IsIndexed super)
    (inum : ℕ) (n : Inode) (ids : ℕ → ℕ) (blocks : ℕ)
    (are : AreBlocks ops disk junk super ids blocks) where
  open ops use {State}

  abbrev On : (ℕ → Block) → Fs State → Type 0
  On v s = Writable ops disk junk super ix inum n ids blocks are v s

  abbrev entry_of : (ℕ → Block) → ℕ → Block
  entry_of v k = entry_at (file_byte v ids) k

  -- The entry `k` was taken out: it is returned, it has no name and the inum -1 now, and the other
  -- entries and the blocks of other files are as they were.
  pub record TakenOut (v : ℕ → Block) (count k : ℕ) (out : Block) (s : Fs State) : Type 0 where
    pub returned_entry : (o : ℕ) → o < 264 → out o ≡ entry_of v k o
    pub disk_after : ℕ → Block
    pub on : On disk_after s
    pub no_name : entry_of disk_after k name_off ≡ 0
    pub no_inum : entry_inum (entry_of disk_after k) ≡ uint_max
    pub outside : (a : ℕ) → ((j : ℕ) → j < blocks → ids j ≢ a) → disk_after a ≡ v a
    pub others : (j o : ℕ) → j < count → j ≢ k → o < 264 → entry_of disk_after j o ≡ entry_of v j o

  taken_out :
      (v : ℕ → Block) (count k : ℕ) (out : Block) (r : ℕ) (s : Fs State)
      → k < count
      → 264 * count ≤ 4096 * blocks
      → ((o : ℕ) → o < 264 → out o ≡ entry_of v k o)
      → Outcome ops disk junk super ix inum n ids blocks are v
          (cleared_entry out)
          0
          (k * 264)
          264
          r
          s
      → TakenOut v count k out s
  unfolding entry_at
  taken_out v count k out r s lt room same o =
      let byte : (i : ℕ)
          → i < 264
          → file_byte o.disk_after ids (k * 264 + i) ≡ cleared_entry out i =
        λ i i_lt.
          let index : 0 + i ≡ i = omega arith in
          subst (λ x. file_byte o.disk_after ids (k * 264 + i) ≡ cleared_entry out x) index
            (o.written.bytes i i_lt) in
      record {
        returned_entry = same;
        disk_after = o.disk_after;
        on = o.writable;
        no_name = byte 5 (omega arith) ∙ cleared_entry-name out;
        no_inum =
            entry_inum_cong (entry_of o.disk_after k) (cleared_entry out) byte
            ∙ cleared_entry-inum out;
        outside = o.written.outside;
        others = λ j i j_lt ne i_lt.
            o.written.others (j * 264 + i) (omega arith) (elim (Bool-cases (ltb j k)) [
              | inl before ↦ inl (ground arith)
              | inr after ↦ inr (ground arith)
            ]);
      }

  module _ (v : ℕ → Block) (target : List ℕ) (named : ℕ → Bool) (count k : ℕ)
      (d : HasEntries ops disk junk super ix v inum ids target named count)
      (first : IsFirst named count k) (node_size : n.size ≡ 264 * count)
      (room : 264 * count ≤ 4096 * blocks) (room1 : 264 * count ≤ super.filesize)
      (room2 : 264 * count ≤ super.max_file_size) (depth : ℕ) where
    delete_entry-TakenOut :
        (rounds start : ℕ) (buf : Block) (s : Fs State)
        → On v s
        → 2 ≤ start
        → start + rounds ≡ count
        → start ≤ k
        → Returns
            (TakenOut v count k)
            (delete_entry ops junk (suc depth) rounds start inum buf target s)
    unfolding delete_entry
    delete_entry-TakenOut zero start buf s w ge total le =
        let below = first.below in absurd (omega arith)
    delete_entry-TakenOut (suc rounds) start buf s w ge total le =
        let lt : start < count = omega arith in
        let (m, out, s', e, same, r') =
          entry_lem ops disk junk super ix v inum ids count d.directory start buf s w.readable lt in
        let tested : same_name out name_off target ≡ some (named start) =
          same_name_cong out (entry_of v start) name_off target same ∙ d.names start ge lt in
        let w' = Writable-same ops disk junk super ix inum n ids blocks are v s s' w r' in
        let off : start * 264 % 2 ^ 32 ≡ start * 264 = omega (arith, d.directory.small) in
        elim (Bool-cases (start == k)) [
          | inl here ↦
              let at : k ≡ start = ground arith in
              let hit : named start ≡ true = subst (λ i. named i ≡ true) at first.hit in
              let written =
                write_file-Written ops disk junk super ix inum n ids blocks are depth v
                  (cleared_entry out) 264 (start * 264) s' w' (omega arith)
                  (rw node_size (omega arith)) (rw node_size room)
                  (omega (arith, d.directory.small)) (omega arith) (omega arith) in
              rw (e, tested, hit, off)
                (bind_ok written λ r s2 o. returns (
                  subst (λ i. TakenOut v count i out s2) (sym at)
                    (taken_out v count start out r s2 lt room same o)))
          | inr there ↦
              let before : start < k = ground arith in
              let other : named start ≡ false = first.before start ge before in
              let next : (start + 1) % 2 ^ 32 ≡ start + 1 = omega (arith, d.directory.small) in
              rw (e, tested, other, next)
                (delete_entry-TakenOut rounds (start + 1) out s' w' (omega arith) (omega arith)
                  (omega arith))
        ]

    -- On a disk that mkfs laid out, where the blocks that are used are within the contract of
    -- disk.c (they are while they are in the cache), for a directory in use whose blocks can be
    -- written as a file's, where an entry from the third on is the first with the name,
    -- delete_dirent with room for a call of write_file returns that entry; it has no name and the
    -- inum -1 then, and the other entries are as they were.
    pub delete_dirent-TakenOut :
        (s : Fs State)
        → On v s
        → Returns (TakenOut v count k) (delete_dirent ops junk (suc depth) inum target s)
    unfolding delete_dirent
    delete_dirent-TakenOut s w =
        let from = first.from in
        let below = first.below in
        let (s', e, r') =
          size_or_zero_lem ops disk junk super ix v inum ids count d.directory s w.readable in
        let w' = Writable-same ops disk junk super ix inum n ids blocks are v s s' w r' in
        rw (e, d.directory.size, num_entries_whole count)
          (delete_entry-TakenOut (count - 2) 2 junk s' w' (omega arith) (omega arith) from)
