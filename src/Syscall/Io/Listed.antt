-- ===== src/Syscall/Io/Listed.antt =====
-- pcd_readdir of syscall.c against the entries that the directory holds.
use pcd_file_system.Prelude.{ℕ, zero, suc, ◌+◌, ◌<◌, ◌≡◌, Bool, ◌==◌, if◌then◌else◌}
use pcd_file_system.Block.{Block}
use pcd_file_system.Disk.Contract.{DiskOps, IsDisk}
use pcd_file_system.Sb.{Sb}
use pcd_file_system.Inode.Blocks.Find.{IsIndexed}
use pcd_file_system.Dir.{name_off}
use pcd_file_system.Syscall.Lookup.First.{entry, IsDirectory}
use pcd_file_system.Syscall.Io.{Filled, filled_in}

module _ {Buf : Type 0} (filler : Buf → Filled → Bool × Buf) where
  -- The entries from `k` on that have a name are given to the filler, until it is full.
  unfoldable pub listed : (ℕ → Block) → ℕ → ℕ → Buf → Buf
  listed entries zero k out = out
  listed entries (suc rounds) k out =
      let (full, more) = filler out (filled_in (entries k)) in
      if entries k name_off == 0
      then listed entries rounds (k + 1) out
      else if full
      then more
      else listed entries rounds (k + 1) more

  -- The filler reads a name within its entry.
  abbrev pub ReadsName : Type 0
  ReadsName =
      (out : Buf) (f g : Filled)
      → ((o : ℕ) → o < 259 → f.name o ≡ g.name o)
      → f.st_ino ≡ g.st_ino
      → f.st_mode ≡ g.st_mode
      → filler out f ≡ filler out g

  module _ (ops : DiskOps) (disk : IsDisk ops) (junk : Block) (super : Sb) (ix : IsIndexed super)
      (v : ℕ → Block) (reads : ReadsName) where
    open ops use {State}

    module _ (inum : ℕ) (ids : ℕ → ℕ) (count : ℕ)
        (d : IsDirectory ops disk junk super ix v inum ids count) where
      abbrev entries : ℕ → Block
      entries k = entry ops disk junk super ix v inum ids k
