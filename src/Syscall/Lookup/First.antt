-- ===== src/Syscall/Lookup/First.antt =====
-- find_inode_index of syscall.c against the entries that a directory holds.
use mathlib.Core.Path.{subst}
use pcd_file_system.Prelude.{
  ℕ, zero, suc, ◌+◌, ◌-◌, ◌*◌, ◌%◌, ◌^◌, ◌≤◌, ◌<◌, ◌≡◌, ◌⊎◌, inl, inr, refl, sym, ap, ◌∙◌, Bool,
  true, false, List, [], ◌∷◌, some, arith, ltb, ◌==◌, Bool-cases,
}
use pcd_file_system.Prelude.Run.{Ends, returned, returns, fails, ok}
use pcd_file_system.Block.{Block, word}
use pcd_file_system.Disk.Contract.{DiskOps, IsDisk}
use pcd_file_system.Sb.{Sb}
use pcd_file_system.Db.{uint_max}
use pcd_file_system.Inode.{Fs}
use pcd_file_system.Inode.Store.{node_at}
use pcd_file_system.Inode.Access.{read_field-node_at}
use pcd_file_system.Inode.Fields.{inode_read_size}
use pcd_file_system.Inode.Files.{read_file}
use pcd_file_system.Inode.Blocks.Find.{IsIndexed}
use pcd_file_system.Inode.Files.Read.{file_byte}
use pcd_file_system.Inode.Files.Bytes.{HasBlock, Readable, Readable-same, read_file-IsRead}
use pcd_file_system.Dir.{name_off, entry_inum, same_name}
use pcd_file_system.Syscall.{unless_minus_one}
use pcd_file_system.Syscall.Lookup.{
  num_entries, or_zero, size_or_zero, find_entry, find_inode_index,
}

-- the bytes of entry `k`
unfoldable pub entry_at : (ℕ → ℕ) → ℕ → Block
entry_at file k o = file (k * 264 + o)

-- strcmp and the inum look at the bytes of the entry only.
pub same_name_cong :
    (b b' : Block) (o : ℕ) (target : List ℕ)
    → ((j : ℕ) → j < 264 → b j ≡ b' j)
    → same_name b o target ≡ same_name b' o target
unfolding same_name
same_name_cong b b' o [] same = elim (Bool-cases (ltb o 264)) [
  | inl inside ↦ rw (inside, same o (ground arith)) refl
  | inr outside ↦ rw outside refl
]
same_name_cong b b' o (c ∷ cs) same = elim (Bool-cases (ltb o 264)) [
  | inl inside ↦ rw (inside, same o (ground arith), same_name_cong b b' (o + 1) cs same) refl
  | inr outside ↦ rw outside refl
]

pub entry_inum_cong :
    (b b' : Block) → ((j : ℕ) → j < 264 → b j ≡ b' j) → entry_inum b ≡ entry_inum b'
unfolding entry_inum word
entry_inum_cong b b' same =
    rw (same 0 (omega arith), same 1 (omega arith), same 2 (omega arith), same 3 (omega arith))

pub num_entries_whole : (count : ℕ) → num_entries (264 * count) ≡ count
unfolding num_entries
num_entries_whole count = omega arith

-- Of the entries 2 to count - 1, `k` is the first that is named.
pub record IsFirst (named : ℕ → Bool) (count k : ℕ) : Type 0 where
  pub from : 2 ≤ k
  pub below : k < count
  pub hit : named k ≡ true
  pub before : (j : ℕ) → 2 ≤ j → j < k → named j ≡ false

module _ (ops : DiskOps) (disk : IsDisk ops) (junk : Block) (super : Sb) (ix : IsIndexed super)
    (v : ℕ → Block) (inum : ℕ) (ids : ℕ → ℕ) where
  open ops use {State}

  abbrev pub Ready : Fs State → Type 0
  Ready s = Readable ops disk junk super ix v inum ids s

  abbrev pub entry : ℕ → Block
  entry k = entry_at (file_byte v ids) k

  -- A directory of `count` entries that can be read.
  pub record IsDirectory (count : ℕ) : Type 0 where
    pub size : (node_at v inum).size ≡ 264 * count
    pub small : 264 * count < 2 ^ 31
    pub has : (k : ℕ) → 4096 * k < 264 * count → HasBlock ops disk junk super v inum k (ids k)

  -- The names end in the entries, and `named` says which of them are the one.
  pub record HasEntries (target : List ℕ) (named : ℕ → Bool) (count : ℕ) : Type 0 where
    pub directory : IsDirectory count
    pub names : (k : ℕ) → 2 ≤ k → k < count → same_name (entry k) name_off target ≡ some (named k)

  -- the entry of the name is looked for: what is returned
  abbrev pub Hit : (ℕ → Bool) → ℕ → ℕ → Fs State → Type 0
  Hit named count r s = (k : ℕ) × IsFirst named count k × (r ≡ entry_inum (entry k)) × Ready s

  -- no entry has it, or the first that has it has the inum -1
  abbrev pub Miss : (ℕ → Bool) → ℕ → Fs State → Type 0
  Miss named count s =
      (((k : ℕ) → 2 ≤ k → k < count → named k ≡ false)
        ⊎ ((k : ℕ) × IsFirst named count k × (entry_inum (entry k) ≡ uint_max)))
      × Ready s

  module _ (count : ℕ) (d : IsDirectory count) where
    pub size_or_zero_lem :
        (s : Fs State)
        → Ready s
        → (s' : Fs State) × (size_or_zero ops junk inum s ≡ ok (node_at v inum).size s') × Ready s'
    unfolding size_or_zero or_zero inode_read_size
    size_or_zero_lem s r =
        let (n, s', e, w) = returned (read_field-node_at ops disk junk s inum r.has λ n. n.size) in
        let (value, g, same) = w in
        let size = value ∙ ap (λ w. (node_at w inum).size) r.same in
        (s', rw (e, size) refl, Readable-same ops disk junk super ix v inum ids s s' r g same)

    pub entry_lem :
        (k : ℕ) (buf : Block) (s : Fs State)
        → Ready s
        → k < count
        → (n : ℕ) × (out : Block) × (s' : Fs State) × (read_file ops junk inum buf 264
              (k * 264 % 2 ^ 32)
              s
            ≡ ok (n, out) s')
          × ((o : ℕ) → o < 264 → out o ≡ entry k o)
          × Ready s'
    unfolding entry_at
    entry_lem k buf s r lt =
        let off : k * 264 % 2 ^ 32 ≡ k * 264 = omega (arith, d.small) in
        let (got, s', e, w) = returned (
          read_file-IsRead ops disk junk super ix v inum ids buf 264 (k * 264) s r (omega arith)
            (rw d.size (omega arith)) (omega (arith, d.small)) λ j ge lt'. d.has j (omega arith)) in
        (
          got.0,
          got.1,
          s',
          subst (λ x. read_file ops junk inum buf 264 x s ≡ ok (got.0, got.1) s') (sym off) e,
          λ o lt'.
              let index : 0 + o ≡ o = omega arith in
              subst (λ i. got.1 i ≡ entry k o) index (w.0.bytes o lt'),
          w.1,
        )

  module _ (target : List ℕ) (named : ℕ → Bool) (count : ℕ)
      (d : HasEntries target named count) where
    returned_inum :
        (k : ℕ) (s : Fs State)
        → IsFirst named count k
        → Ready s
        → Ends (Hit named count) (Miss named count) (unless_minus_one (entry_inum (entry k)) s)
    unfolding unless_minus_one
    returned_inum k s first r = elim (Bool-cases (entry_inum (entry k) == uint_max)) [
      | inl none ↦ rw none (fails (inr (k, first, ground arith), r))
      | inr other ↦ rw other (returns (k, first, refl, r))
    ]

    find_entry-First :
        (rounds start : ℕ) (buf : Block) (s : Fs State)
        → Ready s
        → 2 ≤ start
        → start + rounds ≡ count
        → ((j : ℕ) → 2 ≤ j → j < start → named j ≡ false)
        → Ends
            (Hit named count)
            (Miss named count)
            (find_entry ops junk rounds start inum buf target s)
    unfolding find_entry
    find_entry-First zero start buf s r ge total before =
        fails (inl (λ k ge' lt. before k ge' (omega arith)), r)
    find_entry-First (suc rounds) start buf s r ge total before =
        let (n, out, s', e, same, r') = entry_lem count d.directory start buf s r (omega arith) in
        let tested : same_name out name_off target ≡ some (named start) =
          same_name_cong out (entry start) name_off target same ∙ d.names start ge (omega arith) in
        elim (Bool-cases (named start)) [
          | inl hit ↦
              let first : IsFirst named count start = record {
                from = ge;
                below = omega arith;
                hit = hit;
                before = before;
              } in
              rw (e, tested, hit, entry_inum_cong out (entry start) same)
                (returned_inum start s' first r')
          | inr other ↦
              let next : (start + 1) % 2 ^ 32 ≡ start + 1 = omega (arith, d.directory.small) in
              let before' : (j : ℕ) → 2 ≤ j → j < start + 1 → named j ≡ false = λ j ge' lt.
                elim (Bool-cases (j == start)) [
                  | inl here ↦
                      let e : start ≡ j = ground arith in subst (λ i. named i ≡ false) e other
                  | inr there ↦ before j ge' (ground arith)
                ] in
              rw (e, tested, other, next)
                (find_entry-First rounds (start + 1) out s' r' (omega arith) (omega arith) before')
        ]

    -- For a directory in use on a disk that mkfs laid out, with the blocks that are used within
    -- the contract of disk.c (they are while they are in the cache), whose entries can be read and
    -- whose names end in them, find_inode_index returns the inum of the first entry from the third
    -- on that has the name; it returns -1 where there is none, or where that inum is -1; no block
    -- changes.
    pub find_inode_index-First :
        (s : Fs State)
        → Ready s
        → Ends (Hit named count) (Miss named count) (find_inode_index ops junk inum target s)
    unfolding find_inode_index find_entry
    find_inode_index-First s r =
        let (s', e, r') = size_or_zero_lem count d.directory s r in
        let entries : num_entries (264 * count) ≡ count = num_entries_whole count in
        rw (e, d.directory.size, entries)
          (elim (Bool-cases (ltb count 2)) [
            | inl short ↦
                let none : count - 2 ≡ 0 = ground arith in
                rw none (fails (inl (λ k ge lt. absurd (ground arith)), r'))
            | inr long ↦
                find_entry-First (count - 2) 2 junk s' r' (omega arith) (ground arith)
                  (λ j ge lt. absurd (omega arith))
          ])
