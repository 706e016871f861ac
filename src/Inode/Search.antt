-- ===== src/Inode/Search.antt =====
-- What find_free_inode does to the bitmap of the inodes.
use mathlib.Core.Path.{subst}
use pcd_file_system.Prelude.{
  ℕ, zero, suc, ◌+◌, ◌-◌, ◌*◌, ◌%◌, ◌^◌, ◌≤◌, ◌<◌, ◌≡◌, ◌≢◌, refl, ap, none, some, arith, ltb, ◌==◌,
  ◌∙◌, if◌then◌else◌, Bool-cases, Option-cases, inl, inr, fun_ext,
}
use pcd_file_system.Prelude.Run.{mono_both, Ends, returns, fails}
use pcd_file_system.Block.{Block, set_byte}
use pcd_file_system.Disk.Contract.{DiskOps, IsDisk}
use pcd_file_system.Sb.{Sb}
use pcd_file_system.Sb.Store.{super_of-same}
use pcd_file_system.Inode.{Fs}
use pcd_file_system.Inode.Bitmap.{
  find_free_in, find_clear, find_free_from, find_free_inode, take_inode,
}
use pcd_file_system.Inode.Store.{
  IsLaidOut, bitmap_bid, bit_at, blocks, super', load_super_lem, read_block_lem, write_block_lem,
}

-- the entry found is the first that is 0
find_clear-some :
    (b : Block) (rounds i j : ℕ)
    → find_clear b rounds i ≡ some j
    → (i ≤ j) × (j < i + rounds) × (b j ≡ 0) × ((k : ℕ) → i ≤ k → k < j → b k ≢ 0)
unfolding find_clear
find_clear-some b zero i j h = cc
find_clear-some b (suc rounds) i j h = elim (Bool-cases (b i == 0)) [
  | inl clear ↦
      let e : i ≡ j = ground arith in
      let value : b i ≡ 0 = ground arith in
      (omega arith, omega arith, rw (← e) value, λ k le lt. absurd (omega arith))
  | inr used ↦
      let found : find_clear b rounds (i + 1) ≡ some j = ground arith in
      let (le, lt, value, first) = find_clear-some b rounds (i + 1) j found in
      let value_i : b i ≢ 0 = ground arith in
      (
        omega arith,
        omega arith,
        value,
        λ k le' lt'. elim (Bool-cases (k == i)) [
          | inl e ↦ let same : k ≡ i = ground arith in rw same value_i
          | inr ne ↦ first k (ground arith) lt'
        ],
      )
]

find_clear-none :
    (b : Block) (rounds i : ℕ)
    → find_clear b rounds i ≡ none
    → (k : ℕ) → i ≤ k
    → k < i + rounds
    → b k ≢ 0
unfolding find_clear
find_clear-none b zero i h k le lt = absurd (omega arith)
find_clear-none b (suc rounds) i h k le lt = elim (Bool-cases (b i == 0)) [
  | inl clear ↦ absurd (ground arith)
  | inr used ↦ elim (Bool-cases (k == i)) [
    | inl e ↦ ground arith
    | inr ne ↦ find_clear-none b rounds (i + 1) (ground arith) k (ground arith) (omega arith)
  ]
]

-- the bits of one block
bit_block :
    (v : ℕ → Block) (curr j : ℕ)
    → curr * 4096 ≤ j
    → j < (curr + 1) * 4096
    → bit_at v j ≡ v (1 + curr) (j % 4096)
unfolding bit_at
bit_block v curr j le lt =
    let here : bitmap_bid j ≡ 1 + curr = omega arith in ap (λ a. v a (j % 4096)) here

module _ (ops : DiskOps) (disk : IsDisk ops) (junk : Block) where
  open ops use {State}
  open disk use {Good, view}

  abbrev blocks' : Fs State → ℕ → Block
  blocks' s = blocks ops disk junk s

  -- The bits from `low` on were searched: `r` is the first that was clear, and it is set now.
  pub record Takes (v : ℕ → Block) (low r : ℕ) (s' : Fs State) : Type 0 where
    pub good : Good s'.disk
    pub clear : bit_at v r ≡ 0
    pub small : r < 40960
    pub first : (j : ℕ) → low ≤ j → j < r → bit_at v j ≢ 0
    pub marked :
        (a : ℕ) → blocks' s' a ≡ (if a == bitmap_bid r then set_byte (v a) (r % 4096) 1 else v a)

  -- None of the bits was clear, and no block has changed.
  pub record Full (v : ℕ → Block) (low : ℕ) (s' : Fs State) : Type 0 where
    pub good : Good s'.disk
    pub set : (j : ℕ) → low ≤ j → j < 40960 → bit_at v j ≢ 0
    pub same : (a : ℕ) → blocks' s' a ≡ v a

  -- A search from the next block on is one from here where the bits of this block are set.
  module _ (v : ℕ → Block) (curr : ℕ) (set : (j : ℕ) → j < 4096 → v (1 + curr) j ≢ 0) where
    set_here : (j : ℕ) → curr * 4096 ≤ j → j < (curr + 1) * 4096 → bit_at v j ≢ 0
    set_here j le lt = rw (bit_block v curr j le lt) (set (j % 4096) (omega arith))

    Takes-back :
        (r : ℕ) (s' : Fs State) → Takes v ((curr + 1) * 4096) r s' → Takes v (curr * 4096) r s'
    Takes-back r s' t = record {
      good = t.good;
      clear = t.clear;
      small = t.small;
      first = λ j le lt. elim (Bool-cases (ltb j ((curr + 1) * 4096))) [
        | inl here ↦ set_here j le (ground arith)
        | inr later ↦ t.first j (ground arith) lt
      ];
      marked = t.marked;
    }

    Full-back : (s' : Fs State) → Full v ((curr + 1) * 4096) s' → Full v (curr * 4096) s'
    Full-back s' f = record {
      good = f.good;
      set = λ j le lt. elim (Bool-cases (ltb j ((curr + 1) * 4096))) [
        | inl here ↦ set_here j le (ground arith)
        | inr later ↦ f.set j (ground arith) lt
      ];
      same = f.same;
    }

  Takes-new :
      (v : ℕ → Block) (curr i : ℕ) (s' : Fs State)
      → curr < 10
      → i < 4096
      → v (1 + curr) i ≡ 0
      → ((k : ℕ) → 0 ≤ k → k < i → v (1 + curr) k ≢ 0)
      → Good s'.disk
      → ((a : ℕ) → blocks' s' a ≡ (if a == 1 + curr then set_byte (v (1 + curr)) i 1 else v a))
      → Takes v (curr * 4096) (i + curr * 4096) s'
  Takes-new v curr i s' c_lt i_lt value before g new =
      let at : (i + curr * 4096) % 4096 ≡ i = omega arith in
      let bid : bitmap_bid (i + curr * 4096) ≡ 1 + curr = omega arith in
      record {
        good = g;
        clear =
            bit_block v curr (i + curr * 4096) (omega arith) (omega arith)
            ∙ ap (λ o. v (1 + curr) o) at
            ∙ value;
        small = omega arith;
        first = λ j le lt.
            rw (bit_block v curr j le (omega arith))
              (before (j % 4096) (omega arith) (omega arith));
        marked = λ a.
            rw (at, bid)
              (elim (Bool-cases (a == 1 + curr)) [
                | inl e ↦
                    let here : a ≡ 1 + curr = ground arith in
                    rw here (new (1 + curr) ∙ ground arith)
                | inr ne ↦ rw ne (new a ∙ ground arith)
              ]);
      }

  module _ (super : Sb) (laid : IsLaidOut super)
      (near : (i : ℕ) → i < 10 → disk.Within (1 + i)) where
    in_range :
        (curr : ℕ) (s : Fs State)
        → super' ops disk junk s ≡ super
        → curr < 10
        → 1 + curr ≤ (super' ops disk junk s).num_block
    in_range curr s e lt = rw e (omega (arith, laid.num_block))

    bid_lem : (curr : ℕ) → curr < 10 → (super.start_bitmap + curr) % 2 ^ 32 ≡ 1 + curr
    bid_lem curr lt = rw laid.start_bitmap (omega arith)

    search :
        (rounds curr : ℕ) (s : Fs State)
        → Good s.disk
        → super' ops disk junk s ≡ super
        → curr + rounds ≡ 10
        → Ends
            (λ r. Takes (blocks' s) (curr * 4096) r)
            (Full (blocks' s) (curr * 4096))
            (find_free_from ops junk super rounds curr s)
    unfolding find_free_from find_free_in take_inode
    search zero curr s g e sum =
        fails record { good = g; set = λ j le lt. absurd (omega arith); same = λ a. refl }
    search (suc rounds) curr s g e sum =
        let c_lt : curr < 10 = omega arith in
        let (d1, e1, g1, same1) =
          read_block_lem ops disk junk s g (1 + curr) (in_range curr s e c_lt) (near curr c_lt)
            s.bitmap in
        let b = blocks' s (1 + curr) in
        let s1 : Fs State = record s { disk = d1; bitmap = b } in
        let sup1 = super_of-same ops disk junk s.disk d1 (same1 0) ∙ e in
        let size : find_clear b super.blocksize 0 ≡ find_clear b 4096 0 =
          ap (λ n. find_clear b n 0) laid.blocksize in
        rw (bid_lem curr c_lt, e1, size)
          (elim (Option-cases (find_clear b 4096 0)) [
            | inl none_clear ↦
                let v_same : blocks' s1 ≡ blocks' s = fun_ext same1 in
                let set : (j : ℕ) → j < 4096 → b j ≢ 0 =
                  λ j lt. find_clear-none b 4096 0 none_clear j (omega arith) (omega arith) in
                rw none_clear (
                  mono_both
                    (subst
                      (λ v.
                        Ends (λ r. Takes v ((curr + 1) * 4096) r) (Full v ((curr + 1) * 4096))
                          (find_free_from ops junk super rounds (curr + 1) s1))
                      v_same (search rounds (curr + 1) s1 g1 sup1 (omega arith)))
                    (Takes-back (blocks' s) curr set) (Full-back (blocks' s) curr set))
            | inr (i, found) ↦
                let (le, lt, value, before) = find_clear-some b 4096 0 i found in
                let (d2, e2, g2, new) =
                  write_block_lem ops disk junk (record s1 { bitmap = set_byte b i 1 }) g1
                    (1 + curr) (in_range curr s1 sup1 c_lt) (near curr c_lt) (set_byte b i 1) in
                let at : i + curr * super.blocksize ≡ i + curr * 4096 =
                  ap (λ n. i + curr * n) laid.blocksize in
                rw (found, bid_lem curr c_lt, e2, at)
                  (returns (
                    Takes-new (blocks' s) curr i _ (omega arith) (omega arith) value before g2
                      (λ a. new a ∙ ground (arith, same1 a))))
          ])

  -- On a disk that mkfs laid out, find_free_inode returns the first inode whose byte in the bitmap
  -- is 0, and sets that byte to 1 and no other; where no byte is 0 it returns -1, and no block has
  -- changed.
  pub find_free_inode-Takes :
      (s : Fs State)
      → Good s.disk
      → IsLaidOut (super' ops disk junk s)
      → ((i : ℕ) → i < 10 → disk.Within (1 + i))
      → Ends (λ r. Takes (blocks' s) 0 r) (Full (blocks' s) 0) (find_free_inode ops junk s)
  unfolding find_free_inode
  find_free_inode-Takes s g laid near =
      let (d1, e1, g1, same1) = load_super_lem ops disk junk s g in
      let super = super' ops disk junk s in
      let s1 : Fs State = record s { disk = d1; super = super } in
      let sup1 = super_of-same ops disk junk s.disk d1 (same1 0) in
      let v_same : blocks' s1 ≡ blocks' s = fun_ext same1 in
      let rounds : (super.start_ilist + 2 ^ 32 - super.start_bitmap) % 2 ^ 32 ≡ 10 =
        rw (laid.start_ilist, laid.start_bitmap) in
      rw (e1, rounds)
        (subst (λ v. Ends (λ r. Takes v 0 r) (Full v 0) (find_free_from ops junk super 10 0 s1))
          v_same (search super laid near 10 0 s1 g1 sup1 refl))
