-- ===== src/Disk/Cache/Full.antt =====
-- A cache with a block in each of its BUFFER_NUM buffers: the blocks 0 to 290 and 1291 to 1999.
use pcd_file_system.Prelude.{
  ℕ, ◌+◌, ◌-◌, ◌/◌, ◌%◌, ◌^◌, ◌<◌, ◌≡◌, refl, true, false, none, some, ap, fun_ext, ◌∷◌, [], arith,
  if◌then◌else◌, ◌==◌, ltb, sym, ◌∙◌, Bool-cases, inl, inr,
}
use pcd_file_system.Block.{Block, zero_block}
use pcd_file_system.Disk.Lru.{Lru}
use pcd_file_system.Disk.Hash.{HashNode, Table, hash_find, hash_func, find_in}
use pcd_file_system.Disk.Hash.Map.{entry}
use pcd_file_system.Disk.Device.{FileApi}
use pcd_file_system.Disk.Contract.{DiskOps, IsDisk}
use pcd_file_system.Disk.Cache.{Disk}
use pcd_file_system.Disk.Cache.Hits.{AreHeld, block_in, cached, cached-IsDisk}

-- a file that is as long as it has to be
abbrev file_api : FileApi
file_api = record {
  File = ℕ → Block;
  read_at = λ f o out. some (f (o / 4096));
  write_at = λ f o b. some (λ a. if a == o / 4096 then b else f a);
}

-- the block in a buffer
abbrev pub home : ℕ → ℕ
home i = if ltb i 291 then i else i + 1000

abbrev pub InCache : ℕ → Type 0
InCache b = home (b % 1000) ≡ b

abbrev full_table : Table
full_table i = entry (home i) i i ∷ []

abbrev full_list : Lru
full_list = record {
  node = λ i. record {
    buffer_id = i;
    block_id = home i;
    next = if i == 999 then none else some (i + 1);
    prev = if i == 0 then none else some (i - 1);
    dirty = false;
    in_hash = true;
  };
  head = some 0;
  tail = some 999;
}

-- the cache, in which the blocks hold `v`
abbrev pub full : (ℕ → Block) → Disk (ℕ → Block)
full v = record {
  dev = λ a. zero_block;
  lru = full_list;
  table = full_table;
  buffer = λ i. v (home i);
}

full-find :
    (b : ℕ)
    → hash_find b full_table ≡ (
        if home (b % 1000) == b then some (entry (home (b % 1000)) (b % 1000) (b % 1000)) else none)
unfolding hash_find hash_func find_in
full-find b = refl

full-home : (b : ℕ) (h : HashNode) → hash_find b full_table ≡ some h → home h.buffer_id ≡ b
full-home b h e = elim (Bool-cases (home (b % 1000) == b)) [
  | inl here ↦
      let it : some (entry (home (b % 1000)) (b % 1000) (b % 1000)) ≡ some h =
        sym (full-find b ∙ rw here refl) ∙ e in
      let same : entry (home (b % 1000)) (b % 1000) (b % 1000) ≡ h = cc in
      rw (← same) (ground arith)
  | inr other ↦
      let nothing : hash_find b full_table ≡ none = full-find b ∙ rw other refl in absurd cc
]

pub full-AreHeld : (v : ℕ → Block) → AreHeld InCache (full v)
full-AreHeld v = record {
  head = (0, refl);
  hit = λ b near.
      let here : (home (b % 1000) == b) ≡ true = ground arith in
      (entry (home (b % 1000)) (b % 1000) (b % 1000), full-find b ∙ rw here refl);
  apart = λ a b h k e e' same. sym (full-home a h e) ∙ ap home same ∙ full-home b k e';
}

pub below_max : (b : ℕ) → InCache b → b < 2 ^ 32 - 1
below_max b near = ground arith

abbrev pub held : DiskOps
held = cached file_api

abbrev pub held-IsDisk : IsDisk held
held-IsDisk = cached-IsDisk file_api InCache below_max refl

-- A disk without contents outside the cache is seen as it is.
pub block_in-full :
    (v : ℕ → Block)
    → ((a : ℕ) → (home (a % 1000) == a) ≡ false → v a ≡ zero_block)
    → block_in (full v) ≡ v
unfolding block_in hash_find hash_func find_in
block_in-full v empty = fun_ext λ a. elim (Bool-cases (home (a % 1000) == a)) [
  | inl here ↦ let e : home (a % 1000) ≡ a = ground arith in rw here (ap v e)
  | inr other ↦ rw other (sym (empty a other))
]
