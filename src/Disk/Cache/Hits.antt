-- ===== src/Disk/Cache/Hits.antt =====
-- disk_read and disk_write of blocks that are in the cache: what the layers above ask of disk.c.
use pcd_file_system.Prelude.{
  ℕ, ◌-◌, ◌^◌, ◌<◌, ◌≡◌, ◌≢◌, refl, true, false, Option, none, some, arith, if◌then◌else◌, ◌==◌,
  sym, ◌∙◌, Bool-cases, Option-cases, inl, inr,
}
use pcd_file_system.Prelude.Run.{ok, Returns, returns, returned, pure, ◌>>◌}
use pcd_file_system.Block.{Block, zero_block}
use pcd_file_system.Disk.Lru.{
  Lru, list_prioritize, push_front, set_head, set_next, set_prev, set_tail, set_node,
}
use pcd_file_system.Disk.Hash.{HashNode, hash_find}
use pcd_file_system.Disk.Device.{FileApi}
use pcd_file_system.Disk.Contract.{DiskOps, IsDisk}
use pcd_file_system.Disk.Cache.{
  Disk, on_list, disk_read, disk_write, read_from_cache, write_to_cache, set_dirty,
}

-- list_prioritize returns on every list that has a head, whatever its pointers are.
push_front-returns :
    (n x : ℕ) (l : Lru) → l.head ≡ some x → Returns (λ _ l'. l'.head ≡ some n) (push_front n l)
unfolding push_front set_head set_next set_prev set_node
push_front-returns n x l e = rw e (returns refl)

list_prioritize-returns :
    (n x : ℕ) (l : Lru)
    → l.head ≡ some x
    → Returns (λ _ l'. (y : ℕ) × (l'.head ≡ some y)) (list_prioritize n l)
unfolding list_prioritize push_front set_head set_tail set_next set_prev set_node
list_prioritize-returns n x l e = elim (Option-cases (l.node n).prev) [
  | inl first ↦ rw first (returns (x, e))
  | inr (p, before) ↦ elim (Option-cases (l.node n).next) [
    | inl last ↦ rw (before, last, e) (returns (n, refl))
    | inr (q, after) ↦ rw (before, after, e) (returns (n, refl))
  ]
]

-- a hit: the block of the buffer
abbrev found_in : (ℕ → Block) → Option HashNode → Block
found_in buffer none = zero_block
found_in buffer (some h) = buffer h.buffer_id

module _ {File : Type 0} where
  -- what the cache holds of a block
  unfoldable pub block_in : Disk File → ℕ → Block
  block_in d b = found_in d.buffer (hash_find b d.table)

  -- The blocks of `Within` are in the cache, the blocks that are in it have buffers of their own, and
  -- the list has a head.
  pub record AreHeld (Within : ℕ → Type 0) (d : Disk File) : Type 0 where
    pub head : (x : ℕ) × (d.lru.head ≡ some x)
    pub hit : (b : ℕ) → Within b → (h : HashNode) × (hash_find b d.table ≡ some h)
    pub apart :
        (a b : ℕ) (h k : HashNode)
        → hash_find a d.table ≡ some h
        → hash_find b d.table ≡ some k
        → h.buffer_id ≡ k.buffer_id
        → a ≡ b

  block_in-hit :
      (d : Disk File) (b : ℕ) (h : HashNode)
      → hash_find b d.table ≡ some h
      → block_in d b ≡ d.buffer h.buffer_id
  unfolding block_in
  block_in-hit d b h e = rw e refl

  -- the list moves a node to its front
  moved :
      (Within : ℕ → Type 0) (d : Disk File) (n : ℕ)
      → AreHeld Within d
      → (l : Lru) × (list_prioritize n d.lru ≡ ok tt l) × AreHeld Within (record d { lru = l })
  moved Within d n held =
      let (x, head) = held.head in
      let (_, l, e, still) = returned (list_prioritize-returns n x d.lru head) in
      (l, e, record { head = still; hit = held.hit; apart = held.apart })

  -- the buffer of a block is written, and its node is dirty
  written : Disk File → HashNode → Block → Disk File
  written d h b = set_dirty h.list_node true (write_to_cache b h.buffer_id d)

  written-AreHeld :
      (Within : ℕ → Type 0) (d : Disk File) (h : HashNode) (b : Block)
      → AreHeld Within d
      → AreHeld Within (written d h b)
  unfolding written set_dirty write_to_cache set_node
  written-AreHeld Within d h b held = record {
    head = held.head;
    hit = held.hit;
    apart = held.apart;
  }

  block_in-written :
      (Within : ℕ → Type 0) (d : Disk File) (h : HashNode) (b : Block) (block : ℕ)
      → AreHeld Within d
      → hash_find block d.table ≡ some h
      → (a : ℕ) → block_in (written d h b) a ≡ (if a == block then b else block_in d a)
  unfolding block_in written set_dirty write_to_cache set_node
  block_in-written Within d h b block held hit a = elim (Bool-cases (a == block)) [
    | inl here ↦
        let e : a ≡ block = ground arith in
        let mine : (h.buffer_id == h.buffer_id) ≡ true = ground arith in
        rw (here, e, hit, mine) refl
    | inr other ↦ elim (Option-cases (hash_find a d.table)) [
      | inl missing ↦ rw (other, missing) refl
      | inr (k, found) ↦
          let ne : k.buffer_id ≢ h.buffer_id =
            λ e. let same = held.apart a block k h found hit e in absurd (ground arith) in
          let miss : (k.buffer_id == h.buffer_id) ≡ false = ground arith in
          rw (other, found, miss) refl
    ]
  ]

  relinked : (d : Disk File) (l : Lru) (a : ℕ) → block_in (record d { lru = l }) a ≡ block_in d a
  unfolding block_in
  relinked d l a = refl

module _ (api : FileApi) where
  open api use {File}

  module _ (d : Disk File) (block : ℕ) (h : HashNode) (hit : hash_find block d.table ≡ some h) where
    disk_read_lem :
        (out : Block)
        → disk_read api out block d
          ≡ (on_list (list_prioritize h.list_node) >> pure (d.buffer h.buffer_id)) d
    unfolding disk_read read_from_cache
    disk_read_lem out = ground arith

    disk_write_lem :
        (b : Block)
        → disk_write api b block false d ≡ on_list (list_prioritize h.list_node) (written d h b)
    unfolding disk_write written
    disk_write_lem b = ground arith

  module _ (Within : ℕ → Type 0) (d : Disk File) (held : AreHeld Within d) (block : ℕ)
      (near : Within block) where
    -- Where the blocks of a set are in the cache, in buffers of their own, and the list has a
    -- head, whatever its other pointers are, disk_read and disk_write of a block of the set
    -- return: disk_read gives what the cache holds of it and changes no block, disk_write sets it
    -- and no other; the blocks are in the cache, in buffers of their own, afterwards.
    pub requests-AreHeld :
        (out b : Block)
        → Returns
            (λ r d'.
              (r ≡ block_in d block) × AreHeld Within d' × ((a : ℕ) → block_in d' a ≡ block_in d a))
            (disk_read api out block d)
          × Returns
              (λ _ d'.
                AreHeld Within d'
                × ((a : ℕ) → block_in d' a ≡ (if a == block then b else block_in d a)))
              (disk_write api b block false d)
    requests-AreHeld out b =
        let (h, hit) = held.hit block near in
        let (l, e, held1) = moved Within d h.list_node held in
        let d2 = written d h b in
        let (l2, e2, held2) = moved Within d2 h.list_node (written-AreHeld Within d h b held) in
        (
          rw (disk_read_lem d block h hit out, e)
              (returns (sym (block_in-hit d block h hit), held1, λ a. relinked d l a)),
          rw (disk_write_lem d block h hit b, e2)
              (returns
                (held2, λ a. relinked d2 l2 a ∙ block_in-written Within d h b block held hit a)),
        )

  -- The program's disk, for blocks that are in its cache.
  abbrev pub cached : DiskOps
  cached = record { State = Disk File; disk_read = disk_read api; disk_write = disk_write api }

  module _ (Within : ℕ → Type 0) (below_max : (b : ℕ) → Within b → b < 2 ^ 32 - 1)
      (super_block : Within 0) where
    abbrev pub cached-IsDisk : IsDisk cached
    cached-IsDisk = record {
      Within = Within;
      below_max = below_max;
      super_block = super_block;
      Good = AreHeld Within;
      view = block_in;
      reads = λ d out b held near. (requests-AreHeld Within d held b near out zero_block).0;
      writes = λ d new b held near. (requests-AreHeld Within d held b near zero_block new).1;
    }
