-- ===== src/Disk/Cache/Writes.antt =====
-- disk_write through the cache, and disk_write past it.
use pcd_file_system.Prelude.{
  ℕ, ◌<◌, ◌%◌, ◌≡◌, ◌≢◌, refl, true, false, some, List, ◌∷◌, arith, if◌then◌else◌, ◌==◌, sym, ap,
  ◌∙◌, Bool-cases, Option-cases, inl, inr,
}
use pcd_file_system.Prelude.Run.{Returns, returns, mono}
use pcd_file_system.Block.{Block}
use pcd_file_system.Prelude.Lists.{length}
use pcd_file_system.Disk.Lru.Shape.{IsList, IsList-frame}
use pcd_file_system.Disk.Hash.{HashNode, hash_find}
use pcd_file_system.Disk.Device.{FileApi, IsReliable, block_limit, byte_offset_lem}
use pcd_file_system.Disk.Cache.{Disk, disk_write, write_to_cache, set_dirty}
use pcd_file_system.Disk.Cache.Coherent.{view, IsCoherent, IsCache}
use pcd_file_system.Disk.Cache.Requests.{
  add, touch, disk_write-miss, disk_write-hit, IsUntied, IsReady,
}

module _ (api : FileApi) (rel : IsReliable api) where
  open api use {File}

  -- the state after the write into the buffer of a block that is in the cache
  dirtied : Block → HashNode → Disk File → Disk File
  dirtied b h d = set_dirty h.list_node true (write_to_cache b h.buffer_id d)

  module _ (d : Disk File) (x block : ℕ) (xs : List ℕ) (b : Block) (h : HashNode)
      (k : IsCache api rel d x xs) (hit : hash_find block d.table ≡ some h) where
    dirtied-IsList : IsList (dirtied b h d).lru x xs
    unfolding dirtied set_dirty write_to_cache
    dirtied-IsList = IsList-frame d.lru (dirtied b h d).lru x xs k.list refl refl λ a. ground arith

    dirtied-IsCoherent : IsCoherent api rel (dirtied b h d) (x ∷ xs)
    unfolding dirtied set_dirty write_to_cache
    dirtied-IsCoherent =
        let c = k.coherent in
        let (inside, number, mine, used) = c.found block h hit in
        record {
          map = c.map;
          found = λ a g e. ground (arith, c.found a g e);
          held = λ a i m.
              let (at, lt, same) = c.held a i (ground arith) in
              elim (Bool-cases (a == h.list_node)) [
                | inl here ↦
                    let e : h.list_node ≡ a = ground arith in rw here (rw e (at, lt, λ f. cc))
                | inr there ↦ rw there (at, lt, λ clean. ground (arith, same clean))
              ];
          owner = λ a i. ground (arith, c.owner a i);
          tidy = λ a i m. ground (arith, c.tidy a i);
        }

    -- Two blocks that are in the cache are in different buffers.
    apart :
        (a : ℕ) (g : HashNode)
        → hash_find a d.table ≡ some g
        → a ≢ block
        → g.buffer_id ≢ h.buffer_id
    apart a g e other same =
        let (_, number, mine, _) = k.coherent.found block h hit in
        let (_, number', theirs, _) = k.coherent.found a g e in
        other (sym theirs ∙ ap (λ n. (d.lru.node n).block_id) (sym number' ∙ same ∙ number) ∙ mine)

    dirtied-view :
        (a : ℕ) → view api rel (dirtied b h d) a ≡ (if a == block then b else view api rel d a)
    unfolding dirtied set_dirty write_to_cache view
    dirtied-view a = elim (Bool-cases (a == block)) [
      | inl here ↦ let e : a ≡ block = ground arith in rw (here, e) (rw hit (ground arith))
      | inr other ↦ elim (Option-cases (hash_find a d.table)) [
        | inl missing ↦ rw (missing, other)
        | inr (g, e) ↦ rw (e, other) (ground (arith, apart a g e))
      ]
    ]

    table-dirtied : hash_find block (dirtied b h d).table ≡ some h
    unfolding dirtied set_dirty write_to_cache
    table-dirtied = hit

    IsUntied-dirtied : IsUntied api rel d x block → IsUntied api rel (dirtied b h d) x block
    unfolding dirtied set_dirty write_to_cache
    IsUntied-dirtied untied g e at = ground (arith, untied g e at)

  -- In a cache that is in order and has two buffers or more, disk_write with access_disk = 0 of a
  -- block below 2^20 sets that block and no other, and the cache is in order afterwards with as
  -- many buffers. A condition is that, if the block is that of the head of the list, the head's
  -- prev pointer is NULL. The calls of the device file do not fail.
  pub disk_write-view :
      (d : Disk File) (x z block : ℕ) (xs : List ℕ) (b : Block)
      → IsCache api rel d x (z ∷ xs)
      → block < block_limit
      → IsUntied api rel d x block
      → Returns
          (λ _ d'.
            ((a : ℕ) → view api rel d' a ≡ (if a == block then b else view api rel d a))
            × (y : ℕ) × IsReady api rel d' y (length (z ∷ xs)))
          (disk_write api b block false d)
  unfolding dirtied set_dirty
  disk_write-view d x z block xs b k small untied = elim (Option-cases (hash_find block d.table)) [
    | inl missing ↦
        rw (disk_write-miss api rel d block b missing)
          (add api rel d x z xs k block b true small (λ e. cc) missing)
    | inr (h, hit) ↦
        let d1 = dirtied b h d in
        let k1 : IsCache api rel d1 x (z ∷ xs) = record {
          list = dirtied-IsList d x block (z ∷ xs) b h k hit;
          coherent = dirtied-IsCoherent d x block (z ∷ xs) b h k hit;
        } in
        rw (disk_write-hit api rel d block b h hit) (
          mono
            (touch api rel d1 x block (z ∷ xs) h k1 (table-dirtied d x block (z ∷ xs) b h k hit)
              (IsUntied-dirtied d x block (z ∷ xs) b h k hit untied))
            λ _ d' (same, ready).
              ((λ a. same a ∙ dirtied-view d x block (z ∷ xs) b h k hit a), h.list_node, ready))
  ]

  -- disk_write with access_disk = 1 sets the block of the file whose number is block_id modulo
  -- 2^20, and no other. The calls of the device file do not fail.
  pub disk_write-direct :
      (d : Disk File) (block : ℕ) (b : Block)
      → Returns
          (λ _ d'.
            (a : ℕ)
            → rel.contents d'.dev a
              ≡ (if a == block % block_limit then b else rel.contents d.dev a))
          (disk_write api b block true d)
  unfolding disk_write
  disk_write-direct d block b =
      let (f, e, w) = rel.writes d.dev (block % block_limit) b (omega arith) in
      rw (byte_offset_lem block) (rw e (returns w))
