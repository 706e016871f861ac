-- ===== src/Disk/Cache/Evict.antt =====
-- The first half of list_add: the block of the node that has left the list leaves the cache.
use pcd_file_system.Prelude.{
  ℕ, ◌<◌, ◌≡◌, ◌≢◌, refl, true, false, none, some, List, ◌∷◌, arith, if◌then◌else◌, ◌==◌, sym, ◌∙◌,
  Bool-cases, Option-cases, inl, inr,
}
use pcd_file_system.Prelude.Run.{ok, Run, returned}
use pcd_file_system.Prelude.Lists.{has, has_ne}
use pcd_file_system.Disk.Hash.{Table, hash_find, hash_delete}
use pcd_file_system.Disk.Hash.Map.{IsMap, entry, hash_delete-hash_find}
use pcd_file_system.Disk.Device.{FileApi, IsReliable, block_limit, byte_offset_small}
use pcd_file_system.Disk.Cache.{Disk, cache_to_disk, evict, on_table}
use pcd_file_system.Disk.Cache.Coherent.{view, IsCoherent, SameView}

module _ (api : FileApi) (rel : IsReliable api) where
  open api use {File}

  pub cache_to_disk_lem :
      (i b : ℕ) (d : Disk File)
      → b < block_limit
      → (f : File) × (cache_to_disk api i b d ≡ ok tt (record d { dev = f }))
        × ((c : ℕ) → rel.contents f c ≡ (if c == b then d.buffer i else rel.contents d.dev c))
  unfolding cache_to_disk
  cache_to_disk_lem i b d h =
      let (f, e, w) = rel.writes d.dev b (d.buffer i) h in (f, rw (byte_offset_small b h) (rw e), w)

  on_table-ok :
      (m : Table → Run Table (Unit {0})) (d : Disk File) (t : Table)
      → m d.table ≡ ok tt t
      → on_table m d ≡ ok tt (record d { table = t })
  on_table-ok m d t e = rw e

  -- the state in which the file has `f` and the table `t`
  abbrev dropped : Disk File → File → Table → Disk File
  dropped d f t = record d { dev = f; table = t }

  module _ (d : Disk File) (n : ℕ) (ms : List ℕ) (c : IsCoherent api rel d (n ∷ ms))
      (out : has n ms ≡ false) where
    -- a node that holds nothing
    unused : (d.lru.node n).in_hash ≡ false → IsCoherent api rel d ms
    unused u = record {
      map = c.map;
      found = λ b h e. ground (arith, c.found b h e, u);
      held = λ a i m. c.held a (ground arith) m;
      owner = λ a i. c.owner a (ground arith);
      tidy = λ a i m. c.tidy a (ground arith) m;
    }

    module _ (f : File) (t : Table) (used : (d.lru.node n).in_hash ≡ true)
        (wrote : (b : ℕ)
          → rel.contents f b
            ≡ (if b == (d.lru.node n).block_id then d.buffer n else rel.contents d.dev b))
        (map : IsMap t)
        (finds : (b : ℕ)
          → hash_find b t
            ≡ (if b == (d.lru.node n).block_id then none else hash_find b d.table)) where
      apart :
          (a : ℕ)
          → has a ms ≡ true
          → (d.lru.node a).in_hash ≡ true
          → (d.lru.node a).block_id ≢ (d.lru.node n).block_id
      apart a i m e =
          let (at, _, _) = c.held a (ground arith) m in
          let (at_n, _, _) = c.held n (ground arith) used in has_ne a n ms i out cc

      dropped-IsCoherent : IsCoherent api rel (dropped d f t) ms
      dropped-IsCoherent = record {
        map = map;
        found = λ b h e. ground (arith, finds b, c.found b h, e);
        held = λ a i m.
            let (at, small, same) = c.held a (ground arith) m in
            let other = apart a i m in
            (
              finds (d.lru.node a).block_id ∙ ground arith,
              small,
              λ clean. same clean ∙ sym (wrote (d.lru.node a).block_id ∙ ground arith),
            );
        owner = λ a i. c.owner a (ground arith);
        tidy = λ a i m. c.tidy a (ground arith) m;
      }

      dropped-view : SameView api rel d (dropped d f t)
      unfolding view
      dropped-view b =
          let (at, _, _) = c.held n (ground arith) used in
          elim (Bool-cases (b == (d.lru.node n).block_id)) [
            | inl here ↦
                let e : b ≡ (d.lru.node n).block_id = ground arith in
                let gone : hash_find b t ≡ none = finds b ∙ ground arith in
                let was : hash_find b d.table ≡ some (entry (d.lru.node n).block_id n n) =
                  rw e at in
                rw (gone, was) (wrote b ∙ ground arith)
            | inr other ↦
                let same : hash_find b t ≡ hash_find b d.table = finds b ∙ ground arith in
                elim (Option-cases (hash_find b d.table)) [
                  | inl missing ↦ rw same (rw missing (wrote b ∙ ground arith))
                  | inr (h, hit) ↦ rw same (rw hit)
                ]
          ]

    -- The block of a node that is used: written back where it is dirty, and out of the table.
    evict_used :
        (d.lru.node n).in_hash ≡ true
        → (f : File) × (t : Table) × (evict api (d.lru.node n) d ≡ ok tt (dropped d f t))
          × IsCoherent api rel (dropped d f t) ms
          × SameView api rel d (dropped d f t)
          × ((a : ℕ) → hash_find a d.table ≡ none → hash_find a t ≡ none)
    unfolding evict
    evict_used used =
        let (at, small, clean) = c.held n (ground arith) used in
        let own : (d.lru.node n).buffer_id ≡ n = c.owner n (ground arith) in
        let b = (d.lru.node n).block_id in
        let (_, t, del, map_of) = returned (hash_delete-hash_find b d.table _ c.map at) in
        let (map, finds) = map_of in
        elim (Bool-cases (d.lru.node n).dirty) [
          | inl dirty ↦
              let (f, e, wrote) = cache_to_disk_lem n b d small in
              (
                f,
                t,
                rw (used, dirty, own)
                    (rw e (on_table-ok (hash_delete b) (record d { dev = f }) t del)),
                dropped-IsCoherent f t used wrote map finds,
                dropped-view f t used wrote map finds,
                λ a e. ground (arith, finds a),
              )
          | inr kept ↦
              let same : (c : ℕ)
                  → rel.contents d.dev c ≡ (if c == b then d.buffer n else rel.contents d.dev c) =
                λ c. elim (Bool-cases (c == b)) [
                  | inl here ↦
                      let e : c ≡ b = ground arith in rw e (sym (clean kept) ∙ ground arith)
                  | inr other ↦ ground arith
                ] in
              (
                d.dev,
                t,
                rw (used, kept) (on_table-ok (hash_delete b) d t del),
                dropped-IsCoherent d.dev t used same map finds,
                dropped-view d.dev t used same map finds,
                λ a e. ground (arith, finds a),
              )
        ]

    -- After the first half of list_add no table entry leads to `n`, and every block reads as before.
    pub evict_lem :
        (d' : Disk File) × (evict api (d.lru.node n) d ≡ ok tt d')
        × (d'.lru ≡ d.lru)
        × IsCoherent api rel d' ms
        × SameView api rel d d'
        × ((a : ℕ) → hash_find a d.table ≡ none → hash_find a d'.table ≡ none)
    unfolding evict
    evict_lem = elim (Bool-cases (d.lru.node n).in_hash) [
      | inl used ↦
          let (f, t, e, coh, same, none_left) = evict_used used in
          (dropped d f t, e, refl, coh, same, none_left)
      | inr free ↦ (d, rw free, refl, unused free, (λ b. refl), λ a e. e)
    ]
