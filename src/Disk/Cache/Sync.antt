-- ===== src/Disk/Cache/Sync.antt =====
-- sync on a cache that is in order.
use mathlib.Core.Path.{subst}
use pcd_file_system.Prelude.{
  ℕ, zero, suc, ◌≤◌, ◌≡◌, ◌≢◌, refl, true, false, Option, none, List, [], ◌∷◌, arith, if◌then◌else◌,
  ◌==◌, sym, ap, ◌∙◌, Bool-cases, Option-cases, inl, inr, ◌⊎◌,
}
use pcd_file_system.Prelude.Run.{ok, Returns, returns, mono}
use pcd_file_system.Prelude.Lists.{has, length}
use pcd_file_system.Disk.Lru.Shape.{Nexts, IsList, IsList-frame, Nexts-frame}
use pcd_file_system.Disk.Hash.{hash_find}
use pcd_file_system.Disk.Device.{FileApi, IsReliable}
use pcd_file_system.Disk.Cache.{Disk, set_dirty, flush, sync_loop, sync}
use pcd_file_system.Disk.Cache.Coherent.{view, IsCoherent, IsCache, SameView}
use pcd_file_system.Disk.Cache.Evict.{cache_to_disk_lem}

module _ (api : FileApi) (rel : IsReliable api) where
  open api use {File}

  -- the state after the buffer of node `a` was written
  flushed : ℕ → File → Disk File → Disk File
  flushed a f d = set_dirty a false (record d { dev = f })

  module _ (d : Disk File) (x a : ℕ) (xs : List ℕ) (k : IsCache api rel d x xs)
      (inside : has a (x ∷ xs) ≡ true) (used : (d.lru.node a).in_hash ≡ true) (f : File)
      (wrote : (c : ℕ)
        → rel.contents f c
          ≡ (if c == (d.lru.node a).block_id then d.buffer a else rel.contents d.dev c)) where
    flushed-IsList : IsList (flushed a f d).lru x xs
    unfolding flushed set_dirty
    flushed-IsList = IsList-frame d.lru (flushed a f d).lru x xs k.list refl refl λ b. ground arith

    apart :
        (b : ℕ)
        → has b (x ∷ xs) ≡ true
        → (d.lru.node b).in_hash ≡ true
        → b ≢ a
        → (d.lru.node b).block_id ≢ (d.lru.node a).block_id
    apart b i m other e =
        let (at, _, _) = k.coherent.held a inside used in
        let (at_b, _, _) = k.coherent.held b i m in other cc

    flushed-IsCoherent : IsCoherent api rel (flushed a f d) (x ∷ xs)
    unfolding flushed set_dirty
    flushed-IsCoherent =
        let c = k.coherent in
        record {
          map = c.map;
          found = λ b h e. ground (arith, c.found b h e);
          held = λ b i m.
              let (at, lt, same) = c.held b i (ground arith) in
              elim (Bool-cases (b == a)) [
                | inl here ↦
                    let e : a ≡ b = ground arith in
                    rw here
                      (rw e (at, lt, λ clean. sym (wrote (d.lru.node b).block_id ∙ ground arith)))
                | inr there ↦
                    let other = apart b i (ground arith) (ground arith) in
                    rw there (
                      at,
                      lt,
                      λ clean. same clean ∙ sym (wrote (d.lru.node b).block_id ∙ ground arith),
                    )
              ];
          tidy = λ b i m. ground (arith, c.tidy b i);
          owner = λ b i. ground (arith, c.owner b i);
        }

    flushed-view : SameView api rel d (flushed a f d)
    unfolding flushed set_dirty view
    flushed-view b = elim (Option-cases (hash_find b d.table)) [
      | inl missing ↦
          let (at, _, _) = k.coherent.held a inside used in
          let other : b ≢ (d.lru.node a).block_id = λ e. cc in rw missing (wrote b ∙ ground arith)
      | inr (h, hit) ↦ rw hit
    ]

    flushed-clean :
        (b : ℕ)
        → ((b == a) ≡ true) ⊎ ((d.lru.node b).dirty ≡ false)
        → ((flushed a f d).lru.node b).dirty ≡ false
    unfolding flushed set_dirty
    flushed-clean b h = ground arith

    flushed-next : (b : ℕ) → ((flushed a f d).lru.node b).next ≡ (d.lru.node b).next
    unfolding flushed set_dirty
    flushed-next b = ground arith

  -- One turn: the node is clean afterwards, and no other becomes dirty.
  record Flushed (d : Disk File) (x a : ℕ) (xs : List ℕ) (d' : Disk File) : Type 0 where
    cache : IsCache api rel d' x xs
    same : SameView api rel d d'
    next : (b : ℕ) → (d'.lru.node b).next ≡ (d.lru.node b).next
    done : (d'.lru.node a).dirty ≡ false
    kept : (b : ℕ) → (d.lru.node b).dirty ≡ false → (d'.lru.node b).dirty ≡ false

  flush-Flushed :
      (d : Disk File) (x a : ℕ) (xs : List ℕ)
      → IsCache api rel d x xs
      → has a (x ∷ xs) ≡ true
      → (d' : Disk File) × (flush api a d ≡ ok tt d') × Flushed d x a xs d'
  unfolding flush flushed
  flush-Flushed d x a xs k inside = elim (Bool-cases (d.lru.node a).dirty) [
    | inl dirty ↦
        let used : (d.lru.node a).in_hash ≡ true = ground (arith, k.coherent.tidy a inside) in
        let (_, lt, _) = k.coherent.held a inside used in
        let own = k.coherent.owner a inside in
        let (f, e, wrote) = cache_to_disk_lem api rel a (d.lru.node a).block_id d lt in
        (
          flushed a f d,
          rw (dirty, own) (rw e),
          record {
            cache = record {
              list = flushed-IsList d x a xs k inside used f wrote;
              coherent = flushed-IsCoherent d x a xs k inside used f wrote;
            };
            same = flushed-view d x a xs k inside used f wrote;
            next = flushed-next d x a xs k inside used f wrote;
            done = flushed-clean d x a xs k inside used f wrote a (inl (ground arith));
            kept = λ b h. flushed-clean d x a xs k inside used f wrote b (inr h);
          },
        )
    | inr clean ↦ (
      d,
      rw clean,
      record { cache = k; same = λ b. refl; next = λ b. refl; done = clean; kept = λ b h. h },
    )
  ]

  loop :
      (rounds : ℕ) (d : Disk File) (x : ℕ) (xs : List ℕ) (p : Option ℕ) (ns : List ℕ)
      → IsCache api rel d x xs
      → Nexts d.lru p ns none
      → length ns ≤ rounds
      → ((a : ℕ) → has a ns ≡ true → has a (x ∷ xs) ≡ true)
      → ((a : ℕ) → has a (x ∷ xs) ≡ true → has a ns ≡ false → (d.lru.node a).dirty ≡ false)
      → Returns
          (λ ended d'.
            (ended ≡ true)
            × IsCache api rel d' x xs
            × SameView api rel d d'
            × ((a : ℕ) → has a (x ∷ xs) ≡ true → (d'.lru.node a).dirty ≡ false))
          (sync_loop api rounds p d)
  unfolding sync_loop
  loop rounds d x xs p [] k path le sub clean =
      rw path (returns (refl, k, (λ b. refl), λ a i. clean a i refl))
  loop zero d x xs p (a ∷ ns) k path le sub clean = absurd (omega arith)
  loop (suc rounds) d x xs p (a ∷ ns) k path le sub clean =
      let (d', e, fl) = flush-Flushed d x a xs k (sub a (ground arith)) in
      let on : Nexts d'.lru (d'.lru.node a).next ns none =
        rw (fl.next a)
          (Nexts-frame d.lru d'.lru (d.lru.node a).next ns none path.1 λ b i. fl.next b) in
      let left : (b : ℕ)
          → has b (x ∷ xs) ≡ true
          → has b ns ≡ false
          → (d'.lru.node b).dirty ≡ false =
        λ b i o. elim (Bool-cases (b == a)) [
          | inl here ↦
              let e : a ≡ b = ground arith in subst (λ c. (d'.lru.node c).dirty ≡ false) e fl.done
          | inr there ↦ fl.kept b (clean b i (ground arith))
        ] in
      let rest =
        loop rounds d' x xs (d'.lru.node a).next ns fl.cache on (omega arith)
          (λ b i. sub b (ground arith)) (λ b i o. left b i o) in
      rw path.0 (
        rw e (mono rest λ _ d2 (ended, k2, same, all). (ended, k2, (λ b. same b ∙ fl.same b), all)))

  written :
      (d : Disk File) (x : ℕ) (xs : List ℕ)
      → IsCache api rel d x xs
      → ((a : ℕ) → has a (x ∷ xs) ≡ true → (d.lru.node a).dirty ≡ false)
      → (b : ℕ) → rel.contents d.dev b ≡ view api rel d b
  unfolding view
  written d x xs k clean b = elim (Option-cases (hash_find b d.table)) [
    | inl missing ↦ rw missing
    | inr (h, hit) ↦
        let (inside, number, mine, used) = k.coherent.found b h hit in
        let (_, _, same) = k.coherent.held h.list_node inside used in
        rw hit (
          ap (rel.contents d.dev) (sym mine)
          ∙ sym (same (clean h.list_node inside))
          ∙ ap d.buffer (sym number))
  ]

  -- On a cache that is in order, sync ends after at most one round for each buffer, and every
  -- block of the file then holds what the disk held through the cache, which holds it still and
  -- stays in order. The calls of the device file do not fail.
  pub sync-contents :
      (d : Disk File) (x : ℕ) (xs : List ℕ) (rounds : ℕ)
      → IsCache api rel d x xs
      → length (x ∷ xs) ≤ rounds
      → Returns
          (λ ended d'.
            (ended ≡ true)
            × IsCache api rel d' x xs
            × SameView api rel d d'
            × ((b : ℕ) → rel.contents d'.dev b ≡ view api rel d b))
          (sync api rounds d)
  unfolding sync
  sync-contents d x xs rounds k le =
      mono
        (loop rounds d x xs d.lru.head (x ∷ xs) k (k.list.head, k.list.nexts) le (λ a i. i)
          (λ a i o. cc))
        λ _ d' (ended, k', same, clean). (ended, k', same, λ b. written d' x xs k' clean b ∙ same b)
