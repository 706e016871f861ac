-- ===== src/Disk/Tests.antt =====
-- A disk with three buffers, the last of which holds block 7 and is dirty, and the theorems on
-- disk.c used there.
use pcd_file_system.Prelude.{
  suc, ℕ, ◌*◌, ◌/◌, ◌≡◌, refl, ap, true, false, none, some, List, [], ◌∷◌, arith, if◌then◌else◌,
  ◌==◌, Bool-cases, inl, inr,
}
use pcd_file_system.Prelude.Lists.{has, length}
use pcd_file_system.Prelude.Run.{Returns, ◌>>◌}
use pcd_file_system.Block.{Block, zero_block}
use pcd_file_system.Disk.Lru.{Lru, ListNode, list_prioritize}
use pcd_file_system.Disk.Lru.Shape.{IsList, SameData}
use pcd_file_system.Disk.Lru.Prioritize.{list_prioritize-IsList}
use pcd_file_system.Disk.Hash.{
  Table, buffer_num, hash_find, find_in, hash_func, hash_insert, hash_delete,
}
use pcd_file_system.Disk.Hash.Map.{IsMap, entry, hash_insert-hash_find, hash_delete-hash_find}
use pcd_file_system.Disk.Device.{FileApi, IsReliable}
use pcd_file_system.Disk.Cache.{Disk, disk_read, disk_write, sync, initialize, list_add}
use pcd_file_system.Disk.Cache.Coherent.{view, IsCoherent, IsCache, SameView}
use pcd_file_system.Disk.Cache.Requests.{IsReady, disk_read-view, list_add-IsCache}
use pcd_file_system.Disk.Cache.Writes.{disk_write-view, disk_write-direct}
use pcd_file_system.Disk.Cache.Sync.{sync-contents}
use pcd_file_system.Disk.Cache.Knot.{sync-knot}
use pcd_file_system.Disk.Cache.Hits.{AreHeld, block_in, requests-AreHeld}
use pcd_file_system.Disk.Cache.Full.{InCache, full, full-AreHeld}
use pcd_file_system.Disk.Cache.Start.{initialize-IsCache}

-- a file that is as long as it has to be
abbrev api : FileApi
api = record {
  File = ℕ → Block;
  read_at = λ f o out. some (f (o / 4096));
  write_at = λ f o b. some (λ a. if a == o / 4096 then b else f a);
}

abbrev rel : IsReliable api
rel = record {
  contents = λ f. f;
  reads = λ f n out lt. ap (λ a. some (f a)) (omega arith);
  writes = λ f n b lt.
      let at : 4096 * n / 4096 ≡ n = omega arith in
      (
        (λ a. if a == 4096 * n / 4096 then b else f a),
        refl,
        λ m. ap (λ k. if m == k then b else f m) at,
      );
}

abbrev filled : ℕ → Block
filled a o = a

abbrev nodes : ℕ → ListNode
nodes a =
    if a == 0
    then record {
      buffer_id = 0;
      block_id = 0;
      next = some 1;
      prev = none;
      dirty = false;
      in_hash = false;
    }
    else if a == 1
    then record {
      buffer_id = 1;
      block_id = 0;
      next = some 2;
      prev = some 0;
      dirty = false;
      in_hash = false;
    }
    else record {
      buffer_id = a;
      block_id = 7;
      next = none;
      prev = some 1;
      dirty = true;
      in_hash = true;
    }

abbrev three : Lru
three = record { node = nodes; head = some 0; tail = some 2 }

abbrev seven : Table
seven j = if j == 7 then entry 7 2 2 ∷ [] else []

-- block 7 holds 99s in the cache and 7s in the file
abbrev warm : Disk (ℕ → Block)
warm = record { dev = filled; lru = three; table = seven; buffer = λ a o. if a == 2 then 99 else 0 }

three-IsList : IsList three 0 (1 ∷ 2 ∷ [])
three-IsList = record {
  head = refl;
  tail = refl;
  nexts = (refl, (refl, refl));
  prevs = (refl, (refl, _));
  distinct = (refl, (refl, (refl, _)));
}

seven-find : (b : ℕ) → hash_find b seven ≡ (if b == 7 then some (entry 7 2 2) else none)
unfolding hash_find find_in hash_func
seven-find b = ground arith

seven-IsMap : IsMap seven
unfolding hash_func
seven-IsMap b = ground arith

-- the node that is in use
used : (a : ℕ) → has a (0 ∷ 1 ∷ 2 ∷ []) ≡ true → (nodes a).in_hash ≡ true → a ≡ 2
used a i m = ground arith

warm-IsCoherent : IsCoherent api rel warm (0 ∷ 1 ∷ 2 ∷ [])
warm-IsCoherent = record {
  map = seven-IsMap;
  found = λ b h e. elim (Bool-cases (b == 7)) [
    | inl seventh ↦
        let here : b ≡ 7 = ground arith in
        let node : some (entry 7 2 2) ≡ some h = rw (← e, seven-find b, here) in
        let it : entry 7 2 2 ≡ h = cc in rw (← it, here) (refl, refl, refl, refl)
    | inr other ↦ absurd (ground (arith, seven-find b))
  ];
  held = λ a i m. rw (used a i m) (seven-find 7, omega arith, λ clean. cc);
  tidy = λ a i m. ground arith;
  owner = λ a i. ground arith;
}

warm-IsCache : IsCache api rel warm 0 (1 ∷ 2 ∷ [])
warm-IsCache = record { list = three-IsList; coherent = warm-IsCoherent }

seven-absent : hash_find 8 seven ≡ none
seven-absent = rw (seven-find 8)

seven-present : hash_find 7 seven ≡ some (entry 7 2 2)
seven-present = rw (seven-find 7)

disk_read-view_example :
    Returns
      (λ b d'.
        (b ≡ view api rel warm 7) × SameView api rel warm d' × (y : ℕ) × IsReady api rel d' y 2)
      (disk_read api zero_block 7 warm)
disk_read-view_example =
    disk_read-view api rel warm 0 1 (2 ∷ []) warm-IsCache zero_block 7 (omega arith) λ h e at. refl

disk_write-view_example :
    Returns
      (λ _ d'.
        ((a : ℕ) → view api rel d' a ≡ (if a == 8 then filled 55 else view api rel warm a))
        × (y : ℕ) × IsReady api rel d' y 2)
      (disk_write api (filled 55) 8 false warm)
disk_write-view_example =
    disk_write-view api rel warm 0 1 8 (2 ∷ []) (filled 55) warm-IsCache (omega arith)
      λ h e at. refl

disk_write-direct_example :
    Returns
      (λ _ d'. (a : ℕ) → d'.dev a ≡ (if a == 267 then filled 55 else filled a))
      (disk_write api (filled 55) 1048843 true warm)
disk_write-direct_example = disk_write-direct api rel warm 1048843 (filled 55)

list_add-IsCache_example :
    Returns
      (λ _ d'.
        IsCache api rel d' 2 (0 ∷ 1 ∷ [])
        × ((d'.lru.node 2).prev ≡ none)
        × ((a : ℕ) → view api rel d' a ≡ (if a == 8 then filled 55 else view api rel warm a)))
      (list_add api 8 (filled 55) true warm)
list_add-IsCache_example =
    list_add-IsCache api rel warm 0 2 8 (1 ∷ []) (filled 55) true warm-IsCache (omega arith)
      (λ clean. cc) seven-absent

sync-contents_example :
    Returns
      (λ ended d'.
        (ended ≡ true)
        × IsCache api rel d' 0 (1 ∷ 2 ∷ [])
        × SameView api rel warm d'
        × ((b : ℕ) → d'.dev b ≡ view api rel warm b))
      (sync api 3 warm)
sync-contents_example = sync-contents api rel warm 0 (1 ∷ 2 ∷ []) 3 warm-IsCache (omega arith)

sync-knot_example :
    Returns
      (λ ended _. ended ≡ false)
      ((disk_read api zero_block 7 >> disk_read api zero_block 7 >> sync api 5000) warm)
sync-knot_example =
    sync-knot api rel warm 0 2 7 (1 ∷ []) (entry 7 2 2) zero_block zero_block warm-IsCache
      seven-present refl (omega arith) 5000

initialize-IsCache_example :
    Returns
      (λ _ d'.
        ((xs : List ℕ) × IsCache api rel d' 0 xs × (suc (length xs) ≡ buffer_num))
        × ((d'.lru.node 0).prev ≡ none)
        × ((b : ℕ) → view api rel d' b ≡ filled b))
      (initialize api 0 (some filled) warm)
initialize-IsCache_example = initialize-IsCache api rel 0 filled warm

hash_insert-hash_find_example :
    Returns
      (λ _ t'.
        IsMap t'
        × ((c : ℕ)
            → hash_find c t' ≡ (if c == 1007 then some (entry 1007 5 5) else hash_find c seven)))
      (hash_insert 1007 5 5 seven)
hash_insert-hash_find_example =
    hash_insert-hash_find 1007 5 5 seven seven-IsMap (rw (seven-find 1007))

hash_delete-hash_find_example :
    Returns
      (λ _ t'. IsMap t' × ((c : ℕ) → hash_find c t' ≡ (if c == 7 then none else hash_find c seven)))
      (hash_delete 7 seven)
hash_delete-hash_find_example =
    hash_delete-hash_find 7 seven (entry 7 2 2) seven-IsMap seven-present

list_prioritize-IsList_example :
    Returns (λ _ l'. IsList l' 1 (0 ∷ 2 ∷ []) × SameData three l') (list_prioritize 1 three)
list_prioritize-IsList_example = list_prioritize-IsList three 0 1 [] (2 ∷ []) three-IsList

requests-AreHeld_example :
    Returns
      (λ r d'.
        (r ≡ block_in (full λ a o. a) 1300)
        × AreHeld InCache d'
        × ((a : ℕ) → block_in d' a ≡ block_in (full λ a o. a) a))
      (disk_read api zero_block 1300 (full λ a o. a))
    × Returns
        (λ _ d'.
          AreHeld InCache d'
          × ((a : ℕ)
              → block_in d' a ≡ (if a == 1300 then zero_block else block_in (full λ a o. a) a)))
        (disk_write api zero_block 1300 false (full λ a o. a))
requests-AreHeld_example =
    requests-AreHeld api InCache (full λ a o. a) (full-AreHeld λ a o. a) 1300 refl zero_block
      zero_block
