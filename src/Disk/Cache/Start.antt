-- ===== src/Disk/Cache/Start.antt =====
-- initialize of fs.c, less allocate_cache.
use pcd_file_system.Prelude.{ℕ, suc, ◌≡◌, refl, none, some, List, arith}
use pcd_file_system.Prelude.Run.{Returns, returns}
use pcd_file_system.Disk.Lru.{list_init}
use pcd_file_system.Prelude.Lists.{length}
use pcd_file_system.Disk.Lru.Init.{count_from, list_init-IsList, length-count_from}
use pcd_file_system.Disk.Hash.{hash_init, hash_find, buffer_num}
use pcd_file_system.Disk.Hash.Map.{hash_init-IsMap}
use pcd_file_system.Disk.Device.{FileApi, IsReliable}
use pcd_file_system.Disk.Cache.{Disk, initialize}
use pcd_file_system.Disk.Cache.Coherent.{view, IsCache}

hash_find-hash_init : (b : ℕ) → hash_find b hash_init ≡ none
unfolding hash_find hash_init pcd_file_system.Disk.Hash.find_in
hash_find-hash_init b = refl

module _ (api : FileApi) (rel : IsReliable api) where
  open api use {File}

  abbrev started : ℕ → ℕ → File → Disk File → Disk File
  started junk n f d = record d { dev = f; lru = list_init junk (suc n) d.lru; table = hash_init }

  started-IsCache :
      (junk n : ℕ) (f : File) (d : Disk File)
      → IsCache api rel (started junk n f d) 0 (count_from 1 n)
  started-IsCache junk n f d =
      let (list, _, fresh) = list_init-IsList junk n d.lru in
      record {
        list = list;
        coherent = record {
          map = hash_init-IsMap;
          found = λ b h e. absurd (cc (hash_find-hash_init b));
          held = λ a i m. absurd (cc ((fresh a i).unused));
          tidy = λ a i m. (fresh a i).clean;
          owner = λ a i. (fresh a i).buffer;
        };
      }

  -- After initialize with the file open, the cache is in order with BUFFER_NUM buffers, the prev
  -- pointer of the head is NULL, and every block reads as the file holds it.
  pub initialize-IsCache :
      (junk : ℕ) (f : File) (d : Disk File)
      → Returns
          (λ _ d'.
            ((xs : List ℕ) × IsCache api rel d' 0 xs × (suc (length xs) ≡ buffer_num))
            × ((d'.lru.node 0).prev ≡ none)
            × ((b : ℕ) → view api rel d' b ≡ rel.contents f b))
          (initialize api junk (some f) d)
  unfolding initialize view
  initialize-IsCache junk f d = returns (
    (count_from 1 999, started-IsCache junk 999 f d, omega (arith, length-count_from 1 999)),
    (list_init-IsList junk 999 d.lru).1,
    λ b. rw (hash_find-hash_init b),
  )
