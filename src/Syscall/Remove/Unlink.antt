-- ===== src/Syscall/Remove/Unlink.antt =====
-- pcd_unlink of syscall.c, for a file that has another link.
use mathlib.Core.Path.{subst}
use pcd_file_system.Prelude.{
  ℕ, suc, ◌+◌, ◌*◌, ◌/◌, ◌%◌, ◌≤◌, ◌<◌, ◌≡◌, ◌≢◌, refl, sym, ap, ◌∙◌, false, Bool, List, [], ◌∷◌,
  arith,
}
use pcd_file_system.Prelude.Run.{Returns, returned, returns, ok, mono}
use pcd_file_system.Prelude.Lists.{length}
use pcd_file_system.Block.{Block}
use pcd_file_system.Disk.Contract.{DiskOps, IsDisk}
use pcd_file_system.Sb.{Sb}
use pcd_file_system.Inode.{Fs, Inode}
use pcd_file_system.Inode.Layout.{IsInode}
use pcd_file_system.Inode.Store.{node_at, bit_at, blocks}
use pcd_file_system.Inode.Update.{Stores}
use pcd_file_system.Inode.Access.{HasInode, read_field-node_at}
use pcd_file_system.Inode.Fields.{inode_read_mode}
use pcd_file_system.Inode.Life.{inode_reduce_link_count}
use pcd_file_system.Inode.Counted.{one_less, inode_reduce_link_count-Stores}
use pcd_file_system.Inode.Blocks.Find.{IsIndexed, Leads, Usable}
use pcd_file_system.Inode.Files.Bytes.{Readable-same}
use pcd_file_system.Inode.Writes.Blocks.{AreBlocks, Writable}
use pcd_file_system.Path.{Parent, max_file_name}
use pcd_file_system.Path.Names.{IsName, AreNames, path_of}
use pcd_file_system.Path.Parents.{snoc, AreShort, AreNames-snoc, get_parent-path_of}
use pcd_file_system.Dir.{entry_inum}
use pcd_file_system.Syscall.{has_dir_bit, on_result}
use pcd_file_system.Syscall.Lookup.First.{IsFirst, HasEntries, entry}
use pcd_file_system.Syscall.Lookup.Resolve.{
  Holds, InUse, Resolves, here, below, Holds-Ready, Ready-Holds, find_inode-Resolves,
}
use pcd_file_system.Syscall.Entries.{is_dir, mode_bit, parent_of}
use pcd_file_system.Syscall.Entries.Delete.{TakenOut, delete_dirent-TakenOut}
use pcd_file_system.Syscall.Remove.{remove_from_parent, pcd_unlink}

module _ (ops : DiskOps) (disk : IsDisk ops) (junk : Block) (super : Sb) (ix : IsIndexed super)
    (v : ℕ → Block) where
  open ops use {State}
  open disk use {Good}

  abbrev On : Fs State → Type 0
  On s = Holds ops disk junk super ix v s

  -- one name more
  Resolves-snoc :
      (names : List (List ℕ)) (from to next : ℕ) (name : List ℕ)
      → Resolves ops disk junk super ix v from names to
      → Resolves ops disk junk super ix v to (name ∷ []) next
      → Resolves ops disk junk super ix v from (snoc names name) next
  unfolding snoc
  Resolves-snoc [] from to next name here last = last
  Resolves-snoc (x ∷ xs) from to next name (below ids named count k u d first other rest) last =
      below ids named count k u d first other (Resolves-snoc xs _ to next name rest last)

  is_dir_lem :
      (s : Fs State) (inum : ℕ)
      → On s
      → InUse ops disk junk super ix v inum
      → (s' : Fs State) × (is_dir ops junk inum s ≡ ok (has_dir_bit (node_at v inum).mode) s')
        × On s'
  unfolding is_dir mode_bit inode_read_mode
  is_dir_lem s inum h u =
      let none : ℕ → ℕ = λ i. 0 in
      let r = Holds-Ready ops disk junk super ix v inum none s h u in
      let (a, s', e, w) = returned (read_field-node_at ops disk junk s inum r.has λ n. n.mode) in
      let (value, g, same) = w in
      let mode = value ∙ ap (λ w. (node_at w inum).mode) r.same in
      (
        s',
        rw (e, mode) refl,
        Ready-Holds ops disk junk super ix v inum none s'
            (Readable-same ops disk junk super ix v inum none s s' r g same),
      )

  parent_lem :
      (names : List (List ℕ)) (name : List ℕ) (s : Fs State)
      → AreNames names
      → AreShort names
      → IsName name
      → length name < max_file_name
      → (p : Parent) × (parent_of (path_of (snoc names name)) s ≡ ok p s)
        × (p.parent_path ≡ path_of names)
        × (p.file_name ≡ name)
  unfolding parent_of
  parent_lem names name s are short is lt =
      let (p, e, path, file) = get_parent-path_of names name s are short is lt in
      (p, rw e refl, path, file)

  -- The file that an unlink concerns: its path is `names` and `name`, its directory `dir`, of
  -- `count` entries, of which it is entry `k`.
  pub record IsLink (names : List (List ℕ)) (name : List ℕ) (dir count k file : ℕ) (n : Inode)
      (ids : ℕ → ℕ) (num : ℕ) (are : AreBlocks ops disk junk super ids num) (named : ℕ → Bool)
      : Type 0 where
    pub names_are : AreNames names
    pub names_short : AreShort names
    pub is_name : IsName name
    pub name_short : length name < max_file_name
    pub parent : Resolves ops disk junk super ix v 0 names dir
    pub dir_used : InUse ops disk junk super ix v dir
    pub dir_node : node_at v dir ≡ n
    pub entries : HasEntries ops disk junk super ix v dir ids name named count
    pub first : IsFirst named count k
    pub inum : entry_inum (entry ops disk junk super ix v dir ids k) ≡ file
    pub leads :
        (j : ℕ)
        → j < num
        → Leads (λ b. Usable ops disk junk super b × ((i : ℕ) → i < num → ids i ≢ b)) v n j (ids j)
    pub room : 264 * count ≤ 4096 * num
    pub room1 : 264 * count ≤ super.filesize
    pub room2 : 264 * count ≤ super.max_file_size
    pub file_used : InUse ops disk junk super ix v file
    pub is_file : has_dir_bit (node_at v file).mode ≡ false
    pub is_inode : IsInode (node_at v file)
    pub links : 2 ≤ (node_at v file).link_count

  module _ (names : List (List ℕ)) (name : List ℕ) (dir count k file : ℕ) (n : Inode) (ids : ℕ → ℕ)
      (num : ℕ) (are : AreBlocks ops disk junk super ids num) (named : ℕ → Bool)
      (l : IsLink names name dir count k file n ids num are named) (depth : ℕ) where
    -- the entry is taken out of the directory, and the file has one link less
    pub record Unlinked (s' : Fs State) : Type 0 where
      pub between : Fs State
      pub out : Block
      pub taken : TakenOut ops disk junk super ix dir n ids num are v count k out between
      pub good : Good s'.disk
      pub stored :
          Stores taken.disk_after (blocks ops disk junk s') file (one_less (node_at v file))

    file-Resolves : Resolves ops disk junk super ix v 0 (snoc names name) file
    file-Resolves = Resolves-snoc names 0 dir file name l.parent (
        below ids named count k l.dir_used l.entries l.first
          (let small = l.file_used.small in rw l.inum (omega arith))
          (subst (λ i. Resolves ops disk junk super ix v i [] file) (sym l.inum) here))

    -- the file's inode is in no block of the directory
    kept :
        (v' : ℕ → Block)
        → ((a : ℕ) → ((j : ℕ) → j < num → ids j ≢ a) → v' a ≡ v a)
        → (bit_at v' file ≡ bit_at v file) × (node_at v' file ≡ node_at v file)
    unfolding bit_at node_at
    kept v' outside =
        let small = l.file_used.small in
        let apart : (a : ℕ) → a < 1291 → (j : ℕ) → j < num → ids j ≢ a =
          λ a lt j j_lt e. let far = are.is_data j j_lt in absurd (omega arith) in
        (
          ap (λ b. b (file % 4096))
              (outside (1 + file / 4096) (apart (1 + file / 4096) (omega arith))),
          rw (outside (11 + file / 32) (apart (11 + file / 32) (omega arith))) refl,
        )

    unlinked :
        (s : Fs State) (out : Block)
        → TakenOut ops disk junk super ix dir n ids num are v count k out s
        → Returns (λ _ s'. Unlinked s') (inode_reduce_link_count ops junk file s)
    unlinked s out t =
        let r = t.on.readable in
        let (bit_kept, node_kept) = kept t.disk_after t.outside in
        let node_same : node_at (blocks ops disk junk s) file ≡ node_at v file =
          ap (λ w. node_at w file) r.same ∙ node_kept in
        let bit_same : bit_at (blocks ops disk junk s) file ≡ bit_at v file =
          ap (λ w. bit_at w file) r.same ∙ bit_kept in
        let has : HasInode ops disk junk s file = record {
          good = r.has.good;
          laid = r.has.laid;
          small = l.file_used.small;
          near = l.file_used.near;
          bit = rw bit_same l.file_used.bit;
        } in
        mono
          (inode_reduce_link_count-Stores ops disk junk s file has (rw node_same l.is_inode)
            (rw node_same l.links))
          λ _ s' (g, st). record {
            between = s;
            out = out;
            taken = t;
            good = g;
            stored =
                subst (λ w. Stores w (blocks ops disk junk s') file (one_less (node_at v file)))
                  r.same
                  (subst
                    (λ m.
                      Stores (blocks ops disk junk s) (blocks ops disk junk s') file (one_less m))
                    node_same st);
          }

    -- On a disk that mkfs laid out, where the blocks that are used are within the contract of
    -- disk.c (they are while they are in the cache), for a file in use that is no directory by the
    -- test of is_dir, has two links or more, and is the first entry with its name in its parent,
    -- where the names of the path are not empty, have no slash and fit the arrays of get_parent,
    -- and the parent's blocks can be written as a file's, pcd_unlink of the path returns 0; the
    -- entry has no name and the inum -1 then, the parent's other entries are as they were, and the
    -- file's inode is stored with one link less, with no other change.
    pub pcd_unlink-Unlinked :
        (s : Fs State)
        → On s
        → Returns
            (λ r s'. (r ≡ 0) × Unlinked s')
            (pcd_unlink ops junk (suc depth) (path_of (snoc names name)) s)
    unfolding pcd_unlink remove_from_parent on_result
    pcd_unlink-Unlinked s h =
        let path_are = AreNames-snoc names name l.names_are l.is_name in
        let (r1, s1, e1, w1) = returned (
          find_inode-Resolves ops disk junk super ix v (snoc names name) file s path_are h
            file-Resolves) in
        let (s2, e2, h2) = is_dir_lem s1 file w1.1 l.file_used in
        let (p, e3, parent_path, file_name) =
          parent_lem names name s2 l.names_are l.names_short l.is_name l.name_short in
        let (r4, s4, e4, w4) =
          returned
            (find_inode-Resolves ops disk junk super ix v names dir s2 l.names_are h2 l.parent) in
        let dir_ready = Holds-Ready ops disk junk super ix v dir ids s4 w4.1 l.dir_used in
        let writable : Writable ops disk junk super ix dir n ids num are v s4 = record {
          readable = dir_ready;
          node = l.dir_node;
          leads = l.leads;
        } in
        let node_size : n.size ≡ 264 * count = rw (← l.dir_node) l.entries.directory.size in
        let (out, s5, e5, t) = returned (
          delete_dirent-TakenOut ops disk junk super ix dir n ids num are v name named count k
            l.entries l.first node_size l.room l.room1 l.room2 depth s4 writable) in
        let (_, s6, e6, done) = returned (unlinked s5 out t) in
        rw (e1, w1.0, e2, l.is_file, e3, parent_path, file_name, e4, w4.0, e5, e6)
          (returns (refl, done))
