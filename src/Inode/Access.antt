-- ===== src/Inode/Access.antt =====
-- The functions of inode.c that read and write a field of an inode, on a disk that mkfs laid out.
use mathlib.Core.Path.{subst}
use pcd_file_system.Prelude.{arith, ◌+◌, ◌/◌, ℕ, ◌<◌, ◌≡◌, ◌≢◌, refl, ap, ◌∙◌, fun_ext}
use pcd_file_system.Prelude.Run.{ok, returned, Returns, returns, bind_ok, mono, ◌>>◌}
use pcd_file_system.Block.{Block}
use pcd_file_system.Disk.Contract.{DiskOps, IsDisk}
use pcd_file_system.Sb.Store.{super_of-same}
use pcd_file_system.Inode.{Fs, Inode, load_super, load_target, store_target}
use pcd_file_system.Inode.Layout.{IsInode}
use pcd_file_system.Inode.Store.{
  IsLaidOut, IsNear, node_at, bit_at, blocks, super', load_super_lem, find_inode_by_inum-node_at,
}
use pcd_file_system.Inode.Update.{Stores, write_inode_to_disk-Stores}
use pcd_file_system.Inode.Fields.{read_field, write_field}

module _ (ops : DiskOps) (disk : IsDisk ops) (junk : Block) where
  open ops use {State}
  open disk use {Good, view}

  abbrev blocks' : Fs State → ℕ → Block
  blocks' s = blocks ops disk junk s

  -- A state on which the inode `inum` can be used.
  pub record HasInode (s : Fs State) (inum : ℕ) : Type 0 where
    pub good : Good s.disk
    pub laid : IsLaidOut (super' ops disk junk s)
    pub small : inum < 40960
    pub near : IsNear ops disk junk inum
    pub bit : bit_at (blocks' s) inum ≢ 0

  module _ (s : Fs State) (inum : ℕ) (h : HasInode s inum) where
    pub load_target_lem :
        Returns
          (λ n s'.
            (n ≡ node_at (blocks' s) inum)
            × (s'.target_node ≡ n)
            × Good s'.disk
            × (blocks' s' ≡ blocks' s))
          (load_target ops junk inum s)
    unfolding load_target
    load_target_lem =
        bind_ok (find_inode_by_inum-node_at ops disk junk s inum h.good h.laid h.small h.near h.bit)
          λ n s' (e, g, same, t). returns (e, refl, g, fun_ext same)

    -- A field is read from the inode that the disk holds, and no block changes.
    pub read_field-node_at :
        (field : Inode → ℕ)
        → Returns
            (λ r s'.
              (r ≡ field (node_at (blocks' s) inum)) × Good s'.disk × (blocks' s' ≡ blocks' s))
            (read_field ops junk field inum s)
    unfolding read_field
    read_field-node_at field =
        bind_ok load_target_lem λ n s' (e, t, g, same). returns (ap field e, g, same)

    -- On a disk that mkfs laid out, where the blocks that are used are within the contract of
    -- disk.c (they are while they are in the cache), for an inode below 40960 whose byte in the
    -- bitmap is set, and a change that leaves its fields within their C types, the changed inode
    -- is on the disk after write_field and in target_node; no other inode has changed, and no
    -- block but the one that holds it.
    pub write_field-Stores :
        (change : Inode → Inode)
        → IsInode (change (node_at (blocks' s) inum))
        → Returns
            (λ _ s'.
              Good s'.disk
              × Stores (blocks' s) (blocks' s') inum (change (node_at (blocks' s) inum))
              × (s'.target_node ≡ change (node_at (blocks' s) inum)))
            (write_field ops junk change inum s)
    unfolding write_field store_target
    write_field-Stores change is = bind_ok load_target_lem λ n s' (e, t, g, same).
        let s2 = record s' { target_node = change n } in
        let sup = super_of-same ops disk junk s.disk s'.disk (ap (λ v. v 0) same) in
        mono
          (write_inode_to_disk-Stores ops disk junk s2 inum (change n) g (rw sup h.laid) (rw e is)
            h.small h.near)
          λ _ s3 (g3, stores, t3). (
            g3,
            rw (← e) (subst (λ v. Stores v (blocks' s3) inum (change n)) same stores),
            t3 ∙ ap change e,
          )

  module _ (s : Fs State) (inum : ℕ) (h : HasInode s inum) where
    -- super and target_node are loaded, and no block changes
    pub loaded :
        (s1 : Fs State) × (s2 : Fs State) × (m : Inode) × (load_super ops junk s
          ≡ ok (super' ops disk junk s) s1)
        × (load_target ops junk inum s1 ≡ ok m s2)
        × (m ≡ node_at (blocks' s) inum)
        × (s2.target_node ≡ node_at (blocks' s) inum)
        × Good s2.disk
        × (blocks' s2 ≡ blocks' s)
        × (super' ops disk junk s2 ≡ super' ops disk junk s)
    unfolding bit_at
    loaded =
        let (d1, e1, g1, same1) = load_super_lem ops disk junk s h.good in
        let s1 : Fs State = record s { disk = d1; super = super' ops disk junk s } in
        let sup1 = super_of-same ops disk junk s.disk d1 (same1 0) in
        let h1 : HasInode s1 inum = record {
          good = g1;
          laid = rw sup1 h.laid;
          small = h.small;
          near = h.near;
          bit = rw (same1 (1 + inum / 4096)) h.bit;
        } in
        let v_same : blocks' s1 ≡ blocks' s = fun_ext same1 in
        let (m, s2, e2, w2) = returned (load_target_lem s1 inum h1) in
        let (value, t, g2, same2) = w2 in
        let sup2 = super_of-same ops disk junk s.disk s2.disk (ap (λ v. v 0) (same2 ∙ v_same)) in
        let node = value ∙ ap (λ v. node_at v inum) v_same in
        (s1, s2, m, e1, e2, node, t ∙ node, g2, same2 ∙ v_same, sup2)

  -- The inodes that are in use stay so where no block changes.
  pub HasInode-same :
      (s s' : Fs State) (inum : ℕ)
      → HasInode s inum
      → Good s'.disk
      → blocks' s' ≡ blocks' s
      → HasInode s' inum
  unfolding bit_at
  HasInode-same s s' inum h g same = record {
    good = g;
    laid = rw (super_of-same ops disk junk s.disk s'.disk (ap (λ v. v 0) same)) h.laid;
    small = h.small;
    near = h.near;
    bit = rw (ap (λ v. v (1 + inum / 4096)) same) h.bit;
  }

  -- The inodes that are in use stay so.
  pub Stores-HasInode :
      (s s' : Fs State) (inum other : ℕ) (n : Inode)
      → HasInode s other
      → Good s'.disk
      → Stores (blocks' s) (blocks' s') inum n
      → HasInode s' other
  unfolding bit_at
  Stores-HasInode s s' inum other n h g st = record {
    good = g;
    laid = rw (super_of-same ops disk junk s.disk s'.disk (st.outside 0 (omega arith))) h.laid;
    small = h.small;
    near = h.near;
    bit = let lt = h.small in rw (st.outside (1 + other / 4096) (omega arith)) h.bit;
  }

  module _ (s : Fs State) (inum : ℕ) (h : HasInode s inum) where
    -- A field that was written is read back, whatever else the change does.
    pub write_field-read_field :
        (change : Inode → Inode) (field : Inode → ℕ)
        → IsInode (change (node_at (blocks' s) inum))
        → Returns
            (λ r s'. r ≡ field (change (node_at (blocks' s) inum)))
            ((write_field ops junk change inum >> read_field ops junk field inum) s)
    write_field-read_field change field is =
        bind_ok (write_field-Stores s inum h change is) λ _ s2 (g2, stores, t2).
          mono (read_field-node_at s2 inum (Stores-HasInode s s2 inum inum _ h g2 stores) field)
            λ r s3 (e, g3, same). e ∙ ap field stores.node

    -- For two inodes in use on a disk that mkfs laid out, a change of the first that leaves its
    -- fields within their C types does not change what is read of a field of the second.
    pub write_field-read_field_other :
        (other : ℕ) (change : Inode → Inode) (field : Inode → ℕ)
        → HasInode s other
        → other ≢ inum
        → IsInode (change (node_at (blocks' s) inum))
        → Returns
            (λ r s'. r ≡ field (node_at (blocks' s) other))
            ((write_field ops junk change inum >> read_field ops junk field other) s)
    write_field-read_field_other other change field h' ne is =
        bind_ok (write_field-Stores s inum h change is) λ _ s2 (g2, stores, t2).
          mono (read_field-node_at s2 other (Stores-HasInode s s2 inum other _ h' g2 stores) field)
            λ r s3 (e, g3, same). e ∙ ap field (stores.others other ne)
