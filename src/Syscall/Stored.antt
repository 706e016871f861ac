-- ===== src/Syscall/Stored.antt =====
-- pcd_chmod, pcd_chown and pcd_utimens of syscall.c on a path that find_inode finds.
use mathlib.Core.Path.{subst}
use pcd_file_system.Prelude.{
  ℕ, ◌^◌, ◌<◌, ◌≡◌, refl, ap, ◌∙◌, Bool-cases, inl, inr, List, arith, if◌then◌else◌, ◌==◌,
}
use pcd_file_system.Prelude.Run.{
  Run, Cmd, ok, and_then, caught, pure, Returns, returns, fails, mono,
}
use pcd_file_system.Block.{Block}
use pcd_file_system.Disk.Contract.{DiskOps, IsDisk}
use pcd_file_system.Db.{uint_max}
use pcd_file_system.Inode.{Fs, Inode}
use pcd_file_system.Inode.Layout.{IsInode}
use pcd_file_system.Inode.Store.{node_at, blocks}
use pcd_file_system.Inode.Update.{Stores}
use pcd_file_system.Inode.Fields.{
  with_mode, with_uid, with_gid, with_last_accessed, with_last_modified, write_field,
  inode_read_mode, inode_write_mode, inode_write_uid, inode_write_gid, inode_write_last_accessed,
  inode_write_last_modified,
}
use pcd_file_system.Inode.Access.{
  HasInode, HasInode-same, Stores-HasInode, read_field-node_at, write_field-Stores,
}
use pcd_file_system.Syscall.{on_result, try_or, minus_one}
use pcd_file_system.Syscall.Lookup.{find_inode}
use pcd_file_system.Syscall.Attributes.{change_group, pcd_chmod, pcd_chown, pcd_utimens}

-- the fields of the inode after a call of pcd_chown
abbrev pub owned : ℕ → ℕ → Inode → Inode
owned uid gid n = record n {
  uid = if uid == uint_max then n.uid else uid;
  gid = if gid == uint_max then n.gid else gid;
}

-- a call that does not fail
try_lem :
    {S A : Type 0} {P : A → S → Type 0} {R : ℕ → S → Type 0} {r : Run S A} (code : ℕ)
    {k : A → Cmd S ℕ}
    → Returns P r
    → ((a : A) (s : S) → P a s → Returns R (k a s))
    → Returns R (and_then (caught r) λ o. on_result o code k)
unfolding on_result
try_lem code (returns p) next = next _ _ p
try_lem code (fails q) next = absurd q

module _ (ops : DiskOps) (disk : IsDisk ops) (junk : Block) where
  open ops use {State}
  open disk use {Good}

  abbrev blocks' : Fs State → ℕ → Block
  blocks' s = blocks ops disk junk s

  Stores-trans :
      (v v' v2 : ℕ → Block) (inum : ℕ) (n m : Inode)
      → Stores v v' inum n
      → Stores v' v2 inum m
      → Stores v v2 inum m
  Stores-trans v v' v2 inum n m a b = record {
    node = b.node;
    others = λ other ne. b.others other ne ∙ a.others other ne;
    outside = λ x ne. b.outside x ne ∙ a.outside x ne;
  }

  -- The run returns 0, and `n` has been stored.
  abbrev pub Sets : Fs State → ℕ → Inode → Run (Fs State) ℕ → Type 0
  Sets s inum n r =
      Returns (λ code s'. (code ≡ 0) × Good s'.disk × Stores (blocks' s) (blocks' s') inum n) r

  set_one :
      (s : Fs State) (inum : ℕ) (change : Inode → Inode)
      → HasInode ops disk junk s inum
      → IsInode (change (node_at (blocks' s) inum))
      → Sets s inum
          (change (node_at (blocks' s) inum))
          (try_or (write_field ops junk change inum) minus_one (λ _. pure 0) s)
  set_one s inum change h is =
      try_lem minus_one (write_field-Stores ops disk junk s inum h change is)
        λ _ s' (g, st, t). returns (refl, g, st)

  set_two :
      (s : Fs State) (inum : ℕ) (change1 change2 : Inode → Inode)
      → HasInode ops disk junk s inum
      → IsInode (change1 (node_at (blocks' s) inum))
      → IsInode (change2 (change1 (node_at (blocks' s) inum)))
      → Sets s inum (change2 (change1 (node_at (blocks' s) inum))) (
          try_or
            (write_field ops junk change1 inum)
            minus_one
            (λ _. try_or (write_field ops junk change2 inum) minus_one λ _. pure 0)
            s)
  set_two s inum change1 change2 h is1 is2 =
      try_lem minus_one (write_field-Stores ops disk junk s inum h change1 is1) λ _ s' (g, st, t).
        let h' = Stores-HasInode ops disk junk s s' inum inum _ h g st in
        let e = ap change2 st.node in
        mono (set_one s' inum change2 h' (rw st.node is2)) λ code s2 (zero_code, g2, st2). (
          zero_code,
          g2,
          Stores-trans _ _ _ inum _ _ st
              (subst (λ n. Stores (blocks' s') (blocks' s2) inum n) e st2),
        )

  module _ (path : List ℕ) (s s1 : Fs State) (inum : ℕ)
      (found : find_inode ops junk path s ≡ ok inum s1) (h : HasInode ops disk junk s1 inum)
      (is : IsInode (node_at (blocks' s1) inum)) where
    unchanged : Stores (blocks' s1) (blocks' s1) inum (node_at (blocks' s1) inum)
    unchanged = record { node = refl; others = λ other ne. refl; outside = λ a ne. refl }

    pcd_chmod-Sets :
        (mode : ℕ)
        → mode < 2 ^ 32
        → Sets s1 inum (with_mode mode (node_at (blocks' s1) inum)) (pcd_chmod ops junk path mode s)
    unfolding pcd_chmod inode_read_mode inode_write_mode on_result
    pcd_chmod-Sets mode lt = rw found (
        try_lem minus_one (read_field-node_at ops disk junk s1 inum h λ n. n.mode)
          λ old s2 (e, g, same).
            subst
              (λ v.
                Returns {A = ℕ}
                  (λ code s'.
                    (code ≡ 0)
                    × Good s'.disk
                    × Stores v (blocks' s') inum (with_mode mode (node_at v inum)))
                  (try_or (write_field ops junk (with_mode mode) inum) minus_one (λ _. pure 0) s2))
              same
              (set_one s2 inum (with_mode mode) (HasInode-same ops disk junk s1 s2 inum h g same)
                (rw same (omega arith))))

    pcd_utimens-Sets :
        (accessed modified : ℕ)
        → accessed < 2 ^ 64
        → modified < 2 ^ 64
        → Sets s1 inum
            (with_last_modified modified (with_last_accessed accessed (node_at (blocks' s1) inum)))
            (pcd_utimens ops junk path accessed modified s)
    unfolding pcd_utimens inode_write_last_accessed inode_write_last_modified on_result
    pcd_utimens-Sets accessed modified lt lt' = rw found (
        set_two s1 inum (with_last_accessed accessed) (with_last_modified modified) h (omega arith)
          (omega arith))

    pcd_chown-Sets :
        (uid gid : ℕ)
        → uid < 2 ^ 32
        → gid < 2 ^ 32
        → Sets s1 inum
            (owned uid gid (node_at (blocks' s1) inum))
            (pcd_chown ops junk path uid gid s)
    unfolding pcd_chown change_group inode_write_uid inode_write_gid on_result
    pcd_chown-Sets uid gid lt lt' = rw found (elim (Bool-cases (uid == uint_max)) [
      | inl no_uid ↦ elim (Bool-cases (gid == uint_max)) [
        | inl no_gid ↦ rw (no_uid, no_gid) (returns (refl, h.good, unchanged))
        | inr a_gid ↦ rw (no_uid, a_gid) (set_one s1 inum (with_gid gid) h (omega arith))
      ]
      | inr a_uid ↦ elim (Bool-cases (gid == uint_max)) [
        | inl no_gid ↦ rw (a_uid, no_gid) (set_one s1 inum (with_uid uid) h (omega arith))
        | inr a_gid ↦
            rw (a_uid, a_gid)
              (set_two s1 inum (with_uid uid) (with_gid gid) h (omega arith) (omega arith))
      ]
    ])

    -- On a path at which find_inode finds an inode in use, whose fields fit their C types, on a
    -- disk that mkfs laid out, with the inode's blocks of the bitmap and of the list within the
    -- contract of disk.c (they are while they are in the cache), pcd_chmod, pcd_chown and
    -- pcd_utimens with values that fit return 0 and store the mode, the owner and the group, each
    -- but where it is UINT_MAX, and the two times; no other field, no other inode and no block but
    -- the inode's changes.
    pub attributes-Sets :
        (mode uid gid accessed modified : ℕ)
        → mode < 2 ^ 32
        → uid < 2 ^ 32
        → gid < 2 ^ 32
        → accessed < 2 ^ 64
        → modified < 2 ^ 64
        → Sets s1 inum (with_mode mode (node_at (blocks' s1) inum)) (pcd_chmod ops junk path mode s)
          × Sets s1 inum
              (owned uid gid (node_at (blocks' s1) inum))
              (pcd_chown ops junk path uid gid s)
          × Sets s1 inum
              (with_last_modified modified
                (with_last_accessed accessed (node_at (blocks' s1) inum)))
              (pcd_utimens ops junk path accessed modified s)
    attributes-Sets mode uid gid accessed modified m u g a t =
        (pcd_chmod-Sets mode m, pcd_chown-Sets uid gid u g, pcd_utimens-Sets accessed modified a t)
