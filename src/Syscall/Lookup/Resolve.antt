-- ===== src/Syscall/Lookup/Resolve.antt =====
-- find_inode of syscall.c against the tree of directories that the disk holds.
use mathlib.Core.Path.{subst}
use pcd_file_system.Prelude.{
  ℕ, ◌<◌, ◌≡◌, ◌≢◌, inl, inr, refl, sym, ap, ◌∙◌, fun_ext, Bool, List, [], ◌∷◌, arith, ltb,
  Bool-cases,
}
use mathlib.Core.Bool.{false≢true}
use pcd_file_system.Prelude.Run.{ok, Returns, returns, bind_ok, not_fails}
use pcd_file_system.Block.{Block}
use pcd_file_system.Disk.Contract.{DiskOps, IsDisk}
use pcd_file_system.Sb.{Sb}
use pcd_file_system.Sb.Store.{super_of-same}
use pcd_file_system.Db.{uint_max}
use pcd_file_system.Inode.{Fs}
use pcd_file_system.Inode.Store.{IsLaidOut, IsNear, bit_at, blocks, super', load_super_lem}
use pcd_file_system.Inode.Fields.{get_root_inum}
use pcd_file_system.Inode.Blocks.Find.{IsIndexed}
use pcd_file_system.Inode.Files.Bytes.{Readable}
use pcd_file_system.Path.Names.{AreNames}
use pcd_file_system.Dir.{entry_inum}
use pcd_file_system.Syscall.Lookup.{find_inode_index, find_inode}
use pcd_file_system.Path.Names.{path_of}
use pcd_file_system.Syscall.Lookup.Walk.{walk, find_inode-walk}
use pcd_file_system.Syscall.Lookup.First.{IsFirst, entry, HasEntries, find_inode_index-First}

IsFirst-same :
    (named : ℕ → Bool) (count j k : ℕ) → IsFirst named count j → IsFirst named count k → j ≡ k
IsFirst-same named count j k a b = elim (Bool-cases (ltb j k)) [
  | inl lt ↦ absurd (false≢true (sym (b.before j a.from (ground arith)) ∙ a.hit))
  | inr ge ↦ elim (Bool-cases (ltb k j)) [
    | inl lt ↦ absurd (false≢true (sym (a.before k b.from (ground arith)) ∙ b.hit))
    | inr ge' ↦ ground arith
  ]
]

module _ (ops : DiskOps) (disk : IsDisk ops) (junk : Block) (super : Sb) (ix : IsIndexed super)
    (v : ℕ → Block) where
  open ops use {State}
  open disk use {Good, view}

  -- a state whose disk holds `v`
  pub record Holds (s : Fs State) : Type 0 where
    pub good : Good s.disk
    pub laid : IsLaidOut (super' ops disk junk s)
    pub super_same : super' ops disk junk s ≡ super
    pub same : blocks ops disk junk s ≡ v

  -- the inode `inum` is in use
  pub record InUse (inum : ℕ) : Type 0 where
    pub small : inum < 40960
    pub near : IsNear ops disk junk inum
    pub bit : bit_at v inum ≢ 0

  -- From the directory `inum` the names lead to the inode `target`.
  pub data Resolves : ℕ → List (List ℕ) → ℕ → Type 0 where
    here : {inum : ℕ} → Resolves inum [] inum
    below :
        {inum target : ℕ} {name : List ℕ} {names : List (List ℕ)}
        → (ids : ℕ → ℕ) (named : ℕ → Bool) (count k : ℕ) → InUse inum
        → HasEntries ops disk junk super ix v inum ids name named count
        → IsFirst named count k
        → entry_inum (entry ops disk junk super ix v inum ids k) ≢ uint_max
        → Resolves (entry_inum (entry ops disk junk super ix v inum ids k)) names target
        → Resolves inum (name ∷ names) target

  pub Holds-Ready :
      (inum : ℕ) (ids : ℕ → ℕ) (s : Fs State)
      → Holds s
      → InUse inum
      → Readable ops disk junk super ix v inum ids s
  Holds-Ready inum ids s h u = record {
    has = record {
      good = h.good;
      laid = h.laid;
      small = u.small;
      near = u.near;
      bit = rw h.same u.bit;
    };
    super_same = h.super_same;
    same = h.same;
  }

  pub Ready-Holds :
      (inum : ℕ) (ids : ℕ → ℕ) (s : Fs State)
      → Readable ops disk junk super ix v inum ids s
      → Holds s
  Ready-Holds inum ids s r = record {
    good = r.has.good;
    laid = r.has.laid;
    super_same = r.super_same;
    same = r.same;
  }

  step_lem :
      (inum : ℕ) (ids : ℕ → ℕ) (name : List ℕ) (named : ℕ → Bool) (count k : ℕ) (s : Fs State)
      → Holds s
      → InUse inum
      → HasEntries ops disk junk super ix v inum ids name named count
      → IsFirst named count k
      → entry_inum (entry ops disk junk super ix v inum ids k) ≢ uint_max
      → Returns
          (λ r s'. (r ≡ entry_inum (entry ops disk junk super ix v inum ids k)) × Holds s')
          (find_inode_index ops junk inum name s)
  step_lem inum ids name named count k s h u d first other =
      let inum_of : ℕ → ℕ = λ x. entry_inum (entry ops disk junk super ix v inum ids x) in
      not_fails
        (find_inode_index-First ops disk junk super ix v inum ids name named count d s
          (Holds-Ready inum ids s h u))
        (λ a s' (j, first', e, r).
          (e ∙ ap inum_of (IsFirst-same named count j k first' first), Ready-Holds inum ids s' r))
        λ s' (why, r). elim why [
          | inl none ↦ false≢true (sym (none k first.from first.below) ∙ first.hit)
          | inr max ↦ other (ap inum_of (IsFirst-same named count k max.0 first max.1) ∙ max.2)
        ]

  walk-Resolves :
      (inum target : ℕ) (names : List (List ℕ)) (s : Fs State)
      → Holds s
      → Resolves inum names target
      → Returns (λ r s'. (r ≡ target) × Holds s') (walk ops junk inum names s)
  unfolding walk
  walk-Resolves inum target [] s h here = returns (refl, h)
  walk-Resolves inum target (name ∷ names) s h (below ids named count k u d first other rest) =
      bind_ok (step_lem inum ids name named count k s h u d first other) λ next s' (e, h').
        subst (λ i. Returns (λ r s2. (r ≡ target) × Holds s2) (walk ops junk i names s')) (sym e)
          (walk-Resolves (entry_inum (entry ops disk junk super ix v inum ids k)) target names s' h'
            rest)

  -- On a disk that mkfs laid out, with the blocks that are used within the contract of disk.c
  -- (they are while they are in the cache), where the names of a path, none of them empty or with
  -- a slash, lead from the root directory through directories in use, each of them the first entry
  -- of its directory with that name, to an inode, find_inode of the path returns that inode and
  -- changes no block. Each directory's entries lie in blocks of the first two levels of its tree,
  -- its size is a multiple of that of an entry and below 2^31, and its names end within their
  -- entries.
  pub find_inode-Resolves :
      (names : List (List ℕ)) (target : ℕ) (s : Fs State)
      → AreNames names
      → Holds s
      → Resolves 0 names target
      → Returns (λ r s'. (r ≡ target) × Holds s') (find_inode ops junk (path_of names) s)
  unfolding get_root_inum
  find_inode-Resolves names target s are h leads =
      let (d, e, g, same) = load_super_lem ops disk junk s h.good in
      let s1 : Fs State = record s { disk = d; super = super' ops disk junk s } in
      let sup = super_of-same ops disk junk s.disk d (same 0) in
      let h1 : Holds s1 = record {
        good = g;
        laid = rw sup h.laid;
        super_same = sup ∙ h.super_same;
        same = fun_ext same ∙ h.same;
      } in
      let root : get_root_inum ops junk s ≡ ok (super' ops disk junk s).root_inum s1 = rw e refl in
      rw (find_inode-walk ops junk names (super' ops disk junk s).root_inum s s1 are root) (
        subst (λ root. Returns (λ r s'. (r ≡ target) × Holds s') (walk ops junk root names s1))
          (sym h.laid.root_inum) (walk-Resolves 0 target names s1 h1 leads))
