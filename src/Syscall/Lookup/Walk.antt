-- ===== src/Syscall/Lookup/Walk.antt =====
-- find_inode of syscall.c on a path of names: it looks them up one after the other.
use pcd_file_system.Prelude.{
  ℕ, zero, suc, ◌+◌, ◌≤◌, ◌≡◌, refl, true, false, List, [], ◌∷◌, ◌++◌, ◌==◌, arith,
}
use pcd_file_system.Prelude.Run.{ok, Cmd, pure, bind_cong, ◌>>=◌}
use pcd_file_system.Prelude.Lists.{length}
use pcd_file_system.Block.{Block}
use pcd_file_system.Disk.Contract.{DiskOps}
use pcd_file_system.Inode.{Fs}
use pcd_file_system.Inode.Fields.{get_root_inum}
use pcd_file_system.Path.{slash}
use pcd_file_system.Path.Names.{path_of, AreNames, join, get_dir-join}
use pcd_file_system.Syscall.Lookup.{follow_root, drop, find_inode_index, follow, find_inode}

length-append : (a b : List ℕ) → length (a ++ b) ≡ length a + length b
length-append [] b = omega arith
length-append (x ∷ a) b = omega (arith, length-append a b)

drop-append : (a : List ℕ) (c : ℕ) (b : List ℕ) → drop (suc (length a)) (a ++ c ∷ b) ≡ b
unfolding drop
drop-append [] c b = refl
drop-append (x ∷ a) c b = drop-append a c b

module _ (ops : DiskOps) (junk : Block) where
  open ops use {State}

  -- the names are looked up one after the other
  unfoldable pub walk : ℕ → List (List ℕ) → Cmd (Fs State) ℕ
  walk inum [] = pure inum
  walk inum (name ∷ names) = do next ← find_inode_index ops junk inum name; walk next names

  -- The last name is the one as long as the path; after another, the slash is dropped too.
  last_test : (name : List ℕ) → (length (name ++ join []) == length name) ≡ true
  unfolding join
  last_test name = ground (arith, length-append name [])

  other_test :
      (name : List ℕ) (c : ℕ) (r : List ℕ) → (length (name ++ c ∷ r) == length name) ≡ false
  other_test name c r = ground (arith, length-append name (c ∷ r))

  follow-walk :
      (rounds inum : ℕ) (name : List ℕ) (names : List (List ℕ)) (s : Fs State)
      → AreNames (name ∷ names)
      → length (name ++ join names) ≤ rounds
      → follow ops junk rounds inum (name ++ join names) s ≡ walk inum (name ∷ names) s
  unfolding walk follow join
  follow-walk rounds inum [] names s is le = absurd is.0
  follow-walk zero inum (c ∷ cs) names s is le = absurd (omega arith)
  follow-walk (suc rounds) inum (c ∷ cs) [] s is le = rw (get_dir-join (c ∷ cs) [] is.0) (
      bind_cong (find_inode_index ops junk inum (c ∷ cs) s) λ next s'. rw (last_test (c ∷ cs)) refl)
  follow-walk (suc rounds) inum (c ∷ cs) (n ∷ ns) s is le =
      let lt : length (n ++ join ns) ≤ rounds =
        omega (arith, length-append cs (slash ∷ n ++ join ns)) in
      rw (get_dir-join (c ∷ cs) (n ∷ ns) is.0) (
        bind_cong (find_inode_index ops junk inum (c ∷ cs) s) λ next s'.
          rw (other_test (c ∷ cs) slash (n ++ join ns), drop-append (c ∷ cs) slash (n ++ join ns))
            (follow-walk rounds next n ns s' is.1 lt))

  -- The path of names, each of them not empty and without a slash, is followed from the root.
  pub find_inode-walk :
      (names : List (List ℕ)) (root : ℕ) (s s' : Fs State)
      → AreNames names
      → get_root_inum ops junk s ≡ ok root s'
      → find_inode ops junk (path_of names) s ≡ walk root names s'
  unfolding find_inode follow_root path_of walk follow join
  find_inode-walk [] root s s' is e = rw e refl
  find_inode-walk (n ∷ ns) root s s' is e =
      rw e (follow-walk (length (n ++ join ns)) root n ns s' is (omega arith))
