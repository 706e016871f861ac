-- ===== src/Syscall/Lookup/Rounds.antt =====
-- The rounds that find_inode of syscall.c is given are enough for any path.
use pcd_file_system.Prelude.{
  ℕ, zero, suc, ◌≤◌, ◌≡◌, refl, inl, inr, List, [], ◌∷◌, ◌==◌, arith, Bool-cases,
}
use pcd_file_system.Prelude.Run.{bind_cong, deref}
use pcd_file_system.Prelude.Lists.{length}
use pcd_file_system.Block.{Block}
use pcd_file_system.Disk.Contract.{DiskOps}
use pcd_file_system.Inode.{Fs}
use pcd_file_system.Path.{get_dir}
use pcd_file_system.Syscall.Lookup.{drop, find_inode_index, follow}

length-drop : (n : ℕ) (cs : List ℕ) → length (drop n cs) ≤ length cs
unfolding drop
length-drop zero cs = omega arith
length-drop (suc n) [] = omega arith
length-drop (suc n) (c ∷ cs) = omega (arith, length-drop n cs)

-- one character goes in any case
length-drop_first : (n c : ℕ) (cs : List ℕ) → length (drop (suc n) (c ∷ cs)) ≤ length cs
unfolding drop
length-drop_first n c cs = length-drop n cs

module _ (ops : DiskOps) (junk : Block) where
  open ops use {State}

  -- For the loop of find_inode, on any path and from any inode, every bound on its rounds that is
  -- at least the number of characters of the path gives the same run.
  pub follow-enough :
      (r r' inum : ℕ) (path : List ℕ) (s : Fs State)
      → length path ≤ r
      → length path ≤ r'
      → follow ops junk r inum path s ≡ follow ops junk r' inum path s
  unfolding follow
  follow-enough r r' inum [] s le le' = refl
  follow-enough zero r' inum (c ∷ cs) s le le' = absurd (omega arith)
  follow-enough (suc r) zero inum (c ∷ cs) s le le' = absurd (omega arith)
  follow-enough (suc r) (suc r') inum (c ∷ cs) s le le' =
      bind_cong (deref (get_dir (c ∷ cs)) s) λ dir s1.
        bind_cong (find_inode_index ops junk inum dir s1) λ next s2.
          elim (Bool-cases (length (c ∷ cs) == length dir)) [
            | inl last ↦ rw last refl
            | inr more ↦
                let rest = drop (suc (length dir)) (c ∷ cs) in
                let shorter : length rest ≤ length cs = length-drop_first (length dir) c cs in
                rw more (follow-enough r r' next rest s2 (omega arith) (omega arith))
          ]
