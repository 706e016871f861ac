-- ===== src/Inode/Writes/Written.antt =====
-- What write_file of inode.c does to the bytes of a file that it does not make longer.
use mathlib.Core.Path.{subst}
use pcd_file_system.Prelude.{
  ℕ, ◌+◌, ◌-◌, ◌*◌, ◌/◌, ◌%◌, ◌≤◌, ◌<◌, ◌≡◌, ◌≢◌, ◌⊎◌, inl, inr, refl, ◌∙◌, true, false, arith, ltb,
  ◌==◌, Bool-cases, if◌then◌else◌,
}
use pcd_file_system.Block.{Block}
use pcd_file_system.Inode.Files.{copy}
use pcd_file_system.Inode.Files.Read.{file_byte}

-- the disk after a write of the block `a`
abbrev pub put : (ℕ → Block) → ℕ → Block → ℕ → Block
put v a b x = if x == a then b else v x

copy-inside :
    (to from : Block) (at off n k : ℕ) → k < n → copy to at from off n (at + k) ≡ from (off + k)
unfolding copy
copy-inside to from at off n k lt =
    let start : ltb (at + k) at ≡ false = ground arith in
    let inside : ltb (at + k) (at + n) ≡ true = ground arith in
    let index : at + k - at ≡ k = omega arith in rw (start, inside, index) refl

copy-outside :
    (to from : Block) (at off n o : ℕ) → (o < at) ⊎ (at + n ≤ o) → copy to at from off n o ≡ to o
unfolding copy
copy-outside to from at off n o (inl lt) =
    let before : ltb o at ≡ true = ground arith in rw before refl
copy-outside to from at off n o (inr le) =
    let start : ltb o at ≡ false = ground arith in
    let past : ltb o (at + n) ≡ false = ground arith in rw (start, past) refl

module _ (ids : ℕ → ℕ) (count : ℕ) where
  -- The `size` bytes of `buf` from `at` on are in the file from `pos` on, and the other bytes of
  -- its `count` blocks, and the other blocks, are as they were.
  pub record IsWritten (v v' : ℕ → Block) (buf : Block) (at pos size : ℕ) : Type 0 where
    pub bytes : (k : ℕ) → k < size → file_byte v' ids (pos + k) ≡ buf (at + k)
    pub others :
        (p : ℕ)
        → p < 4096 * count
        → (p < pos) ⊎ (pos + size ≤ p)
        → file_byte v' ids p ≡ file_byte v ids p
    pub outside : (a : ℕ) → ((k : ℕ) → k < count → ids k ≢ a) → v' a ≡ v a

  pub IsWritten-nothing : (v : ℕ → Block) (buf : Block) (at pos : ℕ) → IsWritten v v buf at pos 0
  IsWritten-nothing v buf at pos = record {
    bytes = λ k lt. absurd (omega arith);
    others = λ p lt apart. refl;
    outside = λ a free. refl;
  }

  pub IsWritten-then :
      (v v1 v2 : ℕ → Block) (buf : Block) (at pos n m : ℕ)
      → pos + n + m ≤ 4096 * count
      → IsWritten v v1 buf at pos n
      → IsWritten v1 v2 buf (at + n) (pos + n) m
      → IsWritten v v2 buf at pos (n + m)
  IsWritten-then v v1 v2 buf at pos n m le a b = record {
    bytes = λ k lt. elim (Bool-cases (ltb k n)) [
      | inl here ↦
          let below : k < n = ground arith in
          b.others (pos + k) (omega arith) (inl (omega arith)) ∙ a.bytes k below
      | inr there ↦
          let from : pos + n + (k - n) ≡ pos + k = ground arith in
          let to : at + n + (k - n) ≡ at + k = ground arith in
          subst (λ i. file_byte v2 ids i ≡ buf (at + k)) from
            (subst (λ i. file_byte v2 ids (pos + n + (k - n)) ≡ buf i) to
              (b.bytes (k - n) (ground arith)))
    ];
    others = λ p lt apart.
        b.others p lt (elim apart [ inl x ↦ inl (omega arith) | inr x ↦ inr (omega arith) ])
        ∙ a.others p lt (elim apart [ inl x ↦ inl x | inr x ↦ inr (omega arith) ]);
    outside = λ x free. b.outside x free ∙ a.outside x free;
  }

  -- the rest begins where a part ended, or is empty
  pub IsWritten-from :
      (v v' : ℕ → Block) (buf : Block) (at pos pos' size : ℕ)
      → (pos' ≡ pos) ⊎ (size ≡ 0)
      → IsWritten v v' buf at pos' size
      → IsWritten v v' buf at pos size
  IsWritten-from v v' buf at pos pos' size from w = elim from [
    | inl e ↦ subst (λ i. IsWritten v v' buf at i size) e w
    | inr none ↦ record {
      bytes = λ k lt. absurd (omega (arith, none));
      others = λ p lt apart. w.others p lt (elim (Bool-cases (ltb p pos')) [
        | inl before ↦ inl (ground arith)
        | inr after ↦ inr (ground (arith, none))
      ]);
      outside = w.outside;
    }
  ]

  -- a copy into one block
  pub IsWritten-copy :
      (v : ℕ → Block) (buf : Block) (num off at n : ℕ)
      → ((j k : ℕ) → j < count → k < count → ids j ≡ ids k → j ≡ k)
      → num < count
      → off + n ≤ 4096
      → IsWritten v (put v (ids num) (copy (v (ids num)) off buf at n)) buf at (4096 * num + off) n
  unfolding file_byte
  IsWritten-copy v buf num off at n distinct lt le = record {
    bytes = λ k k_lt.
        let quotient : (4096 * num + off + k) / 4096 ≡ num = omega arith in
        let rest : (4096 * num + off + k) % 4096 ≡ off + k = omega arith in
        let hit : (ids num == ids num) ≡ true = ground arith in
        rw (quotient, rest, hit) (copy-inside (v (ids num)) buf off at n k k_lt);
    others = λ p p_lt apart. elim (Bool-cases (p / 4096 == num)) [
      | inl here ↦
          let quotient : p / 4096 ≡ num = ground arith in
          let hit : (ids num == ids num) ≡ true = ground arith in
          let apart' : (p % 4096 < off) ⊎ (off + n ≤ p % 4096) = elim apart [
            | inl x ↦ inl (omega arith)
            | inr x ↦ inr (omega arith)
          ] in
          rw (quotient, hit) (copy-outside (v (ids num)) buf off at n (p % 4096) apart')
      | inr there ↦
          let other : p / 4096 ≢ num = ground arith in
          let in_file : p / 4096 < count = omega arith in
          let ne : ids (p / 4096) ≢ ids num = λ e. other (distinct (p / 4096) num in_file lt e) in
          let miss : (ids (p / 4096) == ids num) ≡ false = ground arith in rw miss refl
    ];
    outside = λ a free.
        let ne = free num lt in let miss : (a == ids num) ≡ false = ground arith in rw miss refl;
  }
