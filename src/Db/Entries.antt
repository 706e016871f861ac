-- ===== src/Db/Entries.antt =====
-- The entries of a block of the free list, and the searches of db_allocate and db_free among them.
use pcd_file_system.Prelude.{
  ℕ, zero, suc, ◌+◌, ◌^◌, ◌≤◌, ◌<◌, ◌≡◌, ◌≢◌, refl, false, none, some, List, [], ◌∷◌, ◌++◌, arith,
  if◌then◌else◌, ◌==◌, ◌∙◌, Bool-cases, inl, inr,
}
use pcd_file_system.Prelude.Lists.{length}
use pcd_file_system.Block.{zero_block, Block, word, set_word}
use pcd_file_system.Block.Words.{word-set_word, word-set_word_ne}
use pcd_file_system.Db.{find_used, find_empty}

-- the ids among `rounds` entries from `i` on
unfoldable pub entries : Block → ℕ → ℕ → List ℕ
entries b zero i = []
entries b (suc rounds) i =
    let rest = entries b rounds (i + 1) in if word b i == 0 then rest else word b i ∷ rest

pub entries-frame :
    (b b' : Block) (rounds i : ℕ)
    → ((j : ℕ) → i ≤ j → word b' j ≡ word b j)
    → entries b' rounds i ≡ entries b rounds i
unfolding entries
entries-frame b b' zero i same = refl
entries-frame b b' (suc rounds) i same =
    rw (same i (omega arith), entries-frame b b' rounds (i + 1) (λ j h. same j (omega arith)))

-- What find_used finds is the first id, and clearing it leaves the others.
pub find_used-some :
    (b : Block) (rounds i j : ℕ)
    → find_used b rounds i ≡ some j
    → (i ≤ j) × (entries b rounds i ≡ word b j ∷ entries (set_word b j 0) rounds i)
unfolding find_used entries
find_used-some b zero i j h = cc
find_used-some b (suc rounds) i j h = elim (Bool-cases (word b i == 0)) [
  | inl empty ↦
      let found : find_used b rounds (i + 1) ≡ some j = ground arith in
      let (le, e) = find_used-some b rounds (i + 1) j found in
      let same : word (set_word b j 0) i ≡ word b i = word-set_word_ne b j i 0 (omega arith) in
      (omega arith, rw (same, empty) e)
  | inr used ↦
      let e : i ≡ j = ground arith in
      let gone : word (set_word b j 0) i ≡ 0 = rw e (word-set_word b j 0) in
      (
        omega arith,
        rw (gone, used)
            (rw e (
              rw (
                entries-frame b (set_word b j 0) rounds (j + 1)
                  (λ k le. word-set_word_ne b j k 0 (omega arith))))),
      )
]

pub find_used-none :
    (b : Block) (rounds i : ℕ) → find_used b rounds i ≡ none → entries b rounds i ≡ []
unfolding find_used entries
find_used-none b zero i h = refl
find_used-none b (suc rounds) i h = elim (Bool-cases (word b i == 0)) [
  | inl empty ↦ rw empty (find_used-none b rounds (i + 1) (ground arith))
  | inr used ↦ absurd (ground arith)
]

-- An id that is put into the entry that find_empty finds joins the others.
pub find_empty-some :
    (b : Block) (rounds i j v : ℕ)
    → find_empty b rounds i ≡ some j
    → v ≢ 0
    → v < 2 ^ 32
    → (i ≤ j)
      × (us : List ℕ) × (vs : List ℕ) × (entries b rounds i ≡ us ++ vs)
      × (entries (set_word b j v) rounds i ≡ us ++ v ∷ vs)
unfolding find_empty entries
find_empty-some b zero i j v h nz lt = cc
find_empty-some b (suc rounds) i j v h nz lt = elim (Bool-cases (word b i == 0)) [
  | inl empty ↦
      let e : i ≡ j = ground arith in
      let put : word (set_word b j v) i ≡ v = rw e (word-set_word b j v ∙ omega arith) in
      let used : (v == 0) ≡ false = ground arith in
      (
        omega arith,
        [],
        entries b rounds (i + 1),
        rw empty,
        rw (put, used)
            (rw (
              entries-frame b (set_word b j v) rounds (i + 1)
                (λ k le. word-set_word_ne b j k v (omega arith)))),
      )
  | inr used ↦
      let (le, us, vs, e, e') = find_empty-some b rounds (i + 1) j v (ground arith) nz lt in
      let same : word (set_word b j v) i ≡ word b i = word-set_word_ne b j i v (omega arith) in
      (omega arith, word b i ∷ us, vs, rw used (rw e), rw (same, used) (rw e'))
]

pub find_empty-none :
    (b : Block) (rounds i : ℕ) → find_empty b rounds i ≡ none → length (entries b rounds i) ≡ rounds
unfolding find_empty entries
find_empty-none b zero i h = refl
find_empty-none b (suc rounds) i h = elim (Bool-cases (word b i == 0)) [
  | inl empty ↦ absurd (ground arith)
  | inr used ↦ rw used (omega (arith, find_empty-none b rounds (i + 1) (ground arith)))
]

pub entries-zero_block : (rounds i : ℕ) → entries zero_block rounds i ≡ []
unfolding entries word
entries-zero_block zero i = refl
entries-zero_block (suc rounds) i = entries-zero_block rounds (i + 1)
