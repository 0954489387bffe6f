-- ===== src/FileSystem/Directories/Deletions/Removal.antt =====
-- The search of `remove_inode_from_dir`, which looks at the first seven entries only.
use njuos.Prelude.{
  ℕ, zero, suc, ◌+◌, ◌-◌, ◌*◌, ◌<◌, ◌≡◌, ◌≢◌, refl, sym, ap, ◌∙◌, List, none, ltb, ◌≤◌, arith, ◌==◌,
  true, false, min,
}
use njuos.Strings.{equal_strings}
use njuos.Strings.Compare.{equal_strings_ne}
use njuos.FileSystem.INodes.{read_inode}
use njuos.FileSystem.ReadData.{read_data}
use njuos.FileSystem.Directories.{entry_size, entry_at, filled, entries_len}
use njuos.FileSystem.Directories.Entries.{dir_entries, IsDirectory, filled_entries}
use njuos.FileSystem.Directories.Changes.{Volume}
use njuos.FileSystem.Directories.Deletions.{
  ended, find_position, remove_loop, remove_inode_from_dir,
}

-- Over whole entries, none of them with the name, the inner loop leaves `readed_len` at 0.
find_position-ended :
    (name : List ℕ) (buf : ℕ → ℕ) (count fuel at left position : ℕ)
    → ((j : ℕ) → j < count → (entry_at buf (at + entry_size * j)).filename ≢ name)
    → left ≡ entry_size * count
    → count ≤ fuel
    → find_position name buf fuel at left position ≡ ended (position + count) 0
unfolding find_position
find_position-ended name buf zero zero at left position h e f = ap (λ p. ended p 0) (omega arith)
find_position-ended name buf (suc count) zero at left position h e f = absurd (omega arith)
find_position-ended name buf zero (suc fuel) at left position h e f =
    let test : (left == 0) ≡ true = ground arith in rw test (ap (λ p. ended p 0) (omega arith))
find_position-ended name buf (suc count) (suc fuel) at left position h e f =
    let some_left : (left == 0) ≡ false = ground arith in
    let whole : ltb left entry_size ≡ false = ground arith in
    let first : equal_strings name (entry_at buf at).filename ≡ false =
      equal_strings_ne name (entry_at buf at).filename
        (λ q. h 0 (omega arith) (ap (λ a. (entry_at buf a).filename) (omega arith) ∙ sym q)) in
    let rest =
      find_position-ended name buf count fuel (at + entry_size) (left - entry_size) (position + 1)
        (λ j lt q. h (j + 1) (omega arith) (ap (λ a. (entry_at buf a).filename) (omega arith) ∙ q))
        (omega arith) (omega arith) in
    rw (some_left, first, whole, rest) (ap (λ p. ended p 0) (omega arith))

module _ (old : ℕ → ℕ) (parent : ℕ) (name : List ℕ) (s : Volume) (count : ℕ)
    (v : IsDirectory s.disk (read_inode s.disk parent) count) where
  -- The entries in the buffer are the first seven of the directory, in every round.
  round_entries :
      (buf : ℕ → ℕ)
      → let r = read_data s.disk (read_inode s.disk parent) 0 entries_len in
        (r.readed_len ≡ entry_size * min 7 count)
        × ((j : ℕ)
            → j < min 7 count
            → (entry_at (filled buf r) (0 + entry_size * j)).filename
              ≡ (dir_entries s.disk (read_inode s.disk parent) j).filename)
  round_entries buf =
      let (len, same) =
        filled_entries s.disk (read_inode s.disk parent) name buf 0 count count v (omega arith) in
      let r = read_data s.disk (read_inode s.disk parent) 0 entries_len in
      (
        len,
        λ j lt.
            ap (λ a. (entry_at (filled buf r) a).filename) (omega arith)
            ∙ ap (λ e. e.filename) (same j lt)
            ∙ ap (λ k. (dir_entries s.disk (read_inode s.disk parent) k).filename) (omega arith),
      )

  loop_hangs :
      0 < count
      → ((j : ℕ)
          → j < min 7 count
          → (dir_entries s.disk (read_inode s.disk parent) j).filename ≢ name)
      → (fuel position : ℕ) (buf : ℕ → ℕ)
      → remove_loop old parent name (read_inode s.disk parent) fuel 0 position buf s ≡ none
  unfolding remove_loop
  loop_hangs pos h zero position buf = refl
  loop_hangs pos h (suc fuel) position buf =
      let (len, same) = round_entries buf in
      let r = read_data s.disk (read_inode s.disk parent) 0 entries_len in
      let test : (r.readed_len == 0) ≡ false = ground (arith, len) in
      let nowhere =
        find_position-ended name (filled buf r) (min 7 count) r.readed_len 0 r.readed_len position
          (λ j lt q. h j lt (sym (same j lt) ∙ q)) len (omega (arith, len)) in
      rw (test, nowhere) (loop_hangs pos h fuel (position + min 7 count) (filled buf r))

-- In a directory that is not empty and has none of its first seven entries under a name,
-- `remove_inode_from_dir` of that name never returns, with however much fuel: an eighth entry is not
-- found, nor does a name that is not there end the search.
pub remove_inode_from_dir_hangs :
    (old buf : ℕ → ℕ) (parent : ℕ) (name : List ℕ) (s : Volume) (count fuel : ℕ)
    → IsDirectory s.disk (read_inode s.disk parent) count
    → 0 < count
    → ((j : ℕ)
        → j < min 7 count
        → (dir_entries s.disk (read_inode s.disk parent) j).filename ≢ name)
    → remove_inode_from_dir old fuel buf parent name s ≡ none
unfolding remove_inode_from_dir
remove_inode_from_dir_hangs old buf parent name s count fuel v pos h =
    loop_hangs old parent name s count v pos h fuel 0 buf
