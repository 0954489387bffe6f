-- ===== src/FileSystem/Directories/Listing.antt =====
-- `_lsdir` of src/kernel/file_system/fm_syscall.c: the names of a directory as one text.
use njuos.Prelude.{
  ℕ, zero, suc, ◌+◌, ◌-◌, ◌*◌, ◌≤◌, ◌<◌, ◌≡◌, refl, sym, ap, ◌∙◌, List, [], ◌∷◌, ◌++◌, append_assoc,
  append-nil, arith, ◌==◌, if◌then◌else◌, true, false, min,
}
use njuos.FileSystem.{Disk, INode}
use njuos.FileSystem.INodes.{read_inode}
use njuos.FileSystem.ReadData.{read_data}
use njuos.FileSystem.Directories.{DirEntry, entry_size, entries_len, entry_at, filled}
use njuos.FileSystem.Directories.Entries.{dir_entries, IsDirectory, filled_entries}

-- A name with the three blanks behind it. Its NUL is written over by the next.
unfoldable pub padded : List ℕ → List ℕ
padded name = name ++ 32 ∷ 32 ∷ 32 ∷ []

-- The inner loop; `text` is what has been written.
pub list_entries : (buf : ℕ → ℕ) → (fuel at left : ℕ) → (text : List ℕ) → List ℕ
unfolding padded
list_entries buf zero at left text = text
list_entries buf (suc fuel) at left text =
    let rest =
      list_entries buf fuel (at + entry_size) (left - entry_size)
        (text ++ padded (entry_at buf at).filename) in
    if left == 0 then text else rest

pub list_all : Disk → INode → (ℕ → ℕ) → (fuel offset : ℕ) → (text : List ℕ) → List ℕ
list_all d n buf zero offset text = text
list_all d n buf (suc fuel) offset text =
    let r = read_data d n offset entries_len in
    let next =
      list_all d n (filled buf r) fuel (offset + r.readed_len)
        (list_entries (filled buf r) r.readed_len 0 r.readed_len text) in
    if r.readed_len == 0 then text else next

-- `_lsdir`; a round reads one byte at least.
pub lsdir : Disk → (ℕ → ℕ) → (index : ℕ) → List ℕ
unfolding list_entries list_all
lsdir d buf index = let n = read_inode d index in list_all d n buf (n.size + 1) 0 []

-- The names of `count` entries from `from` on, each with its blanks.
unfoldable pub names_text : (ℕ → DirEntry) → (count from : ℕ) → List ℕ
names_text es zero from = []
names_text es (suc count) from = padded (es from).filename ++ names_text es count (from + 1)

names_text-add :
    (es : ℕ → DirEntry) (j k from : ℕ)
    → names_text es (j + k) from ≡ names_text es j from ++ names_text es k (from + j)
unfolding names_text
names_text-add es zero k from =
    let a : zero + k ≡ k = omega arith in let b : from + 0 ≡ from = omega arith in rw (a, b) refl
names_text-add es (suc j) k from =
    let a : suc j + k ≡ suc (j + k) = omega arith in
    let b : from + suc j ≡ from + 1 + j = omega arith in
    rw (a, names_text, names_text-add es j k (from + 1), b)
      (sym (append_assoc (padded (es from).filename) _ _))

list_entries_lem :
    (buf : ℕ → ℕ) (es : ℕ → DirEntry) (count from fuel at left : ℕ) (text : List ℕ)
    → ((j : ℕ) → j < count → entry_at buf (at + entry_size * j) ≡ es (from + j))
    → left ≡ entry_size * count
    → count ≤ fuel
    → list_entries buf fuel at left text ≡ text ++ names_text es count from
unfolding list_entries names_text
list_entries_lem buf es zero from zero at left text h e f = sym (append-nil text)
list_entries_lem buf es zero from (suc fuel) at left text h e f =
    let test : (left == 0) ≡ true = ground arith in rw test (sym (append-nil text))
list_entries_lem buf es (suc count) from zero at left text h e f = absurd (omega arith)
list_entries_lem buf es (suc count) from (suc fuel) at left text h e f =
    let test : (left == 0) ≡ false = ground arith in
    let first : entry_at buf at ≡ es from =
      ap (entry_at buf) (omega arith) ∙ h 0 (omega arith) ∙ ap es (omega arith) in
    let rest =
      list_entries_lem buf es count (from + 1) fuel (at + entry_size) (left - entry_size)
        (text ++ padded (entry_at buf at).filename)
        (λ j lt. ap (entry_at buf) (omega arith) ∙ h (j + 1) (omega arith) ∙ ap es (omega arith))
        (omega arith) (omega arith) in
    rw (test, rest, first) (append_assoc text (padded (es from).filename) _)

module _ (d : Disk) (n : INode) where
  list_all_lem :
      (buf : ℕ → ℕ) (fuel from count total : ℕ) (text : List ℕ)
      → IsDirectory d n total
      → from + count ≡ total
      → count < fuel
      → list_all d n buf fuel (entry_size * from) text
        ≡ text ++ names_text (dir_entries d n) count from
  unfolding list_all names_text
  list_all_lem buf zero from count total text v e f = elim f [ ]
  list_all_lem buf (suc fuel) from zero total text v e f =
      let (len, _) = filled_entries d n [] buf from 0 total v e in
      let test : ((read_data d n (entry_size * from) 252).readed_len == 0) ≡ true =
        ground (arith, len) in
      rw test (sym (append-nil text))
  list_all_lem buf (suc fuel) from (suc count) total text v e f =
      let (len, same) = filled_entries d n [] buf from (suc count) total v e in
      let r = read_data d n (entry_size * from) 252 in
      let c = min 7 (suc count) in
      let test : (r.readed_len == 0) ≡ false = ground (arith, len) in
      let here =
        list_entries_lem (filled buf r) (dir_entries d n) c from r.readed_len 0 r.readed_len text
          (λ j lt. ap (entry_at (filled buf r)) (omega arith) ∙ same j lt) len
          (omega (arith, len)) in
      let next : entry_size * from + r.readed_len ≡ entry_size * (from + c) = omega (arith, len) in
      let rest =
        list_all_lem (filled buf r) fuel (from + c) (suc count - c) total
          (text ++ names_text (dir_entries d n) c from) v (omega arith) (omega arith) in
      let whole : c + (suc count - c) ≡ suc count = omega arith in
      rw (test, here, next, rest)
        (append_assoc text _ _
          ∙ ap (λ t. text ++ t)
              (sym (names_text-add (dir_entries d n) c (suc count - c) from)
                ∙ ap (λ m. names_text (dir_entries d n) m from) whole))

-- Of a directory of whole entries whose names end inside their 32 bytes, `_lsdir` writes the names of all
-- entries in their order, each with three blanks behind it.
pub lsdir_lem :
    (d : Disk) (buf : ℕ → ℕ) (index count : ℕ)
    → IsDirectory d (read_inode d index) count
    → lsdir d buf index ≡ names_text (dir_entries d (read_inode d index)) count 0
unfolding lsdir
lsdir_lem d buf index count v =
    let n = read_inode d index in
    list_all_lem d n buf (n.size + 1) 0 count count [] v (omega arith) (omega (arith, v.whole))
