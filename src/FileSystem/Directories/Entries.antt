-- ===== src/FileSystem/Directories/Entries.antt =====
-- What the search of a directory finds.
use njuos.Prelude.{
  ℕ, zero, suc, ◌+◌, ◌-◌, ◌*◌, ◌≤◌, ◌<◌, ◌≡◌, refl, sym, ap, ◌∙◌, List, Option, none, some, arith,
  ltb, ◌∷◌, ◌==◌, if◌then◌else◌, Bool-cases, inl, inr, min, get_or, true, false, or_else,
}
use njuos.Strings.{equal_strings}
use njuos.FileSystem.{Disk, INode, load32, level_end2}
use njuos.FileSystem.INodes.{read_inode}
use njuos.FileSystem.ReadData.{read_data}
use njuos.FileSystem.ReadData.Content.{file_byte, file_bytes}
use njuos.FileSystem.ReadData.Levels.{read_data_lem}
use njuos.FileSystem.Directories.{
  DirEntry, entry_size, string_at, entry_at, filled, find_entry, search_entries, read_dir_entry,
}

-- The first of `count` entries from `from` on that has a name.
unfoldable pub first_named : (ℕ → DirEntry) → (name : List ℕ) → (count from : ℕ) → Option DirEntry
first_named es name zero from = none
first_named es name (suc count) from =
    let rest = first_named es name count (from + 1) in
    if equal_strings (es from).filename name then some (es from) else rest

-- Entry `j` of a directory, from the bytes of its file.
unfoldable pub dir_entries : Disk → INode → ℕ → DirEntry
dir_entries d n j = entry_at (file_byte d n) (entry_size * j)

-- A directory of `count` entries: its file consists of them, each name ends inside its 32 bytes.
pub record IsDirectory (d : Disk) (n : INode) (count : ℕ) : Type 0 where
  pub whole : n.size ≡ entry_size * count
  pub fits : n.size ≤ level_end2
  pub end : ℕ → ℕ
  pub short : (j : ℕ) → j < count → end j < 32
  pub ended : (j : ℕ) → j < count → file_byte d n (entry_size * j + end j) ≡ 0

pub string_at_agree :
    (mem mem' : ℕ → ℕ) (fuel p q z : ℕ)
    → ((i : ℕ) → i ≤ z → mem (p + i) ≡ mem' (q + i))
    → mem' (q + z) ≡ 0
    → string_at mem fuel p ≡ string_at mem' fuel q
unfolding string_at
string_at_agree mem mem' zero p q z h e = refl
string_at_agree mem mem' (suc fuel) p q z h e =
    let first : mem p ≡ mem' q = ap mem (omega arith) ∙ h 0 (omega arith) ∙ ap mem' (omega arith) in
    elim (Bool-cases (mem' q == 0)) [
      | inl t ↦ rw (first, t) refl
      | inr t ↦
          let pos : 0 < z = before z e t in
          rw (first, t)
            (ap (◌∷◌ (mem' q)) (
              string_at_agree mem mem' fuel (p + 1) (q + 1) (z - 1)
                (λ i le. ap mem (omega arith) ∙ h (i + 1) (omega arith) ∙ ap mem' (omega arith))
                (ap mem' (omega arith) ∙ e)))
    ]
  where
    before : (z : ℕ) → mem' (q + z) ≡ 0 → (mem' q == 0) ≡ false → 0 < z
    before zero e t =
        let same : mem' q ≡ 0 = ap mem' (omega arith) ∙ e in absurd (ground (arith, same))
    before (suc z) e t = omega arith

pub entry_at_agree :
    (mem mem' : ℕ → ℕ) (p q z : ℕ)
    → ((i : ℕ) → i < 36 → mem (p + i) ≡ mem' (q + i))
    → z < 32
    → mem' (q + z) ≡ 0
    → entry_at mem p ≡ entry_at mem' q
unfolding entry_at
entry_at_agree mem mem' p q z h lt e =
    let name = string_at_agree mem mem' 256 p q z (λ i le. h i (omega arith)) e in
    let byte : (i : ℕ) → i < 4 → mem (p + 32 + i) ≡ mem' (q + 32 + i) =
      λ i l. ap mem (omega arith) ∙ h (32 + i) (omega arith) ∙ ap mem' (omega arith) in
    let b0 : mem (p + 32) ≡ mem' (q + 32) = h 32 (omega arith) in
    let index : load32 mem (p + 32) ≡ load32 mem' (q + 32) =
      omega (arith, b0, byte 1 (omega arith), byte 2 (omega arith), byte 3 (omega arith)) in
    rw (name, index) refl

-- The search inside the buffer.
find_entry_lem :
    (name : List ℕ) (buf : ℕ → ℕ) (es : ℕ → DirEntry) (count from fuel at left : ℕ)
    → ((j : ℕ) → j < count → entry_at buf (at + entry_size * j) ≡ es (from + j))
    → left ≡ entry_size * count
    → count ≤ fuel
    → find_entry name buf fuel at left ≡ first_named es name count from
unfolding find_entry first_named
find_entry_lem name buf es zero from zero at left h e f = refl
find_entry_lem name buf es zero from (suc fuel) at left h e f =
    let test : (left == 0) ≡ true = ground arith in rw test refl
find_entry_lem name buf es (suc count) from zero at left h e f = absurd (omega arith)
find_entry_lem name buf es (suc count) from (suc fuel) at left h e f =
    let test : (left == 0) ≡ false = ground arith in
    let first : entry_at buf at ≡ es from =
      ap (entry_at buf) (omega arith) ∙ h 0 (omega arith) ∙ ap es (omega arith) in
    let rest =
      find_entry_lem name buf es count (from + 1) fuel (at + entry_size) (left - entry_size)
        (λ j lt. ap (entry_at buf) (omega arith) ∙ h (j + 1) (omega arith) ∙ ap es (omega arith))
        (omega arith) (omega arith) in
    rw (test, first, rest) refl

pub first_named-add :
    (es : ℕ → DirEntry) (name : List ℕ) (j k from : ℕ)
    → first_named es name (j + k) from
      ≡ or_else (first_named es name j from) (first_named es name k (from + j))
unfolding first_named
first_named-add es name zero k from =
    let a : zero + k ≡ k = omega arith in let b : from + 0 ≡ from = omega arith in rw (a, b) refl
first_named-add es name (suc j) k from =
    let a : suc j + k ≡ suc (j + k) = omega arith in
    let b : from + suc j ≡ from + 1 + j = omega arith in
    let rest = first_named-add es name j k (from + 1) in
    elim (Bool-cases (equal_strings (es from).filename name)) [
      | inl t ↦ rw (a, first_named, t) refl
      | inr t ↦ rw (a, first_named, t, b) rest
    ]

pub get_or-file_bytes :
    (d : Disk) (n : INode) (o k i : ℕ)
    → i < k
    → get_or (file_bytes d n o k) i 0 ≡ file_byte d n (o + i)
unfolding file_bytes
get_or-file_bytes d n o zero i h = elim h [ ]
get_or-file_bytes d n o (suc k) zero h = ap (file_byte d n) (omega arith)
get_or-file_bytes d n o (suc k) (suc i) h =
    get_or-file_bytes d n (o + 1) k i (omega arith) ∙ ap (file_byte d n) (omega arith)

module _ (d : Disk) (n : INode) (name : List ℕ) where
  -- A round: what `read_data` brings into the buffer are the entries from `from` on.
  pub filled_entries :
      (buf : ℕ → ℕ) (from count total : ℕ)
      → IsDirectory d n total
      → from + count ≡ total
      → let r = read_data d n (entry_size * from) 252 in
        (r.readed_len ≡ entry_size * min 7 count)
        × ((j : ℕ)
            → j < min 7 count
            → entry_at (filled buf r) (entry_size * j) ≡ dir_entries d n (from + j))
  unfolding filled dir_entries
  filled_entries buf from count total v e =
      let (bytes, len, _) = read_data_lem d n (entry_size * from) 252 v.fits in
      let k : min 252 (n.size - entry_size * from) ≡ entry_size * min 7 count =
        omega (arith, v.whole) in
      let r = read_data d n (entry_size * from) 252 in
      let byte : (i : ℕ)
          → i < entry_size * min 7 count
          → filled buf r i ≡ file_byte d n (entry_size * from + i) =
        λ i lt.
          let test : ltb i r.readed_len ≡ true = ground (arith, len, k) in
          rw (test, bytes, k)
            (get_or-file_bytes d n (entry_size * from) (entry_size * min 7 count) i lt) in
      (
        len ∙ k,
        λ j lt.
            entry_at_agree (filled buf r) (file_byte d n) (entry_size * j) (entry_size * (from + j))
              (v.end (from + j))
              (λ i l. byte (entry_size * j + i) (omega arith) ∙ ap (file_byte d n) (omega arith))
              (v.short (from + j) (omega arith)) (v.ended (from + j) (omega arith)),
      )

  search_entries_lem :
      (buf : ℕ → ℕ) (fuel from count total : ℕ)
      → IsDirectory d n total
      → from + count ≡ total
      → count < fuel
      → search_entries d n buf name fuel (entry_size * from)
        ≡ first_named (dir_entries d n) name count from
  unfolding search_entries first_named
  search_entries_lem buf zero from count total v e f = elim f [ ]
  search_entries_lem buf (suc fuel) from zero total v e f =
      let (len, _) = filled_entries buf from 0 total v e in
      let test : ((read_data d n (entry_size * from) 252).readed_len == 0) ≡ true =
        ground (arith, len) in
      rw test refl
  search_entries_lem buf (suc fuel) from (suc count) total v e f =
      let (len, same) = filled_entries buf from (suc count) total v e in
      let r = read_data d n (entry_size * from) 252 in
      let c = min 7 (suc count) in
      let test : (r.readed_len == 0) ≡ false = ground (arith, len) in
      let here =
        find_entry_lem name (filled buf r) (dir_entries d n) c from r.readed_len 0 r.readed_len
          (λ j lt. ap (entry_at (filled buf r)) (omega arith) ∙ same j lt) len
          (omega (arith, len)) in
      let next : entry_size * from + r.readed_len ≡ entry_size * (from + c) = omega (arith, len) in
      let rest =
        search_entries_lem (filled buf r) fuel (from + c) (suc count - c) total v (omega arith)
          (omega arith) in
      let all = first_named-add (dir_entries d n) name c (suc count - c) from in
      let whole : c + (suc count - c) ≡ suc count = omega arith in
      rw (test, here, next, rest)
        (sym all ∙ ap (λ m. first_named (dir_entries d n) name m from) whole)

-- In a directory whose file consists of whole entries with names that end inside their 32 bytes, and
-- ends inside the second level of index blocks, `read_dir_entry` finds the first entry of the name, or
-- none if no entry has it, whatever the block buffer held before.
pub read_dir_entry_lem :
    (d : Disk) (buf : ℕ → ℕ) (parent count : ℕ) (name : List ℕ)
    → IsDirectory d (read_inode d parent) count
    → read_dir_entry d buf parent name
      ≡ first_named (dir_entries d (read_inode d parent)) name count 0
unfolding read_dir_entry
read_dir_entry_lem d buf parent count name v =
    let n = read_inode d parent in
    search_entries_lem d n name buf (n.size + 1) 0 count count v (omega arith)
      (omega (arith, v.whole))
