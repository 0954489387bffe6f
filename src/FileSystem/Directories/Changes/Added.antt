-- ===== src/FileSystem/Directories/Changes/Added.antt =====
-- What `add_inode_into_dir` does to the lookups in its directory.
use njuos.Prelude.{
  ℕ, zero, suc, ◌+◌, ◌-◌, ◌*◌, ◌/◌, ◌%◌, ◌^◌, ◌≤◌, ◌<◌, ◌≡◌, refl, sym, ap, ◌∙◌, inl, inr, List, [],
  ◌∷◌, none, some, arith, ltb, if◌then◌else◌, Bool-cases, true, false, length, get_or, or_else,
}
use njuos.Strings.{equal_strings, strcpy}
use njuos.Strings.Compare.{NoNul, Holds, strcpy-Holds, strcpy_beyond, Holds-end}
use njuos.FileSystem.{Disk, dev_read, load32, byte_of, inode_num, level_end0}
use njuos.FileSystem.INodes.{read_inode, write_inode}
use njuos.FileSystem.INodes.RoundTrip.{
  load32_bytes, write_inode-size, write_inode-index, write_inode_apart,
}
use njuos.FileSystem.ReadData.Content.{file_byte, block_at}
use njuos.FileSystem.WriteData.{Writing}
use njuos.FileSystem.WriteData.Owned.{IsOwned, byte_at}
use njuos.FileSystem.WriteData.Direct.{IsReady, write_data_lem}
use njuos.FileSystem.WriteData.ReadBack.{direct_byte}
use njuos.FileSystem.Directories.{DirEntry, entry_size, string_at, entry_at, read_dir_entry}
use njuos.FileSystem.Directories.Entries.{
  first_named, dir_entries, IsDirectory, entry_at_agree, read_dir_entry_lem,
}
use njuos.FileSystem.Directories.Changes.{Volume, entry_bytes, appending, add_inode_into_dir}

-- A string that stands in memory is read as it is.
string_at-Holds :
    (name : List ℕ) (mem : ℕ → ℕ) (fuel at : ℕ)
    → NoNul name
    → length name < fuel
    → Holds mem at name
    → string_at mem fuel at ≡ name
unfolding string_at Holds
string_at-Holds name mem zero at n h v = elim h [ ]
string_at-Holds [] mem (suc fuel) at n h v = ground arith
string_at-Holds (c ∷ name) mem (suc fuel) at n h v =
    let rest = string_at-Holds name mem fuel (at + 1) n.1 (omega arith) v.1 in
    ground (arith, n.0, v.0, rest)

-- The new entry reads back as it was put together.
entry_at-entry_bytes :
    (junk : ℕ → ℕ) (name : List ℕ) (index : ℕ)
    → NoNul name
    → length name < 32
    → index < 2 ^ 32
    → entry_at (entry_bytes junk name index) 0 ≡ record { filename = name; index = index }
unfolding entry_at entry_bytes
entry_at-entry_bytes junk name index n h lt =
    let mem = strcpy 0 name (λ k. if ltb k 32 then junk k else byte_of index (k - 32)) in
    let text = string_at-Holds name mem 256 0 n (omega arith) (strcpy-Holds 0 name _) in
    let byte : (m : ℕ) → mem (32 + m) ≡ byte_of index m =
      λ m. strcpy_beyond name 0 _ (32 + m) (omega arith) ∙ tail m in
    let number : load32 mem 32 ≡ index =
      load32_bytes mem 32 index lt (byte 0) (byte 1) (byte 2) (byte 3) in
    rw (text, number) refl
  where
    tail :
        (m : ℕ)
        → (if ltb (32 + m) 32 then junk (32 + m) else byte_of index (32 + m - 32)) ≡ byte_of index m
    tail m =
        let test : ltb (32 + m) 32 ≡ false = ground arith in
        let same : 32 + m - 32 ≡ m = omega arith in rw (test, same) refl

-- The file of a directory behind a write of its inode.
module _ (w : Writing) (parent : ℕ) (p : parent < inode_num) (small : w.inode.size ≤ level_end0)
    (v : IsOwned w.bitmap.bits w.inode.index w.inode.size) where
  abbrev after : Disk
  after = write_inode w.disk parent w.inode

  after_size : (read_inode after parent).size ≡ w.inode.size
  after_size = write_inode-size w.disk parent w.inode (omega arith)

  after_index :
      (k : ℕ) → k * 256 < w.inode.size → (read_inode after parent).index k ≡ w.inode.index k
  after_index k h =
      write_inode-index w.disk parent w.inode k (omega arith)
        (omega (arith, v.placed k h, v.in_range k h))

  after_byte :
      (o : ℕ) → o < w.inode.size → file_byte after (read_inode after parent) o ≡ byte_at w o
  unfolding file_byte block_at
  after_byte o h =
      let test : ltb (o / 256) 12 ≡ true = ground arith in
      let index = after_index (o / 256) (omega arith) in
      let place = v.placed (o / 256) (omega arith) in
      rw (test, index)
        (write_inode_apart w.disk parent w.inode (w.inode.index (o / 256) + o % 256)
          (inr (omega (arith, place))))

get_or-dev_read : (mem : ℕ → ℕ) (at n i : ℕ) → i < n → get_or (dev_read mem at n) i 0 ≡ mem (at + i)
unfolding dev_read
get_or-dev_read mem at zero i h = elim h [ ]
get_or-dev_read mem at (suc n) zero h = ap mem (omega arith)
get_or-dev_read mem at (suc n) (suc i) h =
    get_or-dev_read mem (at + 1) n i (omega arith) ∙ ap mem (omega arith)

-- The lookups where one entry follows the others.
first_named_last :
    (es es' : ℕ → DirEntry) (name : List ℕ) (count from : ℕ)
    → ((j : ℕ) → j < count → es' (from + j) ≡ es (from + j))
    → first_named es' name (suc count) from
      ≡ or_else (first_named es name count from) (
          if equal_strings (es' (from + count)).filename name
          then some (es' (from + count))
          else none)
unfolding first_named
first_named_last es es' name zero from h = let e : from + 0 ≡ from = omega arith in rw e refl
first_named_last es es' name (suc count) from h =
    let first : es' from ≡ es from =
      ap es' (omega arith) ∙ h 0 (omega arith) ∙ ap es (omega arith) in
    let next : from + suc count ≡ from + 1 + count = omega arith in
    let rest =
      first_named_last es es' name count (from + 1)
        (λ j lt. ap es' (omega arith) ∙ h (j + 1) (omega arith) ∙ ap es (omega arith)) in
    elim (Bool-cases (equal_strings (es from).filename name)) [
      | inl t ↦ rw (first, t) refl
      | inr t ↦ rw (first, t, next) rest
    ]

-- A directory of `count` entries that has room for one more, of a name that fits.
pub record IsRoomy (blocks : ℕ → ℕ → ℕ) (junk : ℕ → ℕ) (parent : ℕ) (name : List ℕ) (index : ℕ)
    (s : Volume) (count : ℕ) : Type 0 where
  pub ready : IsReady (appending blocks junk parent name index s)
  pub directory : IsDirectory s.disk (read_inode s.disk parent) count
  pub numbered : parent < inode_num
  pub no_nul : NoNul name
  pub short : length name < 32
  pub word : index < 2 ^ 32

module _ (blocks : ℕ → ℕ → ℕ) (junk : ℕ → ℕ) (parent : ℕ) (name : List ℕ) (index : ℕ) (s : Volume)
    (count : ℕ) (v : IsRoomy blocks junk parent name index s count) where
  abbrev start : Writing
  start = appending blocks junk parent name index s

  -- What `write_data` leaves, with the inode written behind it.
  record Grown : Type 0 where
    last : Volume
    result : add_inode_into_dir blocks junk parent name index s ≡ some last
    size : (read_inode last.disk parent).size ≡ entry_size * suc count
    fits : (read_inode last.disk parent).size ≤ level_end0
    old :
        (o : ℕ)
        → o < entry_size * count
        → file_byte last.disk (read_inode last.disk parent) o
          ≡ file_byte s.disk (read_inode s.disk parent) o
    new :
        (o : ℕ)
        → o < entry_size
        → file_byte last.disk (read_inode last.disk parent) (entry_size * count + o)
          ≡ entry_bytes junk name index o

  grown : Grown
  unfolding add_inode_into_dir appending
  grown =
      let (w, got, _, size, old, new, owned) = write_data_lem start v.ready in
      let whole = v.directory.whole in
      let fits : w.inode.size ≤ level_end0 = omega (arith, size, v.ready.fits) in
      let byte = after_byte w parent v.numbered fits owned in
      record {
        last = record s { disk = write_inode w.disk parent w.inode; block_map = w.bitmap };
        result = rw (add_inode_into_dir, got) refl;
        size = after_size w parent v.numbered fits owned ∙ omega (arith, size, whole);
        fits = rw (after_size w parent v.numbered fits owned) fits;
        old = λ o h.
            byte o (omega (arith, size, whole))
            ∙ old o (omega (arith, whole))
            ∙ sym (direct_byte start o (omega (arith, whole, v.ready.fits)));
        new = λ o h.
            byte (entry_size * count + o) (omega (arith, size, whole))
            ∙ ap (byte_at w) (omega (arith, whole))
            ∙ new o h
            ∙ get_or-dev_read (entry_bytes junk name index) 0 entry_size o h
            ∙ ap (entry_bytes junk name index) (omega arith);
      }

  module _ (g : Grown) where
    same_entry :
        (j : ℕ)
        → j < count
        → dir_entries g.last.disk (read_inode g.last.disk parent) j
          ≡ dir_entries s.disk (read_inode s.disk parent) j
    unfolding dir_entries
    same_entry j h =
        entry_at_agree (file_byte g.last.disk (read_inode g.last.disk parent))
          (file_byte s.disk (read_inode s.disk parent)) (entry_size * j) (entry_size * j)
          (v.directory.end j) (λ i lt. g.old (entry_size * j + i) (omega arith))
          (v.directory.short j h) (v.directory.ended j h)

    name_end : entry_bytes junk name index (length name) ≡ 0
    unfolding entry_bytes
    name_end =
        ap (entry_bytes junk name index) {x = length name} {y = 0 + length name} (omega arith)
        ∙ Holds-end name _ 0 (strcpy-Holds 0 name _)

    new_entry :
        dir_entries g.last.disk (read_inode g.last.disk parent) count
        ≡ record { filename = name; index = index }
    unfolding dir_entries
    new_entry =
        entry_at_agree (file_byte g.last.disk (read_inode g.last.disk parent))
          (entry_bytes junk name index) (entry_size * count) 0 (length name)
          (λ i lt. g.new i lt ∙ ap (entry_bytes junk name index) (omega arith)) v.short
          (ap (entry_bytes junk name index) (omega arith) ∙ name_end)
        ∙ entry_at-entry_bytes junk name index v.no_nul v.short v.word

    grown-IsDirectory : IsDirectory g.last.disk (read_inode g.last.disk parent) (suc count)
    grown-IsDirectory =
        let e = g.size in
        record {
          whole = e;
          fits = omega (arith, g.fits);
          end = λ j. if ltb j count then v.directory.end j else length name;
          short = λ j h. ground (arith, v.directory.short j, v.short);
          ended = λ j h. elim (Bool-cases (ltb j count)) [
            | inl t ↦
                let lt : j < count = ground arith in
                rw t (
                  g.old (entry_size * j + v.directory.end j) (omega (arith, v.directory.short j lt))
                  ∙ v.directory.ended j lt)
            | inr t ↦
                let same : j ≡ count = ground arith in
                rw (t, same) (g.new (length name) (omega (arith, v.short)) ∙ name_end)
          ];
        }

-- In a directory that has room for one more entry, inside the direct blocks and with enough blocks free,
-- `add_inode_into_dir` of a name shorter than 32 characters succeeds and leaves a directory with one
-- entry more. In it `read_dir_entry` finds, whatever the block buffer holds, what it found before for
-- each name, and where it found nothing, the new entry for the new name and nothing for any other.
pub read_dir_entry-add_inode_into_dir :
    (blocks : ℕ → ℕ → ℕ) (junk : ℕ → ℕ) (parent : ℕ) (name : List ℕ) (index : ℕ) (s : Volume)
    (count : ℕ)
    → IsRoomy blocks junk parent name index s count
    → (s' : Volume) × (add_inode_into_dir blocks junk parent name index s ≡ some s')
      × IsDirectory s'.disk (read_inode s'.disk parent) (suc count)
      × ((buf : ℕ → ℕ) (other : List ℕ)
          → read_dir_entry s'.disk buf parent other
            ≡ or_else (read_dir_entry s.disk buf parent other) (
                if equal_strings name other
                then some (record { filename = name; index = index })
                else none))
read_dir_entry-add_inode_into_dir blocks junk parent name index s count v =
    let g = grown blocks junk parent name index s count v in
    let w = grown-IsDirectory blocks junk parent name index s count v g in
    let zero_add : 0 + count ≡ count = omega arith in
    (
      g.last,
      g.result,
      w,
      λ buf other.
          read_dir_entry_lem g.last.disk buf parent (suc count) other w
          ∙ first_named_last (dir_entries s.disk (read_inode s.disk parent))
              (dir_entries g.last.disk (read_inode g.last.disk parent)) other count 0
              (λ j lt.
                ap (dir_entries g.last.disk (read_inode g.last.disk parent)) (omega arith)
                ∙ same_entry blocks junk parent name index s count v g j lt
                ∙ ap (dir_entries s.disk (read_inode s.disk parent)) (omega arith))
          ∙ rw
              (
                read_dir_entry_lem s.disk buf parent count other v.directory,
                zero_add,
                new_entry blocks junk parent name index s count v g,
              )
              refl,
    )
