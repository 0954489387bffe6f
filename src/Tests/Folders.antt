-- ===== src/Tests/Folders.antt =====
-- Inputs for the theorems on directories.
use njuos.Prelude.{
  ℕ, zero, suc, ◌+◌, ◌*◌, ◌<◌, ◌≡◌, ◌≢◌, refl, none, some, List, [], ◌∷◌, arith, if◌then◌else◌,
  ◌==◌, or_else, min,
}
use njuos.Strings.{equal_strings}
use njuos.FileSystem.{Disk, block_num, block_base, inode_base}
use njuos.FileSystem.INodes.{read_inode}
use njuos.FileSystem.Bitmap.Count.{free_below}
use njuos.FileSystem.ReadData.Content.{file_byte, block_at}
use njuos.FileSystem.Directories.{DirEntry, string_at, entry_at, read_dir_entry, find_path}
use njuos.FileSystem.Directories.Entries.{first_named, dir_entries, IsDirectory, read_dir_entry_lem}
use njuos.FileSystem.Directories.Listing.{lsdir, names_text, lsdir_lem}
use njuos.FileSystem.Directories.Lookup.{find_path-append}
use njuos.FileSystem.Directories.Changes.{Volume, appending, add_inode_into_dir}
use njuos.FileSystem.Directories.Deletions.{remove_inode_from_dir}
use njuos.FileSystem.Directories.Changes.Added.{IsRoomy, read_dir_entry-add_inode_into_dir}
use njuos.FileSystem.Directories.Deletions.Removal.{remove_inode_from_dir_hangs}

-- A disk whose inode 0 is a directory of one entry, the name "a" with the index 5, in block 0.
abbrev one_entry : Disk
one_entry a =
    if a == inode_base
    then 36
    else (if a == inode_base + 17
        then 68
        else (if a == inode_base + 18
            then 1
            else (if a == block_base then 97 else (if a == block_base + 32 then 5 else 0))))

abbrev root : DirEntry
root = record { filename = 47 ∷ []; index = 0 }

one_entry-IsDirectory : IsDirectory one_entry (read_inode one_entry 0) 1
unfolding read_inode file_byte block_at
one_entry-IsDirectory = record {
  whole = refl;
  fits = omega arith;
  end = λ j. 1;
  short = λ j h. omega arith;
  ended = λ j h. only j (omega arith);
}
  where
    only : (j : ℕ) → j < 1 → file_byte one_entry (read_inode one_entry 0) (36 * j + 1) ≡ 0
    only zero h = refl
    only (suc j) h = absurd (omega arith)

read_dir_entry_lem_example :
    read_dir_entry one_entry (λ k. 7) 0 (97 ∷ [])
    ≡ first_named (dir_entries one_entry (read_inode one_entry 0)) (97 ∷ []) 1 0
read_dir_entry_lem_example =
    read_dir_entry_lem one_entry (λ k. 7) 0 1 (97 ∷ []) one_entry-IsDirectory

one_entry_found :
    read_dir_entry one_entry (λ k. 7) 0 (97 ∷ []) ≡ some (record { filename = 97 ∷ []; index = 5 })
unfolding first_named dir_entries entry_at string_at read_inode file_byte block_at equal_strings
one_entry_found = read_dir_entry_lem one_entry (λ k. 7) 0 1 (97 ∷ []) one_entry-IsDirectory

find_path-append_example :
    find_path one_entry (λ k. 0) 9 root (97 ∷ 47 ∷ 98 ∷ [])
    ≡ (elim (find_path one_entry (λ k. 0) 9 root (97 ∷ [])) [
      | none ↦ none
      | some e ↦ find_path one_entry (λ k. 0) 9 e (98 ∷ [])
    ])
find_path-append_example =
    find_path-append one_entry (λ k. 0) root (97 ∷ []) (98 ∷ []) 9 (omega arith)

-- An empty directory on an empty disk.
abbrev empty : Volume
empty = record {
  disk = λ a. 0;
  block_map = record { bits = λ k. 0; at = 0 };
  inode_map = record { bits = λ k. 0; at = 0 };
}

all_free : (n : ℕ) → free_below (λ k. 0) n ≡ n
unfolding free_below
all_free zero = refl
all_free (suc n) = ground (arith, all_free n)

empty-IsRoomy : IsRoomy (λ b i. 0) (λ k. 0) 0 (97 ∷ []) 5 empty 0
unfolding appending read_inode
empty-IsRoomy = record {
  ready = record {
    at_end = refl;
    fits = omega arith;
    owned = record {
      number = λ k. 0;
      in_range = λ k h. absurd (omega arith);
      placed = λ k h. absurd (omega arith);
      taken = λ k h. absurd (omega arith);
      apart = λ j k h g e. absurd (omega arith);
    };
    search = omega arith;
    room = omega (arith, all_free block_num);
  };
  directory = record {
    whole = refl;
    fits = omega arith;
    end = λ j. 0;
    short = λ j h. omega arith;
    ended = λ j h. absurd (omega arith);
  };
  numbered = omega arith;
  no_nul = omega arith;
  short = omega arith;
  word = omega arith;
}

read_dir_entry-add_inode_into_dir_example :
    (s' : Volume) × (add_inode_into_dir (λ b i. 0) (λ k. 0) 0 (97 ∷ []) 5 empty ≡ some s')
    × IsDirectory s'.disk (read_inode s'.disk 0) 1
    × ((buf : ℕ → ℕ) (other : List ℕ)
        → read_dir_entry s'.disk buf 0 other
          ≡ or_else (read_dir_entry empty.disk buf 0 other) (
              if equal_strings (97 ∷ []) other
              then some (record { filename = 97 ∷ []; index = 5 })
              else none))
read_dir_entry-add_inode_into_dir_example =
    read_dir_entry-add_inode_into_dir (λ b i. 0) (λ k. 0) 0 (97 ∷ []) 5 empty 0 empty-IsRoomy

other_name :
    (j : ℕ) → j < min 7 1 → (dir_entries one_entry (read_inode one_entry 0) j).filename ≢ 98 ∷ []
unfolding dir_entries entry_at string_at read_inode file_byte block_at
other_name zero h e = ground (arith, e)
other_name (suc j) h e = omega arith

abbrev one_entry_volume : Volume
one_entry_volume = record empty { disk = one_entry }

remove_inode_from_dir_hangs_example :
    remove_inode_from_dir (λ k. 0) 1000 (λ k. 0) 0 (98 ∷ []) one_entry_volume ≡ none
remove_inode_from_dir_hangs_example =
    remove_inode_from_dir_hangs (λ k. 0) (λ k. 0) 0 (98 ∷ []) one_entry_volume 1 1000
      one_entry-IsDirectory (omega arith) other_name

lsdir_lem_example :
    lsdir one_entry (λ k. 7) 0 ≡ names_text (dir_entries one_entry (read_inode one_entry 0)) 1 0
lsdir_lem_example = lsdir_lem one_entry (λ k. 7) 0 1 one_entry-IsDirectory
