-- ===== src/Tests/Writing.antt =====
-- Inputs for the theorems on writing and releasing files.
use njuos.Prelude.{
  ◌⊎◌, none, update, ◌≤◌, ℕ, zero, suc, ◌+◌, ◌*◌, ◌≤◌, ◌<◌, ◌≡◌, refl, some, [], ◌∷◌, arith, ltb,
  if◌then◌else◌, get_or,
}
use njuos.FileSystem.{block_num, INode, block_base, block_num}
use njuos.FileSystem.Bitmap.Count.{free_below}
use njuos.FileSystem.ReadData.{read_data}
use njuos.FileSystem.WriteData.{Writing, write_data}
use njuos.FileSystem.WriteData.Owned.{IsOwned, byte_at}
use njuos.FileSystem.WriteData.Direct.{IsReady, write_data_lem}
use njuos.FileSystem.WriteData.ReadBack.{read_data-write_data}
use njuos.FileSystem.Release.{Releasing, release_block}
use njuos.FileSystem.Release.Small.{spare, release_block_small}

-- A file of 510 bytes in the blocks 0 and 1, and five bytes to write, which reach into a third block.
abbrev two_taken : ℕ → ℕ
two_taken k = if ltb k 2 then 1 else 0

abbrev small_file : INode
small_file = record {
  size = 510;
  type = 0;
  dev_id = 0;
  link = 1;
  index = λ k. if ltb k 2 then block_base + k * 256 else 0;
}

abbrev appending : Writing
appending = record {
  disk = λ a. 0;
  bitmap = record { bits = two_taken; at = 0 };
  inode = small_file;
  blocks = λ b i. 0;
  file_offset = 510;
  writed_len = 0;
  len = 5;
  buf = 10 ∷ 20 ∷ 30 ∷ 40 ∷ 50 ∷ [];
}

room_left : (n : ℕ) → n ≤ free_below two_taken n + 2
unfolding free_below
room_left zero = omega arith
room_left (suc n) = ground (arith, room_left n)

appending-IsReady : IsReady appending
appending-IsReady = record {
  at_end = refl;
  fits = omega arith;
  owned = record {
    number = λ k. k;
    in_range = λ k h. omega arith;
    placed = λ k h. ground arith;
    taken = λ k h. ground arith;
    apart = λ j k h g e. e;
  };
  search = omega arith;
  room = omega (arith, room_left block_num);
}

write_data_lem_example :
    (s' : Writing) × (write_data appending ≡ some s')
    × (s'.writed_len ≡ appending.writed_len + appending.len)
    × (s'.inode.size ≡ appending.inode.size + appending.len)
    × ((o : ℕ) → o < appending.inode.size → byte_at s' o ≡ byte_at appending o)
    × ((o : ℕ)
        → o < appending.len
        → byte_at s' (appending.inode.size + o) ≡ get_or appending.buf o 0)
    × IsOwned s'.bitmap.bits s'.inode.index s'.inode.size
write_data_lem_example = write_data_lem appending appending-IsReady

read_data-write_data_example :
    (s' : Writing) × (write_data appending ≡ some s')
    × ((read_data s'.disk s'.inode appending.inode.size appending.len).buf ≡ appending.buf)
    × ((read_data s'.disk s'.inode appending.inode.size appending.len).readed_len ≡ appending.len)
read_data-write_data_example = read_data-write_data appending appending-IsReady refl

release_block_small_example :
    ((spare small_file < block_num)
      × (s : Releasing) × (release_block (λ a. 0) small_file 3 appending.bitmap ≡ some s)
      × (s.bitmap
          ≡ record appending.bitmap { bits = update appending.bitmap.bits (spare small_file) 0 }))
    ⊎ ((block_num ≤ spare small_file)
        × (release_block (λ a. 0) small_file 3 appending.bitmap ≡ none))
release_block_small_example =
    release_block_small (λ a. 0) small_file appending.bitmap 3 (omega arith) (omega arith)
