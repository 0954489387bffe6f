-- ===== src/Tests/Storage.antt =====
-- Inputs for the theorems on the IDE cache and the file system.
use njuos.Prelude.{◌+◌, ◌-◌, ◌*◌, ◌≡◌, refl, false, ◌==◌, if◌then◌else◌, arith, min, ltb}
use njuos.Ide.{Ide, read_byte, write_byte, cache_fetch, evict}
use njuos.Ide.Coherence.{IsCoherent}
use njuos.FileSystem.{Disk, INode, block_base}
use njuos.FileSystem.Bitmap.{Bitmap}
use njuos.FileSystem.INodes.RoundTrip.{IsINode}
use njuos.FileSystem.ReadData.{read_data}
use njuos.FileSystem.ReadData.Content.{file_bytes}
use njuos.FileSystem.ReadData.Levels.{read_data_lem}

-- A disk whose byte `b` of sector `n` is `n + b`, behind an empty cache.
abbrev cold : Ide
cold = record {
  cache = λ i. record { sector = 0; used = false; dirty = false; content = λ b. 0 };
  disk = λ n b. n + b;
}

cold-IsCoherent : IsCoherent cold
cold-IsCoherent i h = record {
  home = λ p. ground arith;
  owned = λ p. ground arith;
  clean = λ p q b. ground arith;
}

-- A dirty sector 2.
abbrev warm : Ide
warm = write_byte 1034 99 cold

-- Sector 130 takes the slot of the dirty sector 2, which is written back first.
evicted_byte : (read_byte (130 * 512) warm).1.disk 2 10 ≡ 99
unfolding read_byte write_byte cache_fetch evict
evicted_byte = refl

-- Blocks 0 and 1 are taken.
abbrev some_taken : Bitmap
some_taken = record { bits = λ i. if i == 0 then 1 else (if i == 1 then 1 else 0); at = 0 }

abbrev all_taken : Bitmap
all_taken = record { bits = λ i. 1; at = 5 }

abbrev zeros : Disk
zeros a = 0

-- An inode of 20,000 bytes, whose file reaches into the second level of index blocks.
abbrev big_file : INode
big_file = record {
  size = 20000;
  type = 0;
  dev_id = 0;
  link = 1;
  index = λ k. if ltb k 15 then block_base + k * 256 else 0;
}

big_file-IsINode : IsINode big_file
big_file-IsINode = record {
  size_fits = omega arith;
  type_fits = omega arith;
  dev_id_fits = omega arith;
  link_fits = omega arith;
  index_fits = λ k. ground arith;
}

read_data_lem_example :
    let r = read_data zeros big_file 3000 5000 in
    let k = min 5000 (big_file.size - 3000) in
    (r.buf ≡ file_bytes zeros big_file 3000 k) × (r.readed_len ≡ k) × (r.file_offset ≡ 3000 + k)
read_data_lem_example = read_data_lem zeros big_file 3000 5000 (omega arith)
