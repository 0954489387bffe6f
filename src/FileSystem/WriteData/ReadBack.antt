-- ===== src/FileSystem/WriteData/ReadBack.antt =====
-- Reading a file behind `write_data`.
use njuos.Prelude.{
  ℕ, suc, ◌+◌, ◌/◌, ◌<◌, ◌≡◌, refl, sym, ap, ap₂, ◌∙◌, some, arith, ltb, get_or, List, [], ◌∷◌,
  length, true, min, ◌-◌,
}
use njuos.FileSystem.{Disk, INode, level_end0}
use njuos.FileSystem.ReadData.{read_data}
use njuos.FileSystem.ReadData.Content.{file_bytes, file_byte, block_at}
use njuos.FileSystem.ReadData.Levels.{read_data_lem}
use njuos.FileSystem.WriteData.{Writing, write_data}
use njuos.FileSystem.WriteData.Owned.{byte_at}
use njuos.FileSystem.WriteData.Direct.{IsReady, write_data_lem}

file_bytes-list :
    (d : Disk) (n : INode) (o : ℕ) (xs : List ℕ)
    → ((i : ℕ) → i < length xs → file_byte d n (o + i) ≡ get_or xs i 0)
    → file_bytes d n o (length xs) ≡ xs
unfolding file_bytes
file_bytes-list d n o [] h = refl
file_bytes-list d n o (x ∷ xs) h =
    let first : file_byte d n o ≡ x = ap (file_byte d n) (omega arith) ∙ h 0 (omega arith) in
    ap₂ ◌∷◌ first (
      file_bytes-list d n (o + 1) xs
        (λ i lt. ap (file_byte d n) (omega arith) ∙ h (suc i) (omega arith)))

pub direct_byte : (s : Writing) (o : ℕ) → o < level_end0 → file_byte s.disk s.inode o ≡ byte_at s o
unfolding file_byte block_at
direct_byte s o h = let test : ltb (o / 256) 12 ≡ true = ground arith in rw test refl

-- Under the conditions of `write_data_lem`, with a buffer of the length to be written, `read_data` at
-- the old end of the file reads back the buffer that `write_data` has written, the whole of it.
pub read_data-write_data :
    (s : Writing)
    → IsReady s
    → length s.buf ≡ s.len
    → (s' : Writing) × (write_data s ≡ some s')
      × ((read_data s'.disk s'.inode s.inode.size s.len).buf ≡ s.buf)
      × ((read_data s'.disk s'.inode s.inode.size s.len).readed_len ≡ s.len)
read_data-write_data s r e =
    let (s', got, counted, size, old, new, owned) = write_data_lem s r in
    let (copied, read, at) =
      read_data_lem s'.disk s'.inode s.inode.size s.len (omega (arith, size, r.fits)) in
    let k : min s.len (s'.inode.size - s.inode.size) ≡ s.len = omega (arith, size) in
    (
      s',
      got,
      copied
          ∙ ap (file_bytes s'.disk s'.inode s.inode.size) (k ∙ sym e)
          ∙ file_bytes-list s'.disk s'.inode s.inode.size s.buf (λ i lt.
            direct_byte s' (s.inode.size + i) (omega (arith, r.fits)) ∙ new i (omega arith)),
      read ∙ k,
    )
