-- ===== src/FileSystem/WriteData/Owned.antt =====
-- The direct blocks of a file lie in blocks of the disk of their own, which the bitmap has as taken.
use njuos.Prelude.{
  ℕ, zero, suc, ◌+◌, ◌-◌, ◌*◌, ◌/◌, ◌%◌, ◌≤◌, ◌<◌, ◌≡◌, ◌≢◌, ◌⊎◌, refl, ap, arith, update, get_or,
  min, List, [], ◌∷◌, drop,
}
use njuos.FileSystem.{dev_write, block_num}
use njuos.FileSystem.Disks.{dev_write_in, dev_write_off}
use njuos.FileSystem.Bitmap.Alloc.{block_addr}
use njuos.FileSystem.WriteData.{Writing, write_chunk}

-- The blocks of a file up to `bound`.
pub record IsOwned (bits index : ℕ → ℕ) (bound : ℕ) : Type 0 where
  pub number : ℕ → ℕ
  pub in_range : (k : ℕ) → k * 256 < bound → number k < block_num
  pub placed : (k : ℕ) → k * 256 < bound → index k ≡ block_addr (number k)
  pub taken : (k : ℕ) → k * 256 < bound → bits (number k) ≢ 0
  pub apart : (j k : ℕ) → j * 256 < bound → k * 256 < bound → number j ≡ number k → j ≡ k

-- A block that was free becomes the file's next.
pub IsOwned-next :
    (bits index : ℕ → ℕ) (size i : ℕ)
    → size % 256 ≡ 0
    → bits i ≡ 0
    → i < block_num
    → IsOwned bits index size
    → IsOwned (update bits i 1) (update index (size / 256) (block_addr i)) (size + 1)
IsOwned-next bits index size i m z r v = record {
  number = update v.number (size / 256) i;
  in_range = λ k h. ground (arith, v.in_range k);
  placed = λ k h. ground (arith, v.placed k);
  taken = λ k h. ground (arith, v.taken k);
  apart = λ j k h g. ground (arith, v.apart j k, v.taken j, v.taken k);
}

-- Inside a block the file owns the last of it already.
pub IsOwned-same :
    (bits index : ℕ → ℕ) (size : ℕ)
    → size % 256 ≢ 0
    → IsOwned bits index size
    → IsOwned bits index (size + 1)
IsOwned-same bits index size m v = record {
  number = v.number;
  in_range = λ k h. v.in_range k (omega arith);
  placed = λ k h. v.placed k (omega arith);
  taken = λ k h. v.taken k (omega arith);
  apart = λ j k h g. v.apart j k (omega arith) (omega arith);
}

pub IsOwned-fill :
    (bits index : ℕ → ℕ) (size k : ℕ)
    → k ≤ 256 - size % 256
    → IsOwned bits index (size + 1)
    → IsOwned bits index (size + k)
IsOwned-fill bits index size c h v = record {
  number = v.number;
  in_range = λ k p. v.in_range k (omega arith);
  placed = λ k p. v.placed k (omega arith);
  taken = λ k p. v.taken k (omega arith);
  apart = λ j k p q. v.apart j k (omega arith) (omega arith);
}

abbrev pub byte_at : Writing → ℕ → ℕ
byte_at s o = s.disk (s.inode.index (o / 256) + o % 256)

-- How much a round writes.
abbrev pub piece : Writing → ℕ
piece s = min s.len (256 - s.file_offset % 256)

-- What a part of the file of `k` bytes more holds: the bytes that stood there and those of the buffer.
pub record Appended (s s' : Writing) (k : ℕ) : Type 0 where
  pub size : s'.inode.size ≡ s.inode.size + k
  pub dev_id : s'.inode.dev_id ≡ s.inode.dev_id
  pub offset : s'.file_offset ≡ s.file_offset + k
  pub counted : s'.writed_len ≡ s.writed_len + k
  pub left : s'.len ≡ s.len - k
  pub rest : (o : ℕ) → get_or s'.buf o 0 ≡ get_or s.buf (o + k) 0
  pub old : (o : ℕ) → o < s.inode.size → byte_at s' o ≡ byte_at s o
  pub new : (o : ℕ) → o < k → byte_at s' (s.inode.size + o) ≡ get_or s.buf o 0

unfoldable pub write_piece : (block k : ℕ) → Writing → Writing
write_piece block k s = record s {
  disk = dev_write s.disk (block + s.file_offset % 256) k (λ i. get_or s.buf i 0);
  inode = record s.inode { size = s.inode.size + k };
  file_offset = s.file_offset + k;
  writed_len = s.writed_len + k;
  len = s.len - k;
  buf = drop k s.buf;
}

pub write_chunk-piece :
    (block : ℕ) (s : Writing) → write_chunk block s ≡ write_piece block (piece s) s
unfolding write_chunk write_piece
write_chunk-piece block s = ap (λ k. write_piece block k s) (ground arith)

pub get_or-drop : (xs : List ℕ) (k o : ℕ) → get_or (drop k xs) o 0 ≡ get_or xs (o + k) 0
get_or-drop xs zero o = ap (λ i. get_or xs i 0) (omega arith)
get_or-drop [] (suc k) o = refl
get_or-drop (x ∷ xs) (suc k) o =
    let e : o + suc k ≡ suc (o + k) = omega arith in rw e (get_or-drop xs k o)

module _ (s : Writing) (e : s.file_offset ≡ s.inode.size)
    (v : IsOwned s.bitmap.bits s.inode.index (s.inode.size + 1)) where
  -- Where byte `o` of the file lies.
  place : (o : ℕ) → o ≤ s.inode.size → s.inode.index (o / 256) ≡ block_addr (v.number (o / 256))
  place o h = v.placed (o / 256) (omega arith)

  here : s.inode.index (s.file_offset / 256) ≡ block_addr (v.number (s.inode.size / 256))
  here = rw e (place s.inode.size (omega arith))

  -- A byte of another block, or of this one before the offset, is not in the range that is written.
  outside :
      (a b o size k : ℕ)
      → o < size
      → k ≤ 256 - size % 256
      → (a ≡ b → o / 256 ≡ size / 256)
      → (block_addr a + o % 256 < block_addr b + size % 256)
        ⊎ (block_addr b + size % 256 + k ≤ block_addr a + o % 256)
  outside a b o size k h m g = ground arith

  pub write_piece-Appended :
      (k : ℕ)
      → k ≤ 256 - s.file_offset % 256
      → Appended s (write_piece (s.inode.index (s.file_offset / 256)) k s) k
  unfolding write_piece
  write_piece-Appended k h = record {
    size = refl;
    dev_id = refl;
    offset = refl;
    counted = refl;
    left = refl;
    rest = λ o. get_or-drop s.buf k o;
    old = λ o lt. dev_write_off s.disk _ k _ _ (
        rw (here, place o (omega arith), e)
          (outside (v.number (o / 256)) (v.number (s.inode.size / 256)) o s.inode.size k lt
            (omega arith) (v.apart _ _ (omega arith) (omega arith))));
    new = λ o lt.
        dev_write_in s.disk _ k _ o _
          (let q : (s.inode.size + o) / 256 ≡ s.file_offset / 256 = omega arith in
            let r : (s.inode.size + o) % 256 ≡ s.file_offset % 256 + o = omega arith in
            rw (q, r) (omega arith))
          lt;
  }
