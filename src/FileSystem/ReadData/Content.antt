-- ===== src/FileSystem/ReadData/Content.antt =====
-- What the bytes of a file are: the block map of an inode up to the second level, and how a loop of
-- `read_data` follows it.
use njuos.Prelude.{
  ℕ, zero, suc, ◌+◌, ◌-◌, ◌*◌, ◌/◌, ◌%◌, ◌≤◌, ◌<◌, ◌≡◌, refl, sym, ap, ◌∙◌, ◌⊎◌, inl, inr, List, [],
  ◌∷◌, ◌++◌, append_assoc, append-nil, min, ltb, if◌then◌else◌, arith, Bool-cases, true, false,
}
use njuos.FileSystem.{Disk, INode, dev_read, entry, block_size}
use njuos.FileSystem.ReadData.{Reading, cur_read_len, more, read_chunk, read_direct, read_table}

module _ (d : Disk) (n : INode) where
  -- The address of block number `b` of the file.
  unfoldable pub block_at : ℕ → ℕ
  block_at b =
      if ltb b 12
      then n.index b
      else (if ltb b 76
          then entry d (n.index 12) (b - 12)
          else entry d (entry d (n.index 13) ((b - 76) / 64)) ((b - 76) % 64))

  -- The byte at an offset, and `k` bytes from an offset on.
  unfoldable pub file_byte : ℕ → ℕ
  file_byte o = d (block_at (o / 256) + o % 256)

  unfoldable pub file_bytes : ℕ → ℕ → List ℕ
  file_bytes o zero = []
  file_bytes o (suc k) = file_byte o ∷ file_bytes (o + 1) k

  file_bytes-append : (o k m : ℕ) → file_bytes o (k + m) ≡ file_bytes o k ++ file_bytes (o + k) m
  unfolding file_bytes
  file_bytes-append o zero m =
      let e : 0 + m ≡ m = omega arith in let f : o + 0 ≡ o = omega arith in rw (e, f)
  file_bytes-append o (suc k) m =
      let e : suc k + m ≡ suc (k + m) = omega arith in
      let f : o + suc k ≡ o + 1 + k = omega arith in
      rw (e, f) (ap (◌∷◌ (file_byte o)) (file_bytes-append (o + 1) k m))

  -- Inside one block the bytes lie in a row.
  dev_read_block :
      (o k : ℕ) → o % 256 + k ≤ 256 → dev_read d (block_at (o / 256) + o % 256) k ≡ file_bytes o k
  unfolding dev_read file_bytes file_byte
  dev_read_block o zero h = refl
  dev_read_block o (suc zero) h = refl
  dev_read_block o (suc (suc k)) h =
      let b : (o + 1) / 256 ≡ o / 256 = omega arith in
      let r : (o + 1) % 256 ≡ o % 256 + 1 = omega arith in
      let e : block_at ((o + 1) / 256) + (o + 1) % 256 ≡ block_at (o / 256) + o % 256 + 1 =
        rw (b, r) (omega arith) in
      ap (◌∷◌ (file_byte o)) (
        ap (λ (a : ℕ). dev_read d a (suc k)) (sym e) ∙ dev_read_block (o + 1) (suc k) (omega arith))

-- How much is read between an offset and an end.
abbrev pub amount : Reading → ℕ → ℕ
amount s end = min s.len (end - s.file_offset)

module _ (d : Disk) (n : INode) where
  -- From `s` the bytes of the file up to `end` have been read, as far as they are wanted.
  pub record Reads (end : ℕ) (s s' : Reading) : Type 0 where
    pub moved : s'.file_offset ≡ s.file_offset + amount s end
    pub counted : s'.readed_len ≡ s.readed_len + amount s end
    pub left : s'.len ≡ s.len - amount s end
    pub copied : s'.buf ≡ s.buf ++ file_bytes d n s.file_offset (amount s end)

module _ (d : Disk) (n : INode) where
  pub Reads-nothing : (end : ℕ) (s : Reading) → amount s end ≡ 0 → Reads d n end s s
  unfolding file_bytes
  Reads-nothing end s h = record {
    moved = omega arith;
    counted = omega arith;
    left = omega arith;
    copied = sym (ap (λ (k : ℕ). s.buf ++ file_bytes d n s.file_offset k) h ∙ append-nil s.buf);
  }

  -- One loop after another.
  pub Reads-trans :
      (mid end : ℕ) (s t u : Reading)
      → mid ≤ end
      → Reads d n mid s t
      → Reads d n end t u
      → Reads d n end s u
  Reads-trans mid end s t u h p q =
      let total : amount s end ≡ amount s mid + amount t end = omega (arith, p.moved, p.left) in
      record {
        moved = omega (arith, p.moved, q.moved);
        counted = omega (arith, p.counted, q.counted);
        left = omega (arith, p.left, q.left);
        copied =
            q.copied
            ∙ ap (λ (l : List ℕ). l ++ file_bytes d n t.file_offset (amount t end)) p.copied
            ∙ append_assoc s.buf _ _
            ∙ ap (◌++◌ s.buf) (
                sym (
                  ap (file_bytes d n s.file_offset) total
                  ∙ file_bytes-append d n s.file_offset (amount s mid) (amount t end)
                  ∙ ap
                      (λ (x : ℕ).
                        file_bytes d n s.file_offset (amount s mid)
                        ++ file_bytes d n x (amount t end))
                      (sym p.moved)));
      }

-- A piece ends with the block, with what is wanted or with the file, whichever is first.
record IsPiece (len offset size cur : ℕ) : Type 0 where
  some_bytes : 0 < cur
  wanted : cur ≤ len
  inside : offset + cur ≤ size
  in_block : offset % 256 + cur ≤ 256
  stops : (cur ≡ len) ⊎ (offset + cur ≡ size) ⊎ (offset % 256 + cur ≡ 256)

cur_read_len-IsPiece :
    (len offset size : ℕ)
    → 0 < len
    → offset < size
    → IsPiece len offset size (cur_read_len len offset size)
unfolding cur_read_len
cur_read_len-IsPiece len offset size h k = record {
  some_bytes = ground arith;
  wanted = ground arith;
  inside = ground arith;
  in_block = ground arith;
  stops = ground arith;
}

module _ (d : Disk) (n : INode) where
  -- One piece of the block that the offset lies in.
  read_chunk-Reads :
      (block : ℕ) (s : Reading)
      → block ≡ block_at d n (s.file_offset / 256)
      → s.file_offset < n.size
      → 0 < s.len
      → Reads d n
          (s.file_offset + cur_read_len s.len s.file_offset n.size)
          s
          (read_chunk d n block s)
  unfolding read_chunk
  read_chunk-Reads block s e lt pos =
      let p = cur_read_len-IsPiece s.len s.file_offset n.size pos lt in
      let cur = cur_read_len s.len s.file_offset n.size in
      let all : amount s (s.file_offset + cur) ≡ cur = omega (arith, p.wanted) in
      record {
        moved = omega (arith, p.wanted);
        counted = omega (arith, p.wanted);
        left = omega (arith, p.wanted);
        copied = ap (◌++◌ s.buf) (
            ap (λ (b : ℕ). dev_read d (b + s.file_offset % 256) cur) e
            ∙ dev_read_block d n s.file_offset cur p.in_block
            ∙ ap (file_bytes d n s.file_offset) (sym all));
      }

  -- A test that fails leaves nothing to read.
  pub more-false : (end : ℕ) (s : Reading) → more end s ≡ false → amount s end ≡ 0
  more-false end s h = ground arith

  -- A round of a loop, and the rest of it.
  read_round :
      (block end : ℕ) (s u : Reading)
      → more end s ≡ true
      → block ≡ block_at d n (s.file_offset / 256)
      → end ≤ n.size
      → (end ≡ n.size) ⊎ (end % 256 ≡ 0)
      → Reads d n end (read_chunk d n block s) u
      → Reads d n end s u
  read_round block end s u e at a c rest =
      let lt : s.file_offset < end = ground arith in
      let pos : 0 < s.len = ground arith in
      let p = cur_read_len-IsPiece s.len s.file_offset n.size pos (omega arith) in
      Reads-trans d n (s.file_offset + cur_read_len s.len s.file_offset n.size) end s _ u
        (omega (arith, p.in_block, p.inside)) (read_chunk-Reads block s at (omega arith) pos) rest

  len-read_chunk :
      (block end : ℕ) (s : Reading)
      → more end s ≡ true
      → end ≤ n.size
      → (read_chunk d n block s).len < s.len
  unfolding read_chunk
  len-read_chunk block end s e a =
      let lt : s.file_offset < end = ground arith in
      let pos : 0 < s.len = ground arith in
      let p = cur_read_len-IsPiece s.len s.file_offset n.size pos (omega arith) in
      omega (arith, p.some_bytes, p.wanted)

  block_at_direct : (b : ℕ) → b < 12 → n.index b ≡ block_at d n b
  unfolding block_at
  block_at_direct b h = ground arith

  -- The loop over the direct blocks reads up to `end`.
  pub read_direct-Reads :
      (end fuel : ℕ) (s : Reading)
      → end ≤ n.size
      → end ≤ 3072
      → (end ≡ n.size) ⊎ (end % 256 ≡ 0)
      → s.len < fuel
      → Reads d n end s (read_direct d n end fuel s)
  unfolding read_direct
  read_direct-Reads end zero s a b c h = absurd (omega arith)
  read_direct-Reads end (suc fuel) s a b c h = elim (Bool-cases (more end s)) [
    | inl e ↦
        let block = n.index (s.file_offset / block_size) in
        let lt : s.file_offset < end = ground arith in
        rw e (
          read_round block end s _ e (block_at_direct (s.file_offset / 256) (omega arith)) a c (
            read_direct-Reads end fuel (read_chunk d n block s) a b c
              (omega (arith, len-read_chunk block end s e a))))
    | inr e ↦ rw e (Reads-nothing d n end s (more-false end s e))
  ]

  -- Where the walk through a table stands: at the entry of the block of the offset, or at its end.
  abbrev pub At : (base end i : ℕ) → Reading → Type 0
  At base end i s = (i + base ≡ s.file_offset / 256) ⊎ (s.len ≡ 0) ⊎ (end ≤ s.file_offset)

  At-next :
      (block base end i : ℕ) (s : Reading)
      → more end s ≡ true
      → end ≤ n.size
      → i + base ≡ s.file_offset / 256
      → At base end (i + 1) (read_chunk d n block s)
  unfolding read_chunk
  At-next block base end i s e a h =
      let lt : s.file_offset < end = ground arith in
      let pos : 0 < s.len = ground arith in
      let p = cur_read_len-IsPiece s.len s.file_offset n.size pos (omega arith) in
      elim p.stops [
        | inl q ↦ inr (inl (omega arith))
        | inr (inl q) ↦ inr (inr (omega arith))
        | inr (inr q) ↦ inl (omega arith)
      ]

  At-here :
      (base end i : ℕ) (s : Reading)
      → more end s ≡ true
      → At base end i s
      → i + base ≡ s.file_offset / 256
  At-here base end i s e h = ground arith

  -- The loop over the blocks of a table reads up to `end`, if the table lists the blocks of the file
  -- from number `base` on as far as the offsets below `end` lie in them.
  pub read_table-Reads :
      (table base end fuel i : ℕ) (s : Reading)
      → end ≤ n.size
      → (end ≡ n.size) ⊎ (end % 256 ≡ 0)
      → ((k : ℕ) → (k + base) * 256 < end → entry d table k ≡ block_at d n (k + base))
      → At base end i s
      → s.len < fuel
      → Reads d n end s (read_table d n table end fuel i s)
  unfolding read_table
  read_table-Reads table base end zero i s a c f at h = absurd (omega arith)
  read_table-Reads table base end (suc fuel) i s a c f at h = elim (Bool-cases (more end s)) [
    | inl e ↦
        let block = entry d table i in
        let lt : s.file_offset < end = ground arith in
        let here = At-here base end i s e at in
        rw e (
          read_round block end s _ e (f i (omega arith) ∙ ap (block_at d n) here) a c (
            read_table-Reads table base end fuel (i + 1) (read_chunk d n block s) a c f
              (At-next block base end i s e a here)
              (omega (arith, len-read_chunk block end s e a))))
    | inr e ↦ rw e (Reads-nothing d n end s (more-false end s e))
  ]
