-- ===== src/FileSystem/ReadData/Levels.antt =====
-- `read_data` against the content of a file that needs no third level of index blocks.
use njuos.Prelude.{
  ℕ, zero, suc, ◌+◌, ◌-◌, ◌*◌, ◌/◌, ◌%◌, ◌≤◌, ◌<◌, ◌≡◌, refl, ap, ap₂, ◌∙◌, ◌⊎◌, inl, inr, [], ◌++◌,
  min, ltb, leb, if◌then◌else◌, arith, Bool-cases, false,
}
use njuos.FileSystem.{
  Disk, INode, entry, block_size, level_end0, level_end1, level_end2, level_end3, index_one_size,
}
use njuos.FileSystem.ReadData.{
  Reading, more, read_second, read_tables, read_trees, read_level0, read_level1, read_level2,
  read_level3, read_data,
}
use njuos.FileSystem.ReadData.Content.{
  block_at, file_bytes, amount, Reads, Reads-trans, Reads-nothing, more-false, read_direct-Reads,
  read_table-Reads,
}

module _ (d : Disk) (n : INode) where
  read_level0-Reads : (s : Reading) → Reads d n (min n.size level_end0) s (read_level0 d n s)
  unfolding read_level0
  read_level0-Reads s = elim (Bool-cases (more level_end0 s)) [
    | inl e ↦ rw e (
        read_direct-Reads d n (min n.size level_end0) (s.len + 1) s (omega arith) (omega arith)
          (omega arith) (omega arith))
    | inr e ↦ rw e (Reads-nothing d n (min n.size level_end0) s (ground arith))
  ]

  first_table :
      (k : ℕ)
      → (k + 12) * 256 < min n.size level_end1
      → entry d (n.index 12) k ≡ block_at d n (k + 12)
  unfolding block_at
  first_table k h = ground (arith, ap (entry d (n.index 12)) (back k))
    where
      back : (k : ℕ) → k + 12 - 12 ≡ k
      back k = omega arith

  -- Behind the direct blocks.
  read_level1-Reads :
      (s : Reading)
      → (level_end0 ≤ s.file_offset) ⊎ (s.len ≡ 0)
      → Reads d n (min n.size level_end1) s (read_level1 d n s)
  unfolding read_level1
  read_level1-Reads s h = elim (Bool-cases (more level_end1 s)) [
    | inl e ↦ rw e (
        read_table-Reads d n (n.index 12) 12 (min n.size level_end1) (s.len + 1)
          ((s.file_offset - level_end0) / block_size) s (omega arith) (omega arith) first_table
          (ground arith) (omega arith))
    | inr e ↦ rw e (Reads-nothing d n (min n.size level_end1) s (ground arith))
  ]

  second_table :
      (i k : ℕ)
      → i < 64
      → (k + (76 + 64 * i)) * 256 < min n.size (level_end1 + (i + 1) * index_one_size)
      → entry d (entry d (n.index 13) i) k ≡ block_at d n (k + (76 + 64 * i))
  unfolding block_at
  second_table i k lt h =
      let q : (k + (76 + 64 * i) - 76) / 64 ≡ i = omega arith in
      let r : (k + (76 + 64 * i) - 76) % 64 ≡ k = omega arith in
      ground (arith, ap₂ (λ (x y : ℕ). entry d (entry d (n.index 13) x) y) q r)

  read_second-Reads :
      (i : ℕ) (s : Reading)
      → i < 64
      → level_end1 + i * index_one_size ≤ s.file_offset
      → Reads d n
          (min n.size (level_end1 + (i + 1) * index_one_size))
          s
          (read_second d n (n.index 13) i s)
  unfolding read_second
  read_second-Reads i s lt h =
      read_table-Reads d n (entry d (n.index 13) i) (76 + 64 * i)
        (min n.size (level_end1 + (i + 1) * index_one_size)) (s.len + 1) _ s (omega arith)
        (omega arith) (λ k. second_table i k lt) (inl (omega arith)) (omega arith)

  abbrev AtTable : (i : ℕ) → Reading → Type 0
  AtTable i s =
      ((level_end1 ≤ s.file_offset) × (i ≡ (s.file_offset - level_end1) / index_one_size))
      ⊎ (s.len ≡ 0)
      ⊎ (min n.size level_end2 ≤ s.file_offset)

  read_tables-Reads :
      (fuel i : ℕ) (s : Reading)
      → AtTable i s
      → s.len < fuel
      → Reads d n
          (min n.size level_end2)
          s
          (read_tables d n (n.index 13) (min n.size level_end2) fuel i s)
  unfolding read_tables
  read_tables-Reads zero i s at h = absurd (omega arith)
  read_tables-Reads (suc fuel) i s at h = elim (Bool-cases (more (min n.size level_end2) s)) [
    | inl e ↦
        let lt : s.file_offset < min n.size level_end2 = ground arith in
        let pos : 0 < s.len = ground arith in
        let here : (level_end1 ≤ s.file_offset)
            × (i ≡ (s.file_offset - level_end1) / index_one_size) =
          omega arith in
        let t = read_second d n (n.index 13) i s in
        let first = read_second-Reads i s (omega arith) (omega arith) in
        rw e (
          Reads-trans d n (min n.size (level_end1 + (i + 1) * index_one_size))
            (min n.size level_end2) s t _ (omega arith) first
            (read_tables-Reads fuel (i + 1) t (omega (arith, first.moved, first.left))
              (omega (arith, first.left))))
    | inr e ↦ rw e (Reads-nothing d n (min n.size level_end2) s (more-false d n _ s e))
  ]

  read_level2-Reads :
      (s : Reading)
      → (level_end1 ≤ s.file_offset) ⊎ (s.len ≡ 0)
      → Reads d n (min n.size level_end2) s (read_level2 d n s)
  unfolding read_level2
  read_level2-Reads s h = elim (Bool-cases (more level_end2 s)) [
    | inl e ↦ rw e (read_tables-Reads (s.len + 1) _ s (omega arith) (omega arith))
    | inr e ↦ rw e (Reads-nothing d n (min n.size level_end2) s (ground arith))
  ]

  -- There is nothing left for the third level.
  read_trees_idle :
      (table end fuel i : ℕ) (s : Reading)
      → more end s ≡ false
      → read_trees d n table end fuel i s ≡ s
  unfolding read_trees
  read_trees_idle table end zero i s h = refl
  read_trees_idle table end (suc fuel) i s h = rw h

  read_level3_idle : (s : Reading) → (s.len ≡ 0) ⊎ (n.size ≤ s.file_offset) → read_level3 d n s ≡ s
  unfolding read_level3
  read_level3_idle s h = elim (Bool-cases (ltb 0 s.len)) [
    | inl e ↦
        rw e (read_trees_idle (n.index 14) (min n.size level_end3) (s.len + 1) _ s (ground arith))
    | inr e ↦ rw e
  ]

  -- Where reading has stopped for want of bytes or of room, a larger end makes no difference.
  Reads-widen :
      (mid end : ℕ) (s u : Reading)
      → Reads d n mid s u
      → mid ≤ end
      → (u.len ≡ 0) ⊎ (end ≤ u.file_offset)
      → Reads d n end s u
  Reads-widen mid end s u r h stop =
      let same : amount s mid ≡ amount s end = omega (arith, r.moved, r.left) in
      record {
        moved = omega (arith, r.moved);
        counted = omega (arith, r.counted);
        left = omega (arith, r.left);
        copied = r.copied ∙ ap (λ (k : ℕ). s.buf ++ file_bytes d n s.file_offset k) same;
      }

  from_level2 :
      (s : Reading)
      → n.size ≤ level_end2
      → (level_end1 ≤ s.file_offset) ⊎ (s.len ≡ 0)
      → Reads d n n.size s (
          let s2 = read_level2 d n s in
          if ltb n.size s2.file_offset then s2 else read_level3 d n s2)
  from_level2 s small h =
      let s2 = read_level2 d n s in
      let r = read_level2-Reads s h in
      let all =
        Reads-widen (min n.size level_end2) n.size s s2 r (omega arith)
          (omega (arith, r.moved, r.left)) in
      elim (Bool-cases (ltb n.size s2.file_offset)) [
        | inl e ↦ rw e all
        | inr e ↦ rw (e, read_level3_idle s2 (omega (arith, all.moved, all.left))) all
      ]

  from_level1 :
      (s : Reading)
      → n.size ≤ level_end2
      → (level_end0 ≤ s.file_offset) ⊎ (s.len ≡ 0)
      → Reads d n n.size s (
          let s1 = read_level1 d n s in
          if leb n.size s1.file_offset
          then s1
          else (let s2 = read_level2 d n s1 in
              if ltb n.size s2.file_offset then s2 else read_level3 d n s2))
  from_level1 s small h =
      let s1 = read_level1 d n s in
      let r = read_level1-Reads s h in
      elim (Bool-cases (leb n.size s1.file_offset)) [
        | inl e ↦
            rw e
              (Reads-widen (min n.size level_end1) n.size s s1 r (omega arith) (inr (ground arith)))
        | inr e ↦
            let lt : s1.file_offset < n.size = ground arith in
            rw e (
              Reads-trans d n (min n.size level_end1) n.size s s1 _ (omega arith) r
                (from_level2 s1 small (omega (arith, r.moved, r.left))))
      ]

  read_data-Reads :
      (file_offset len : ℕ)
      → n.size ≤ level_end2
      → Reads d n n.size
          (record { file_offset = file_offset; readed_len = 0; len = len; buf = [] })
          (read_data d n file_offset len)
  unfolding read_data
  read_data-Reads file_offset len small =
      let s : Reading = record { file_offset = file_offset; readed_len = 0; len = len; buf = [] } in
      let s0 = read_level0 d n s in
      let r = read_level0-Reads s in
      elim (Bool-cases (leb n.size s0.file_offset)) [
        | inl e ↦
            rw e
              (Reads-widen (min n.size level_end0) n.size s s0 r (omega arith) (inr (ground arith)))
        | inr e ↦
            let lt : s0.file_offset < n.size = ground arith in
            rw e (
              Reads-trans d n (min n.size level_end0) n.size s s0 _ (omega arith) r
                (from_level1 s0 small (omega (arith, r.moved, r.left))))
      ]

  -- Of a file that ends inside the second level of index blocks, `read_data` reads the bytes that stand
  -- at the offset, as many as are wanted and as the file still holds; it counts them right, and ends
  -- behind the last of them.
  pub read_data_lem :
      (file_offset len : ℕ)
      → n.size ≤ level_end2
      → let r = read_data d n file_offset len in
        let k = min len (n.size - file_offset) in
        (r.buf ≡ file_bytes d n file_offset k)
        × (r.readed_len ≡ k)
        × (r.file_offset ≡ file_offset + k)
  read_data_lem file_offset len small =
      let r = read_data-Reads file_offset len small in
      (r.copied, omega (arith, r.counted), omega (arith, r.moved))
