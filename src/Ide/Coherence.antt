-- ===== src/Ide/Coherence.antt =====
-- The sector cache against the plain disk that it stands for: every byte reads as last written, and a
-- write-back makes the disk agree (src/kernel/drivers/ide/cache.c).
use njuos.Prelude.{
  ℕ, zero, suc, ◌+◌, ◌/◌, ◌%◌, ◌≤◌, ◌<◌, true, false, ◌≡◌, refl, ◌∙◌, ◌&&◌, ◌==◌, arith,
  if◌then◌else◌,
}
use njuos.Ide.{
  Ide, init_slot, init_from, cache_init, cache_fetch, read_byte, write_byte, writeback_slot,
  writeback_from, cache_writeback,
}

-- Slot `i` holds a sector of its own class, a dirty slot is used, and a clean one agrees with the disk.
pub record SlotIsCoherent (s : Ide) (i : ℕ) : Type 0 where
  pub home : (s.cache i).used ≡ true → (s.cache i).sector % 128 ≡ i
  pub owned : (s.cache i).dirty ≡ true → (s.cache i).used ≡ true
  pub clean :
      (s.cache i).used ≡ true
      → (s.cache i).dirty ≡ false
      → (b : ℕ) → (s.cache i).content b ≡ s.disk (s.cache i).sector b

abbrev pub IsCoherent : Ide → Type 0
IsCoherent s = (i : ℕ) → i < 128 → SlotIsCoherent s i

-- Byte `offset` of the disk as a client sees it through the cache.
pub view : Ide → ℕ → ℕ
view s offset =
    let c = s.cache ((offset / 512) % 128) in
    if c.used && (c.sector == offset / 512)
    then c.content (offset % 512)
    else s.disk (offset / 512) (offset % 512)

module _ (s : Ide) (v : IsCoherent s) (sector : ℕ) where
  view-cache_fetch : (offset : ℕ) → view (cache_fetch sector s) offset ≡ view s offset
  unfolding view cache_fetch
  view-cache_fetch offset = ground (
    arith,
    (v (sector % 128) (omega arith)).home,
    (v (sector % 128) (omega arith)).owned,
    λ (p : (s.cache (sector % 128)).used ≡ true) (q : (s.cache (sector % 128)).dirty ≡ false).
        (v (sector % 128) (omega arith)).clean p q (offset % 512),
  )

  cache_fetch-IsCoherent : IsCoherent (cache_fetch sector s)
  unfolding cache_fetch
  cache_fetch-IsCoherent i h = record {
    home = ground (arith, (v i h).home);
    owned = ground (arith, (v i h).owned);
    clean = λ p q b. ground (
      arith,
      (v i h).home,
      (v (sector % 128) (omega arith)).home,
      λ (p : (s.cache i).used ≡ true) (q : (s.cache i).dirty ≡ false). (v i h).clean p q b,
    );
  }

  -- After a fetch the slot of the sector holds it.
  cache_fetch_hit :
      let c = (cache_fetch sector s).cache (sector % 128) in (c.used ≡ true) × (c.sector ≡ sector)
  unfolding cache_fetch
  cache_fetch_hit = ground arith

module _ (s : Ide) (v : IsCoherent s) (offset : ℕ) where
  -- From a coherent cache, `read_byte` returns the byte that the disk shows at the offset, changes
  -- no byte of the disk as seen through the cache, and leaves the cache coherent.
  pub read_byte_lem :
      let (byte, s') = read_byte offset s in
      (byte ≡ view s offset) × ((o : ℕ) → view s' o ≡ view s o) × IsCoherent s'
  unfolding read_byte
  read_byte_lem = (
    unfold view in
        ground
          (arith, cache_fetch_hit s v (offset / 512), view-cache_fetch s v (offset / 512) offset),
    view-cache_fetch s v (offset / 512),
    cache_fetch-IsCoherent s v (offset / 512),
  )

  -- From a coherent cache, `write_byte` changes the byte at the offset to the one given and no other
  -- byte of the disk as seen through the cache, and leaves the cache coherent.
  pub write_byte_lem :
      (byte : ℕ)
      → let s' = write_byte offset byte s in
        ((o : ℕ) → view s' o ≡ (if offset == o then byte else view s o)) × IsCoherent s'
  unfolding write_byte
  write_byte_lem byte = (
    λ o.
        unfold view in
        ground (arith, cache_fetch_hit s v (offset / 512), view-cache_fetch s v (offset / 512) o),
    λ i h. record {
      home = ground (arith, (cache_fetch-IsCoherent s v (offset / 512) i h).home);
      owned = ground (
        arith,
        cache_fetch_hit s v (offset / 512),
        (cache_fetch-IsCoherent s v (offset / 512) i h).owned,
      );
      clean = λ p q b. ground (
        arith,
        λ (p : ((cache_fetch (offset / 512) s).cache i).used ≡ true)
              (q : ((cache_fetch (offset / 512) s).cache i).dirty ≡ false).
            (cache_fetch-IsCoherent s v (offset / 512) i h).clean p q b,
      );
    },
  )

record Inited (n i : ℕ) (s s' : Ide) : Type 0 where
  dirt : (j : ℕ) → (s'.cache j).dirty ≡ (s.cache j).dirty
  unused : (j : ℕ) → i ≤ j → j < i + n → (s'.cache j).used ≡ false
  kept : (j : ℕ) → (s.cache j).used ≡ false → (s'.cache j).used ≡ false
  same : s'.disk ≡ s.disk

init_from-Inited : (n i : ℕ) (s : Ide) → Inited n i s (init_from n i s)
unfolding init_from init_slot
init_from-Inited zero i s = record {
  dirt = λ j. refl;
  unused = λ j p q. absurd (omega arith);
  kept = λ j p. p;
  same = refl;
}
init_from-Inited (suc n) i s =
    let ih = init_from-Inited n (i + 1) (init_slot i s) in
    record {
      dirt = λ j. ground (arith, ih.dirt j);
      unused = λ j p q. ground (arith, ih.unused j, ih.kept j);
      kept = λ j p. ground (arith, ih.kept j);
      same = ground (arith, ih.same);
    }

-- From an array with no dirty slot, as the zeroed static array is, `cache_init` makes the cache
-- coherent, and through it every byte is the disk's own.
pub cache_init_lem :
    (s : Ide)
    → ((i : ℕ) → (s.cache i).dirty ≡ false)
    → IsCoherent (cache_init s) × ((o : ℕ) → view (cache_init s) o ≡ s.disk (o / 512) (o % 512))
unfolding cache_init view
cache_init_lem s h =
    let r = init_from-Inited 128 0 s in
    (
      λ i lt. record {
        home = λ p. ground (arith, r.unused i (omega arith) (omega arith));
        owned = λ p. ground (arith, r.dirt i, h i);
        clean = λ p q b. ground (arith, r.unused i (omega arith) (omega arith));
      },
      λ o. ground (arith, r.unused ((o / 512) % 128) (omega arith) (omega arith), r.same),
    )

module _ (s : Ide) (v : IsCoherent s) (i : ℕ) (lt : i < 128) where
  view-writeback_slot : (o : ℕ) → view (writeback_slot i s) o ≡ view s o
  unfolding view writeback_slot
  view-writeback_slot o = ground (arith, (v i lt).home, (v i lt).owned)

  writeback_slot-IsCoherent : IsCoherent (writeback_slot i s)
  unfolding writeback_slot
  writeback_slot-IsCoherent j h = record {
    home = ground (arith, (v j h).home);
    owned = ground (arith, (v j h).owned);
    clean = λ p q b. ground (
      arith,
      (v i lt).home,
      (v i lt).owned,
      (v j h).home,
      λ (p : (s.cache j).used ≡ true) (q : (s.cache j).dirty ≡ false). (v j h).clean p q b,
    );
  }

  writeback_slot-clean :
      (((writeback_slot i s).cache i).dirty ≡ false)
      × ((j : ℕ) → (s.cache j).dirty ≡ false → ((writeback_slot i s).cache j).dirty ≡ false)
  unfolding writeback_slot
  writeback_slot-clean = (ground arith, λ j h. ground arith)

record Written (n i : ℕ) (s s' : Ide) : Type 0 where
  pub coherent : IsCoherent s'
  pub seen : (o : ℕ) → view s' o ≡ view s o
  pub flushed : (j : ℕ) → i ≤ j → j < i + n → (s'.cache j).dirty ≡ false
  pub kept : (j : ℕ) → (s.cache j).dirty ≡ false → (s'.cache j).dirty ≡ false

writeback_from-Written :
    (n i : ℕ) (s : Ide) → IsCoherent s → i + n ≤ 128 → Written n i s (writeback_from n i s)
unfolding writeback_from
writeback_from-Written zero i s v h = record {
  coherent = v;
  seen = λ o. refl;
  flushed = λ j p q. absurd (omega arith);
  kept = λ j p. p;
}
writeback_from-Written (suc n) i s v h =
    let lt : i < 128 = omega arith in
    let once = writeback_slot-clean s v i lt in
    let ih =
      writeback_from-Written n (i + 1) (writeback_slot i s) (writeback_slot-IsCoherent s v i lt)
        (omega arith) in
    record {
      coherent = ih.coherent;
      seen = λ o. ih.seen o ∙ view-writeback_slot s v i lt o;
      flushed = λ j p q. ground (arith, ih.flushed j, ih.kept j, once.0);
      kept = λ j p. ih.kept j (once.1 j p);
    }

-- From a coherent cache, after `cache_writeback` no slot `j` is dirty, the disk itself holds every byte
-- `o` as it was seen through the cache, the view of it is unchanged, and the cache is coherent.
pub cache_writeback_lem :
    (s : Ide)
    → IsCoherent s
    → (j : ℕ) → j < 128
    → (o : ℕ)
    → let s' = cache_writeback s in
      ((s'.cache j).dirty ≡ false)
      × (s'.disk (o / 512) (o % 512) ≡ view s o)
      × (view s' o ≡ view s o)
      × IsCoherent s'
unfolding cache_writeback
cache_writeback_lem s v j h o =
    let r = writeback_from-Written 128 0 s v (omega arith) in
    (
      r.flushed j (omega arith) (omega arith),
      disk-eq-view (writeback_from 128 0 s) o (r.coherent _ (omega arith))
            (r.flushed ((o / 512) % 128) (omega arith) (omega arith))
          ∙ r.seen o,
      r.seen o,
      r.coherent,
    )
  where
    disk-eq-view :
        (t : Ide) (o : ℕ)
        → SlotIsCoherent t ((o / 512) % 128)
        → (t.cache ((o / 512) % 128)).dirty ≡ false
        → t.disk (o / 512) (o % 512) ≡ view t o
    disk-eq-view t o c d =
        unfold view in
        ground (arith, λ (p : (t.cache ((o / 512) % 128)).used ≡ true). c.clean p d (o % 512))
