-- ===== src/Ide.antt =====
-- src/kernel/drivers/ide: the sector cache of the IDE driver (cache.c). The disk behind it is read
-- and written a sector at a time; here it is a function from sectors to their 512 bytes.
pub mod Coherence
pub mod Driver
use njuos.Prelude.{
  ℕ, zero, suc, ◌+◌, ◌/◌, ◌%◌, Bool, true, false, ◌&&◌, ◌==◌, if◌then◌else◌, update,
}

-- `NR_SEC_CACHE`
abbrev pub nr_sec_cache : ℕ
nr_sec_cache = 128

-- The bytes of one sector, by their index below 512.
abbrev pub Content : Type 0
Content = ℕ → ℕ

-- `struct SectorCache`
pub record SectorCache : Type 0 where
  pub sector : ℕ
  pub used : Bool
  pub dirty : Bool
  pub content : Content

-- The cache array and the disk behind it.
pub record Ide : Type 0 where
  pub cache : ℕ → SectorCache
  pub disk : ℕ → Content

-- `disk_do_write`: the whole sector is replaced.
pub disk_do_write : Ide → Content → ℕ → Ide
disk_do_write s buf sector = record s { disk = update s.disk sector buf }

-- The body of the loop of `cache_init` at slot `i`.
pub init_slot : ℕ → Ide → Ide
init_slot i s = record s { cache = update s.cache i (record (s.cache i) { used = false }) }

-- The loop from slot `i` on, with `n` slots left.
init_from : ℕ → ℕ → Ide → Ide
init_from zero i s = s
init_from (suc n) i s = init_from n (i + 1) (init_slot i s)

pub cache_init : Ide → Ide
unfolding init_from
cache_init s = init_from nr_sec_cache 0 s

-- The body of the loop of `cache_writeback` at slot `i`.
pub writeback_slot : ℕ → Ide → Ide
unfolding disk_do_write
writeback_slot i s =
    if (s.cache i).dirty
    then (let s' = disk_do_write s (s.cache i).content (s.cache i).sector in
        record s' { cache = update s'.cache i (record (s'.cache i) { dirty = false }) })
    else s

writeback_from : ℕ → ℕ → Ide → Ide
writeback_from zero i s = s
writeback_from (suc n) i s = writeback_from n (i + 1) (writeback_slot i s)

pub cache_writeback : Ide → Ide
unfolding writeback_from
cache_writeback s = writeback_from nr_sec_cache 0 s

-- The write-back of a dirty victim, before another sector takes its slot.
unfoldable pub evict : ℕ → Ide → Ide
unfolding disk_do_write
evict i s =
    if (s.cache i).used && (s.cache i).dirty
    then disk_do_write s (s.cache i).content (s.cache i).sector
    else s

-- `cache_fetch`; the pointer that it returns is the slot `sector % nr_sec_cache`.
unfoldable pub cache_fetch : ℕ → Ide → Ide
unfolding evict
cache_fetch sector s =
    if (s.cache i).used && ((s.cache i).sector == sector)
    then s
    else (let s' = evict i s in record s' { cache = update s'.cache i (filled s') })
  where
    i : ℕ
    i = sector % nr_sec_cache

    filled : Ide → SectorCache
    filled s' = record { sector = sector; used = true; dirty = false; content = s'.disk sector }

-- `read_byte`: `offset >> 9` and `offset & 511`.
unfoldable pub read_byte : ℕ → Ide → ℕ × Ide
read_byte offset s =
    let s' = cache_fetch (offset / 512) s in
    ((s'.cache ((offset / 512) % nr_sec_cache)).content (offset % 512), s')

unfoldable pub write_byte : ℕ → ℕ → Ide → Ide
write_byte offset byte s =
    let s' = cache_fetch (offset / 512) s in
    let i = (offset / 512) % nr_sec_cache in
    let ptr = s'.cache i in
    record s' {
      cache =
          update s'.cache i
            (record ptr { content = update ptr.content (offset % 512) byte; dirty = true });
    }
