-- ===== src/Ide/Driver.antt =====
-- src/kernel/drivers/ide/ide.c: the driver's thread over the cache. The bytes of a process are lists here;
-- `none` is a message that the thread panics at.
pub mod Serving
use njuos.Prelude.{
  ℕ, zero, suc, ◌+◌, ◌%◌, ◌^◌, List, [], ◌∷◌, Bool, true, false, Option, none, some, ◌==◌,
  if◌then◌else◌, length,
}
use njuos.Ide.{Ide, read_byte, write_byte, cache_writeback}

-- The loop for `DEV_READ`, with `n` bytes to go.
pub read_loop : (n offset : ℕ) → Ide → List ℕ × Ide
read_loop zero offset s = ([], s)
read_loop (suc n) offset s =
    let (byte, s') = read_byte (offset % 2 ^ 32) s in
    let (bytes, s'') = read_loop n (offset + 1) s' in (byte ∷ bytes, s'')

-- The loop for `DEV_WRITE`.
pub write_loop : (offset : ℕ) → List ℕ → Ide → Ide
write_loop offset [] s = s
write_loop offset (byte ∷ bytes) s =
    write_loop (offset + 1) bytes (write_byte (offset % 2 ^ 32) byte s)

-- The messages: from a client, and from the interrupt handlers.
pub data Request : Type 0 where
  read : (offset len : ℕ) → Request
  write : (offset : ℕ) → (bytes : List ℕ) → Request
  writeback : Request
  ready : Request

-- A round of `ide_driver_thread`: the bytes that go to the client, and `m.ret`. `IDE_READY` is for
-- `disk_do_read` and `disk_do_write` and is a leak here.
pub serve : Request → Ide → Option ((List ℕ × ℕ) × Ide)
unfolding read_loop write_loop
serve (read offset len) s = let (bytes, s') = read_loop len offset s in some ((bytes, len), s')
serve (write offset bytes) s = some (([], length bytes), write_loop offset bytes s)
serve writeback s = some (([], 0), cache_writeback s)
serve ready s = none

pub serve_all : List Request → Ide → Option (List (List ℕ × ℕ) × Ide)
serve_all [] s = some ([], s)
serve_all (r ∷ rs) s = elim (serve r s) [
  | none ↦ none
  | some (a, s') ↦ elim (serve_all rs s') [ none ↦ none | some (as', s'') ↦ some (a ∷ as', s'') ]
]

-- `time_intr`: every `WRITEBACK_TIME * HZ` ticks it sends `IDE_WRITEBACK`.
pub time_intr : (counter : ℕ) → ℕ × Bool
time_intr counter = let c = (counter + 1) % 100 in (c, c == 0)
