-- ===== src/Memory.antt =====
-- The pages of physical memory and the page tables: src/kernel/manager_server/memory_manager.c,
-- src/kernel/memory/util.c, and `physical_addr` of src/lib/kcpy.c. Memory is its 32-bit words, the word
-- at address `a` under `a / 4`; a page directory or table is the words from its address on.
pub mod Allocation
pub mod Segments
pub mod Loader
pub mod Processes
use njuos.Prelude.{
  ℕ, zero, suc, ◌+◌, ◌-◌, ◌*◌, ◌/◌, ◌%◌, ◌^◌, Bool, true, false, ◌&&◌, not, Option, none, some, ltb,
  ◌<◌, ◌≡◌, arith, leb, ◌==◌, if◌then◌else◌, update,
}
use njuos.FileSystem.Bitmap.{Bitmap, take_free}

-- `KERNEL_MEM`, `PAGE_SIZE`, and the size of `page_bitmap`
abbrev pub kernel_mem : ℕ
kernel_mem = 16 * 1024 * 1024

abbrev pub page_size : ℕ
page_size = 4096

abbrev pub page_num : ℕ
page_num = 28 * 1024

-- `page_bitmap` with `bitmap_idx`, and the words of memory.
pub record Memory : Type 0 where
  pub pages : Bitmap
  pub words : ℕ → ℕ

-- `get_idle_page`: the search of the bitmap is that of the file system's.
pub get_idle_page : Memory → Option (ℕ × Memory)
get_idle_page s = elim (take_free page_num s.pages) [
  | none ↦ none
  | some (i, pages) ↦ some (kernel_mem + i * 4096, record s { pages = pages })
]

-- `set_page_idle`. An index outside `page_bitmap` is an entry behind those that `get_idle_page` looks at;
-- what the code overwrites there is not modelled.
pub set_page_idle : ℕ → Memory → Memory
set_page_idle page s = record s {
  pages = record s.pages {
    bits = update s.pages.bits ((page + 2 ^ 32 - kernel_mem) % 2 ^ 32 / 4096) 0;
  };
}

-- `table[idx]`, and a write of it.
unfoldable pub word_at : Memory → (table idx : ℕ) → ℕ
word_at s table idx = s.words (table / 4 + idx)

pub set_word : (table idx val : ℕ) → Memory → Memory
set_word table idx val s = record s { words = update s.words (table / 4 + idx) val }

-- `make_pde` and `make_pte` give the address with the three low flags set: present, read_write and
-- user_supervisor.
pub make_pte : ℕ → ℕ
make_pte addr = addr / 4096 * 4096 + 7

abbrev pub is_present : ℕ → Bool
is_present val = val % 2 == 1

-- `page_frame << 12`
unfoldable pub frame_of : ℕ → ℕ
frame_of val = val / 4096 * 4096

-- `memset(page, 0, PAGE_SIZE)`
pub clear_page : ℕ → Memory → Memory
clear_page page s = record s {
  words = λ w. if leb (page / 4) w && ltb w (page / 4 + 1024) then 0 else s.words w;
}

-- A page taken and cleared.
pub zeroed_page : Memory → Option (ℕ × Memory)
zeroed_page s = elim (get_idle_page s) [
  | none ↦ none
  | some (page, s') ↦ some (page, clear_page page s')
]

-- An entry made for a new, cleared page; the address of the page is returned.
pub new_entry : (table idx : ℕ) → Memory → Option (ℕ × Memory)
new_entry table idx s = elim (zeroed_page s) [
  | none ↦ none
  | some (page, s') ↦ some (page, set_word table idx (make_pte page) s')
]

-- ... unless it is there.
pub present_entry : (table idx : ℕ) → Memory → Option (ℕ × Memory)
present_entry table idx s =
    if is_present (word_at s table idx)
    then some (frame_of (word_at s table idx), s)
    else new_entry table idx s

-- `physical_addr`; `none` is a failed assertion.
unfoldable pub physical_addr : Memory → (pdir va : ℕ) → Option ℕ
unfolding word_at frame_of
physical_addr s pdir va =
    let pde = word_at s pdir (va / 2 ^ 22) in
    let pte = word_at s (frame_of pde) (va / 4096 % 1024) in
    if is_present pde && is_present pte then some (frame_of pte + va % 4096) else none

-- Inside a page the physical addresses run along with the virtual ones.
pub physical_addr_within :
    (s : Memory) (pdir va pa j : ℕ)
    → physical_addr s pdir va ≡ some pa
    → va % 4096 + j < 4096
    → physical_addr s pdir (va + j) ≡ some (pa + j)
unfolding physical_addr
physical_addr_within s pdir va pa j e h =
    let a : (va + j) / 2 ^ 22 ≡ va / 2 ^ 22 = omega arith in
    let b : (va + j) / 4096 % 1024 ≡ va / 4096 % 1024 = omega arith in
    let c : (va + j) % 4096 ≡ va % 4096 + j = omega arith in rw (a, b, c) (ground arith)
