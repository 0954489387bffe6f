-- ===== src/Memory/Allocation.antt =====
-- What the allocation of pages promises.
use njuos.Prelude.{
  ℕ, ◌+◌, ◌-◌, ◌*◌, ◌/◌, ◌%◌, ◌^◌, ◌≤◌, ◌<◌, ◌≡◌, refl, some, arith, update, update_self,
  update_undo,
}
use njuos.FileSystem.Bitmap.Scan.{take_free_lem}
use njuos.Memory.{Memory, page_num, kernel_mem, get_idle_page, set_page_idle}

-- With some page free, `get_idle_page` returns a page that was free, aligned, above the kernel's
-- memory and below 128 megabytes; the page is marked, and `set_page_idle` of it gives every entry of
-- the bitmap its old value.
pub get_idle_page_lem :
    (s : Memory) (j : ℕ)
    → s.pages.at < page_num
    → j < page_num
    → s.pages.bits j ≡ 0
    → (page : ℕ) × (s' : Memory) × (get_idle_page s ≡ some (page, s'))
      × (page % 4096 ≡ 0)
      × (kernel_mem ≤ page)
      × (page < 128 * 1024 * 1024)
      × (s.pages.bits ((page - kernel_mem) / 4096) ≡ 0)
      × (s'.pages.bits ((page - kernel_mem) / 4096) ≡ 1)
      × ((k : ℕ) → (set_page_idle page s').pages.bits k ≡ s.pages.bits k)
unfolding get_idle_page set_page_idle
get_idle_page_lem s j p q z =
    let (i, e, lt, free) = take_free_lem page_num s.pages j p q z in
    let back : (kernel_mem + i * 4096 - kernel_mem) / 4096 ≡ i = omega arith in
    let wrap : (kernel_mem + i * 4096 + 2 ^ 32 - kernel_mem) % 2 ^ 32 / 4096 ≡ i = omega arith in
    (
      kernel_mem + i * 4096,
      record s { pages = record { bits = update s.pages.bits i 1; at = i } },
      rw (e, get_idle_page) refl,
      omega arith,
      omega arith,
      omega arith,
      rw back free,
      rw back (update_self s.pages.bits i 1),
      λ k. rw wrap (update_undo s.pages.bits i 0 1 k free),
    )
