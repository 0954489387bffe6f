-- ===== src/Tests/Pages.antt =====
-- Inputs for the theorems on pages and page tables.
use njuos.Prelude.{
  ℕ, zero, suc, ◌+◌, ◌-◌, ◌*◌, ◌/◌, ◌%◌, ◌^◌, ◌≤◌, ◌<◌, ◌≡◌, refl, none, some, arith, leb,
  if◌then◌else◌, ◌==◌, false,
}
use njuos.Prelude.Int.{negsuc}
use njuos.FileSystem.Bitmap.Count.{free_below}
use njuos.Memory.{Memory, kernel_mem, page_num, physical_addr, word_at}
use njuos.Memory.Segments.{first_page, sbrk}
use njuos.Memory.Segments.Heap.{sbrk_shrink}
use njuos.Memory.Segments.Translate.{physical_addr-first_page}

-- Memory with no page taken, and every word 0.
abbrev fresh : Memory
fresh = record { pages = record { bits = λ k. 0; at = 0 }; words = λ w. 0 }

all_free : (n : ℕ) → free_below (λ k. 0) n ≡ n
unfolding free_below
all_free zero = refl
all_free (suc n) = ground (arith, all_free n)

sbrk_shrink_example : sbrk 4096 (suc 7) 10000 (negsuc 99) fresh ≡ (
    if leb ((10000 + 2 ^ 32 - suc 99) % 2 ^ 32) (10000 / 4096 * 4096)
    then none
    else some ((10000 + 2 ^ 32 - suc 99) % 2 ^ 32, fresh))
sbrk_shrink_example = sbrk_shrink 4096 7 10000 99 fresh

absent : (word_at fresh 8192 32 % 2 == 1) ≡ false
unfolding word_at
absent = refl

physical_addr-first_page_example :
    (ptable page : ℕ) × (s' : Memory) × (first_page 8192 134512640 fresh ≡ some (ptable, s'))
    × (physical_addr s' 8192 134512640 ≡ some (page + 134512640 % 4096))
    × (kernel_mem ≤ page)
    × (fresh.pages.bits ((page - kernel_mem) / 4096) ≡ 0)
    × ((k : ℕ) → k < 1024 → s'.words (page / 4 + k) ≡ 0)
physical_addr-first_page_example =
    physical_addr-first_page fresh 8192 134512640 (omega arith) (omega (arith, all_free page_num))
      (omega arith) (omega arith) absent
