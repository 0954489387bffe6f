-- ===== src/Memory/Segments.antt =====
-- memory_manager.c: the pages that a program's segments, its stack and its heap get.
pub mod Heap
pub mod Translate
use njuos.Prelude.{
  ℕ, zero, suc, ◌+◌, ◌-◌, ◌*◌, ◌/◌, ◌%◌, ◌^◌, Option, none, some, ltb, leb, ◌==◌, if◌then◌else◌,
  min,
}
use njuos.Prelude.Int.{ℤ, pos, negsuc}
use njuos.Memory.{
  Memory, page_size, get_idle_page, set_page_idle, set_word, word_at, make_pte, frame_of,
  zeroed_page, new_entry, present_entry,
}

-- The start of `load_segment` and of `sbrk`: the table and the page of an address are there or made.
-- The table is returned.
pub first_page : (pdir va : ℕ) → Memory → Option (ℕ × Memory)
first_page pdir va s = elim (present_entry pdir (va / 2 ^ 22) s) [
  | none ↦ none
  | some (ptable, s1) ↦ elim (present_entry ptable (va / 4096 % 1024) s1) [
    | none ↦ none
    | some (pframe, s2) ↦ some (ptable, s2)
  ]
]

-- One more page in their loops: the page first, then a table where the old one is full.
pub record Cursor : Type 0 where
  pub ptable : ℕ
  pub pdir_idx : ℕ
  pub ptable_idx : ℕ

pub next_page : (pdir : ℕ) → Cursor → Memory → Option (Cursor × Memory)
next_page pdir c s = elim (zeroed_page s) [
  | none ↦ none
  | some (pframe, s1) ↦
      if c.ptable_idx == 1024
      then (elim (new_entry pdir (c.pdir_idx + 1) s1) [
        | none ↦ none
        | some (ptable, s2) ↦ some (
          record { ptable = ptable; pdir_idx = c.pdir_idx + 1; ptable_idx = 1 },
          set_word ptable 0 (make_pte pframe) s2,
        )
      ])
      else some (
        record c { ptable_idx = c.ptable_idx + 1 },
        set_word c.ptable c.ptable_idx (make_pte pframe) s1,
      )
]

-- `while(mem_rest_size > 0)`, and in `sbrk` as long as the address is below the new top.
pub more_pages : (pdir n : ℕ) → Cursor → Memory → Option Memory
more_pages pdir zero c s = some s
more_pages pdir (suc n) c s = elim (next_page pdir c s) [
  | none ↦ none
  | some (c', s') ↦ more_pages pdir n c' s'
]

-- How many rounds of the loop of `load_segment` there are: those for what the first page leaves.
pub rest_pages : (vaddr memsz : ℕ) → ℕ
rest_pages vaddr memsz = (memsz - min (page_size - vaddr % 4096) memsz + 4095) / 4096

-- `load_segment`, up to `read_elf`.
pub load_segment : (pdir vaddr memsz : ℕ) → Memory → Option Memory
load_segment pdir vaddr memsz s = elim (first_page pdir vaddr s) [
  | none ↦ none
  | some (ptable, s') ↦
      more_pages pdir (rest_pages vaddr memsz)
        (record {
          ptable = ptable;
          pdir_idx = vaddr / 2 ^ 22;
          ptable_idx = vaddr / 4096 % 1024 + 1;
        })
        s'
]

-- `create_stack_page`: ten pages, which are not cleared, from 0xbffff000 downwards.
pub stack_pages : (ptable n idx : ℕ) → Memory → Option Memory
stack_pages ptable zero idx s = some s
stack_pages ptable (suc n) idx s = elim (get_idle_page s) [
  | none ↦ none
  | some (pframe, s') ↦ stack_pages ptable n (idx - 1) (set_word ptable idx (make_pte pframe) s')
]

pub create_stack_page : (pdir : ℕ) → Memory → Option Memory
create_stack_page pdir s = elim (new_entry pdir (3221221376 / 2 ^ 22) s) [
  | none ↦ none
  | some (ptable, s') ↦ stack_pages ptable 10 (3221221376 / 4096 % 1024) s'
]

-- How many rounds the loop of `sbrk` has that lets the heap grow.
pub heap_pages : (heap_top new_heap_top : ℕ) → ℕ
heap_pages heap_top new_heap_top =
    (new_heap_top - (heap_top - heap_top % 4096 + 4096) + 4095) / 4096

-- The loop of `sbrk` for a heap that shrinks, on fuel. Neither side of its test changes, so it ends
-- before its first round or never; `ptable` is NULL in it.
pub shrink : (fuel remove_page_addr new_heap_top ptable_idx : ℕ) → Memory → Option Memory
shrink zero remove_page_addr new_heap_top ptable_idx s = none
shrink (suc fuel) remove_page_addr new_heap_top ptable_idx s =
    let rest =
      shrink fuel remove_page_addr new_heap_top ((ptable_idx + 2 ^ 32 - 1) % 2 ^ 32)
        (set_page_idle (frame_of (word_at s 0 ptable_idx)) (set_word 0 ptable_idx 0 s)) in
    if leb new_heap_top remove_page_addr then rest else some s

-- `sbrk`, with `heap_top` of the process: the new top, which wraps at 32 bits, and the memory.
pub sbrk : (pdir fuel heap_top : ℕ) (inc : ℤ) → Memory → Option (ℕ × Memory)
sbrk pdir fuel heap_top (pos zero) s = some (heap_top, s)
sbrk pdir fuel heap_top (pos (suc n)) s =
    let top = (heap_top + suc n) % 2 ^ 32 in
    elim (first_page pdir heap_top s) [
      | none ↦ none
      | some (ptable, s') ↦
          elim (more_pages pdir (heap_pages heap_top top)
            (record {
              ptable = ptable;
              pdir_idx = heap_top / 2 ^ 22;
              ptable_idx = heap_top / 4096 % 1024 + 1;
            })
            s') [ none ↦ none | some s'' ↦ some (top, s'') ]
    ]
sbrk pdir fuel heap_top (negsuc n) s =
    let top = (heap_top + 2 ^ 32 - suc n) % 2 ^ 32 in
    let remove_page_addr = heap_top / 4096 * 4096 in
    elim (shrink fuel remove_page_addr top (remove_page_addr / 4096 % 1024) s) [
      | none ↦ none
      | some s' ↦ some (top, s')
    ]
