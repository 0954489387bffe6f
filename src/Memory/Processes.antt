-- ===== src/Memory/Processes.antt =====
-- memory_manager.c: the page directory of a process from its start to its end.
use njuos.Prelude.{
  ℕ, zero, suc, ◌+◌, ◌-◌, ◌*◌, ◌/◌, ◌^◌, ◌&&◌, Option, none, some, ltb, leb, if◌then◌else◌,
}
use njuos.Memory.{
  Memory, get_idle_page, set_page_idle, set_word, word_at, make_pte, frame_of, is_present,
  zeroed_page,
}

-- `make_invalid_pde` for the entries from `i` on, `n` of them.
pub clear_entries : (pdir n i : ℕ) → Memory → Memory
clear_entries pdir zero i s = s
clear_entries pdir (suc n) i s = clear_entries pdir n (i + 1) (set_word pdir i 0 s)

-- The inner loop of `create_kernel_dir`: the entries of a table for frames in a row.
pub kernel_entries : (ptable n i pframe : ℕ) → Memory → Memory
kernel_entries ptable zero i pframe s = s
kernel_entries ptable (suc n) i pframe s =
    kernel_entries ptable n (i + 1) (pframe + 1) (set_word ptable i (make_pte (pframe * 4096)) s)

-- Its outer loop: the first entry is for the supervisor only, its twin above KOFFSET is not.
pub kernel_tables : (pdir n i : ℕ) → Memory → Option Memory
kernel_tables pdir zero i s = some s
kernel_tables pdir (suc n) i s = elim (zeroed_page s) [
  | none ↦ none
  | some (ptable, s1) ↦
      let s2 = set_word pdir i (make_pte ptable - 4) s1 in
      let s3 = set_word pdir (i + 3221225472 / 2 ^ 22) (make_pte ptable) s2 in
      kernel_tables pdir n (i + 1) (kernel_entries ptable 1024 0 (i * 1024) s3)
]

-- `create_kernel_dir`
pub create_kernel_dir : (pdir : ℕ) → Memory → Option Memory
create_kernel_dir pdir s = kernel_tables pdir 4 0 (clear_entries pdir 1024 0 s)

-- `memcpy` of a page.
pub copy_page : (dest src : ℕ) → Memory → Memory
copy_page dest src s = record s {
  words = λ w.
      if leb (dest / 4) w && ltb w (dest / 4 + 1024)
      then s.words (w - dest / 4 + src / 4)
      else s.words w;
}

-- The body of the inner loop of `copy_process`: entry `i` of a table with its page, if it is there.
pub copy_entry : (p_ptable c_ptable i : ℕ) → Memory → Option Memory
copy_entry p_ptable c_ptable i s =
    if is_present (word_at s p_ptable i)
    then (elim (get_idle_page s) [
      | none ↦ none
      | some (c_pframe, s1) ↦ some (
          set_word c_ptable i (make_pte c_pframe)
            (copy_page c_pframe (frame_of (word_at s p_ptable i)) s1))
    ])
    else some s

pub copy_pages : (p_ptable c_ptable n i : ℕ) → Memory → Option Memory
copy_pages p_ptable c_ptable zero i s = some s
copy_pages p_ptable c_ptable (suc n) i s = elim (copy_entry p_ptable c_ptable i s) [
  | none ↦ none
  | some s' ↦ copy_pages p_ptable c_ptable n (i + 1) s'
]

-- The body of its outer loop: a table with its pages, if it is there.
pub copy_table : (p_pdir c_pdir i : ℕ) → Memory → Option Memory
copy_table p_pdir c_pdir i s =
    if is_present (word_at s p_pdir i)
    then (elim (zeroed_page s) [
      | none ↦ none
      | some (c_ptable, s1) ↦
          copy_pages (frame_of (word_at s p_pdir i)) c_ptable 1024 0
            (set_word c_pdir i (make_pte c_ptable) s1)
    ])
    else some s

-- Its outer loop, over the entries of the directory between the kernel's parts.
pub copy_tables : (p_pdir c_pdir n i : ℕ) → Memory → Option Memory
copy_tables p_pdir c_pdir zero i s = some s
copy_tables p_pdir c_pdir (suc n) i s = elim (copy_table p_pdir c_pdir i s) [
  | none ↦ none
  | some s' ↦ copy_tables p_pdir c_pdir n (i + 1) s'
]

-- `copy_process`
pub copy_process : (p_pdir c_pdir : ℕ) → Memory → Option Memory
copy_process p_pdir c_pdir s = copy_tables p_pdir c_pdir 764 4 s

-- The parts of `takeback_page`: the four tables of the kernel part, the pages of a table, the tables.
pub free_kernel_tables : (pdir n i : ℕ) → Memory → Memory
free_kernel_tables pdir zero i s = s
free_kernel_tables pdir (suc n) i s =
    free_kernel_tables pdir n (i + 1) (set_page_idle (frame_of (word_at s pdir i)) s)

pub free_pages : (ptable n i : ℕ) → Memory → Memory
free_pages ptable zero i s = s
free_pages ptable (suc n) i s =
    let freed = set_word ptable i 0 (set_page_idle (frame_of (word_at s ptable i)) s) in
    free_pages ptable n (i + 1) (if is_present (word_at s ptable i) then freed else s)

pub free_tables : (pdir n i : ℕ) → Memory → Memory
free_tables pdir zero i s = s
free_tables pdir (suc n) i s =
    let ptable = frame_of (word_at s pdir i) in
    let freed = set_word pdir i 0 (set_page_idle ptable (free_pages ptable 1024 0 s)) in
    free_tables pdir n (i + 1) (if is_present (word_at s pdir i) then freed else s)

-- `takeback_page`
pub takeback_page : (pdir : ℕ) → Memory → Memory
takeback_page pdir s = free_tables pdir 764 4 (free_kernel_tables pdir 4 0 s)
