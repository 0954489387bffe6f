-- ===== src/Memory/Segments/Translate.antt =====
-- The address that the first page of a segment serves is translated to that page.
use njuos.Prelude.{
  ℕ, ◌+◌, ◌-◌, ◌*◌, ◌/◌, ◌%◌, ◌^◌, ◌≤◌, ◌<◌, ◌≡◌, ◌≢◌, refl, sym, ap, ◌∙◌, some, true, false, leb,
  ltb, ◌==◌, ◌&&◌, if◌then◌else◌, arith, update,
}
use njuos.FileSystem.Bitmap.Scan.{take_free_lem}
use njuos.FileSystem.Bitmap.Count.{free_below, free_below-update, free_entry}
use njuos.Memory.{
  Memory, page_num, kernel_mem, get_idle_page, set_word, word_at, make_pte, frame_of, is_present,
  clear_page, zeroed_page, new_entry, present_entry, physical_addr,
}
use njuos.Memory.Segments.{first_page}

-- The address of page `i`.
abbrev page_addr : ℕ → ℕ
page_addr i = kernel_mem + i * 4096

-- The word after an entry has been made for page `i`.
abbrev made : (table idx i : ℕ) → (ℕ → ℕ) → ℕ → ℕ
made table idx i words w =
    if table / 4 + idx == w
    then page_addr i + 7
    else (if leb (page_addr i / 4) w && ltb w (page_addr i / 4 + 1024) then 0 else words w)

record Made (s : Memory) (table idx : ℕ) : Type 0 where
  number : ℕ
  after : Memory
  result : new_entry table idx s ≡ some (page_addr number, after)
  in_range : number < page_num
  was_free : s.pages.bits number ≡ 0
  word : (w : ℕ) → after.words w ≡ made table idx number s.words w
  bits : after.pages.bits ≡ update s.pages.bits number 1
  search : after.pages.at < page_num

new_entry-Made :
    (s : Memory) (table idx : ℕ)
    → s.pages.at < page_num
    → 0 < free_below s.pages.bits page_num
    → Made s table idx
unfolding new_entry zeroed_page get_idle_page clear_page set_word make_pte
new_entry-Made s table idx p h =
    let (j, lt, z) = free_entry s.pages.bits page_num h in
    let (i, e, less, free) = take_free_lem page_num s.pages j p lt z in
    let whole : page_addr i / 4096 * 4096 + 7 ≡ page_addr i + 7 = omega arith in
    record {
      number = i;
      after = set_word table idx (make_pte (page_addr i)) (
          clear_page (page_addr i)
            (record s { pages = record { bits = update s.pages.bits i 1; at = i } }));
      result = rw (new_entry, zeroed_page, get_idle_page, e) refl;
      in_range = less;
      was_free = free;
      word = λ w.
          ap
            (λ v.
              if table / 4 + idx == w
              then v
              else (if leb (page_addr i / 4) w && ltb w (page_addr i / 4 + 1024)
                  then 0
                  else s.words w))
            whole;
      bits = refl;
      search = less;
    }

-- Two pages made in a row, a table and a page in it.
module _ (s : Memory) (pdir va : ℕ) (low : pdir + 4096 ≤ kernel_mem) (v : va < 2 ^ 32)
    (m : Made s pdir (va / 2 ^ 22)) (n : Made m.after (page_addr m.number) (va / 4096 % 1024)) where
  table_word : m.after.words (page_addr m.number / 4 + va / 4096 % 1024) ≡ 0
  table_word = m.word _ ∙ ground arith

  other_page : n.number ≢ m.number
  other_page q =
      let zero_bit : update s.pages.bits m.number 1 n.number ≡ 0 =
        ap (λ (f : ℕ → ℕ). f n.number) (sym m.bits) ∙ n.was_free in
      ground (arith, zero_bit, q)

  other_free : s.pages.bits n.number ≡ 0
  other_free =
      let zero_bit : update s.pages.bits m.number 1 n.number ≡ 0 =
        ap (λ (f : ℕ → ℕ). f n.number) (sym m.bits) ∙ n.was_free in
      ground (arith, zero_bit)

  pde_word : n.after.words (pdir / 4 + va / 2 ^ 22) ≡ page_addr m.number + 7
  pde_word =
      let same : m.after.words (pdir / 4 + va / 2 ^ 22) ≡ page_addr m.number + 7 =
        m.word _ ∙ ground arith in
      n.word _ ∙ ground (arith, same)

  pte_word : n.after.words (page_addr m.number / 4 + va / 4096 % 1024) ≡ page_addr n.number + 7
  pte_word = n.word _ ∙ ground arith

  page_zero : (k : ℕ) → k < 1024 → n.after.words (page_addr n.number / 4 + k) ≡ 0
  page_zero k lt = let away : n.number ≢ m.number = other_page in n.word _ ∙ ground arith

  first_page-result :
      is_present (word_at s pdir (va / 2 ^ 22)) ≡ false
      → first_page pdir va s ≡ some (page_addr m.number, n.after)
  unfolding first_page present_entry word_at
  first_page-result e =
      let absent : is_present (m.after.words (page_addr m.number / 4 + va / 4096 % 1024)) ≡ false =
        rw table_word refl in
      rw (first_page, present_entry, e, m.result, absent, n.result) refl

  translated : physical_addr n.after pdir va ≡ some (page_addr n.number + va % 4096)
  unfolding physical_addr word_at frame_of
  translated =
      let f : (page_addr m.number + 7) / 4096 * 4096 ≡ page_addr m.number = omega arith in
      let g : (page_addr n.number + 7) / 4096 * 4096 ≡ page_addr n.number = omega arith in
      let x : ((page_addr m.number + 7) % 2 == 1) ≡ true = ground arith in
      let y : ((page_addr n.number + 7) % 2 == 1) ≡ true = ground arith in
      rw (physical_addr, word_at, frame_of, pde_word, f, pte_word, x, y, g) refl

-- In a directory of the kernel's memory that has no table for an address, and with two pages free,
-- the start of `load_segment` makes both: `physical_addr` then translates the address to a page above
-- the kernel's memory, at the same offset, which was free and is zero throughout.
pub physical_addr-first_page :
    (s : Memory) (pdir va : ℕ)
    → s.pages.at < page_num
    → 1 < free_below s.pages.bits page_num
    → pdir + 4096 ≤ kernel_mem
    → va < 2 ^ 32
    → is_present (word_at s pdir (va / 2 ^ 22)) ≡ false
    → (ptable page : ℕ) × (s' : Memory) × (first_page pdir va s ≡ some (ptable, s'))
      × (physical_addr s' pdir va ≡ some (page + va % 4096))
      × (kernel_mem ≤ page)
      × (s.pages.bits ((page - kernel_mem) / 4096) ≡ 0)
      × ((k : ℕ) → k < 1024 → s'.words (page / 4 + k) ≡ 0)
physical_addr-first_page s pdir va p h d v e =
    let m = new_entry-Made s pdir (va / 2 ^ 22) p (omega arith) in
    let left : 0 < free_below m.after.pages.bits page_num =
      rw m.bits
        (omega (arith, free_below-update s.pages.bits page_num m.number m.in_range m.was_free)) in
    let t = page_addr m.number in
    let n = new_entry-Made m.after t (va / 4096 % 1024) m.search left in
    (
      t,
      page_addr n.number,
      n.after,
      first_page-result s pdir va d v m n e,
      translated s pdir va d v m n,
      omega arith,
      ap s.pages.bits (omega arith) ∙ other_free s pdir va d v m n,
      page_zero s pdir va d v m n,
    )
