-- ===== src/Copies.antt =====
-- src/lib/kcpy.c: copies between the kernel and the pages of a process, and the length of a string there.
-- `none` is a failed assertion of `physical_addr`. The kernel's own side of a copy is a list of bytes or a
-- function from the offset.
pub mod Pages
pub mod Strings
use njuos.Prelude.{
  ℕ, zero, suc, ◌+◌, ◌-◌, ◌*◌, ◌/◌, ◌%◌, Bool, List, [], ◌++◌, Option, none, some, min, ltb, ◌==◌,
  if◌then◌else◌,
}
use njuos.FileSystem.{dev_read, dev_write, load32, byte_of}
use njuos.Memory.{Memory, page_size, physical_addr}

-- The bytes of memory, the least of a word first, and a `memcpy` to them.
unfoldable pub byte_in : Memory → ℕ → ℕ
byte_in m a = byte_of (m.words (a / 4)) (a % 4)

pub put_bytes : (dest len : ℕ) → (ℕ → ℕ) → Memory → Memory
put_bytes dest len src m = record m {
  words = λ w. load32 (dev_write (byte_in m) dest len src) (4 * w);
}

-- The rest of the page that an address lies in.
abbrev pub page_rest : ℕ → ℕ
page_rest va = page_size - va % page_size

-- The loop of `copy_to_kernel`. Behind each piece it translates the next address, behind the last too.
pub copy_to_loop :
    Memory → (pdir fuel src pa_src read_len len : ℕ) → (dest : List ℕ) → Option (List ℕ)
copy_to_loop m pdir zero src pa_src read_len len dest = some dest
copy_to_loop m pdir (suc fuel) src pa_src read_len len dest =
    let left = len - read_len in
    let dest' = dest ++ dev_read (byte_in m) pa_src read_len in
    let next : Option (List ℕ) = elim (physical_addr m pdir (src + read_len)) [
      | none ↦ none
      | some pa ↦ copy_to_loop m pdir fuel (src + read_len) pa (min page_size left) left dest'
    ] in
    if ltb 0 len then next else some dest

-- `copy_to_kernel`; for a kernel thread it is one `memcpy`. Each round copies a byte at least.
pub copy_to_kernel : Memory → (is_kernel : Bool) → (pdir src len : ℕ) → Option (List ℕ)
unfolding copy_to_loop
copy_to_kernel m is_kernel pdir src len =
    if is_kernel then some (dev_read (byte_in m) src len) else (elim (physical_addr m pdir src) [
      | none ↦ none
      | some pa ↦ copy_to_loop m pdir len src pa (min (page_rest src) len) len []
    ])

-- The same in the other direction; the pages that are written may hold what translates the rest.
pub copy_from_loop :
    (pdir fuel dest pa_dest read_len len : ℕ) → (src : ℕ → ℕ) → Memory → Option Memory
copy_from_loop pdir zero dest pa_dest read_len len src m = some m
copy_from_loop pdir (suc fuel) dest pa_dest read_len len src m =
    let left = len - read_len in
    let m' = put_bytes pa_dest read_len src m in
    let next : Option Memory = elim (physical_addr m' pdir (dest + read_len)) [
      | none ↦ none
      | some pa ↦
          copy_from_loop pdir fuel (dest + read_len) pa (min page_size left) left
            (λ k. src (k + read_len)) m'
    ] in
    if ltb 0 len then next else some m

pub copy_from_kernel : (is_kernel : Bool) → (pdir dest len : ℕ) → (ℕ → ℕ) → Memory → Option Memory
unfolding copy_from_loop
copy_from_kernel is_kernel pdir dest len src m =
    if is_kernel then some (put_bytes dest len src m) else (elim (physical_addr m pdir dest) [
      | none ↦ none
      | some pa ↦ copy_from_loop pdir len dest pa (min (page_rest dest) len) len src m
    ])

-- The two loops of `strlen_user_string` as one, on fuel for the bytes and the pages; the outer result is
-- `none` when it is gone. The next page is that of `vir_addr`, where its translation ends up too.
pub strlen_loop : Memory → (pdir fuel pa_addr page_end vir_addr len : ℕ) → Option (Option ℕ)
strlen_loop m pdir zero pa_addr page_end vir_addr len = none
strlen_loop m pdir (suc fuel) pa_addr page_end vir_addr len =
    let on = strlen_loop m pdir fuel (pa_addr + 1) page_end vir_addr (len + 1) in
    let over : Option (Option ℕ) = elim (physical_addr m pdir vir_addr) [
      | none ↦ some none
      | some pa ↦ strlen_loop m pdir fuel pa (pa + page_size) (vir_addr + page_size) len
    ] in
    if ltb pa_addr page_end
    then (if byte_in m pa_addr == 0 then some (some (len + 1)) else on)
    else over

-- `strlen_user_string`: it keeps the low twelve bits of `vir_addr` where it wants the others.
pub strlen_user_string : Memory → (pdir fuel va : ℕ) → Option (Option ℕ)
unfolding strlen_loop
strlen_user_string m pdir fuel va = elim (physical_addr m pdir va) [
  | none ↦ some none
  | some pa ↦
      strlen_loop m pdir fuel pa (pa / page_size * page_size + page_size)
        (va % page_size + page_size) 0
]
