-- ===== src/Copies/Strings.antt =====
-- How `strlen_user_string` counts.
use njuos.Prelude.{
  ℕ, zero, suc, ◌+◌, ◌*◌, ◌/◌, ◌%◌, ◌≤◌, ◌<◌, ◌≡◌, ◌≢◌, refl, ap, ◌∙◌, some, arith, ltb, ◌==◌, true,
  false,
}
use njuos.Memory.{Memory, page_size, physical_addr}
use njuos.Copies.{byte_in, strlen_loop, strlen_user_string}

module _ (m : Memory) (pdir page_end vir : ℕ) where
  -- The rounds over `k` bytes that are not NUL.
  strlen_loop_on :
      (k fuel pa len : ℕ)
      → pa + k ≤ page_end
      → ((j : ℕ) → j < k → byte_in m (pa + j) ≢ 0)
      → strlen_loop m pdir (k + fuel) pa page_end vir len
        ≡ strlen_loop m pdir fuel (pa + k) page_end vir (len + k)
  unfolding strlen_loop
  strlen_loop_on zero fuel pa len le h =
      let a : zero + fuel ≡ fuel = omega arith in
      let b : pa + 0 ≡ pa = omega arith in let c : len + 0 ≡ len = omega arith in rw (a, b, c) refl
  strlen_loop_on (suc k) fuel pa len le h =
      let a : suc k + fuel ≡ suc (k + fuel) = omega arith in
      let b : pa + suc k ≡ pa + 1 + k = omega arith in
      let c : len + suc k ≡ len + 1 + k = omega arith in
      let inside : ltb pa page_end ≡ true = ground arith in
      let first : byte_in m pa ≢ 0 = λ q. h 0 (omega arith) (ap (byte_in m) (omega arith) ∙ q) in
      let not_nul : (byte_in m pa == 0) ≡ false = ground (arith, first) in
      let rest =
        strlen_loop_on k fuel (pa + 1) (len + 1) (omega arith)
          (λ j lt q. h (j + 1) (omega arith) (ap (byte_in m) (omega arith) ∙ q)) in
      rw (a, b, c) (rw (strlen_loop, inside, not_nul) rest)

-- Of a string that ends in the page that it starts in, `strlen_user_string` returns the length with the
-- NUL, with fuel for its characters.
pub strlen_user_string_page :
    (m : Memory) (pdir va pa len fuel : ℕ)
    → physical_addr m pdir va ≡ some pa
    → pa % 4096 + len < 4096
    → ((j : ℕ) → j < len → byte_in m (pa + j) ≢ 0)
    → byte_in m (pa + len) ≡ 0
    → strlen_user_string m pdir (len + suc fuel) va ≡ some (some (len + 1))
unfolding strlen_user_string strlen_loop
strlen_user_string_page m pdir va pa len fuel e fits h z =
    let page_end = pa / page_size * page_size + page_size in
    let inside : ltb (pa + len) page_end ≡ true = ground arith in
    let last : (byte_in m (pa + len) == 0) ≡ true = ground (arith, z) in
    let sum : 0 + len + 1 ≡ len + 1 = omega arith in
    rw (strlen_user_string, e)
      (strlen_loop_on m pdir page_end (va % page_size + page_size) len (suc fuel) pa 0 (omega arith)
          h
        ∙ rw (strlen_loop, inside, last, sum) refl)

-- Of a string that goes on behind its page, where the process has the second page of its address space
-- mapped onto itself, as `create_kernel_dir` maps the kernel's memory: `strlen_user_string` counts the
-- characters in the first page, and then not the rest of the string but what lies in the kernel's memory
-- at 4096 and the offset of the string in its page, up to the first NUL there.
pub strlen_user_string_beyond :
    (m : Memory) (pdir va pa len more fuel : ℕ)
    → physical_addr m pdir va ≡ some pa
    → pa % 4096 + len ≡ 4096
    → ((j : ℕ) → j < len → byte_in m (pa + j) ≢ 0)
    → physical_addr m pdir (va % 4096 + 4096) ≡ some (va % 4096 + 4096)
    → more < 4096
    → ((j : ℕ) → j < more → byte_in m (va % 4096 + 4096 + j) ≢ 0)
    → byte_in m (va % 4096 + 4096 + more) ≡ 0
    → strlen_user_string m pdir (len + suc (more + suc fuel)) va ≡ some (some (len + more + 1))
unfolding strlen_user_string strlen_loop
strlen_user_string_beyond m pdir va pa len more fuel e fits h g k h' z =
    let page_end = pa / page_size * page_size + page_size in
    let second = va % page_size + page_size in
    let outside : ltb (pa + len) page_end ≡ false = ground arith in
    let inside : ltb (second + more) (second + page_size) ≡ true = ground arith in
    let last : (byte_in m (second + more) == 0) ≡ true = ground (arith, z) in
    let sum : 0 + len + more + 1 ≡ len + more + 1 = omega arith in
    rw (strlen_user_string, e)
      (strlen_loop_on m pdir page_end second len (suc (more + suc fuel)) pa 0 (omega arith) h
        ∙ rw (strlen_loop, outside, g)
            (strlen_loop_on m pdir (second + page_size) (second + page_size) more (suc fuel) second
                (0 + len) (omega arith) h'
              ∙ rw (strlen_loop, inside, last, sum) refl))
