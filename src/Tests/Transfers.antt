-- ===== src/Tests/Transfers.antt =====
-- Inputs for the theorems on copies between a process and the kernel.
use njuos.Prelude.{
  ℕ, zero, suc, ◌+◌, ◌/◌, ◌%◌, ◌≤◌, ◌<◌, ◌≡◌, ◌≢◌, refl, some, arith, ltb, leb, ◌&&◌, ◌==◌,
  if◌then◌else◌, false,
}
use njuos.FileSystem.{byte_of}
use njuos.Memory.{Memory, physical_addr, physical_addr_within}
use njuos.Copies.{byte_in, copy_to_kernel, strlen_user_string}
use njuos.Copies.Pages.{user_bytes, copy_to_kernel_lem}
use njuos.Copies.Strings.{strlen_user_string_beyond}

-- A process whose page directory is at 4096 and its table at 8192, with the page 3 alone, at 20480. The
-- bytes from there on to the word `last` are ones.
abbrev one_page : ℕ → Memory
one_page last = record {
  pages = record { bits = λ k. 0; at = 0 };
  words = λ w.
      if w == 1024
      then 8199
      else (if w == 2051 then 20487 else (if leb 5120 w && ltb w last then 16843009 else 0));
}

translated : (last : ℕ) → physical_addr (one_page last) 4096 12288 ≡ some 20480
unfolding physical_addr
translated last = refl

copy_to_kernel_lem_example :
    copy_to_kernel (one_page 5125) false 4096 12298 5
    ≡ some (user_bytes (one_page 5125) (λ j. 20490 + j) 0 5)
unfolding physical_addr
copy_to_kernel_lem_example =
    copy_to_kernel_lem (one_page 5125) 4096 12298 5 (λ j. 20490 + j)
      (λ j le. physical_addr_within (one_page 5125) 4096 12298 20490 j refl (omega arith))

ones_word : (k : ℕ) → k < 4 → byte_of 16843009 k ≢ 0
ones_word zero h e = ground (arith, e)
ones_word (suc zero) h e = ground (arith, e)
ones_word (suc (suc zero)) h e = ground (arith, e)
ones_word (suc (suc (suc zero))) h e = ground (arith, e)
ones_word (suc (suc (suc (suc k)))) h e = omega arith

-- The same with the page directory at 65536 and the page 1 mapped onto itself, which holds zeros.
abbrev two_pages : Memory
two_pages = record {
  pages = record { bits = λ k. 0; at = 0 };
  words = λ w. if w == 16384 then 8199 else (if w == 2049 then 4103 else (one_page 9000).words w);
}

ones_there : (a : ℕ) → 20480 ≤ a → a < 36000 → byte_in two_pages a ≢ 0
unfolding byte_in
ones_there a h k =
    let w : two_pages.words (a / 4) ≡ 16843009 = ground arith in
    rw w (ones_word (a % 4) (omega arith))

strlen_user_string_beyond_example :
    strlen_user_string two_pages 65536 (10 + suc (0 + suc 0)) 16374 ≡ some (some (10 + 0 + 1))
unfolding physical_addr byte_in
strlen_user_string_beyond_example =
    strlen_user_string_beyond two_pages 65536 16374 24566 10 0 0 refl refl
      (λ j lt. ones_there (24566 + j) (omega arith) (omega arith)) refl (omega arith)
      (λ j lt. absurd (omega arith)) refl
