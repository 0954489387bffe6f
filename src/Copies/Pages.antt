-- ===== src/Copies/Pages.antt =====
-- What `copy_to_kernel` brings from the pages of a process.
use njuos.Prelude.{
  ℕ, zero, suc, ◌+◌, ◌-◌, ◌%◌, ◌≤◌, ◌<◌, ◌≡◌, refl, sym, ap, ◌∙◌, List, [], ◌∷◌, ◌++◌, append_assoc,
  append-nil, none, some, min, arith, ltb, true, false,
}
use njuos.FileSystem.{dev_read}
use njuos.Memory.{Memory, page_size, physical_addr, physical_addr_within}
use njuos.Copies.{byte_in, page_rest, copy_to_loop, copy_to_kernel}

-- `len` bytes of the process from an address on, each at its own translation.
unfoldable pub user_bytes : Memory → (at : ℕ → ℕ) → (from len : ℕ) → List ℕ
user_bytes m at from zero = []
user_bytes m at from (suc len) = byte_in m (at from) ∷ user_bytes m at (from + 1) len

user_bytes-add :
    (m : Memory) (at : ℕ → ℕ) (from j k : ℕ)
    → user_bytes m at from (j + k) ≡ user_bytes m at from j ++ user_bytes m at (from + j) k
unfolding user_bytes
user_bytes-add m at from zero k =
    let a : zero + k ≡ k = omega arith in let b : from + 0 ≡ from = omega arith in rw (a, b) refl
user_bytes-add m at from (suc j) k =
    let a : suc j + k ≡ suc (j + k) = omega arith in
    let b : from + suc j ≡ from + 1 + j = omega arith in
    rw (a, user_bytes, b) (ap (◌∷◌ (byte_in m (at from))) (user_bytes-add m at (from + 1) j k))

-- Inside a page the bytes lie in a row.
dev_read-user_bytes :
    (m : Memory) (at : ℕ → ℕ) (from pa len : ℕ)
    → ((j : ℕ) → j < len → at (from + j) ≡ pa + j)
    → dev_read (byte_in m) pa len ≡ user_bytes m at from len
unfolding dev_read user_bytes
dev_read-user_bytes m at from pa zero h = refl
dev_read-user_bytes m at from pa (suc len) h =
    let first : at from ≡ pa = ap at (omega arith) ∙ h 0 (omega arith) ∙ omega arith in
    let rest =
      dev_read-user_bytes m at (from + 1) (pa + 1) len
        (λ j lt. ap at (omega arith) ∙ h (j + 1) (omega arith) ∙ omega arith) in
    rw (first, rest) refl

module _ (m : Memory) (pdir base total : ℕ) (at : ℕ → ℕ)
    (h : (j : ℕ) → j ≤ total → physical_addr m pdir (base + j) ≡ some (at j)) where
  at_within : (o j : ℕ) → o + j ≤ total → (base + o) % 4096 + j < 4096 → at (o + j) ≡ at o + j
  at_within o j le lt =
      let there = physical_addr_within m pdir (base + o) (at o) j (h o (omega arith)) lt in
      let here = h (o + j) le in
      let same : base + o + j ≡ base + (o + j) = omega arith in cc (there, here, same)

  copy_to_loop_lem :
      (fuel o len : ℕ) (dest : List ℕ)
      → o + len ≡ total
      → len ≤ fuel
      → copy_to_loop m pdir fuel (base + o) (at o) (min (page_rest (base + o)) len) len dest
        ≡ some (dest ++ user_bytes m at o len)
  unfolding copy_to_loop user_bytes
  copy_to_loop_lem zero o zero dest e f = ap some (sym (append-nil dest))
  copy_to_loop_lem zero o (suc len) dest e f = absurd (omega arith)
  copy_to_loop_lem (suc fuel) o zero dest e f = ap some (sym (append-nil dest))
  copy_to_loop_lem (suc fuel) o (suc len) dest e f =
      let r = min (page_rest (base + o)) (suc len) in
      let left = suc len - r in
      let more : ltb 0 (suc len) ≡ true = ground arith in
      let src : base + o + r ≡ base + (o + r) = omega arith in
      let piece : min page_size left ≡ min (page_rest (base + (o + r))) left = omega arith in
      let bytes : dev_read (byte_in m) (at o) r ≡ user_bytes m at o r =
        dev_read-user_bytes m at o (at o) r (λ j lt. at_within o j (omega arith) (omega arith)) in
      let rest =
        copy_to_loop_lem fuel (o + r) left (dest ++ user_bytes m at o r) (omega arith)
          (omega arith) in
      let whole : r + left ≡ suc len = omega arith in
      rw (more, src, h (o + r) (omega arith), src, piece, bytes, rest)
        (ap some (
          append_assoc dest (user_bytes m at o r) (user_bytes m at (o + r) left)
          ∙ ap (λ t. dest ++ t)
              (sym (user_bytes-add m at o r left) ∙ ap (user_bytes m at o) whole)))

-- Where every address from `src` to `src + len`, the one behind the last byte too, is translated,
-- `copy_to_kernel` from a process brings the `len` bytes in their order, each from its own page.
pub copy_to_kernel_lem :
    (m : Memory) (pdir src len : ℕ) (at : ℕ → ℕ)
    → ((j : ℕ) → j ≤ len → physical_addr m pdir (src + j) ≡ some (at j))
    → copy_to_kernel m false pdir src len ≡ some (user_bytes m at 0 len)
unfolding copy_to_kernel
copy_to_kernel_lem m pdir src len at h =
    let start : src + 0 ≡ src = omega arith in
    let first : physical_addr m pdir src ≡ some (at 0) =
      ap (physical_addr m pdir) (omega arith) ∙ h 0 (omega arith) in
    rw first (
      ap (λ a. copy_to_loop m pdir len a (at 0) (min (page_rest a) len) len []) (sym start)
      ∙ copy_to_loop_lem m pdir src len at h len 0 len [] (omega arith) (omega arith))

-- A copy that ends with its page, from a part of that page, where the next page is not there:
-- `copy_to_kernel` fails an assertion though all the bytes it wants are there.
pub copy_to_kernel_fault :
    (m : Memory) (pdir src len pa : ℕ)
    → 0 < len
    → src % 4096 + len ≡ 4096
    → physical_addr m pdir src ≡ some pa
    → physical_addr m pdir (src + len) ≡ none
    → ((j : ℕ) → j < len → physical_addr m pdir (src + j) ≡ some (pa + j))
      × (copy_to_kernel m false pdir src len ≡ none)
unfolding copy_to_kernel copy_to_loop
copy_to_kernel_fault m pdir src zero pa pos e h g = elim pos [ ]
copy_to_kernel_fault m pdir src (suc len) pa pos e h g =
    let piece : min (page_rest src) (suc len) ≡ suc len = omega arith in
    let more : ltb 0 (suc len) ≡ true = ground arith in
    (λ j lt. physical_addr_within m pdir src pa j h (omega arith), rw (h, piece, more, g) refl)
