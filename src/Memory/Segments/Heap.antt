-- ===== src/Memory/Segments/Heap.antt =====
-- `sbrk` for a heap that shrinks.
use njuos.Prelude.{
  ◌+◌, ◌%◌, ◌^◌, ℕ, zero, suc, ◌-◌, ◌*◌, ◌/◌, ◌%◌, ◌≡◌, refl, none, some, leb, true, if◌then◌else◌,
  Bool-cases, inl, inr,
}
use njuos.Prelude.Int.{negsuc}
use njuos.Memory.{Memory}
use njuos.Memory.Segments.{sbrk, shrink}

shrink_for_ever :
    (fuel at top idx : ℕ) (s : Memory) → leb top at ≡ true → shrink fuel at top idx s ≡ none
unfolding shrink
shrink_for_ever zero at top idx s h = refl
shrink_for_ever (suc fuel) at top idx s h = rw h (shrink_for_ever fuel at top _ _ h)

-- For a heap that shrinks, with its new top taken modulo 2^32: where that lies above the start of the
-- page of the old top, `sbrk` frees nothing and returns it; otherwise `sbrk` does not return, whatever
-- the fuel.
pub sbrk_shrink :
    (pdir fuel heap_top n : ℕ) (s : Memory)
    → sbrk pdir (suc fuel) heap_top (negsuc n) s ≡ (
        if leb ((heap_top + 2 ^ 32 - suc n) % 2 ^ 32) (heap_top / 4096 * 4096)
        then none
        else some ((heap_top + 2 ^ 32 - suc n) % 2 ^ 32, s))
unfolding sbrk shrink
sbrk_shrink pdir fuel heap_top n s =
    let at = heap_top / 4096 * 4096 in
    let top = (heap_top + 2 ^ 32 - suc n) % 2 ^ 32 in
    elim (Bool-cases (leb top at)) [
      | inl e ↦ rw (sbrk, shrink_for_ever (suc fuel) at top (at / 4096 % 1024) s e, e) refl
      | inr e ↦ rw (sbrk, shrink, e) refl
    ]
