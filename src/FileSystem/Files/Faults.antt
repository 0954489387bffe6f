-- ===== src/FileSystem/Files/Faults.antt =====
-- What `fm_dup2` and `fm_exit_file` do to descriptors that are open.
use njuos.Prelude.{
  ℕ, zero, suc, ◌+◌, ◌<◌, ◌≡◌, refl, ap, ◌∙◌, Option, none, some, arith, get_elem?,
  get_elem?-set_self, ltb, true, length,
}
use njuos.FileSystem.Files.{
  Files, slot, fd_entry, set_fd, fm_dup2, share_fd, release_file_entry, release_held, exit_from,
  fm_exit_file,
}
use njuos.FileSystem.Files.Refs.{release_slots, in_range, found}

emptied :
    (pid fd new_fd f : ℕ) (s t : Files)
    → t.slots ≡ s.slots
    → fd_entry pid fd s ≡ some (some f)
    → share_fd pid fd new_fd (set_fd pid fd none t) ≡ none
unfolding share_fd set_fd
emptied pid fd new_fd f s t q h =
    let i = slot pid fd in
    let low : ltb fd 100 ≡ true = ground (arith, h) in
    let inside : i < length t.slots =
      omega (arith, in_range s.slots i (some f) (found pid fd f s h), ap length q) in
    let gone : fd_entry pid fd (set_fd pid fd none t) ≡ some none =
      rw low (get_elem?-set_self t.slots i none inside) in
    rw (share_fd, gone) refl

-- `fm_dup2` from an open descriptor to another that is open follows a NULL pointer: it has closed the
-- one that it is to share.
pub fm_dup2_open :
    (pid fd new_fd f g : ℕ) (s : Files)
    → fd_entry pid new_fd s ≡ some (some g)
    → fd_entry pid fd s ≡ some (some f)
    → fm_dup2 pid fd new_fd s ≡ none
unfolding fm_dup2
fm_dup2_open pid fd new_fd f g s e h =
    rw (fm_dup2, e, h) (emptied pid fd new_fd f s (release_file_entry f s) (release_slots f s) h)

release_held-slots : (v : Option (Option ℕ)) (s : Files) → (release_held v s).slots ≡ s.slots
unfolding release_held
release_held-slots none s = refl
release_held-slots (some none) s = refl
release_held-slots (some (some f)) s = release_slots f s

exit_from-slots : (pid n fd : ℕ) (s : Files) → (exit_from pid n fd s).slots ≡ s.slots
unfolding exit_from
exit_from-slots pid zero fd s = refl
exit_from-slots pid (suc n) fd s =
    exit_from-slots pid n (fd + 1) (release_held (get_elem? s.slots (slot pid fd)) s)
    ∙ release_held-slots (get_elem? s.slots (slot pid fd)) s

-- `fm_exit_file` leaves every descriptor of every process as it is, those of the process that ends too.
pub fm_exit_file-slots : (pid : ℕ) (s : Files) → (fm_exit_file pid s).slots ≡ s.slots
unfolding fm_exit_file
fm_exit_file-slots pid s = exit_from-slots pid 100 0 s
