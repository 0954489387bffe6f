-- ===== src/FileSystem/Files/Open.antt =====
-- The descriptors that `fm_open` gives out.
use njuos.Prelude.{
  ℕ, zero, suc, ◌+◌, ◌%◌, ◌<◌, ◌≡◌, refl, sym, ap, subst, ◌∙◌, List, [], ◌∷◌, Option, none, some,
  arith, get_elem?, set, update,
}
use native.Mathlib.Nat.{mod-add-mod, mod-eq_of_lt}
use njuos.ListHead.Ring.{NotIn, AllDistinct}
use njuos.FileSystem.{OpenFile}
use njuos.FileSystem.Bitmap.Scan.{ahead, ahead_lem}
use njuos.FileSystem.Files.{Files, slot, set_fd, next_fd, open_vnode, get_free_file_entry}
use njuos.FileSystem.Files.Refs.{IsFiles, AllUnused, refs, refs-set, holds}

-- The slots of a process are there.
abbrev pub HasTable : List (Option ℕ) → ℕ → Type 0
HasTable slots pid = (k : ℕ) → k < 100 → (v : Option ℕ) × (get_elem? slots (slot pid k) ≡ some v)

-- What a search that ends has found.
record FoundFd (slots : List (Option ℕ)) (pid : ℕ) (r : Option ℕ) : Type 0 where
  fd : ℕ
  result : r ≡ some fd
  below : fd < 100
  empty : get_elem? slots (slot pid fd) ≡ some none

module _ (slots : List (Option ℕ)) (pid fuel i : ℕ) (p : i < 100) where
  here :
      get_elem? slots (slot pid i) ≡ some none → FoundFd slots pid (next_fd slots pid (suc fuel) i)
  unfolding next_fd
  here e = record { fd = i; result = rw (next_fd, e) refl; below = p; empty = e }

  further :
      (v : Option ℕ)
      → get_elem? slots (slot pid i) ≡ some v
      → FoundFd slots pid (next_fd slots pid fuel ((i + 1) % 100))
      → FoundFd slots pid (next_fd slots pid (suc fuel) i)
  unfolding next_fd
  further none e r = here e
  further (some f) e r = record {
    fd = r.fd;
    result = rw (next_fd, e) r.result;
    below = r.below;
    empty = r.empty;
  }

next_fd-FoundFd :
    (slots : List (Option ℕ)) (pid : ℕ)
    → HasTable slots pid
    → (fuel d i : ℕ) → i < 100
    → d < fuel
    → get_elem? slots (slot pid ((i + d) % 100)) ≡ some none
    → FoundFd slots pid (next_fd slots pid fuel i)
next_fd-FoundFd slots pid h zero d i p q z = absurd (omega arith)
next_fd-FoundFd slots pid h (suc fuel) zero i p q z = here slots pid fuel i p (
    ap (λ (k : ℕ). get_elem? slots (slot pid k))
      (sym (ap (λ (k : ℕ). k % 100) (omega arith) ∙ mod-eq_of_lt p))
    ∙ z)
next_fd-FoundFd slots pid h (suc fuel) (suc d) i p q z =
    let (v, e) = h i p in
    further slots pid fuel i p v e (
      next_fd-FoundFd slots pid h fuel d ((i + 1) % 100) (omega arith) (omega arith) (
        ap (λ (k : ℕ). get_elem? slots (slot pid k))
          (mod-add-mod (i + 1) 100 d ∙ ap (λ (k : ℕ). k % 100) (omega arith))
        ∙ z))

-- The files with `f` opened on a vnode.
abbrev opened : ℕ → ℕ → (ℕ → OpenFile) → ℕ → OpenFile
opened f vnode files =
    update (update files f (record (files f) { count = 1 })) f
      (record { offset = 0; count = 1; vnode = vnode })

AllUnused-opened :
    (f vnode : ℕ) (files : ℕ → OpenFile) (fs : List ℕ)
    → NotIn f fs
    → AllUnused files fs
    → AllUnused (opened f vnode files) fs
AllUnused-opened f vnode files [] n v = tt
AllUnused-opened f vnode files (g ∷ fs) n v =
    (ground (arith, n.0, v.0), AllUnused-opened f vnode files fs n.1 v.1)

one_more :
    (f vnode g : ℕ) (s : Files) (i : ℕ)
    → get_elem? s.slots i ≡ some none
    → (s.files f).count ≡ 0
    → IsFiles s
    → (opened f vnode s.files g).count ≡ refs g (set s.slots i (some f))
one_more f vnode g s i e z v =
    let change : refs g (set s.slots i (some f)) + 0 ≡ refs g s.slots + holds g (some f) =
      refs-set g s.slots i none (some f) e in
    let count = v.counted g in ground (arith, change, count, z)

first_unused :
    (f : ℕ) (rest : List ℕ) (files : ℕ → OpenFile) {fs : List ℕ}
    → fs ≡ f ∷ rest
    → AllUnused files fs
    → ((files f).count ≡ 0) × AllUnused files rest
first_unused f rest files e v = subst (AllUnused files) e v

first_distinct :
    (f : ℕ) (rest : List ℕ) {fs : List ℕ}
    → fs ≡ f ∷ rest
    → AllDistinct fs
    → NotIn f rest × AllDistinct rest
first_distinct f rest e v = subst AllDistinct e v

-- With a free file entry, and an empty slot among the hundred of the process, `fm_open` on a vnode
-- gives out a descriptor below 100 whose slot was empty: it holds the entry now, at offset 0 and with
-- one user, no other slot changes, and counts and free list stay right.
pub open_vnode-IsFiles :
    (pid vnode j f : ℕ) (rest : List ℕ) (s : Files)
    → IsFiles s
    → s.free_files ≡ f ∷ rest
    → HasTable s.slots pid
    → s.min_fd pid < 100
    → j < 100
    → get_elem? s.slots (slot pid j) ≡ some none
    → (fd : ℕ) × (s' : Files) × (open_vnode pid vnode s ≡ some (fd, s'))
      × (fd < 100)
      × (get_elem? s.slots (slot pid fd) ≡ some none)
      × (s'.slots ≡ set s.slots (slot pid fd) (some f))
      × ((s'.files f).count ≡ 1)
      × ((s'.files f).offset ≡ 0)
      × (s'.min_fd pid < 100)
      × IsFiles s'
unfolding open_vnode set_fd get_free_file_entry
open_vnode-IsFiles pid vnode j f rest s v e h m lt z =
    let (there, near) = ahead_lem 100 (s.min_fd pid) j m lt in
    let r =
      next_fd-FoundFd s.slots pid h 101 (ahead 100 (s.min_fd pid) j) (s.min_fd pid) m (omega arith)
        (ap (λ (k : ℕ). get_elem? s.slots (slot pid k)) there ∙ z) in
    let fd = r.fd in
    let (free, others) = first_unused f rest s.files e v.unused in
    let (apart, distinct) = first_distinct f rest e v.distinct in
    let s' : Files = record s {
      files = opened f vnode s.files;
      free_files = rest;
      slots = set s.slots (slot pid fd) (some f);
      min_fd = update s.min_fd pid ((fd + 1) % 100);
    } in
    (
      fd,
      s',
      rw (open_vnode, get_free_file_entry, e, r.result) refl,
      r.below,
      r.empty,
      refl,
      ground arith,
      ground arith,
      ground arith,
      record {
        counted = λ g. one_more f vnode g s (slot pid fd) r.empty free v;
        unused = AllUnused-opened f vnode s.files rest apart others;
        distinct = distinct;
      },
    )
