-- ===== src/FileSystem/Files/Refs.antt =====
-- The reference counts of the open files against the descriptors that hold them.
use njuos.Prelude.{
  ℕ, zero, suc, ◌+◌, ◌<◌, ◌≡◌, refl, sym, ap, ◌∙◌, List, [], ◌∷◌, Option, none, some, ◌==◌, ltb,
  if◌then◌else◌, arith, get_elem?, set, update, length, Bool-cases, inl, inr, true, false, Bool,
}
use njuos.ListHead.Ring.{NotIn, AllDistinct}
use njuos.FileSystem.{OpenFile}
use njuos.FileSystem.Files.{
  Files, slot, fd_entry, set_fd, release_file_entry, release_kernel_vnode, fm_close, decrement,
}

-- Whether a slot holds the open file `f`, and how many do.
abbrev pub holds : ℕ → Option ℕ → ℕ
holds f none = 0
holds f (some g) = if f == g then 1 else 0

unfoldable pub refs : ℕ → List (Option ℕ) → ℕ
refs f [] = 0
refs f (v ∷ slots) = holds f v + refs f slots

pub refs-set :
    (f : ℕ) (slots : List (Option ℕ)) (i : ℕ) (old new : Option ℕ)
    → get_elem? slots i ≡ some old
    → refs f (set slots i new) + holds f old ≡ refs f slots + holds f new
unfolding refs
refs-set f [] i old new e = ground arith
refs-set f (v ∷ slots) zero old new e =
    let same : v ≡ old = ground arith in
    ap (λ o. holds f new + refs f slots + holds f o) (sym same) ∙ omega arith
refs-set f (v ∷ slots) (suc i) old new e = omega (arith, refs-set f slots i old new e)

-- Every open file of a list is unused.
abbrev pub AllUnused : (ℕ → OpenFile) → List ℕ → Type 0
AllUnused files [] = Unit {0}
AllUnused files (f ∷ fs) = ((files f).count ≡ 0) × AllUnused files fs

-- Each count is the number of descriptors that hold the file, below 2^32, and the free files are
-- unused and listed once.
pub record IsFiles (s : Files) : Type 0 where
  pub counted : (f : ℕ) → (s.files f).count ≡ refs f s.slots
  pub unused : AllUnused s.files s.free_files
  pub distinct : AllDistinct s.free_files

AllUnused-update :
    (files : ℕ → OpenFile) (f : ℕ) (file : OpenFile) (fs : List ℕ)
    → ((files f).count ≡ 0 → file.count ≡ 0)
    → AllUnused files fs
    → AllUnused (update files f file) fs
AllUnused-update files f file [] h v = tt
AllUnused-update files f file (g ∷ fs) h v =
    (ground (arith, h, v.0), AllUnused-update files f file fs h v.1)

AllUnused-same :
    {files files' : ℕ → OpenFile} {fs fs' : List ℕ}
    → files' ≡ files
    → fs' ≡ fs
    → AllUnused files fs
    → AllUnused files' fs'
AllUnused-same p q v = rw (p, q) v

pub in_range :
    (slots : List (Option ℕ)) (i : ℕ) (v : Option ℕ) → get_elem? slots i ≡ some v → i < length slots
in_range [] i v e = ground arith
in_range (x ∷ slots) zero v e = omega arith
in_range (x ∷ slots) (suc i) v e = omega (arith, in_range slots i v e)

-- What releasing a file comes to, the vnodes and the disk apart.
pub record Released (f : ℕ) (s s' : Files) : Type 0 where
  pub slots : s'.slots ≡ s.slots
  pub min_fd : s'.min_fd ≡ s.min_fd
  pub count :
      (g : ℕ)
      → (s'.files g).count ≡ (if f == g then decrement (s.files f).count else (s.files g).count)
  pub unused : AllUnused s'.files s'.free_files
  pub distinct : AllDistinct s'.free_files

-- A file in use is not in the list of those that are not.
used_apart :
    (files : ℕ → OpenFile) (f : ℕ) (fs : List ℕ)
    → 0 < (files f).count
    → AllUnused files fs
    → NotIn f fs
used_apart files f [] h v = tt
used_apart files f (g ∷ fs) h v =
    (λ e. absurd (omega (arith, ap (λ k. (files k).count) e, v.0)), used_apart files f fs h v.1)

distinct_cons :
    (f : ℕ) {fs fs' : List ℕ}
    → fs' ≡ fs
    → NotIn f fs
    → AllDistinct fs
    → NotIn f fs' × AllDistinct fs'
distinct_cons f e n d = rw e (n, d)

record Same (s s' : Files) : Type 0 where
  slots : s'.slots ≡ s.slots
  min_fd : s'.min_fd ≡ s.min_fd
  files : s'.files ≡ s.files
  free_files : s'.free_files ≡ s.free_files

release_kernel_vnode-Same : (v : ℕ) (s : Files) → Same s (release_kernel_vnode v s)
unfolding release_kernel_vnode
release_kernel_vnode-Same v s = record {
  slots = ground arith;
  min_fd = ground arith;
  files = ground arith;
  free_files = ground arith;
}

-- The file with one user less.
abbrev less_used : ℕ → Files → Files
less_used f s = record s {
  files = update s.files f (record (s.files f) { count = decrement (s.files f).count });
}

pub release_file_entry-Released :
    (f : ℕ) (s : Files)
    → AllUnused s.files s.free_files
    → AllDistinct s.free_files
    → 0 < (s.files f).count
    → Released f s (release_file_entry f s)
unfolding release_file_entry
release_file_entry-Released f s v d h = elim (Bool-cases (decrement (s.files f).count == 0)) [
  | inl e ↦
      let zero_left : decrement (s.files f).count ≡ 0 = ground arith in
      let same = release_kernel_vnode-Same (s.files f).vnode (less_used f s) in
      rw (release_file_entry, e)
        (record {
          slots = same.slots;
          min_fd = same.min_fd;
          count = λ g. ap (λ (x : ℕ → OpenFile). (x g).count) same.files ∙ ground arith;
          unused = (
            ap (λ (x : ℕ → OpenFile). (x f).count) same.files ∙ ground (arith, zero_left),
            AllUnused-same same.files same.free_files (
                AllUnused-update s.files f
                  (record (s.files f) { count = decrement (s.files f).count }) s.free_files
                  (λ q. zero_left) v),
          );
          distinct = distinct_cons f same.free_files (used_apart s.files f s.free_files h v) d;
        })
  | inr e ↦
      rw (release_file_entry, e)
        (record {
          slots = refl;
          min_fd = refl;
          count = λ g. ground arith;
          unused = AllUnused-update s.files f _ s.free_files (λ q. absurd (omega (arith, q))) v;
          distinct = d;
        })
]

pub found :
    (pid fd f : ℕ) (s : Files)
    → fd_entry pid fd s ≡ some (some f)
    → get_elem? s.slots (slot pid fd) ≡ some (some f)
found pid fd f s e = ground (arith, e)

-- Moving `min_fd` changes nothing else.
kept :
    (b : Bool) (s : Files) (min_fd : ℕ → ℕ)
    → let s' : Files = if b then record s { min_fd = min_fd } else s in
      (s'.slots ≡ s.slots) × (s'.files ≡ s.files) × (s'.free_files ≡ s.free_files)
kept true s min_fd = (refl, refl, refl)
kept false s min_fd = (refl, refl, refl)

holds_self : (f : ℕ) → holds f (some f) ≡ 1
holds_self f = ground arith

own : (f a b : ℕ) → (if f == f then a else b) ≡ a
own f a b = ground arith

less_by_one : {c : ℕ} (n : ℕ) → 0 < n → c ≡ decrement n → c + 1 ≡ n
less_by_one n h e = ground (arith, e)

one_less :
    (f g : ℕ) (s : Files) (i : ℕ)
    → get_elem? s.slots i ≡ some (some f)
    → IsFiles s
    → (if f == g then decrement (s.files f).count else (s.files g).count)
      ≡ refs g (set s.slots i none)
one_less f g s i e v =
    let change : refs g (set s.slots i none) + holds g (some f) ≡ refs g s.slots + 0 =
      refs-set g s.slots i (some f) none e in
    let count = v.counted g in let mine = v.counted f in ground (arith, change, count, mine)

-- `fm_close` of an open descriptor succeeds: it empties its slot and no other, the open file has one
-- user less, no other file changes its users, and counts and free list stay right.
pub fm_close-IsFiles :
    (pid fd f : ℕ) (s : Files)
    → IsFiles s
    → fd_entry pid fd s ≡ some (some f)
    → (s' : Files) × (fm_close pid fd s ≡ some s')
      × (s'.slots ≡ set s.slots (slot pid fd) none)
      × ((s'.files f).count + 1 ≡ (s.files f).count)
      × IsFiles s'
unfolding fm_close set_fd
fm_close-IsFiles pid fd f s v e =
    let i = slot pid fd in
    let there : get_elem? s.slots i ≡ some (some f) = found pid fd f s e in
    let used : 0 < (s.files f).count =
      omega (arith, refs-set f s.slots i (some f) none there, v.counted f, holds_self f) in
    let r = release_file_entry-Released f s v.unused v.distinct used in
    let s1 = release_file_entry f s in
    let s2 = set_fd pid fd none s1 in
    let s3 : Files =
      if ltb fd (s2.min_fd pid) then record s2 { min_fd = update s2.min_fd pid fd } else s2 in
    let (slots, files, free) = kept (ltb fd (s2.min_fd pid)) s2 (update s2.min_fd pid fd) in
    let emptied : s3.slots ≡ set s.slots i none = slots ∙ ap (λ l. set l i none) r.slots in
    let count : (g : ℕ)
        → (s3.files g).count ≡ (if f == g then decrement (s.files f).count else (s.files g).count) =
      λ g. ap (λ (x : ℕ → OpenFile). (x g).count) files ∙ r.count g in
    (
      s3,
      rw (fm_close, e) refl,
      emptied,
      less_by_one (s.files f).count used
          (count f ∙ own f (decrement (s.files f).count) (s.files f).count),
      record {
        counted = λ g. count g ∙ one_less f g s i there v ∙ ap (refs g) (sym emptied);
        unused = AllUnused-same files free r.unused;
        distinct = rw free r.distinct;
      },
    )

-- Releasing a file leaves the descriptors alone.
pub release_slots : (f : ℕ) (s : Files) → (release_file_entry f s).slots ≡ s.slots
unfolding release_file_entry
release_slots f s = elim (Bool-cases (decrement (s.files f).count == 0)) [
  | inl e ↦
      rw (release_file_entry, e) (release_kernel_vnode-Same (s.files f).vnode (less_used f s)).slots
  | inr e ↦ rw (release_file_entry, e) refl
]
