-- ===== src/Tests/Descriptors.antt =====
-- Inputs for the theorems on open files and descriptors.
use njuos.Prelude.{
  ℕ, zero, suc, ◌+◌, ◌<◌, ◌≡◌, refl, List, [], ◌∷◌, Option, none, some, ◌==◌, if◌then◌else◌, arith,
  get_elem?, set, length, replicate, length-replicate,
}
use njuos.FileSystem.{INode}
use njuos.FileSystem.Files.{Files, slot, fd_entry, fm_close, open_vnode}
use njuos.FileSystem.Files.Refs.{IsFiles, refs, fm_close-IsFiles}
use njuos.FileSystem.Files.Open.{HasTable, open_vnode-IsFiles}

abbrev no_inode : INode
no_inode = record { size = 0; type = 0; dev_id = 0; link = 0; index = λ k. 0 }

-- The one process has the descriptors 0 and 1 open, on the entries 5 and 6; the entries 7 and 8 are
-- free.
abbrev two_open : Files
two_open = record {
  vnodes = λ v. record { index = v; inode = no_inode; count = 1 };
  free_vnodes = [];
  active_vnodes = [];
  files = λ f. record {
    offset = 0;
    count = if f == 5 then 1 else (if f == 6 then 1 else 0);
    vnode = f;
  };
  free_files = 7 ∷ 8 ∷ [];
  slots = some 5 ∷ some 6 ∷ replicate 98 none;
  min_fd = λ pid. 2;
  disk = λ a. 0;
}

no_refs : (f n : ℕ) → refs f (replicate n none) ≡ 0
unfolding refs
no_refs f zero = refl
no_refs f (suc n) = omega (arith, no_refs f n)

two_refs :
    (f : ℕ)
    → (if f == 5 then 1 else (if f == 6 then 1 else 0))
      ≡ refs f (some 5 ∷ some 6 ∷ replicate 98 none)
unfolding refs
two_refs f = ground (arith, no_refs f 98)

two_open-IsFiles : IsFiles two_open
two_open-IsFiles = record {
  counted = λ f. two_refs f;
  unused = (refl, (refl, tt));
  distinct = ((omega arith, tt), (tt, tt));
}

present :
    (slots : List (Option ℕ)) (i : ℕ)
    → i < length slots
    → (v : Option ℕ) × (get_elem? slots i ≡ some v)
present [] i h = absurd (omega arith)
present (v ∷ slots) zero h = (v, refl)
present (v ∷ slots) (suc i) h = present slots i (omega arith)

two_open-HasTable : HasTable two_open.slots 0
unfolding slot
two_open-HasTable k h =
    present two_open.slots (0 + k) (omega (arith, length-replicate {A = Option ℕ} 98 none))

open_zero : fd_entry 0 0 two_open ≡ some (some 5)
unfolding slot
open_zero = refl

open_one : fd_entry 0 1 two_open ≡ some (some 6)
unfolding slot
open_one = refl

empty_four : get_elem? two_open.slots (slot 0 4) ≡ some none
unfolding slot
empty_four = refl

fm_close-IsFiles_example :
    (s' : Files) × (fm_close 0 1 two_open ≡ some s')
    × (s'.slots ≡ set two_open.slots (slot 0 1) none)
    × ((s'.files 6).count + 1 ≡ (two_open.files 6).count)
    × IsFiles s'
fm_close-IsFiles_example = fm_close-IsFiles 0 1 6 two_open two_open-IsFiles open_one

open_vnode-IsFiles_example :
    (fd : ℕ) × (s' : Files) × (open_vnode 0 3 two_open ≡ some (fd, s'))
    × (fd < 100)
    × (get_elem? two_open.slots (slot 0 fd) ≡ some none)
    × (s'.slots ≡ set two_open.slots (slot 0 fd) (some 7))
    × ((s'.files 7).count ≡ 1)
    × ((s'.files 7).offset ≡ 0)
    × (s'.min_fd 0 < 100)
    × IsFiles s'
open_vnode-IsFiles_example =
    open_vnode-IsFiles 0 3 4 7 (8 ∷ []) two_open two_open-IsFiles refl two_open-HasTable
      (omega arith) (omega arith) empty_four
