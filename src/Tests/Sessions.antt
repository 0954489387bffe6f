-- ===== src/Tests/Sessions.antt =====
-- Inputs for the theorem on writing and reading through a descriptor by calls of the library.
use njuos.Prelude.{
  ℕ, zero, suc, ◌+◌, ◌*◌, ◌≤◌, ◌≡◌, refl, [], ◌∷◌, none, some, arith, ltb, if◌then◌else◌,
}
use njuos.FileSystem.{INode, block_base, block_num}
use njuos.FileSystem.Bitmap.Count.{free_below}
use njuos.FileSystem.WriteData.Direct.{IsReady}
use njuos.FileSystem.Files.{slot}
use njuos.FileSystem.Server.{FileServer, writing}
use njuos.FileSystem.Handlers.{System, Context, answers, fills}
use njuos.FileSystem.Handlers.Calls.{file_call, read-write}
use njuos.SystemCalls.Library.{write, lseek, read}
use njuos.Message.{blank}
use njuos.Prelude.Int.{pos}

-- A file of 510 bytes in the blocks 0 and 1, open through the descriptor 3 at its end.
abbrev two_taken : ℕ → ℕ
two_taken k = if ltb k 2 then 1 else 0

abbrev small_file : INode
small_file = record {
  size = 510;
  type = 0;
  dev_id = 0;
  link = 1;
  index = λ k. if ltb k 2 then block_base + k * 256 else 0;
}

abbrev server : FileServer
server = record {
  files = record {
    vnodes = λ v. record { index = 4; inode = small_file; count = 1 };
    free_vnodes = [];
    active_vnodes = 2 ∷ [];
    files = λ f. record { offset = 510; count = 1; vnode = 2 };
    free_files = [];
    slots = none ∷ none ∷ none ∷ some 9 ∷ [];
    min_fd = λ pid. 0;
    disk = λ a. 0;
  };
  block_map = record { bits = two_taken; at = 0 };
  inode_map = record { bits = λ k. 0; at = 0 };
}

room_left : (n : ℕ) → n ≤ free_below two_taken n + 2
unfolding free_below
room_left zero = omega arith
room_left (suc n) = ground (arith, room_left n)

server-IsReady : IsReady (writing (λ b i. 0) 9 (10 ∷ 20 ∷ 30 ∷ []) 3 server)
unfolding writing
server-IsReady = record {
  at_end = refl;
  fits = omega arith;
  owned = record {
    number = λ k. k;
    in_range = λ k h. omega arith;
    placed = λ k h. ground arith;
    taken = λ k h. ground arith;
    apart = λ j k h g e. e;
  };
  search = omega arith;
  room = omega (arith, room_left block_num);
}

-- The process 0 writes the three bytes and reads them back by calls of the library.
abbrev context : Context
context = record {
  blocks = λ b i. 0;
  buf = λ k. 7;
  junk = λ k. 7;
  old = λ k. 0;
  stack = small_file;
  root = record { filename = 47 ∷ []; index = 0 };
  stdin = 0;
  stdout = 1;
  stderr = 2;
  tty_read = λ d n. ([], 0);
  tty_write = λ d b. 0;
  bytes_at = λ pid at len. 10 ∷ 20 ∷ 30 ∷ [];
  fuel = 9;
}

abbrev system : System
system = record { server = server; dirs = λ pid. record { filename = 47 ∷ []; index = 0 } }

read-write_example :
    (s1 : System) × (file_call context blank
        (λ a. 0)
        5000
        (λ k. 77)
        0
        (write (pos 3) 6000 (pos 3))
        system
      ≡ some (answers (pos 3), s1))
    × (s2 : System) × (file_call context blank
          (λ a. 0)
          5000
          (λ k. 77)
          0
          (lseek (pos 3) (pos 510) (pos 0))
          s1
        ≡ some (answers (pos 0), s2))
    × (s3 : System) × (file_call context blank
          (λ a. 0)
          5000
          (λ k. 77)
          0
          (read (pos 3) 7000 (pos 3))
          s2
        ≡ some (fills (pos 3) (10 ∷ 20 ∷ 30 ∷ []), s3))
unfolding slot
read-write_example =
    read-write context blank (λ a. 0) 5000 (λ k. 77) 0 3 9 6000 7000 3 system (omega arith)
      (omega arith) (omega arith) (omega arith) (omega arith) (omega arith) (omega arith) refl refl
      refl server-IsReady
