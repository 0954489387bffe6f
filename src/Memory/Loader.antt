-- ===== src/Memory/Loader.antt =====
-- memory_manager.c: the loading of a program from an ELF file, whose structures are in
-- src/kernel/manager_server/boot.h, and the handlers of the manager's messages. A file is what the file
-- server gives for an offset and a size; a copy into the process is one, not one for each block.
use njuos.Prelude.{
  ℕ, zero, suc, ◌+◌, ◌*◌, ◌%◌, ◌^◌, List, [], ◌∷◌, Option, none, some, Bool, true, false, ◌==◌,
  if◌then◌else◌, get_or, length, update,
}
use njuos.FileSystem.{load32}
use njuos.Copies.{copy_from_kernel}
use njuos.Memory.{Memory}
use njuos.Memory.Processes.{create_kernel_dir, copy_process, takeback_page}
use njuos.Memory.Segments.{create_stack_page, load_segment}

-- An `unsigned short`, and the fields of `struct ELFHeader` and of `struct ProgramHeader` that are used.
abbrev load16 : (ℕ → ℕ) → ℕ → ℕ
load16 mem a = mem a + 256 * mem (a + 1)

pub record ElfHeader : Type 0 where
  pub entry : ℕ
  pub phoff : ℕ
  pub phnum : ℕ

pub record ProgramHeader : Type 0 where
  pub type : ℕ
  pub off : ℕ
  pub vaddr : ℕ
  pub filesz : ℕ
  pub memsz : ℕ

unfoldable pub elf_header : (ℕ → ℕ) → ElfHeader
elf_header elf = record { entry = load32 elf 24; phoff = load32 elf 28; phnum = load16 elf 44 }

unfoldable pub program_header : (ℕ → ℕ) → ℕ → ProgramHeader
program_header elf ph = record {
  type = load32 elf ph;
  off = load32 elf (ph + 4);
  vaddr = load32 elf (ph + 8);
  filesz = load32 elf (ph + 16);
  memsz = load32 elf (ph + 20);
}

-- What the manager keeps of a program in its `PCB`: `entry`, `heap_start` and `heap_top`.
pub record Program : Type 0 where
  pub entry : ℕ
  pub heap_start : ℕ
  pub heap_top : ℕ

abbrev pub File : Type 0
File = (offset size : ℕ) → List ℕ

-- `read_elf` into the process.
pub read_elf : (pdir vaddr : ℕ) → List ℕ → Memory → Option Memory
read_elf pdir vaddr [] s = some s
read_elf pdir vaddr (b ∷ bs) s =
    copy_from_kernel false pdir vaddr (length (b ∷ bs)) (λ k. get_or (b ∷ bs) k 0) s

-- The body of the loop over the program headers.
pub load_header : (file : File) → (pdir : ℕ) → ProgramHeader → Memory → Option Memory
unfolding read_elf
load_header file pdir ph s =
    if ph.memsz == 0 then some s else (elim (load_segment pdir ph.vaddr ph.memsz s) [
      | none ↦ none
      | some s' ↦ read_elf pdir ph.vaddr (file ph.off ph.filesz) s'
    ])

abbrev heap_of : ProgramHeader → Program → Program
heap_of ph p =
    let heap_start = (ph.vaddr + ph.memsz) % 2 ^ 32 in
    if ph.type == 1 then record p { heap_start = heap_start; heap_top = heap_start } else p

pub load_headers :
    (elf : ℕ → ℕ) → (file : File) → (pdir n ph : ℕ) → Program → Memory → Option (Program × Memory)
load_headers elf file pdir zero ph p s = some (p, s)
load_headers elf file pdir (suc n) ph p s =
    let header = program_header elf ph in
    elim (load_header file pdir header s) [
      | none ↦ none
      | some s' ↦ load_headers elf file pdir n (ph + 32) (heap_of header p) s'
    ]

-- `load_program`; `old` is what lies at 0x8000 behind a file of less than a page.
pub load_program : (old : ℕ → ℕ) → File → (pdir : ℕ) → Program → Memory → Option (Program × Memory)
unfolding load_headers
load_program old file pdir p s = elim (create_kernel_dir pdir s) [
  | none ↦ none
  | some s1 ↦ elim (create_stack_page pdir s1) [
    | none ↦ none
    | some s2 ↦
        let elf : ℕ → ℕ = λ k. get_or (file 0 4096) k (old k) in
        let header = elf_header elf in
        elim (load_headers elf file pdir header.phnum header.phoff p s2) [
          | none ↦ none
          | some (p', s3) ↦ some (record p' { entry = header.entry }, s3)
        ]
  ]
]

-- The manager: the memory, and the programs by process.
pub record Manager : Type 0 where
  pub memory : Memory
  pub programs : ℕ → Program

-- `kpdirs` are the addresses of the directories.
module _ (kpdirs : ℕ → ℕ) (old : ℕ → ℕ) (open_elf_file : List ℕ → Option File) where
  abbrev load : (pid : ℕ) → File → Memory → Manager → Option Manager
  load pid file memory s = elim (load_program old file (kpdirs pid) (s.programs pid) memory) [
    | none ↦ none
    | some (p, memory') ↦ some (record { memory = memory'; programs = update s.programs pid p })
  ]

  -- `handle_pcb`, which reads through the descriptor -1 where the file is not there.
  unfoldable pub handle_pcb : (pid : ℕ) → (file_name : List ℕ) → Manager → Option Manager
  unfolding load_program
  handle_pcb pid file_name s = elim (open_elf_file file_name) [
    | none ↦ none
    | some file ↦ load pid file s.memory s
  ]

  -- `handle_exec`; `false` is -1.
  unfoldable pub handle_exec : (pid : ℕ) → (file_name : List ℕ) → Manager → Option (Bool × Manager)
  unfolding load_program
  handle_exec pid file_name s = elim (open_elf_file file_name) [
    | none ↦ some (false, s)
    | some file ↦ elim (load pid file (takeback_page (kpdirs pid) s.memory) s) [
      | none ↦ none
      | some s' ↦ some (true, s')
    ]
  ]

  -- `handle_child`; the program of the child stays as it was.
  pub handle_child : (ppid cpid : ℕ) → Manager → Option Manager
  handle_child ppid cpid s = elim (create_kernel_dir (kpdirs cpid) s.memory) [
    | none ↦ none
    | some m1 ↦ elim (copy_process (kpdirs ppid) (kpdirs cpid) m1) [
      | none ↦ none
      | some m2 ↦ some (record s { memory = m2 })
    ]
  ]

  -- `handle_exit`
  pub handle_exit : (pid : ℕ) → Manager → Manager
  handle_exit pid s = record s { memory = takeback_page (kpdirs pid) s.memory }
