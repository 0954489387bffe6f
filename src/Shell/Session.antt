-- ===== src/Shell/Session.antt =====
-- shell/shell.c: `main` and the commands. What the shell puts on the terminal is a list of strings; the
-- kernel is an interface of the calls that it makes.
pub mod Shown
use njuos.Prelude.{
  ℕ, zero, suc, ◌+◌, List, [], ◌∷◌, ◌++◌, Bool, true, false, Option, none, some, ltb, ◌==◌,
  if◌then◌else◌, drop, get_or,
}
use njuos.Prelude.Int.{ℤ, pos, negsuc, is_zero}
use njuos.Strings.{equal_strings}
use njuos.FileSystem.Directories.{string_at}
use njuos.Shell.{parse, convert_to_full_path}

-- The calls of the shell on the state of the kernel, with their answers; `exec` is that of a child,
-- which answers `false` for -1 and `none` where the program that it becomes never ends.
pub record Kernel (S : Type 0) : Type 0 where
  pub chdir : List ℕ → S → ℤ × S
  pub lsdir : List ℕ → S → (ℤ × List ℕ) × S
  pub create : List ℕ → S → ℤ × S
  pub delete_file : List ℕ → S → ℤ × S
  pub mkdir : List ℕ → S → ℤ × S
  pub rmdir : List ℕ → S → ℤ × S
  pub open_file : List ℕ → S → ℤ × S
  pub read : ℤ → S → (ℤ × List ℕ) × S
  pub exec : List ℕ → List ℕ → S → Option (Bool × S)

pub record Shell (S : Type 0) : Type 0 where
  pub current_dir : List ℕ
  pub terminal : List (List ℕ)
  pub kernel : S

-- The texts "no such dir", "can't create file", "can't delete file", "can't create dir", "can't delete dir"
-- and "no such elf file!\n".
pub data Text : Type 0 where
  no_such_dir : Text
  cannot_create_file : Text
  cannot_delete_file : Text
  cannot_create_dir : Text
  cannot_delete_dir : Text
  no_such_elf_file : Text

-- The arguments behind the word of a command; `none` is NULL.
abbrev pub args_of : List ℕ → ℤ → Option (List ℕ)
args_of cmd (pos n) = some (drop n cmd)
args_of cmd (negsuc n) = none

module _ {S : Type 0} (k : Kernel S) (letters : Text → List ℕ) where
  unfoldable pub puts : List ℕ → Shell S → Shell S
  puts text s = record s { terminal = s.terminal ++ text ∷ [] }

  -- `put_to_shell_tty`: a text, and the prompt, on a new line behind a text.
  unfoldable pub put_to_shell_tty : Option (List ℕ) → Shell S → Shell S
  unfolding puts
  put_to_shell_tty none s = puts (s.current_dir ++ 36 ∷ 32 ∷ []) s
  put_to_shell_tty (some buf) s = puts (10 ∷ s.current_dir ++ 36 ∷ 32 ∷ []) (puts buf s)

  unfoldable pub cd : Option (List ℕ) → Shell S → Shell S
  unfolding put_to_shell_tty
  cd dir_name s =
      let real_dir = convert_to_full_path s.current_dir dir_name in
      let (ret, kernel) = k.chdir real_dir s.kernel in
      if is_zero ret
      then put_to_shell_tty none (record s { current_dir = real_dir; kernel = kernel })
      else put_to_shell_tty (some (letters no_such_dir)) (record s { kernel = kernel })

  unfoldable pub ls : Option (List ℕ) → Shell S → Shell S
  unfolding put_to_shell_tty
  ls dir_name s =
      let ((ret, buf), kernel) = k.lsdir (convert_to_full_path s.current_dir dir_name) s.kernel in
      put_to_shell_tty (some (if is_zero ret then buf else letters no_such_dir))
        (record s { kernel = kernel })

  -- `mkfile`, `rmfile`, `_mkdir` and `_rmdir`, by the call and the text of its failure.
  unfoldable pub change :
      (call : List ℕ → S → ℤ × S) → (failure : Text) → Option (List ℕ) → Shell S → Shell S
  unfolding put_to_shell_tty
  change call failure name s =
      let (ret, kernel) = call (convert_to_full_path s.current_dir name) s.kernel in
      put_to_shell_tty (if is_zero ret then none else some (letters failure))
        (record s { kernel = kernel })

  -- The loop of `cat`, on fuel: `mem` is the memory from `buf` on, where the text has no NUL behind it.
  pub cat_loop : (fuel : ℕ) → (fd : ℤ) → (mem : ℕ → ℕ) → Shell S → Option (Shell S)
  unfolding puts
  cat_loop zero fd mem s = none
  cat_loop (suc fuel) fd mem s =
      let ((ret, bytes), kernel) = k.read fd s.kernel in
      let mem' : ℕ → ℕ = λ i. get_or bytes i (mem i) in
      let rest =
        cat_loop fuel fd mem' (puts (string_at mem' 4096 0) (record s { kernel = kernel })) in
      if is_zero ret then some (record s { kernel = kernel }) else rest

  pub cat : (fuel : ℕ) → (mem : ℕ → ℕ) → Option (List ℕ) → Shell S → Option (Shell S)
  unfolding cat_loop puts put_to_shell_tty
  cat fuel mem filename s =
      let (fd, kernel) = k.open_file (convert_to_full_path s.current_dir filename) s.kernel in
      elim (cat_loop fuel fd mem (record s { kernel = kernel })) [
        | none ↦ none
        | some s' ↦ some (put_to_shell_tty none (puts (10 ∷ []) s'))
      ]

  -- `_exec`, with the child and the wait for it.
  unfoldable pub run : (filename args : List ℕ) → Shell S → Option (Shell S)
  unfolding puts put_to_shell_tty
  run filename args s =
      elim (k.exec (convert_to_full_path s.current_dir (some filename)) args s.kernel) [
        | none ↦ none
        | some (found, kernel) ↦
            let s' = record s { kernel = kernel } in
            some (put_to_shell_tty none (if found then s' else puts (letters no_such_elf_file) s'))
      ]

  -- A round of `main`, by the words "cd", "ls", "mkfile", "rmfile", "mkdir", "rmdir", "echo" and "cat".
  unfoldable pub command : (fuel : ℕ) → (mem : ℕ → ℕ) → List ℕ → Shell S → Option (Shell S)
  unfolding cat
  command fuel mem cmd s =
      let (cmd_type, at) = parse cmd in
      let args = args_of cmd at in
      if equal_strings cmd_type (99 ∷ 100 ∷ [])
      then some (cd args s)
      else (if equal_strings cmd_type (108 ∷ 115 ∷ [])
          then some (ls args s)
          else (if equal_strings cmd_type (109 ∷ 107 ∷ 102 ∷ 105 ∷ 108 ∷ 101 ∷ [])
              then some (change k.create cannot_create_file args s)
              else (if equal_strings cmd_type (114 ∷ 109 ∷ 102 ∷ 105 ∷ 108 ∷ 101 ∷ [])
                  then some (change k.delete_file cannot_delete_file args s)
                  else (if equal_strings cmd_type (109 ∷ 107 ∷ 100 ∷ 105 ∷ 114 ∷ [])
                      then some (change k.mkdir cannot_create_dir args s)
                      else (if equal_strings cmd_type (114 ∷ 109 ∷ 100 ∷ 105 ∷ 114 ∷ [])
                          then some (change k.rmdir cannot_delete_dir args s)
                          else (if equal_strings cmd_type (101 ∷ 99 ∷ 104 ∷ 111 ∷ [])
                              then some (put_to_shell_tty args s)
                              else (if equal_strings cmd_type (99 ∷ 97 ∷ 116 ∷ [])
                                  then cat fuel mem args s
                                  else run cmd_type cmd s)))))))

  -- `main`, over the lines that are typed.
  unfoldable pub main : (fuel : ℕ) → (mem : ℕ → ℕ) → List (List ℕ) → Shell S → Option (Shell S)
  main fuel mem [] s = some s
  main fuel mem (cmd ∷ cmds) s = elim (command fuel mem cmd s) [
    | none ↦ none
    | some s' ↦ main fuel mem cmds s'
  ]
