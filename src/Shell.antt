-- ===== src/Shell.antt =====
-- shell/shell.c: the command line and the paths. A string is the list of its characters before the NUL.
pub mod Commands
pub mod Paths
pub mod Session
use njuos.Prelude.{
  ℕ, zero, suc, ◌+◌, List, [], ◌∷◌, ◌++◌, Bool, true, false, ◌==◌, ◌&&◌, if◌then◌else◌, length,
  get_or, take, Option, none, some,
}
use njuos.Prelude.Int.{ℤ, pos, negsuc}

-- `parse`: the word before the first space, and where the rest begins or -1.
unfoldable pub parse_from : (i : ℕ) → List ℕ → List ℕ × ℤ
parse_from i [] = ([], negsuc 0)
parse_from i (c ∷ cmd) =
    let (word, at) = parse_from (i + 1) cmd in if c == 32 then ([], pos (i + 1)) else (c ∷ word, at)

unfoldable pub parse : List ℕ → List ℕ × ℤ
parse cmd = parse_from 0 cmd

-- `real_dir` and `i` of `convert_to_full_path`.
pub record DirPath : Type 0 where
  pub real_dir : List ℕ
  pub at : ℕ

-- `while(i != 0 && real_dir[i] != '/') i--`
unfoldable pub back : List ℕ → ℕ → ℕ
back dir zero = 0
back dir (suc j) = if get_or dir (suc j) 0 == 47 then suc j else back dir j

-- The component "..", and what is neither "." nor "..".
unfoldable pub go_up : DirPath → DirPath
go_up p =
    let i = back p.real_dir p.at in
    record { real_dir = if i == 0 then 47 ∷ [] else take i p.real_dir; at = i }

unfoldable pub go_down : List ℕ → DirPath → DirPath
go_down temp p =
    let root = p.at == 1 in
    let dir = if root then take 1 p.real_dir else take p.at p.real_dir ++ 47 ∷ [] in
    let i = if root then 1 else p.at + 1 in record { real_dir = dir ++ temp; at = i + length temp }

-- `strcmp` with ".." and with "."
abbrev pub is_dots : List ℕ → Bool
is_dots (a ∷ b ∷ []) = (a == 46) && (b == 46)
is_dots cs = false

abbrev pub is_dot : List ℕ → Bool
is_dot (a ∷ []) = a == 46
is_dot cs = false

unfoldable pub component : List ℕ → DirPath → DirPath
component temp p = if is_dots temp then go_up p else (if is_dot temp then p else go_down temp p)

-- The loop over `dir_name`, with what `temp` holds; it ends at the NUL or at a slash before it.
unfoldable pub walk : (temp : List ℕ) → List ℕ → DirPath → DirPath
walk temp [] p = component temp p
walk temp (c ∷ []) p = if c == 47 then component temp p else component (temp ++ c ∷ []) p
walk temp (c ∷ d ∷ cs) p =
    let slash = walk [] (d ∷ cs) (component temp p) in
    let more = walk (temp ++ c ∷ []) (d ∷ cs) p in if c == 47 then slash else more

-- `convert_to_full_path`; `none` is a NULL pointer.
unfoldable pub convert_to_full_path : (current_dir : List ℕ) → Option (List ℕ) → List ℕ
convert_to_full_path current_dir none = current_dir
convert_to_full_path current_dir (some []) =
    (walk [] [] (record { real_dir = current_dir; at = length current_dir })).real_dir
convert_to_full_path current_dir (some (c ∷ name)) =
    if c == 47
    then (walk [] name (record { real_dir = 47 ∷ []; at = 1 })).real_dir
    else (walk [] (c ∷ name) (record { real_dir = current_dir; at = length current_dir })).real_dir
