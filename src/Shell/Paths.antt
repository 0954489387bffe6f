-- ===== src/Shell/Paths.antt =====
-- The paths of the shell against the directories that they name.
use njuos.Prelude.{
  ℕ, zero, suc, ◌+◌, ◌<◌, ◌≡◌, ◌≢◌, ◌⊎◌, inl, inr, refl, sym, ap, ◌∙◌, List, [], ◌∷◌, ◌++◌, arith,
  length, take, get_or, ◌==◌, append-nil, append_assoc, length-append, true, false,
}
use njuos.Shell.{DirPath, back, go_up, go_down, component, is_dots, is_dot}
use njuos.Shell.Commands.{Lacks}

-- What follows the names of directories in a path: a slash before each.
unfoldable pub names : List (List ℕ) → List ℕ
names [] = []
names (c ∷ cs) = 47 ∷ (c ++ names cs)

-- A name is not empty and has no slash.
abbrev pub IsName : List ℕ → Type 0
IsName c = (0 < length c) × Lacks 47 c

abbrev pub AllNames : List (List ℕ) → Type 0
AllNames [] = Unit {0}
AllNames (c ∷ cs) = IsName c × AllNames cs

-- The state of the loop stands for a directory: the root, with `i` 0 or 1, or one below it.
unfoldable pub AtRoot : DirPath → Type 0
AtRoot p = (p.real_dir ≡ 47 ∷ []) × ((p.at ≡ 0) ⊎ (p.at ≡ 1))

unfoldable pub AtDir : DirPath → List (List ℕ) → Type 0
AtDir p dirs = (p.real_dir ≡ names dirs) × (p.at ≡ length (names dirs))

names-snoc : (cs : List (List ℕ)) (c : List ℕ) → names (cs ++ c ∷ []) ≡ names cs ++ 47 ∷ c
unfolding names
names-snoc [] c = ap (λ (l : List ℕ). 47 ∷ l) (append-nil c)
names-snoc (d ∷ cs) c =
    ap (λ (l : List ℕ). 47 ∷ l)
      (ap (λ (l : List ℕ). d ++ l) (names-snoc cs c) ∙ sym (append_assoc d (names cs) (47 ∷ c)))

take-prefix : (xs ys : List ℕ) → take (length xs) (xs ++ ys) ≡ xs
take-prefix [] ys = refl
take-prefix (x ∷ xs) ys = ap (λ (l : List ℕ). x ∷ l) (take-prefix xs ys)

take-all : (xs : List ℕ) → take (length xs) xs ≡ xs
take-all [] = refl
take-all (x ∷ xs) = ap (λ (l : List ℕ). x ∷ l) (take-all xs)

get_or-Lacks : (c : List ℕ) (k : ℕ) → Lacks 47 c → get_or c k 0 ≢ 47
get_or-Lacks [] k h e = absurd (omega (arith, e))
get_or-Lacks (x ∷ c) zero h e = h.0 e
get_or-Lacks (x ∷ c) (suc k) h e = get_or-Lacks c k h.1 e

get_or-behind : (xs ys : List ℕ) (k : ℕ) → get_or (xs ++ ys) (length xs + k) 0 ≡ get_or ys k 0
get_or-behind [] ys k = ap (λ i. get_or ys i 0) (omega arith)
get_or-behind (x ∷ xs) ys k =
    let e : length (x ∷ xs) + k ≡ suc (length xs + k) = omega arith in
    ap (λ i. get_or (x ∷ (xs ++ ys)) i 0) e ∙ get_or-behind xs ys k

-- Going back over a name ends at its slash.
back-name : (xs c : List ℕ) (k : ℕ) → Lacks 47 c → back (xs ++ 47 ∷ c) (length xs + k) ≡ length xs
unfolding back
back-name [] c zero h = refl
back-name (x ∷ xs) c zero h =
    let e : length (x ∷ xs) + 0 ≡ suc (length xs) = omega arith in
    let slash : get_or (x ∷ (xs ++ 47 ∷ c)) (suc (length xs)) 0 ≡ 47 =
      ap (λ i. get_or (xs ++ 47 ∷ c) i 0) (omega arith) ∙ get_or-behind xs (47 ∷ c) 0 in
    let test : (get_or (x ∷ (xs ++ 47 ∷ c)) (suc (length xs)) 0 == 47) ≡ true =
      ground (arith, slash) in
    rw (e, back, test) refl
back-name xs c (suc k) h =
    let e : length xs + suc k ≡ suc (length xs + k) = omega arith in
    let name : get_or (xs ++ 47 ∷ c) (suc (length xs + k)) 0 ≢ 47 = λ q.
      get_or-Lacks c k h
        (sym (get_or-behind xs (47 ∷ c) (suc k)) ∙ ap (λ i. get_or (xs ++ 47 ∷ c) i 0) e ∙ q) in
    let test : (get_or (xs ++ 47 ∷ c) (suc (length xs + k)) 0 == 47) ≡ false =
      ground (arith, name) in
    rw (e, back, test) (back-name xs c k h)

unfoldable pub Stands : DirPath → List (List ℕ) → Type 0
Stands p [] = AtRoot p
Stands p (d ∷ ds) = AtDir p (d ∷ ds)

above :
    (p : DirPath) (dirs : List (List ℕ)) (c : List ℕ)
    → AtDir p (dirs ++ c ∷ [])
    → IsName c
    → back p.real_dir p.at ≡ length (names dirs)
unfolding AtDir
above p dirs c v n =
    let path : p.real_dir ≡ names dirs ++ 47 ∷ c = v.0 ∙ names-snoc dirs c in
    let at : p.at ≡ length (names dirs) + suc (length c) =
      v.1 ∙ ap length (names-snoc dirs c) ∙ length-append (names dirs) (47 ∷ c) in
    rw (path, at) (back-name (names dirs) c (suc (length c)) n.1)

-- From a directory below the root, ".." leads to the directory above.
go_up-Stands :
    (p : DirPath) (dirs : List (List ℕ)) (c : List ℕ)
    → AtDir p (dirs ++ c ∷ [])
    → IsName c
    → Stands (go_up p) dirs
unfolding go_up Stands AtDir AtRoot names
go_up-Stands p [] c v n =
    let root : back p.real_dir p.at ≡ 0 = above p [] c v n in rw (go_up, root) (refl, inl refl)
go_up-Stands p (d ∷ ds) c v n =
    let up : back p.real_dir p.at ≡ length (names (d ∷ ds)) = above p (d ∷ ds) c v n in
    let path : p.real_dir ≡ names (d ∷ ds) ++ 47 ∷ c = v.0 ∙ names-snoc (d ∷ ds) c in
    let test : (length (names (d ∷ ds)) == 0) ≡ false = ground arith in
    rw (go_up, up, test, path) (take-prefix (names (d ∷ ds)) (47 ∷ c), refl)

-- A name leads to the directory below.
go_down_root : (p : DirPath) (c : List ℕ) → AtRoot p → AtDir (go_down c p) (c ∷ [])
unfolding go_down AtRoot AtDir names
go_down_root p c (dir, inl z) =
    rw (go_down, dir, z)
      (ap (λ (l : List ℕ). 47 ∷ l) (sym (append-nil c)), omega (arith, length-append c []))
go_down_root p c (dir, inr z) =
    rw (go_down, dir, z)
      (ap (λ (l : List ℕ). 47 ∷ l) (sym (append-nil c)), omega (arith, length-append c []))

two_long : (d : List ℕ) (ds : List (List ℕ)) → IsName d → 1 < length (names (d ∷ ds))
unfolding names
two_long d ds n = omega (arith, n.0, length-append d (names ds))

go_down_dir :
    (p : DirPath) (d : List ℕ) (ds : List (List ℕ)) (c : List ℕ)
    → AtDir p (d ∷ ds)
    → IsName d
    → AtDir (go_down c p) (d ∷ ds ++ c ∷ [])
unfolding go_down AtDir
go_down_dir p d ds c v n =
    let xs = names (d ∷ ds) in
    let test : (length xs == 1) ≡ false = ground (arith, two_long d ds n) in
    let longer : length (names (d ∷ ds ++ c ∷ [])) ≡ length xs + suc (length c) =
      ap length (names-snoc (d ∷ ds) c) ∙ length-append xs (47 ∷ c) in
    rw (go_down, v.0, v.1, test)
      (
        ap (λ (l : List ℕ). (l ++ 47 ∷ []) ++ c) (take-all xs)
            ∙ append_assoc xs (47 ∷ []) c
            ∙ sym (names-snoc (d ∷ ds) c),
        omega (arith, longer),
      )

go_down-Stands :
    (p : DirPath) (dirs : List (List ℕ)) (c : List ℕ)
    → Stands p dirs
    → AllNames dirs
    → IsName c
    → AtDir (go_down c p) (dirs ++ c ∷ []) × Stands (go_up (go_down c p)) dirs
unfolding Stands
go_down-Stands p [] c v a n =
    let down = go_down_root p c v in (down, go_up-Stands (go_down c p) [] c down n)
go_down-Stands p (d ∷ ds) c v a n =
    let down = go_down_dir p d ds c v a.0 in (down, go_up-Stands (go_down c p) (d ∷ ds) c down n)

-- In the loop of `convert_to_full_path`, with the state at a directory, a component other than "." and
-- ".." leads to the directory of that name in it, ".." from there leads back to where the state was,
-- and "." leaves the state as it is.
pub component-Stands :
    (p : DirPath) (dirs : List (List ℕ)) (c : List ℕ)
    → Stands p dirs
    → AllNames dirs
    → IsName c
    → is_dots c ≡ false
    → is_dot c ≡ false
    → AtDir (component c p) (dirs ++ c ∷ [])
      × Stands (component (46 ∷ 46 ∷ []) (component c p)) dirs
      × (component (46 ∷ []) p ≡ p)
unfolding component
component-Stands p dirs c v a n x y =
    let (down, up) = go_down-Stands p dirs c v a n in rw (component, x, y) (down, up, refl)
