-- ===== src/FileSystem/Directories/Lookup.antt =====
-- The loop over a path against its components.
use njuos.Prelude.{
  ℕ, zero, suc, ◌+◌, ◌<◌, ◌≡◌, refl, ap, ◌∙◌, List, [], ◌∷◌, ◌++◌, Option, none, some, arith, ◌==◌,
  if◌then◌else◌, Bool-cases, Option-cases, inl, inr, length, length-append, sym,
}
use njuos.FileSystem.{Disk}
use njuos.FileSystem.Directories.{DirEntry, read_dir_entry, cut_path, find_path}

-- The components of a path: between its slashes, empty ones too.
components_rest : List ℕ × Option (List ℕ) → (List ℕ → List (List ℕ)) → List (List ℕ)
components_rest (name, none) k = name ∷ []
components_rest (name, some rest) k = name ∷ k rest

cons_first : ℕ → List (List ℕ) → List (List ℕ)
cons_first c [] = (c ∷ []) ∷ []
cons_first c (x ∷ xs) = (c ∷ x) ∷ xs

pub components : List ℕ → List (List ℕ)
components [] = [] ∷ []
components (c ∷ cs) = if c == 47 then [] ∷ components cs else cons_first c (components cs)

module _ (d : Disk) (buf : ℕ → ℕ) where
  -- One lookup for each name, each in the directory that the one before has found.
  pub follow : DirEntry → List (List ℕ) → Option DirEntry
  follow cur [] = some cur
  follow cur (name ∷ names) = elim (read_dir_entry d buf cur.index name) [
    | none ↦ none
    | some next ↦ follow next names
  ]

  follow-append :
      (xs ys : List (List ℕ)) (cur : DirEntry)
      → follow cur (xs ++ ys) ≡ (elim (follow cur xs) [ none ↦ none | some e ↦ follow e ys ])
  unfolding follow
  follow-append [] ys cur = refl
  follow-append (x ∷ xs) ys cur = elim (Option-cases (read_dir_entry d buf cur.index x)) [
    | inl e ↦ rw (follow, e) refl
    | inr (next, e) ↦ rw (follow, e) (follow-append xs ys next)
  ]

pub components_some :
    (path : List ℕ) → (x : List ℕ) × (rest : List (List ℕ)) × (components path ≡ x ∷ rest)
unfolding components cons_first
components_some [] = ([], [], refl)
components_some (c ∷ cs) = elim (Bool-cases (c == 47)) [
  | inl t ↦ ([], components cs, rw t refl)
  | inr t ↦ let (x, rest, e) = components_some cs in (c ∷ x, rest, rw (t, e) refl)
]

components_cut : (path : List ℕ) → components path ≡ components_rest (cut_path path) components
unfolding components cut_path components_rest cons_first
components_cut [] = refl
components_cut (c ∷ cs) = elim (Bool-cases (c == 47)) [
  | inl t ↦ rw t refl
  | inr t ↦ rw t (rw (components_cut cs) (prefix (cut_path cs)))
]
  where
    prefix :
        (r : List ℕ × Option (List ℕ))
        → cons_first c (components_rest r components) ≡ components_rest (c ∷ r.0, r.1) components
    prefix (name, none) = refl
    prefix (name, some rest) = refl

-- What is cut off makes the path shorter.
cut_path-lt :
    (path name rest : List ℕ) → cut_path path ≡ (name, some rest) → length rest < length path
unfolding cut_path
cut_path-lt [] name rest e = ground arith
cut_path-lt (c ∷ cs) name rest e = ground (arith, cut_path-lt cs (cut_path cs).0 rest)

module _ (d : Disk) (buf : ℕ → ℕ) where
  -- A round of the loop, with what has been cut off the path.
  round_follow :
      (fuel : ℕ) (cur : DirEntry) (r : List ℕ × Option (List ℕ))
      → ((next : DirEntry) (rest : List ℕ)
          → r.1 ≡ some rest
          → find_path d buf fuel next rest ≡ follow d buf next (components rest))
      → (elim (read_dir_entry d buf cur.index r.0) [
        | none ↦ none
        | some next ↦ elim r.1 [ none ↦ some next | some p ↦ find_path d buf fuel next p ]
      ])
        ≡ follow d buf cur (components_rest r components)
  unfolding follow components_rest
  round_follow fuel cur (name, none) ih =
      elim (Option-cases (read_dir_entry d buf cur.index name)) [
        | inl e ↦ rw (e, follow) refl
        | inr (next, e) ↦ rw (e, follow) refl
      ]
  round_follow fuel cur (name, some rest) ih =
      elim (Option-cases (read_dir_entry d buf cur.index name)) [
        | inl e ↦ rw (e, follow) refl
        | inr (next, e) ↦ rw (e, follow) (ih next rest refl)
      ]

  -- The loop has followed the components, with fuel for the characters of the path.
  find_path-follow :
      (fuel : ℕ) (cur : DirEntry) (path : List ℕ)
      → length path < fuel
      → find_path d buf fuel cur path ≡ follow d buf cur (components path)
  unfolding find_path
  find_path-follow zero cur path h = elim h [ ]
  find_path-follow (suc fuel) cur path h = rw (components_cut path) (
      round_follow fuel cur (cut_path path) (λ next rest e. find_path-follow fuel next rest (
        omega
          (arith, cut_path-lt path (cut_path path).0 rest (ap (λ o. ((cut_path path).0, o)) e)))))

components-append : (p q : List ℕ) → components (p ++ 47 ∷ q) ≡ components p ++ components q
unfolding components cons_first
components-append [] q = refl
components-append (c ∷ p) q = elim (Bool-cases (c == 47)) [
  | inl t ↦ rw (t, components-append p q) refl
  | inr t ↦ rw (t, components-append p q) (prefix (components p) (components_some p))
]
  where
    prefix :
        (xs : List (List ℕ))
        → (x : List ℕ) × (rest : List (List ℕ)) × (xs ≡ x ∷ rest)
        → cons_first c (xs ++ components q) ≡ cons_first c xs ++ components q
    prefix xs (x, rest, e) = rw e refl

-- With fuel for its characters, the loop of `read_inode` on a path that is two paths with a '/' between
-- them finds what the second leads to from where the first leads to, and nothing where either leads
-- nowhere.
pub find_path-append :
    (d : Disk) (buf : ℕ → ℕ) (cur : DirEntry) (p q : List ℕ) (fuel : ℕ)
    → length p + length q + 1 < fuel
    → find_path d buf fuel cur (p ++ 47 ∷ q)
      ≡ (elim (find_path d buf fuel cur p) [ none ↦ none | some e ↦ find_path d buf fuel e q ])
find_path-append d buf cur p q fuel h =
    let whole : length (p ++ 47 ∷ q) < fuel = omega (arith, length-append p (47 ∷ q)) in
    find_path-follow d buf fuel cur (p ++ 47 ∷ q) whole
    ∙ ap (follow d buf cur) (components-append p q)
    ∙ follow-append d buf (components p) (components q) cur
    ∙ rw (find_path-follow d buf fuel cur p (omega arith)) (ends (follow d buf cur (components p)))
  where
    ends :
        (o : Option DirEntry)
        → (elim o [ none ↦ none | some e ↦ follow d buf e (components q) ])
          ≡ (elim o [ none ↦ none | some e ↦ find_path d buf fuel e q ])
    ends none = refl
    ends (some e) = sym (find_path-follow d buf fuel e q (omega arith))
