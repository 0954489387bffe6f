-- ===== src/Console/Cooked/Fifo.antt =====
-- The buffer of cooked characters is a queue.
use njuos.Prelude.{
  ℕ, zero, suc, ◌+◌, ◌-◌, ◌%◌, ◌<◌, ◌≡◌, ◌≢◌, refl, sym, ap, ap₂, ◌∙◌, List, [], ◌∷◌, ◌++◌,
  append_assoc, some, ◌==◌, update, update_ne, length, get_or, drop, length-append, true, false,
  arith, Bool-cases, inl, inr,
}
use njuos.Console.{cbuf_sz}
use njuos.Console.Cooked.{Cooked, get_loop, get_cooked, put_cooked, put_line}

-- The `n` characters from index `f` on, round the end of the array.
unfoldable pub window : (ℕ → ℕ) → (f n : ℕ) → List ℕ
window cbuf f zero = []
window cbuf f (suc n) = cbuf f ∷ window cbuf ((f + 1) % cbuf_sz) n

-- How many there are, and which.
abbrev pub size : Cooked → ℕ
size c = (c.r + cbuf_sz - c.f) % cbuf_sz

abbrev pub contents : Cooked → List ℕ
contents c = window c.cbuf c.f (size c)

pub record IsCooked (c : Cooked) : Type 0 where
  pub f_in : c.f < cbuf_sz
  pub r_in : c.r < cbuf_sz

window-update :
    (cbuf : ℕ → ℕ) (n f r ch : ℕ)
    → f < cbuf_sz
    → n < cbuf_sz
    → r ≡ (f + n) % cbuf_sz
    → window (update cbuf r ch) f (suc n) ≡ window cbuf f n ++ ch ∷ []
unfolding window
window-update cbuf zero f r ch p q e =
    let same : r ≡ f = omega arith in ap (λ x. x ∷ []) (ground arith)
window-update cbuf (suc n) f r ch p q e =
    let apart : r ≢ f = omega arith in
    ap₂ ◌∷◌ (update_ne cbuf r ch f apart)
      (window-update cbuf n ((f + 1) % cbuf_sz) r ch (omega arith) (omega arith) (omega arith))

-- With room for one more, a character goes to the end of the queue.
put_cooked_lem :
    (ch : ℕ) (c : Cooked)
    → IsCooked c
    → size c < cbuf_sz - 1
    → (c' : Cooked) × (put_cooked ch c ≡ some c')
      × (contents c' ≡ contents c ++ ch ∷ [])
      × (size c' ≡ size c + 1)
      × IsCooked c'
      × (c'.rstk ≡ c.rstk)
unfolding put_cooked
put_cooked_lem ch c v h =
    let room : ((c.r + 1) % cbuf_sz == c.f) ≡ false = ground (arith, v.f_in, v.r_in) in
    let grown : ((c.r + 1) % cbuf_sz + cbuf_sz - c.f) % cbuf_sz ≡ suc (size c) =
      omega (arith, v.f_in, v.r_in) in
    (
      record c { cbuf = update c.cbuf c.r ch; r = (c.r + 1) % cbuf_sz },
      rw room refl,
      rw grown (
          window-update c.cbuf (size c) c.f c.r ch v.f_in (omega arith)
            (omega (arith, v.f_in, v.r_in))),
      grown ∙ omega arith,
      record { f_in = v.f_in; r_in = omega arith },
      refl,
    )

put_line_step :
    (ch : ℕ) (line : List ℕ) (c c' : Cooked)
    → put_cooked ch c ≡ some c'
    → put_line (ch ∷ line) c ≡ put_line line c'
unfolding put_line
put_line_step ch line c c' e = rw (put_line, e) refl

-- With room for a line and its NUL, the loop of `cook` does not panic: it puts the line and its NUL
-- behind what is there, and the reads that wait are as before.
pub put_line_lem :
    (line : List ℕ) (c : Cooked)
    → IsCooked c
    → size c + length line + 1 < cbuf_sz
    → (c' : Cooked) × (put_line line c ≡ some c')
      × (contents c' ≡ contents c ++ (line ++ 0 ∷ []))
      × (size c' ≡ size c + length line + 1)
      × IsCooked c'
      × (c'.rstk ≡ c.rstk)
unfolding put_line
put_line_lem [] c v h =
    let (c', e, q, n, w, s) = put_cooked_lem 0 c v (omega arith) in
    (c', e, q, omega (arith, n), w, s)
put_line_lem (ch ∷ line) c v h =
    let (c1, e1, q1, n1, v1, s1) = put_cooked_lem ch c v (omega arith) in
    let (c2, e2, q2, n2, v2, s2) = put_line_lem line c1 v1 (omega (arith, n1)) in
    (
      c2,
      put_line_step ch line c c1 e1 ∙ e2,
      q2
          ∙ ap (λ (l : List ℕ). l ++ (line ++ 0 ∷ [])) q1
          ∙ append_assoc (contents c) (ch ∷ []) (line ++ 0 ∷ []),
      omega (arith, n1, n2),
      v2,
      s2 ∙ s1,
    )

-- All characters are there, none is the NUL.
abbrev pub NoNul : List ℕ → Type 0
NoNul [] = Unit {0}
NoNul (ch ∷ chs) = (ch ≢ 0) × NoNul chs

-- The first character of the queue stands at `f`, the others behind it.
uncons :
    (c : Cooked) (x : ℕ) (xs : List ℕ)
    → IsCooked c
    → contents c ≡ x ∷ xs
    → (c.cbuf c.f ≡ x) × (contents (record c { f = (c.f + 1) % cbuf_sz }) ≡ xs)
unfolding window
uncons c x xs v e = elim (Bool-cases (size c == 0)) [
  | inl z ↦
      let none_left : size c ≡ 0 = ground arith in
      let empty : [] ≡ x ∷ xs = ap (window c.cbuf c.f) (sym none_left) ∙ e in
      absurd (zero_ne (ap length empty))
  | inr z ↦
      let some_left : size c ≢ 0 = ground arith in
      let rest = (c.r + cbuf_sz - (c.f + 1) % cbuf_sz) % cbuf_sz in
      let more : suc rest ≡ size c = omega (arith, v.f_in, v.r_in) in
      let split : c.cbuf c.f ∷ window c.cbuf ((c.f + 1) % cbuf_sz) rest ≡ x ∷ xs =
        ap (window c.cbuf c.f) more ∙ e in
      (ap (λ (l : List ℕ). get_or l 0 0) split, ap (drop 1) split)
]
  where
    zero_ne : {n : ℕ} → 0 ≢ suc n
    zero_ne q = absurd (omega arith)

-- A read takes the first line.
get_loop_line :
    (line rest : List ℕ) (count : ℕ) (c : Cooked)
    → IsCooked c
    → NoNul line
    → length line < count
    → contents c ≡ line ++ 0 ∷ rest
    → ((get_loop count c).0 ≡ line) × (contents (get_loop count c).1 ≡ rest)
unfolding get_loop
get_loop_line line rest zero c v n h e = absurd (omega arith)
get_loop_line [] rest (suc count) c v n h e =
    let (first, left) = uncons c 0 rest v e in
    let test : (c.cbuf c.f == 0) ≡ true = ground arith in rw (get_loop, test) (refl, left)
get_loop_line (ch ∷ line) rest (suc count) c v n h e =
    let (first, left) = uncons c ch (line ++ 0 ∷ rest) v e in
    let test : (c.cbuf c.f == 0) ≡ false = ground (arith, n.0) in
    let (chars, after) =
      get_loop_line line rest count (record c { f = (c.f + 1) % cbuf_sz })
        (record { f_in = omega arith; r_in = v.r_in }) n.1 (omega arith) left in
    rw (get_loop, test) (ap₂ ◌∷◌ first chars, after)

filled : (c : Cooked) (line rest : List ℕ) → contents c ≡ line ++ 0 ∷ rest → (c.f == c.r) ≡ false
unfolding window
filled c line rest e = elim (Bool-cases (c.f == c.r)) [
  | inl q ↦
      let same : c.f ≡ c.r = ground arith in
      let empty : size c ≡ 0 = omega arith in
      let short : 0 ≡ length (line ++ 0 ∷ rest) =
        ap length (ap (window c.cbuf c.f) (sym empty) ∙ e) in
      absurd (omega (arith, short, length-append line (0 ∷ rest)))
  | inr q ↦ q
]

-- The terminal gives back its lines in order: with a line in the buffer, `get_cooked` for more
-- characters than it has returns the first line without its NUL, and the lines behind it stay.
pub get_cooked_line :
    (line rest : List ℕ) (count : ℕ) (c : Cooked)
    → IsCooked c
    → NoNul line
    → length line < count
    → contents c ≡ line ++ 0 ∷ rest
    → (c' : Cooked) × (get_cooked count c ≡ some (line, c')) × (contents c' ≡ rest)
unfolding get_cooked
get_cooked_line line rest count c v n h e =
    let (chars, after) = get_loop_line line rest count c v n h e in
    let test : (c.f == c.r) ≡ false = filled c line rest e in
    (
      (get_loop count c).1,
      rw (get_cooked, test) (ap (λ l. some (l, (get_loop count c).1)) chars),
      after,
    )
