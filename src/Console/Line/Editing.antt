-- ===== src/Console/Line/Editing.antt =====
-- The line that the editor holds.
use njuos.Prelude.{
  ℕ, zero, suc, ◌+◌, ◌-◌, ◌≤◌, ◌<◌, ◌≡◌, ◌≢◌, refl, sym, ap, ◌∙◌, true, false, ◌==◌, arith,
  Bool-cases, inl, inr,
}
use njuos.Console.{lbuf_sz}
use njuos.Console.Line.{Line, movl, movr, home, end, feed_key, k_home, k_end}

-- `lbuf` holds a line of `n` characters, and `i` is inside it or at its end.
pub record IsLine (c : Line) (n : ℕ) : Type 0 where
  pub characters : (k : ℕ) → k < n → c.lbuf k ≢ 0
  pub ended : c.lbuf n ≡ 0
  pub inside : c.i ≤ n

-- What `movl` and `movr` do where they move.
left_one : (c : Line) → Line
left_one c = record c { i = c.i - 1; screen = record c.screen { pos = c.screen.pos - 1 } }

right_one : (c : Line) → Line
right_one c = record c { i = c.i + 1; screen = record c.screen { pos = c.screen.pos + 1 } }

-- The states that differ in `i` and the cursor only.
record Moved (c c' : Line) (i pos : ℕ) : Type 0 where
  at : c'.i ≡ i
  cursor : c'.screen.pos ≡ pos
  text : c'.lbuf ≡ c.lbuf

home_lem : (fuel : ℕ) (c : Line) → c.i < fuel → Moved c (home fuel c) 0 (c.screen.pos - c.i)
unfolding home movl left_one
home_lem zero c h = absurd (omega arith)
home_lem (suc fuel) c h = elim (Bool-cases (c.i == 0)) [
  | inl e ↦
      let zero_at : c.i ≡ 0 = ground arith in
      rw (home, movl, e) (record { at = zero_at; cursor = omega arith; text = refl })
  | inr e ↦
      let more : c.i ≢ 0 = ground arith in
      let r = home_lem fuel (left_one c) (omega arith) in
      rw (home, movl, e) (record { at = r.at; cursor = r.cursor ∙ omega arith; text = r.text })
]

end_lem :
    (fuel n : ℕ) (c : Line)
    → IsLine c n
    → n - c.i < fuel
    → Moved c (end fuel c) n (c.screen.pos + (n - c.i))
unfolding end movr right_one
end_lem zero n c v h = absurd (omega arith)
end_lem (suc fuel) n c v h = elim (Bool-cases (c.i == n)) [
  | inl e ↦
      let same : c.i ≡ n = ground arith in
      let stop : (c.lbuf c.i == 0) ≡ true = rw (ap c.lbuf same ∙ v.ended) refl in
      rw (end, movr, stop) (record { at = same; cursor = omega arith; text = refl })
  | inr e ↦
      let less : c.i < n = ground (arith, v.inside) in
      let go : (c.lbuf c.i == 0) ≡ false = ground (arith, v.characters c.i less) in
      let w : IsLine (right_one c) n = record {
        characters = v.characters;
        ended = v.ended;
        inside = omega arith;
      } in
      let r = end_lem fuel n (right_one c) w (omega arith) in
      rw (end, movr, go) (record { at = r.at; cursor = r.cursor ∙ omega arith; text = r.text })
]

-- In a line of `n` characters that fits in its buffer, with the cursor far enough from the start of
-- the screen, the key Home brings `i` to 0 and the cursor as far to the left, and End then brings `i`
-- behind the last character and the cursor `n` to the right; neither changes the line.
pub home_end :
    (n : ℕ) (c : Line)
    → IsLine c n
    → n < lbuf_sz
    → c.i ≤ c.screen.pos
    → let c1 = feed_key k_home c in
      let c2 = feed_key k_end c1 in
      (c1.i ≡ 0)
      × (c1.screen.pos + c.i ≡ c.screen.pos)
      × (c2.i ≡ n)
      × (c2.screen.pos + c.i ≡ c.screen.pos + n)
      × (c2.lbuf ≡ c.lbuf)
unfolding feed_key
home_end n c v h p =
    let c1 = home (lbuf_sz + 1) c in
    let r = home_lem (lbuf_sz + 1) c (omega (arith, v.inside)) in
    let w : IsLine c1 n = record {
      characters = λ k lt q. v.characters k lt (ap (λ (f : ℕ → ℕ). f k) (sym r.text) ∙ q);
      ended = ap (λ (f : ℕ → ℕ). f n) r.text ∙ v.ended;
      inside = omega (arith, r.at);
    } in
    let e = end_lem (lbuf_sz + 1) n c1 w (omega arith) in
    (r.at, omega (arith, r.cursor), e.at, omega (arith, r.cursor, e.cursor, r.at), e.text ∙ r.text)
