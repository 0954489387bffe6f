-- ===== src/Ide/Driver/Serving.antt =====
-- The driver against a plain array of bytes.
use njuos.Prelude.{
  ℕ, zero, suc, ◌+◌, ◌%◌, ◌^◌, ◌≡◌, refl, sym, ap, ap₂, ◌∙◌, List, [], ◌∷◌, Option, none, some,
  length, arith, fun_ext, update, subst, Option-cases, inl, inr,
}
use njuos.Ide.{Ide, read_byte, write_byte}
use njuos.Ide.Coherence.{IsCoherent, view, read_byte_lem, write_byte_lem, cache_writeback_lem}
use njuos.Ide.Driver.{
  Request, read, write, writeback, ready, read_loop, write_loop, serve, serve_all,
}

-- The array: what a request answers and does, with no cache. An offset wraps at 32 bits.
unfoldable pub array_read : (ℕ → ℕ) → (offset n : ℕ) → List ℕ
array_read f offset zero = []
array_read f offset (suc n) = f (offset % 2 ^ 32) ∷ array_read f (offset + 1) n

unfoldable pub array_write : (offset : ℕ) → List ℕ → (ℕ → ℕ) → ℕ → ℕ
array_write offset [] f = f
array_write offset (byte ∷ bytes) f =
    array_write (offset + 1) bytes (update f (offset % 2 ^ 32) byte)

unfoldable pub array_serve : Request → (ℕ → ℕ) → Option ((List ℕ × ℕ) × (ℕ → ℕ))
array_serve (read offset len) f = some ((array_read f offset len, len), f)
array_serve (write offset bytes) f = some (([], length bytes), array_write offset bytes f)
array_serve writeback f = some (([], 0), f)
array_serve ready f = none

unfoldable pub array_all : List Request → (ℕ → ℕ) → Option (List (List ℕ × ℕ) × (ℕ → ℕ))
array_all [] f = some ([], f)
array_all (r ∷ rs) f = elim (array_serve r f) [
  | none ↦ none
  | some (a, f') ↦ elim (array_all rs f') [ none ↦ none | some (as', f'') ↦ some (a ∷ as', f'') ]
]

-- The state shows the array, and the cache is coherent.
pub record Shows (s : Ide) (f : ℕ → ℕ) : Type 0 where
  pub same : view s ≡ f
  pub coherent : IsCoherent s

read_loop-Shows :
    (n offset : ℕ) (s : Ide) (f : ℕ → ℕ)
    → Shows s f
    → ((read_loop n offset s).0 ≡ array_read f offset n) × Shows (read_loop n offset s).1 f
unfolding read_loop array_read
read_loop-Shows zero offset s f v = (refl, v)
read_loop-Shows (suc n) offset s f v =
    let (byte, kept, good) = read_byte_lem s v.coherent (offset % 2 ^ 32) in
    let w : Shows (read_byte (offset % 2 ^ 32) s).1 f = record {
      same = fun_ext kept ∙ v.same;
      coherent = good;
    } in
    let (bytes, x) = read_loop-Shows n (offset + 1) (read_byte (offset % 2 ^ 32) s).1 f w in
    (ap₂ ◌∷◌ (byte ∙ ap (λ g. g (offset % 2 ^ 32)) v.same) bytes, x)

write_loop-Shows :
    (offset : ℕ) (bytes : List ℕ) (s : Ide) (f : ℕ → ℕ)
    → Shows s f
    → Shows (write_loop offset bytes s) (array_write offset bytes f)
unfolding write_loop array_write
write_loop-Shows offset [] s f v = v
write_loop-Shows offset (byte ∷ bytes) s f v =
    let (changed, good) = write_byte_lem s v.coherent (offset % 2 ^ 32) byte in
    write_loop-Shows (offset + 1) bytes (write_byte (offset % 2 ^ 32) byte s)
      (update f (offset % 2 ^ 32) byte)
      (record {
        same = fun_ext changed ∙ ap (λ g. update g (offset % 2 ^ 32) byte) v.same;
        coherent = good;
      })

-- One request, with both results in one place.
abbrev Agrees : Option ((List ℕ × ℕ) × Ide) → Option ((List ℕ × ℕ) × (ℕ → ℕ)) → Type 0
Agrees none none = Unit
Agrees none (some b) = ⊥
Agrees (some a) none = ⊥
Agrees (some (a, s)) (some (b, f)) = (a ≡ b) × Shows s f

serve-Agrees :
    (r : Request) (s : Ide) (f : ℕ → ℕ) → Shows s f → Agrees (serve r s) (array_serve r f)
unfolding serve array_serve
serve-Agrees (read offset len) s f v =
    let (bytes, w) = read_loop-Shows len offset s f v in (ap (λ b. (b, len)) bytes, w)
serve-Agrees (write offset bytes) s f v = (refl, write_loop-Shows offset bytes s f v)
serve-Agrees writeback s f v = (
  refl,
  record {
    same = fun_ext (λ o. (cache_writeback_lem s v.coherent 0 (omega arith) o).2) ∙ v.same;
    coherent = (cache_writeback_lem s v.coherent 0 (omega arith) 0).3;
  },
)
serve-Agrees ready s f v = tt

-- One request that the array serves, by its result.
serve-array_serve :
    (r : Request) (s : Ide) (f g : ℕ → ℕ) (a : List ℕ × ℕ)
    → Shows s f
    → array_serve r f ≡ some (a, g)
    → (s' : Ide) × (serve r s ≡ some (a, s')) × Shows s' g
serve-array_serve r s f g a v e = both (serve r s) refl
  where
    both :
        (o : Option ((List ℕ × ℕ) × Ide))
        → serve r s ≡ o
        → (s' : Ide) × (serve r s ≡ some (a, s')) × Shows s' g
    both none q =
        let h : Agrees none (some (a, g)) =
          subst (λ o. Agrees none o) e
            (subst (λ o. Agrees o (array_serve r f)) q (serve-Agrees r s f v)) in
        absurd h
    both (some (b, s')) q =
        let h : Agrees (some (b, s')) (some (a, g)) =
          subst (λ o. Agrees (some (b, s')) o) e
            (subst (λ o. Agrees o (array_serve r f)) q (serve-Agrees r s f v)) in
        (s', q ∙ ap (λ c. some (c, s')) h.0, h.1)

-- From a coherent cache that shows an array of bytes, the driver serves every sequence of reads, writes
-- and write-backs as the array itself does, with the same answers and the same array shown behind it, and
-- the cache is coherent then.
pub serve_all-array_all :
    (rs : List Request) (s : Ide) (f g : ℕ → ℕ) (answers : List (List ℕ × ℕ))
    → Shows s f
    → array_all rs f ≡ some (answers, g)
    → (s' : Ide) × (serve_all rs s ≡ some (answers, s')) × Shows s' g
unfolding serve_all array_all
serve_all-array_all [] s f g answers v e =
    let p : [] ≡ answers = cc (e) in
    let q : f ≡ g = cc (e) in (s, ap (λ a. some (a, s)) p, subst (Shows s) q v)
serve_all-array_all (r ∷ rs) s f g answers v e = elim (Option-cases (array_serve r f)) [
  | inl z ↦ absurd (let h : none ≡ some (answers, g) = sym (rw (array_all, z) refl) ∙ e in cc (h))
  | inr ((a, f'), z) ↦
      let (s', got, w) = serve-array_serve r s f f' a v z in
      elim (Option-cases (array_all rs f')) [
        | inl y ↦
            absurd
              (let h : none ≡ some (answers, g) = sym (rw (array_all, z, y) refl) ∙ e in cc (h))
        | inr ((as', g'), y) ↦
            let h : some (a ∷ as', g') ≡ some (answers, g) = sym (rw (array_all, z, y) refl) ∙ e in
            let p : a ∷ as' ≡ answers = cc (h) in
            let q : g' ≡ g = cc (h) in
            let (t, all, x) = serve_all-array_all rs s' f' g' as' w y in
            (t, rw (serve_all, got, all) (ap (λ b. some (b, t)) p), subst (Shows t) q x)
      ]
]
