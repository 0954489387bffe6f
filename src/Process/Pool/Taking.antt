-- ===== src/Process/Pool/Taking.antt =====
-- Whatever takes the first process of `free_pcb`: it is held, until it is enlisted.
use njuos.Prelude.{ℕ, ◌≡◌, refl, sym, ◌∙◌, List, [], ◌∷◌, ◌⊎◌, inl, inr, none, some, subst, update}
use njuos.Process.Pool.{Pool, Pcb, take_pcb, enlist, enroll, thread_pcb, create_kthread, start_fork}
use njuos.Process.Pool.Held.{IsHeld, taken, kept, enlisted}

taken-cases :
    (s : Pool)
    → (take_pcb s ≡ none)
      ⊎ ((p : ℕ) × (rest : List ℕ) × (s.free ≡ p ∷ rest)
          × (take_pcb s ≡ some (p, record s { free = rest })))
unfolding take_pcb
taken-cases s = go s.free refl
  where
    go :
        (xs : List ℕ)
        → s.free ≡ xs
        → (take_pcb s ≡ none)
          ⊎ ((p : ℕ) × (rest : List ℕ) × (s.free ≡ p ∷ rest)
              × (take_pcb s ≡ some (p, record s { free = rest })))
    go [] e = inl (rw e refl)
    go (p ∷ rest) e = inr (p, rest, e, rw e refl)

pub take_pcb-IsHeld :
    (h : List ℕ) (s t : Pool) (p : ℕ) → IsHeld h s → take_pcb s ≡ some (p, t) → IsHeld (p ∷ h) t
take_pcb-IsHeld h s t p v e = elim (taken-cases s) [
  | inl z ↦ absurd (cc (z, e))
  | inr (q, rest, z, w) ↦
      let at_q : q ≡ p = cc (w, e) in
      let there : record s { free = rest } ≡ t = cc (w, e) in
      subst (λ x. IsHeld (x ∷ h) t) at_q (subst (IsHeld (q ∷ h)) there (taken h s q rest z v).0)
]

pub create_kthread-IsHeld :
    (h : List ℕ) (wrap tf p : ℕ) (s t : Pool)
    → IsHeld h s
    → create_kthread wrap tf s ≡ some (p, t)
    → IsHeld h t
unfolding create_kthread enroll thread_pcb
create_kthread-IsHeld h wrap tf p s t v e = elim (taken-cases s) [
  | inl z ↦
      absurd (let w : none ≡ some (p, t) = sym (rw (create_kthread, enroll, z) refl) ∙ e in cc (w))
  | inr (q, rest, z, w) ↦
      let u : IsHeld (q ∷ h) (record s { free = rest }) = (taken h s q rest z v).0 in
      let made = enlisted h (record s { free = rest }) q (thread_pcb wrap tf (s.pcb q)) refl u in
      let t' : Pool =
        enlist q (record s { free = rest; pcb = update s.pcb q (thread_pcb wrap tf (s.pcb q)) }) in
      let there : some (q, t') ≡ some (p, t) = sym (rw (create_kthread, enroll, w) refl) ∙ e in
      let same : t' ≡ t = cc (there) in subst (IsHeld h) same made
]

pub start_fork-IsHeld :
    (h : List ℕ) (parent p : ℕ) (s t : Pool)
    → IsHeld h s
    → start_fork parent s ≡ some (p, t)
    → IsHeld (p ∷ h) t
unfolding start_fork
start_fork-IsHeld h parent p s t v e = elim (taken-cases s) [
  | inl z ↦ absurd (let w : none ≡ some (p, t) = sym (rw (start_fork, z) refl) ∙ e in cc (w))
  | inr (q, rest, z, w) ↦
      let u : IsHeld (q ∷ h) (record s { free = rest }) = (taken h s q rest z v).0 in
      let copied : Pcb = record (s.pcb q) { frame = record (s.pcb parent).frame { eax = 0 } } in
      let s1 : Pool = record s { free = rest; pcb = update s.pcb q copied } in
      let made : IsHeld (q ∷ h) s1 = kept (q ∷ h) (record s { free = rest }) q copied refl u in
      let there : some (q, s1) ≡ some (p, t) = sym (rw (start_fork, w) refl) ∙ e in
      let at_q : q ≡ p = cc (there) in
      let same : s1 ≡ t = cc (there) in
      subst (λ x. IsHeld (x ∷ h) t) at_q (subst (IsHeld (q ∷ h)) same made)
]
