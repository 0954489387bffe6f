-- ===== src/Interrupts/Handlers.antt =====
-- The handlers of an interrupt are called, the last that was added first.
use njuos.Prelude.{
  ℕ, zero, suc, ◌+◌, ◌-◌, ◌≤◌, ◌<◌, ◌≡◌, refl, ap, ◌∙◌, List, [], ◌∷◌, Option, none, some, arith,
  ltb, ◌==◌, update, update_self, update_ne, length, Bool-cases, inl, inr, true, false,
}
use njuos.Prelude.Int.{pos}
use njuos.Interrupts.{
  nr_irq_handle, nr_hard_intr, Irq, Irqs, Registration, done, panics, beyond, add_irq_handle,
  routines_from, routines, calls, irq_handle,
}

-- From a head the pool leads through the routines of a list, each node below the one before.
abbrev Chain : (pool : ℕ → Irq) → (bound : ℕ) → Option ℕ → List ℕ → Type 0
Chain pool bound none [] = Unit {0}
Chain pool bound none (f ∷ fs) = ⊥
Chain pool bound (some i) [] = ⊥
Chain pool bound (some i) (f ∷ fs) =
    (i < bound) × ((pool i).routine ≡ f) × Chain pool i (pool i).next fs

Chain-le :
    (pool : ℕ → Irq) (m n : ℕ) (head : Option ℕ) (fs : List ℕ)
    → m ≤ n
    → Chain pool m head fs
    → Chain pool n head fs
Chain-le pool m n none [] h c = tt
Chain-le pool m n none (f ∷ fs) h c = c
Chain-le pool m n (some i) [] h c = c
Chain-le pool m n (some i) (f ∷ fs) h c = (omega (arith, c.0), c.1, c.2)

-- A node from the bound on may change.
Chain-update :
    (pool : ℕ → Irq) (k : ℕ) (node : Irq) (bound : ℕ) (head : Option ℕ) (fs : List ℕ)
    → bound ≤ k
    → Chain pool bound head fs
    → Chain (update pool k node) bound head fs
Chain-update pool k node bound none [] h c = tt
Chain-update pool k node bound none (f ∷ fs) h c = c
Chain-update pool k node bound (some i) [] h c = c
Chain-update pool k node bound (some i) (f ∷ fs) h c =
    let same : update pool k node i ≡ pool i = update_ne pool k node i (λ e. omega (arith, c.0)) in
    (
      c.0,
      ap (λ x. x.routine) same ∙ c.1,
      rw same (Chain-update pool k node i (pool i).next fs (omega (arith, c.0)) c.2),
    )

routines_from-Chain :
    (pool : ℕ → Irq) (fuel : ℕ) (head : Option ℕ) (fs : List ℕ)
    → Chain pool fuel head fs
    → routines_from pool fuel head ≡ fs
unfolding routines_from
routines_from-Chain pool fuel none [] c = refl
routines_from-Chain pool fuel none (f ∷ fs) c = absurd c
routines_from-Chain pool fuel (some i) [] c = absurd c
routines_from-Chain pool zero (some i) (f ∷ fs) c = elim c.0 [ ]
routines_from-Chain pool (suc fuel) (some i) (f ∷ fs) c = rw c.1 (
    ap (◌∷◌ f) (
      routines_from-Chain pool fuel (pool i).next fs
        (Chain-le pool i fuel (pool i).next fs (omega (arith, c.0)) c.2)))

-- The pool holds, for each interrupt, the routines of a list.
pub record Holds (s : Irqs) (fs : ℕ → List ℕ) : Type 0 where
  pub chain : (irq : ℕ) → Chain s.handle_pool s.handle_count (s.handles irq) (fs irq)

-- The routines of each interrupt behind a sequence of registrations, the last first.
unfoldable pub registered : List (ℕ × ℕ) → (ℕ → List ℕ) → ℕ → List ℕ
registered [] fs = fs
registered ((irq, func) ∷ rs) fs = registered rs (update fs irq (func ∷ fs irq))

abbrev pub Valid : List (ℕ × ℕ) → Type 0
Valid [] = Unit {0}
Valid ((irq, func) ∷ rs) = (irq < nr_hard_intr) × Valid rs

-- The registrations one after the other, as long as they are done.
unfoldable pub add_all : List (ℕ × ℕ) → Irqs → Registration
add_all [] s = done s
add_all ((irq, func) ∷ rs) s = elim (add_irq_handle irq func s) [
  | done s' ↦ add_all rs s'
  | panics ↦ panics
  | beyond ↦ beyond
]

module _ (irq func : ℕ) (s : Irqs) (fs : ℕ → List ℕ) (h : Holds s fs)
    (room : s.handle_count < nr_irq_handle) where
  abbrev added : Irqs
  added = record {
    handle_pool =
        update s.handle_pool s.handle_count (record { routine = func; next = s.handles irq });
    handles = update s.handles irq (some s.handle_count);
    handle_count = s.handle_count + 1;
  }

  added-result : irq < nr_hard_intr → add_irq_handle irq func s ≡ done added
  unfolding add_irq_handle
  added-result lt = ground arith

  added-Holds : Holds added (update fs irq (func ∷ fs irq))
  added-Holds = record {
    chain = λ k. elim (Bool-cases (irq == k)) [
      | inl t ↦ rw t (
        omega arith,
        ap (λ x. x.routine) here,
        rw here (
            Chain-update s.handle_pool s.handle_count node s.handle_count (s.handles irq) (fs irq)
              (omega arith) (h.chain irq)),
      )
      | inr t ↦ rw t (
          Chain-le (update s.handle_pool s.handle_count node) s.handle_count (s.handle_count + 1)
            (s.handles k) (fs k) (omega arith)
            (Chain-update s.handle_pool s.handle_count node s.handle_count (s.handles k) (fs k)
              (omega arith) (h.chain k)))
    ];
  }
    where
      node : Irq
      node = record { routine = func; next = s.handles irq }

      here : update s.handle_pool s.handle_count node s.handle_count ≡ node
      here = update_self s.handle_pool s.handle_count node

add_all-Holds :
    (rs : List (ℕ × ℕ)) (s : Irqs) (fs : ℕ → List ℕ)
    → Holds s fs
    → Valid rs
    → s.handle_count + length rs ≤ nr_irq_handle
    → (s' : Irqs) × (add_all rs s ≡ done s') × Holds s' (registered rs fs)
unfolding add_all registered
add_all-Holds [] s fs h v room = (s, refl, h)
add_all-Holds ((irq, func) ∷ rs) s fs h v room =
    let lt : s.handle_count < nr_irq_handle = omega arith in
    let (s', got, w) =
      add_all-Holds rs (added irq func s fs h lt) (update fs irq (func ∷ fs irq))
        (added-Holds irq func s fs h lt) v.1 (omega arith) in
    (s', rw (add_all, added-result irq func s fs h lt v.0) got, w)

-- With room in the pool for them, all registrations for the sixteen hardware interrupts are done, and an
-- interrupt then calls the routines that were added for it, those and no others, the last one first.
pub irq_handle-add_irq_handle :
    (rs : List (ℕ × ℕ)) (s : Irqs) (fs : ℕ → List ℕ) (irq pid eax ebx : ℕ)
    → Holds s fs
    → Valid rs
    → s.handle_count + length rs ≤ nr_irq_handle
    → irq < nr_hard_intr
    → (s' : Irqs) × (add_all rs s ≡ done s')
      × (irq_handle (pos (1000 + irq)) pid eax ebx s' ≡ calls (registered rs fs irq))
unfolding irq_handle routines
irq_handle-add_irq_handle rs s fs irq pid eax ebx h v room lt =
    let (s', got, w) = add_all-Holds rs s fs h v room in
    let list : routines_from s'.handle_pool s'.handle_count (s'.handles irq)
        ≡ registered rs fs irq =
      routines_from-Chain s'.handle_pool s'.handle_count (s'.handles irq) (registered rs fs irq)
        (w.chain irq) in
    let number : 1000 + irq - 1000 ≡ irq = omega arith in
    let a : (1000 + irq == 0x80) ≡ false = ground arith in
    let b : ltb (1000 + irq) 1000 ≡ false = ground arith in
    let c : ltb irq nr_hard_intr ≡ true = ground arith in (s', got, rw (a, b, number, c, list) refl)
