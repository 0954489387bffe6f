-- ===== src/Process/Pool/Partition.antt =====
-- Each process is in one list, and those in `free_pcb` are the ones that are not used.
use njuos.Prelude.{
  ℕ, ◌+◌, ◌<◌, ◌≡◌, ◌≢◌, refl, sym, ap, ◌∙◌, List, [], ◌∷◌, some, arith, ltb, ◌==◌, if◌then◌else◌,
  false, ◌⊎◌, inl, inr, update, update_self, update_ne,
}
use njuos.Message.{pool_num}
use njuos.Process.Counts.{count}
use njuos.Process.Pool.{Pool, Pcb, take_pcb, enlist, child_pcb, start_fork, finish_fork, fork}
use njuos.Process.Pool.Held.{busy, IsHeld, taken, kept, enlisted}

pub record IsPool (s : Pool) : Type 0 where
  pub placed : (p : ℕ) → count p s.free + busy p s.procs ≡ (if ltb p pool_num then 1 else 0)
  pub used : (p : ℕ) → p < pool_num → (s.pcb p).is_used ≡ (count p s.free == 0)

-- That is the case in which nothing is held.
IsPool-IsHeld : (s : Pool) → IsPool s → IsHeld [] s
IsPool-IsHeld s v = record {
  placed = λ p. omega (arith, v.placed p);
  used = λ p h. ground (arith, v.used p h);
}

pub IsHeld-IsPool : (s : Pool) → IsHeld [] s → IsPool s
IsHeld-IsPool s v = record {
  placed = λ p. omega (arith, v.placed p);
  used = λ p h. ground (arith, v.used p h);
}

free-cases : (xs : List ℕ) → (xs ≡ []) ⊎ ((p : ℕ) × (rest : List ℕ) × (xs ≡ p ∷ rest))
free-cases [] = inl refl
free-cases (p ∷ rest) = inr (p, rest, refl)

-- What a child gets from its parent.
pub record IsChild (s : Pool) (parent child : ℕ) (t : Pool) : Type 0 where
  pub fresh : (s.pcb child).is_used ≡ false
  pub in_range : child < pool_num
  pub ppid : (t.pcb child).ppid ≡ parent
  pub answer : (t.pcb child).frame ≡ record (s.pcb parent).frame { eax = 0 }
  pub directory : (t.pcb child).current_dir ≡ (s.pcb parent).current_dir
  pub others : (q : ℕ) → q ≢ child → t.pcb q ≡ s.pcb q

-- With a free process, `fork` succeeds and keeps the partition of the processes. The child was not used;
-- it has the directory and the registers of its parent, but for the 0 that `fork` returns in it, and it
-- knows its parent; no other process changes.
pub fork-IsPool :
    (parent : ℕ) (s : Pool)
    → IsPool s
    → s.free ≢ []
    → (child : ℕ) × (t : Pool) × (fork parent s ≡ some (child, t))
      × IsPool t
      × IsChild s parent child t
unfolding fork start_fork finish_fork take_pcb enlist child_pcb
fork-IsPool parent s v room = elim (free-cases s.free) [
  | inl e ↦ absurd (room e)
  | inr (p, rest, e) ↦
      let (held, in_range, fresh) = taken [] s p rest e (IsPool-IsHeld s v) in
      let frame = record (s.pcb parent).frame { eax = 0 } in
      let copied : Pcb = record (s.pcb p) { frame = frame } in
      let s1 : Pool = record s { free = rest; pcb = update s.pcb p copied } in
      let child : Pcb = child_pcb parent (s1.pcb parent) (s1.pcb p) in
      let held1 = kept (p ∷ []) (record s { free = rest }) p copied refl held in
      let own : (s1.pcb p) ≡ copied = update_self s.pcb p copied in
      let last : (update s1.pcb p child) p ≡ child = update_self s1.pcb p child in
      (
        p,
        enlist p (record s1 { pcb = update s1.pcb p child }),
        rw e refl,
        IsHeld-IsPool _ (enlisted [] s1 p child refl held1),
        record {
          fresh = fresh;
          in_range = in_range;
          ppid = ap (λ (c : Pcb). c.ppid) last;
          answer = ap (λ (c : Pcb). c.frame) last ∙ ap (λ (c : Pcb). c.frame) own;
          directory = ap (λ (c : Pcb). c.current_dir) last ∙ ground arith;
          others = λ q ne.
              update_ne s1.pcb p child q (λ z. ne (sym z))
              ∙ update_ne s.pcb p copied q (λ z. ne (sym z));
        },
      )
]
