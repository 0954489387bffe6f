-- ===== src/ListHead.antt =====
-- include/adt/list.h: the intrusive doubly linked circular lists. A `ListHead` is an address, NULL is
-- address 0, and the two pointers of every node are kept in a heap; `none` is a failed assertion.
pub mod Ring
pub mod Moves
use njuos.Prelude.{ℕ, Bool, true, false, ◌&&◌, not, Option, none, some, ◌==◌, if◌then◌else◌, update}

pub record Heap : Type 0 where
  pub prev : ℕ → ℕ
  pub next : ℕ → ℕ

abbrev pub null : ℕ
null = 0

pub set_prev : Heap → ℕ → ℕ → Heap
set_prev h p v = record h { prev = update h.prev p v }

pub set_next : Heap → ℕ → ℕ → Heap
set_next h p v = record h { next = update h.next p v }

-- `list_add(prev, next, data)`
pub list_add : ℕ → ℕ → ℕ → Heap → Option Heap
unfolding set_prev set_next
list_add prev next node h =
    if node == null
    then none
    else (let h1 = set_prev h node prev in
        let h2 = set_next h1 node next in
        let h3 = if prev == null then h2 else set_next h2 prev node in
        some (if next == null then h3 else set_prev h3 next node))

pub list_add_before : ℕ → ℕ → Heap → Option Heap
unfolding list_add
list_add_before list node h = if list == null then none else list_add (h.prev list) list node h

pub list_add_after : ℕ → ℕ → Heap → Option Heap
unfolding list_add
list_add_after list node h = if list == null then none else list_add list (h.next list) node h

-- The two assertions check the neighbours, which are not NULL then.
pub list_del : ℕ → Heap → Option Heap
unfolding set_prev set_next
list_del node h =
    if node == null
    then none
    else (if not (h.prev node == null) && (h.next (h.prev node) == node)
        then (if not (h.next node == null) && (h.prev (h.next node) == node)
            then some
                (set_prev (set_next h (h.prev node) (h.next node)) (h.next node) (h.prev node))
            else none)
        else none)

pub list_init : ℕ → Heap → Option Heap
unfolding set_prev set_next
list_init list h = if list == null then none else some (set_prev (set_next h list list) list list)

pub list_empty : ℕ → Heap → Option Bool
list_empty list h = if list == null then none else some (list == h.next list)
