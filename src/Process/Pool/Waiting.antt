-- ===== src/Process/Pool/Waiting.antt =====
-- A parent that waits and a child that ends, in both orders.
use njuos.Prelude.{ℕ, ◌<◌, ◌≡◌, none, some, true, false, arith}
use njuos.Message.{pool_num}
use njuos.Process.Pool.{Pool, retire, exit, handle_waitpid}

-- Of a child that is used and for which nobody waits: where its parent waits first, it is not answered,
-- and is sent the status when the child ends; where the child ends first, nobody is sent the status, and
-- the parent that waits then is answered with -1.
pub handle_waitpid-exit :
    (parent child status : ℕ) (s : Pool)
    → child < pool_num
    → (s.pcb child).ppid ≡ parent
    → (s.pcb child).is_used ≡ true
    → (s.pcb child).parent_wait ≡ false
    → let waiting = handle_waitpid parent child s in
      let ended = exit child status s in
      (waiting.0 ≡ true)
      × ((exit child status waiting.1).0 ≡ some (parent, status))
      × (ended.0 ≡ none)
      × (handle_waitpid parent child ended.1 ≡ (false, ended.1))
unfolding handle_waitpid exit retire
handle_waitpid-exit parent child status s lt e u w =
    (ground arith, ground arith, ground arith, ground arith)
