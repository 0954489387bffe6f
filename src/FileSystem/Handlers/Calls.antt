-- ===== src/FileSystem/Handlers/Calls.antt =====
-- System calls on files, from the library of a program to the file server and back.
use njuos.Prelude.{
  ℕ, ◌^◌, ◌<◌, ◌≡◌, refl, ap, ◌∙◌, List, Option, none, some, arith, length, true, ltb,
}
use njuos.Prelude.Int.{pos}
use njuos.Message.{Msg, pool_num}
use njuos.FileSystem.WriteData.Direct.{IsReady}
use njuos.FileSystem.Files.{Files, fd_entry, fm_lseek}
use njuos.FileSystem.Server.{FileServer, inode_of, writing, fm_read, fm_write}
use njuos.FileSystem.Server.Session.{fm_read-fm_write}
use njuos.FileSystem.Handlers.{
  System, Answer, answers, fills, Context, handle, fetch_pcb, set_files, ret_of, read_answer,
  seek_answer,
}
use njuos.SystemCalls.{do_syscall, Reply}
use njuos.SystemCalls.Library.{Call, read, write, lseek, registers_of, word_of}
use njuos.SystemCalls.Servers.{Handler, reads, writes, seeks}
use njuos.SystemCalls.Routes.{
  route, reaches, asserts, stays, route-do_syscall, IsWord, IsInt, Fits, meant,
}

word_of-pos : (n : ℕ) → n < 2 ^ 31 → word_of (pos n) ≡ n
unfolding word_of
word_of-pos n h = omega arith

-- The handlers on an open descriptor, from what the file server does.
module _ (c : Context) (pid fd : ℕ) (s : System) (p : pid < pool_num) where
  handle-writes :
      (from len : ℕ) (server : FileServer)
      → fm_write c.blocks c.tty_write pid fd (c.bytes_at pid from len) len s.server
        ≡ some (some len, server)
      → handle c (writes (pos pid) (pos pid) (pos fd) from (pos len)) s
        ≡ some (answers (pos len), record s { server = server })
  unfolding handle fetch_pcb ret_of
  handle-writes from len server e =
      let inside : ltb pid pool_num ≡ true = ground arith in rw (handle, inside, e) refl

  handle-seeks :
      (offset : ℕ) (files : Files)
      → offset < 2 ^ 31
      → fm_lseek pid fd offset 0 s.server.files ≡ some (true, files)
      → handle c (seeks (pos pid) (pos fd) (pos offset) (pos 0)) s
        ≡ some (answers (pos 0), set_files files s)
  unfolding handle fetch_pcb seek_answer
  handle-seeks offset files o e =
      let inside : ltb pid pool_num ≡ true = ground arith in
      rw (handle, inside, word_of-pos offset o, word_of-pos 0 (omega arith))
        (ap (λ r. seek_answer r s) e)

  handle-reads :
      (to len : ℕ) (bytes : List ℕ) (ret : ℕ) (server : FileServer)
      → fm_read c.tty_read pid fd len s.server ≡ some (some (bytes, ret), server)
      → handle c (reads (pos pid) (pos pid) (pos fd) to (pos len)) s
        ≡ some (fills (pos ret) bytes, record s { server = server })
  unfolding handle fetch_pcb read_answer
  handle-reads to len bytes ret server e =
      let inside : ltb pid pool_num ≡ true = ground arith in
      rw (handle, inside) (ap (λ r. read_answer r s) e)

-- `m` is the message on the stack before it is filled in, `beyond` what lies behind the arguments.
module _ (c : Context) (m : Msg) (text_len : ℕ → ℕ) (tf_addr : ℕ) (beyond : ℕ → ℕ) where
  -- A call of the library that goes to the file server: `do_syscall`, the message and its handler.
  unfoldable pub file_call : (pid : ℕ) → Call → System → Option (Answer × System)
  file_call pid call s =
      elim (route (do_syscall m text_len tf_addr pid (registers_of beyond call))) [
        | reaches h reply ↦ handle c h s
        | asserts ↦ none
        | stays o ↦ none
      ]

  file_call-handle :
      (pid : ℕ) (call : Call) (h : Handler) (reply : Reply) (s : System)
      → IsWord tf_addr
      → Fits call
      → meant text_len tf_addr pid call ≡ reaches h reply
      → file_call pid call s ≡ handle c h s
  unfolding file_call
  file_call-handle pid call h reply s t fits e =
      rw (file_call, route-do_syscall m text_len tf_addr pid beyond call t fits, e) refl

  -- Of a file on the disk that is open through a descriptor and stands at its end, inside the direct
  -- blocks even with what is written, whose blocks are its own and for which there are enough free ones:
  -- where a process calls write, then lseek back to where the descriptor stood, then read, the answers are
  -- the length, 0, and the length with the bytes that it wrote, all of them.
  pub read-write :
      (pid fd f from to len : ℕ) (s : System)
      → IsWord tf_addr
      → IsWord from
      → IsWord to
      → pid < pool_num
      → fd < 2 ^ 31
      → len < 2 ^ 31
      → (s.server.files.files f).offset < 2 ^ 31
      → fd_entry pid fd s.server.files ≡ some (some f)
      → (inode_of f s.server.files).dev_id ≡ 0
      → length (c.bytes_at pid from len) ≡ len
      → IsReady (writing c.blocks f (c.bytes_at pid from len) len s.server)
      → (s1 : System) × (file_call pid (write (pos fd) from (pos len)) s
          ≡ some (answers (pos len), s1))
        × (s2 : System) × (file_call pid
              (lseek (pos fd) (pos (s.server.files.files f).offset) (pos 0))
              s1
            ≡ some (answers (pos 0), s2))
        × (s3 : System) × (file_call pid (read (pos fd) to (pos len)) s2
            ≡ some (fills (pos len) (c.bytes_at pid from len), s3))
  unfolding meant Fits
  read-write pid fd f from to len s t a b p n l o e d w r =
      let buf = c.bytes_at pid from len in
      let offset = (s.server.files.files f).offset in
      let int_fd : IsInt (pos fd) = (n, omega arith) in
      let int_len : IsInt (pos len) = (l, omega arith) in
      let int_offset : IsInt (pos offset) = (o, omega arith) in
      let int_0 : IsInt (pos 0) = (omega arith, omega arith) in
      let (s1, wrote, files, sought, s2, got) =
        fm_read-fm_write c.blocks c.tty_read c.tty_write pid fd f buf len s.server e d r w in
      (
        record s { server = s1 },
        file_call-handle pid (write (pos fd) from (pos len)) _ _ s t (int_fd, a, int_len) refl
            ∙ handle-writes c pid fd s p from len s1 wrote,
        record s { server = record s1 { files = files } },
        file_call-handle pid (lseek (pos fd) (pos offset) (pos 0)) _ _ _ t
              (int_fd, int_offset, int_0) refl
            ∙ handle-seeks c pid fd (record s { server = s1 }) p offset files o sought,
        record s { server = s2 },
        file_call-handle pid (read (pos fd) to (pos len)) _ _ _ t (int_fd, b, int_len) refl
            ∙ handle-reads c pid fd (record s { server = record s1 { files = files } }) p to len buf
                len s2 got,
      )
