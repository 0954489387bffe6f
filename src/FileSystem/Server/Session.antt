-- ===== src/FileSystem/Server/Session.antt =====
-- A file written through its descriptor, and read back through it.
use njuos.Prelude.{
  ℕ, ◌+◌, ◌%◌, ◌^◌, ◌≤◌, ◌≡◌, refl, sym, ap, ◌∙◌, List, some, true, false, arith, ltb, ◌==◌, length,
  update_self,
}
use njuos.FileSystem.{OpenFile, level_end0}
use njuos.FileSystem.ReadData.{read_data}
use njuos.FileSystem.WriteData.{Writing, write_data}
use njuos.FileSystem.WriteData.Direct.{IsReady, write_data_lem, write_data-dev_id}
use njuos.FileSystem.WriteData.ReadBack.{read_data-write_data}
use njuos.FileSystem.Files.{Files, fd_entry, set_file, fm_lseek}
use njuos.FileSystem.Server.{
  FileServer, inode_of, read_file, fm_read, truncate, writing, written, write_file, fm_write,
}

module _ (blocks : ℕ → ℕ → ℕ) (pid fd f : ℕ) (buf : List ℕ) (len : ℕ) (s : FileServer)
    (is_open : fd_entry pid fd s.files ≡ some (some f))
    (disk_file : (inode_of f s.files).dev_id ≡ 0) (ready : IsReady (writing blocks f buf len s))
    (whole : length buf ≡ len) where
  -- What `write_data` comes to.
  record Outcome : Type 0 where
    last : Writing
    result : write_data (writing blocks f buf len s) ≡ some last
    count : last.writed_len ≡ len
    size : last.inode.size ≡ (s.files.files f).offset + len
    dev_id : last.inode.dev_id ≡ 0
    fits : (s.files.files f).offset + len ≤ level_end0
    bytes : (read_data last.disk last.inode (s.files.files f).offset len).buf ≡ buf
    got : (read_data last.disk last.inode (s.files.files f).offset len).readed_len ≡ len

  outcome : Outcome
  unfolding writing
  outcome =
      let (w, e, count, size, _, _, _) = write_data_lem (writing blocks f buf len s) ready in
      let (w', e', bytes, got) = read_data-write_data (writing blocks f buf len s) ready whole in
      let (w'', e'', dev_id) = write_data-dev_id (writing blocks f buf len s) ready in
      let p : w' ≡ w = cc (e, e') in
      let q : w'' ≡ w = cc (e, e'') in
      let end : (s.files.files f).offset ≡ (inode_of f s.files).size = ready.at_end in
      let bytes' : (read_data w.disk w.inode (s.files.files f).offset len).buf ≡ buf =
        ap (λ (o : ℕ). (read_data w.disk w.inode o len).buf) end
        ∙ ap (λ (x : Writing). (read_data x.disk x.inode (inode_of f s.files).size len).buf) (sym p)
        ∙ bytes in
      let got' : (read_data w.disk w.inode (s.files.files f).offset len).readed_len ≡ len =
        ap (λ (o : ℕ). (read_data w.disk w.inode o len).readed_len) end
        ∙ ap (λ (x : Writing). (read_data x.disk x.inode (inode_of f s.files).size len).readed_len)
            (sym p)
        ∙ got in
      record {
        last = w;
        result = e;
        count = omega (arith, count);
        size = omega (arith, size, end);
        dev_id = ap (λ (x : Writing). x.inode.dev_id) (sym q) ∙ dev_id ∙ disk_file;
        fits = omega (arith, end, ready.fits);
        bytes = bytes';
        got = got';
      }

  -- At its end a file is not cut.
  truncate_end : truncate f s ≡ some s
  unfolding truncate writing
  truncate_end =
      let end : (s.files.files f).offset ≡ (inode_of f s.files).size = ready.at_end in
      let test : ltb (s.files.files f).offset (inode_of f s.files).size ≡ false =
        ground (arith, end) in
      rw test refl

  write_result :
      (tty : ℕ → List ℕ → ℕ) (o : Outcome)
      → fm_write blocks tty pid fd buf len s ≡ some (some len, written blocks f o.last s)
  unfolding fm_write write_file
  write_result tty o =
      let dev : ((inode_of f s.files).dev_id == 0) ≡ true = ground (arith, disk_file) in
      rw (fm_write, is_open, write_file, truncate_end, dev, o.result, o.count) refl

  -- Behind the write the descriptor is as it was.
  module _ (o : Outcome) where
    abbrev behind : Files
    behind = (written blocks f o.last s).files

    still_open : fd_entry pid fd behind ≡ some (some f)
    unfolding written
    still_open = is_open

    -- ... and the file stands at its old end again behind the seek.
    abbrev file : OpenFile
    file = record (behind.files f) { offset = (0 + (s.files.files f).offset) % 2 ^ 32 }

    seek_result :
        fm_lseek pid fd (s.files.files f).offset 0 behind ≡ some (true, set_file f file behind)
    unfolding fm_lseek
    seek_result = rw (fm_lseek, still_open) refl

    abbrev at_start : FileServer
    at_start = record (written blocks f o.last s) { files = set_file f file behind }

    at_start_inode : inode_of f at_start.files ≡ o.last.inode
    unfolding written set_file
    at_start_inode = ground arith

    at_start_offset : (at_start.files.files f).offset ≡ (s.files.files f).offset
    unfolding set_file
    at_start_offset =
        ap (λ (x : OpenFile). x.offset) (update_self behind.files f file) ∙ omega (arith, o.fits)

    at_start_disk : at_start.files.disk ≡ o.last.disk
    unfolding written set_file
    at_start_disk = refl

    read_answer : (tty : ℕ → ℕ → List ℕ × ℕ) → (read_file tty f len at_start).0 ≡ (buf, len)
    unfolding read_file
    read_answer tty =
        let dev : ((inode_of f at_start.files).dev_id == 0) ≡ true =
          rw at_start_inode (ground (arith, o.dev_id)) in
        rw (read_file, dev, at_start_disk, at_start_inode, at_start_offset, o.bytes, o.got) refl

    open_again : fd_entry pid fd at_start.files ≡ some (some f)
    unfolding set_file written
    open_again = is_open

    read_result :
        (tty : ℕ → ℕ → List ℕ × ℕ)
        → fm_read tty pid fd len at_start ≡ some (some (buf, len), (read_file tty f len at_start).1)
    unfolding fm_read
    read_result tty = rw (fm_read, open_again, read_answer tty) refl

-- Of a file on the disk that is open through a descriptor and stands at its end, inside the direct blocks
-- even with what is written, whose blocks are its own and for which there are enough free ones:
-- `fm_write` of a buffer answers its length; `fm_lseek` back to where the descriptor stood succeeds, and
-- `fm_read` of the length then gives the buffer, the whole of it.
pub fm_read-fm_write :
    (blocks : ℕ → ℕ → ℕ) (tty_read : ℕ → ℕ → List ℕ × ℕ) (tty_write : ℕ → List ℕ → ℕ) (pid fd f : ℕ)
    (buf : List ℕ) (len : ℕ) (s : FileServer)
    → fd_entry pid fd s.files ≡ some (some f)
    → (inode_of f s.files).dev_id ≡ 0
    → IsReady (writing blocks f buf len s)
    → length buf ≡ len
    → (s1 : FileServer) × (fm_write blocks tty_write pid fd buf len s ≡ some (some len, s1))
      × (files : Files) × (fm_lseek pid fd (s.files.files f).offset 0 s1.files ≡ some (true, files))
      × (s2 : FileServer) × (fm_read tty_read pid fd len (record s1 { files = files })
          ≡ some (some (buf, len), s2))
fm_read-fm_write blocks tty_read tty_write pid fd f buf len s e d r w =
    let o = outcome blocks pid fd f buf len s e d r w in
    (
      written blocks f o.last s,
      write_result blocks pid fd f buf len s e d r w tty_write o,
      _,
      seek_result blocks pid fd f buf len s e d r w o,
      _,
      read_result blocks pid fd f buf len s e d r w o tty_read,
    )
