-- ===== src/FileSystem/WriteData/Direct.antt =====
-- What `write_data` does to a file that stays inside its direct blocks.
use njuos.Prelude.{
  ℕ, zero, suc, ◌+◌, ◌-◌, ◌*◌, ◌/◌, ◌%◌, ◌≤◌, ◌<◌, ◌≡◌, ◌≢◌, refl, ap, ◌∙◌, some, arith, ◌==◌, ltb,
  update, update_self, update_ne, true, get_or, Bool-cases, inl, inr, min,
}
use njuos.FileSystem.{block_num, block_size, level_end0}
use njuos.FileSystem.Bitmap.{get_free_block}
use njuos.FileSystem.Bitmap.Alloc.{block_addr, get_free_block_lem}
use njuos.FileSystem.Bitmap.Count.{free_below, free_below-update, free_entry}
use njuos.FileSystem.WriteData.{
  Writing, write_chunk, write_round, write_direct, write_data, write_level1, write_level2,
  write_level3,
}
use njuos.FileSystem.WriteData.Owned.{
  IsOwned, IsOwned-next, IsOwned-same, IsOwned-fill, Appended, piece, byte_at, write_piece,
  write_chunk-piece, write_piece-Appended,
}

-- The file ends at the offset, inside the direct blocks even with what is to be written; its blocks are
-- its own, and there are enough free ones.
pub record IsReady (s : Writing) : Type 0 where
  pub at_end : s.file_offset ≡ s.inode.size
  pub fits : s.inode.size + s.len ≤ level_end0
  pub owned : IsOwned s.bitmap.bits s.inode.index s.inode.size
  pub search : s.bitmap.at < block_num
  pub room : s.len ≤ 256 * free_below s.bitmap.bits block_num

-- A round with a block at hand.
filled :
    (s : Writing) (r : s.file_offset ≡ s.inode.size)
    → (o : IsOwned s.bitmap.bits s.inode.index (s.inode.size + 1))
    → let s' = write_chunk (s.inode.index (s.file_offset / 256)) s in
      Appended s s' (piece s)
      × IsOwned s'.bitmap.bits s'.inode.index s'.inode.size
      × (s'.bitmap ≡ s.bitmap)
unfolding write_piece
filled s r o = rw (write_chunk-piece (s.inode.index (s.file_offset / 256)) s) (
  write_piece-Appended s r o (piece s) (omega arith),
  rw r (
      IsOwned-fill s.bitmap.bits s.inode.index s.inode.size (min s.len (256 - s.inode.size % 256))
        (omega arith) o),
  refl,
)

pub record Round (s : Writing) : Type 0 where
  pub after : Writing
  pub result : write_round s ≡ some after
  pub appended : Appended s after (piece s)
  pub ready : IsReady after

-- The round inside a block.
inside : (s : Writing) → IsReady s → s.file_offset % 256 ≢ 0 → Round s
unfolding write_round
inside s r h =
    let s' = write_chunk (s.inode.index (s.file_offset / 256)) s in
    let (app, owned, same) = filled s r.at_end (
      IsOwned-same s.bitmap.bits s.inode.index s.inode.size (λ z. h (omega (arith, r.at_end)))
        r.owned) in
    record {
      after = s';
      result = ground arith;
      appended = app;
      ready = record {
        at_end = omega (arith, app.size, app.offset, r.at_end);
        fits = omega (arith, app.size, app.left, r.fits);
        owned = owned;
        search = rw same r.search;
        room = rw same (omega (arith, app.left, r.room));
      };
    }

-- The state with block `i` taken as the next of the file.
abbrev with_block : (i : ℕ) → Writing → Writing
with_block i s = record s {
  bitmap = record { bits = update s.bitmap.bits i 1; at = i };
  inode = record s.inode { index = update s.inode.index (s.file_offset / 256) (block_addr i) };
}

aligned_result :
    (s : Writing) (i : ℕ)
    → s.file_offset % 256 ≡ 0
    → get_free_block s.bitmap
      ≡ some (block_addr i, record { bits = update s.bitmap.bits i 1; at = i })
    → let t = with_block i s in
      write_round s ≡ some (write_chunk (t.inode.index (t.file_offset / 256)) t)
unfolding write_round
aligned_result s i z got =
    let own = update_self s.inode.index (s.file_offset / 256) (block_addr i) in
    let test : (s.file_offset % block_size == 0) ≡ true = ground arith in rw (test, got, own) refl

-- The round at the start of a block.
aligned : (s : Writing) → IsReady s → 0 < s.len → s.file_offset % 256 ≡ 0 → Round s
unfolding write_round
aligned s r h z =
    let (j, lt, free) = free_entry s.bitmap.bits block_num (omega (arith, r.room)) in
    let (i, got, less, was_free, _) = get_free_block_lem s.bitmap j r.search lt free in
    let t = with_block i s in
    let s' = write_chunk (t.inode.index (t.file_offset / 256)) t in
    let next =
      IsOwned-next s.bitmap.bits s.inode.index s.inode.size i (omega (arith, r.at_end)) was_free
        less r.owned in
    let (app, owned, same) = filled t r.at_end (rw r.at_end next) in
    record {
      after = s';
      result = aligned_result s i z got;
      appended = record {
        size = app.size;
        dev_id = app.dev_id;
        offset = app.offset;
        counted = app.counted;
        left = app.left;
        rest = app.rest;
        old = λ o p.
            app.old o p
            ∙ ap (λ k. s.disk (k + o % 256))
                (update_ne s.inode.index (s.file_offset / 256) (block_addr i) (o / 256)
                  (omega (arith, z, r.at_end)));
        new = app.new;
      };
      ready = record {
        at_end = omega (arith, app.size, app.offset, r.at_end);
        fits = omega (arith, app.size, app.left, r.fits);
        owned = owned;
        search = rw same less;
        room = rw same (
            omega (
              arith,
              free_below-update s.bitmap.bits block_num i less was_free,
              app.left,
              r.room,
              z,
            ));
      };
    }

write-Round-Round : (s : Writing) → IsReady s → 0 < s.len → Round s
write-Round-Round s r h = elim (Bool-cases (s.file_offset % 256 == 0)) [
  | inl e ↦ aligned s r h (ground arith)
  | inr e ↦ inside s r (ground arith)
]

pub record Written (s s' : Writing) : Type 0 where
  pub appended : Appended s s' s.len
  pub done : s'.len ≡ 0
  pub owned : IsOwned s'.bitmap.bits s'.inode.index s'.inode.size

Appended-trans :
    (s t u : Writing) (j k m : ℕ) → m ≡ j + k → Appended s t j → Appended t u k → Appended s u m
Appended-trans s t u j k m e a b = record {
  size = omega (arith, a.size, b.size);
  dev_id = b.dev_id ∙ a.dev_id;
  offset = omega (arith, a.offset, b.offset);
  counted = omega (arith, a.counted, b.counted);
  left = omega (arith, a.left, b.left);
  rest = λ o. b.rest o ∙ a.rest (o + k) ∙ ap (λ i. get_or s.buf i 0) (omega arith);
  old = λ o h. b.old o (omega (arith, a.size)) ∙ a.old o h;
  new = λ o h. elim (Bool-cases (ltb o j)) [
    | inl q ↦
        let lt : o < j = ground arith in
        b.old (s.inode.size + o) (omega (arith, a.size)) ∙ a.new o lt
    | inr q ↦
        let le : j ≤ o = ground arith in
        let there : s.inode.size + o ≡ t.inode.size + (o - j) = omega (arith, a.size) in
        ap (byte_at u) there
        ∙ b.new (o - j) (omega arith)
        ∙ a.rest (o - j)
        ∙ ap (λ i. get_or s.buf i 0) (omega arith)
  ];
}

Appended-nothing : (s : Writing) (k : ℕ) → k ≡ 0 → Appended s s k
Appended-nothing s k e = record {
  size = omega arith;
  dev_id = refl;
  offset = omega arith;
  counted = omega arith;
  left = omega arith;
  rest = λ o. ap (λ i. get_or s.buf i 0) (omega arith);
  old = λ o h. refl;
  new = λ o h. absurd (omega arith);
}

write_direct-Written :
    (fuel : ℕ) (s : Writing)
    → IsReady s
    → s.len ≤ fuel
    → (s' : Writing) × (write_direct fuel s ≡ some s') × Written s s'
unfolding write_direct
write_direct-Written zero s r h =
    let e : s.len ≡ 0 = omega arith in
    (s, refl, record { appended = Appended-nothing s s.len e; done = e; owned = r.owned })
write_direct-Written (suc fuel) s r h = elim (Bool-cases (ltb 0 s.len)) [
  | inl e ↦
      let lt : 0 < s.len = ground arith in
      let w = write-Round-Round s r lt in
      let (s', got, rest) =
        write_direct-Written fuel w.after w.ready (omega (arith, w.appended.left)) in
      let test : ltb s.file_offset level_end0 ≡ true = ground (arith, r.at_end, r.fits) in
      (
        s',
        rw (test, e, w.result) got,
        record {
          appended =
              Appended-trans s w.after s' (piece s) w.after.len s.len
                (omega (arith, w.appended.left)) w.appended rest.appended;
          done = rest.done;
          owned = rest.owned;
        },
      )
  | inr e ↦
      let z : s.len ≡ 0 = ground arith in
      (s, ground arith, record { appended = Appended-nothing s s.len z; done = z; owned = r.owned })
]

-- Of a file that ends at the offset and with what is written stays inside the direct blocks, whose
-- blocks are its own, and with room enough in the bitmap: `write_data` returns, it has written all that
-- was wanted, the file has grown by as much, its old bytes are as they were, the bytes of the buffer
-- stand behind them, and its blocks are its own again.
pub write_data_lem :
    (s : Writing)
    → IsReady s
    → (s' : Writing) × (write_data s ≡ some s')
      × (s'.writed_len ≡ s.writed_len + s.len)
      × (s'.inode.size ≡ s.inode.size + s.len)
      × ((o : ℕ) → o < s.inode.size → byte_at s' o ≡ byte_at s o)
      × ((o : ℕ) → o < s.len → byte_at s' (s.inode.size + o) ≡ get_or s.buf o 0)
      × IsOwned s'.bitmap.bits s'.inode.index s'.inode.size
unfolding write_data write_level1 write_level2 write_level3
write_data_lem s r =
    let (s', got, w) = write_direct-Written s.len s r (omega arith) in
    let app = w.appended in
    (s', ground (arith, got, w.done), app.counted, app.size, app.old, app.new, w.owned)

-- Under the same conditions the device number of the inode stays.
pub write_data-dev_id :
    (s : Writing)
    → IsReady s
    → (s' : Writing) × (write_data s ≡ some s') × (s'.inode.dev_id ≡ s.inode.dev_id)
unfolding write_data write_level1 write_level2 write_level3
write_data-dev_id s r =
    let (s', got, w) = write_direct-Written s.len s r (omega arith) in
    (s', ground (arith, got, w.done), w.appended.dev_id)
