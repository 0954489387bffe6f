-- ===== src/FileSystem/INodes/RoundTrip.antt =====
-- An inode reads back as it was written, and the others stay.
use njuos.Prelude.{ℕ, ◌+◌, ◌-◌, ◌*◌, ◌/◌, ◌%◌, ◌^◌, ◌≤◌, ◌<◌, ◌≡◌, ap, ap₂, ◌∙◌, ◌⊎◌, arith}
use njuos.FileSystem.{Disk, INode, inode_base, inode_size, load32, byte_of}
use njuos.FileSystem.Disks.{dev_write_in, dev_write_off}
use njuos.FileSystem.INodes.{word, read_inode, write_inode}

-- The fields are 32-bit words.
pub record IsINode (n : INode) : Type 0 where
  pub size_fits : n.size < 2 ^ 32
  pub type_fits : n.type < 2 ^ 32
  pub dev_id_fits : n.dev_id < 2 ^ 32
  pub link_fits : n.link < 2 ^ 32
  pub index_fits : (k : ℕ) → n.index k < 2 ^ 32

-- The four bytes of a word make it up.
pub load32_bytes :
    (f : ℕ → ℕ) (a w : ℕ)
    → w < 2 ^ 32
    → f a ≡ byte_of w 0
    → f (a + 1) ≡ byte_of w 1
    → f (a + 2) ≡ byte_of w 2
    → f (a + 3) ≡ byte_of w 3
    → load32 f a ≡ w
load32_bytes f a w h p q r s = omega arith

-- Byte `m` of word `k` of the inode just written.
write_inode_byte :
    (d : Disk) (i : ℕ) (n : INode) (k m a : ℕ)
    → k < 19
    → m < 4
    → a ≡ inode_base + i * inode_size + (4 * k + m)
    → write_inode d i n a ≡ byte_of (word n k) m
unfolding write_inode
write_inode_byte d i n k m a p q e =
    let at : (4 * k + m) / 4 ≡ k = omega arith in
    let byte : (4 * k + m) % 4 ≡ m = omega arith in
    dev_write_in d (inode_base + i * inode_size) inode_size _ (4 * k + m) a e (omega arith)
    ∙ ap₂ (λ (x y : ℕ). byte_of (word n x) y) at byte

-- Word `k` reads back.
write_inode-word :
    (d : Disk) (i : ℕ) (n : INode) (k a : ℕ)
    → k < 19
    → a ≡ inode_base + i * inode_size + 4 * k
    → word n k < 2 ^ 32
    → load32 (write_inode d i n) a ≡ word n k
write_inode-word d i n k a p e w =
    load32_bytes (write_inode d i n) a (word n k) w
      (write_inode_byte d i n k 0 a p (omega arith) (omega arith))
      (write_inode_byte d i n k 1 (a + 1) p (omega arith) (omega arith))
      (write_inode_byte d i n k 2 (a + 2) p (omega arith) (omega arith))
      (write_inode_byte d i n k 3 (a + 3) p (omega arith) (omega arith))

-- `read_inode_from_disk` after `write_inode_to_disk` of the same inode number returns every field as
-- written, the fifteen indices too, if the fields are 32-bit words.
pub read_inode-write_inode :
    (d : Disk) (i : ℕ) (n : INode) (k : ℕ)
    → IsINode n
    → k < 15
    → let r = read_inode (write_inode d i n) i in
      (r.size ≡ n.size)
      × (r.type ≡ n.type)
      × (r.dev_id ≡ n.dev_id)
      × (r.link ≡ n.link)
      × (r.index k ≡ n.index k)
unfolding read_inode word
read_inode-write_inode d i n k v h = (
  write_inode-word d i n 0 _ (omega arith) (omega arith) v.size_fits,
  write_inode-word d i n 1 _ (omega arith) (omega arith) v.type_fits,
  write_inode-word d i n 2 _ (omega arith) (omega arith) v.dev_id_fits,
  write_inode-word d i n 3 _ (omega arith) (omega arith) v.link_fits,
  write_inode-word d i n (4 + k) _ (omega arith) (omega arith)
        (ground (arith, v.index_fits k, v.index_fits (4 + k - 4)))
      ∙ ground arith,
)

-- The size, the type and an index, of which only that field has to be a 32-bit word.
pub write_inode-size :
    (d : Disk) (i : ℕ) (n : INode)
    → n.size < 2 ^ 32
    → (read_inode (write_inode d i n) i).size ≡ n.size
unfolding read_inode word
write_inode-size d i n h = write_inode-word d i n 0 _ (omega arith) (omega arith) h

pub write_inode-index :
    (d : Disk) (i : ℕ) (n : INode) (k : ℕ)
    → k < 15
    → n.index k < 2 ^ 32
    → (read_inode (write_inode d i n) i).index k ≡ n.index k
unfolding read_inode word
write_inode-index d i n k p h =
    let same : n.index (4 + k - 4) ≡ n.index k = ap n.index (omega arith) in
    write_inode-word d i n (4 + k) _ (omega arith) (omega arith) (ground (arith, same))
    ∙ ground arith

-- `write_inode_to_disk` changes no byte of the disk but the 76 of that inode.
pub write_inode_apart :
    (d : Disk) (i : ℕ) (n : INode) (a : ℕ)
    → (a < inode_base + i * inode_size) ⊎ (inode_base + (i + 1) * inode_size ≤ a)
    → write_inode d i n a ≡ d a
unfolding write_inode
write_inode_apart d i n a q =
    dev_write_off d (inode_base + i * inode_size) inode_size _ a (grind arith)
