-- ===== src/FileSystem.antt =====
-- The state of the file manager (src/kernel/file_system and include/fm.h): the RAM disk as the file
-- manager sees it, the bitmaps, the kernel's vnodes and open files, and the descriptors of processes.
pub mod Bitmap
pub mod INodes
pub mod Disks
pub mod ReadData
pub mod WriteData
pub mod Release
pub mod Files
pub mod Handlers
pub mod Start
pub mod Server
pub mod Directories
use njuos.Prelude.{
  ℕ, zero, suc, ◌+◌, ◌-◌, ◌*◌, ◌/◌, ◌%◌, ◌^◌, Bool, true, false, ◌&&◌, List, [], ◌∷◌, ◌++◌, Option,
  none, some, ltb, leb, ◌==◌, if◌then◌else◌, update,
}

abbrev pub inode_num : ℕ
inode_num = 1024

abbrev pub block_num : ℕ
block_num = 4096

abbrev pub block_size : ℕ
block_size = 256

abbrev pub inode_size : ℕ
inode_size = 76

-- `inode_base` and `block_base`: where the inodes and the blocks lie on the disk.
abbrev pub inode_base : ℕ
inode_base = inode_num + block_num

abbrev pub block_base : ℕ
block_base = inode_base + inode_num * inode_size

-- The bytes of the disk by their address.
abbrev pub Disk : Type 0
Disk = ℕ → ℕ

-- `iNode_entry`. The fields of type `int` are never negative.
pub record INode : Type 0 where
  pub size : ℕ
  pub type : ℕ
  pub dev_id : ℕ
  pub link : ℕ
  pub index : ℕ → ℕ

-- PLAIN and DIR
abbrev pub plain : ℕ
plain = 0

abbrev pub dir : ℕ
dir = 1

-- `vnode_entry`, without its list node
pub record VNode : Type 0 where
  pub index : ℕ
  pub inode : INode
  pub count : ℕ

-- `Open_file_entry`, without its list node; `vnode` is an index of `vnode_array`.
pub record OpenFile : Type 0 where
  pub offset : ℕ
  pub count : ℕ
  pub vnode : ℕ

-- `dev_read("ram", …)` and `dev_write("ram", …)` at addresses inside the disk (`Devices` has the
-- driver with its assertions): the bytes read, and the disk with the bytes `src 0`, `src 1`, …
-- written.
unfoldable pub dev_read : Disk → ℕ → ℕ → List ℕ
dev_read d addr zero = []
dev_read d addr (suc n) = d addr ∷ dev_read d (addr + 1) n

pub dev_write : Disk → ℕ → ℕ → (ℕ → ℕ) → Disk
dev_write d addr len src a = if leb addr a && ltb a (addr + len) then src (a - addr) else d a

-- A `uint32_t` in memory, the least byte first, and the byte `k` of one.
abbrev pub load32 : (ℕ → ℕ) → ℕ → ℕ
load32 f a = f a + 256 * f (a + 1) + 65536 * f (a + 2) + 16777216 * f (a + 3)

abbrev pub byte_of : ℕ → ℕ → ℕ
byte_of w zero = w % 256
byte_of w (suc k) = byte_of (w / 256) k

-- Word `i` of the index block at an address. The code first copies the block into one of the arrays
-- `index_block1` to `index_block3`, and reads the word there.
pub entry : Disk → ℕ → ℕ → ℕ
entry d table i = load32 d (table + 4 * i)

-- The file offsets at which the direct blocks and the levels of index blocks end, and what one entry
-- of a table of the first and of the second level spans.
abbrev pub level_end0 : ℕ
level_end0 = block_size * 12

abbrev pub index_one_size : ℕ
index_one_size = block_size * (block_size / 4)

abbrev pub index_two_size : ℕ
index_two_size = block_size * (block_size / 4) * (block_size / 4)

abbrev pub level_end1 : ℕ
level_end1 = level_end0 + index_one_size

abbrev pub level_end2 : ℕ
level_end2 = level_end1 + index_two_size

abbrev pub level_end3 : ℕ
level_end3 = level_end2 + index_two_size * (block_size / 4)
