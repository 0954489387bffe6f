-- ===== src/FileSystem/INodes.antt =====
-- src/kernel/file_system/fm_backstage.c: the inodes on the disk.
pub mod RoundTrip
use njuos.Prelude.{ℕ, zero, suc, ◌+◌, ◌-◌, ◌*◌, ◌/◌, ◌%◌, ◌==◌, if◌then◌else◌}
use njuos.FileSystem.{Disk, INode, inode_base, inode_size, dev_write, load32, byte_of}

-- The word `k` of the structure in memory.
pub word : INode → ℕ → ℕ
word n k =
    if k == 0
    then n.size
    else (if k == 1
        then n.type
        else (if k == 2 then n.dev_id else (if k == 3 then n.link else n.index (k - 4))))

-- `read_inode_from_disk`
unfoldable pub read_inode : Disk → ℕ → INode
read_inode d i = record {
  size = load32 d (inode_base + i * inode_size);
  type = load32 d (inode_base + i * inode_size + 4);
  dev_id = load32 d (inode_base + i * inode_size + 8);
  link = load32 d (inode_base + i * inode_size + 12);
  index = λ k. load32 d (inode_base + i * inode_size + 16 + 4 * k);
}

-- `write_inode_to_disk`
pub write_inode : Disk → ℕ → INode → Disk
write_inode d i n =
    dev_write d (inode_base + i * inode_size) inode_size (λ o. byte_of (word n (o / 4)) (o % 4))
