-- ===== src/Inode/RoundTrip.antt =====
-- inode_write_at followed by inode_read_at, in CS330_projects/proj2/filesys/inode.c.
use cs_courses.Base.{ℕ, ◌+◌, ◌-◌, ◌<◌, ◌≡◌, ap, ◌∙◌, true, ℤ, pos_part, arith}
use cs_courses.Inode.{Disk, Inode, inode_read_at, inode_write_at}
use cs_courses.Inode.Linear.{byte_at, place, left}
use cs_courses.Inode.Read.{inode_read_at-Holds}
use cs_courses.Inode.Write.{inode_write_at-Stores}

-- What is written to an inode that nobody denies is read back from the same offset, byte for byte, up to the end of
-- the file; both calls have a bounce buffer.
pub inode_read_at-write :
    (inode : Inode) (size : ℤ) (offset from to k : ℕ) (memory : ℕ → ℕ) (disk : Disk)
    → inode.deny_write_cnt ≡ 0
    → k < left inode (pos_part size) offset
    → (inode_read_at true
          (inode_write_at true inode memory from size offset disk).1
          inode
          to
          size
          offset
          memory).1
        (to + k)
      ≡ memory (from + k)
inode_read_at-write inode size offset from to k memory disk allowed within =
    let (disk', write, stores) = inode_write_at-Stores inode memory size offset from disk allowed in
    let (memory', read, holds) = inode_read_at-Holds disk' inode size offset to memory in
    let n = left inode (pos_part size) offset in
    let back : to + k - to ≡ k = omega arith in
    let there : place inode offset + k - place inode offset ≡ k = omega arith in
    let got : memory' (to + k) ≡ byte_at disk' (place inode offset + k) =
      holds (to + k) ∙ ground (arith, ap (λ t. byte_at disk' (place inode offset + t)) back) in
    let put : byte_at disk' (place inode offset + k) ≡ memory (from + k) =
      stores (place inode offset + k) ∙ ground (arith, ap (λ t. memory (from + t)) there) in
    rw (write, read) (got ∙ put)
