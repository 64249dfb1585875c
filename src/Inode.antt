-- ===== src/Inode.antt =====
-- CS330_projects/proj2/filesys/inode.c (proj1 has the same file): the data of a file on the disk. The disk gives
-- the bytes of each sector of 512; disk_read and disk_write move one sector. Memory is a function of the
-- address. Offsets and lengths are not negative and do not overflow, a size can be negative; `room` is malloc's
-- answer for the bounce buffer, of which a call needs one at most.
pub mod Linear
pub mod Read
pub mod RoundTrip
pub mod Write
mod Tests
use cs_courses.Base.{
  ℕ, zero, suc, ◌+◌, ◌-◌, ◌*◌, ◌/◌, ◌%◌, Bool, true, false, not, ◌&&◌, ◌||◌, ℤ, pos_part, leb, ltb,
  ◌==◌, if◌then◌else◌, update,
}

-- DISK_SECTOR_SIZE
abbrev pub sector_size : ℕ
sector_size = 512

abbrev pub Disk : Type 0
Disk = ℕ → ℕ → ℕ

-- struct inode, with the fields of struct inode_disk that are used
pub record Inode : Type 0 where
  pub sector : ℕ
  pub open_cnt : ℕ
  pub removed : Bool
  pub deny_write_cnt : ℕ
  pub start : ℕ
  pub length : ℕ

-- bytes_to_sectors
abbrev pub bytes_to_sectors : ℕ → ℕ
bytes_to_sectors size = (size + sector_size - 1) / sector_size

-- byte_to_sector; -1 as a disk_sector_t
abbrev pub byte_to_sector : Inode → ℕ → ℕ
byte_to_sector inode offset =
    if ltb offset inode.length then inode.start + offset / sector_size else 4294967295

-- memcpy of n bytes from `src` at `from` to `dst` at `to`
abbrev pub copy : (ℕ → ℕ) → ℕ → (ℕ → ℕ) → ℕ → ℕ → ℕ → ℕ
copy src from dst to n a = if leb to a && ltb a (to + n) then src (from + (a - to)) else dst a

-- chunk_size, with 0 for what is not positive
abbrev pub chunk : Inode → ℕ → ℕ → ℕ
chunk inode size offset =
    let inode_left = inode.length - offset in
    let sector_left = sector_size - offset % sector_size in
    let min_left = if ltb inode_left sector_left then inode_left else sector_left in
    if ltb size min_left then size else min_left

-- Whether a chunk is a full sector.
abbrev pub is_full : ℕ → ℕ → Bool
is_full offset n = (offset % sector_size == 0) && (n == sector_size)

module _ (disk : Disk) (inode : Inode) where
  -- One round of inode_read_at: n bytes into `buffer`.
  unfoldable pub read_chunk : ℕ → ℕ → ℕ → (ℕ → ℕ) → ℕ → ℕ
  read_chunk n offset buffer memory =
      let sector_idx = byte_to_sector inode offset in
      if is_full offset n
      then copy (disk sector_idx) 0 memory buffer sector_size
      else (let bounce = disk sector_idx in copy bounce (offset % sector_size) memory buffer n)

module _ (room : Bool) (disk : Disk) (inode : Inode) where
  -- The loop of inode_read_at. A round reads at least one byte, so one round more than there are bytes to read
  -- is enough.
  unfoldable pub read_loop : ℕ → ℕ → ℕ → ℕ → ℕ → (ℕ → ℕ) → ℕ × (ℕ → ℕ)
  unfolding read_chunk
  read_loop zero size offset buffer bytes_read memory = (bytes_read, memory)
  read_loop (suc fuel) size offset buffer bytes_read memory =
      let n = chunk inode size offset in
      elim ((n == 0) || not (is_full offset n || room)) [
        | true ↦ (bytes_read, memory)
        | false ↦
            read_loop fuel (size - n) (offset + n) buffer (bytes_read + n)
              (read_chunk disk inode n offset (buffer + bytes_read) memory)
      ]

  unfoldable pub inode_read_at : ℕ → ℤ → ℕ → (ℕ → ℕ) → ℕ × (ℕ → ℕ)
  unfolding read_loop
  inode_read_at buffer size offset memory =
      read_loop (suc (pos_part size)) (pos_part size) offset buffer 0 memory

module _ (inode : Inode) (memory : ℕ → ℕ) where
  -- One round of inode_write_at: n bytes from `buffer`.
  unfoldable pub write_chunk : ℕ → ℕ → ℕ → Disk → Disk
  write_chunk n offset buffer disk =
      let sector_idx = byte_to_sector inode offset in
      let sector_ofs = offset % sector_size in
      if is_full offset n
      then update disk sector_idx (λ i. memory (buffer + i))
      else (let bounce =
            if ltb 0 sector_ofs || ltb n (sector_size - sector_ofs) then disk sector_idx else λ i.
            0 in
          update disk sector_idx (copy memory buffer bounce sector_ofs n))

module _ (room : Bool) (inode : Inode) (memory : ℕ → ℕ) where
  unfoldable pub write_loop : ℕ → ℕ → ℕ → ℕ → ℕ → Disk → ℕ × Disk
  unfolding write_chunk
  write_loop zero size offset buffer bytes_written disk = (bytes_written, disk)
  write_loop (suc fuel) size offset buffer bytes_written disk =
      let n = chunk inode size offset in
      elim ((n == 0) || not (is_full offset n || room)) [
        | true ↦ (bytes_written, disk)
        | false ↦
            write_loop fuel (size - n) (offset + n) buffer (bytes_written + n)
              (write_chunk inode memory n offset (buffer + bytes_written) disk)
      ]

  unfoldable pub inode_write_at : ℕ → ℤ → ℕ → Disk → ℕ × Disk
  unfolding write_loop
  inode_write_at buffer size offset disk =
      if inode.deny_write_cnt == 0
      then write_loop (suc (pos_part size)) (pos_part size) offset buffer 0 disk
      else (0, disk)
