-- ===== src/Files/Denied.antt =====
-- Writes through file.c to an inode that an open file denies (CS330_projects/proj2/filesys).
use cs_courses.Base.{
  ℕ, ◌+◌, ◌<◌, ◌≡◌, refl, Bool, true, false, ◌&&◌, List, ℤ, some, ◌==◌, ==_refl, arith,
}
use cs_courses.Bitmap.{ok}
use cs_courses.Inode.{Disk, Inode, inode_write_at}
use cs_courses.Files.{File, FileSystem, lookup, with_inode, with_file, put_file, file_write}
use cs_courses.Files.Store.{count-free}
use cs_courses.Files.Holders.{holders, deniers, file-holds}
use cs_courses.Files.Inodes.{held-open}
use cs_courses.Files.References.{IsCounted}
use cs_courses.Files.Reachable.{Reach, Reach-Succeeds}

denied-write :
    (room : Bool) (i : Inode) (memory : ℕ → ℕ) (buffer : ℕ) (size : ℤ) (offset : ℕ) (disk : Disk)
    → 0 < i.deny_write_cnt
    → inode_write_at room i memory buffer size offset disk ≡ (0, disk)
unfolding inode_write_at
denied-write room i memory buffer size offset disk some_denied =
    let denied : (i.deny_write_cnt == 0) ≡ false = ground (arith, some_denied) in
    rw (inode_write_at, denied) refl

-- As long as one open file denies writes to an inode, a write through any file of that inode, whatever was done before,
-- writes nothing, returns 0 and leaves the position.
pub file_write-denied :
    (disk : Disk) (memory : ℕ → ℕ) (refs : List ℕ) (s : FileSystem) (f g : ℕ) (file denier : File)
    (room : Bool) (buffer : ℕ) (size : ℤ)
    → Reach disk memory (ok (refs, s))
    → lookup f s.files ≡ some file
    → lookup g s.files ≡ some denier
    → denier.inode ≡ file.inode
    → denier.deny_write ≡ true
    → file_write room f buffer size s ≡ ok (0, put_file f (record file { pos = file.pos + 0 }) s)
unfolding file_write
file_write-denied disk memory refs s f g file denier room buffer size before found found_denier same
      flag =
    let counted : IsCounted refs s = Reach-Succeeds disk memory (ok (refs, s)) before in
    let (i, open_i, (opens, held, denied)) =
      held-open s file.inode (holders refs s.files) (deniers s.files) (holders refs s.files)
        (deniers s.files) counted (λ b away. (refl, refl)) (file-holds refs s.files f file found) in
    let at : (denier.inode == file.inode) ≡ true = rw same (==_refl file.inode) in
    let some_denied : 0 < deniers s.files file.inode = ground (
      arith,
      at,
      flag,
      count-free (λ x. (x.inode == file.inode) && x.deny_write) g denier s.files found_denier,
    ) in
    let nothing =
      denied-write room i s.memory buffer size file.pos s.disk
        (omega (arith, denied, some_denied)) in
    rw (file_write, with_file, with_inode, found, open_i, nothing) refl
