-- ===== src/Files/Reachable.antt =====
-- All that the callers of inode.c and file.c can do with open files, in any order
-- (CS330_projects/proj2/filesys).
use cs_courses.Base.{ℕ, ◌<◌, ◌≡◌, refl, Bool, Option, some, List, [], ℤ, pos, arith}
use cs_courses.Bitmap.{Run, ok, ◌>>=◌}
use cs_courses.Inode.{Disk}
use cs_courses.Files.{
  File, FileSystem, lookup, inode_open, inode_reopen, inode_close, inode_remove, file_open,
  file_reopen, file_deny_write, file_allow_write, file_close, file_read, file_write, file_seek,
}
use cs_courses.Files.Holders.{uses, give_up}
use cs_courses.Files.References.{
  World, Succeeds, gain, Fresh, inode_reopen-IsCounted, open-Succeeds, inode_close-Kept,
  inode_remove-Kept, open_file-Succeeds,
}
use cs_courses.Files.Opened.{
  reopen_file-Succeeds, file_close-Kept, file_seek-Kept, file_read-Kept, file_write-Kept,
  deny-Succeeds, file_allow_write-Kept,
}

-- The states that are reached from an empty table of open inodes on some disk, and the failures. `refs` has the
-- inodes that callers of inode_open and inode_reopen have yet to close.
pub data Reach (disk : Disk) (memory : ℕ → ℕ) : Run World → Type 0 where
  start : Reach disk memory (
      ok ([], record { open_inodes = []; files = []; released = []; disk = disk; memory = memory }))
  opens :
      (refs : List ℕ) (s : FileSystem) (block : Option ℕ) (sector : ℕ)
      → Reach disk memory (ok (refs, s))
      → Fresh block s
      → Reach disk memory (inode_open block sector s >>= (λ r. ok (gain r.0 refs, r.1)))
  reopens :
      (refs : List ℕ) (s : FileSystem) (a : ℕ)
      → Reach disk memory (ok (refs, s))
      → 0 < uses a refs
      → Reach disk memory (inode_reopen (some a) s >>= (λ r. ok (gain r.0 refs, r.1)))
  closes :
      (refs : List ℕ) (s : FileSystem) (a : ℕ)
      → Reach disk memory (ok (refs, s))
      → 0 < uses a refs
      → Reach disk memory (inode_close (some a) s >>= (λ s'. ok (give_up a refs, s')))
  removes :
      (refs : List ℕ) (s : FileSystem) (a : ℕ)
      → Reach disk memory (ok (refs, s))
      → 0 < uses a refs
      → Reach disk memory (inode_remove a s >>= (λ s'. ok (refs, s')))
  file_opens :
      (refs : List ℕ) (s : FileSystem) (block : Option ℕ) (a : ℕ)
      → Reach disk memory (ok (refs, s))
      → 0 < uses a refs
      → Reach disk memory (file_open block (some a) s >>= (λ r. ok (give_up a refs, r.1)))
  file_reopens :
      (refs : List ℕ) (s : FileSystem) (block : Option ℕ) (f : ℕ) (file : File)
      → Reach disk memory (ok (refs, s))
      → lookup f s.files ≡ some file
      → Reach disk memory (file_reopen block f s >>= (λ r. ok (refs, r.1)))
  file_closes :
      (refs : List ℕ) (s : FileSystem) (f : ℕ) (file : File)
      → Reach disk memory (ok (refs, s))
      → lookup f s.files ≡ some file
      → Reach disk memory (file_close (some f) s >>= (λ s'. ok (refs, s')))
  file_denies :
      (refs : List ℕ) (s : FileSystem) (f : ℕ) (file : File)
      → Reach disk memory (ok (refs, s))
      → lookup f s.files ≡ some file
      → Reach disk memory (file_deny_write f s >>= (λ s'. ok (refs, s')))
  file_allows :
      (refs : List ℕ) (s : FileSystem) (f : ℕ) (file : File)
      → Reach disk memory (ok (refs, s))
      → lookup f s.files ≡ some file
      → Reach disk memory (file_allow_write f s >>= (λ s'. ok (refs, s')))
  file_seeks :
      (refs : List ℕ) (s : FileSystem) (f : ℕ) (file : File) (n : ℕ)
      → Reach disk memory (ok (refs, s))
      → lookup f s.files ≡ some file
      → Reach disk memory (file_seek f (pos n) s >>= (λ s'. ok (refs, s')))
  file_reads :
      (refs : List ℕ) (s : FileSystem) (f : ℕ) (file : File) (room : Bool) (buffer : ℕ) (size : ℤ)
      → Reach disk memory (ok (refs, s))
      → lookup f s.files ≡ some file
      → Reach disk memory (file_read room f buffer size s >>= (λ r. ok (refs, r.1)))
  file_writes :
      (refs : List ℕ) (s : FileSystem) (f : ℕ) (file : File) (room : Bool) (buffer : ℕ) (size : ℤ)
      → Reach disk memory (ok (refs, s))
      → lookup f s.files ≡ some file
      → Reach disk memory (file_write room f buffer size s >>= (λ r. ok (refs, r.1)))

-- Whatever the callers of inode.c and file.c do with the references and files that they have, in any order, no
-- assertion on the counts fails, no pointer to a closed inode is read, each open inode counts exactly the references
-- and files that hold it and the files that deny writes, what is held is open, and no sector is open twice.
pub Reach-Succeeds :
    (disk : Disk) (memory : ℕ → ℕ) (r : Run World) → Reach disk memory r → Succeeds r
Reach-Succeeds disk memory _ start = (λ a. refl, λ a b i j h. absurd (ground (arith, h)))
Reach-Succeeds disk memory _ (opens refs s block sector before fresh) =
    open-Succeeds refs s (Reach-Succeeds disk memory (ok (refs, s)) before) block sector fresh
Reach-Succeeds disk memory _ (reopens refs s a before used) =
    let (s', run, files, counted') =
      inode_reopen-IsCounted refs s (Reach-Succeeds disk memory (ok (refs, s)) before) a
        (omega (arith, used)) in
    rw run counted'
Reach-Succeeds disk memory _ (closes refs s a before used) =
    let (s', run, (counted', kept)) =
      inode_close-Kept refs s (Reach-Succeeds disk memory (ok (refs, s)) before) a used in
    rw run counted'
Reach-Succeeds disk memory _ (removes refs s a before used) =
    let (s', run, (counted', kept)) =
      inode_remove-Kept refs s (Reach-Succeeds disk memory (ok (refs, s)) before) a
        (omega (arith, used)) in
    rw run counted'
Reach-Succeeds disk memory _ (file_opens refs s block a before used) =
    open_file-Succeeds refs s (Reach-Succeeds disk memory (ok (refs, s)) before) block a used
Reach-Succeeds disk memory _ (file_reopens refs s block f file before found) =
    reopen_file-Succeeds refs s (Reach-Succeeds disk memory (ok (refs, s)) before) f file found
      block
Reach-Succeeds disk memory _ (file_closes refs s f file before found) =
    let (s', run, counted', kept) =
      file_close-Kept refs s (Reach-Succeeds disk memory (ok (refs, s)) before) f file found in
    rw run counted'
Reach-Succeeds disk memory _ (file_denies refs s f file before found) =
    deny-Succeeds refs s (Reach-Succeeds disk memory (ok (refs, s)) before) f file found
Reach-Succeeds disk memory _ (file_allows refs s f file before found) =
    let (s', run, found', (counted', kept)) =
      file_allow_write-Kept refs s (Reach-Succeeds disk memory (ok (refs, s)) before) f file
        found in
    rw run counted'
Reach-Succeeds disk memory _ (file_seeks refs s f file n before found) =
    let (s', run, (counted', kept)) =
      file_seek-Kept refs s (Reach-Succeeds disk memory (ok (refs, s)) before) f file found n in
    rw run counted'
Reach-Succeeds disk memory _ (file_reads refs s f file room buffer size before found) =
    let (n, s', run, (counted', kept)) =
      file_read-Kept refs s (Reach-Succeeds disk memory (ok (refs, s)) before) f file found room
        buffer size in
    rw run counted'
Reach-Succeeds disk memory _ (file_writes refs s f file room buffer size before found) =
    let (n, s', run, (counted', kept)) =
      file_write-Kept refs s (Reach-Succeeds disk memory (ok (refs, s)) before) f file found room
        buffer size in
    rw run counted'
