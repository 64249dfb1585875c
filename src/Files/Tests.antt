-- ===== src/Files/Tests.antt =====
-- Two open files of one inode, of which one denies writes (CS330_projects/proj2/filesys).
use cs_courses.Base.{
  ℕ, ◌+◌, ◌*◌, ◌≡◌, refl, Bool, true, false, some, List, [], ◌∷◌, pos, ◌==◌, if◌then◌else◌, arith,
}
use cs_courses.Bitmap.{ok, ◌>>=◌}
use cs_courses.Inode.{Disk, Inode, inode_write_at}
use cs_courses.Files.{
  File, FileSystem, put_file, inode_open, file_open, file_reopen, file_deny_write, file_close,
  file_write,
}
use cs_courses.Files.References.{Succeeds}
use cs_courses.Files.Reachable.{
  Reach, start, opens, file_opens, file_reopens, file_denies, file_closes, Reach-Succeeds,
}
use cs_courses.Files.Denied.{file_write-denied}

-- Sector 7 has an inode of 600 bytes from sector 10 on.
abbrev disk : Disk
disk sector i =
    if sector == 7
    then (if i == 0 then 10 else if i == 4 then 88 else if i == 5 then 2 else 0)
    else sector * 1000 + i

abbrev memory : ℕ → ℕ
memory a = a

abbrev node : ℕ → ℕ → Inode
node open_cnt denials = record {
  sector = 7;
  open_cnt = open_cnt;
  removed = false;
  deny_write_cnt = denials;
  start = 10;
  length = 600;
}

abbrev opened : ℕ → Bool → File
opened position deny = record { inode = 500; pos = position; deny_write = deny }

abbrev system : List (ℕ × Inode) → List (ℕ × File) → FileSystem
system inodes files = record {
  open_inodes = inodes;
  files = files;
  released = [];
  disk = disk;
  memory = memory;
}

held_once : Reach disk memory (ok (500 ∷ [], system ((500, node 1 0) ∷ []) []))
unfolding inode_open
held_once = opens [] (system [] []) (some 500) 7 start (λ a h. refl)

one_file : Reach disk memory (ok ([], system ((500, node 1 0) ∷ []) ((600, opened 0 false) ∷ [])))
unfolding file_open
one_file =
    file_opens (500 ∷ []) (system ((500, node 1 0) ∷ []) []) (some 600) 500 held_once (ground arith)

abbrev two : FileSystem
two = system ((500, node 2 0) ∷ []) ((601, opened 0 false) ∷ (600, opened 0 false) ∷ [])

two_files : Reach disk memory (ok ([], two))
unfolding file_reopen
two_files =
    file_reopens [] (system ((500, node 1 0) ∷ []) ((600, opened 0 false) ∷ [])) (some 601) 600
      (opened 0 false) one_file refl

abbrev guarded : FileSystem
guarded = system ((500, node 2 1) ∷ []) ((601, opened 0 true) ∷ (600, opened 0 false) ∷ [])

guarded_file : Reach disk memory (ok ([], guarded))
unfolding file_deny_write
guarded_file = file_denies [] two 601 (opened 0 false) two_files refl

write_run : file_write true 600 3 (pos 4) guarded ≡ ok (0, guarded)
unfolding file_write inode_write_at
write_run = refl

close_run :
    file_close (some 601) guarded ≡ ok (system ((500, node 1 0) ∷ []) ((600, opened 0 false) ∷ []))
unfolding file_close
close_run = refl

Reach-Succeeds_example : Succeeds (file_close (some 601) guarded >>= (λ s'. ok ([], s')))
Reach-Succeeds_example =
    Reach-Succeeds disk memory (file_close (some 601) guarded >>= (λ s'. ok ([], s')))
      (file_closes [] guarded 601 (opened 0 true) guarded_file refl)

file_write-denied_example :
    file_write true 600 3 (pos 4) guarded ≡ ok (0, put_file 600 (opened 0 false) guarded)
file_write-denied_example =
    file_write-denied disk memory [] guarded 600 601 (opened 0 false) (opened 0 true) true 3 (pos 4)
      guarded_file refl refl refl refl
