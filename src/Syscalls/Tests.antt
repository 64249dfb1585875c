-- ===== src/Syscalls/Tests.antt =====
-- A process that opens a file twice, reads it, closes one descriptor and ends (CS330_projects/proj2/userprog/syscall.c).
use cs_courses.Base.{
  ℕ, ◌+◌, ◌*◌, ◌^◌, ◌≡◌, ◌≤◌, ◌<◌, ◌⊎◌, refl, sym, ap, true, false, none, some, [], ◌∷◌, ◌==◌,
  if◌then◌else◌, arith,
}
use mathlib.Core.Path.{subst}
use cs_courses.Bitmap.{Run, ok, panic, ◌>>=◌}
use cs_courses.Inode.{Disk, Inode}
use cs_courses.Files.{FileSystem, lookup, file_seek, inode_open, inode_reopen, file_open}
use cs_courses.Files.Reachable.{Reach, start, opens, Reach-Succeeds}
use cs_courses.Syscalls.{
  Process, find_fd, minus_one, sys_open, sys_seek, sys_tell, sys_read, sys_write, sys_close,
  sys_filesize,
}
use cs_courses.Syscalls.Owned.{IsProcess}
use cs_courses.Syscalls.Open.{sys_open-find_fd}
use cs_courses.Syscalls.Session.{Session, begins, Ends, Session-Ends, sys_seek-tell}

abbrev disk : Disk
disk sector i =
    if sector == 7
    then (if i == 0 then 10 else if i == 4 then 88 else if i == 5 then 2 else 0)
    else sector * 1000 + i

abbrev memory : ℕ → ℕ
memory a = a

abbrev node : ℕ → Inode
node open_cnt = record {
  sector = 7;
  open_cnt = open_cnt;
  removed = false;
  deny_write_cnt = 0;
  start = 10;
  length = 600;
}

-- The inode has been found twice.
abbrev found : FileSystem
found = record {
  open_inodes = (500, node 2) ∷ [];
  files = [];
  released = [];
  disk = disk;
  memory = memory;
}

found_twice : Reach disk memory (ok (500 ∷ 500 ∷ [], found))
unfolding inode_open inode_reopen
found_twice =
    opens (500 ∷ [])
      (record {
        open_inodes = (500, node 1) ∷ [];
        files = [];
        released = [];
        disk = disk;
        memory = memory;
      })
      none 7
      (opens []
        (record { open_inodes = []; files = []; released = []; disk = disk; memory = memory })
        (some 500) 7 start (λ a h. refl))
      (λ a h. ground (arith, h))

abbrev fresh : Process
fresh = record { system = found; descriptors = []; open_cnt = 2; console = [] }

fresh-IsProcess : IsProcess (500 ∷ 500 ∷ []) fresh
fresh-IsProcess = record {
  counted = Reach-Succeeds disk memory (ok (500 ∷ 500 ∷ [], found)) found_twice;
  live = tt;
  sole = tt;
  given = tt;
}

abbrev one : Process
one = record {
  system = record found { files = (600, record { inode = 500; pos = 0; deny_write = false }) ∷ [] };
  descriptors = record { fd = 3; fp = 600 } ∷ [];
  open_cnt = 3;
  console = [];
}

open_run : sys_open (some 600) true (some 500) fresh ≡ ok (3, one)
unfolding sys_open file_open
open_run = refl

-- With no block for the descriptor the kernel writes to address 0.
no_node_run : sys_open (some 600) false (some 500) fresh ≡ panic
unfolding sys_open file_open
no_node_run = refl

-- The size of descriptor 0 leaves eax as it was.
size_zero_run : sys_filesize 77 0 one ≡ ok (77, one)
unfolding sys_filesize
size_zero_run = refl

size_none_run : sys_filesize 77 9 one ≡ ok (minus_one, one)
unfolding sys_filesize
size_none_run = refl

close_again_run : sys_close 77 9 one ≡ ok (77, one)
unfolding sys_close
close_again_run = refl

-- The process of a run.
abbrev process_of : Run (ℕ × Process) → Process
process_of (ok r) = r.1
process_of panic = fresh

one_open : Session (500 ∷ 500 ∷ []) fresh (500 ∷ []) (ok (3, one))
unfolding sys_open file_open
one_open =
    Session.opens (500 ∷ 500 ∷ []) 0 fresh (some 600) 500 (begins 0) (ground arith) (λ f h. refl)

Session-Ends_example : Ends (500 ∷ []) (sys_close 77 3 one)
Session-Ends_example =
    Session-Ends (500 ∷ 500 ∷ []) (500 ∷ []) fresh (sys_close 77 3 one) fresh-IsProcess
      (Session.closes (500 ∷ []) 3 one 77 3 one_open)

sys_open-find_fd_example :
    (p' : Process) × (sys_open (some 600) true (some 500) fresh ≡ ok (3, p'))
    × (find_fd 3 p'.descriptors ≡ some 600)
    × (lookup 600 p'.system.files ≡ some (record { inode = 500; pos = 0; deny_write = false }))
    × (find_fd 3 fresh.descriptors ≡ none)
sys_open-find_fd_example = sys_open-find_fd (500 ∷ 500 ∷ []) fresh 600 500 3 fresh-IsProcess

one-IsProcess : IsProcess (500 ∷ []) one
one-IsProcess =
    let (eax, p, s, run, is, _, _) =
      Session-Ends (500 ∷ 500 ∷ []) (500 ∷ []) fresh (ok (3, one)) fresh-IsProcess one_open in
    subst (IsProcess (500 ∷ [])) (sym (ap process_of run)) is

sys_seek-tell_example :
    ((100 < 2 ^ 31)
      × (p' : Process) × (sys_seek 77 3 100 one ≡ ok (77, p'))
      × ((old : ℕ) → sys_tell old 3 p' ≡ ok (100, p'))
      × ((g : ℕ) → (600 == g) ≡ false → lookup g p'.system.files ≡ lookup g one.system.files))
    ⊎ ((2 ^ 31 ≤ 100) × (sys_seek 77 3 100 one ≡ panic))
sys_seek-tell_example = sys_seek-tell (500 ∷ []) one 77 3 600 100 one-IsProcess refl

seek_far_run : sys_seek 77 3 (2 ^ 31) one ≡ panic
unfolding sys_seek file_seek
seek_far_run = refl

-- Two keys are typed, and two bytes printed.
read_keyboard_run :
    (sys_read true (λ n. 65 + n) 77 0 4000 2 one >>= (λ r.
      (let p = r.1 in
        let s = p.system in ok (r.0 ∷ s.memory 4000 ∷ s.memory 4001 ∷ s.memory 4002 ∷ []))))
    ≡ ok (2 ∷ 65 ∷ 66 ∷ 4002 ∷ [])
unfolding sys_read
read_keyboard_run = refl

write_console_run :
    (sys_write true 77 1 4000 2 one >>= (λ r. (let p = r.1 in ok p.console)))
    ≡ ok (4000 ∷ 4001 ∷ [])
unfolding sys_write
write_console_run = refl
