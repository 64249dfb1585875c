-- ===== src/Syscalls.antt =====
-- CS330_projects/proj2/userprog/syscall.c: the calls on file descriptors of one process, behind the
-- tests of the arguments' addresses, each as a whole since filesys_lock is held. The directories are
-- left out: the inode that dir_lookup finds for SYS_OPEN is an argument, with malloc's answers and the
-- keys that input_getc returns one after another for descriptor 0. The bytes that putbuf prints for
-- descriptor 1 are kept as a trace. eax holds what it held before where a call does not set it; that
-- is an argument.
pub mod Owned
pub mod Calls
pub mod Open
pub mod Session
mod Tests
use cs_courses.Base.{
  ℕ, zero, suc, ◌+◌, ◌-◌, ◌^◌, Bool, true, false, Option, none, some, List, [], ◌∷◌, ◌++◌, ℤ, pos,
  negsuc, ltb, ◌==◌, if◌then◌else◌, update,
}
use cs_courses.Bitmap.{Run, ok, panic, ◌>>=◌}
use cs_courses.Files.{
  FileSystem, file_open, file_close, file_length, file_read, file_write, file_seek, file_tell,
}

-- struct descriptor
pub record Descriptor : Type 0 where
  pub fd : ℕ
  pub fp : ℕ

-- The file system with the fields files and open_cnt of the thread, and what has been printed on the console.
pub record Process : Type 0 where
  pub system : FileSystem
  pub descriptors : List Descriptor
  pub open_cnt : ℕ
  pub console : List ℕ

-- -1 in eax
abbrev pub minus_one : ℕ
minus_one = 2 ^ 32 - 1

-- list_entry (e, struct descriptor, elem)->fd at the tail of a list: the prev of its head, which is NULL
abbrev pub tail_fd : ℕ
tail_fd = 0

-- A word as an off_t.
abbrev pub to_off_t : ℕ → ℤ
to_off_t n = if ltb n (2 ^ 31) then pos n else negsuc (2 ^ 32 - 1 - n)

-- The loop that looks for a descriptor.
abbrev pub find_fd : ℕ → List Descriptor → Option ℕ
find_fd fd [] = none
find_fd fd (d ∷ ds) = let rest = find_fd fd ds in if d.fd == fd then some d.fp else rest

-- list_remove of the descriptor that was found
abbrev pub remove_fd : ℕ → List Descriptor → List Descriptor
remove_fd fd [] = []
remove_fd fd (d ∷ ds) = let rest = remove_fd fd ds in if d.fd == fd then ds else d ∷ rest

-- SYS_OPEN behind dir_lookup; `node` is malloc's answer for the descriptor, which is not tested.
unfoldable pub sys_open : Option ℕ → Bool → Option ℕ → Process → Run (ℕ × Process)
unfolding file_open
sys_open block node inode p = file_open block inode p.system >>= (λ r. elim r.0 [
  | none ↦ ok (minus_one, record p { system = r.1 })
  | some f ↦
      if node
      then (let fd = p.open_cnt + 1 in
          ok (
            fd,
            record {
              system = r.1;
              descriptors = p.descriptors ++ (record { fd = fd; fp = f } ∷ []);
              open_cnt = fd;
              console = p.console;
            },
          ))
      else panic
])

unfoldable pub sys_filesize : ℕ → ℕ → Process → Run (ℕ × Process)
unfolding file_length
sys_filesize eax fd p = elim (find_fd fd p.descriptors) [
  | none ↦ ok (if tail_fd == fd then eax else minus_one, p)
  | some f ↦ file_length f p.system >>= (λ n. ok (n, p))
]

-- while (written < slen) buf[written++] = input_getc (), with `left` bytes to go
unfoldable pub input_loop : (ℕ → ℕ) → ℕ → ℕ → ℕ → (ℕ → ℕ) → ℕ → ℕ
input_loop keys buf zero written memory = memory
input_loop keys buf (suc left) written memory =
    input_loop keys buf left (written + 1) (update memory (buf + written) (keys written))

-- `room` is malloc's answer for the bounce buffer, and `keys` what is typed.
unfoldable pub sys_read : Bool → (ℕ → ℕ) → ℕ → ℕ → ℕ → ℕ → Process → Run (ℕ × Process)
unfolding file_read input_loop
sys_read room keys eax fd buf slen p =
    let s = p.system in
    if fd == 0
    then ok (slen, record p { system = record s { memory = input_loop keys buf slen 0 s.memory } })
    else elim (find_fd fd p.descriptors) [
      | none ↦ ok (if tail_fd == fd then eax else 0, p)
      | some f ↦
          file_read room f buf (to_off_t slen) p.system
          >>= (λ r. ok (r.0, record p { system = r.1 }))
    ]

-- The bytes that putbuf prints.
abbrev pub buffer_at : (ℕ → ℕ) → ℕ → ℕ → List ℕ
buffer_at memory buffer zero = []
buffer_at memory buffer (suc n) = memory buffer ∷ buffer_at memory (buffer + 1) n

unfoldable pub sys_write : Bool → ℕ → ℕ → ℕ → ℕ → Process → Run (ℕ × Process)
unfolding file_write
sys_write room eax fd usrbuf slen p =
    let s = p.system in
    if fd == 1
    then ok (slen, record p { console = p.console ++ buffer_at s.memory usrbuf slen })
    else elim (find_fd fd p.descriptors) [
      | none ↦ ok (if tail_fd == fd then eax else 0, p)
      | some f ↦
          file_write room f usrbuf (to_off_t slen) p.system
          >>= (λ r. ok (r.0, record p { system = r.1 }))
    ]

unfoldable pub sys_seek : ℕ → ℕ → ℕ → Process → Run (ℕ × Process)
unfolding file_seek
sys_seek eax fd position p = elim (find_fd fd p.descriptors) [
  | none ↦ ok (eax, p)
  | some f ↦ file_seek f (to_off_t position) p.system >>= (λ s. ok (eax, record p { system = s }))
]

unfoldable pub sys_tell : ℕ → ℕ → Process → Run (ℕ × Process)
unfolding file_tell
sys_tell eax fd p = elim (find_fd fd p.descriptors) [
  | none ↦ ok (eax, p)
  | some f ↦ file_tell f p.system >>= (λ n. ok (n, p))
]

unfoldable pub sys_close : ℕ → ℕ → Process → Run (ℕ × Process)
unfolding file_close
sys_close eax fd p = elim (find_fd fd p.descriptors) [
  | none ↦ ok (eax, p)
  | some f ↦
      file_close (some f) p.system
      >>= (λ s. ok (eax, record p { system = s; descriptors = remove_fd fd p.descriptors }))
]

-- The loop of SYS_EXIT and abort_userprog over the descriptors.
unfoldable pub close_all : List Descriptor → FileSystem → Run FileSystem
unfolding file_close
close_all [] s = ok s
close_all (d ∷ ds) s = file_close (some d.fp) s >>= close_all ds
