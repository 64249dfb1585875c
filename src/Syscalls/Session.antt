-- ===== src/Syscalls/Session.antt =====
-- What a process does with its descriptors in CS330_projects/proj2/userprog/syscall.c, from call to call, and the end.
use cs_courses.Base.{
  ℕ, ◌^◌, ◌≤◌, ◌<◌, ◌≡◌, refl, Bool, true, false, Option, none, some, List, [], ◌∷◌, ltb, ◌==◌, ◌⊎◌,
  inl, inr, Bool-cases, pos, arith,
}
use cs_courses.Bitmap.{Run, ok, panic}
use cs_courses.Files.{File, FileSystem, lookup, with_file, put_file, file_seek, file_tell}
use cs_courses.Files.Store.{lookup-put, lookup-put_other}
use cs_courses.Files.Holders.{uses, give_up}
use cs_courses.Files.References.{IsCounted, Live}
use cs_courses.Files.Opened.{file_close-Kept}
use cs_courses.Syscalls.{
  Descriptor, Process, find_fd, sys_open, sys_filesize, sys_read, sys_write, sys_seek, sys_tell,
  sys_close, close_all,
}
use cs_courses.Syscalls.Owned.{IsProcess, IsSole, AllLive, All-both, find_fd-All}
use cs_courses.Syscalls.Calls.{
  Returns, sys_read-Returns, sys_write-Returns, sys_seek-Returns, sys_close-Returns,
  sys_tell-Returns, sys_filesize-Returns,
}
use cs_courses.Syscalls.Open.{sys_open-Returns}

-- The calls of a process that starts as `start`. An open takes one of the references `refs` to an inode, as dir_lookup
-- gives it, and calloc answers with no block in use; a position is below 2 ^ 31.
pub data Session (from : List ℕ) (start : Process) : List ℕ → Run (ℕ × Process) → Type 0 where
  begins : (eax : ℕ) → Session from start from (ok (eax, start))
  opens :
      (refs : List ℕ) (eax : ℕ) (p : Process) (block : Option ℕ) (a : ℕ)
      → Session from start refs (ok (eax, p))
      → 0 < uses a refs
      → ((f : ℕ) → block ≡ some f → lookup f p.system.files ≡ none)
      → Session from start (give_up a refs) (sys_open block true (some a) p)
  reads :
      (refs : List ℕ) (old : ℕ) (p : Process) (room : Bool) (keys : ℕ → ℕ) (eax fd buf slen : ℕ)
      → Session from start refs (ok (old, p))
      → Session from start refs (sys_read room keys eax fd buf slen p)
  writes :
      (refs : List ℕ) (old : ℕ) (p : Process) (room : Bool) (eax fd usrbuf slen : ℕ)
      → Session from start refs (ok (old, p))
      → Session from start refs (sys_write room eax fd usrbuf slen p)
  seeks :
      (refs : List ℕ) (old : ℕ) (p : Process) (eax fd position : ℕ)
      → Session from start refs (ok (old, p))
      → position < 2 ^ 31
      → Session from start refs (sys_seek eax fd position p)
  tells :
      (refs : List ℕ) (old : ℕ) (p : Process) (eax fd : ℕ)
      → Session from start refs (ok (old, p))
      → Session from start refs (sys_tell eax fd p)
  sizes :
      (refs : List ℕ) (old : ℕ) (p : Process) (eax fd : ℕ)
      → Session from start refs (ok (old, p))
      → Session from start refs (sys_filesize eax fd p)
  closes :
      (refs : List ℕ) (old : ℕ) (p : Process) (eax fd : ℕ)
      → Session from start refs (ok (old, p))
      → Session from start refs (sys_close eax fd p)

-- The state of a run that has returned.
abbrev InOrder : List ℕ → Run (ℕ × Process) → Type 0
InOrder refs (ok r) = IsProcess refs r.1
InOrder refs panic = ⊥

returned : (refs : List ℕ) (r : Run (ℕ × Process)) → Returns refs r → InOrder refs r
returned refs r (eax, p, run, is) = rw run is

in_order :
    (from : List ℕ) (start : Process)
    → IsProcess from start
    → (refs : List ℕ) (r : Run (ℕ × Process)) → Session from start refs r
    → InOrder refs r
in_order from start is _ _ (begins eax) = is
in_order from start is _ _ (opens refs eax p block a before used fresh) =
    returned (give_up a refs) (sys_open block true (some a) p) (
      sys_open-Returns refs p (in_order from start is refs (ok (eax, p)) before) block a used fresh)
in_order from start is _ _ (reads refs old p room keys eax fd buf slen before) =
    returned refs (sys_read room keys eax fd buf slen p) (
      sys_read-Returns refs p (in_order from start is refs (ok (old, p)) before) room keys eax fd
        buf slen)
in_order from start is _ _ (writes refs old p room eax fd usrbuf slen before) =
    returned refs (sys_write room eax fd usrbuf slen p) (
      sys_write-Returns refs p (in_order from start is refs (ok (old, p)) before) room eax fd usrbuf
        slen)
in_order from start is _ _ (seeks refs old p eax fd position before small) =
    returned refs (sys_seek eax fd position p) (
      sys_seek-Returns refs p (in_order from start is refs (ok (old, p)) before) eax fd position
        small)
in_order from start is _ _ (tells refs old p eax fd before) =
    returned refs (sys_tell eax fd p)
      (sys_tell-Returns refs p (in_order from start is refs (ok (old, p)) before) eax fd)
in_order from start is _ _ (sizes refs old p eax fd before) =
    returned refs (sys_filesize eax fd p)
      (sys_filesize-Returns refs p (in_order from start is refs (ok (old, p)) before) eax fd)
in_order from start is _ _ (closes refs old p eax fd before) =
    returned refs (sys_close eax fd p)
      (sys_close-Returns refs p (in_order from start is refs (ok (old, p)) before) eax fd)

close_all-IsCounted :
    (refs : List ℕ) (ds : List Descriptor) (s : FileSystem)
    → IsCounted refs s
    → AllLive s ds
    → IsSole ds
    → (s' : FileSystem) × (close_all ds s ≡ ok s') × IsCounted refs s'
unfolding close_all
close_all-IsCounted refs [] s counted live sole = (s, refl, counted)
close_all-IsCounted refs (d ∷ ds) s counted ((file, found), live) (away, sole) =
    let (s1, run, counted1, others) = file_close-Kept refs s counted d.fp file found in
    let live1 =
      All-both (λ e. (d.fp == e.fp) ≡ false) (λ e. Live e.fp s) (λ e. Live e.fp s1) ds
        (λ e apart here. others e.fp apart here) away live in
    let (s', rest, counted') = close_all-IsCounted refs ds s1 counted1 live1 sole in
    (s', rw (run, rest) refl, counted')

-- A run that has returned to a process in order, whose end closes all its files.
abbrev pub Ends : List ℕ → Run (ℕ × Process) → Type 0
Ends refs r =
    (eax : ℕ) × (p : Process) × (s : FileSystem) × (r ≡ ok (eax, p))
    × IsProcess refs p
    × (close_all p.descriptors p.system ≡ ok s)
    × IsCounted refs s

ends : (refs : List ℕ) (r : Run (ℕ × Process)) → InOrder refs r → Ends refs r
ends refs panic none_left = absurd none_left
ends refs (ok (eax, p)) is =
    let (s, run, counted) =
      close_all-IsCounted refs p.descriptors p.system is.counted is.live is.sole in
    (eax, p, s, refl, is, run, counted)

-- From a process in order, every sequence of calls that open, read, write, seek, tell, size and close, each in one piece
-- and on any descriptors, the keyboard and the console included, returns without a failed assertion to a process in
-- order, if every seek is to a position below 2 ^ 31, every open has a held reference to its inode and there is always
-- a block for the descriptor: its descriptors are numbers that have been given, of open files, no two of the same file.
-- When it ends then, all its files are closed without a failed assertion and the counts of the inodes are again those
-- of the holders that are left.
pub Session-Ends :
    (from refs : List ℕ) (start : Process) (r : Run (ℕ × Process))
    → IsProcess from start
    → Session from start refs r
    → Ends refs r
Session-Ends from refs start r is session = ends refs r (in_order from start is refs r session)

-- A file at another position: where it is then, and all the others.
put_pos :
    (s : FileSystem) (f position : ℕ) (file : File)
    → lookup f s.files ≡ some file
    → (s' : FileSystem) × (file_seek f (pos position) s ≡ ok s')
      × (file_tell f s' ≡ ok position)
      × ((g : ℕ) → (f == g) ≡ false → lookup g s'.files ≡ lookup g s.files)
unfolding file_seek file_tell
put_pos s f position file found =
    let file' = record file { pos = position } in
    (
      put_file f file' s,
      rw (file_seek, with_file, found) refl,
      rw (file_tell, with_file, lookup-put f file' file s.files found) refl,
      λ g away. lookup-put_other f g file' s.files away,
    )

-- SYS_SEEK of an open descriptor of a process in order, to a position below 2 ^ 31, returns with eax as it was; SYS_TELL
-- then answers with this position, whatever eax holds, while every other open file is as before. To a position from
-- 2 ^ 31 on, which is an unsigned number for the caller, it fails an assertion of the kernel.
pub sys_seek-tell :
    (refs : List ℕ) (p : Process) (eax fd f position : ℕ)
    → IsProcess refs p
    → find_fd fd p.descriptors ≡ some f
    → ((position < 2 ^ 31)
        × (p' : Process) × (sys_seek eax fd position p ≡ ok (eax, p'))
        × ((old : ℕ) → sys_tell old fd p' ≡ ok (position, p'))
        × ((g : ℕ) → (f == g) ≡ false → lookup g p'.system.files ≡ lookup g p.system.files))
      ⊎ ((2 ^ 31 ≤ position) × (sys_seek eax fd position p ≡ panic))
unfolding sys_seek sys_tell file_seek
sys_seek-tell refs p eax fd f position is found = elim (Bool-cases (ltb position (2 ^ 31))) [
  | inl small ↦
      let (file, open_file) = find_fd-All (λ g. Live g p.system) fd f p.descriptors is.live found in
      let (s', run, told, others) = put_pos p.system f position file open_file in
      inl (
        ground (arith, small),
        record p { system = s' },
        rw (sys_seek, found, small, run) refl,
        (λ old. rw (sys_tell, found, told) refl),
        others,
      )
  | inr large ↦ inr (ground (arith, large), rw (sys_seek, found, large) refl)
]
