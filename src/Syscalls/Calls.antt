-- ===== src/Syscalls/Calls.antt =====
-- Each call of CS330_projects/proj2/userprog/syscall.c on the descriptors of a process, and sequences of them.
use cs_courses.Base.{
  ℕ, ◌^◌, ◌≤◌, ◌<◌, ◌≡◌, refl, Bool, true, false, some, List, ◌++◌, ltb, ◌==◌, if◌then◌else◌,
  Option-cases, Bool-cases, inl, inr, All-mono, arith,
}
use cs_courses.Bitmap.{Run, ok}
use cs_courses.Files.{with_file, with_inode, FileSystem, file_tell, file_length}
use cs_courses.Files.Holders.{holders, deniers, file-holds}
use cs_courses.Files.Inodes.{held-open}
use cs_courses.Files.References.{Live, Kept}
use cs_courses.Files.Opened.{file_close-Kept, file_seek-Kept, file_read-Kept, file_write-Kept}
use cs_courses.Syscalls.{
  Process, find_fd, input_loop, buffer_at, remove_fd, minus_one, to_off_t, sys_filesize, sys_read,
  sys_write, sys_seek, sys_tell, sys_close,
}
use cs_courses.Syscalls.Owned.{
  IsProcess, find_fd-All, remove_fd-All, remove_fd-IsSole, remove_fd-other, All-both,
}

-- The call returns, to a process that is in order again.
abbrev pub Returns : List ℕ → Run (ℕ × Process) → Type 0
Returns refs r = (eax : ℕ) × (p' : Process) × (r ≡ ok (eax, p')) × IsProcess refs p'

module _ (refs : List ℕ) (p : Process) (is : IsProcess refs p) where
  -- The same descriptors over a file system in which all files are still open.
  pub kept :
      (refs' : List ℕ) (s' : FileSystem)
      → Kept refs' p.system s'
      → IsProcess refs' (record p { system = s' })
  kept refs' s' (counted', open_still) = record {
    counted = counted';
    live =
        All-mono (λ d. Live d.fp p.system) (λ d. Live d.fp s') p.descriptors (λ d. open_still d.fp)
          is.live;
    sole = is.sole;
    given = is.given;
  }

  found-Live : (fd f : ℕ) → find_fd fd p.descriptors ≡ some f → Live f p.system
  found-Live fd f found = find_fd-All (λ g. Live g p.system) fd f p.descriptors is.live found

  pub sys_read-Returns :
      (room : Bool) (keys : ℕ → ℕ) (eax fd buf slen : ℕ)
      → Returns refs (sys_read room keys eax fd buf slen p)
  unfolding sys_read
  sys_read-Returns room keys eax fd buf slen = elim (Bool-cases (fd == 0)) [
    | inl keyboard ↦
        let s = p.system in
        let s' = record s { memory = input_loop keys buf slen 0 s.memory } in
        let keeps : Kept refs s s' = (is.counted, λ f live. live) in
        (slen, record p { system = s' }, rw (sys_read, keyboard) refl, kept refs s' keeps)
    | inr file ↦ elim (Option-cases (find_fd fd p.descriptors)) [
      | inl missing ↦ (if 0 == fd then eax else 0, p, rw (sys_read, file, missing) refl, is)
      | inr (f, found) ↦
          let (x, open_file) = found-Live fd f found in
          let (n, s', run, keeps) =
            file_read-Kept refs p.system is.counted f x open_file room buf (to_off_t slen) in
          (n, record p { system = s' }, rw (sys_read, file, found, run) refl, kept refs s' keeps)
    ]
  ]

  pub sys_write-Returns :
      (room : Bool) (eax fd usrbuf slen : ℕ) → Returns refs (sys_write room eax fd usrbuf slen p)
  unfolding sys_write
  sys_write-Returns room eax fd usrbuf slen = elim (Bool-cases (fd == 1)) [
    | inl screen ↦
        let s = p.system in
        (
          slen,
          record p { console = p.console ++ buffer_at s.memory usrbuf slen },
          rw (sys_write, screen) refl,
          record { counted = is.counted; live = is.live; sole = is.sole; given = is.given },
        )
    | inr file ↦ elim (Option-cases (find_fd fd p.descriptors)) [
      | inl missing ↦ (if 0 == fd then eax else 0, p, rw (sys_write, file, missing) refl, is)
      | inr (f, found) ↦
          let (x, open_file) = found-Live fd f found in
          let (n, s', run, keeps) =
            file_write-Kept refs p.system is.counted f x open_file room usrbuf (to_off_t slen) in
          (n, record p { system = s' }, rw (sys_write, file, found, run) refl, kept refs s' keeps)
    ]
  ]

  pub sys_seek-Returns :
      (eax fd position : ℕ) → position < 2 ^ 31 → Returns refs (sys_seek eax fd position p)
  unfolding sys_seek
  sys_seek-Returns eax fd position small = elim (Option-cases (find_fd fd p.descriptors)) [
    | inl missing ↦ (eax, p, rw (sys_seek, missing) refl, is)
    | inr (f, found) ↦
        let (file, open_file) = found-Live fd f found in
        let (s', run, keeps) = file_seek-Kept refs p.system is.counted f file open_file position in
        let positive : ltb position (2 ^ 31) ≡ true = ground (arith, small) in
        (
          eax,
          record p { system = s' },
          rw (sys_seek, found, positive, run) refl,
          kept refs s' keeps,
        )
  ]

  pub sys_close-Returns : (eax fd : ℕ) → Returns refs (sys_close eax fd p)
  unfolding sys_close
  sys_close-Returns eax fd = elim (Option-cases (find_fd fd p.descriptors)) [
    | inl missing ↦ (eax, p, rw (sys_close, missing) refl, is)
    | inr (f, found) ↦
        let (file, open_file) = found-Live fd f found in
        let (s', run, counted', others) =
          file_close-Kept refs p.system is.counted f file open_file in
        (
          eax,
          record p { system = s'; descriptors = remove_fd fd p.descriptors },
          rw (sys_close, found, run) refl,
          record {
            counted = counted';
            live =
                All-both (λ d. (f == d.fp) ≡ false) (λ d. Live d.fp p.system) (λ d. Live d.fp s')
                  (remove_fd fd p.descriptors) (λ d away live. others d.fp away live)
                  (remove_fd-other fd f p.descriptors is.sole found)
                  (remove_fd-All (λ d. Live d.fp p.system) fd p.descriptors is.live);
            sole = remove_fd-IsSole fd p.descriptors is.sole;
            given = remove_fd-All (λ d. d.fd ≤ p.open_cnt) fd p.descriptors is.given;
          },
        )
  ]

  pub sys_tell-Returns : (eax fd : ℕ) → Returns refs (sys_tell eax fd p)
  unfolding sys_tell file_tell
  sys_tell-Returns eax fd = elim (Option-cases (find_fd fd p.descriptors)) [
    | inl missing ↦ (eax, p, rw (sys_tell, missing) refl, is)
    | inr (f, found) ↦
        let (file, open_file) = found-Live fd f found in
        (file.pos, p, rw (sys_tell, file_tell, with_file, found, open_file) refl, is)
  ]

  pub sys_filesize-Returns : (eax fd : ℕ) → Returns refs (sys_filesize eax fd p)
  unfolding sys_filesize file_length
  sys_filesize-Returns eax fd = elim (Option-cases (find_fd fd p.descriptors)) [
    | inl missing ↦ (if 0 == fd then eax else minus_one, p, rw (sys_filesize, missing) refl, is)
    | inr (f, found) ↦
        let (file, open_file) = found-Live fd f found in
        let (i, open_i, agrees) =
          held-open p.system file.inode (holders refs p.system.files) (deniers p.system.files)
            (holders refs p.system.files) (deniers p.system.files) is.counted
            (λ b away. (refl, refl)) (file-holds refs p.system.files f file open_file) in
        (
          i.length,
          p,
          rw (sys_filesize, file_length, with_file, with_inode, found, open_file, open_i) refl,
          is,
        )
  ]
