-- ===== src/Files/Opened.antt =====
-- What each operation of file.c does to the counts of the inodes (CS330_projects/proj2/filesys).
use cs_courses.Base.{
  ℕ, ◌+◌, ◌<◌, ◌≡◌, refl, sym, ap, ◌∙◌, Bool, true, false, ◌&&◌, Option, some, List, ◌∷◌, ℤ, pos,
  ◌==◌, ==_refl, if◌then◌else◌, Bool-cases, inl, inr, arith,
}
use mathlib.Core.Path.{subst}
use cs_courses.Bitmap.{ok, ◌>>=◌}
use cs_courses.Inode.{Disk, inode_read_at, inode_write_at}
use cs_courses.Files.{
  File, FileSystem, lookup, put, free, with_inode, with_file, put_file, inode_close, file_open,
  file_reopen, file_deny_write, file_allow_write, file_close, file_read, file_write, file_seek,
}
use cs_courses.Files.Store.{count-free, lookup-put, lookup-put_any, lookup-free_other}
use cs_courses.Files.Counts.{Counted}
use cs_courses.Files.Holders.{
  give_up, holders, deniers, deniers-le, file-holds, holders-put, deniers-put, same-Counted,
}
use cs_courses.Files.Inodes.{held-open, close-Recounts, deny-Recounts, allow-Recounts}
use cs_courses.Files.References.{
  IsCounted, Succeeds, Live, Kept, inode_reopen-IsCounted, open_file-Succeeds,
}

module _ (refs : List ℕ) (s : FileSystem) (counted : IsCounted refs s) (f : ℕ) (file : File)
    (found : lookup f s.files ≡ some file) where
  held : 0 < holders refs s.files file.inode
  held = file-holds refs s.files f file found

  -- A file at another position, with other data on the disk and in memory.
  moved :
      (n : ℕ) (disk : Disk) (memory : ℕ → ℕ)
      → Kept refs s (record s {
        files = put f (record file { pos = n }) s.files;
        disk = disk;
        memory = memory;
      })
  moved n disk memory = (
    same-Counted s.open_inodes (holders refs s.files) (deniers s.files)
        (holders refs (put f (record file { pos = n }) s.files))
        (deniers (put f (record file { pos = n }) s.files))
        (holders-put refs s.files f file found n file.deny_write)
        (λ a. omega (arith, deniers-put refs s.files f file found n file.deny_write a)) counted,
    λ g (x, found_g). lookup-put_any f g (record file { pos = n }) file x s.files found found_g,
  )

  pub reopen_file-Succeeds :
      (block : Option ℕ) → Succeeds (file_reopen block f s >>= (λ r. ok (refs, r.1)))
  unfolding file_reopen
  reopen_file-Succeeds block =
      let (s', run, files, counted') = inode_reopen-IsCounted refs s counted file.inode held in
      let own : give_up file.inode (file.inode ∷ refs) ≡ refs =
        ground (arith, ==_refl file.inode) in
      let opened =
        open_file-Succeeds (file.inode ∷ refs) s' counted' block file.inode
          (ground (arith, ==_refl file.inode)) in
      let run' : file_reopen block f s ≡ file_open block (some file.inode) s' =
        rw (file_reopen, with_file, found, run) refl in
      rw run' (
        subst (λ refs. Succeeds (file_open block (some file.inode) s' >>= (λ r. ok (refs, r.1))))
          own opened)

  pub file_seek-Kept :
      (n : ℕ) → (s' : FileSystem) × (file_seek f (pos n) s ≡ ok s') × Kept refs s s'
  unfolding file_seek
  file_seek-Kept n =
      let run : file_seek f (pos n) s ≡ ok (put_file f (record file { pos = n }) s) =
        rw (file_seek, with_file, found) refl in
      (put_file f (record file { pos = n }) s, run, moved n s.disk s.memory)

  pub file_read-Kept :
      (room : Bool) (buffer : ℕ) (size : ℤ)
      → (n : ℕ) × (s' : FileSystem) × (file_read room f buffer size s ≡ ok (n, s')) × Kept refs s s'
  unfolding file_read
  file_read-Kept room buffer size =
      let (i, open_i, agrees) =
        held-open s file.inode (holders refs s.files) (deniers s.files) (holders refs s.files)
          (deniers s.files) counted (λ b away. (refl, refl)) held in
      let r = inode_read_at room s.disk i buffer size file.pos s.memory in
      let run : file_read room f buffer size s
          ≡ ok
              (r.0, put_file f (record file { pos = file.pos + r.0 }) (record s { memory = r.1 })) =
        rw (file_read, with_file, with_inode, found, open_i) refl in
      (
        r.0,
        put_file f (record file { pos = file.pos + r.0 }) (record s { memory = r.1 }),
        run,
        moved (file.pos + r.0) s.disk r.1,
      )

  pub file_write-Kept :
      (room : Bool) (buffer : ℕ) (size : ℤ)
      → (n : ℕ) × (s' : FileSystem) × (file_write room f buffer size s ≡ ok (n, s'))
        × Kept refs s s'
  unfolding file_write
  file_write-Kept room buffer size =
      let (i, open_i, agrees) =
        held-open s file.inode (holders refs s.files) (deniers s.files) (holders refs s.files)
          (deniers s.files) counted (λ b away. (refl, refl)) held in
      let r = inode_write_at room i s.memory buffer size file.pos s.disk in
      let run : file_write room f buffer size s
          ≡ ok (r.0, put_file f (record file { pos = file.pos + r.0 }) (record s { disk = r.1 })) =
        rw (file_write, with_file, with_inode, found, open_i) refl in
      (
        r.0,
        put_file f (record file { pos = file.pos + r.0 }) (record s { disk = r.1 }),
        run,
        moved (file.pos + r.0) r.1 s.memory,
      )

  pub deny-Succeeds : Succeeds (file_deny_write f s >>= (λ s'. ok (refs, s')))
  unfolding file_deny_write
  deny-Succeeds = elim (Bool-cases file.deny_write) [
    | inl already ↦
        let run : file_deny_write f s ≡ ok s =
          rw (file_deny_write, with_file, found, already) refl in
        rw run counted
    | inr allowed ↦
        let s1 = put_file f (record file { deny_write = true }) s in
        let change : (a : ℕ)
            → deniers s1.files a ≡ deniers s.files a + (if file.inode == a then 1 else 0) =
          λ a. ground (arith, allowed, deniers-put refs s.files f file found file.pos true a) in
        let keep = holders-put refs s.files f file found file.pos true in
        let (s', run, files, counted') =
          deny-Recounts s1 file.inode (holders refs s.files) (deniers s.files)
            (holders refs s1.files) (deniers s1.files) counted
            (λ b away. (keep b, ground (arith, away, change b))) held (keep file.inode)
            (ground (arith, ==_refl file.inode, change file.inode))
            (deniers-le refs s1.files file.inode) in
        let run' : file_deny_write f s ≡ ok s' =
          rw (file_deny_write, with_file, found, allowed) run in
        rw run'
          (subst (λ fs. Counted s'.open_inodes (holders refs fs) (deniers fs)) (sym files) counted')
  ]

  pub file_allow_write-Kept :
      (s' : FileSystem) × (file_allow_write f s ≡ ok s')
      × (lookup f s'.files ≡ some (record file { deny_write = false }))
      × Kept refs s s'
  unfolding file_allow_write
  file_allow_write-Kept = elim (Bool-cases file.deny_write) [
    | inr already ↦ (
      s,
      rw (file_allow_write, with_file, found, already) refl,
      found ∙ ap (λ flag. some (record file { deny_write = flag })) already,
      (counted, λ g live. live),
    )
    | inl denied ↦
        let s1 = put_file f (record file { deny_write = false }) s in
        let change : (a : ℕ)
            → deniers s1.files a + (if file.inode == a then 1 else 0) ≡ deniers s.files a =
          λ a. ground (arith, denied, deniers-put refs s.files f file found file.pos false a) in
        let keep = holders-put refs s.files f file found file.pos false in
        let (s', run, files, counted') =
          allow-Recounts s1 file.inode (holders refs s.files) (deniers s.files)
            (holders refs s1.files) (deniers s1.files) counted
            (λ b away. (keep b, ground (arith, away, change b))) held (keep file.inode)
            (ground (arith, ==_refl file.inode, change file.inode))
            (deniers-le refs s.files file.inode) in
        (
          s',
          rw (file_allow_write, with_file, found, denied) run,
          ap (lookup f) files
              ∙ lookup-put f (record file { deny_write = false }) file s.files found,
          (
            subst (λ fs. Counted s'.open_inodes (holders refs fs) (deniers fs)) (sym files)
                counted',
            λ g (x, found_g).
                let (y, found_y) =
                  lookup-put_any f g (record file { deny_write = false }) file x s.files found
                    found_g in
                (y, ap (lookup g) files ∙ found_y),
          ),
        )
  ]

module _ (refs : List ℕ) (s : FileSystem) (counted : IsCounted refs s) (f : ℕ) (file : File)
    (found : lookup f s.files ≡ some file) where
  -- The file is gone, with its hold on the inode.
  freed :
      file.deny_write ≡ false
      → (s' : FileSystem) × (inode_close (some file.inode) s ≡ ok s')
        × (s'.files ≡ s.files)
        × IsCounted refs (record s' { files = free f s'.files })
  freed allowed =
      let gone_holder : (a : ℕ)
          → holders refs (free f s.files) a + (if file.inode == a then 1 else 0)
            ≡ holders refs s.files a =
        λ a. omega (arith, count-free (λ x. x.inode == a) f file s.files found) in
      let gone_denier : (a : ℕ) → deniers (free f s.files) a ≡ deniers s.files a = λ a.
        ground
          (arith, allowed, count-free (λ x. (x.inode == a) && x.deny_write) f file s.files found) in
      let (s', run, files, counted') =
        close-Recounts s file.inode (holders refs s.files) (deniers s.files)
          (holders refs (free f s.files)) (deniers (free f s.files)) counted
          (λ b away. (ground (arith, away, gone_holder b), gone_denier b))
          (file-holds refs s.files f file found)
          (ground (arith, ==_refl file.inode, gone_holder file.inode)) (gone_denier file.inode)
          (deniers-le refs (free f s.files) file.inode) in
      (
        s',
        run,
        files,
        subst (λ fs. Counted s'.open_inodes (holders refs (free f fs)) (deniers (free f fs)))
            (sym files) counted',
      )

module _ (refs : List ℕ) (s : FileSystem) (counted : IsCounted refs s) (f : ℕ) (file : File)
    (found : lookup f s.files ≡ some file) where
  pub file_close-Kept :
      (s' : FileSystem) × (file_close (some f) s ≡ ok s')
      × IsCounted refs s'
      × ((g : ℕ) → (f == g) ≡ false → Live g s → Live g s')
  unfolding file_close
  file_close-Kept =
      let (s1, allow, found1, (counted1, kept)) =
        file_allow_write-Kept refs s counted f file found in
      let (s2, close, files, counted2) =
        freed refs s1 counted1 f (record file { deny_write = false }) found1 refl in
      let run : file_close (some f) s ≡ ok (record s2 { files = free f s2.files }) =
        rw (file_close, with_file, allow, found1, close) refl in
      (
        record s2 { files = free f s2.files },
        run,
        counted2,
        λ g away live.
            let (x, found_g) = kept g live in
            (x, lookup-free_other f g s2.files away ∙ ap (lookup g) files ∙ found_g),
      )
