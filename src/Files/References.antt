-- ===== src/Files/References.antt =====
-- All that the callers of inode.c and file.c can do with open files, in any order
-- (CS330_projects/proj2/filesys): no assertion fails and the counts of the inodes are right.
use cs_courses.Base.{
  ℕ, ap, ◌∙◌, ◌+◌, ◌<◌, ◌≡◌, refl, sym, false, Option, none, some, List, ◌∷◌, ◌==◌, ==→eq, ==_refl,
  Bool-cases, Option-cases, inl, inr, arith,
}
use mathlib.Core.Path.{subst}
use cs_courses.Bitmap.{Run, ok, panic, ◌>>=◌}
use cs_courses.Inode.{Inode}
use cs_courses.Files.{
  File, FileSystem, lookup, find_open, load, inode_open, inode_reopen, inode_close, inode_remove,
  file_open,
}
use cs_courses.Files.Counts.{Agrees, Counted, Apart, push-Counted, find_open-open}
use cs_courses.Files.Holders.{
  uses, give_up, holders, deniers, deniers-le, uses-give_up, uses-give_up_other, same-Counted,
}
use cs_courses.Files.Inodes.{Recounts, reopen-Recounts, close-Recounts, remove-Recounts}

abbrev pub World : Type 0
World = List ℕ × FileSystem

-- Each open inode has as many openers as there are references and files that hold it, and as many denials as
-- there are files that deny writes; no sector is open twice; what is held is open.
abbrev pub IsCounted : List ℕ → FileSystem → Type 0
IsCounted refs s = Counted s.open_inodes (holders refs s.files) (deniers s.files)

abbrev pub Succeeds : Run World → Type 0
Succeeds (ok w) = IsCounted w.0 w.1
Succeeds panic = ⊥

abbrev pub gain : Option ℕ → List ℕ → List ℕ
gain none refs = refs
gain (some a) refs = a ∷ refs

-- A block that malloc answers with is not one of those in use.
abbrev pub Fresh : Option ℕ → FileSystem → Type 0
Fresh block s = (a : ℕ) → block ≡ some a → lookup a s.open_inodes ≡ none

-- An open file.
abbrev pub Live : ℕ → FileSystem → Type 0
Live f s = (file : File) × (lookup f s.files ≡ some file)

-- The counts are right, and every open file is still open.
abbrev pub Kept : List ℕ → FileSystem → FileSystem → Type 0
Kept refs s s' = IsCounted refs s' × ((f : ℕ) → Live f s → Live f s')

module _ (refs : List ℕ) (s : FileSystem) (counted : IsCounted refs s) where
  abbrev Gained : Run (Option ℕ × FileSystem) → Type 0
  Gained r = Succeeds (r >>= (λ p. ok (gain p.0 refs, p.1)))

  -- One more reference.
  gain-Apart :
      (a : ℕ)
      → Apart a
          (holders refs s.files)
          (deniers s.files)
          (holders (a ∷ refs) s.files)
          (deniers s.files)
  gain-Apart a b away = (ground (arith, away), refl)

  more : (a : ℕ) → holders (a ∷ refs) s.files a ≡ holders refs s.files a + 1
  more a = ground (arith, ==_refl a)

  pub inode_reopen-IsCounted :
      (a : ℕ)
      → 0 < holders refs s.files a
      → (s' : FileSystem) × (inode_reopen (some a) s ≡ ok (some a, s'))
        × (s'.files ≡ s.files)
        × IsCounted (a ∷ refs) s'
  inode_reopen-IsCounted a held =
      let (s', run, files, counted') =
        reopen-Recounts s a (holders refs s.files) (deniers s.files) (holders (a ∷ refs) s.files)
          (deniers s.files) counted (gain-Apart a) held (more a) refl in
      (
        s',
        run,
        files,
        subst (λ fs. Counted s'.open_inodes (holders (a ∷ refs) fs) (deniers fs)) (sym files)
            counted',
      )

  pub open-Succeeds :
      (block : Option ℕ) (sector : ℕ)
      → Fresh block s
      → Succeeds (inode_open block sector s >>= (λ r. ok (gain r.0 refs, r.1)))
  unfolding inode_open
  open-Succeeds block sector fresh = elim (Option-cases (find_open sector s.open_inodes)) [
    | inr (a, already) ↦
        let (i, found) = find_open-open sector a s.open_inodes already in
        let (s', run, files, counted') =
          inode_reopen-IsCounted a
            (subst (Agrees (holders refs s.files) (deniers s.files) a) found (counted.0 a)).1 in
        let run' : inode_open block sector s ≡ ok (some a, s') = rw (inode_open, already) run in
        subst Gained (sym run') counted'
    | inl unopened ↦ elim (Option-cases block) [
      | inl no_room ↦
          (let run : inode_open block sector s ≡ ok (none, s) =
              rw (inode_open, unopened, no_room) refl in
            subst Gained (sym run) counted)
      | inr (a, room) ↦
          let none_held =
            subst (Agrees (holders refs s.files) (deniers s.files) a) (fresh a room)
              (counted.0 a) in
          let i : Inode = record {
            sector = sector;
            open_cnt = 1;
            removed = false;
            deny_write_cnt = 0;
            start = load (s.disk sector) 0;
            length = load (s.disk sector) 4;
          } in
          let pushed =
            push-Counted s.open_inodes (holders refs s.files) (deniers s.files)
              (holders (a ∷ refs) s.files) (deniers s.files) a i (fresh a room) unopened
              (
                ground (arith, more a, none_held),
                ground (arith, more a),
                ground (arith, none_held, deniers-le refs s.files a),
              )
              (gain-Apart a) counted in
          let run : inode_open block sector s
              ≡ ok (some a, record s { open_inodes = (a, i) ∷ s.open_inodes }) =
            rw (inode_open, unopened, room) refl in
          subst Gained (sym run) pushed
    ]
  ]

  -- A change of the open inodes after which the references are `refs'`.
  recounted :
      (refs' : List ℕ) (r : Run FileSystem) (s1 : FileSystem)
      → Recounts r s1 (holders refs' s1.files) (deniers s1.files)
      → (s' : FileSystem) × (r ≡ ok s') × Kept refs' s1 s'
  recounted refs' r s1 (s', run, files, counted') = (
    s',
    run,
    (
      subst (λ fs. Counted s'.open_inodes (holders refs' fs) (deniers fs)) (sym files) counted',
      λ g (x, found). (x, ap (lookup g) files ∙ found),
    ),
  )

  pub inode_close-Kept :
      (a : ℕ)
      → 0 < uses a refs
      → (s' : FileSystem) × (inode_close (some a) s ≡ ok s') × Kept (give_up a refs) s s'
  inode_close-Kept a used =
      let less = uses-give_up a refs used in
      recounted (give_up a refs) (inode_close (some a) s) s (
        close-Recounts s a (holders refs s.files) (deniers s.files)
          (holders (give_up a refs) s.files) (deniers s.files) counted
          (λ b away. (ground (arith, uses-give_up_other a b refs away), refl)) (omega (arith, used))
          (omega (arith, less)) refl (deniers-le (give_up a refs) s.files a))

  pub inode_remove-Kept :
      (a : ℕ)
      → 0 < holders refs s.files a
      → (s' : FileSystem) × (inode_remove a s ≡ ok s') × Kept refs s s'
  inode_remove-Kept a held = recounted refs (inode_remove a s) s (
      remove-Recounts s a (holders refs s.files) (deniers s.files) (holders refs s.files)
        (deniers s.files) counted (λ b away. (refl, refl)) held refl refl)

  abbrev no_file : FileSystem → Run (Option ℕ × FileSystem)
  no_file s' = ok (none, s')

  pub open_file-Succeeds :
      (block : Option ℕ) (a : ℕ)
      → 0 < uses a refs
      → Succeeds (file_open block (some a) s >>= (λ r. ok (give_up a refs, r.1)))
  unfolding file_open
  open_file-Succeeds none a used =
      let (s', run, (counted', kept)) = inode_close-Kept a used in
      subst (λ r. Succeeds ((r >>= no_file) >>= (λ p. ok (give_up a refs, p.1)))) (sym run) counted'
  open_file-Succeeds (some f) a used =
      let file : File = record { inode = a; pos = 0; deny_write = false } in
      same-Counted s.open_inodes (holders refs s.files) (deniers s.files)
        (holders (give_up a refs) ((f, file) ∷ s.files)) (deniers ((f, file) ∷ s.files))
        (λ b. elim (Bool-cases (a == b)) [
          | inl at ↦
              let less : uses b (give_up a refs) + 1 ≡ uses b refs =
                subst (λ c. uses c (give_up a refs) + 1 ≡ uses c refs) (==→eq a b at)
                  (uses-give_up a refs used) in
              ground (arith, at, less)
          | inr away ↦ ground (arith, away, uses-give_up_other a b refs away)
        ])
        (λ b. ground arith) counted
