-- ===== src/Files/Inodes.antt =====
-- The operations of inode.c on the open inodes (CS330_projects/proj2/filesys), and the counts that they keep.
use cs_courses.Base.{
  ℕ, ◌+◌, ◌-◌, ◌≤◌, ◌<◌, ◌≡◌, refl, sym, ◌∙◌, true, some, ◌∷◌, leb, ltb, ◌==◌, if◌then◌else◌,
  Bool-cases, Option-cases, inl, inr, arith,
}
use mathlib.Core.Path.{subst}
use cs_courses.Bitmap.{Run, ok}
use cs_courses.Inode.{Inode, bytes_to_sectors}
use cs_courses.Files.{
  FileSystem, with_inode, lookup, put, unlink, inode_reopen, inode_close, inode_remove,
  inode_deny_write, inode_allow_write,
}
use cs_courses.Files.Counts.{Agrees, Counted, Apart, put-Counted, unlink-Counted}

-- A change of the open inodes alone that succeeds and after which the counts agree.
abbrev pub Recounts : Run FileSystem → FileSystem → (ℕ → ℕ) → (ℕ → ℕ) → Type 0
Recounts r s holders deniers =
    (s' : FileSystem) × (r ≡ ok s') × (s'.files ≡ s.files) × Counted s'.open_inodes holders deniers

module _ (s : FileSystem) (a : ℕ) (holders deniers holders' deniers' : ℕ → ℕ)
    (counted : Counted s.open_inodes holders deniers)
    (apart : Apart a holders deniers holders' deniers') where
  -- What is held is open.
  pub held-open :
      0 < holders a
      → (i : Inode) × (lookup a s.open_inodes ≡ some i) × Agrees holders deniers a (some i)
  held-open held = elim (Option-cases (lookup a s.open_inodes)) [
    | inl missing ↦
        let none_held = subst (Agrees holders deniers a) missing (counted.0 a) in
        absurd (omega (arith, none_held))
    | inr (i, found) ↦ (i, found, subst (Agrees holders deniers a) found (counted.0 a))
  ]

  pub reopen-Recounts :
      0 < holders a
      → holders' a ≡ holders a + 1
      → deniers' a ≡ deniers a
      → (s' : FileSystem) × (inode_reopen (some a) s ≡ ok (some a, s'))
        × (s'.files ≡ s.files)
        × Counted s'.open_inodes holders' deniers'
  unfolding inode_reopen
  reopen-Recounts held more same =
      let (i, found, (opens, some_held, denied)) = held-open held in
      let j : Inode = record i { open_cnt = i.open_cnt + 1 } in
      (
        record s { open_inodes = put a j s.open_inodes },
        rw (inode_reopen, with_inode, found) refl,
        refl,
        put-Counted s.open_inodes holders deniers holders' deniers' a i j found refl
            (ground arith, ground arith, denied ∙ sym same) apart counted,
      )

  pub close-Recounts :
      0 < holders a
      → holders' a + 1 ≡ holders a
      → deniers' a ≡ deniers a
      → deniers' a ≤ holders' a
      → Recounts (inode_close (some a) s) s holders' deniers'
  unfolding inode_close
  close-Recounts held less same bound =
      let (i, found, (opens, some_held, denied)) = held-open held in
      elim (Bool-cases (i.open_cnt == 1)) [
        | inl last ↦
            let blocks = (i.start, bytes_to_sectors i.length) ∷ (i.sector, 1) ∷ s.released in
            (
              record s {
                open_inodes = unlink a s.open_inodes;
                released = if i.removed then blocks else s.released;
              },
              rw (inode_close, with_inode, found, last) refl,
              refl,
              unlink-Counted s.open_inodes holders deniers holders' deniers' a
                  (ground (arith, last)) apart counted,
            )
        | inr more ↦
            let j : Inode = record i { open_cnt = i.open_cnt - 1 } in
            (
              record s { open_inodes = put a j s.open_inodes },
              rw (inode_close, with_inode, found, more) refl,
              refl,
              put-Counted s.open_inodes holders deniers holders' deniers' a i j found refl
                  (ground arith, ground (arith, more), denied ∙ sym same) apart counted,
            )
      ]

  pub remove-Recounts :
      0 < holders a
      → holders' a ≡ holders a
      → deniers' a ≡ deniers a
      → Recounts (inode_remove a s) s holders' deniers'
  unfolding inode_remove
  remove-Recounts held same1 same2 =
      let (i, found, (opens, some_held, denied)) = held-open held in
      let j : Inode = record i { removed = true } in
      (
        record s { open_inodes = put a j s.open_inodes },
        rw (inode_remove, with_inode, found) refl,
        refl,
        put-Counted s.open_inodes holders deniers holders' deniers' a i j found refl
            (opens ∙ sym same1, ground arith, denied ∙ sym same2) apart counted,
      )

  pub deny-Recounts :
      0 < holders a
      → holders' a ≡ holders a
      → deniers' a ≡ deniers a + 1
      → deniers' a ≤ holders' a
      → Recounts (inode_deny_write a s) s holders' deniers'
  unfolding inode_deny_write
  deny-Recounts held same more bound =
      let (i, found, (opens, some_held, denied)) = held-open held in
      let j : Inode = record i { deny_write_cnt = i.deny_write_cnt + 1 } in
      let passes : leb (i.deny_write_cnt + 1) i.open_cnt ≡ true = ground arith in
      (
        record s { open_inodes = put a j s.open_inodes },
        rw (inode_deny_write, with_inode, found, passes) refl,
        refl,
        put-Counted s.open_inodes holders deniers holders' deniers' a i j found refl
            (opens ∙ sym same, ground arith, ground arith) apart counted,
      )

  pub allow-Recounts :
      0 < holders a
      → holders' a ≡ holders a
      → deniers' a + 1 ≡ deniers a
      → deniers a ≤ holders a
      → Recounts (inode_allow_write a s) s holders' deniers'
  unfolding inode_allow_write
  allow-Recounts held same less bound =
      let (i, found, (opens, some_held, denied)) = held-open held in
      let j : Inode = record i { deny_write_cnt = i.deny_write_cnt - 1 } in
      let some_denied : ltb 0 i.deny_write_cnt ≡ true = ground arith in
      let passes : leb i.deny_write_cnt i.open_cnt ≡ true = ground arith in
      (
        record s { open_inodes = put a j s.open_inodes },
        rw (inode_allow_write, with_inode, found, some_denied, passes) refl,
        refl,
        put-Counted s.open_inodes holders deniers holders' deniers' a i j found refl
            (opens ∙ sym same, ground arith, ground arith) apart counted,
      )
