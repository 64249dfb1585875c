-- ===== src/Inode/Write.antt =====
-- inode_write_at of CS330_projects/proj2/filesys/inode.c.
use cs_courses.Base.{
  ℕ, zero, suc, ◌+◌, ◌-◌, ◌/◌, ◌%◌, ◌≤◌, ◌<◌, ◌≡◌, sym, ap, ◌∙◌, Bool, true, ◌&&◌, ◌||◌, ℤ,
  pos_part, leb, ltb, ◌==◌, ==→eq, if◌then◌else◌, Bool-cases, inl, inr, arith,
}
use mathlib.Core.Path.{subst}
use cs_courses.Inode.{
  Disk, Inode, chunk, is_full, write_chunk, write_loop, byte_to_sector, inode_write_at,
}
use cs_courses.Inode.Linear.{byte_at, place, left, chunk-left, ||-true, recount}

if_true {ℓ} : {A : Type ℓ} {b : Bool} (x y : A) → b ≡ true → (if b then x else y) ≡ x
if_true x y h = ap (λ b. if b then x else y) h

module _ (inode : Inode) (memory : ℕ → ℕ) where
  -- The disk has the n bytes of the memory at `from` at the offset of the file, and every other byte is as it was.
  abbrev pub Stores : ℕ → ℕ → ℕ → Disk → Disk → Type 0
  Stores offset n from disk disk' =
      (p : ℕ)
      → byte_at disk' p ≡ (
          if leb (place inode offset) p && ltb p (place inode offset + n)
          then memory (from + (p - place inode offset))
          else byte_at disk p)

  write_chunk-Stores :
      (n offset from : ℕ) (disk : Disk)
      → offset < inode.length
      → n + offset % 512 ≤ 512
      → Stores offset n from disk (write_chunk inode memory n offset from disk)
  unfolding write_chunk
  write_chunk-Stores n offset from disk within fits p =
      let s = inode.start + offset / 512 in
      let at : byte_to_sector inode offset ≡ s = ground arith in
      elim (Bool-cases (is_full offset n)) [
        | inl full ↦
            let same : from + p % 512 ≡ from + (p - place inode offset)
                → memory (from + p % 512) ≡ memory (from + (p - place inode offset)) =
              ap memory in
            rw (full, at)
              (elim (Bool-cases (p / 512 == s)) [
                | inl here ↦
                    rw (here) (ground (arith, full, here, same (ground (arith, full, here))))
                | inr elsewhere ↦ rw (elsewhere) (ground (arith, full, elsewhere))
              ])
        | inr partial ↦
            let same : from + (p % 512 - offset % 512) ≡ from + (p - place inode offset)
                → memory (from + (p % 512 - offset % 512))
                  ≡ memory (from + (p - place inode offset)) =
              ap memory in
            let read : (ltb 0 (offset % 512) || ltb n (512 - offset % 512)) ≡ true =
              ground (arith, partial) in
            rw (partial, at, read)
              (elim (Bool-cases (p / 512 == s)) [
                | inl here ↦
                    let old : disk (p / 512) (p % 512) ≡ disk s (p % 512) =
                      ap (λ t. disk t (p % 512)) (==→eq (p / 512) s here) in
                    rw here
                      (elim (Bool-cases
                        (leb (offset % 512) (p % 512) && ltb (p % 512) (offset % 512 + n))) [
                          | inl written ↦
                              rw written (
                                ground (arith, here, written, same (ground (arith, here, written))))
                          | inr outside ↦ rw outside (ground (arith, here, outside, old))
                        ])
                | inr elsewhere ↦ rw (elsewhere) (ground (arith, elsewhere))
              ])
      ]

  Stores-trans :
      (offset n m from : ℕ) (disk disk' disk'' : Disk)
      → Stores offset n from disk disk'
      → Stores (offset + n) m (from + n) disk' disk''
      → Stores offset (m + n) from disk disk''
  Stores-trans offset n m from disk disk' disk'' first rest p =
      let here : from + n + (p - place inode (offset + n)) ≡ from + (p - place inode offset)
          → memory (from + n + (p - place inode (offset + n)))
            ≡ memory (from + (p - place inode offset)) =
        ap memory in
      elim (Bool-cases (ltb p (place inode (offset + n)))) [
        | inl low ↦ ground (arith, rest p, first p)
        | inr high ↦ elim (Bool-cases (ltb p (place inode (offset + n + m)))) [
          | inl inside ↦ ground (arith, rest p, first p, here (ground arith))
          | inr behind ↦ ground (arith, rest p, first p)
        ]
      ]

  write_loop-Stores :
      (fuel size offset from bytes_written : ℕ) (disk : Disk)
      → size < fuel
      → (disk' : Disk) × (write_loop true inode memory fuel size offset from bytes_written disk
          ≡ (bytes_written + left inode size offset, disk'))
        × Stores offset (left inode size offset) (from + bytes_written) disk disk'
  unfolding write_loop
  write_loop-Stores zero size offset from bytes_written disk enough = absurd (omega arith)
  write_loop-Stores (suc fuel) size offset from bytes_written disk enough =
      let n = chunk inode size offset in
      let (small, fits, done, whole) = chunk-left inode size offset in
      elim (Bool-cases (n == 0)) [
        | inl none_left ↦
            let none : left inode size offset ≡ 0 =
              ==→eq (left inode size offset) 0 (sym done ∙ none_left) in
            (
              disk,
              rw (write_loop, none_left, none) (ap (λ t. (t, disk)) (omega arith)),
              rw none (λ a. ground arith),
            )
        | inr some_left ↦
            let disk1 = write_chunk inode memory n offset (from + bytes_written) disk in
            let (disk', run, rest) =
              write_loop-Stores fuel (size - n) (offset + n) from (bytes_written + n) disk1
                (ground (arith, some_left)) in
            let next : from + (bytes_written + n) ≡ from + bytes_written + n = omega arith in
            let within : offset < inode.length = ground (arith, some_left) in
            let first = write_chunk-Stores n offset (from + bytes_written) disk within fits in
            let behind =
              subst (λ t. Stores (offset + n) (left inode (size - n) (offset + n)) t disk1 disk')
                next rest in
            let both =
              Stores-trans offset n (left inode (size - n) (offset + n)) (from + bytes_written) disk
                disk1 disk' first behind in
            (
              disk',
              rw (write_loop, some_left, ||-true (is_full offset n))
                  (recount
                    (write_loop true inode memory fuel (size - n) (offset + n) from
                      (bytes_written + n) disk1)
                    (bytes_written + n + left inode (size - n) (offset + n))
                    (bytes_written + left inode size offset) disk' run (omega (arith, whole))),
              subst (λ t. Stores offset t (from + bytes_written) disk disk') whole both,
            )
      ]

  -- With a bounce buffer, a write to an inode that nobody denies puts the bytes of the memory at the offset of the
  -- file, all of them or as many as the file has room for, and touches no other byte of the disk.
  pub inode_write_at-Stores :
      (size : ℤ) (offset buffer : ℕ) (disk : Disk)
      → inode.deny_write_cnt ≡ 0
      → (disk' : Disk) × (inode_write_at true inode memory buffer size offset disk
          ≡ (left inode (pos_part size) offset, disk'))
        × Stores offset (left inode (pos_part size) offset) buffer disk disk'
  unfolding inode_write_at
  inode_write_at-Stores size offset buffer disk allowed =
      let (disk', run, stores) =
        write_loop-Stores (suc (pos_part size)) (pos_part size) offset buffer 0 disk
          (omega arith) in
      let start : buffer + 0 ≡ buffer = omega arith in
      let total : 0 + left inode (pos_part size) offset ≡ left inode (pos_part size) offset =
        omega arith in
      let writes : (inode.deny_write_cnt == 0) ≡ true = ground (arith, allowed) in
      let run' = run ∙ ap (λ t. (t, disk')) total in
      (
        disk',
        if_true
              (write_loop true inode memory (suc (pos_part size)) (pos_part size) offset buffer 0
                disk)
              (0, disk) writes
            ∙ run',
        subst (λ t. Stores offset (left inode (pos_part size) offset) t disk disk') start stores,
      )
