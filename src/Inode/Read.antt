-- ===== src/Inode/Read.antt =====
-- inode_read_at of CS330_projects/proj2/filesys/inode.c.
use cs_courses.Base.{
  ℕ, zero, suc, ◌+◌, ◌-◌, ◌/◌, ◌%◌, ◌≤◌, ◌<◌, ◌≡◌, refl, sym, ap, ◌∙◌, true, ◌&&◌, ℤ, pos_part, leb,
  ltb, ◌==◌, ==→eq, if◌then◌else◌, Bool-cases, inl, inr, arith,
}
use mathlib.Core.Path.{subst}
use cs_courses.Inode.{Disk, Inode, chunk, is_full, read_chunk, read_loop, inode_read_at}
use cs_courses.Inode.Linear.{byte_at, place, left, chunk-left, ||-true, recount}

module _ (disk : Disk) (inode : Inode) where
  -- `to` and the n bytes behind hold the file from the offset on, and nothing else has changed.
  abbrev pub Holds : ℕ → ℕ → ℕ → (ℕ → ℕ) → (ℕ → ℕ) → Type 0
  Holds offset n to memory memory' =
      (a : ℕ)
      → memory' a ≡ (
          if leb to a && ltb a (to + n)
          then byte_at disk (place inode offset + (a - to))
          else memory a)

  same_byte :
      (offset k : ℕ)
      → offset % 512 + k < 512
      → disk (inode.start + offset / 512) (offset % 512 + k) ≡ byte_at disk (place inode offset + k)
  same_byte offset k h =
      let s : inode.start + offset / 512 ≡ (place inode offset + k) / 512 = omega arith in
      let b : offset % 512 + k ≡ (place inode offset + k) % 512 = omega arith in rw (s, b) refl

  read_chunk-Holds :
      (n offset to : ℕ) (memory : ℕ → ℕ)
      → offset < inode.length
      → n + offset % 512 ≤ 512
      → Holds offset n to memory (read_chunk disk inode n offset to memory)
  unfolding read_chunk
  read_chunk-Holds n offset to memory within fits a = elim (Bool-cases (is_full offset n)) [
    | inl full ↦
        let start : 0 + (a - to) ≡ offset % 512 + (a - to) = ground (arith, full) in
        rw full (
          ground
            (arith, full, same_byte offset (a - to), ap (disk (inode.start + offset / 512)) start))
    | inr partial ↦ rw partial (ground (arith, same_byte offset (a - to)))
  ]

  -- One chunk and the rest.
  Holds-trans :
      (offset n m to : ℕ) (memory memory' memory'' : ℕ → ℕ)
      → Holds offset n to memory memory'
      → Holds (offset + n) m (to + n) memory' memory''
      → Holds offset (m + n) to memory memory''
  Holds-trans offset n m to memory memory' memory'' first rest a =
      let here : place inode (offset + n) + (a - (to + n)) ≡ place inode offset + (a - to)
          → byte_at disk (place inode (offset + n) + (a - (to + n)))
            ≡ byte_at disk (place inode offset + (a - to)) =
        ap (byte_at disk) in
      elim (Bool-cases (ltb a (to + n))) [
        | inl low ↦ ground (arith, rest a, first a)
        | inr high ↦ elim (Bool-cases (ltb a (to + n + m))) [
          | inl inside ↦ ground (arith, rest a, first a, here (ground arith))
          | inr behind ↦ ground (arith, rest a, first a)
        ]
      ]

  read_loop-Holds :
      (fuel size offset to bytes_read : ℕ) (memory : ℕ → ℕ)
      → size < fuel
      → (memory' : ℕ → ℕ) × (read_loop true disk inode fuel size offset to bytes_read memory
          ≡ (bytes_read + left inode size offset, memory'))
        × Holds offset (left inode size offset) (to + bytes_read) memory memory'
  unfolding read_loop
  read_loop-Holds zero size offset to bytes_read memory enough = absurd (omega arith)
  read_loop-Holds (suc fuel) size offset to bytes_read memory enough =
      let n = chunk inode size offset in
      let (small, fits, done, whole) = chunk-left inode size offset in
      elim (Bool-cases (n == 0)) [
        | inl none_left ↦
            let none : left inode size offset ≡ 0 =
              ==→eq (left inode size offset) 0 (sym done ∙ none_left) in
            (
              memory,
              rw (read_loop, none_left, none) (ap (λ t. (t, memory)) (omega arith)),
              rw none (λ a. ground arith),
            )
        | inr some_left ↦
            let memory1 = read_chunk disk inode n offset (to + bytes_read) memory in
            let (memory', run, rest) =
              read_loop-Holds fuel (size - n) (offset + n) to (bytes_read + n) memory1
                (ground (arith, some_left)) in
            let next : to + (bytes_read + n) ≡ to + bytes_read + n = omega arith in
            let within : offset < inode.length = ground (arith, some_left) in
            let first = read_chunk-Holds n offset (to + bytes_read) memory within fits in
            let behind =
              subst (λ t. Holds (offset + n) (left inode (size - n) (offset + n)) t memory1 memory')
                next rest in
            let both =
              Holds-trans offset n (left inode (size - n) (offset + n)) (to + bytes_read) memory
                memory1 memory' first behind in
            (
              memory',
              rw (read_loop, some_left, ||-true (is_full offset n))
                  (recount
                    (read_loop true disk inode fuel (size - n) (offset + n) to (bytes_read + n)
                      memory1)
                    (bytes_read + n + left inode (size - n) (offset + n))
                    (bytes_read + left inode size offset) memory' run (omega (arith, whole))),
              subst (λ t. Holds offset t (to + bytes_read) memory memory') whole both,
            )
      ]

  -- With a bounce buffer, a read gives the bytes of the file from the offset on, all that are asked for or all
  -- that are left, whichever is less, and touches no other byte of the memory.
  pub inode_read_at-Holds :
      (size : ℤ) (offset buffer : ℕ) (memory : ℕ → ℕ)
      → (memory' : ℕ → ℕ) × (inode_read_at true disk inode buffer size offset memory
          ≡ (left inode (pos_part size) offset, memory'))
        × Holds offset (left inode (pos_part size) offset) buffer memory memory'
  unfolding inode_read_at
  inode_read_at-Holds size offset buffer memory =
      let (memory', run, holds) =
        read_loop-Holds (suc (pos_part size)) (pos_part size) offset buffer 0 memory
          (omega arith) in
      let start : buffer + 0 ≡ buffer = omega arith in
      let total : 0 + left inode (pos_part size) offset ≡ left inode (pos_part size) offset =
        omega arith in
      (
        memory',
        run ∙ ap (λ t. (t, memory')) total,
        subst (λ t. Holds offset (left inode (pos_part size) offset) t memory memory') start holds,
      )
