-- ===== src/Inode/Linear.antt =====
-- The bytes of the disk in one row, sector after sector.
use cs_courses.Base.{
  ℕ, ◌+◌, ◌-◌, ◌*◌, ◌/◌, ◌%◌, ◌≤◌, ◌≡◌, refl, ap, ◌∙◌, Bool, true, false, ◌||◌, ltb, ◌==◌,
  if◌then◌else◌, arith,
}
use cs_courses.Inode.{Disk, Inode, chunk}

abbrev pub byte_at : Disk → ℕ → ℕ
byte_at disk p = disk (p / 512) (p % 512)

-- Where the byte of a file at an offset stands on the disk.
abbrev pub place : Inode → ℕ → ℕ
place inode offset = inode.start * 512 + offset

-- The bytes left in the file behind an offset, `size` of them at most.
abbrev pub left : Inode → ℕ → ℕ → ℕ
left inode size offset = if ltb size (inode.length - offset) then size else inode.length - offset

pub chunk-left :
    (inode : Inode) (size offset : ℕ)
    → (chunk inode size offset ≤ left inode size offset)
      × (chunk inode size offset + offset % 512 ≤ 512)
      × ((chunk inode size offset == 0) ≡ (left inode size offset == 0))
      × (left inode (size - chunk inode size offset) (offset + chunk inode size offset)
            + chunk inode size offset
          ≡ left inode size offset)
chunk-left inode size offset = (ground arith, ground arith, ground arith, ground arith)

pub ||-true : (b : Bool) → (b || true) ≡ true
||-true true = refl
||-true false = refl

-- The count of a result, in another form.
pub recount : {A : Type 0} (r : ℕ × A) (n m : ℕ) (t : A) → r ≡ (n, t) → n ≡ m → r ≡ (m, t)
recount r n m t run same = run ∙ ap (λ k. (k, t)) same
