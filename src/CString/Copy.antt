-- ===== src/CString/Copy.antt =====
-- memcpy, memmove and memset of CS330_projects/proj1/lib/string.c.
use cs_courses.Base.{
  ℕ, zero, suc, ◌+◌, ◌-◌, ◌%◌, ◌≤◌, ◌≡◌, ◌≢◌, ◌&&◌, ltb, leb, if◌then◌else◌, arith, ◌⊎◌, inl, inr,
  ◌∙◌, Bool-cases,
}
use cs_courses.CString.Bytes.{Memory, store, ok}
use cs_courses.CString.{copy_up, copy_down, fill, memcpy, memmove, memset}

-- The bytes at `dst` are those that stood at `src`; all others are as they were.
abbrev pub copied : ℕ → ℕ → ℕ → Memory → Memory
copied size dst src m a = if leb dst a && ltb a (dst + size) then m (src + (a - dst)) else m a

copied_step :
    (n dst src : ℕ) (m : Memory) (a : ℕ)
    → (dst ≤ src) ⊎ (src + suc n ≤ dst)
    → copied n (dst + 1) (src + 1) (store m dst (m src)) a ≡ copied (suc n) dst src m a
copied_step n dst src m a apart = ground arith

copied_last :
    (n dst src : ℕ) (m : Memory) (a : ℕ)
    → src ≤ dst
    → copied n dst src (store m (dst + n) (m (src + n))) a ≡ copied (suc n) dst src m a
copied_last n dst src m a above = ground arith

-- Upwards, the source may begin anywhere but inside the part that is written first.
pub copy_up-copied :
    (size dst src : ℕ) (m : Memory) (a : ℕ)
    → (dst ≤ src) ⊎ (src + size ≤ dst)
    → copy_up size dst src m a ≡ copied size dst src m a
unfolding copy_up
copy_up-copied zero dst src m a apart = ground arith
copy_up-copied (suc n) dst src m a apart =
    copy_up-copied n (dst + 1) (src + 1) (store m dst (m src)) a (omega arith)
    ∙ copied_step n dst src m a apart

pub copy_down-copied :
    (size dst src : ℕ) (m : Memory) (a : ℕ)
    → src ≤ dst
    → copy_down size (dst + size) (src + size) m a ≡ copied size dst src m a
unfolding copy_down
copy_down-copied zero dst src m a above = ground arith
copy_down-copied (suc n) dst src m a above =
    let d : dst + suc n - 1 ≡ dst + n = omega arith in
    let e : src + suc n - 1 ≡ src + n = omega arith in
    rw (d, e)
      (copy_down-copied n dst src (store m (dst + n) (m (src + n))) a above
        ∙ copied_last n dst src m a above)

-- memcpy between blocks that do not overlap copies the bytes, changes no others and returns `dst`.
pub memcpy-copied :
    (dst src size : ℕ) (m : Memory)
    → dst ≢ 0
    → src ≢ 0
    → (dst + size ≤ src) ⊎ (src + size ≤ dst)
    → (m' : Memory) × (memcpy dst src size m ≡ ok (dst, m'))
      × ((a : ℕ) → m' a ≡ copied size dst src m a)
unfolding memcpy
memcpy-copied dst src size m d s apart =
    (copy_up size dst src m, ground arith, λ a. copy_up-copied size dst src m a (omega arith))

-- memmove copies the bytes and changes no others however the blocks overlap. It returns `dst` where
-- `dst` is not below `src`, and the address behind the block where it is.
pub memmove-copied :
    (dst src size : ℕ) (m : Memory)
    → dst ≢ 0
    → src ≢ 0
    → (m' : Memory) × (memmove dst src size m ≡ ok (if ltb dst src then dst + size else dst, m'))
      × ((a : ℕ) → m' a ≡ copied size dst src m a)
unfolding memmove
memmove-copied dst src size m d s = elim (Bool-cases (ltb dst src)) [
  | inl up ↦ rw up (
    copy_up size dst src m,
    ground arith,
    λ a. copy_up-copied size dst src m a (inl (ground arith)),
  )
  | inr down ↦ rw down (
    copy_down size (dst + size) (src + size) m,
    ground arith,
    λ a. copy_down-copied size dst src m a (ground arith),
  )
]

fill-copied :
    (size dst v : ℕ) (m : Memory) (a : ℕ)
    → fill size dst v m a ≡ (if leb dst a && ltb a (dst + size) then v else m a)
unfolding fill
fill-copied zero dst v m a = ground arith
fill-copied (suc n) dst v m a = fill-copied n (dst + 1) v (store m dst v) a ∙ ground arith

-- memset writes the low byte of `value` to each byte of the block and changes no others.
memset_lem :
    (dst value size : ℕ) (m : Memory)
    → dst ≢ 0
    → (m' : Memory) × (memset dst value size m ≡ ok (dst, m'))
      × ((a : ℕ) → m' a ≡ (if leb dst a && ltb a (dst + size) then value % 256 else m a))
unfolding memset
memset_lem dst value size m d =
    (fill size dst (value % 256) m, ground arith, λ a. fill-copied size dst (value % 256) m a)
