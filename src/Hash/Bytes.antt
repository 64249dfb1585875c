-- ===== src/Hash/Bytes.antt =====
-- The hash functions of CS330_projects/proj1/lib/kernel/hash.c. An `unsigned` has 32 bits.
use Prim.Native.Nat.{bit_xor}
use cs_courses.Base.{
  ℕ, zero, suc, ◌+◌, ◌*◌, ◌/◌, ◌%◌, ◌^◌, ◌<◌, ◌==◌, ◌≡◌, ◌≢◌, refl, ap, ◌∙◌, true, false, Option,
  none, some, arith,
}

-- FNV_32_PRIME
abbrev pub fnv_32_prime : ℕ
fnv_32_prime = 16777619

-- FNV_32_BASIS
abbrev pub fnv_32_basis : ℕ
fnv_32_basis = 2166136261

-- hash = (hash * FNV_32_PRIME) ^ byte
unfoldable pub mix : ℕ → ℕ → ℕ
mix hash byte = bit_xor (hash * fnv_32_prime % 2 ^ 32) byte

-- The loop of hash_bytes over `size` bytes at address `buf`.
unfoldable pub bytes_loop : (ℕ → ℕ) → ℕ → ℕ → ℕ → ℕ
unfolding mix
bytes_loop memory zero buf hash = hash
bytes_loop memory (suc size) buf hash = bytes_loop memory size (suc buf) (mix hash (memory buf))

unfoldable pub hash_bytes : (ℕ → ℕ) → ℕ → ℕ → ℕ
unfolding bytes_loop
hash_bytes memory buf size = bytes_loop memory size buf fnv_32_basis

-- The loop of hash_string; one round more than the string has characters is enough.
unfoldable pub string_loop : (ℕ → ℕ) → ℕ → ℕ → ℕ → Option ℕ
unfolding mix
string_loop memory zero s hash = none
string_loop memory (suc fuel) s hash = elim (memory s == 0) [
  | true ↦ some hash
  | false ↦ string_loop memory fuel (suc s) (mix hash (memory s))
]

unfoldable pub hash_string : (ℕ → ℕ) → ℕ → ℕ → Option ℕ
unfolding string_loop
hash_string memory fuel s = string_loop memory fuel s fnv_32_basis

-- The bytes of an int, of which `i` is the bit pattern, with the lowest first.
abbrev pub int_bytes : ℕ → ℕ → ℕ
int_bytes i a = i / 256 ^ a % 256

unfoldable pub hash_int : ℕ → ℕ
unfolding hash_bytes
hash_int i = hash_bytes (int_bytes i) 0 4

string_loop-bytes_loop :
    (memory : ℕ → ℕ) (n fuel s hash : ℕ)
    → n < fuel
    → ((i : ℕ) → i < n → memory (s + i) ≢ 0)
    → memory (s + n) ≡ 0
    → string_loop memory fuel s hash ≡ some (bytes_loop memory n s hash)
unfolding string_loop bytes_loop
string_loop-bytes_loop memory n zero s hash enough text end = absurd (omega arith)
string_loop-bytes_loop memory zero (suc fuel) s hash enough text end =
    let stop : memory s ≡ 0 = ap memory (omega arith) ∙ end in
    let is_end : (memory s == 0) ≡ true = ground (arith, stop) in rw (string_loop, is_end) refl
string_loop-bytes_loop memory (suc n) (suc fuel) s hash enough text end =
    let more : memory s ≢ 0 = λ e. text 0 (omega arith) (ap memory (omega arith) ∙ e) in
    let on : (memory s == 0) ≡ false = ground (arith, more) in
    rw (string_loop, on)
      (string_loop-bytes_loop memory n fuel (suc s) (mix hash (memory s)) (omega arith)
        (λ i h e. text (suc i) (omega arith) (ap memory (omega arith) ∙ e))
        (ap memory (omega arith) ∙ end))

-- hash_string of a text of n characters that are not null, with a null behind them, ends, and is hash_bytes of
-- the characters.
pub hash_string-hash_bytes :
    (memory : ℕ → ℕ) (n fuel s : ℕ)
    → n < fuel
    → ((i : ℕ) → i < n → memory (s + i) ≢ 0)
    → memory (s + n) ≡ 0
    → hash_string memory fuel s ≡ some (hash_bytes memory s n)
unfolding hash_string hash_bytes
hash_string-hash_bytes memory n fuel s enough text end =
    string_loop-bytes_loop memory n fuel s fnv_32_basis enough text end
