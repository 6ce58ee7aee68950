-- ===== src/Strings.antt =====
-- Memory and strings, src/kernel/libtitan/mem.c and str.c. A buffer is the list of its bytes; a read
-- or a write outside it is undefined. The tests `i < n` of the loops compare the int `i` with a size
-- at 64 bits; a loop of 2 ^ 31 rounds or more would overflow `i`, and sizes below that are assumed.
pub mod Laws
mod Tests
use titan_os.Base.{
  ℕ, zero, suc, ◌+◌, ◌-◌, ◌%◌, ◌^◌, Bool, true, false, not, ◌||◌, Option, none, some, List, [], ◌∷◌,
  ltb, ◌==◌, if◌then◌else◌, get_elem?, set, u8, u32, ◌>>=◌,
}

-- `memcpy` of `n` bytes between buffers that do not overlap.
unfoldable pub memcpy : List ℕ → List ℕ → ℕ → Option (List ℕ)
memcpy dest src zero = some dest
memcpy (d ∷ dest) (s ∷ src) (suc n) = memcpy dest src n >>= λ rest. some (s ∷ rest)
memcpy [] src (suc n) = none
memcpy (d ∷ dest) [] (suc n) = none

unfoldable pub memset : List ℕ → ℕ → ℕ → Option (List ℕ)
memset s c zero = some s
memset (x ∷ s) c (suc n) = memset s c n >>= λ rest. some (u8 c ∷ rest)
memset [] c (suc n) = none

-- `memcmp`: true for the result 1, which stands for equality here.
unfoldable pub memcmp : List ℕ → List ℕ → ℕ → Option Bool
memcmp s1 s2 zero = some true
memcmp (a ∷ s1) (b ∷ s2) (suc n) = let rest = memcmp s1 s2 n in if a == b then rest else some false
memcmp [] s2 (suc n) = none
memcmp (a ∷ s1) [] (suc n) = none

unfoldable pub strnlen : List ℕ → ℕ → Option ℕ
strnlen s zero = some 0
strnlen [] (suc maxlen) = none
strnlen (c ∷ s) (suc maxlen) =
    let rest = strnlen s maxlen in if c == 0 then some 0 else (rest >>= λ n. some (suc n))

-- A part of a buffer behind `k` bytes is written by `f`.
unfoldable pub at_offset : ℕ → (List ℕ → Option (List ℕ)) → List ℕ → Option (List ℕ)
at_offset zero f s = f s
at_offset (suc k) f [] = none
at_offset (suc k) f (x ∷ s) = at_offset k f s >>= λ rest. some (x ∷ rest)

unfoldable pub strncpy : List ℕ → List ℕ → ℕ → Option (List ℕ)
strncpy dst src dsize = do
  src_len ← strnlen src dsize
  dst' ← memcpy dst src src_len
  at_offset src_len (λ s. memset s 0 (dsize - src_len)) dst'

-- The loop of `strncmp` from the position `i` on, with `left` rounds to go. The result is the
-- difference of two signed chars: true stands for 0.
unfoldable pub strncmp_loop : ℕ → ℕ → List ℕ → List ℕ → Option Bool
strncmp_loop zero i s1 s2 = do a ← get_elem? s1 i; b ← get_elem? s2 i; some (a == b)
strncmp_loop (suc left) i s1 s2 =
    let rest = strncmp_loop left (i + 1) s1 s2 in
    do
      a ← get_elem? s1 i
      if a == 0 then some true else (do
        b ← get_elem? s2 i
        if b == 0 then some true else if a == b then rest else some false)

unfoldable pub strncmp : List ℕ → List ℕ → ℕ → Option Bool
strncmp s1 s2 n = strncmp_loop (n - 1) 1 s1 s2
