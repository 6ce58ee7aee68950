-- ===== src/Tar/Laws.antt =====
-- Sizes and headers of the archive.
use titan_os.Base.{
  ℕ, zero, suc, ◌+◌, ◌-◌, ◌*◌, ◌/◌, ◌%◌, ◌^◌, ◌<◌, ◌≤◌, ◌≡◌, ◌≢◌, refl, ap, ◌∙◌, Option, none, some,
  List, [], ◌∷◌, ltb-true, length, u64, arith, ==_ne, get_elem?, get_elem?-none,
  get_elem?-eq-get_or, length-set, set,
}
use native.Mathlib.Nat.{mul-le-mul_right}
use native.Mathlib.Decide.{ℕ_discrete, dec_lt}
use titan_os.Tar.{Header, size_loop, get_file_size, next_header, parse_loop, sign_extend}

-- The number that octal digits write, the highest first, behind the digits that write `n`.
abbrev pub octal : ℕ → List ℕ → ℕ
octal n [] = n
octal n (d ∷ ds) = octal (8 * n + d) ds

u64_small : {n : ℕ} → n < 2 ^ 64 → u64 n ≡ n
u64_small lt = omega arith

mul_le : (d n : ℕ) → d < 8 → d * n ≤ 7 * n
mul_le d n lt = mul-le-mul_right n (omega arith)

size_step :
    (j count size : ℕ) (text : List ℕ) (d : ℕ)
    → get_elem? text j ≡ some (48 + d)
    → d < 8
    → size < count
    → count ≤ 8 ^ 10
    → size_loop (suc j) count size text ≡ size_loop j (count * 8) (size + d * count) text
unfolding size_loop
size_step j count size text d at lt small le =
    let digit : u64 (sign_extend (48 + d) + (2 ^ 64 - 48)) ≡ d =
      rw (ltb-true (48 + d) 128 (omega arith)) (omega arith) in
    let most = mul_le d count (omega arith) in
    let product : u64 (d * count) ≡ d * count = u64_small (omega arith) in
    let sum : u64 (size + d * count) ≡ size + d * count = u64_small (omega arith) in
    let next : u64 (count * 8) ≡ count * 8 = u64_small (omega arith) in
    rw (at, digit, product, sum, next)

-- `get_file_size` of 11 octal digits, as the characters from 48 on, is defined, and is the number that
-- they write, whatever follows.
pub get_file_size-octal :
    (a b c d e f g h i j k : ℕ) (rest : List ℕ)
    → a < 8
    → b < 8
    → c < 8
    → d < 8
    → e < 8
    → f < 8
    → g < 8
    → h < 8
    → i < 8
    → j < 8
    → k < 8
    → get_file_size (
        (48 + a)
        ∷ (48 + b)
        ∷ (48 + c)
        ∷ (48 + d)
        ∷ (48 + e)
        ∷ (48 + f)
        ∷ (48 + g)
        ∷ (48 + h)
        ∷ (48 + i)
        ∷ (48 + j)
        ∷ (48 + k)
        ∷ rest)
      ≡ some (octal 0 (a ∷ b ∷ c ∷ d ∷ e ∷ f ∷ g ∷ h ∷ i ∷ j ∷ k ∷ []))
unfolding get_file_size size_loop
get_file_size-octal a b c d e f g h i j k rest pa pb pc pd pe pf pg ph pi pj pk =
    let text : List ℕ =
      (48 + a)
      ∷ (48 + b)
      ∷ (48 + c)
      ∷ (48 + d)
      ∷ (48 + e)
      ∷ (48 + f)
      ∷ (48 + g)
      ∷ (48 + h)
      ∷ (48 + i)
      ∷ (48 + j)
      ∷ (48 + k)
      ∷ rest in
    let s10 = 0 + k * 1 in
    let s9 = s10 + j * 8 in
    let s8 = s9 + i * 64 in
    let s7 = s8 + h * 512 in
    let s6 = s7 + g * 4096 in
    let s5 = s6 + f * 32768 in
    let s4 = s5 + e * 262144 in
    let s3 = s4 + d * 2097152 in
    let s2 = s3 + c * 16777216 in
    let s1 = s2 + b * 134217728 in
    let s0 = s1 + a * 1073741824 in
    size_step 10 1 0 text k refl pk (omega arith) (omega arith)
    ∙ size_step 9 8 s10 text j refl pj (omega arith) (omega arith)
    ∙ size_step 8 64 s9 text i refl pi (omega arith) (omega arith)
    ∙ size_step 7 512 s8 text h refl ph (omega arith) (omega arith)
    ∙ size_step 6 4096 s7 text g refl pg (omega arith) (omega arith)
    ∙ size_step 5 32768 s6 text f refl pf (omega arith) (omega arith)
    ∙ size_step 4 262144 s5 text e refl pe (omega arith) (omega arith)
    ∙ size_step 3 2097152 s4 text d refl pd (omega arith) (omega arith)
    ∙ size_step 2 16777216 s3 text c refl pc (omega arith) (omega arith)
    ∙ size_step 1 134217728 s2 text b refl pb (omega arith) (omega arith)
    ∙ size_step 0 1073741824 s1 text a refl pa (omega arith) (omega arith)
    ∙ ap some (omega arith)

-- The next header lies behind a header of 512 bytes and as many whole blocks of 512 bytes as the file
-- needs: the first address behind the file's end that is a multiple of 512 bytes from the header.
pub next_header-blocks :
    (addr size : ℕ)
    → addr + size + 2048 < 2 ^ 64
    → (blocks : ℕ) × (next_header addr size ≡ addr + 512 + blocks * 512)
      × (size ≤ blocks * 512)
      × (blocks * 512 < size + 512)
unfolding next_header
next_header-blocks addr size lt = elim (ℕ_discrete (size % 512) 0) [
  | yes e ↦ (size / 512, rw e (omega arith), omega arith, omega arith)
  | no ne ↦ (size / 512 + 1, rw (==_ne (size % 512) 0 ne) (omega arith), omega arith, omega arith)
]

-- The headers of an archive from `addr` on, the last of them the one without a name.
unfoldable pub Archive : (ℕ → Option Header) → ℕ → List ℕ → Type 0
Archive memory addr [] = (h : Header) × (memory addr ≡ some h) × (get_elem? h.filename 0 ≡ some 0)
Archive memory addr (a ∷ more) =
    (a ≡ addr)
    × (h : Header) × (first : ℕ) × (size : ℕ) × (memory addr ≡ some h)
    × (get_elem? h.filename 0 ≡ some first)
    × (first ≢ 0)
    × (get_file_size h.size ≡ some size)
    × Archive memory (next_header addr size) more

-- The pointers with the addresses written from the index `i` on.
abbrev pub fill : List ℕ → ℕ → List ℕ → List ℕ
fill hs i [] = hs
fill hs i (a ∷ more) = fill (set hs i a) (i + 1) more

-- `parse_tar_file` of an archive writes the addresses of its headers into the array, in order, when
-- there are as many places from index `i` on, and is undefined when there are fewer; fuel above the
-- number of headers is enough.
pub parse_loop-Archive :
    (fuel : ℕ) (memory : ℕ → Option Header) (addr i : ℕ) (hs more : List ℕ)
    → Archive memory addr more
    → length more < fuel
    → i ≤ length hs
    → (i + length more ≤ length hs → parse_loop fuel memory addr i hs ≡ some (fill hs i more))
      × (length hs < i + length more → parse_loop fuel memory addr i hs ≡ none)
unfolding parse_loop Archive
parse_loop-Archive zero memory addr i hs more ar lt le = absurd (omega arith)
parse_loop-Archive (suc fuel) memory addr i hs [] (h, at, end) lt le =
    ((λ p. rw (at, end)), (λ p. absurd (omega arith)))
parse_loop-Archive (suc fuel) memory addr i hs (a ∷ more)
      (same, h, first, size, at, name, ne, read, ar) lt le =
    elim (dec_lt i (length hs)) [
      | no full ↦ (
        (λ p. absurd (omega arith)),
        (λ p. rw (at, name, ==_ne first 0 ne, read, get_elem?-none hs i (omega arith))),
      )
      | yes room ↦
          let set_size = length-set hs i addr in
          let (fits, over) =
            parse_loop-Archive fuel memory (next_header addr size) (i + 1) (set hs i addr) more ar
              (omega arith) (omega (arith, set_size)) in
          let get = get_elem?-eq-get_or hs i 0 room in
          (
            (λ p.
                rw (at, name, ==_ne first 0 ne, read, get, same) (fits (omega (arith, set_size)))),
            (λ p. rw (at, name, ==_ne first 0 ne, read, get) (over (omega (arith, set_size)))),
          )
    ]
