-- ===== src/Strings/Laws.antt =====
-- What the string functions promise, and where they do not keep it.
use titan_os.Base.{
  ℕ, zero, suc, ◌+◌, ◌-◌, ◌<◌, ◌≤◌, ◌≡◌, ◌≢◌, ◌↔◌, refl, ap, ◌∙◌, Bool, true, false, Option, some,
  List, [], ◌∷◌, ◌++◌, replicate, length, length-drop, drop, ==_ne, ==_self, arith,
}
use titan_os.Strings.{memcpy, memset, memcmp, strnlen, at_offset, strncpy, strncmp_loop, strncmp}
use native.Mathlib.Decide.{ℕ_discrete}

-- The first `n` bytes.
abbrev pub take : ℕ → List ℕ → List ℕ
take zero xs = []
take (suc n) [] = []
take (suc n) (x ∷ xs) = x ∷ take n xs

-- The characters of a text hold no end mark.
abbrev pub Text : List ℕ → Type 0
Text [] = Unit
Text (c ∷ cs) = (c ≢ 0) × Text cs

head_or : ℕ → List ℕ → ℕ
head_or d [] = d
head_or d (x ∷ xs) = x

head_eq : {a b : ℕ} {s t : List ℕ} → (a ∷ s) ≡ (b ∷ t) → a ≡ b
unfolding head_or
head_eq {a} e = ap (λ xs. head_or a xs) e

tail_eq : {a b : ℕ} {s t : List ℕ} → (a ∷ s) ≡ (b ∷ t) → s ≡ t
tail_eq e = ap (λ xs. drop 1 xs) e

-- `memcmp` of `n` bytes that both buffers have is defined, and its result is 1 exactly when the first
-- `n` bytes agree.
pub memcmp-take :
    (n : ℕ) (s1 s2 : List ℕ)
    → n ≤ length s1
    → n ≤ length s2
    → (b : Bool) × (memcmp s1 s2 n ≡ some b) × ((b ≡ true) ↔ (take n s1 ≡ take n s2))
unfolding memcmp
memcmp-take zero s1 s2 p q = (true, refl, ((λ e. refl), (λ e. refl)))
memcmp-take (suc n) [] s2 p q = absurd (omega arith)
memcmp-take (suc n) (a ∷ s1) [] p q = absurd (omega arith)
memcmp-take (suc n) (a ∷ s1) (b ∷ s2) p q =
    let (r, run, (to, from)) = memcmp-take n s1 s2 (omega arith) (omega arith) in
    elim (ℕ_discrete a b) [
      | yes e ↦ (r, rw (e, ==_self b) run, ((λ t. rw (e, to t)), (λ t. from (tail_eq t))))
      | no ne ↦ (false, rw (==_ne a b ne), ((λ t. cc), (λ t. absurd (ne (head_eq t)))))
    ]

memcpy-length :
    (text rest dst : List ℕ)
    → length text ≤ length dst
    → memcpy dst (text ++ rest) (length text) ≡ some (text ++ drop (length text) dst)
unfolding memcpy
memcpy-length [] rest dst p = refl
memcpy-length (c ∷ text) rest [] p = absurd (omega arith)
memcpy-length (c ∷ text) rest (d ∷ dst) p = rw (memcpy-length text rest dst (omega arith))

memset-replicate :
    (n : ℕ) (s : List ℕ) → n ≤ length s → memset s 0 n ≡ some (replicate n 0 ++ drop n s)
unfolding memset
memset-replicate zero s p = refl
memset-replicate (suc n) [] p = absurd (omega arith)
memset-replicate (suc n) (x ∷ s) p = rw (memset-replicate n s (omega arith))

strnlen-length :
    (text rest : List ℕ) (n : ℕ)
    → Text text
    → length text < n
    → strnlen (text ++ 0 ∷ rest) n ≡ some (length text)
unfolding strnlen
strnlen-length text rest zero t p = absurd (omega arith)
strnlen-length [] rest (suc n) t p = refl
strnlen-length (c ∷ text) rest (suc n) (ne, t) p =
    rw (==_ne c 0 ne, strnlen-length text rest n t (omega arith))

at_offset-length :
    (text rest out : List ℕ) (f : List ℕ → Option (List ℕ))
    → f rest ≡ some out
    → at_offset (length text) f (text ++ rest) ≡ some (text ++ out)
unfolding at_offset
at_offset-length [] rest out f e = e
at_offset-length (c ∷ text) rest out f e = rw (at_offset-length text rest out f e)

zero_add : (n : ℕ) → 0 + n ≡ n
zero_add n = omega arith

suc_add_left : (m n : ℕ) → suc m + n ≡ suc (m + n)
suc_add_left m n = omega arith

drop-nil : (n : ℕ) → drop {A = ℕ} n [] ≡ []
drop-nil zero = refl
drop-nil (suc n) = refl

drop-drop : (m n : ℕ) (xs : List ℕ) → drop n (drop m xs) ≡ drop (m + n) xs
drop-drop zero n xs = rw (zero_add n)
drop-drop (suc m) n [] = rw (suc_add_left m n) (drop-nil n)
drop-drop (suc m) n (x ∷ xs) = rw (suc_add_left m n) (drop-drop m n xs)

add_sub : (m n : ℕ) → m ≤ n → m + (n - m) ≡ n
add_sub m n le = omega arith

-- `strncpy` of a text that ends within `n` bytes into a buffer of at least `n` bytes is defined, and
-- makes the first `n` bytes the text and zeros behind it, and leaves the bytes behind them.
pub strncpy-Text :
    (text rest dst : List ℕ) (n : ℕ)
    → Text text
    → length text < n
    → n ≤ length dst
    → strncpy dst (text ++ 0 ∷ rest) n
      ≡ some (text ++ (replicate (n - length text) 0 ++ drop n dst))
unfolding strncpy
strncpy-Text text rest dst n t p q =
    let d = length text in
    rw (
      strnlen-length text rest n t p,
      memcpy-length text (0 ∷ rest) dst (omega arith),
      at_offset-length text (drop d dst) (replicate (n - d) 0 ++ drop (n - d) (drop d dst))
          (λ s. memset s 0 (n - d))
          (memset-replicate (n - d) (drop d dst) (omega (arith, length-drop d dst))),
      drop-drop d (n - d) dst,
      add_sub d n (omega arith),
    )

suc_add : (i : ℕ) → suc i + 1 ≡ suc (i + 1)
suc_add i = omega arith

shift_lem :
    (left i x y : ℕ) (s1 s2 : List ℕ)
    → strncmp_loop left (suc i) (x ∷ s1) (y ∷ s2) ≡ strncmp_loop left i s1 s2
unfolding strncmp_loop
shift_lem zero i x y s1 s2 = refl
shift_lem (suc left) i x y s1 s2 = rw (suc_add i, shift_lem left (i + 1) x y s1 s2)

loop-Text :
    (text : List ℕ) (c left : ℕ) (r1 r2 : List ℕ)
    → Text text
    → length text < left
    → strncmp_loop left 0 (text ++ 0 ∷ r1) (text ++ c ∷ r2) ≡ some true
unfolding strncmp_loop
loop-Text text c zero r1 r2 t p = absurd (omega arith)
loop-Text [] c (suc left) r1 r2 t p = refl
loop-Text (x ∷ text) c (suc left) r1 r2 (ne, t) p =
    rw (==_ne x 0 ne, ==_self x, shift_lem left 0 x x (text ++ 0 ∷ r1) (text ++ c ∷ r2))
      (loop-Text text c left r1 r2 t (omega arith))

-- For two names that agree behind the first character up to the end of the first of them, `strncmp`
-- of more bytes answers 0, which stands for equality, whatever the first characters are and however
-- the second name goes on.
pub strncmp_prefix :
    (a b c n : ℕ) (text r1 r2 : List ℕ)
    → Text text
    → length text + 1 < n
    → strncmp (a ∷ (text ++ 0 ∷ r1)) (b ∷ (text ++ c ∷ r2)) n ≡ some true
unfolding strncmp
strncmp_prefix a b c n text r1 r2 t p =
    shift_lem (n - 1) 0 a b (text ++ 0 ∷ r1) (text ++ c ∷ r2)
    ∙ loop-Text text c (n - 1) r1 r2 t (omega arith)
