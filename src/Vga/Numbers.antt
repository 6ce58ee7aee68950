-- ===== src/Vga/Numbers.antt =====
-- The texts that `printlong` and `printint` make of a number.
use titan_os.Base.{
  ℕ, zero, suc, ◌+◌, ◌-◌, ◌*◌, ◌/◌, ◌%◌, ◌^◌, ◌<◌, ◌≡◌, refl, false, List, [], ◌∷◌, ◌++◌, ltb,
  if◌then◌else◌, length, arith, ◌∙◌, ap, sym, ==_ne, Bool-cases, inl, inr,
}
use mathlib.Core.List.{append_assoc, append-nil}
use native.Mathlib.Nat.{pow-suc}
use native.Mathlib.Decide.{dec_lt}
use titan_os.Vga.{hex_char, hex_loop, printlong, int_loop, printint}

-- The value of a hexadecimal digit in lower case, and of a text of them.
unfoldable pub hex_value : ℕ → ℕ
hex_value c = if ltb c b'a' then c - b'0' else c - b'a' + 10

unfoldable pub read_hex : ℕ → List ℕ → ℕ
read_hex acc [] = acc
read_hex acc (c ∷ cs) = read_hex (acc * 16 + hex_value c) cs

hex_value-hex_char : (n : ℕ) → n < 16 → hex_value (hex_char n) ≡ n
unfolding hex_value hex_char
hex_value-hex_char n h = ground arith

read_hex-hex_loop :
    (left num : ℕ) (str : List ℕ)
    → num < 16 ^ left
    → read_hex 0 (hex_loop left num str) ≡ read_hex num str
unfolding hex_loop read_hex
read_hex-hex_loop zero num str h = ap (λ n. read_hex n str) (omega arith)
read_hex-hex_loop (suc left) num str h =
    read_hex-hex_loop left (num / 16) (hex_char (num % 16) ∷ str) (omega (arith, pow-suc 16 left))
    ∙ ap (λ n. read_hex n str) (omega (arith, hex_value-hex_char (num % 16) (omega arith)))

length-hex_loop : (left num : ℕ) (str : List ℕ) → length (hex_loop left num str) ≡ left + length str
unfolding hex_loop
length-hex_loop zero num str = omega arith
length-hex_loop (suc left) num str =
    omega (arith, length-hex_loop left (num / 16) (hex_char (num % 16) ∷ str))

-- `printlong` prints `0x` and sixteen hexadecimal digits, whose value is the number.
pub printlong-read_hex :
    (num : ℕ)
    → num < 2 ^ 64
    → (ds : List ℕ) × (printlong num ≡ b'0' ∷ b'x' ∷ ds) × (length ds ≡ 16) × (read_hex 0 ds ≡ num)
unfolding printlong
printlong-read_hex num h = (
  hex_loop 16 num [],
  refl,
  length-hex_loop 16 num [],
  read_hex-hex_loop 16 num [] h ∙ unfold read_hex in refl,
)

-- The decimal digits of a number, as an independent description: by recursion on fuel, most
-- significant digit first.
unfoldable pub decimal : ℕ → ℕ → List ℕ
decimal zero n = []
decimal (suc fuel) n =
    if ltb n 10 then (48 + n) ∷ [] else decimal fuel (n / 10) ++ ((48 + n % 10) ∷ [])

unfoldable pub tail : List ℕ → List ℕ
tail [] = []
tail (c ∷ cs) = cs

decimal_cons : (fuel n : ℕ) → 0 < fuel → (c : ℕ) × (cs : List ℕ) × (decimal fuel n ≡ c ∷ cs)
unfolding decimal
decimal_cons zero n p = absurd (omega arith)
decimal_cons (suc zero) n p = elim (Bool-cases (ltb n 10)) [
  | inl e ↦ (48 + n, [], rw e)
  | inr e ↦ (48 + n % 10, [], rw e)
]
decimal_cons (suc (suc fuel)) n p = elim (Bool-cases (ltb n 10)) [
  | inl e ↦ (48 + n, [], rw e)
  | inr e ↦
      let (c, cs, q) = decimal_cons (suc fuel) (n / 10) (omega arith) in
      (c, cs ++ ((48 + n % 10) ∷ []), rw (e, q))
]

tail-append : (xs ys : List ℕ) (c : ℕ) (cs : List ℕ) → xs ≡ c ∷ cs → tail (xs ++ ys) ≡ tail xs ++ ys
unfolding tail
tail-append xs ys c cs e = rw e

int_loop-decimal :
    (left d : ℕ) (str : List ℕ)
    → 0 < left
    → d < 10 ^ left
    → int_loop left d str ≡ tail (decimal left d) ++ str
unfolding int_loop decimal
int_loop-decimal zero d str p h = absurd (omega arith)
int_loop-decimal (suc left) d str p h = elim (dec_lt d 10) [
  | yes lt ↦ unfold tail in ground arith
  | no ge ↦
      let q : (d - d % 10) / 10 ≡ d / 10 = omega arith in
      let some_left : 0 < left = small left h ge in
      let (c, cs, e) = decimal_cons left (d / 10) some_left in
      let ih =
        int_loop-decimal left (d / 10) ((48 + d % 10) ∷ str) some_left
          (omega (arith, pow-suc 10 left)) in
      rw (q, ltb_false d ge, ==_ne (d / 10) 0 (omega arith), ==_ne left 0 (omega arith))
        (ih
          ∙ sym (append_assoc (tail (decimal left (d / 10))) ((48 + d % 10) ∷ []) str)
          ∙ ap (λ t. t ++ str) (sym (tail-append _ ((48 + d % 10) ∷ []) c cs e)))
]
  where
    small : (n : ℕ) → d < 10 ^ suc n → ¬ (d < 10) → 0 < n
    small zero k g = absurd (g k)
    small (suc n) k g = omega arith

    ltb_false : (n : ℕ) → ¬ (n < 10) → ltb n 10 ≡ false
    ltb_false n g = ground arith

-- `printint` of a number below 2 ^ 31 prints its decimal digits without the first one.
pub printint-decimal : (d : ℕ) → d < 2 ^ 31 → printint d ≡ tail (decimal 14 d)
unfolding printint
printint-decimal d h = int_loop-decimal 14 d [] (omega arith) (omega arith) ∙ append-nil _
