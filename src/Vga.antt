-- ===== src/Vga.antt =====
-- The text console, src/kernel/drivers/vga.c.
pub mod Screen
pub mod Numbers
pub mod Format
mod Tests
use titan_os.Base.{
  ℕ, zero, suc, ◌+◌, ◌-◌, ◌*◌, ◌/◌, ◌%◌, ◌^◌, Bool, true, false, Option, none, some, List, [], ◌∷◌,
  ◌++◌, ltb, leb, ◌==◌, if◌then◌else◌, get_elem?, set, replicate, drop, u8, u16, ◌>>=◌, ◌>>◌, need,
}

-- `cursor`, with the 2000 cells that `vga_out` points at.
pub record Console : Type 0 where
  pub cells : List ℕ
  pub x : ℕ
  pub y : ℕ

abbrev pub vga_width : ℕ
vga_width = 80

abbrev pub vga_height : ℕ
vga_height = 25

-- `0x0f00 + c` stored in a cell, for a signed `char` with the bit pattern `c`.
pub cell_of : ℕ → ℕ
cell_of c = u16 (0x0f00 + (if ltb c 128 then c else c + 0xff00))

-- `scroll_down`: 1920 cells move up by a line, and the last line is cleared.
pub scroll_down : Console → Console
scroll_down s = record s { cells = drop vga_width s.cells ++ replicate vga_width 0 }

-- The end of `printc`.
pub keep_on_screen : Console → Console
keep_on_screen s =
    if leb vga_height s.y then scroll_down (record s { x = 0; y = vga_height - 1 }) else s

-- The write of a character that is not a line feed.
pub put_cell : ℕ → Console → Option Console
put_cell c s = do
  let at = s.y * vga_width + s.x
  old ← get_elem? s.cells at
  some (record {
    cells = set s.cells at (cell_of c);
    x = (s.x + 1) % vga_width;
    y = s.y + (s.x + 1) / vga_width;
  })

pub printc : ℕ → Console → Option Console
printc c s =
    if c == b'\n'
    then some (keep_on_screen (record s { x = 0; y = s.y + 1 }))
    else (put_cell c s >>= λ t. some (keep_on_screen t))

-- `printstr`, without the move of the hardware cursor.
pub printstr : List ℕ → Console → Option Console
printstr [] s = some s
printstr (c ∷ cs) s = printc c s >>= λ t. printstr cs t

-- `clear_console` with `left` rounds to go, and `console_init` on the buffer that it sets.
pub clear_loop : ℕ → Console → Option Console
clear_loop zero s = some s
clear_loop (suc left) s = printc b' ' s >>= λ t. clear_loop left t

pub clear_console : Console → Option Console
clear_console s = clear_loop 2000 s

pub console_init : Console → Option Console
console_init s = clear_console s >>= λ t. some (record t { x = 0; y = 0 })

-- The position that `move_cursor` sends to the two registers, low byte first.
pub move_cursor : Console → ℕ × ℕ
move_cursor s = let pos = s.y * vga_width + (s.x + 1) in (pos % 256, pos / 256 % 256)

-- `printlong`: the characters that the loop leaves in `num_str`.
pub hex_char : ℕ → ℕ
hex_char lsb = u8 (if ltb lsb 0xa then lsb + 0x30 else lsb + 0x57)

pub hex_loop : ℕ → ℕ → List ℕ → List ℕ
hex_loop zero num str = str
hex_loop (suc left) num str = hex_loop left (num / 16) (hex_char (num % 16) ∷ str)

pub printlong : ℕ → List ℕ
printlong num = b'0' ∷ b'x' ∷ hex_loop 16 num []

-- `printint` of a number that is not negative: the text behind `cut_num_str`. In the round for `i` the
-- digit goes to `num_str[i - 1]`, and `cut_num_str` is `num_str + i`.
pub int_loop : ℕ → ℕ → List ℕ → List ℕ
int_loop zero d str = str
int_loop (suc left) d str =
    let digit = d % 10 in
    let rest = int_loop left ((d - digit) / 10) ((48 + digit) ∷ str) in
    if ((d - digit) / 10 == 0) then str else if left == 0 then str else rest

pub printint : ℕ → List ℕ
printint d = int_loop 14 d []

-- An argument of `printf`.
pub data Arg : Type 0 where
  int : ℕ → Arg
  str : List ℕ → Arg
  long : ℕ → Arg

-- A call of `printf`: it prints and returns, it prints and never returns, or it takes an argument that
-- is not there or has another type.
pub data Printed : Type 0 where
  returns : List ℕ → Printed
  hangs : List ℕ → Printed
  undefined : Printed

-- Text printed before.
unfoldable pub after : List ℕ → Printed → Printed
after out (returns more) = returns (out ++ more)
after out (hangs more) = hangs (out ++ more)
after out undefined = undefined

unfoldable pub take_int : List Arg → (List Arg → Printed) → Printed
take_int (int d ∷ args) k = after (printint d) (k args)
take_int _ k = undefined

unfoldable pub take_str : List Arg → (List Arg → Printed) → Printed
take_str (str s ∷ args) k = after s (k args)
take_str _ k = undefined

unfoldable pub take_long : List Arg → (List Arg → Printed) → Printed
take_long (long n ∷ args) k = after (printlong n) (k args)
take_long _ k = undefined

-- One conversion: `d` follows the percent sign, `is_u` tells whether a `u` follows `d`, and the rest of
-- the format goes on from behind `d` or from behind the `u`. The error for another character is itself
-- a call of `printf`, which waits for the lock that this call holds; `%l` without a `u` is never passed.
unfoldable pub convert : ℕ → Bool → (List Arg → Printed) → (List Arg → Printed) → List Arg → Printed
convert d is_u behind behind_u args =
    if d == b'd'
    then take_int args behind
    else if d == b's'
    then take_str args behind
    else if d == b'l'
    then (if is_u then take_long args behind_u else hangs [])
    else hangs []

-- The loop of `printf`. The format ends with a NUL, which is what follows a last character.
unfoldable pub printf : List ℕ → List Arg → Printed
printf [] args = returns []
printf (c ∷ []) args = if c == b'%' then hangs [] else returns (c ∷ [])
printf (c ∷ d ∷ []) args =
    let plain = printf (d ∷ []) args in
    if c == b'%' then convert d false (printf []) (printf []) args else after (c ∷ []) plain
printf (c ∷ d ∷ e ∷ format) args =
    let plain = printf (d ∷ e ∷ format) args in
    let behind = λ (rest : List Arg). printf (e ∷ format) rest in
    let behind_u = λ (rest : List Arg). printf format rest in
    if c == b'%' then convert d (e == b'u') behind behind_u args else after (c ∷ []) plain
