-- ===== src/Cpu/Keyboard.antt =====
-- The keyboard, src/kernel/drivers/keyboard.c.
pub mod Buffer
use titan_os.Base.{
  ℕ, zero, suc, ◌+◌, ◌-◌, ◌%◌, ◌<◌, ◌≡◌, ◌∙◌, Bool, true, false, not, Option, some, List, ◌∷◌,
  get_elem?, get_or, set, length, replicate, u8, bit_and, ◌==◌, if◌then◌else◌, ◌>>=◌, arith,
  length-set, get_elem?-set_self, get_elem?-set_ne, get_elem?-eq-get_or, Bool-cases, inl, inr,
}
use titan_os.Base.Bits.{bit-bit_and, lt_of_bit, bit_of_lt}
use titan_os.Vga.{Console, printc}
use titan_os.Vga.Screen.{IsValid, printc-IsValid}

-- The globals of the driver.
pub record Keyboard : Type 0 where
  pub buffer : List ℕ
  pub pos : ℕ
  pub is_make : Bool

abbrev pub keyboard_buffer_size : ℕ
keyboard_buffer_size = 32

-- `keyboard_layout`. The initializer has 89 values, and the others are 0.
abbrev pub keyboard_layout : List ℕ
keyboard_layout =
    0
    ∷ 0
    ∷ b'1'
    ∷ b'2'
    ∷ b'3'
    ∷ b'4'
    ∷ b'5'
    ∷ b'6'
    ∷ b'7'
    ∷ b'8'
    ∷ b'9'
    ∷ b'0'
    ∷ b'-'
    ∷ b'='
    ∷ 0
    ∷ 0
    ∷ b'q'
    ∷ b'w'
    ∷ b'e'
    ∷ b'r'
    ∷ b't'
    ∷ b'y'
    ∷ b'u'
    ∷ b'i'
    ∷ b'o'
    ∷ b'p'
    ∷ b'['
    ∷ b']'
    ∷ 0
    ∷ 0
    ∷ b'a'
    ∷ b's'
    ∷ b'd'
    ∷ b'f'
    ∷ b'g'
    ∷ b'h'
    ∷ b'j'
    ∷ b'k'
    ∷ b'l'
    ∷ b';'
    ∷ 39
    ∷ 96
    ∷ 0
    ∷ 92
    ∷ b'z'
    ∷ b'x'
    ∷ b'c'
    ∷ b'v'
    ∷ b'b'
    ∷ b'n'
    ∷ b'm'
    ∷ b','
    ∷ b'.'
    ∷ b'/'
    ∷ 0
    ∷ 0
    ∷ 0
    ∷ b' '
    ∷ 0
    ∷ 0
    ∷ 0
    ∷ 0
    ∷ 0
    ∷ 0
    ∷ 0
    ∷ 0
    ∷ 0
    ∷ 0
    ∷ 0
    ∷ 0
    ∷ 0
    ∷ 0
    ∷ 0
    ∷ 0
    ∷ b'-'
    ∷ 0
    ∷ 0
    ∷ 0
    ∷ b'+'
    ∷ 0
    ∷ 0
    ∷ 0
    ∷ 0
    ∷ 0
    ∷ 0
    ∷ 0
    ∷ 0
    ∷ 0
    ∷ 0
    ∷ (replicate 39 0)

-- What `keyboard_handler` does with the character of the key when a key goes down.
pub type_char : ℕ → Keyboard → Console → Option (Keyboard × Console)
type_char c kb screen = do
  screen' ← printc c screen
  old ← get_elem? kb.buffer kb.pos
  some (
    record kb { buffer = set kb.buffer kb.pos c; pos = u8 ((kb.pos + 1) % keyboard_buffer_size) },
    screen',
  )

-- `keyboard_handler` for the byte of the data port, without the move of the hardware cursor.
pub keyboard_handler : ℕ → Keyboard → Console → Option (Keyboard × Console)
keyboard_handler byte kb screen =
    if kb.is_make
    then (do
      c ← get_elem? keyboard_layout (bit_and byte 0x7f)
      (kb', screen') ← (if c == 0 then some (kb, screen) else type_char c kb screen)
      some (record kb' { is_make = false }, screen'))
    else some (record kb { is_make = true }, screen)
