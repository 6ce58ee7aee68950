-- ===== src/Cpu/Keyboard/Buffer.antt =====
-- The characters that the keyboard's buffer holds.
use titan_os.Base.{
  ℕ, zero, suc, ◌+◌, ◌-◌, ◌%◌, ◌<◌, ◌≡◌, ◌∙◌, Bool, true, false, not, some, List, ◌∷◌, get_elem?,
  get_or, set, length, u8, bit_and, ◌==◌, if◌then◌else◌, arith, length-set, get_elem?-set_self,
  get_elem?-set_ne, get_elem?-eq-get_or, Bool-cases, inl, inr,
}
use titan_os.Base.Bits.{bit-bit_and, lt_of_bit, bit_of_lt}
use titan_os.Vga.{Console, printc}
use titan_os.Vga.Screen.{IsValid, printc-IsValid}
use titan_os.Cpu.Keyboard.{
  Keyboard, keyboard_buffer_size, keyboard_layout, type_char, keyboard_handler,
}

-- The buffer holds the last 32 of the characters typed so far, which `typed` lists from the last one.
pub record Holds (typed : List ℕ) (kb : Keyboard) : Type 0 where
  pub size : length kb.buffer ≡ 32
  pub place : kb.pos ≡ length typed % 32
  pub held :
      (i : ℕ)
      → i < 32
      → i < length typed
      → get_elem? kb.buffer ((length typed - 1 - i) % 32) ≡ get_elem? typed i

-- The characters typed after a byte arrived.
unfoldable pub typed_after : ℕ → Keyboard → List ℕ → List ℕ
typed_after byte kb typed =
    let c = get_or keyboard_layout (bit_and byte 0x7f) 0 in
    if kb.is_make then (if c == 0 then typed else c ∷ typed) else typed

low_bits : (byte : ℕ) → bit_and byte 0x7f < 128
low_bits byte =
    lt_of_bit 7 (bit_and byte 0x7f)
      (λ k le. omega (arith, bit-bit_and byte 0x7f k, bit_of_lt 7 0x7f k (omega arith) le))

Holds-push_held :
    (c : ℕ) {typed : List ℕ} {kb : Keyboard}
    → Holds typed kb
    → (i : ℕ) → i < 32
    → i < suc (length typed)
    → get_elem? (set kb.buffer kb.pos c) ((suc (length typed) - 1 - i) % 32)
      ≡ get_elem? (c ∷ typed) i
Holds-push_held c {typed} {kb} h zero near lt =
    let e : (suc (length typed) - 1 - 0) % 32 ≡ kb.pos = omega (arith, h.place) in
    rw e (get_elem?-set_self kb.buffer kb.pos c (omega (arith, h.place, h.size)))
Holds-push_held c {typed} {kb} h (suc i) near lt =
    let e : suc (length typed) - 1 - suc i ≡ length typed - 1 - i = omega arith in
    rw e (
      get_elem?-set_ne kb.buffer kb.pos ((length typed - 1 - i) % 32) c (omega (arith, h.place))
      ∙ h.held i (omega arith) (omega arith))

Holds-push :
    (c : ℕ) {typed : List ℕ} {kb : Keyboard}
    → Holds typed kb
    → Holds (c ∷ typed) (record kb {
      buffer = set kb.buffer kb.pos c;
      pos = u8 ((kb.pos + 1) % keyboard_buffer_size);
    })
Holds-push c {typed} {kb} h = record {
  size = length-set kb.buffer kb.pos c ∙ h.size;
  place = omega (arith, h.place);
  held = λ i. Holds-push_held c h i;
}

with_make :
    (b : Bool) {typed : List ℕ} {kb : Keyboard}
    → Holds typed kb
    → Holds typed (record kb { is_make = b })
with_make b h = record { size = h.size; place = h.place; held = h.held }

layout_lem :
    (byte : ℕ)
    → get_elem? keyboard_layout (bit_and byte 0x7f)
      ≡ some (get_or keyboard_layout (bit_and byte 0x7f) 0)
layout_lem byte = get_elem?-eq-get_or keyboard_layout (bit_and byte 0x7f) 0 (low_bits byte)

type_char_lem :
    (c : ℕ) {typed : List ℕ} {kb : Keyboard} (screen : Console) {screen' : Console}
    → Holds typed kb
    → printc c screen ≡ some screen'
    → type_char c kb screen
      ≡ some (
        record kb {
          buffer = set kb.buffer kb.pos c;
          pos = u8 ((kb.pos + 1) % keyboard_buffer_size);
        },
        screen',
      )
unfolding type_char
type_char_lem c {typed} {kb} screen h run =
    rw (run, get_elem?-eq-get_or kb.buffer kb.pos 0 (omega (arith, h.place, h.size)))

-- `keyboard_handler` on a valid console and a buffer that holds the characters typed so far is defined
-- for every byte, leaves a valid console and such a buffer, and takes each second byte as a release:
-- only the others type, each at most one character, that of the layout.
pub keyboard_handler-Holds :
    (byte : ℕ) {typed : List ℕ} {kb : Keyboard} {screen : Console}
    → Holds typed kb
    → IsValid screen
    → (kb' : Keyboard) × (screen' : Console) × (keyboard_handler byte kb screen
        ≡ some (kb', screen'))
      × (kb'.is_make ≡ not kb.is_make)
      × Holds (typed_after byte kb typed) kb'
      × IsValid screen'
unfolding keyboard_handler typed_after
keyboard_handler-Holds byte {typed} {kb} {screen} h v = elim (Bool-cases kb.is_make) [
  | inr e ↦ (record kb { is_make = true }, screen, rw e, rw e, rw e (with_make true h), v)
  | inl e ↦ elim (Bool-cases (get_or keyboard_layout (bit_and byte 0x7f) 0 == 0)) [
    | inl z ↦ (
      record kb { is_make = false },
      screen,
      rw (e, layout_lem byte, z),
      rw e,
      rw (e, z) (with_make false h),
      v,
    )
    | inr z ↦
        let c = get_or keyboard_layout (bit_and byte 0x7f) 0 in
        let (screen', run, v') = printc-IsValid c v in
        (
          record kb {
            buffer = set kb.buffer kb.pos c;
            pos = u8 ((kb.pos + 1) % keyboard_buffer_size);
            is_make = false;
          },
          screen',
          rw (layout_lem byte, z, type_char_lem c screen h run, e),
          rw e,
          rw (e, z) (with_make false (Holds-push c h)),
          v',
        )
  ]
]
