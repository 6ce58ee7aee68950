-- ===== src/Vga/Screen.antt =====
-- The console stays within its 2000 cells, and text that fits is written in order.
use titan_os.Base.{
  ℕ, zero, suc, ◌+◌, ◌*◌, ◌/◌, ◌%◌, ◌<◌, ◌≡◌, ◌≢◌, refl, false, some, List, [], ◌∷◌, leb, ◌==◌, set,
  replicate, drop, length, arith, length-set, length-drop, length-append, length-replicate,
  get_elem?-eq-get_or, Bool-cases, inl, inr, ◌∙◌, ==_ne,
}
use titan_os.Vga.{
  Console, cell_of, scroll_down, keep_on_screen, put_cell, printc, printstr, clear_loop,
  clear_console, console_init,
}

pub record IsValid (s : Console) : Type 0 where
  pub size : length s.cells ≡ 2000
  pub column : s.x < 80
  pub row : s.y < 25

scroll_down-length : (s : Console) → length s.cells ≡ 2000 → length (scroll_down s).cells ≡ 2000
unfolding scroll_down
scroll_down-length s h = omega (
  arith,
  length-append (drop 80 s.cells) (replicate 80 0),
  length-drop 80 s.cells,
  length-replicate {A = ℕ} 80 0,
)

scroll_down-IsValid :
    (s : Console) → length s.cells ≡ 2000 → s.x < 80 → s.y < 25 → IsValid (scroll_down s)
scroll_down-IsValid s h p q = record {
  size = scroll_down-length s h;
  column = unfold scroll_down in p;
  row = unfold scroll_down in q;
}

keep_on_screen-IsValid :
    (s : Console) → length s.cells ≡ 2000 → s.x < 80 → IsValid (keep_on_screen s)
unfolding keep_on_screen
keep_on_screen-IsValid s h lt = elim (Bool-cases (leb 25 s.y)) [
  | inl e ↦ rw e (scroll_down-IsValid (record s { x = 0; y = 24 }) h (omega arith) (omega arith))
  | inr e ↦ rw e (record { size = h; column = lt; row = ground arith })
]

-- The console after a character that is not a line feed.
abbrev written : ℕ → Console → Console
written c s = record {
  cells = set s.cells (s.y * 80 + s.x) (cell_of c);
  x = (s.x + 1) % 80;
  y = s.y + (s.x + 1) / 80;
}

put_cell-written : {s : Console} (c : ℕ) → IsValid s → put_cell c s ≡ some (written c s)
unfolding put_cell
put_cell-written {s} c v = rw (get_elem?-eq-get_or s.cells (s.y * 80 + s.x) 0 (omega arith))

-- `printc` on a valid console writes within the cells and leaves a valid console.
pub printc-IsValid :
    {s : Console} (c : ℕ) → IsValid s → (s' : Console) × (printc c s ≡ some s') × IsValid s'
unfolding printc
printc-IsValid {s} c v = elim (Bool-cases (c == b'\n')) [
  | inl e ↦ (
    keep_on_screen (record s { x = 0; y = s.y + 1 }),
    rw e,
    keep_on_screen-IsValid _ v.size (omega arith),
  )
  | inr e ↦ (
    keep_on_screen (written c s),
    rw (e, put_cell-written c v),
    keep_on_screen-IsValid (written c s)
        (omega (arith, length-set s.cells (s.y * 80 + s.x) (cell_of c), v.size)) (omega arith),
  )
]

-- Printing any text on a valid console writes within its 2000 cells and leaves a valid console.
pub printstr-IsValid :
    (cs : List ℕ) {s : Console}
    → IsValid s
    → (s' : Console) × (printstr cs s ≡ some s') × IsValid s'
unfolding printstr
printstr-IsValid [] {s} v = (s, refl, v)
printstr-IsValid (c ∷ cs) v =
    let (t, run, v') = printc-IsValid c v in
    let (u, rest, w) = printstr-IsValid cs v' in (u, rw run rest, w)

clear_loop-IsValid :
    (left : ℕ) {s : Console}
    → IsValid s
    → (s' : Console) × (clear_loop left s ≡ some s') × IsValid s'
unfolding clear_loop
clear_loop-IsValid zero {s} v = (s, refl, v)
clear_loop-IsValid (suc left) v =
    let (t, run, v') = printc-IsValid b' ' v in
    let (u, rest, w) = clear_loop-IsValid left v' in (u, rw run rest, w)

-- `console_init` on a buffer of 2000 cells, with the cursor on the screen, writes within the buffer and
-- leaves a valid console with the cursor at the origin.
pub console_init-IsValid :
    {s : Console}
    → IsValid s
    → (s' : Console) × (console_init s ≡ some s') × IsValid s' × (s'.x ≡ 0) × (s'.y ≡ 0)
unfolding console_init clear_console
console_init-IsValid v =
    let (t, run, v') = clear_loop-IsValid 2000 v in
    (
      record t { x = 0; y = 0 },
      rw run,
      record { size = v'.size; column = omega arith; row = omega arith },
      refl,
      refl,
    )

-- The cells with a text written from a position on.
unfoldable pub write_text : ℕ → List ℕ → List ℕ → List ℕ
write_text at [] cells = cells
write_text at (c ∷ cs) cells = write_text (at + 1) cs (set cells at (cell_of c))

abbrev pub IsOneLine : List ℕ → Type 0
IsOneLine [] = Unit
IsOneLine (c ∷ cs) = (c ≢ b'\n') × IsOneLine cs

keep_on_screen-same : (s : Console) → s.y < 25 → keep_on_screen s ≡ s
unfolding keep_on_screen
keep_on_screen-same s lt = ground arith

-- A text without line feeds that ends before the last cell is written cell by cell from the cursor on,
-- wrapping at the line ends, and nothing else changes; the cursor ends behind it.
pub printstr-write_text :
    (cs : List ℕ) {s : Console}
    → IsValid s
    → IsOneLine cs
    → s.y * 80 + s.x + length cs < 2000
    → printstr cs s
      ≡ some (record {
        cells = write_text (s.y * 80 + s.x) cs s.cells;
        x = (s.y * 80 + s.x + length cs) % 80;
        y = (s.y * 80 + s.x + length cs) / 80;
      })
unfolding printstr write_text printc
printstr-write_text [] v o lt = ground arith
printstr-write_text (c ∷ cs) {s} v o lt =
    let v' : IsValid (written c s) = record {
      size = omega (arith, length-set s.cells (s.y * 80 + s.x) (cell_of c), v.size);
      column = omega arith;
      row = omega arith;
    } in
    let newline : (c == b'\n') ≡ false = ==_ne c b'\n' o.0 in
    let kept : keep_on_screen (written c s) ≡ written c s =
      keep_on_screen-same (written c s) (omega arith) in
    let ih = printstr-write_text cs v' o.1 (omega arith) in
    let p = s.y * 80 + s.x in
    let next : (s.y + (s.x + 1) / 80) * 80 + (s.x + 1) % 80 ≡ p + 1 = omega arith in
    let sum : p + 1 + length cs ≡ p + suc (length cs) = omega arith in
    rw (newline, put_cell-written c v, kept) (ih ∙ rw (next, sum))
