-- ===== src/Reports/Screens.antt =====
-- What the reports print, and that they stay on the screen.
use titan_os.Base.{ℕ, ◌≡◌, refl, ap, ◌∙◌, some, List, [], ◌∷◌, ◌++◌}
use titan_os.Vga.{Console, returns, after, printf, printlong, convert, take_long}
use titan_os.Vga.Screen.{IsValid, printstr-IsValid}
use titan_os.MemoryMap.{Entry, Lists}
use titan_os.Reports.{then_print, show, dump_region, dump_list, dump_regions}
use titan_os.Reports.Texts.{available_title, reserved_title}

abbrev pub start_text : List ℕ
start_text =
    b'S' ∷ b't' ∷ b'a' ∷ b'r' ∷ b't' ∷ b' ' ∷ b'A' ∷ b'd' ∷ b'd' ∷ b'r' ∷ b'e' ∷ b's' ∷ b's' ∷ b':'
    ∷ b' ' ∷ []

abbrev pub length_text : List ℕ
length_text = b';' ∷ b' ' ∷ b'L' ∷ b'e' ∷ b'n' ∷ b'g' ∷ b't' ∷ b'h' ∷ b' ' ∷ b':' ∷ b' ' ∷ []

-- The line of a region, and the lines of a list.
abbrev pub line : Entry → List ℕ
line e = start_text ++ (printlong e.addr ++ (length_text ++ (printlong e.len ++ (b'\n' ∷ []))))

abbrev pub lines : List Entry → List ℕ
lines [] = []
lines (e ∷ es) = line e ++ lines es

dump_region-line : (e : Entry) → dump_region e ≡ returns (line e)
unfolding dump_region printf convert take_long after
dump_region-line e = refl

dump_list-lines : (es : List Entry) → dump_list es ≡ returns (lines es)
unfolding dump_list then_print after
dump_list-lines [] = refl
dump_list-lines (e ∷ es) = rw (dump_region-line e, dump_list-lines es)

-- `dump_regions` returns for all lists, and prints the two titles, each with a line for each region of
-- its list, in order, with the address and the length in hexadecimal. On a valid console this writes
-- within its 2000 cells and leaves a valid console.
pub dump_regions-IsValid :
    (l : Lists) {s : Console}
    → IsValid s
    → (dump_regions l
        ≡ returns (available_title ++ (lines l.available ++ (reserved_title ++ lines l.reserved))))
      × (s' : Console) × (show (dump_regions l) s ≡ some s')
      × IsValid s'
unfolding dump_regions show then_print after printf
dump_regions-IsValid l {s} v =
    let text = available_title ++ (lines l.available ++ (reserved_title ++ lines l.reserved)) in
    let prints : dump_regions l ≡ returns text =
      rw (dump_list-lines l.available, dump_list-lines l.reserved) in
    let (s', run, v') = printstr-IsValid text v in (prints, s', ap (λ r. show r s) prints ∙ run, v')
