-- ===== src/Vga/Tests.antt =====
-- The console at small inputs, and its theorems there.
use titan_os.Base.{ℕ, ◌≡◌, refl, some, List, [], ◌∷◌, replicate, length, length-replicate, arith}
use titan_os.Vga.{
  Console, Arg, returns, after, convert, take_str, printstr, printlong, hex_loop, hex_char,
  printint, int_loop, printf, move_cursor,
}
use titan_os.Vga.Screen.{IsValid, write_text, printstr-write_text}
use titan_os.Vga.Numbers.{read_hex, printlong-read_hex}

-- Two columns before the end of the second line.
abbrev console : Console
console = record { cells = replicate 2000 0; x = 78; y = 1 }

console-IsValid : IsValid console
console-IsValid = record {
  size = length-replicate {A = ℕ} 2000 0;
  column = omega arith;
  row = omega arith;
}

abbrev hello : List ℕ
hello = b'a' ∷ b'b' ∷ b'c' ∷ []

printlong_runs :
    printlong 0x12ab
    ≡ b'0' ∷ b'x' ∷ b'0' ∷ b'0' ∷ b'0' ∷ b'0' ∷ b'0' ∷ b'0' ∷ b'0' ∷ b'0' ∷ b'0' ∷ b'0' ∷ b'0'
      ∷ b'0' ∷ b'1' ∷ b'2' ∷ b'a' ∷ b'b' ∷ []
unfolding printlong hex_loop hex_char
printlong_runs = refl

-- 512 comes out as 12, and a single digit as nothing.
printint_runs : (printint 512 ≡ b'1' ∷ b'2' ∷ []) × (printint 7 ≡ [])
unfolding printint int_loop
printint_runs = (refl, refl)

printf_runs :
    printf (b'%' ∷ b's' ∷ b'!' ∷ []) (Arg.str hello ∷ []) ≡ returns (b'a' ∷ b'b' ∷ b'c' ∷ b'!' ∷ [])
unfolding printf convert take_str after
printf_runs = refl

move_cursor_runs : move_cursor console ≡ (159, 0)
unfolding move_cursor
move_cursor_runs = refl

printstr-write_text_example :
    printstr hello console
    ≡ some (record { cells = write_text 158 hello (replicate 2000 0); x = 1; y = 2 })
printstr-write_text_example =
    printstr-write_text hello console-IsValid (omega arith, (omega arith, (omega arith, tt)))
      (omega arith)

printlong-read_hex_example :
    (ds : List ℕ) × (printlong 0x12ab ≡ b'0' ∷ b'x' ∷ ds)
    × (length ds ≡ 16)
    × (read_hex 0 ds ≡ 0x12ab)
printlong-read_hex_example = printlong-read_hex 0x12ab (omega arith)
