-- ===== src/Vga/Format.antt =====
-- What `printf` does with a format.
use titan_os.Base.{ℕ, ◌≡◌, ◌≢◌, refl, List, [], ◌∷◌, ◌++◌, ◌∙◌, ap, sym, ==_ne}
use titan_os.Vga.{
  Arg, Printed, returns, hangs, undefined, after, convert, take_int, take_str, take_long, printf,
  printint, printlong,
}
use mathlib.Core.List.{append_assoc, append-nil}

-- No character is a percent sign.
abbrev pub IsPlain : List ℕ → Type 0
IsPlain [] = Unit
IsPlain (c ∷ cs) = (c ≢ b'%') × IsPlain cs

after-after : (xs ys : List ℕ) (r : Printed) → after xs (after ys r) ≡ after (xs ++ ys) r
unfolding after
after-after xs ys (returns z) = ap returns (sym (append_assoc xs ys z))
after-after xs ys (hangs z) = ap hangs (sym (append_assoc xs ys z))
after-after xs ys undefined = refl

after_nil : (r : Printed) → after [] r ≡ r
unfolding after
after_nil (returns z) = refl
after_nil (hangs z) = refl
after_nil undefined = refl

printf_char :
    (c : ℕ) (format : List ℕ) (args : List Arg)
    → c ≢ b'%'
    → printf (c ∷ format) args ≡ after (c ∷ []) (printf format args)
unfolding printf after
printf_char c [] args ne = rw (==_ne c b'%' ne)
printf_char c (d ∷ []) args ne = rw (==_ne c b'%' ne)
printf_char c (d ∷ e ∷ format) args ne = rw (==_ne c b'%' ne)

-- Text before the first percent sign is printed as it stands, whatever follows it.
pub printf-append :
    (plain format : List ℕ) (args : List Arg)
    → IsPlain plain
    → printf (plain ++ format) args ≡ after plain (printf format args)
printf-append [] format args p = sym (after_nil (printf format args))
printf-append (c ∷ cs) format args p =
    printf_char c (cs ++ format) args p.0
    ∙ ap (after (c ∷ [])) (printf-append cs format args p.1)
    ∙ after-after (c ∷ []) cs (printf format args)

-- The conversions consume one argument of their kind and print it; then the rest of the format goes on.
-- An unknown conversion, one cut off by the end of the format, and `%l` without a `u` never return.
pub printf_conversions :
    (format : List ℕ) (args : List Arg) (n : ℕ) (s : List ℕ) (d : ℕ)
    → (printf (b'%' ∷ b's' ∷ format) (Arg.str s ∷ args) ≡ after s (printf format args))
      × (printf (b'%' ∷ b'd' ∷ format) (Arg.int n ∷ args) ≡ after (printint n) (printf format args))
      × (printf (b'%' ∷ b'l' ∷ b'u' ∷ format) (Arg.long n ∷ args)
          ≡ after (printlong n) (printf format args))
      × (d ≢ b'd' → d ≢ b's' → d ≢ b'l' → printf (b'%' ∷ d ∷ format) args ≡ hangs [])
      × (d ≢ b'u' → printf (b'%' ∷ b'l' ∷ d ∷ format) args ≡ hangs [])
      × (printf (b'%' ∷ []) args ≡ hangs [])
unfolding printf convert take_int take_str take_long
printf_conversions [] args n s d = (
  refl,
  refl,
  refl,
  (λ a b c. rw (==_ne d b'd' a, ==_ne d b's' b, ==_ne d b'l' c)),
  (λ a. rw (==_ne d b'u' a)),
  refl,
)
printf_conversions (e ∷ format) args n s d = (
  refl,
  refl,
  refl,
  (λ a b c. rw (==_ne d b'd' a, ==_ne d b's' b, ==_ne d b'l' c)),
  (λ a. rw (==_ne d b'u' a)),
  refl,
)

-- A conversion other than `%d`, `%s` and `%lu` stops the kernel: the text before it is printed, and the
-- call never returns.
pub printf_unknown :
    (plain format : List ℕ) (d : ℕ) (args : List Arg)
    → IsPlain plain
    → d ≢ b'd'
    → d ≢ b's'
    → d ≢ b'l'
    → printf (plain ++ (b'%' ∷ d ∷ format)) args ≡ hangs plain
unfolding after
printf_unknown plain format d args p a b c =
    printf-append plain (b'%' ∷ d ∷ format) args p
    ∙ ap (after plain) ((printf_conversions format args 0 [] d).3 a b c)
    ∙ ap hangs (append-nil plain)
