-- ===== src/Strings/Tests.antt =====
-- Strings at concrete inputs.
use titan_os.Base.{ℕ, List, [], ◌∷◌, arith}
use titan_os.Strings.Laws.{Text}

abbrev name : List ℕ
name = b'r' ∷ b'a' ∷ b'm' ∷ []

name-Text : Text name
name-Text = (omega arith, (omega arith, (omega arith, tt)))
