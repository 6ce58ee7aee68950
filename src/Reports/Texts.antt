-- ===== src/Reports/Texts.antt =====
-- The texts that the functions of src/kernel print with a format.
use titan_os.Base.{ℕ, List, [], ◌∷◌}

abbrev pub available_title : List ℕ
available_title =
    b'A' ∷ b'v' ∷ b'a' ∷ b'i' ∷ b'l' ∷ b'a' ∷ b'b' ∷ b'l' ∷ b'e' ∷ b' ' ∷ b'R' ∷ b'e' ∷ b'g' ∷ b'i'
    ∷ b'o' ∷ b'n' ∷ b's' ∷ b':' ∷ b'\n' ∷ []

abbrev pub reserved_title : List ℕ
reserved_title =
    b'R' ∷ b'e' ∷ b's' ∷ b'e' ∷ b'r' ∷ b'v' ∷ b'e' ∷ b'd' ∷ b' ' ∷ b'R' ∷ b'e' ∷ b'g' ∷ b'i' ∷ b'o'
    ∷ b'n' ∷ b's' ∷ b':' ∷ b'\n' ∷ []

abbrev pub region_format : List ℕ
region_format =
    b'S' ∷ b't' ∷ b'a' ∷ b'r' ∷ b't' ∷ b' ' ∷ b'A' ∷ b'd' ∷ b'd' ∷ b'r' ∷ b'e' ∷ b's' ∷ b's' ∷ b':'
    ∷ b' ' ∷ b'%' ∷ b'l' ∷ b'u' ∷ b';' ∷ b' ' ∷ b'L' ∷ b'e' ∷ b'n' ∷ b'g' ∷ b't' ∷ b'h' ∷ b' '
    ∷ b':' ∷ b' ' ∷ b'%' ∷ b'l' ∷ b'u' ∷ b'\n' ∷ []

abbrev pub rsdt_addr_title : List ℕ
rsdt_addr_title = b'R' ∷ b'S' ∷ b'D' ∷ b'T' ∷ b' ' ∷ b'A' ∷ b'd' ∷ b'd' ∷ b'r' ∷ b':' ∷ b' ' ∷ []

abbrev pub rsdt_length_title : List ℕ
rsdt_length_title =
    b'R' ∷ b'S' ∷ b'D' ∷ b'T' ∷ b' ' ∷ b'L' ∷ b'e' ∷ b'n' ∷ b'g' ∷ b't' ∷ b'h' ∷ b':' ∷ b' ' ∷ []

abbrev pub rsdt_signature_title : List ℕ
rsdt_signature_title =
    b'R' ∷ b'S' ∷ b'D' ∷ b'T' ∷ b' ' ∷ b'S' ∷ b'i' ∷ b'g' ∷ b'n' ∷ b'a' ∷ b't' ∷ b'u' ∷ b'r' ∷ b'e'
    ∷ b':' ∷ b' ' ∷ []

abbrev pub version_format : List ℕ
version_format =
    b'a' ∷ b'c' ∷ b'p' ∷ b'i' ∷ b':' ∷ b' ' ∷ b'A' ∷ b'C' ∷ b'P' ∷ b'I' ∷ b' ' ∷ b'V' ∷ b'e' ∷ b'r'
    ∷ b's' ∷ b'i' ∷ b'o' ∷ b'n' ∷ b' ' ∷ b'%' ∷ b'd' ∷ b'\n' ∷ []

abbrev pub oem_title : List ℕ
oem_title =
    b'a' ∷ b'c' ∷ b'p' ∷ b'i' ∷ b':' ∷ b' ' ∷ b'A' ∷ b'C' ∷ b'P' ∷ b'I' ∷ b' ' ∷ b'O' ∷ b'E' ∷ b'M'
    ∷ b' ' ∷ []

abbrev pub found_title : List ℕ
found_title =
    b'a' ∷ b'c' ∷ b'p' ∷ b'i' ∷ b':' ∷ b' ' ∷ b'f' ∷ b'o' ∷ b'u' ∷ b'n' ∷ b'd' ∷ b' ' ∷ b't' ∷ b'h'
    ∷ b'e' ∷ b' ' ∷ []

abbrev pub phoff_format : List ℕ
phoff_format =
    b'E' ∷ b'L' ∷ b'F' ∷ b' ' ∷ b'p' ∷ b'h' ∷ b'o' ∷ b'f' ∷ b'f' ∷ b':' ∷ b' ' ∷ b'%' ∷ b'l' ∷ b'u'
    ∷ b'\n' ∷ []

abbrev pub phnum_format : List ℕ
phnum_format =
    b'E' ∷ b'L' ∷ b'F' ∷ b' ' ∷ b'p' ∷ b'h' ∷ b'n' ∷ b'u' ∷ b'm' ∷ b':' ∷ b' ' ∷ b'%' ∷ b'd' ∷ b'\n'
    ∷ []

abbrev pub signature_format : List ℕ
signature_format =
    b'E' ∷ b'L' ∷ b'F' ∷ b' ' ∷ b'S' ∷ b'i' ∷ b'g' ∷ b'n' ∷ b'a' ∷ b't' ∷ b'u' ∷ b'r' ∷ b'e' ∷ b':'
    ∷ b' ' ∷ b'%' ∷ b's' ∷ b'\n' ∷ []

abbrev pub name_text : List ℕ
name_text =
    b' ' ∷ b' ' ∷ b'_' ∷ b'_' ∷ b'_' ∷ b'_' ∷ b'_' ∷ b'_' ∷ b'_' ∷ b' ' ∷ b'_' ∷ b'_' ∷ b' ' ∷ b' '
    ∷ b' ' ∷ b' ' ∷ b' ' ∷ b' ' ∷ b' ' ∷ b' ' ∷ b' ' ∷ b' ' ∷ b' ' ∷ b' ' ∷ b' ' ∷ b' ' ∷ b'_'
    ∷ b'_' ∷ b'_' ∷ b'_' ∷ b' ' ∷ b' ' ∷ b'_' ∷ b'_' ∷ b'_' ∷ b'_' ∷ b'_' ∷ b'\n' ∷ b' ' ∷ b'/'
    ∷ b'_' ∷ b' ' ∷ b' ' ∷ b'_' ∷ b'_' ∷ b'(' ∷ b'_' ∷ b')' ∷ b' ' ∷ b'/' ∷ b'_' ∷ b'_' ∷ b'_'
    ∷ b'_' ∷ b'_' ∷ b' ' ∷ b'_' ∷ b'_' ∷ b'_' ∷ b'_' ∷ b'_' ∷ b' ' ∷ b' ' ∷ b'/' ∷ b' ' ∷ b'_'
    ∷ b'_' ∷ b' ' ∷ b'\\' ∷ b'/' ∷ b' ' ∷ b'_' ∷ b'_' ∷ b'_' ∷ b'/' ∷ b'\n' ∷ b' ' ∷ b' ' ∷ b'/'
    ∷ b' ' ∷ b'/' ∷ b' ' ∷ b'/' ∷ b' ' ∷ b'/' ∷ b' ' ∷ b'_' ∷ b'_' ∷ b'/' ∷ b' ' ∷ b'_' ∷ b'_'
    ∷ b' ' ∷ b'`' ∷ b'/' ∷ b' ' ∷ b'_' ∷ b'_' ∷ b' ' ∷ b'\\' ∷ b'/' ∷ b' ' ∷ b'/' ∷ b' ' ∷ b'/'
    ∷ b' ' ∷ b'/' ∷ b'\\' ∷ b'_' ∷ b'_' ∷ b' ' ∷ b'\\' ∷ b' ' ∷ b'\n' ∷ b' ' ∷ b'/' ∷ b' ' ∷ b'/'
    ∷ b' ' ∷ b'/' ∷ b' ' ∷ b'/' ∷ b' ' ∷ b'/' ∷ b'_' ∷ b'/' ∷ b' ' ∷ b'/' ∷ b'_' ∷ b'/' ∷ b' '
    ∷ b'/' ∷ b' ' ∷ b'/' ∷ b' ' ∷ b'/' ∷ b' ' ∷ b'/' ∷ b' ' ∷ b'/' ∷ b'_' ∷ b'/' ∷ b' ' ∷ b'/'
    ∷ b'_' ∷ b'_' ∷ b'_' ∷ b'/' ∷ b' ' ∷ b'/' ∷ b' ' ∷ b'\n' ∷ b'/' ∷ b'_' ∷ b'/' ∷ b' ' ∷ b'/'
    ∷ b'_' ∷ b'/' ∷ b'\\' ∷ b'_' ∷ b'_' ∷ b'/' ∷ b'\\' ∷ b'_' ∷ b'_' ∷ b',' ∷ b'_' ∷ b'/' ∷ b'_'
    ∷ b'/' ∷ b' ' ∷ b'/' ∷ b'_' ∷ b'/' ∷ b'\\' ∷ b'_' ∷ b'_' ∷ b'_' ∷ b'_' ∷ b'/' ∷ b'/' ∷ b'_'
    ∷ b'_' ∷ b'_' ∷ b'_' ∷ b'/' ∷ b' ' ∷ b' ' ∷ b'\n' ∷ b'\n' ∷ []
