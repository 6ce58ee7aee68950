-- ===== src/Multiboot/Tests.antt =====
-- The tags of a small boot loader.
use titan_os.Base.{ℕ, ◌≡◌, refl, some, [], ◌∷◌, ◌==◌, if◌then◌else◌, arith}
use titan_os.Multiboot.{read_u32, next_tag, get_mb2_tag}
use titan_os.Multiboot.Tags.{Layout, get_mb2_tag-place}

-- A tag of type 1 and size 13 at 0x1008, one of type 15 at 0x1018, and the end at 0x1028.
abbrev bytes : ℕ → ℕ
bytes a =
    if a == 0x1008
    then 1
    else if a == 0x100c
    then 13
    else if a == 0x1018
    then 15
    else if a == 0x101c
    then 16
    else 0

bytes-Layout :
    Layout bytes 0x1008 (record { type = 1; size = 13 } ∷ record { type = 15; size = 16 } ∷ [])
unfolding read_u32 next_tag
bytes-Layout = (refl, omega arith, refl, (refl, omega arith, refl, refl))

get_mb2_tag-place_example : get_mb2_tag 3 bytes 0x1000 15 ≡ some 0x1018
unfolding next_tag
get_mb2_tag-place_example =
    get_mb2_tag-place 3 bytes 0x1000 15
      (record { type = 1; size = 13 } ∷ record { type = 15; size = 16 } ∷ []) (omega arith)
      (omega arith) bytes-Layout
