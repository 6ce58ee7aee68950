-- ===== src/Acpi/Tests.antt =====
-- Two tables in memory.
use titan_os.Base.{ℕ, ◌%◌, ◌≡◌, List, [], ◌∷◌, ◌==◌, if◌then◌else◌}
use titan_os.Acpi.{validate_checksum, bytes_at}
use titan_os.Acpi.Tables.{sum, validate_checksum-sum}

-- "FACP" at 0x1000, and "APIC" elsewhere.
abbrev bytes : ℕ → ℕ
bytes a =
    if a == 0x1000
    then 70
    else if a % 4 == 0
    then 65
    else if a % 4 == 1
    then 80
    else if a % 4 == 2
    then 73
    else 67

abbrev sig : List ℕ
sig = 65 ∷ 80 ∷ 73 ∷ 67 ∷ []

abbrev tables : List ℕ
tables = 0x1000 ∷ 0x2000 ∷ []

validate_checksum-sum_example :
    validate_checksum bytes 0x1000 20 ≡ (sum (bytes_at bytes 0x1000 20) % 256 == 0)
validate_checksum-sum_example = validate_checksum-sum bytes 0x1000 20
