-- ===== src/Apic/Madt.antt =====
-- The walk over the entries that describe interrupt controllers.
use titan_os.Base.{
  ℕ, zero, suc, ◌+◌, ◌-◌, ◌≡◌, ◌≢◌, ◌<◌, ◌≤◌, ◌⊎◌, inl, inr, refl, sym, ◌∙◌, ap, some, List, [],
  ◌∷◌, ==_ne, leb-true, leb-false, length, u8, arith,
}
use native.Mathlib.Decide.{ℕ_discrete, dec_le}
use titan_os.Vmm.Spaces.{Run}
use titan_os.Acpi.{table_length, get_acpi_table}
use titan_os.Apic.{read_ioapic, madt_loop, apic_sig, get_ioapic}

-- The type of an entry and its length in bytes.
pub record Entry : Type 0 where
  pub type : ℕ
  pub size : ℕ

-- Entries that lie one behind the other from `a` to `e`, none of them of an I/O controller, and none of
-- an unknown type or without bytes.
unfoldable pub Entries : (ℕ → ℕ) → ℕ → ℕ → List Entry → Type 0
Entries bytes a e [] = a ≡ e
Entries bytes a e (x ∷ xs) =
    (u8 (bytes a) ≡ x.type)
    × (u8 (bytes (a + 1)) ≡ x.size)
    × (x.type ≢ 1)
    × (x.type ≤ 5)
    × (0 < x.size)
    × Entries bytes (a + x.size) e xs

pub Entries-le : (bytes : ℕ → ℕ) (a e : ℕ) (xs : List Entry) → Entries bytes a e xs → a ≤ e
unfolding Entries
Entries-le bytes a e [] c = omega arith
Entries-le bytes a e (x ∷ xs) (_, _, _, _, _, c) =
    omega (arith, Entries-le bytes (a + x.size) e xs c)

-- The walk goes on by the length of an entry of another type.
madt_step :
    (fuel : ℕ) (bytes : ℕ → ℕ) (a end size : ℕ)
    → a ≤ end
    → u8 (bytes a) ≢ 1
    → u8 (bytes a) ≤ 5
    → u8 (bytes (a + 1)) ≡ size
    → madt_loop (suc fuel) bytes a end ≡ madt_loop fuel bytes (a + size) end
unfolding madt_loop
madt_step fuel bytes a end size le other known e =
    rw (leb-true a end le, ==_ne (u8 (bytes a)) 1 other, leb-true (u8 (bytes a)) 5 known, e)

madt_loop-Entries :
    (fuel left : ℕ) (bytes : ℕ → ℕ) (a e end : ℕ) (xs : List Entry)
    → fuel ≡ length xs + left
    → Entries bytes a e xs
    → e ≤ end
    → madt_loop fuel bytes a end ≡ madt_loop left bytes e end
unfolding Entries
madt_loop-Entries fuel left bytes a e end [] f c le =
    let same : fuel ≡ left = omega arith in rw (same, c)
madt_loop-Entries zero left bytes a e end (x ∷ xs) f c le = absurd (omega arith)
madt_loop-Entries (suc fuel) left bytes a e end (x ∷ xs) f (type, size, other, known, _, c) le =
    madt_step fuel bytes a end x.size (omega (arith, Entries-le bytes (a + x.size) e xs c))
      (λ one. other (sym type ∙ one)) (omega arith) size
    ∙ madt_loop-Entries fuel left bytes (a + x.size) e end xs (omega arith) c le

madt_loop_stuck :
    (fuel : ℕ) (bytes : ℕ → ℕ) (a end : ℕ)
    → a ≤ end
    → u8 (bytes a) ≢ 1
    → u8 (bytes a) ≤ 5
    → u8 (bytes (a + 1)) ≡ 0
    → madt_loop fuel bytes a end ≡ Run.undefined
unfolding madt_loop
madt_loop_stuck zero bytes a end le other known none_left = refl
madt_loop_stuck (suc fuel) bytes a end le other known none_left =
    let same : a + 0 ≡ a = omega arith in
    madt_step fuel bytes a end 0 le other known none_left
    ∙ ap (λ x. madt_loop fuel bytes x end) same
    ∙ madt_loop_stuck fuel bytes a end le other known none_left

-- The table of interrupt controllers is found at `madt`, and `xs` are its entries in front of the
-- address `e`, which is at most the table's end. With fuel above their number, `get_ioapic` returns what
-- the entry at `e` says when its type is 1, and panics when its type is unknown, which may be the byte
-- behind the table: the test of the loop lets `e` be the end. An entry of another type that has the
-- length 0 is read for ever: no fuel is enough.
pub get_ioapic-Entries :
    (fuel : ℕ) (bytes : ℕ → ℕ) (tables : List ℕ) (madt e : ℕ) (xs : List Entry)
    → get_acpi_table bytes tables apic_sig ≡ some madt
    → madt ≢ 0
    → Entries bytes (madt + 36 + 8) e xs
    → e ≤ madt + table_length bytes madt
    → length xs < fuel
    → (u8 (bytes e) ≡ 1 → get_ioapic fuel bytes tables ≡ some (Run.done (read_ioapic bytes e)))
      × (5 < u8 (bytes e) → get_ioapic fuel bytes tables ≡ some Run.panicked)
      × (u8 (bytes e) ≢ 1
          → u8 (bytes e) ≤ 5
          → u8 (bytes (e + 1)) ≡ 0
          → get_ioapic fuel bytes tables ≡ some Run.undefined)
unfolding get_ioapic madt_loop
get_ioapic-Entries fuel bytes tables madt e xs found there c le lt =
    let end = madt + table_length bytes madt in
    let left = fuel - length xs - 1 in
    let walk =
      madt_loop-Entries fuel (suc left) bytes (madt + 36 + 8) e end xs (omega arith) c le in
    (
      (λ one. rw (found, ==_ne madt 0 there, walk, leb-true e end le, one)),
      (λ big. rw (
        found,
        ==_ne madt 0 there,
        walk,
        leb-true e end le,
        ==_ne (u8 (bytes e)) 1 (omega arith),
        leb-false (u8 (bytes e)) 5 big,
      )),
      (λ other known no_bytes. rw (
        found,
        ==_ne madt 0 there,
        walk,
        madt_loop_stuck (suc left) bytes e end le other known no_bytes,
      )),
    )

madt_loop_ends :
    (fuel : ℕ) (bytes : ℕ → ℕ) (a end : ℕ)
    → ((b : ℕ) → a ≤ b → b ≤ end → 0 < u8 (bytes (b + 1)))
    → 0 < fuel
    → end + 1 < fuel + a
    → ((p : ℕ) × (madt_loop fuel bytes a end ≡ Run.done p))
      ⊎ (madt_loop fuel bytes a end ≡ Run.panicked)
unfolding madt_loop
madt_loop_ends zero bytes a end sizes positive lt = absurd (omega arith)
madt_loop_ends (suc fuel) bytes a end sizes positive lt =
    let t = u8 (bytes a) in
    elim (dec_le a end) [
      | no gt ↦ inl (0, rw (leb-false a end (omega arith)))
      | yes le ↦ elim (ℕ_discrete t 1) [
        | yes one ↦ inl (read_ioapic bytes a, rw (leb-true a end le, one))
        | no ne ↦ elim (dec_le t 5) [
          | no big ↦ inr (rw (leb-true a end le, ==_ne t 1 ne, leb-false t 5 (omega arith)))
          | yes known ↦
              let size = u8 (bytes (a + 1)) in
              let some_bytes = sizes a (omega arith) le in
              rw (madt_step fuel bytes a end size le ne known refl) (
                madt_loop_ends fuel bytes (a + size) end (λ b p q. sizes b (omega arith) q)
                  (omega arith) (omega arith))
        ]
      ]
    ]

-- The table of interrupt controllers is found at `madt`, and every byte behind its header, up to one behind
-- its end, that may be read as a length is at least 1. `get_ioapic` ends, with a pointer or in a panic, on fuel above the length of the table.
pub get_ioapic_ends :
    (fuel : ℕ) (bytes : ℕ → ℕ) (tables : List ℕ) (madt : ℕ)
    → get_acpi_table bytes tables apic_sig ≡ some madt
    → ((b : ℕ) → madt + 44 ≤ b → b ≤ madt + table_length bytes madt → 0 < u8 (bytes (b + 1)))
    → table_length bytes madt < fuel
    → ((p : ℕ) × (get_ioapic fuel bytes tables ≡ some (Run.done p)))
      ⊎ (get_ioapic fuel bytes tables ≡ some Run.panicked)
unfolding get_ioapic
get_ioapic_ends fuel bytes tables madt found sizes lt = elim (ℕ_discrete madt 0) [
  | yes z ↦ inr (rw (found, z))
  | no there ↦
      elim (madt_loop_ends fuel bytes (madt + 36 + 8) (madt + table_length bytes madt)
        (λ b p q. sizes b (omega arith) q) (omega arith) (omega arith)) [
          | inl (p, e) ↦ inl (p, rw (found, ==_ne madt 0 there, e))
          | inr e ↦ inr (rw (found, ==_ne madt 0 there, e))
        ]
]
