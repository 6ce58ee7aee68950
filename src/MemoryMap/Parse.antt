-- ===== src/MemoryMap/Parse.antt =====
-- `mb2_mmap_init` of src/kernel/mm/mb2_mmap.c: from the tag to the lists. What it prints is left out.
use titan_os.Base.{
  ℕ, zero, suc, ◌+◌, ◌*◌, ◌^◌, ◌<◌, ◌≤◌, ◌≡◌, ◌≢◌, inl, inr, refl, ap, sym, ◌∙◌, Option, none, some,
  List, [], ◌∷◌, ◌++◌, ◌==◌, ltb, ltb-true, ltb-false, if◌then◌else◌, length, u64, ◌>>=◌,
  Bool-cases, Option-cases, arith,
}
use mathlib.Core.Path.{fun_ext}
use titan_os.Multiboot.{read_u32, read_u64, tag_type, tag_size, tag_type_mmap, first_tag, find_tag}
use titan_os.Multiboot.Tags.{Tag, Layout, place, find_tag-found}
use titan_os.Vmm.Spaces.{Run}
use titan_os.MemoryMap.{Entry, Lists, append, add_entries}
use titan_os.MemoryMap.Laws.{available_of, reserved_of, add_entries-of}

-- The fields of an entry in memory.
unfoldable pub entry_at : (ℕ → ℕ) → ℕ → Entry
entry_at bytes e = record {
  addr = read_u64 bytes e;
  len = read_u64 bytes (e + 8);
  kind = read_u32 bytes (e + 16);
}

-- The loop of `mb2_mmap_init` from the entry at `e` on; `none` also stands for a loop that has not
-- ended with its fuel.
pub entries_loop : ℕ → (ℕ → ℕ) → ℕ → ℕ → ℕ → Lists → Option Lists
entries_loop zero bytes e end entry_size l = none
entries_loop (suc fuel) bytes e end entry_size l =
    let next = λ (l' : Lists). entries_loop fuel bytes (u64 (e + entry_size)) end entry_size l' in
    if ltb e end then (add_entries (entry_at bytes e ∷ []) l >>= next) else some l

pub mb2_mmap_init : ℕ → ℕ → (ℕ → ℕ) → ℕ → Lists → Run Lists
mb2_mmap_init walk fuel bytes mb_info l =
    elim (find_tag walk bytes tag_type_mmap (first_tag mb_info)) [
      | none ↦ Run.undefined
      | some tag ↦
          let size = tag_size bytes tag in
          let entry_size = read_u32 bytes (tag + 8) in
          if tag_type bytes tag == tag_type_mmap
          then (elim (entries_loop fuel bytes (tag + 16) (u64 (tag + size)) entry_size l) [
            | none ↦ Run.undefined
            | some l' ↦ Run.done l'
          ])
          else Run.panicked
    ]

-- The entries of a tag.
abbrev pub entries_at : ℕ → (ℕ → ℕ) → ℕ → ℕ → List Entry
entries_at zero bytes e step = []
entries_at (suc n) bytes e step = entry_at bytes e ∷ entries_at n bytes (e + step) step

add_entries-cons :
    (e : Entry) (es : List Entry) (l : Lists)
    → (add_entries (e ∷ []) l >>= λ l'. add_entries es l') ≡ add_entries (e ∷ es) l
unfolding add_entries
add_entries-cons e es l = elim (Bool-cases (e.kind == 1)) [
  | inl is ↦ elim (Option-cases (append l.available e)) [
    | inl no_room ↦ rw (is, no_room)
    | inr (new, room) ↦ rw (is, room)
  ]
  | inr other ↦ elim (Option-cases (append l.reserved e)) [
    | inl no_room ↦ rw (other, no_room)
    | inr (new, room) ↦ rw (other, room)
  ]
]

add_entries-nil : (l : Lists) → add_entries [] l ≡ some l
unfolding add_entries
add_entries-nil l = refl

entries_loop-add :
    (fuel n : ℕ) (bytes : ℕ → ℕ) (e end step : ℕ) (l : Lists)
    → n < fuel
    → 0 < step
    → e + n * step ≡ end
    → end < 2 ^ 64
    → entries_loop fuel bytes e end step l ≡ add_entries (entries_at n bytes e step) l
unfolding entries_loop
entries_loop-add zero n bytes e end step l lt pos last small = absurd (omega arith)
entries_loop-add (suc fuel) zero bytes e end step l lt pos last small =
    rw (ltb-false e end (omega arith)) (sym (add_entries-nil l))
entries_loop-add (suc fuel) (suc n) bytes e end step l lt pos last small =
    let next : u64 (e + step) ≡ e + step = omega arith in
    rw (ltb-true e end (omega arith), next)
      (ap (λ k. add_entries (entry_at bytes e ∷ []) l >>= k)
          (fun_ext (λ l'.
            entries_loop-add fuel n bytes (e + step) end step l' (omega arith) pos (omega arith)
              small))
        ∙ add_entries-cons (entry_at bytes e) (entries_at n bytes (e + step) step) l)

-- When the boot loader's tags have one of the memory map, with `n` whole entries of a size that is not
-- 0, and both lists have room, `mb2_mmap_init` is defined with fuel above the numbers of tags and of
-- entries, and puts the entries of available memory behind the one list and the others behind the
-- other, in order.
pub mb2_mmap_init-of :
    (walk fuel n : ℕ) (bytes : ℕ → ℕ) (mb_info tag step : ℕ) (ts : List Tag) (l : Lists)
    → length ts < walk
    → Layout bytes (first_tag mb_info) ts
    → place tag_type_mmap (first_tag mb_info) ts (λ end. 0) ≡ tag
    → tag ≢ 0
    → n < fuel
    → read_u32 bytes (tag + 8) ≡ step
    → 0 < step
    → tag_size bytes tag ≡ 16 + n * step
    → tag + 16 + n * step < 2 ^ 64
    → length l.available + length (available_of (entries_at n bytes (tag + 16) step)) ≤ 20
    → length l.reserved + length (reserved_of (entries_at n bytes (tag + 16) step)) ≤ 20
    → mb2_mmap_init walk fuel bytes mb_info l
      ≡ Run.done (record {
        available = l.available ++ available_of (entries_at n bytes (tag + 16) step);
        reserved = l.reserved ++ reserved_of (entries_at n bytes (tag + 16) step);
      })
unfolding mb2_mmap_init
mb2_mmap_init-of walk fuel n bytes mb_info tag step ts l lt la e there enough is pos size small room
      room' =
    let (found, type) =
      find_tag-found walk bytes tag_type_mmap (first_tag mb_info) tag ts lt la e there in
    let end : u64 (tag + (16 + n * step)) ≡ tag + 16 + n * step = omega arith in
    rw (
      mb2_mmap_init,
      found,
      type,
      is,
      size,
      end,
      entries_loop-add fuel n bytes (tag + 16) (tag + 16 + n * step) step l enough pos refl small,
      add_entries-of (entries_at n bytes (tag + 16) step) l room room',
    )
