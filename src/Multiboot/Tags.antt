-- ===== src/Multiboot/Tags.antt =====
-- The walk through the tags.
use titan_os.Base.{
  ℕ, zero, suc, ◌+◌, ◌<◌, ◌≡◌, ◌≢◌, ◌%◌, ◌^◌, refl, ap, sym, ◌∙◌, none, some, List, [], ◌∷◌, ◌==◌,
  ==_self, ==_ne, if◌then◌else◌, length, arith,
}
use mathlib.Core.Path.{subst}
use native.Mathlib.Decide.{ℕ_discrete}
use titan_os.Multiboot.{tag_type, tag_size, next_tag, find_tag, get_mb2_tag, first_tag}

-- The type and the size of a tag.
pub record Tag : Type 0 where
  pub type : ℕ
  pub size : ℕ

-- From an address on there are these tags, and behind them the one of the end.
abbrev pub Layout : (ℕ → ℕ) → ℕ → List Tag → Type 0
Layout bytes a [] = tag_type bytes a ≡ 0
Layout bytes a (t ∷ ts) =
    (tag_type bytes a ≡ t.type)
    × (t.type ≢ 0)
    × (tag_size bytes a ≡ t.size)
    × Layout bytes (next_tag a t.size) ts

-- The address of the first tag of a type, and `end` at the end.
abbrev pub place : ℕ → ℕ → List Tag → (ℕ → ℕ) → ℕ
place type a [] end = end a
place type a (t ∷ ts) end = if t.type == type then a else place type (next_tag a t.size) ts end

pub find_tag-place :
    (fuel : ℕ) (bytes : ℕ → ℕ) (type a : ℕ) (ts : List Tag)
    → length ts < fuel
    → Layout bytes a ts
    → find_tag fuel bytes type a ≡ some (place type a ts (λ end. end))
unfolding find_tag
find_tag-place zero bytes type a ts lt l = absurd (omega arith)
find_tag-place (suc fuel) bytes type a [] lt l = rw l
find_tag-place (suc fuel) bytes type a (t ∷ ts) lt (is, ne, size, l) =
    elim (ℕ_discrete t.type type) [
      | yes same ↦ rw (is, ==_ne t.type 0 ne, same, ==_self type)
      | no other ↦
          rw (is, ==_ne t.type 0 ne, ==_ne t.type type other, size)
            (find_tag-place fuel bytes type (next_tag a t.size) ts (omega arith) l)
    ]

-- What the tag at the end of the walk tells.
place-is :
    (bytes : ℕ → ℕ) (type a : ℕ) (ts : List Tag)
    → type ≢ 0
    → Layout bytes a ts
    → (if tag_type bytes (place type a ts (λ end. end)) == type
        then place type a ts (λ end. end)
        else 0)
      ≡ place type a ts (λ end. 0)
place-is bytes type a [] ne l = rw (l, ==_ne 0 type (λ e. ne (omega (arith, e))))
place-is bytes type a (t ∷ ts) ne (is, ne', size, l) = elim (ℕ_discrete t.type type) [
  | yes same ↦ rw (same, ==_self type, is, same, ==_self type)
  | no other ↦ rw (==_ne t.type type other) (place-is bytes type (next_tag a t.size) ts ne l)
]

-- The walk finds the first tag of a type, when there is one.
pub find_tag-found :
    (fuel : ℕ) (bytes : ℕ → ℕ) (type a tag : ℕ) (ts : List Tag)
    → length ts < fuel
    → Layout bytes a ts
    → place type a ts (λ end. 0) ≡ tag
    → tag ≢ 0
    → (find_tag fuel bytes type a ≡ some tag) × (tag_type bytes tag ≡ type)
find_tag-found fuel bytes type a tag ts lt l e there =
    let (same, is) = there_is a ts l e in
    (find_tag-place fuel bytes type a ts lt l ∙ ap some same, is)
  where
    there_is :
        (a : ℕ) (ts : List Tag)
        → Layout bytes a ts
        → place type a ts (λ end. 0) ≡ tag
        → (place type a ts (λ end. end) ≡ tag) × (tag_type bytes tag ≡ type)
    there_is a [] l e = absurd (there (sym e))
    there_is a (t ∷ ts) (is, ne, size, l) e = elim (ℕ_discrete t.type type) [
      | yes same ↦
          let at : a ≡ tag = sym (rw (same, ==_self type)) ∙ e in
          (rw (same, ==_self type) at, subst (λ x. tag_type bytes x ≡ type) at (is ∙ same))
      | no other ↦
          let (p, q) = there_is (next_tag a t.size) ts l (sym (rw (==_ne t.type type other)) ∙ e) in
          (rw (==_ne t.type type other) p, q)
    ]

-- `get_mb2_tag` of a type other than 0 ends on fuel above the number of tags, and returns the address
-- of the first tag of the type, or NULL when there is none.
pub get_mb2_tag-place :
    (fuel : ℕ) (bytes : ℕ → ℕ) (mb2_info type : ℕ) (ts : List Tag)
    → type ≢ 0
    → length ts < fuel
    → Layout bytes (first_tag mb2_info) ts
    → get_mb2_tag fuel bytes mb2_info type ≡ some (place type (first_tag mb2_info) ts (λ end. 0))
unfolding get_mb2_tag
get_mb2_tag-place fuel bytes mb2_info type ts ne lt l =
    rw (find_tag-place fuel bytes type (first_tag mb2_info) ts lt l)
      (ap some (place-is bytes type (first_tag mb2_info) ts ne l))

-- A walk that comes to a tag of size 0 at an aligned address, of another type than the one that is
-- looked for and the one of the end, never ends.
pub find_tag-never :
    (fuel : ℕ) (bytes : ℕ → ℕ) (type a : ℕ)
    → a % 8 ≡ 0
    → a + 7 < 2 ^ 64
    → tag_size bytes a ≡ 0
    → tag_type bytes a ≢ 0
    → tag_type bytes a ≢ type
    → find_tag fuel bytes type a ≡ none
unfolding find_tag next_tag
find_tag-never zero bytes type a aligned small size ne other = refl
find_tag-never (suc fuel) bytes type a aligned small size ne other =
    let again : next_tag a 0 ≡ a = omega arith in
    rw (==_ne (tag_type bytes a) 0 ne, ==_ne (tag_type bytes a) type other, size)
      (subst (λ x. find_tag fuel bytes type x ≡ none) (sym again)
        (find_tag-never fuel bytes type a aligned small size ne other))
