-- ===== src/Pmm/Free.antt =====
-- `pmm_free_page` on the addresses that `pmm_alloc_page` returns.
use titan_os.Base.{
  ℕ, ◌+◌, ◌*◌, ◌/◌, ◌%◌, ◌^◌, ◌≤◌, ◌<◌, ◌≡◌, ap, false, some, arith, get_elem?, get_elem?-set_ne,
  ◌⊎◌, inl, inr, Option-cases, none, lt_of_get_elem?, set, bit_and, bit_xor, >>=-eq-some,
}
use titan_os.Pmm.{Map, Coords, free_page, paddr_to_bitmap, mask_of, all_taken}
use titan_os.Pmm.State.{IsValid}
use titan_os.Pmm.Alloc.{Takes}
use titan_os.Pmm.Specific.{Sets, free_page-check}
use titan_os.Pmm.Address.{paddr_to_bitmap-bitmap_to_paddr}

-- `pmm_free_page` writes at most one word.
free_page-set :
    (m m'' : Map) (paddr : ℕ)
    → free_page paddr m ≡ some m''
    → (w : ℕ) × (m'' ≡ record m { bitmap = set m.bitmap (paddr_to_bitmap paddr).y w })
unfolding free_page
free_page-set m m'' paddr h =
    let (w, _, h') = >>=-eq-some (get_elem? m.bitmap (paddr_to_bitmap paddr).y) _ h in
    let (mask, _, h'') = >>=-eq-some (mask_of (paddr_to_bitmap paddr).x) _ h' in
    (bit_and w (bit_xor all_taken mask), cc h'')

module _ {m : Map} {paddr : ℕ} {m' : Map} (t : Takes m paddr m') where
  read_back : t.i < 2 ^ 15 → paddr_to_bitmap paddr ≡ record { y = t.i / 2; x = t.i % 2 * 32 + t.j }
  read_back lt =
      rw t.address (paddr_to_bitmap-bitmap_to_paddr t.j t.i (omega (arith, t.first.low)) lt)

  -- A page from the first word is free again after `pmm_free_page`.
  pub free_page-alloc_page :
      IsValid m' → t.i ≡ 0 → (m'' : Map) × (free_page paddr m' ≡ some m'') × Sets m' paddr false m''
  free_page-alloc_page v e = free_page-check v (record {
    low = omega (arith, t.first.low, ap (λ (c : Coords). c.x) (read_back (omega arith)));
    in_range = omega (
      arith,
      ap (λ (c : Coords). c.y) (read_back (omega arith)),
      lt_of_get_elem? m'.bitmap t.i t.taken.now,
    );
  })

  -- A page from any later word below 2 ^ 15 is not freed: `pmm_free_page` is undefined, or it leaves
  -- the word with the page's digit as it was.
  pub free_page_misses :
      1 ≤ t.i
      → t.i < 2 ^ 15
      → (free_page paddr m' ≡ none)
        ⊎ ((m'' : Map) × (free_page paddr m' ≡ some m'')
            × (get_elem? m''.bitmap t.i ≡ get_elem? m'.bitmap t.i))
  free_page_misses pos lt = elim (Option-cases (free_page paddr m')) [
    | inl e ↦ inl e
    | inr (m'', h) ↦
        let (w, e) = free_page-set m' m'' paddr h in
        let y : (paddr_to_bitmap paddr).y ≡ t.i / 2 = ap (λ (c : Coords). c.y) (read_back lt) in
        inr
          (m'', h, rw (e, get_elem?-set_ne m'.bitmap (paddr_to_bitmap paddr).y t.i w (omega arith)))
  ]
