-- ===== src/Pmm/State.antt =====
-- The invariant of the bit map, and what one marked or cleared digit changes in it.
use titan_os.Base.{
  ℕ, ◌/◌, ◌≤◌, ◌<◌, bit_and, bit_or, bit_xor, ◌≡◌, refl, ◌∙◌, sym, ◌≢◌, Option, some, if◌then◌else◌,
  arith, length, get_elem?, set, length-set, get_elem?-set_self, get_elem?-set_ne, lt_of_get_elem?,
}
use titan_os.Base.Bits.{bit}
use mathlib.Core.Path.{subst}
use native.Mathlib.Decide.{ℕ_discrete}
use titan_os.Pmm.{Map, mark, mask_of, all_taken}
use titan_os.Pmm.Words.{IsWord, covers, mark-IsWord, bit-mark, clear-IsWord, bit-clear}

-- The array holds every word that the allocator scans, and each is a word of `Words`.
pub record IsValid (m : Map) : Type 0 where
  pub covered : m.num_pages / 64 ≤ length m.bitmap
  pub words : (i w : ℕ) → get_elem? m.bitmap i ≡ some w → IsWord w

-- `m'` is `m` with the digits of word `i` that the mask for `j` covers set to `d`.
pub record Updated (m : Map) (i j d : ℕ) (m' : Map) : Type 0 where
  pub same_pages : m'.num_pages ≡ m.num_pages
  pub same_length : length m'.bitmap ≡ length m.bitmap
  pub others : (y : ℕ) → i ≢ y → get_elem? m'.bitmap y ≡ get_elem? m.bitmap y
  pub old : ℕ
  pub new : ℕ
  pub was : get_elem? m.bitmap i ≡ some old
  pub now : get_elem? m'.bitmap i ≡ some new
  pub digits : (k : ℕ) → k < 64 → bit new k ≡ (if covers j k then d else bit old k)

module _ {m : Map} (v : IsValid m) (i : ℕ) {w : ℕ} (e : get_elem? m.bitmap i ≡ some w) where
  abbrev stored : ℕ → Map
  stored w' = record m { bitmap = set m.bitmap i w' }

  stored-IsValid : (w' : ℕ) → IsWord w' → IsValid (stored w')
  stored-IsValid w' ok = record {
    covered = omega (arith, v.covered, length-set m.bitmap i w');
    words = λ y u h. elim (ℕ_discrete i y) [
      | yes p ↦
          subst IsWord (cc (get_elem?-set_self m.bitmap i w' (lt_of_get_elem? m.bitmap i e))) ok
      | no p ↦ v.words y u (sym (get_elem?-set_ne m.bitmap i y w' p) ∙ h)
    ];
  }

  stored-Updated :
      (w' j d : ℕ)
      → ((k : ℕ) → k < 64 → bit w' k ≡ (if covers j k then d else bit w k))
      → Updated m i j d (stored w')
  stored-Updated w' j d h = record {
    same_pages = refl;
    same_length = length-set m.bitmap i w';
    others = λ y ne. get_elem?-set_ne m.bitmap i y w' ne;
    old = w;
    new = w';
    was = e;
    now = get_elem?-set_self m.bitmap i w' (lt_of_get_elem? m.bitmap i e);
    digits = h;
  }

  -- What an operation leaves: a valid map, updated at one digit.
  abbrev pub Leaves : ℕ → ℕ → Option Map → Type 0
  Leaves j d r = (m' : Map) × (r ≡ some m') × IsValid m' × Updated m i j d m'

  module _ (j : ℕ) {mask : ℕ} (f : mask_of j ≡ some mask) where
    pub mark-Updated : Leaves j 1 (mark m i j)
    unfolding mark
    mark-Updated = (
      stored (bit_or w mask),
      rw (e, f),
      stored-IsValid _ (mark-IsWord (v.words i w e) j f),
      stored-Updated _ j 1 (bit-mark (v.words i w e) j f),
    )

    pub clear-Updated : Leaves j 0 (some (stored (bit_and w (bit_xor all_taken mask))))
    clear-Updated = (
      stored (bit_and w (bit_xor all_taken mask)),
      refl,
      stored-IsValid _ (clear-IsWord (v.words i w e) j f),
      stored-Updated _ j 0 (bit-clear (v.words i w e) j f),
    )
