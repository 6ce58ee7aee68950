-- ===== src/Tar.antt =====
-- The archive of the initial files, src/kernel/fs/tar.c.
pub mod Laws
pub mod Init
mod Tests
use titan_os.Base.{
  ℕ, zero, suc, ◌+◌, ◌-◌, ◌*◌, ◌/◌, ◌%◌, ◌^◌, Bool, true, false, Option, none, some, List, [], ◌∷◌,
  ◌==◌, ltb, get_elem?, set, if◌then◌else◌, u64, ◌>>=◌,
}
use titan_os.Strings.{strncmp}

-- `tar_header_t`, the fields that are read.
pub record Header : Type 0 where
  pub filename : List ℕ
  pub size : List ℕ

abbrev pub header_list_size : ℕ
header_list_size = 5

-- A signed char as a number of 64 bits.
abbrev pub sign_extend : ℕ → ℕ
sign_extend c = if ltb c 128 then c else c + (2 ^ 64 - 2 ^ 8)

-- The loop of `get_file_size` at `j`.
unfoldable pub size_loop : ℕ → ℕ → ℕ → List ℕ → Option ℕ
size_loop zero count size text = some size
size_loop (suc j) count size text = do
  c ← get_elem? text j
  let digit = u64 (sign_extend c + (2 ^ 64 - 48))
  size_loop j (u64 (count * 8)) (u64 (size + u64 (digit * count))) text

unfoldable pub get_file_size : List ℕ → Option ℕ
get_file_size text = size_loop 11 1 0 text

-- The address of the header behind the one at `header_addr`.
unfoldable pub next_header : ℕ → ℕ → ℕ
next_header header_addr file_size =
    u64 (header_addr + (file_size / 512 + 1) * 512 + (if file_size % 512 == 0 then 0 else 512))

-- `parse_tar_file` from the header at `addr` on, where `i` headers are already found. The memory gives
-- the headers by address. The array holds 5 pointers, and a write behind it is undefined.
pub parse_loop : ℕ → (ℕ → Option Header) → ℕ → ℕ → List ℕ → Option (List ℕ)
parse_loop zero memory addr i file_headers = none
parse_loop (suc fuel) memory addr i file_headers =
    let rest = λ (next : ℕ) (hs : List ℕ). parse_loop fuel memory next (i + 1) hs in
    do
      h ← memory addr
      first ← get_elem? h.filename 0
      if first == 0 then some file_headers else (do
        file_size ← get_file_size h.size
        old ← get_elem? file_headers i
        rest (next_header addr file_size) (set file_headers i addr))

-- `get_file_header` from the index `i` on. A pointer that is NULL has no header.
unfoldable pub find_loop : ℕ → (ℕ → Option Header) → ℕ → List ℕ → List ℕ → Option (Option ℕ)
find_loop zero memory i file_headers file_name = some none
find_loop (suc left) memory i file_headers file_name =
    let rest = find_loop left memory (i + 1) file_headers file_name in
    do
      p ← get_elem? file_headers i
      h ← (if p == 0 then none else memory p)
      same ← strncmp h.filename file_name 100
      if same then some (some i) else rest

unfoldable pub get_file_header : (ℕ → Option Header) → List ℕ → List ℕ → Option (Option ℕ)
get_file_header memory file_headers file_name =
    find_loop header_list_size memory 0 file_headers file_name

-- The size and the contents' address of the descriptor that `ustar_open` returns. Without a file of
-- the name it reads in front of the array, which is undefined.
unfoldable pub ustar_open : (ℕ → Option Header) → List ℕ → List ℕ → Option (ℕ × ℕ)
ustar_open memory file_headers file_name = do
  found ← get_file_header memory file_headers file_name
  handle ← found
  p ← get_elem? file_headers handle
  h ← memory p
  file_size ← get_file_size h.size
  some (file_size, u64 (p + 512))
