-- ===== src/Vmm/Processes/Release.antt =====
-- What is left of the space of a process that is reaped.
use titan_os.Base.{ℕ, ◌<◌, ◌≡◌, ◌≢◌, refl, some, List, [], ◌∷◌, ◌++◌, ==_ne, ==_self, arith}
use titan_os.Vmm.Regions.{Region, Backing, vmm_free, unlink}
use titan_os.Vmm.Spaces.{Space, kernel_text_start}
use titan_os.Vmm.Processes.{
  AddressSpace, kernel_part, SpaceOps, free_regions, release_space, switch_vm_space,
}

-- No region starts there.
abbrev pub StartsApart : ℕ → List Region → Type 0
StartsApart base [] = Unit
StartsApart base (r ∷ rs) = (base ≢ r.base) × StartsApart base rs

-- Freed in order, the regions behind the head leave the list.
free_regions-head :
    (head : Region) (own rest : List Region)
    → StartsApart head.base own
    → free_regions own (head ∷ (own ++ rest)) ≡ some (head ∷ rest)
unfolding free_regions vmm_free unlink
free_regions-head head [] rest apart = refl
free_regions-head head (r ∷ own) rest (ne, apart) =
    rw (==_ne head.base r.base ne, ==_self r.base) (free_regions-head head own rest apart)

-- A space with a head, regions that start at other addresses than the head, and the kernel's regions
-- `k ∷ ks` is in use; the table of the idle process can be loaded, and that of the process removed after
-- that. The end of `reap_process` then frees each of its regions and is defined, and the space of the
-- idle process is in use, with its own regions and the kernel's as they were; the pages are as the two
-- calls leave them, and nothing else changes.
pub release_space-idle :
    {M : Type 0} (backing : Backing M) (space_ops : SpaceOps M) (pml4t : ℕ) (head : Region)
    (own : List Region) (k : Region) (ks : List Region) (idle : AddressSpace) (s : Space M)
    (m1 m2 : M)
    → space_ops.load_pml4t idle.pml4t s.pages ≡ some m1
    → space_ops.remove_pml4t pml4t m1 ≡ some m2
    → s.regions ≡ head ∷ (own ++ (k ∷ ks))
    → StartsApart head.base own
    → head.base < kernel_text_start
    → k.base ≡ kernel_text_start
    → (free_regions (head ∷ own) s.regions ≡ some (head ∷ k ∷ ks))
      × (release_space backing space_ops (record { own = head ∷ own; pml4t = pml4t }) idle s
          ≡ some (record s { regions = idle.own ++ (k ∷ ks); pages = m2 }))
unfolding free_regions release_space switch_vm_space kernel_part vmm_free
release_space-idle backing space_ops pml4t head own k ks idle s m1 m2 load gone regions apart low
      first =
    let freed : free_regions (head ∷ own) s.regions ≡ some (head ∷ k ∷ ks) =
      rw (regions, ==_self head.base) (free_regions-head head own (k ∷ ks) apart) in
    let kernel : kernel_part (head ∷ k ∷ ks) ≡ k ∷ ks =
      rw (==_ne head.base kernel_text_start (λ e. absurd (omega arith)), first) in
    (freed, rw (release_space, freed, kernel, load, gone))
