-- ===== src/Resources/Tests.antt =====
-- The table of a process with one resource.
use titan_os.Base.{ℕ, ◌≡◌, refl, Option, none, some, List, [], ◌∷◌}
use titan_os.Resources.{
  Resource, ResourceType, register_loop, register_resource, register_file_resource,
}

abbrev resource : ℕ → Resource
resource opened = record {
  kind = ResourceType.file;
  internal_handle = opened;
  read = 0x4000;
  write = 0;
  open_with = 0;
  close_with = 0;
}

abbrev table : List (Option Resource)
table = some (resource 0) ∷ none ∷ none ∷ none ∷ none ∷ []

abbrev registered : List (Option Resource)
registered = some (resource 0) ∷ some (resource 3) ∷ none ∷ none ∷ none ∷ []

registers : register_file_resource 3 0x4000 table ≡ some (some 1, registered)
unfolding register_file_resource register_resource register_loop
registers = refl
