-- ===== src/OtaAgent/FileSystem.antt =====
-- The files that the OTA agent touches, and std::filesystem::copy_file. The operating system's
-- answers are arguments.
use sdv_edge_gateway.Common.{
  ℕ, String, str_eq, Bool, true, false, Option, none, some, List, if◌then◌else◌,
}

-- The content of the file at each path.
abbrev pub Files : Type 0
Files = String → Option (List ℕ)

abbrev pub put : Files → String → Option (List ℕ) → Files
put files path content p = if str_eq path p then content else files p

-- How a copy ends: whole, or by a filesystem_error that leaves something at the destination.
pub data Copied : Type 0 where
  whole : Copied
  broken : (left : Option (List ℕ)) → Copied
  untouched : Copied

-- copy_file with overwrite_existing; `false` is a thrown filesystem_error. A copy of a file that is
-- not there fails and changes nothing.
unfoldable pub copy_file : Copied → Files → (src dst : String) → Files × Bool
copy_file answer files src dst = elim (files src) [
  | none ↦ (files, false)
  | some content ↦ elim answer [
    | whole ↦ (put files dst (some content), true)
    | broken left ↦ (put files dst left, false)
    | untouched ↦ (files, false)
  ]
]
