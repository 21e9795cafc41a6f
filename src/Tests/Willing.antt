-- ===== src/Tests/Willing.antt =====
-- A system on which every call succeeds.
use hacker_os_builder.Prelude.{Bool, true, false, some, none, [], ◌∷◌, codes}
use hacker_os_builder.System.{
  type_reg, TarEntry, Archive, Answer, Call, act, fetch, get_env, glob, read_dir, read_file,
  read_link, read_layers, walk, no_dir, Ended, done, failed,
}

abbrev pub file_entry : TarEntry
file_entry = record { name = codes "etc/x"; entry_type = type_reg; mode = 0o4755; linkname = [] }

abbrev pub archive : Archive
archive = record { entries = (file_entry, codes "text") ∷ []; complete = true }

-- A system that does what it is asked to, and finds nothing.
abbrev pub willing : (c : Call) → Answer c
willing (act a) = true
willing (read_dir dir) = no_dir
willing (read_file path) = some []
willing (read_link path) = some []
willing (glob dir pattern) = some (pattern ∷ [])
willing (get_env name) = codes "/bin"
willing (walk root) = []
willing (fetch url) = none
willing (read_layers reference) = some (some archive ∷ [])

abbrev pub is_done : {V : Type 0} → Ended V → Bool
is_done (done v) = true
is_done (failed e) = false
