-- ===== src/Ociimage/Disk.antt =====
-- What calls of the system do to the files below a directory.
use hacker_os_builder.Prelude.{
  Bool, true, false, ◌&&◌, ◌||◌, Option, none, some, [], ◌∷◌, ◌++◌, if◌then◌else◌, Bytes, equal,
  equal_refl, ◌≡◌, refl, ◌∙◌,
}
use hacker_os_builder.Text.Search.{has_prefix}
use hacker_os_builder.System.{
  remove, remove_all, create_file, write_text, symlink, link, EntryType, type_reg, type_symlink,
  Call, act, Answer,
}

-- What stands at a path, where that is no directory: a file with its content, or a symbolic link.
pub data Node : Type 0 where
  file_node link_node : Bytes → Node

abbrev pub Files : Type 0
Files = Bytes → Option Node

abbrev pub updated : Bytes → Option Node → Files → Files
updated path found t q = if equal path q then found else t q

-- A file is created empty; at a symbolic link the link stays.
abbrev pub created : Option Node → Option Node
created (some (link_node target)) = some (link_node target)
created (some (file_node text)) = some (file_node [])
created none = some (file_node [])

abbrev pub appended : Bytes → Option Node → Option Node
appended text (some (file_node before)) = some (file_node (before ++ text))
appended text (some (link_node target)) = some (link_node target)
appended text none = none

abbrev pub is_at_or_under : Bytes → Bytes → Bool
is_at_or_under path q = equal path q || has_prefix q (path ++ b'/' ∷ [])

-- What calls do to the files, where no directory above them is a symbolic link.
abbrev pub on_disk : Files → (c : Call) → Answer c → Files
on_disk t (act (create_file path mode)) ok = if ok then updated path (created (t path)) t else t
on_disk t (act (write_text path text)) ok =
    if ok then updated path (appended text (t path)) t else t
on_disk t (act (remove path)) ok = if ok then updated path none t else t
on_disk t (act (remove_all path)) ok = λ q. if ok && is_at_or_under path q then none else t q
on_disk t (act (symlink target path)) ok =
    if ok then updated path (some (link_node target)) t else t
on_disk t (act (link old path)) ok = if ok then updated path (t old) t else t
on_disk t _ answer = t

-- What an entry of a type, with its link and its content, leaves at its path.
abbrev pub Leaves : EntryType → Bytes → Bytes → Option Node → Type 0
Leaves type_reg linkname content found = found ≡ some (file_node content)
Leaves type_symlink linkname content found = found ≡ some (link_node linkname)
Leaves _ linkname content found = Unit

-- The second state differs from the first at most at the path.
abbrev pub Only : Bytes → Files → Files → Type 0
Only path t t' = (q : Bytes) → equal path q ≡ false → t' q ≡ t q

pub put_here : (path : Bytes) (found : Option Node) (t : Files) → updated path found t path ≡ found
put_here path found t = rw (equal_refl path) refl

pub put_there :
    (path : Bytes) (found : Option Node) (t : Files) → Only path t (updated path found t)
put_there path found t q h = rw h refl

pub put_again :
    (path : Bytes) (found : Option Node) (t t' : Files)
    → Only path t t'
    → Only path t (updated path found t')
put_again path found t t' h q other = put_there path found t' q other ∙ h q other

pub file_written :
    (path content : Bytes) (t : Files)
    → t path ≡ none
    → let t' = updated path (created (t path)) t in
      updated path (appended content (t' path)) t' path ≡ some (file_node content)
file_written path content t h = rw (equal_refl path, h) refl

pub removed_there :
    (path : Bytes) (t : Files) (ok : Bool) → Only path t (on_disk t (act (remove path)) ok)
removed_there path t true = put_there path none t
removed_there path t false = λ q h. refl
