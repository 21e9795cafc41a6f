-- ===== src/Sandbox/Quoting.antt =====
-- The script of the sandbox, read as a shell reads it.
use hacker_os_builder.Prelude.{
  ℕ, Option, none, some, List, [], ◌∷◌, ◌++◌, if◌then◌else◌, ◌==◌, Bytes, codes, ◌≡◌, refl, ap,
  arith, append_assoc, ◌∙◌, Bool-cases, inl, inr,
}
use hacker_os_builder.Text.Search.{has_byte}
use hacker_os_builder.Sandbox.{
  escape_quotes, quot, quoted_args, script_start, mount_lines, build_mount_and_chroot_script,
}

-- The bytes that end a word or mean something to the shell outside quotes.
abbrev special : Bytes
special = codes "\"$`;&|<>()*?[]#~=%!{} \t\n"

-- A line that is read: its words, and the text behind it.
abbrev Line : Type 0
Line = List Bytes × Bytes

-- A byte of the first word, and the end of an earlier word.
abbrev in_front : ℕ → Option Line → Option Line
in_front c none = none
in_front c (some ([], rest)) = some ((c ∷ []) ∷ [], rest)
in_front c (some (word ∷ words, rest)) = some ((c ∷ word) ∷ words, rest)

abbrev end_word : Option Line → Option Line
end_word none = none
end_word (some (words, rest)) = some ([] ∷ words, rest)

data Mode : Type 0 where
  between plain quoted escaped : Mode

-- A line of the POSIX shell, where its words are spelled with single quotes and backslashes only:
-- between quotes every byte stands for itself. `none` where another spelling is used, a quote is
-- left open or the line does not end.
unfoldable read_line : Mode → Bytes → Option Line
unfolding has_byte
read_line mode [] = none
read_line quoted (c ∷ s) =
    let closed = read_line plain s in
    let more = read_line quoted s in if c == b'\'' then closed else in_front c more
read_line escaped (c ∷ s) = let more = read_line plain s in in_front c more
read_line between (c ∷ s) =
    let later = read_line between s in
    let opened = read_line quoted s in
    let literal = read_line escaped s in
    let more = read_line plain s in
    if c == b' '
    then later
    else if c == b'\n'
    then some ([], s)
    else if c == b'\''
    then opened
    else if c == b'\\'
    then literal
    else if has_byte c special
    then none
    else in_front c more
read_line plain (c ∷ s) =
    let later = read_line between s in
    let opened = read_line quoted s in
    let literal = read_line escaped s in
    let more = read_line plain s in
    if c == b' '
    then end_word later
    else if c == b'\n'
    then some ([] ∷ [], s)
    else if c == b'\''
    then opened
    else if c == b'\\'
    then literal
    else if has_byte c special
    then none
    else in_front c more

-- What a quoted text adds to the line that is read behind it.
abbrev onto_word : Bytes → Option Line → Option Line
onto_word [] line = line
onto_word (c ∷ s) line = in_front c (onto_word s line)

read_line-escape_quotes :
    (s rest : Bytes)
    → read_line quoted (escape_quotes s ++ b'\'' ∷ rest) ≡ onto_word s (read_line plain rest)
unfolding read_line escape_quotes
read_line-escape_quotes [] rest = refl
read_line-escape_quotes (c ∷ s) rest = elim (Bool-cases (c == b'\'')) [
  | inl quote ↦ rw quote (rw (read_line-escape_quotes s rest) (ground arith))
  | inr other ↦ rw other (rw other (rw (read_line-escape_quotes s rest) refl))
]

read_line-quot :
    (s rest : Bytes) → read_line between (quot s ++ rest) ≡ onto_word s (read_line plain rest)
unfolding quot read_line
read_line-quot s rest =
    rw (append_assoc (escape_quotes s) (b'\'' ∷ []) rest) (read_line-escape_quotes s rest)

onto_word-end_word :
    (s rest : Bytes) (words : List Bytes)
    → onto_word s (some ([] ∷ words, rest)) ≡ some (s ∷ words, rest)
onto_word-end_word [] rest words = refl
onto_word-end_word (c ∷ s) rest words = rw (onto_word-end_word s rest words) refl

-- A quoted word at the end of its line, and one before another.
read_line-quot_end :
    (s rest : Bytes) → read_line between (quot s ++ b'\n' ∷ rest) ≡ some (s ∷ [], rest)
unfolding read_line
read_line-quot_end s rest = read_line-quot s (b'\n' ∷ rest) ∙ onto_word-end_word s rest []

read_line-quot_cons :
    (s rest behind : Bytes) (words : List Bytes)
    → read_line between rest ≡ some (words, behind)
    → read_line between (quot s ++ b' ' ∷ rest) ≡ some (s ∷ words, behind)
unfolding read_line
read_line-quot_cons s rest behind words h =
    read_line-quot s (b' ' ∷ rest) ∙ rw h (onto_word-end_word s behind words)

read_line-quoted_args :
    (args : List Bytes) (rest : Bytes)
    → read_line between (quoted_args args ++ b'\n' ∷ rest) ≡ some (args, rest)
unfolding quoted_args
read_line-quoted_args [] rest = unfold read_line in refl
read_line-quoted_args (a ∷ []) rest = read_line-quot_end a rest
read_line-quoted_args (a ∷ b ∷ args) rest =
    rw (append_assoc (quot a) (b' ' ∷ quoted_args (b ∷ args)) (b'\n' ∷ rest))
      (read_line-quot_cons a _ rest (b ∷ args) (read_line-quoted_args (b ∷ args) rest))

-- The text behind a prefix.
unfoldable strip : Bytes → Bytes → Option Bytes
strip [] s = some s
strip (p ∷ ps) [] = none
strip (p ∷ ps) (c ∷ s) = let rest = strip ps s in if p == c then rest else none

strip-append : (p s : Bytes) → strip p (p ++ s) ≡ some s
unfolding strip
strip-append [] s = refl
strip-append (c ∷ p) s = ground (arith, strip-append p s)

-- What a shell reads of a script: the value of ROOTFS and the words behind `exec chroot "$ROOTFS"`,
-- where the script has the constant parts in their places and nothing behind its last line.
abbrev last_line : Bytes → Option Line → Option (Bytes × List Bytes)
last_line root none = none
last_line root (some (words, [])) = some (root, words)
last_line root (some (words, c ∷ s)) = none

abbrev behind_mounts : Bytes → Option Bytes → Option (Bytes × List Bytes)
behind_mounts root none = none
behind_mounts root (some s) = last_line root (read_line between s)

abbrev behind_root : Option Line → Option (Bytes × List Bytes)
behind_root none = none
behind_root (some ([], s)) = none
behind_root (some (root ∷ [], s)) = behind_mounts root (strip mount_lines s)
behind_root (some (root ∷ word ∷ words, s)) = none

abbrev behind_start : Option Bytes → Option (Bytes × List Bytes)
behind_start none = none
behind_start (some s) = behind_root (read_line between s)

pub read_script : Bytes → Option (Bytes × List Bytes)
unfolding read_line strip
read_script s = behind_start (strip script_start s)

-- Whatever bytes the directory, the command and its arguments hold, a shell that reads the script
-- of the sandbox takes exactly the directory for ROOTFS, and the command and the arguments, one for
-- one, for the words of the `chroot`.
pub read_script-build :
    (rootfs_dir command : Bytes) (args : List Bytes)
    → read_script (build_mount_and_chroot_script rootfs_dir command args)
      ≡ some (rootfs_dir, command ∷ args)
unfolding read_script build_mount_and_chroot_script
read_script-build rootfs_dir command args =
    let line = quot command ++ b' ' ∷ (quoted_args args ++ b'\n' ∷ []) in
    let body = mount_lines ++ line in
    ap behind_start (strip-append script_start (quot rootfs_dir ++ b'\n' ∷ body))
    ∙ ap behind_root (read_line-quot_end rootfs_dir body)
    ∙ ap (behind_mounts rootfs_dir) (strip-append mount_lines line)
    ∙ ap (last_line rootfs_dir) (
        read_line-quot_cons command (quoted_args args ++ b'\n' ∷ []) [] args
          (read_line-quoted_args args []))
