-- ===== src/Hk/Load.antt =====
-- internal/hk/parser.go, LoadFile: the lines that `bufio.Scanner` makes of a file.
use hacker_os_builder.Prelude.{
  ℕ, ◌^◌, Option, none, some, List, [], ◌∷◌, ◌==◌, ltb, if◌then◌else◌, Bytes, length, reverse,
}
use hacker_os_builder.Text.Pieces.{split}
use hacker_os_builder.Hk.Errors.{Result}
use hacker_os_builder.Hk.Value.{Floats}
use hacker_os_builder.Hk.Store.{HkConfig}
use hacker_os_builder.Hk.Parser.{parse}

-- `bufio.MaxScanTokenSize`: a line of this length or more does not fit the buffer.
abbrev pub max_scan_token_size : ℕ
max_scan_token_size = 2 ^ 16

drop_first_cr : Bytes → Bytes
drop_first_cr [] = []
drop_first_cr (c ∷ s) = if c == b'\r' then s else c ∷ s

-- One carriage return at the end of a line is dropped.
unfoldable pub drop_cr : Bytes → Bytes
unfolding drop_first_cr
drop_cr s = reverse (drop_first_cr (reverse s))

-- The tokens of the pieces between newlines; a last piece that is empty is none. `none` is
-- ErrTooLong.
unfoldable pub scan_pieces : List Bytes → Option (List Bytes)
unfolding drop_cr
scan_pieces [] = some []
scan_pieces ([] ∷ []) = some []
scan_pieces (piece ∷ pieces) =
    let later = scan_pieces pieces in
    if ltb (length piece) max_scan_token_size
    then elim later [ none ↦ none | some lines ↦ some (drop_cr piece ∷ lines) ]
    else none

-- The errors of LoadFile: of os.Open, of the scanner, and of the parser.
pub data LoadFile {ℓ} (V : Type ℓ) : Type ℓ where
  not_opened : LoadFile V
  not_read : LoadFile V
  parsed : Result V → LoadFile V

unfoldable pub load_scanned : Floats → Option (List Bytes) → LoadFile HkConfig
load_scanned fl none = not_read
load_scanned fl (some lines) = parsed (parse fl lines)

-- `none` is a file that cannot be opened.
unfoldable pub load_file : Floats → Option Bytes → LoadFile HkConfig
unfolding scan_pieces load_scanned
load_file fl none = not_opened
load_file fl (some contents) = load_scanned fl (scan_pieces (split b'\n' contents))
