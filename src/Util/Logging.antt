-- ===== src/Util/Logging.antt =====
-- internal/util/logging.go: colours on a terminal.
use hacker_os_builder.Prelude.{Bool, ◌∷◌, ◌++◌, [], if◌then◌else◌, Bytes, codes}

-- The escape byte and the code of a colour.
abbrev esc : Bytes → Bytes
esc code = 0x1B ∷ code

abbrev pub color_reset : Bytes
color_reset = esc (codes "[0m")

abbrev pub color_bold : Bytes
color_bold = esc (codes "[1m")

unfoldable pub colorize : Bool → Bytes → Bytes → Bytes
colorize is_terminal color_code text =
    if is_terminal then color_code ++ (text ++ color_reset) else text

unfoldable pub bold : Bool → Bytes → Bytes
bold is_terminal text = colorize is_terminal color_bold text

unfoldable pub color_prefix : Bool → Bytes → Bytes
color_prefix is_terminal code = if is_terminal then code else []

unfoldable pub reset_suffix : Bool → Bytes
reset_suffix is_terminal = if is_terminal then color_reset else []
