-- ===== src/Cf/Lines.antt =====
-- lib/cf.c `parsefile`: what it reads of a line.
use ashd.Base.{
  leb, ◌==◌, if◌then◌else◌, Bytes, isspace, ℕ, ◌+◌, ◌-◌, ◌%◌, Bool, true, ◌||◌, List, [], ◌∷◌,
}

-- `line`, with its NUL.
abbrev max_line : ℕ
max_line = 1024

abbrev prefix_first : ℕ → List Bytes → List Bytes
prefix_first c [] = (c ∷ []) ∷ []
prefix_first c (line ∷ lines) = (c ∷ line) ∷ lines

-- What fgets(3) gives until the end of the file, with `room` bytes left for the first line.
unfoldable pub fgets_lines : ℕ → Bytes → List Bytes
fgets_lines room [] = []
fgets_lines room (c ∷ file) =
    let ends = c == 10 || leb room 1 in
    let rest = fgets_lines (if ends then max_line - 1 else room - 1) file in
    if ends then (c ∷ []) ∷ rest else prefix_first c rest

abbrev pub file_lines : Bytes → List Bytes
file_lines file = fgets_lines (max_line - 1) file

-- The space at the end of a line is cut off.
unfoldable pub strip_end : Bytes → Bytes
strip_end [] = []
strip_end (c ∷ line) = elim (strip_end line) [
  | [] ↦ if isspace c then [] else c ∷ []
  | d ∷ rest ↦ c ∷ d ∷ rest
]

-- The indentation, and the text behind it.
unfoldable pub indentation : ℕ → Bytes → ℕ × Bytes
indentation ind [] = (ind, [])
indentation ind (c ∷ line) =
    let deeper = indentation (if c == 32 then ind + 1 else ind - ind % 8 + 8) line in
    if c == 32 || c == 9 then deeper else (ind, c ∷ line)

-- An empty line, or a comment.
abbrev pub is_blank : Bytes → Bool
is_blank [] = true
is_blank (c ∷ text) = c == b'#'
