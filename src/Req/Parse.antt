-- ===== src/Req/Parse.antt =====
-- lib/req.c: `trim`, `parseheaders`, `parseheadersb`, `parseresponse`, `parseresponseb`, `writeresp`
-- and `writerespb`. A stream is the list of the bytes up to its end, where `fgetc` and `biogetc`
-- return EOF; a write to a stream is the list of the bytes written.
pub mod Trim
pub mod Headers
pub mod Response
use ashd.Base.{
  ltb, leb, ◌==◌, if◌then◌else◌, ltb→lt, lt→ltb, ==_iff, Bool-cases, Option-cases, ◌>>=◌, length,
  take, drop, length-append, take-append-drop, length-drop, length-take, take_all, take-nil,
  take_add, All, All-append, All-imp, Bytes, codes, IsByte, IsCstr, cstr, isspace, tolower, strcmp,
  strcasecmp, has_prefix_ci, split_at, bool_eq, lower, strcmp_iff, strcasecmp_iff, strcasecmp_congr,
  strcasecmp_congr_right, has_prefix_ci_congr, cstr_self, ℕ, zero, suc, ◌+◌, ◌-◌, ◌*◌, ◌/◌, ◌%◌,
  ◌^◌, ◌≤◌, ◌<◌, max, ◌≡◌, refl, sym, ap, ◌∙◌, ◌≢◌, ◌↔◌, ◌⊎◌, inl, inr, Bool, true, false, not,
  ◌&&◌, ◌||◌, Option, none, some, List, [], ◌∷◌, ◌++◌, append-nil, append_assoc, arith,
}
use ashd.Req.Head.{Header, Hthead, mkresp, headappheader}

abbrev pub cr : ℕ
cr = 13

abbrev pub lf : ℕ
lf = 10

-- `for(p = buf->b; ... && isspace(*p); p++)`.
unfoldable pub skip_space : Bytes → Bytes
skip_space [] = []
skip_space (c ∷ s) = let rest = skip_space s in if isspace c then rest else c ∷ s

-- The bytes but for the white space at their end.
unfoldable pub drop_space_end : Bytes → Bytes
drop_space_end [] = []
drop_space_end (c ∷ s) = elim (drop_space_end s) [
  | [] ↦ (if isspace c then [] else c ∷ [])
  | d ∷ r ↦ c ∷ d ∷ r
]

-- The second loop stops at the first byte: `p > buf->b`.
unfoldable pub trim_end : Bytes → Bytes
unfolding drop_space_end
trim_end [] = []
trim_end (c ∷ s) = c ∷ drop_space_end s

unfoldable pub trim : Bytes → Bytes
unfolding skip_space trim_end
trim buf = trim_end (skip_space buf)

-- `state` of the header parsers: before a header, in its name, in its value.
pub data HeaderState : Type 0 where
  at_line : HeaderState
  in_name : HeaderState
  in_value : HeaderState

-- The variables of the loop.
pub record HeaderParser : Type 0 where
  pub head : Hthead
  pub state : HeaderState
  pub name : Bytes
  pub val : Bytes

-- What a round of the loop does: go on, break, or `goto fail`.
pub data Round : Type 0 where
  continue : HeaderParser → Round
  finish : Hthead → Round
  fail : Round

-- State 1, with the bytes of the name so far.
unfoldable pub name_byte : HeaderParser → ℕ → Round
unfolding trim
name_byte p c =
    if c == b':'
    then continue (record p { name = trim p.name; state = in_value })
    else if c == cr
    then continue (record p { state = in_name })
    else if c == lf
    then fail
    else continue (record p { name = p.name ++ c ∷ []; state = in_name })

-- State 2. The header is copied as C strings, and both buffers are emptied.
unfoldable pub value_byte : HeaderParser → ℕ → Round
unfolding trim headappheader
value_byte p c =
    if c == cr
    then continue p
    else if c == lf
    then continue (record p {
      head = headappheader p.head (cstr p.name) (cstr (trim p.val));
      name = [];
      val = [];
      state = at_line;
    })
    else continue (record p { val = p.val ++ c ∷ [] })

-- State 0: any other byte is read again in state 1.
unfoldable pub line_byte : HeaderParser → ℕ → Round
unfolding name_byte
line_byte p c = if c == cr then continue p else if c == lf then finish p.head else name_byte p c

unfoldable pub header_byte : HeaderState → HeaderParser → ℕ → Round
unfolding line_byte name_byte value_byte
header_byte at_line p c = line_byte p c
header_byte in_name p c = name_byte p c
header_byte in_value p c = value_byte p c

abbrev pub max_headers : ℕ
max_headers = 65536

-- The loop, with the bytes read so far. EOF fails in every state.
unfoldable pub header_loop : Bytes → ℕ → HeaderParser → Option (Hthead × Bytes)
unfolding header_byte
header_loop [] tsz p = none
header_loop (c ∷ input) tsz p =
    if leb max_headers (tsz + 1) then none else elim (header_byte p.state p c) [
      | continue q ↦ header_loop input (tsz + 1) q
      | finish head ↦ some (head, input)
      | fail ↦ none
    ]

-- The parsed head and the unread bytes; `none` is the return value -1.
unfoldable pub parseheaders : Hthead → Bytes → Option (Hthead × Bytes)
unfolding header_loop
parseheaders head input =
    header_loop input 0 (record { head = head; state = at_line; name = []; val = [] })

-- `parseheadersb` is the same text over `biogetc`.
unfoldable pub parseheadersb : Hthead → Bytes → Option (Hthead × Bytes)
unfolding header_loop
parseheadersb head input =
    header_loop input 0 (record { head = head; state = at_line; name = []; val = [] })

-- The first loop of the response parsers: the version, up to a space.
unfoldable pub read_version : Bytes → Bytes → Option (Bytes × Bytes)
read_version [] ver = none
read_version (c ∷ input) ver =
    let rest = read_version input (ver ++ c ∷ []) in
    if c == b' '
    then some (ver, input)
    else if ltb c 32 || leb 128 c
    then none
    else if leb 128 (length ver + 1)
    then none
    else rest

-- The second loop: the status code. It stays below 10000, so `int` does not overflow.
unfoldable pub read_code : Bytes → ℕ → Option (ℕ × Bytes)
read_code [] code = none
read_code (c ∷ input) code =
    let code' = code * 10 + (c - b'0') in
    let rest = read_code input code' in
    if c == b' '
    then some (code, input)
    else if ltb c b'0' || ltb b'9' c
    then none
    else if leb 10000 code'
    then none
    else rest

-- The third loop: the message, up to the end of the line.
unfoldable pub read_message : Bytes → Bytes → Option (Bytes × Bytes)
read_message [] msg = none
read_message (c ∷ input) msg =
    let skip = read_message input msg in
    let rest = read_message input (msg ++ c ∷ []) in
    if c == lf
    then some (msg, input)
    else if c == cr
    then skip
    else if ltb c 32
    then none
    else if leb 512 (length msg + 1)
    then none
    else rest

unfoldable pub parseresponse : Bytes → Option (Hthead × Bytes)
unfolding read_version read_code read_message mkresp parseheaders
parseresponse input = do
  (ver, input1) ← read_version input []
  (code, input2) ← read_code input1 0
  (msg, input3) ← read_message input2 []
  parseheaders (mkresp code msg ver) input3

unfoldable pub parseresponseb : Bytes → Option (Hthead × Bytes)
unfolding read_version read_code read_message mkresp parseheadersb
parseresponseb input = do
  (ver, input1) ← read_version input []
  (code, input2) ← read_code input1 0
  (msg, input3) ← read_message input2 []
  parseheadersb (mkresp code msg ver) input3
