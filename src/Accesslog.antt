-- ===== src/Accesslog.antt =====
-- src/accesslog.c: the line that is logged for a request. `out` is what has been written to it.
pub mod Quoted
pub mod Line
pub mod Pass
use ashd.Base.{
  ltb, leb, ◌==◌, if◌then◌else◌, ◌>>=◌, length, take, Bytes, codes, split_at, ℕ, zero, suc, ◌-◌,
  ◌/◌, ◌%◌, ◌&&◌, ◌||◌, Option, none, some, [], ◌∷◌, ◌++◌,
}
use ashd.Req.Head.{Hthead, getheader}
use ashd.Req.Write.{print_dec}
use ashd.Utils.Hex.{lower_digit}

-- `struct timeval`.
pub record Timeval : Type 0 where
  pub tv_sec : ℕ
  pub tv_usec : ℕ

-- `struct logdata`. A count that is negative is `none`, as a pointer that is NULL.
pub record Logdata : Type 0 where
  pub req : Hthead
  pub resp : Option Hthead
  pub start : Timeval
  pub end : Timeval
  pub bytesin : Option ℕ
  pub bytesout : Option ℕ

-- What the C library prints: a time by a format, by `localtime` and by `gmtime`, and `%.6f` of the
-- seconds from one time to another.
pub record Clock : Type 0 where
  pub strftime_local : Bytes → ℕ → Bytes
  pub strftime_gm : Bytes → ℕ → Bytes
  pub print_span : Timeval → Timeval → Bytes

-- What `qputs` writes for one byte.
unfoldable pub qput : ℕ → Bytes
unfolding lower_digit
qput c =
    if c == 34
    then b'\\' ∷ 34 ∷ []
    else if c == b'\\'
    then b'\\' ∷ b'\\' ∷ []
    else if c == 10
    then b'\\' ∷ b'n' ∷ []
    else if c == 9
    then b'\\' ∷ b't' ∷ []
    else if ltb c 32 || leb 128 c
    then b'\\' ∷ b'x' ∷ lower_digit (c / 16 % 16) ∷ lower_digit (c % 16) ∷ []
    else c ∷ []

unfoldable pub qputs : Bytes → Bytes
unfolding qput
qputs [] = []
qputs (c ∷ s) = if c == 0 then [] else qput c ++ qputs s

-- The cases of the switch of `logitem`.
pub data Item : Type 0 where
  percent request_header response_header ash_header url path method rest version : Item
  local_time gm_time microseconds code bytes_in bytes_out span : Item
  address host referer user_agent other : Item

unfoldable pub item : ℕ → Item
item o =
    if o == b'%'
    then percent
    else if o == b'h'
    then request_header
    else if o == b'p'
    then response_header
    else if o == b'P'
    then ash_header
    else if o == b'u'
    then url
    else if o == b'U'
    then path
    else if o == b'm'
    then method
    else if o == b'r'
    then rest
    else if o == b'v'
    then version
    else if o == b't'
    then local_time
    else if o == b'T'
    then gm_time
    else if o == b's'
    then microseconds
    else if o == b'c'
    then code
    else if o == b'i'
    then bytes_in
    else if o == b'o'
    then bytes_out
    else if o == b'd'
    then span
    else if o == b'A'
    then address
    else if o == b'H'
    then host
    else if o == b'R'
    then referer
    else if o == b'G'
    then user_agent
    else other

-- `putc('-', out)`.
abbrev pub dash : Bytes
dash = b'-' ∷ []

-- `qputs` of a header, or the dash.
unfoldable pub log_value : Option Bytes → Bytes
unfolding qputs
log_value none = dash
log_value (some h) = qputs h

unfoldable pub log_count : Option ℕ → Bytes
unfolding print_dec
log_count none = dash
log_count (some n) = print_dec n

-- `%06i`.
unfoldable pub print_six : ℕ → Bytes
unfolding print_dec
print_six n = let digits = print_dec n in take (6 - length digits) (codes "000000") ++ digits

-- `strncpy` into `buf`, and the text before the question mark.
unfoldable pub url_path : Bytes → Bytes
url_path u = let buf = take 1023 u in elim (split_at b'?' buf) [ none ↦ buf | some (p, _) ↦ p ]

unfoldable pub time_format : Bytes → Bytes
time_format [] = codes "%a, %d %b %Y %H:%M:%S %z"
time_format (c ∷ d) = c ∷ d

module _ (clock : Clock) where
  -- `none` is a `qputs` of NULL.
  unfoldable pub logitem : Logdata → Item → Bytes → Option Bytes
  unfolding log_value qputs log_count print_six url_path time_format
  logitem log percent d = some (b'%' ∷ [])
  logitem log request_header d = some (log_value (getheader log.req d))
  logitem log response_header d = some (log_value (log.resp >>= λ resp. getheader resp d))
  logitem log ash_header d =
      some (log_value (log.resp >>= λ resp. getheader resp (codes "X-Ash-" ++ d)))
  logitem log url d = log.req.url >>= λ u. some (qputs u)
  logitem log path d = log.req.url >>= λ u. some (qputs (url_path u))
  logitem log method d = log.req.method >>= λ m. some (qputs m)
  logitem log rest d = log.req.rest >>= λ r. some (qputs r)
  logitem log version d = log.req.ver >>= λ v. some (qputs v)
  logitem log local_time d = some (qputs (clock.strftime_local (time_format d) log.start.tv_sec))
  logitem log gm_time d = some (qputs (clock.strftime_gm (time_format d) log.start.tv_sec))
  logitem log microseconds d = some (print_six log.start.tv_usec)
  logitem log code d = some (log_count (log.resp >>= λ resp. some resp.code))
  logitem log bytes_in d = some (log_count log.bytesin)
  logitem log bytes_out d = some (log_count log.bytesout)
  logitem log span d = some (
      if log.end.tv_sec == 0 && log.end.tv_usec == 0
      then dash
      else clock.print_span log.start log.end)
  logitem log address d = some (log_value (getheader log.req (codes "X-Ash-Address")))
  logitem log host d = some (log_value (getheader log.req (codes "Host")))
  logitem log referer d = some (log_value (getheader log.req (codes "Referer")))
  logitem log user_agent d = some (log_value (getheader log.req (codes "User-Agent")))
  logitem log other d = some []

-- What the loop of `logreq` finds at `p`: a character to copy, an item with what stands between
-- braces, a brace that nothing closes, behind which it goes on, or the end.
pub data Step : Type 0 where
  literal : ℕ → Bytes → Step
  directive : ℕ → Bytes → Bytes → Step
  unclosed : Bytes → Step
  stop : Step

unfoldable pub take_item : Bytes → Bytes → Step
take_item d [] = stop
take_item d (o ∷ p) = directive o d p

unfoldable pub scan_braces : Bytes → Step
unfolding take_item
scan_braces p = elim (split_at b'}' p) [ none ↦ unclosed p | some (d, p') ↦ take_item d p' ]

unfoldable pub scan_item : Bytes → Step
unfolding take_item scan_braces
scan_item [] = stop
scan_item (c ∷ p) = if c == b'{' then scan_braces p else take_item [] (c ∷ p)

unfoldable pub scan : ℕ → Bytes → Step
unfolding scan_item
scan c p = if c == b'%' then scan_item p else literal c p

module _ (clock : Clock) where
  -- The loop of `logreq`, on fuel. `none` is a NULL that is read, or that the fuel ran out.
  unfoldable pub log_format : ℕ → Logdata → Bytes → Option Bytes
  unfolding scan item logitem
  log_format fuel log [] = some []
  log_format zero log (c ∷ p) = none
  log_format (suc fuel) log (c ∷ p) = elim (scan c p) [
    | literal c p' ↦ log_format fuel log p' >>= λ text. some (c ∷ text)
    | directive o d p' ↦ do
      text ← logitem clock log (item o) d
      more ← log_format fuel log p'
      some (text ++ more)
    | unclosed p' ↦ log_format fuel log p'
    | stop ↦ some []
  ]

  -- `logreq`, with `format`.
  unfoldable pub logreq : Bytes → Logdata → Option Bytes
  unfolding log_format
  logreq format log = do text ← log_format (length format) log format; some (text ++ 10 ∷ [])
