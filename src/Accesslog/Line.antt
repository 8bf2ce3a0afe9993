-- ===== src/Accesslog/Line.antt =====
-- src/accesslog.c logreq: what it writes is one line.
use ashd.Base.{
  ltb, ◌==◌, if◌then◌else◌, Bool-cases, ◌>>=◌, length, take, All, All-append, Bytes, codes,
  split_at, ℕ, zero, suc, ◌+◌, ◌-◌, ◌/◌, ◌%◌, ◌≤◌, ◌<◌, ◌≡◌, refl, sym, inl, inr, Bool, true, false,
  ◌&&◌, Option, none, some, [], ◌∷◌, ◌++◌, arith,
}
use ashd.Req.Head.{Hthead, getheader}
use ashd.Req.Write.{print_dec, print_digits}
use ashd.Utils.Hex.{lower_digit}
use ashd.Accesslog.{
  Timeval, Logdata, Clock, qput, qputs, Item, percent, request_header, response_header, ash_header,
  url, path, method, rest, version, local_time, gm_time, microseconds, code, bytes_in, bytes_out,
  span, address, host, referer, user_agent, other, item, log_value, log_count, print_six, url_path,
  time_format, logitem, Step, literal, directive, unclosed, stop, take_item, scan_braces, scan_item,
  scan, log_format, logreq,
}
use ashd.Accesslog.Quoted.{IsPlain, Quotes, qput-Quotes}

abbrev pub Plain : Bytes → Type 0
Plain = All IsPlain

lower_digit-IsPlain : (n : ℕ) → n < 16 → IsPlain (lower_digit n)
unfolding lower_digit
lower_digit-IsPlain n l = ground arith

qput-Plain : (c : ℕ) → Plain (qput c)
qput-Plain c = go (qput c) (qput-Quotes c)
  where
    go : (text : Bytes) → Quotes c text → Plain text
    go text (inl (d, e, p, _, _)) = rw e ((omega arith, (p, tt)))
    go text (inr (inl e)) =
        let high = lower_digit-IsPlain (c / 16 % 16) (omega arith) in
        let low = lower_digit-IsPlain (c % 16) (omega arith) in
        rw e (omega arith, (omega arith, (high, (low, tt))))
    go text (inr (inr (e, p, _, _))) = rw e (p, tt)

qputs-Plain : (s : Bytes) → Plain (qputs s)
unfolding qputs
qputs-Plain [] = tt
qputs-Plain (c ∷ s) = elim (Bool-cases (c == 0)) [
  | inl e ↦ rw e tt
  | inr e ↦ rw e (All-append IsPlain (qput c) (qputs s) (qput-Plain c) (qputs-Plain s))
]

print_digits-Plain : (fuel n : ℕ) (out : Bytes) → Plain out → Plain (print_digits fuel n out)
unfolding print_digits
print_digits-Plain zero n out p = (omega arith, p)
print_digits-Plain (suc fuel) n out p = elim (Bool-cases (ltb n 10)) [
  | inl e ↦ rw e (ground arith, p)
  | inr e ↦ rw e (print_digits-Plain fuel (n / 10) ((b'0' + n % 10) ∷ out) (omega arith, p))
]

print_dec-Plain : (n : ℕ) → Plain (print_dec n)
unfolding print_dec
print_dec-Plain n = print_digits-Plain n n [] tt

log_value-Plain : (o : Option Bytes) → Plain (log_value o)
unfolding log_value
log_value-Plain none = (omega arith, tt)
log_value-Plain (some h) = qputs-Plain h

log_count-Plain : (o : Option ℕ) → Plain (log_count o)
unfolding log_count
log_count-Plain none = (omega arith, tt)
log_count-Plain (some n) = print_dec-Plain n

take-Plain : (n : ℕ) (s : Bytes) → Plain s → Plain (take n s)
take-Plain zero s p = tt
take-Plain (suc n) [] p = tt
take-Plain (suc n) (c ∷ s) (q, p) = (q, take-Plain n s p)

print_six-Plain : (n : ℕ) → Plain (print_six n)
unfolding print_six
print_six-Plain n =
    All-append IsPlain (take (6 - length (print_dec n)) (codes "000000")) (print_dec n)
      (take-Plain (6 - length (print_dec n)) (codes "000000") (ground arith)) (print_dec-Plain n)

-- The request has all of its four strings.
pub record IsRequest (req : Hthead) : Type 0 where
  pub method : (m : Bytes) × (req.method ≡ some m)
  pub url : (u : Bytes) × (req.url ≡ some u)
  pub ver : (v : Bytes) × (req.ver ≡ some v)
  pub rest : (r : Bytes) × (req.rest ≡ some r)

-- A text that is there, of bytes from 32 to 127.
abbrev Writes : Option Bytes → Type 0
Writes o = (text : Bytes) × (o ≡ some text) × Plain text

qputs-Writes :
    (o : Option Bytes) (f : Bytes → Bytes)
    → (v : Bytes) × (o ≡ some v)
    → Writes (o >>= λ v. some (qputs (f v)))
qputs-Writes o f (v, e) = rw e (qputs (f v), refl, qputs-Plain (f v))

module _ (clock : Clock) (spans : (a b : Timeval) → Plain (clock.print_span a b)) where
  logitem-Writes :
      (log : Logdata) → IsRequest log.req → (i : Item) (d : Bytes) → Writes (logitem clock log i d)
  unfolding logitem
  logitem-Writes log r percent d = (_, refl, (omega arith, tt))
  logitem-Writes log r request_header d = (_, refl, log_value-Plain (getheader log.req d))
  logitem-Writes log r response_header d =
      (_, refl, log_value-Plain (log.resp >>= λ resp. getheader resp d))
  logitem-Writes log r ash_header d =
      (_, refl, log_value-Plain (log.resp >>= λ resp. getheader resp (codes "X-Ash-" ++ d)))
  logitem-Writes log r url d = qputs-Writes log.req.url (λ u. u) r.url
  logitem-Writes log r path d = qputs-Writes log.req.url url_path r.url
  logitem-Writes log r method d = qputs-Writes log.req.method (λ u. u) r.method
  logitem-Writes log r rest d = qputs-Writes log.req.rest (λ u. u) r.rest
  logitem-Writes log r version d = qputs-Writes log.req.ver (λ u. u) r.ver
  logitem-Writes log r local_time d =
      (_, refl, qputs-Plain (clock.strftime_local (time_format d) log.start.tv_sec))
  logitem-Writes log r gm_time d =
      (_, refl, qputs-Plain (clock.strftime_gm (time_format d) log.start.tv_sec))
  logitem-Writes log r microseconds d = (_, refl, print_six-Plain log.start.tv_usec)
  logitem-Writes log r code d = (_, refl, log_count-Plain (log.resp >>= λ resp. some resp.code))
  logitem-Writes log r bytes_in d = (_, refl, log_count-Plain log.bytesin)
  logitem-Writes log r bytes_out d = (_, refl, log_count-Plain log.bytesout)
  logitem-Writes log r span d = elim (Bool-cases (log.end.tv_sec == 0 && log.end.tv_usec == 0)) [
    | inl e ↦ rw e (_, refl, (omega arith, tt))
    | inr e ↦ rw e (_, refl, spans log.start log.end)
  ]
  logitem-Writes log r address d =
      (_, refl, log_value-Plain (getheader log.req (codes "X-Ash-Address")))
  logitem-Writes log r host d = (_, refl, log_value-Plain (getheader log.req (codes "Host")))
  logitem-Writes log r referer d = (_, refl, log_value-Plain (getheader log.req (codes "Referer")))
  logitem-Writes log r user_agent d =
      (_, refl, log_value-Plain (getheader log.req (codes "User-Agent")))
  logitem-Writes log r other d = ([], refl, tt)

  -- What is left behind a step is of such bytes and no longer.
  abbrev Leaves : ℕ → Step → Type 0
  Leaves n (literal c p) = IsPlain c × Plain p × (length p ≤ n)
  Leaves n (directive o d p) = Plain p × (length p ≤ n)
  Leaves n (unclosed p) = Plain p × (length p ≤ n)
  Leaves n stop = Unit

  take_item-Leaves : (d p : Bytes) (n : ℕ) → Plain p → length p ≤ n → Leaves n (take_item d p)
  unfolding take_item
  take_item-Leaves d [] n q l = tt
  take_item-Leaves d (o ∷ p) n (_, q) l = (q, omega arith)

  split_at-Plain :
      (c : ℕ) (p a b : Bytes)
      → Plain p
      → split_at c p ≡ some (a, b)
      → Plain b × (length b ≤ length p)
  unfolding split_at
  split_at-Plain c [] a b q e = absurd cc
  split_at-Plain c (x ∷ p) a b (_, q) e =
      go (x == c) (split_at c p) e (λ a' b'. split_at-Plain c p a' b' q)
    where
      go :
          (found : Bool) (o : Option (Bytes × Bytes))
          → (let first : Option (Bytes × Bytes) = some ([], p) in
              if found then first else elim o [ none ↦ none | some (a', b') ↦ some (x ∷ a', b') ])
            ≡ some (a, b)
          → ((a' b' : Bytes) → o ≡ some (a', b') → Plain b' × (length b' ≤ length p))
          → Plain b × (length b ≤ suc (length p))
      go true o e next = let same : p ≡ b = cc in rw (sym same) (q, omega arith)
      go false none e next = absurd cc
      go false (some (a', b')) e next =
          let same : b' ≡ b = cc in let (q', l) = next a' b' refl in rw (sym same) (q', omega arith)

  scan_braces-Leaves : (p : Bytes) (n : ℕ) → Plain p → length p ≤ n → Leaves n (scan_braces p)
  unfolding scan_braces
  scan_braces-Leaves p n q l = go (split_at b'}' p) refl
    where
      go :
          (o : Option (Bytes × Bytes))
          → split_at b'}' p ≡ o
          → Leaves n (elim o [ none ↦ unclosed p | some (d, p') ↦ take_item d p' ])
      go none e = (q, l)
      go (some (d, p')) e =
          let (q', l') = split_at-Plain b'}' p d p' q e in take_item-Leaves d p' n q' (omega arith)

  scan_item-Leaves : (p : Bytes) → Plain p → Leaves (length p) (scan_item p)
  unfolding scan_item
  scan_item-Leaves [] q = tt
  scan_item-Leaves (x ∷ p) (i, q) = elim (Bool-cases (x == b'{')) [
    | inl e ↦ rw e (scan_braces-Leaves p (suc (length p)) q (omega arith))
    | inr e ↦ rw e (take_item-Leaves [] (x ∷ p) (suc (length p)) (i, q) (omega arith))
  ]

  scan-Leaves : (c : ℕ) (p : Bytes) → IsPlain c → Plain p → Leaves (length p) (scan c p)
  unfolding scan
  scan-Leaves c p i q = elim (Bool-cases (c == b'%')) [
    | inl e ↦ rw e (scan_item-Leaves p q)
    | inr e ↦ rw e (i, q, omega arith)
  ]

  log_format-Writes :
      (fuel : ℕ) (log : Logdata) (p : Bytes)
      → IsRequest log.req
      → Plain p
      → length p ≤ fuel
      → Writes (log_format clock fuel log p)
  unfolding log_format
  log_format-Writes fuel log [] r q l = ([], refl, tt)
  log_format-Writes zero log (c ∷ p) r q l = absurd (omega arith)
  log_format-Writes (suc fuel) log (c ∷ p) r (i, q) l =
      go (scan c p) (scan-Leaves c p i q) (λ p' q' l'. log_format-Writes fuel log p' r q' l')
    where
      go :
          (s : Step)
          → Leaves (length p) s
          → ((p' : Bytes) → Plain p' → length p' ≤ fuel → Writes (log_format clock fuel log p'))
          → Writes (elim s [
            | literal c p' ↦ log_format clock fuel log p' >>= λ text. some (c ∷ text)
            | directive o d p' ↦ do
              text ← logitem clock log (item o) d
              more ← log_format clock fuel log p'
              some (text ++ more)
            | unclosed p' ↦ log_format clock fuel log p'
            | stop ↦ some []
          ])
      go (literal c p') (i', q', l') next =
          let (text, e, t) = next p' q' (omega arith) in rw e (c ∷ text, refl, (i', t))
      go (directive o d p') (q', l') next =
          let (more, e, t) = next p' q' (omega arith) in
          let (text, e', t') = logitem-Writes log r (item o) d in
          rw (e, e') (text ++ more, refl, All-append IsPlain text more t' t)
      go (unclosed p') (q', l') next = next p' q' (omega arith)
      go stop tt next = ([], refl, tt)

  -- A format of bytes from 32 to 127 makes of every request, whatever its strings and its headers
  -- hold, and whatever strftime gives, one line: bytes from 32 to 127, so none of ASCII's control
  -- characters but DEL, and then a newline. The fuel is enough for it.
  pub logreq-Writes :
      (format : Bytes) (log : Logdata)
      → Plain format
      → IsRequest log.req
      → (line : Bytes) × (logreq clock format log ≡ some (line ++ 10 ∷ [])) × Plain line
  unfolding logreq
  logreq-Writes format log q r =
      let (text, e, t) = log_format-Writes (length format) log format r q (omega arith) in
      rw e (text, refl, t)
