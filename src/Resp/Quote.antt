-- ===== src/Resp/Quote.antt =====
-- lib/resp.c `urlquote` and `htmlquote`.
use ashd.Base.{
  ltb, ◌==◌, if◌then◌else◌, Bool-cases, table_holds, table_entry, All, All-append, Bytes, codes,
  IsByte, ℕ, zero, suc, ◌/◌, ◌%◌, ◌<◌, ◌≡◌, refl, ap, ◌∙◌, ◌≢◌, ◌⊎◌, inl, inr, Bool, true, false,
  not, ◌&&◌, some, [], ◌∷◌, ◌++◌, arith,
}
use ashd.Req.Unquote.{quoted_digit, quoted_byte, unquoteurl, unquote_escape, bufadd}
use ashd.Utils.Hex.{upper_digit}

abbrev row : ℕ → ℕ → ℕ → ℕ → ℕ → ℕ → ℕ → ℕ → Bytes → Bytes
row a b c d e f g h rest = a ∷ b ∷ c ∷ d ∷ e ∷ f ∷ g ∷ h ∷ rest

-- The table, eight entries to a row.
abbrev pub safechars : Bytes
safechars = row 0 0 0 0 0 0 0 0 (
    row 0 0 0 0 0 0 0 0 (
      row 0 0 0 0 0 0 0 0 (
        row 0 0 0 0 0 0 0 0 (
          row 0 1 0 0 0 0 0 0 (
            row 1 1 1 0 0 1 1 1 (
              row 1 1 1 1 1 1 1 1 (
                row 1 1 0 0 0 0 0 0 (
                  row 0 1 1 1 1 1 1 1 (
                    row 1 1 1 1 1 1 1 1 (
                      row 1 1 1 1 1 1 1 1 (
                        row 1 1 1 0 0 0 0 1 (
                          row 0 1 1 1 1 1 1 1 (
                            row 1 1 1 1 1 1 1 1
                              (row 1 1 1 1 1 1 1 1 (row 1 1 1 0 0 0 1 0 [])))))))))))))))

abbrev pub get_or : Bytes → ℕ → ℕ → ℕ
get_or [] i d = d
get_or (x ∷ xs) zero d = x
get_or (x ∷ xs) (suc i) d = get_or xs i d

-- `(c < 128) && safechars[(int)c]`.
unfoldable pub is_safe : ℕ → Bool
is_safe c = ltb c 128 && not (get_or safechars c 0 == 0)

-- What the loop adds for one byte: itself or `%%%02X`.
unfoldable pub quote_byte : ℕ → Bytes → Bytes
unfolding is_safe upper_digit
quote_byte c rest =
    if is_safe c then c ∷ rest else b'%' ∷ upper_digit (c / 16) ∷ upper_digit (c % 16) ∷ rest

unfoldable pub urlquote : Bytes → Bytes
unfolding quote_byte
urlquote [] = []
urlquote (c ∷ text) = quote_byte c (urlquote text)

-- What the loop of `htmlquote` adds for one byte.
unfoldable pub quote_html : ℕ → Bytes
quote_html c =
    if c == b'<'
    then codes "&lt;"
    else if c == b'>'
    then codes "&gt;"
    else if c == b'&'
    then codes "&amp;"
    else if c == 34
    then codes "&quot;"
    else c ∷ []

unfoldable pub htmlquote : Bytes → Bytes
unfolding quote_html
htmlquote [] = []
htmlquote (c ∷ text) = quote_html c ++ htmlquote text

-- The table has no `%`.
percent_is_quoted : is_safe b'%' ≡ false
unfolding is_safe
percent_is_quoted = refl

digit_back : (d : ℕ) → d < 16 → quoted_digit (upper_digit d) ≡ some d
unfolding quoted_digit upper_digit
digit_back d h = elim (Bool-cases (ltb d 10)) [
  | inl e ↦ rw e (ground arith)
  | inr e ↦ rw e (ground arith)
]

byte_back : (c : ℕ) → c < 256 → quoted_byte (upper_digit (c / 16)) (upper_digit (c % 16)) ≡ some c
unfolding quoted_byte
byte_back c h =
    rw (digit_back (c / 16) (omega arith), digit_back (c % 16) (omega arith))
      (ap some (omega arith))

-- A byte that is not `%` is copied, whatever follows.
unquote_plain : (c : ℕ) (s : Bytes) → c ≢ b'%' → unquoteurl (c ∷ s) ≡ bufadd c (unquoteurl s)
unfolding unquoteurl
unquote_plain c [] h = ground arith
unquote_plain c (a ∷ []) h = ground arith
unquote_plain c (a ∷ b ∷ s) h = ground arith

safe-ne-percent : (c : ℕ) → is_safe c ≡ true → c ≢ b'%'
safe-ne-percent c h e = cc (ap is_safe e, percent_is_quoted)

unquote_percent :
    (a b : ℕ) (s : Bytes)
    → unquoteurl (b'%' ∷ a ∷ b ∷ s) ≡ unquote_escape (quoted_byte a b) (unquoteurl s)
unfolding unquoteurl
unquote_percent a b s = refl

-- What is written for one byte is read back as that byte.
unquote-quote_byte :
    (c : ℕ) (rest : Bytes) → c < 256 → unquoteurl (quote_byte c rest) ≡ bufadd c (unquoteurl rest)
unfolding quote_byte
unquote-quote_byte c rest h = elim (Bool-cases (is_safe c)) [
  | inl e ↦ rw e (unquote_plain c rest (safe-ne-percent c e))
  | inr e ↦ rw e (unquote_percent _ _ rest ∙ (unfold unquote_escape in rw (byte_back c h)))
]

-- Unquoting what `urlquote` wrote gives the text back, whatever bytes it holds.
pub unquoteurl-urlquote : (s : Bytes) → All IsByte s → unquoteurl (urlquote s) ≡ some s
unfolding urlquote
unquoteurl-urlquote [] h = unfold unquoteurl in refl
unquoteurl-urlquote (c ∷ s) (h, hs) =
    unquote-quote_byte c (urlquote s) h ∙ ap (bufadd c) (unquoteurl-urlquote s hs)

-- The bytes that a URL may hold as `urlquote` writes it.
abbrev pub IsUrlByte : ℕ → Type 0
IsUrlByte c = (is_safe c ≡ true) ⊎ (c ≡ b'%')

digits_safe : table_holds (λ d. is_safe (upper_digit d)) 16 ≡ true
unfolding table_holds is_safe upper_digit
digits_safe = refl

is_safe_digit : (d : ℕ) → d < 16 → is_safe (upper_digit d) ≡ true
is_safe_digit d h = table_entry (λ d. is_safe (upper_digit d)) 16 d h digits_safe

quote_byte-All :
    (c : ℕ) (rest : Bytes) → c < 256 → All IsUrlByte rest → All IsUrlByte (quote_byte c rest)
unfolding quote_byte
quote_byte-All c rest h r = go (is_safe c) refl
  where
    go :
        (b : Bool)
        → is_safe c ≡ b
        → All IsUrlByte
            (if b then c ∷ rest else b'%' ∷ upper_digit (c / 16) ∷ upper_digit (c % 16) ∷ rest)
    go true e = (inl e, r)
    go false e =
        let high = is_safe_digit (c / 16) (omega arith) in
        let low = is_safe_digit (c % 16) (omega arith) in (inr refl, (inl high, (inl low, r)))

-- `urlquote` writes bytes of its table, and `%`.
urlquote-All : (s : Bytes) → All IsByte s → All IsUrlByte (urlquote s)
unfolding urlquote
urlquote-All [] h = tt
urlquote-All (c ∷ s) (h, hs) = quote_byte-All c (urlquote s) h (urlquote-All s hs)

abbrev pub IsHtmlText : ℕ → Type 0
IsHtmlText c = (c ≢ b'<') × (c ≢ b'>') × (c ≢ 34)

quote_html-All : (c : ℕ) → All IsHtmlText (quote_html c)
unfolding quote_html
quote_html-All c = ground arith

-- A text that `htmlquote` has quoted opens no tag and ends no attribute value, whatever it held.
htmlquote-All : (s : Bytes) → All IsHtmlText (htmlquote s)
unfolding htmlquote
htmlquote-All [] = tt
htmlquote-All (c ∷ s) =
    All-append _ (quote_html c) (htmlquote s) (quote_html-All c) (htmlquote-All s)
