-- ===== src/Utils/Tokenize.antt =====
-- lib/utils.c `tokenize`: the words of a line. The source first finds the end of a word and then
-- takes the quotation marks and the backslashes out of its copy; here both happen on the way.
use ashd.Base.{
  ◌==◌, if◌then◌else◌, Bytes, isspace, ℕ, ◌≡◌, refl, ap, ◌∙◌, Bool, true, false, Option, none, some,
  List, [], ◌∷◌, ◌++◌, append-nil, append_assoc,
}

-- Where the loop stands: between two words, in a word (`q`, and its bytes so far), or behind a
-- backslash in it.
pub data Mode : Type 0 where
  gap : Mode
  word : Bool → Bytes → Mode
  escaped : Bool → Bytes → Mode

-- One more word in front.
abbrev pub prepend : Bytes → Option (List Bytes) → Option (List Bytes)
prepend w none = none
prepend w (some ws) = some (w ∷ ws)

-- A byte of a word outside of quotation marks, and one inside.
unfoldable pub plain_byte : (Mode → Option (List Bytes)) → Bytes → ℕ → Option (List Bytes)
plain_byte next acc c =
    if c == b'"'
    then next (word true acc)
    else if isspace c
    then prepend acc (next gap)
    else if c == 92
    then next (escaped false acc)
    else next (word false (acc ++ c ∷ []))

unfoldable pub quoted_text : (Mode → Option (List Bytes)) → Bytes → ℕ → Option (List Bytes)
quoted_text next acc c =
    if c == b'"'
    then next (word false acc)
    else if c == 92
    then next (escaped true acc)
    else next (word true (acc ++ c ∷ []))

-- `none` is a read behind the NUL, which a line has that ends in quotation marks or in a backslash.
unfoldable pub tokens : Bytes → Mode → Option (List Bytes)
unfolding plain_byte quoted_text
tokens [] gap = some []
tokens [] (word false acc) = some (acc ∷ [])
tokens [] (word true acc) = none
tokens [] (escaped q acc) = none
tokens (c ∷ s) (escaped q acc) = tokens s (word q (acc ++ c ∷ []))
tokens (c ∷ s) (word true acc) = quoted_text (λ m. tokens s m) acc c
tokens (c ∷ s) (word false acc) = plain_byte (λ m. tokens s m) acc c
tokens (c ∷ s) gap = if isspace c then tokens s gap else plain_byte (λ m. tokens s m) [] c

unfoldable pub tokenize : Bytes → Option (List Bytes)
unfolding tokens
tokenize src = tokens src gap

-- A word written with quotation marks, and a line of such words.
abbrev pub quote_word : Bytes → Bytes → Bytes
quote_word [] rest = b'"' ∷ 32 ∷ rest
quote_word (c ∷ w) rest = 92 ∷ c ∷ quote_word w rest

abbrev pub quote_line : List Bytes → Bytes
quote_line [] = []
quote_line (w ∷ ws) = b'"' ∷ quote_word w (quote_line ws)

tokens-quote_word :
    (w acc rest : Bytes)
    → tokens (quote_word w rest) (word true acc) ≡ prepend (acc ++ w) (tokens rest gap)
unfolding tokens
tokens-quote_word [] acc rest = rw append-nil refl
tokens-quote_word (c ∷ w) acc rest =
    tokens-quote_word w (acc ++ c ∷ []) rest
    ∙ ap (λ x. prepend x (tokens rest gap)) (append_assoc acc (c ∷ []) w)

-- A line of words, each between quotation marks and with a backslash in front of every byte, is
-- cut into these words, whatever bytes they hold, and whether they are empty or not.
pub tokenize-quote_line : (ws : List Bytes) → tokenize (quote_line ws) ≡ some ws
unfolding tokenize tokens
tokenize-quote_line [] = refl
tokenize-quote_line (w ∷ ws) =
    tokens-quote_word w [] (quote_line ws) ∙ ap (prepend w) (tokenize-quote_line ws)
