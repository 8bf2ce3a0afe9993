-- ===== src/Utils/Base64/RoundTrip.antt =====
-- `base64decode` reads what `base64encode` wrote.
use ashd.Base.{
  leb, ◌==◌, if◌then◌else◌, ==_iff, table_holds, table_entry, All, Bytes, IsByte, ℕ, ◌+◌, ◌*◌, ◌/◌,
  ◌%◌, ◌<◌, ◌≡◌, refl, ap, ◌∙◌, Bool, true, false, not, ◌&&◌, ◌||◌, Option, none, some, [], ◌∷◌,
  arith,
}
use ashd.Utils.Base64.{
  digit64, base64rev, base64encode, Decoder, decode_digit, add_byte, decode_loop, base64decode,
}

-- Is `c` a digit of value `v`, and none of the bytes that the loop treats apart?
abbrev reads_as : ℕ → ℕ → Bool
reads_as c v =
    not (c == 0 || leb 128 c)
    && not (c == b'=')
    && not (c == 10)
    && elim (base64rev c) [ none ↦ false | some w ↦ w == v ]

digits_read : table_holds (λ v. reads_as (digit64 v) v) 64 ≡ true
unfolding table_holds base64rev digit64
digits_read = refl

digit64_read : (v : ℕ) → v < 64 → reads_as (digit64 v) v ≡ true
digit64_read v h = table_entry (λ w. reads_as (digit64 w) w) 64 v h digits_read

abbrev looped : Bytes → Decoder → ℕ → Option Bytes
looped s d v = add_byte (decode_digit d v).0 (decode_loop s (decode_digit d v).1)

decode_loop_read :
    (c v : ℕ) (s : Bytes) (d : Decoder) → reads_as c v ≡ true → decode_loop (c ∷ s) d ≡ looped s d v
unfolding decode_loop
decode_loop_read c v s d e = go (c == 0 || leb 128 c) (c == b'=') (c == 10) (base64rev c) e
  where
    go :
        (p q r : Bool) (o : Option ℕ)
        → (not p && not q && not r && elim o [ none ↦ false | some w ↦ w == v ]) ≡ true
        → (if p
            then some []
            else if q
            then some []
            else if r
            then decode_loop s d
            else elim o [ none ↦ none | some w ↦ looped s d w ])
          ≡ looped s d v
    go true q r o e = cc
    go false true r o e = cc
    go false false true o e = cc
    go false false false none e = cc
    go false false false (some w) e = ap (λ x. looped s d x) ((==_iff w v).0 e)

decode_loop-digit64 :
    (v : ℕ) (s : Bytes) (d : Decoder) → v < 64 → decode_loop (digit64 v ∷ s) d ≡ looped s d v
decode_loop-digit64 v s d h = decode_loop_read (digit64 v) v s d (digit64_read v h)

abbrev at_missing : ℕ → ℕ → Decoder
at_missing missing cur = record { missing = missing; cur = cur }

add_byte-none : (o : Option Bytes) → add_byte none o ≡ o
add_byte-none none = refl
add_byte-none (some s) = refl

-- A digit at each of the four states.
step8 :
    (v : ℕ) (s : Bytes)
    → v < 64
    → decode_loop (digit64 v ∷ s) (at_missing 8 0) ≡ decode_loop s (at_missing 2 (0 + v * 4))
unfolding decode_digit
step8 v s h = decode_loop-digit64 v s (at_missing 8 0) h ∙ add_byte-none _

step2 :
    (v cur : ℕ) (s : Bytes)
    → v < 64
    → decode_loop (digit64 v ∷ s) (at_missing 2 cur)
      ≡ add_byte (some (cur + v / 16)) (decode_loop s (at_missing 4 (v * 16 % 256)))
unfolding decode_digit
step2 v cur s h = decode_loop-digit64 v s (at_missing 2 cur) h

step4 :
    (v cur : ℕ) (s : Bytes)
    → v < 64
    → decode_loop (digit64 v ∷ s) (at_missing 4 cur)
      ≡ add_byte (some (cur + v / 4)) (decode_loop s (at_missing 6 (v * 64 % 256)))
unfolding decode_digit
step4 v cur s h = decode_loop-digit64 v s (at_missing 4 cur) h

step6 :
    (v cur : ℕ) (s : Bytes)
    → v < 64
    → decode_loop (digit64 v ∷ s) (at_missing 6 cur)
      ≡ add_byte (some (cur + v / 1)) (decode_loop s (at_missing 8 (v * 256 % 256)))
unfolding decode_digit
step6 v cur s h = decode_loop-digit64 v s (at_missing 6 cur) h

-- The end of a text: the equals signs.
decode_end : (s : Bytes) (d : Decoder) → decode_loop (b'=' ∷ s) d ≡ some []
unfolding decode_loop
decode_end s d = refl

-- What four digits of three bytes come to.
three_bytes :
    (a b c : ℕ) (s : Bytes)
    → a < 256
    → b < 256
    → c < 256
    → decode_loop
        (digit64 (a / 4)
          ∷ digit64 (a % 4 * 16 + b / 16)
          ∷ digit64 (b % 16 * 4 + c / 64)
          ∷ digit64 (c % 64)
          ∷ s)
        (at_missing 8 0)
      ≡ add_byte (some a) (add_byte (some b) (add_byte (some c) (decode_loop s (at_missing 8 0))))
three_bytes a b c s f g h =
    let v1 : 0 + a / 4 * 4 + (a % 4 * 16 + b / 16) / 16 ≡ a = omega arith in
    let v2 : (a % 4 * 16 + b / 16) * 16 % 256 + (b % 16 * 4 + c / 64) / 4 ≡ b = omega arith in
    let v3 : (b % 16 * 4 + c / 64) * 64 % 256 + c % 64 / 1 ≡ c = omega arith in
    let v4 : c % 64 * 256 % 256 ≡ 0 = omega arith in
    step8 (a / 4) _ (omega arith)
    ∙ step2 (a % 4 * 16 + b / 16) _ _ (omega arith)
    ∙ ap (λ o. add_byte (some (0 + a / 4 * 4 + (a % 4 * 16 + b / 16) / 16)) o)
        (step4 (b % 16 * 4 + c / 64) _ _ (omega arith)
          ∙ ap
              (λ o.
                add_byte (some ((a % 4 * 16 + b / 16) * 16 % 256 + (b % 16 * 4 + c / 64) / 4)) o)
              (step6 (c % 64) _ s (omega arith)))
    ∙ same (0 + a / 4 * 4 + (a % 4 * 16 + b / 16) / 16)
        ((a % 4 * 16 + b / 16) * 16 % 256 + (b % 16 * 4 + c / 64) / 4)
        ((b % 16 * 4 + c / 64) * 64 % 256 + c % 64 / 1) (c % 64 * 256 % 256) v1 v2 v3 v4
  where
    same :
        (x y z w : ℕ)
        → x ≡ a
        → y ≡ b
        → z ≡ c
        → w ≡ 0
        → add_byte (some x) (add_byte (some y) (add_byte (some z) (decode_loop s (at_missing 8 w))))
          ≡ add_byte
              (some a)
              (add_byte (some b) (add_byte (some c) (decode_loop s (at_missing 8 0))))
    same x y z w e f g h = rw (e, f, g, h) refl

decode_nil : (d : Decoder) → decode_loop [] d ≡ some []
unfolding decode_loop
decode_nil d = refl

base64_loop : (s : Bytes) → All IsByte s → decode_loop (base64encode s) (at_missing 8 0) ≡ some s
unfolding base64encode
base64_loop [] h = decode_nil (at_missing 8 0)
base64_loop (a ∷ []) (f, h) =
    let v1 : 0 + a / 4 * 4 + a % 4 * 16 / 16 ≡ a = omega arith in
    step8 (a / 4) _ (omega arith)
    ∙ step2 (a % 4 * 16) _ _ (omega arith)
    ∙ ap (λ o. add_byte (some (0 + a / 4 * 4 + a % 4 * 16 / 16)) o) (decode_end (b'=' ∷ []) _)
    ∙ ap (λ x. some (x ∷ [])) v1
base64_loop (a ∷ b ∷ []) (f, (g, h)) =
    let v1 : 0 + a / 4 * 4 + (a % 4 * 16 + b / 16) / 16 ≡ a = omega arith in
    let v2 : (a % 4 * 16 + b / 16) * 16 % 256 + b % 16 * 4 / 4 ≡ b = omega arith in
    step8 (a / 4) _ (omega arith)
    ∙ step2 (a % 4 * 16 + b / 16) _ _ (omega arith)
    ∙ ap (λ o. add_byte (some (0 + a / 4 * 4 + (a % 4 * 16 + b / 16) / 16)) o)
        (step4 (b % 16 * 4) _ _ (omega arith)
          ∙ ap (λ o. add_byte (some ((a % 4 * 16 + b / 16) * 16 % 256 + b % 16 * 4 / 4)) o)
              (decode_end [] _))
    ∙ ap (λ x. some (x ∷ ((a % 4 * 16 + b / 16) * 16 % 256 + b % 16 * 4 / 4) ∷ [])) v1
    ∙ ap (λ y. some (a ∷ y ∷ [])) v2
base64_loop (a ∷ b ∷ c ∷ s) (f, (g, (h, hs))) =
    three_bytes a b c (base64encode s) f g h
    ∙ ap (λ o. add_byte (some a) (add_byte (some b) (add_byte (some c) o))) (base64_loop s hs)

-- Decoding what `base64encode` wrote gives the data back, whatever bytes it holds.
pub base64decode-base64encode : (s : Bytes) → All IsByte s → base64decode (base64encode s) ≡ some s
unfolding base64decode
base64decode-base64encode s h = base64_loop s h
