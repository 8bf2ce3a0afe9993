-- ===== src/Fcgi/Params.antt =====
-- src/callfcgi.c bufcatkv: the variables of a request, as FastCGI carries them. The lengths are
-- those of C strings.
use ashd.Base.{
  ltb, leb, if◌then◌else◌, le→leb, Bool-cases, ◌>>=◌, length, take, drop, length-append,
  take-length-append, drop-length-append, All, Bytes, ℕ, zero, suc, ◌+◌, ◌-◌, ◌*◌, ◌/◌, ◌%◌, ◌<◌,
  ◌≡◌, refl, sym, ap, ◌∙◌, inl, inr, true, false, Option, none, some, List, [], ◌∷◌, ◌++◌,
  append-nil, append_assoc, arith,
}

abbrev pub Variable : Type 0
Variable = Bytes × Bytes

-- A length, in one byte or in four.
unfoldable pub put_length : ℕ → Bytes
put_length n =
    if ltb n 128
    then n ∷ []
    else (n / 16777216 % 128 + 128) ∷ n / 65536 % 256 ∷ n / 256 % 256 ∷ n % 256 ∷ []

unfoldable pub bufcatkv : Bytes → Variable → Bytes
unfolding put_length
bufcatkv dst (key, val) =
    dst ++ (put_length (length key) ++ (put_length (length val) ++ (key ++ val)))

-- The buffer after all of them.
unfoldable pub bufcatenv : Bytes → List Variable → Bytes
unfolding bufcatkv
bufcatenv dst [] = dst
bufcatenv dst (v ∷ vars) = bufcatenv (bufcatkv dst v) vars

-- How a FastCGI server reads them.
abbrev read_length : Bytes → Option (ℕ × Bytes)
read_length [] = none
read_length (b ∷ []) = if ltb b 128 then some (b, []) else none
read_length (b ∷ c ∷ []) = if ltb b 128 then some (b, c ∷ []) else none
read_length (b ∷ c ∷ d ∷ []) = if ltb b 128 then some (b, c ∷ d ∷ []) else none
read_length (b ∷ c ∷ d ∷ e ∷ s) =
    if ltb b 128
    then some (b, c ∷ d ∷ e ∷ s)
    else some ((b - 128) * 16777216 + c * 65536 + d * 256 + e, s)

abbrev read_variable : Bytes → Option (Variable × Bytes)
read_variable s = do
  (kl, s') ← read_length s
  (vl, s'') ← read_length s'
  if leb (kl + vl) (length s'')
      then some ((take kl s'', take vl (drop kl s'')), drop vl (drop kl s''))
      else none

abbrev pub read_variables : ℕ → Bytes → Option (List Variable × Bytes)
read_variables zero s = some ([], s)
read_variables (suc n) s = do
  (v, s') ← read_variable s
  (vars, left) ← read_variables n s'
  some (v ∷ vars, left)

-- A variable that can be carried.
abbrev pub Carried : Variable → Type 0
Carried (key, val) = (length key < 2147483648) × (length val < 2147483648)

read_length_small : (n : ℕ) (s : Bytes) → ltb n 128 ≡ true → read_length (n ∷ s) ≡ some (n, s)
read_length_small n [] e = rw e refl
read_length_small n (c ∷ []) e = rw e refl
read_length_small n (c ∷ d ∷ []) e = rw e refl
read_length_small n (c ∷ d ∷ b ∷ s) e = rw e refl

read_length-put_length :
    (n : ℕ) (s : Bytes) → n < 2147483648 → read_length (put_length n ++ s) ≡ some (n, s)
unfolding put_length
read_length-put_length n s l = elim (Bool-cases (ltb n 128)) [
  | inl small ↦ rw small (read_length_small n s small)
  | inr big ↦
      let first : ltb (n / 16777216 % 128 + 128) 128 ≡ false = ground arith in
      let sum : (n / 16777216 % 128 + 128 - 128) * 16777216
            + n / 65536 % 256 * 65536
            + n / 256 % 256 * 256
            + n % 256
          ≡ n =
        omega arith in
      rw (big, first, sum) refl
]

read_variable-put :
    (key val rest : Bytes)
    → Carried (key, val)
    → read_variable (put_length (length key) ++ (put_length (length val) ++ (key ++ (val ++ rest))))
      ≡ some ((key, val), rest)
read_variable-put key val rest (k, v) =
    let tail = val ++ rest in
    let whole = length-append key tail in
    let behind = length-append val rest in
    let fits : leb (length key + length val) (length (key ++ tail)) ≡ true =
      le→leb _ _ (omega arith) in
    rw
      (
        read_length-put_length (length key) (put_length (length val) ++ (key ++ tail)) k,
        read_length-put_length (length val) (key ++ tail) v,
        fits,
        take-length-append key tail,
        drop-length-append key tail,
        take-length-append val rest,
        drop-length-append val rest,
      )
      refl

-- What bufcatkv adds, and what follows.
bufcatkv-append :
    (dst key val rest : Bytes)
    → bufcatkv dst (key, val) ++ rest
      ≡ dst ++ (put_length (length key) ++ (put_length (length val) ++ (key ++ (val ++ rest))))
unfolding bufcatkv
bufcatkv-append dst key val rest =
    let kl = put_length (length key) in
    let vl = put_length (length val) in
    append_assoc dst (kl ++ (vl ++ (key ++ val))) rest
    ∙ ap (λ s. dst ++ s)
        (append_assoc kl (vl ++ (key ++ val)) rest
          ∙ ap (λ s. kl ++ s)
              (append_assoc vl (key ++ val) rest ∙ ap (λ s. vl ++ s) (append_assoc key val rest)))

bufcatenv-append :
    (dst : Bytes) (vars : List Variable) → bufcatenv dst vars ≡ dst ++ bufcatenv [] vars
unfolding bufcatenv bufcatkv
bufcatenv-append dst [] = sym (append-nil dst)
bufcatenv-append dst (v ∷ vars) =
    bufcatenv-append (bufcatkv dst v) vars
    ∙ append_assoc dst (bufcatkv [] v) (bufcatenv [] vars)
    ∙ sym (ap (λ s. dst ++ s) (bufcatenv-append (bufcatkv [] v) vars))

-- The variables that are put into an empty buffer are read back by the rules of FastCGI, in their
-- order and whatever follows them, if each name and each value is shorter than 2^31 bytes.
pub read_variables-bufcatenv :
    (vars : List Variable) (rest : Bytes)
    → All Carried vars
    → read_variables (length vars) (bufcatenv [] vars ++ rest) ≡ some (vars, rest)
unfolding bufcatenv
read_variables-bufcatenv [] rest h = refl
read_variables-bufcatenv ((key, val) ∷ vars) rest (c, h) =
    let behind = bufcatenv [] vars ++ rest in
    let split : bufcatenv (bufcatkv [] (key, val)) vars ++ rest
        ≡ put_length (length key) ++ (put_length (length val) ++ (key ++ (val ++ behind))) =
      ap (λ s. s ++ rest) (bufcatenv-append (bufcatkv [] (key, val)) vars)
      ∙ append_assoc (bufcatkv [] (key, val)) (bufcatenv [] vars) rest
      ∙ bufcatkv-append [] key val behind in
    rw (split, read_variable-put key val behind c, read_variables-bufcatenv vars rest h) refl
