-- ===== src/HtParser/Connid.antt =====
-- src/htparser.c `connid`: the name of a connection. `cur` is the static buffer.
use ashd.Base.{
  ltb, if◌then◌else◌, ltb→lt, not-ltb→le, Bool-cases, All, Bytes, ℕ, ◌+◌, ◌-◌, ◌*◌, ◌≤◌, ◌<◌, ◌≡◌,
  inl, inr, [], ◌∷◌, arith,
}

-- The loop over `cur`, and the byte that is added when every one has wrapped.
unfoldable pub next_id : Bytes → Bytes
next_id [] = b'A' ∷ []
next_id (c ∷ cur) =
    let more = next_id cur in if ltb b'Z' (c + 1) then b'A' ∷ more else (c + 1) ∷ cur

-- The number that a name stands for: digits from 1 to 26, the lowest one first.
abbrev pub id_number : Bytes → ℕ
id_number [] = 0
id_number (c ∷ cur) = c - b'@' + 26 * id_number cur

-- Every byte is a letter from A to Z.
abbrev pub IsId : Bytes → Type 0
IsId = All (λ c. (b'A' ≤ c) × (c ≤ b'Z'))

-- After a name comes a name whose number is one more.
next_id-IsId :
    (cur : Bytes) → IsId cur → IsId (next_id cur) × (id_number (next_id cur) ≡ id_number cur + 1)
unfolding next_id
next_id-IsId [] h = omega arith
next_id-IsId (c ∷ cur) ((low, high), hs) =
    let (i, e) = next_id-IsId cur hs in
    elim (Bool-cases (ltb b'Z' (c + 1))) [
      | inl wraps ↦
          let z : b'Z' < c + 1 = ltb→lt b'Z' (c + 1) wraps in
          rw wraps (((omega arith, omega arith), i), omega arith)
      | inr goes ↦
          let z : c + 1 ≤ b'Z' = not-ltb→le b'Z' (c + 1) goes in
          rw goes (((omega arith, z), hs), omega arith)
    ]
