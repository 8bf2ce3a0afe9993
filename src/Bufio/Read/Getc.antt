-- ===== src/Bufio/Read/Getc.antt =====
-- lib/bufio.c biogetc and bioreadsome, on the stream of bytes.
use ashd.Base.{
  leb, ◌==◌, if◌then◌else◌, Bool-cases, length, take, drop, take-append-drop, length-drop,
  length-take, drop_add, drop_taken, Bytes, ℕ, zero, suc, ◌+◌, ◌≤◌, ◌<◌, ◌≡◌, refl, sym, ap, ◌∙◌,
  ◌⊎◌, inl, inr, false, Option, none, some, [], ◌∷◌, ◌++◌, append_assoc, arith,
}
use ashd.Bufio.{Io, done, failed, Ops, Bufio}
use ashd.Bufio.Read.{biofill, getc_loop, biogetc, read_there, bioreadsome}
use ashd.Bufio.Read.Stream.{
  drop_all, drop_one, IsReader, unread, ReadFails, IsSource, Filled, biofill-Filled,
}

module _ {S : Type 0} (ops : Ops S) (content : S → Bytes) where
  -- What reading a byte comes to: the next one, or EOF, which stands for the end of the stream or
  -- for an error of the source.
  abbrev pub Gets : Bufio S → Option ℕ × Bufio S → Type 0
  Gets bio (some c, bio') =
      IsReader ops content bio' × (unread ops content bio ≡ c ∷ unread ops content bio')
  Gets bio (none, bio') =
      IsReader ops content bio'
      × (unread ops content bio' ≡ unread ops content bio)
      × ((unread ops content bio ≡ []) ⊎ ReadFails ops content)

  get_there :
      (bio : Bufio S) (c : ℕ) (rest : Bytes)
      → IsReader ops content bio
      → drop bio.rh bio.rbuf ≡ c ∷ rest
      → Gets bio (some c, record bio { rh = bio.rh + 1 })
  get_there bio c rest r e =
      let left = length-drop bio.rh bio.rbuf in
      let some_left = ap length e in
      (
        record { head = omega arith; fits = r.fits; hint = r.hint; ended = r.ended },
        rw (e, drop_one bio.rh bio.rbuf c rest e) refl,
      )

  same-Gets :
      (a b : Bufio S) (g : Option ℕ × Bufio S)
      → unread ops content b ≡ unread ops content a
      → Gets b g
      → Gets a g
  same-Gets a b (some c, bio') u (r, e) = (r, sym u ∙ e)
  same-Gets a b (none, bio') u (r, e, inl z) = (r, e ∙ u, inl (sym u ∙ z))
  same-Gets a b (none, bio') u (r, e, inr f) = (r, e ∙ u, inr f)

  getc_loop-Gets :
      IsSource ops content
      → (fuel : ℕ) (bio : Bufio S) → IsReader ops content bio
      → (length (drop bio.rh bio.rbuf) ≡ 0 → 1 < fuel)
      → 0 < fuel
      → Gets bio (getc_loop ops fuel bio)
  unfolding getc_loop
  getc_loop-Gets source zero bio r p l = absurd (omega arith)
  getc_loop-Gets source (suc fuel) bio r p l =
      go (drop bio.rh bio.rbuf) refl (biofill ops bio) (biofill-Filled ops content source bio r)
        (λ b. getc_loop-Gets source fuel b)
    where
      go :
          (left : Bytes)
          → drop bio.rh bio.rbuf ≡ left
          → (filled : Io ℕ × Bufio S) → Filled ops content bio filled
          → ((b : Bufio S)
              → IsReader ops content b
              → (length (drop b.rh b.rbuf) ≡ 0 → 1 < fuel)
              → 0 < fuel
              → Gets b (getc_loop ops fuel b))
          → Gets bio (elim left [
            | c ∷ rest ↦ (some c, record bio { rh = bio.rh + 1 })
            | [] ↦ elim filled.0 [
              | failed e ↦ (none, filled.1)
              | done n ↦ if n == 0 then (none, filled.1) else getc_loop ops fuel filled.1
            ]
          ])
      go (c ∷ rest) e filled f next = get_there bio c rest r e
      go [] e (failed x, bio') (r', u, d, fails) next = (r', u, inr fails)
      go [] e (done n, bio') (r', u, inl (z, d, c, _)) next =
          rw z (r', u, inl (sym u ∙ rw (d, e, c) refl))
      go [] e (done n, bio') (r', u, inr (m, l')) next =
          let some_there : (n == 0) ≡ false = ground arith in
          let empty : length (drop bio.rh bio.rbuf) ≡ 0 = ap length e in
          let again = p empty in
          rw some_there (
            same-Gets bio bio' (getc_loop ops fuel bio') u
              (next bio' r' (λ z. absurd (omega arith)) (omega arith)))

  -- Reading some bytes: the next ones, no more than asked for, and none only at the end.
  abbrev pub GetsSome : ℕ → Bufio S → Io Bytes × Bufio S → Type 0
  GetsSome len bio (failed e, bio') =
      IsReader ops content bio'
      × (unread ops content bio' ≡ unread ops content bio)
      × ReadFails ops content
  GetsSome len bio (done bytes, bio') =
      IsReader ops content bio'
      × (unread ops content bio ≡ bytes ++ unread ops content bio')
      × (length bytes ≤ len)
      × (bytes ≡ [] → 0 < len → unread ops content bio ≡ [])

  read_there-GetsSome :
      (len : ℕ) (bio : Bufio S)
      → IsReader ops content bio
      → 0 < length (drop bio.rh bio.rbuf)
      → GetsSome len bio (read_there len bio)
  unfolding read_there
  read_there-GetsSome len bio r p =
      let there = drop bio.rh bio.rbuf in
      let bytes = take len there in
      let left = length-drop bio.rh bio.rbuf in
      let size = length-take len there in
      let h = r.head in
      (
        record { head = omega arith; fits = r.fits; hint = r.hint; ended = r.ended },
        ap (λ s. s ++ content bio.pdata)
              (sym (take-append-drop len there)
                ∙ ap (λ s. bytes ++ s)
                    (drop_taken len there ∙ drop_add bio.rh (length bytes) bio.rbuf))
            ∙ append_assoc bytes (drop (bio.rh + length bytes) bio.rbuf) (content bio.pdata),
        omega arith,
        λ e q. let none_there = ap length e in absurd (omega arith),
      )

  same-GetsSome :
      (len : ℕ) (a b : Bufio S) (g : Io Bytes × Bufio S)
      → unread ops content b ≡ unread ops content a
      → GetsSome len b g
      → GetsSome len a g
  same-GetsSome len a b (failed e, bio') u (r, k, f) = (r, k ∙ u, f)
  same-GetsSome len a b (done bytes, bio') u (r, k, l, z) = (r, sym u ∙ k, l, λ e q. sym u ∙ z e q)

  bioreadsome-GetsSome :
      IsSource ops content
      → (len : ℕ) (bio : Bufio S) → IsReader ops content bio
      → GetsSome len bio (bioreadsome ops len bio)
  unfolding bioreadsome
  bioreadsome-GetsSome source len bio r = elim (Bool-cases (leb (length bio.rbuf) bio.rh)) [
    | inr there ↦
        let left = length-drop bio.rh bio.rbuf in
        let more : bio.rh < length bio.rbuf = ground arith in
        rw there (read_there-GetsSome len bio r (omega arith))
    | inl empty ↦ rw empty (
        go (biofill ops bio) (biofill-Filled ops content source bio r)
          (drop_all bio.rh bio.rbuf (ground arith)))
  ]
    where
      go :
          (filled : Io ℕ × Bufio S)
          → Filled ops content bio filled
          → drop bio.rh bio.rbuf ≡ []
          → GetsSome len bio (elim filled.0 [
            | failed e ↦ (failed e, filled.1)
            | done n ↦ if n == 0 then (done [], filled.1) else read_there len filled.1
          ])
      go (failed e, bio') (r', u, d, fails) z = (r', u, fails)
      go (done n, bio') (r', u, inl (e, d, c, _)) z =
          rw e (r', sym u, omega arith, λ _ _. sym u ∙ rw (d, z, c) refl)
      go (done n, bio') (r', u, inr (e, l)) z =
          let some_there : (n == 0) ≡ false = ground arith in
          rw some_there (
            same-GetsSome len bio bio' (read_there len bio') u
              (read_there-GetsSome len bio' r' (omega arith)))

  -- Over a source that gives its bytes in order, biogetc gives the next byte of the stream, and EOF
  -- only at its end or where a read of the source fails; bioreadsome gives the next bytes, no more
  -- than asked for, and none only at the end; nothing is lost, doubled or passed over by either, and
  -- biofill never asks the source for more bytes than there is room for, nor for none.
  pub bio-Gets :
      IsSource ops content
      → (bio : Bufio S) → IsReader ops content bio
      → Gets bio (biogetc ops bio) × ((len : ℕ) → GetsSome len bio (bioreadsome ops len bio))
  unfolding biogetc
  bio-Gets source bio r = (
    getc_loop-Gets source 2 bio r (λ _. omega arith) (omega arith),
    λ len. bioreadsome-GetsSome source len bio r,
  )
