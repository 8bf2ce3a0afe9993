-- ===== src/Bufio/Read/Stream.antt =====
-- A buffered stream reads as the sequence of the bytes that its source still has.
use ashd.Base.{
  ltb, ◌==◌, if◌then◌else◌, ltb→lt, Bool-cases, length, drop, length-append, length-drop, Bytes, ℕ,
  zero, suc, ◌+◌, ◌-◌, ◌*◌, ◌≤◌, ◌<◌, ◌≡◌, refl, sym, ap, ◌∙◌, ◌⊎◌, inl, inr, Bool, true, false,
  not, ◌&&◌, [], ◌∷◌, ◌++◌, append_assoc, arith,
}
use ashd.Bufio.{Io, done, failed, Ops, Bufio, sizebuf, double_until}
use ashd.Bufio.Read.{rewind, make_room, shrink, prepare, take_in, biofill}

double_until_enough :
    (fuel n wanted : ℕ) → 0 < n → wanted < n + fuel + 1 → wanted ≤ double_until fuel n wanted
unfolding double_until
double_until_enough zero n wanted p l = omega arith
double_until_enough (suc fuel) n wanted p l =
    ground (arith, double_until_enough fuel (n * 2) wanted)

pub sizebuf_enough :
    (size wanted : ℕ) → (wanted ≤ sizebuf size wanted) × (size ≤ sizebuf size wanted)
unfolding sizebuf
sizebuf_enough size wanted =
    ground (arith, double_until_enough wanted size wanted, double_until_enough wanted 1 wanted)

pub drop_all : (n : ℕ) (xs : Bytes) → length xs ≤ n → drop n xs ≡ []
drop_all zero [] l = refl
drop_all zero (x ∷ xs) l = absurd (omega arith)
drop_all (suc n) [] l = refl
drop_all (suc n) (x ∷ xs) l = drop_all n xs (omega arith)

pub drop-append : (n : ℕ) (xs ys : Bytes) → n ≤ length xs → drop n (xs ++ ys) ≡ drop n xs ++ ys
drop-append zero xs ys l = refl
drop-append (suc n) [] ys l = absurd (omega arith)
drop-append (suc n) (x ∷ xs) ys l = drop-append n xs ys (omega arith)

pub drop_one :
    (n : ℕ) (xs : Bytes) (c : ℕ) (rest : Bytes) → drop n xs ≡ c ∷ rest → drop (n + 1) xs ≡ rest
drop_one zero (x ∷ xs) c rest e = cc
drop_one zero [] c rest e = cc
drop_one (suc n) [] c rest e = cc
drop_one (suc n) (x ∷ xs) c rest e =
    let next : suc n + 1 ≡ suc (n + 1) = omega arith in rw next (drop_one n xs c rest e)

module _ {S : Type 0} (ops : Ops S) (content : S → Bytes) where
  -- What a read of at most `n` bytes may come to: an error, which loses nothing; bytes that are
  -- the next ones; or the end, if there are none.
  abbrev pub Took : ℕ → S → Io Bytes × S → Type 0
  Took n s (failed e, s') = content s' ≡ content s
  Took n s (done bytes, s') =
      (content s ≡ bytes ++ content s') × (length bytes ≤ n) × (bytes ≡ [] → content s ≡ [])

  pub record IsSource : Type 0 where
    pub readable : ops.can_read ≡ true
    pub reads : (n : ℕ) (s : S) → 0 < n → Took n s (ops.read n s)

  -- What is still to be read.
  abbrev pub unread : Bufio S → Bytes
  unread bio = drop bio.rh bio.rbuf ++ content bio.pdata

  pub record IsReader (bio : Bufio S) : Type 0 where
    pub head : bio.rh ≤ length bio.rbuf
    pub fits : length bio.rbuf ≤ bio.rsize
    pub hint : 0 < bio.bufhint
    pub ended : bio.eof ≡ true → content bio.pdata ≡ []

  -- The buffer is another one, and what is to be read is the same.
  record Keeps (bio bio' : Bufio S) : Type 0 where
    reader : IsReader bio'
    same : drop bio'.rh bio'.rbuf ≡ drop bio.rh bio.rbuf
    source : bio'.pdata ≡ bio.pdata

  unread_same : (a b : Bufio S) → Keeps a b → unread b ≡ unread a
  unread_same a b k = rw (k.same, k.source) refl

  rewind-Keeps : (bio : Bufio S) → IsReader bio → Keeps bio (rewind bio)
  unfolding rewind
  rewind-Keeps bio r = elim (Bool-cases (bio.rh == length bio.rbuf)) [
    | inl empty ↦ rw empty (record {
      reader = record { head = omega arith; fits = omega arith; hint = r.hint; ended = r.ended };
      same = sym (drop_all bio.rh bio.rbuf (ground arith));
      source = refl;
    })
    | inr more ↦ rw more (record { reader = r; same = refl; source = refl })
  ]

  make_room-Keeps :
      (bio : Bufio S)
      → IsReader bio
      → Keeps bio (make_room bio) × (length (make_room bio).rbuf < (make_room bio).rsize)
  unfolding make_room
  make_room-Keeps bio r = elim (Bool-cases (length bio.rbuf == bio.rsize)) [
    | inr space ↦
        rw space (record { reader = r; same = refl; source = refl }, ground (arith, r.fits))
    | inl full ↦ elim (Bool-cases (ltb 0 bio.rh)) [
      | inl moves ↦
          let left = length-drop bio.rh bio.rbuf in
          let h = r.head in
          let f = r.fits in
          let m = ltb→lt _ _ moves in
          rw (full, moves)
            (
              record {
                reader = record {
                  head = omega arith;
                  fits = omega arith;
                  hint = r.hint;
                  ended = r.ended;
                };
                same = refl;
                source = refl;
              },
              omega arith,
            )
      | inr stays ↦
          let wanted = if ltb (bio.rsize * 2) bio.bufhint then bio.bufhint else bio.rsize * 2 in
          let (enough, more) = sizebuf_enough bio.rsize wanted in
          let h = r.hint in
          let f = r.fits in
          let larger : bio.rsize < wanted = ground arith in
          rw (full, stays)
            (
              record {
                reader = record {
                  head = r.head;
                  fits = omega arith;
                  hint = r.hint;
                  ended = r.ended;
                };
                same = refl;
                source = refl;
              },
              omega arith,
            )
    ]
  ]

  shrink-Keeps :
      (bio : Bufio S)
      → IsReader bio
      → length bio.rbuf < bio.rsize
      → Keeps bio (shrink bio) × (length (shrink bio).rbuf < (shrink bio).rsize)
  unfolding shrink
  shrink-Keeps bio r l =
      elim (Bool-cases (ltb bio.bufhint bio.rsize && ltb (length bio.rbuf) bio.bufhint)) [
        | inr stays ↦ rw stays (record { reader = r; same = refl; source = refl }, l)
        | inl shorter ↦
            let small : length bio.rbuf < bio.bufhint = ground arith in
            rw shorter (
              record {
                reader = record {
                  head = r.head;
                  fits = omega arith;
                  hint = r.hint;
                  ended = r.ended;
                };
                same = refl;
                source = refl;
              },
              small,
            )
      ]

  trans-Keeps : (a b c : Bufio S) → Keeps a b → Keeps b c → Keeps a c
  trans-Keeps a b c h k = record {
    reader = k.reader;
    same = k.same ∙ h.same;
    source = k.source ∙ h.source;
  }

  prepare-Keeps :
      (bio : Bufio S)
      → IsReader bio
      → Keeps bio (prepare bio) × (length (prepare bio).rbuf < (prepare bio).rsize)
  unfolding prepare
  prepare-Keeps bio r =
      let a = rewind-Keeps bio r in
      let (b, room) = make_room-Keeps (rewind bio) a.reader in
      let (c, room') = shrink-Keeps (make_room (rewind bio)) b.reader room in
      (
        trans-Keeps bio (make_room (rewind bio)) (prepare bio)
            (trans-Keeps bio (rewind bio) (make_room (rewind bio)) a b) c,
        room',
      )

  -- A read of the source that fails.
  abbrev pub ReadFails : Type 0
  ReadFails = (n : ℕ) × (s : S) × (e : ℕ) × ((ops.read n s).0 ≡ failed e)

  -- What biofill comes to: the stream is the same; 0 is returned at the end of the source only, and
  -- any other number is that of the bytes in the buffer, which are more than before.
  abbrev pub Filled : Bufio S → Io ℕ × Bufio S → Type 0
  Filled bio (failed e, bio') =
      IsReader bio'
      × (unread bio' ≡ unread bio)
      × (drop bio'.rh bio'.rbuf ≡ drop bio.rh bio.rbuf)
      × ReadFails
  Filled bio (done n, bio') =
      IsReader bio'
      × (unread bio' ≡ unread bio)
      × (((n ≡ 0)
            × (drop bio'.rh bio'.rbuf ≡ drop bio.rh bio.rbuf)
            × (content bio'.pdata ≡ [])
            × (bio'.eof ≡ true))
          ⊎ ((n ≡ length (drop bio'.rh bio'.rbuf)) × (length (drop bio.rh bio.rbuf) < n)))

  take_in-Filled :
      (bio : Bufio S) (a : Io Bytes × S)
      → IsReader bio
      → Took (bio.rsize - length bio.rbuf) bio.pdata a
      → ((e : ℕ) → a.0 ≡ failed e → ReadFails)
      → Filled bio (take_in bio a)
  unfolding take_in
  take_in-Filled bio (failed e, pdata) r t fails = (
    record { head = r.head; fits = r.fits; hint = r.hint; ended = λ f. t ∙ r.ended f },
    ap (λ s. drop bio.rh bio.rbuf ++ s) t,
    refl,
    fails e refl,
  )
  take_in-Filled bio (done [], pdata) r (e, l, z) fails = (
    record { head = r.head; fits = r.fits; hint = r.hint; ended = λ _. sym e ∙ z refl },
    ap (λ s. drop bio.rh bio.rbuf ++ s) (sym e),
    inl (refl, refl, sym e ∙ z refl, refl),
  )
  take_in-Filled bio (done (c ∷ bytes), pdata) r (e, l, z) fails =
      let new = c ∷ bytes in
      let whole = length-append bio.rbuf new in
      let h = r.head in
      let f = r.fits in
      let kept = drop-append bio.rh bio.rbuf new h in
      let left = length-drop bio.rh bio.rbuf in
      let left' = length-drop bio.rh (bio.rbuf ++ new) in
      (
        record {
          head = omega arith;
          fits = omega arith;
          hint = r.hint;
          ended = λ q. absurd (nil_or_cons (sym e ∙ r.ended q));
        },
        ap (λ s. s ++ content pdata) kept
            ∙ append_assoc (drop bio.rh bio.rbuf) new (content pdata)
            ∙ ap (λ s. drop bio.rh bio.rbuf ++ s) (sym e),
        inr (sym left', omega arith),
      )
    where
      nil_or_cons : {c : ℕ} {s : Bytes} → c ∷ s ≡ [] → ⊥
      nil_or_cons q = cc

  Filled-Keeps : (a b : Bufio S) (r : Io ℕ × Bufio S) → Keeps a b → Filled b r → Filled a r
  Filled-Keeps a b (failed e, bio') k (r, u, d, x) = (r, u ∙ unread_same a b k, d ∙ k.same, x)
  Filled-Keeps a b (done n, bio') k (r, u, inl (z, d, c, f)) =
      (r, u ∙ unread_same a b k, inl (z, d ∙ k.same, c, f))
  Filled-Keeps a b (done n, bio') k (r, u, inr (e, l)) =
      (r, u ∙ unread_same a b k, inr (e, rw⁻¹ k.same l))

  choose :
      (readable at_end : Bool) (bio : Bufio S) (a b c : Io ℕ × Bufio S)
      → readable ≡ true
      → (at_end ≡ true → Filled bio b)
      → (at_end ≡ false → Filled bio c)
      → Filled bio (if not readable then a else if at_end then b else c)
  choose true true bio a b c e f g = f refl
  choose true false bio a b c e f g = g refl
  choose false at_end bio a b c e f g = absurd (cc)

  pub biofill-Filled : IsSource → (bio : Bufio S) → IsReader bio → Filled bio (biofill ops bio)
  unfolding biofill
  biofill-Filled source bio r =
      let (k, room) = prepare-Keeps bio r in
      let ready = prepare bio in
      let free = ready.rsize - length ready.rbuf in
      let answer = ops.read free ready.pdata in
      choose ops.can_read bio.eof bio (done 0, record bio { eof = true }) (done 0, bio)
        (take_in ready answer) source.readable (λ e. (r, refl, inl (refl, refl, r.ended e, e)))
        (λ _. Filled-Keeps bio ready (take_in ready answer) k (
          take_in-Filled ready answer k.reader (source.reads free ready.pdata (omega arith))
            (λ e q. (free, ready.pdata, e, q))))
