-- ===== src/Cf/Parse/Levels.antt =====
-- lib/cf.c parsefile: the depth of the blocks goes with the indentation.
use ashd.Base.{
  ltb, if◌then◌else◌, ltb→lt, lt→ltb, Bool-cases, ◌>>=◌, length, Bytes, codes, strcmp, lower, ℕ,
  zero, suc, ◌+◌, ◌≤◌, ◌<◌, ◌≡◌, refl, ap, ◌∙◌, inl, inr, Bool, true, false, Option, none, some,
  List, [], ◌∷◌, arith,
}
use ashd.Cf.Parse.{
  Parser, top, start_line, end_line, begins_with, is_illegal, indst_size, deepen, dedent,
  end_expected, reindent, directive,
}

-- The depth behind a line: one more where a block begins, one less where it ends, and `none` if
-- there is none to end.
abbrev pub depth_after : Bool → List Bytes → ℕ → Option ℕ
depth_after expected w d =
    if begins_with (codes "start") w
    then some (d + 1)
    else if begins_with (codes "end") w
    then elim d [ zero ↦ none | suc d' ↦ some d' ]
    else some (if expected then d + 1 else d)

module _ (expects : List (List Bytes) → Bool) where
  abbrev pub depth : List (List Bytes) → Option ℕ
  depth [] = some 0
  depth (w ∷ out) = depth out >>= depth_after (expects (w ∷ out)) w

  abbrev open_levels : List ℕ → Bool → ℕ
  open_levels indst expstart = length indst + (if expstart then 1 else 0)

  -- The depth is that of the indentation, and one more if a block is expected.
  abbrev pub Stands : List ℕ → Parser → Type 0
  Stands indst s = depth s.out ≡ some (open_levels indst s.expstart)

  -- The same where none is expected.
  abbrev pub Rests : List ℕ → Parser → Type 0
  Rests indst s = (depth s.out ≡ some (length indst)) × (s.expstart ≡ false)

  depth-start :
      (out : List (List Bytes)) (d : ℕ)
      → depth out ≡ some d
      → depth (start_line ∷ out) ≡ some (d + 1)
  unfolding strcmp
  depth-start out d e = rw e refl

  depth-end :
      (out : List (List Bytes)) (d : ℕ) → depth out ≡ some (suc d) → depth (end_line ∷ out) ≡ some d
  unfolding strcmp
  depth-end out d e = rw e refl

  -- The innermost level comes first, and is above the next one and above their number.
  abbrev pub IsStacked : List ℕ → Type 0
  IsStacked [] = Unit
  IsStacked (level ∷ indst) = (top indst < level) × (length indst < level) × IsStacked indst

  -- The levels are written within `indst`, and no block is expected.
  abbrev pub Reaches : Option (List ℕ × Parser) → Type 0
  Reaches o =
      (indst : List ℕ) × (s : Parser) × (o ≡ some (indst, s)) × Rests indst s × IsStacked indst

  length-IsStacked : (indst : List ℕ) → IsStacked indst → length indst ≤ top indst
  length-IsStacked [] h = omega arith
  length-IsStacked (level ∷ indst) (t, l, h) = omega arith

  deepen-Reaches :
      (ind : ℕ) (indst : List ℕ) (s : Parser)
      → ind < indst_size
      → top indst < ind
      → IsStacked indst
      → Stands indst s
      → Reaches (deepen ind indst s)
  unfolding deepen
  deepen-Reaches ind indst s small deeper k h =
      let few = length-IsStacked indst k in
      let fits : ltb (length indst + 1) indst_size ≡ true = lt→ltb _ _ (omega arith) in
      let stacked : IsStacked (ind ∷ indst) = (deeper, omega arith, k) in
      elim (Bool-cases s.expstart) [
        | inl waits ↦
            rw (fits, waits) (_, _, refl, (h ∙ ap some (rw waits (omega arith)), refl), stacked)
        | inr none_waits ↦
            rw (fits, none_waits)
              (
                _,
                _,
                refl,
                (
                  depth-start s.out (length indst) (h ∙ ap some (rw none_waits (omega arith)))
                      ∙ ap some (omega arith),
                  refl,
                ),
                stacked,
              )
      ]

  end_expected-Rests : (indst : List ℕ) (s : Parser) → Stands indst s → Rests indst (end_expected s)
  unfolding end_expected
  end_expected-Rests indst s h = elim (Bool-cases s.expstart) [
    | inl waits ↦
        rw waits (depth-end s.out (length indst) (h ∙ ap some (rw waits (omega arith))), refl)
    | inr none_waits ↦ rw none_waits (h ∙ ap some (rw none_waits (omega arith)), refl)
  ]

  dedent-depth :
      (ind : ℕ) (indst : List ℕ) (out : List (List Bytes))
      → depth out ≡ some (length indst)
      → depth (dedent ind indst out).1 ≡ some (length (dedent ind indst out).0)
  unfolding dedent
  dedent-depth ind [] out h = h
  dedent-depth ind (level ∷ indst) out h = elim (Bool-cases (ltb ind level)) [
    | inl lower ↦
        rw lower (dedent-depth ind indst (end_line ∷ out) (depth-end out (length indst) h))
    | inr stays ↦ rw stays h
  ]

  pub Rests-Stands : (indst : List ℕ) (s : Parser) → Rests indst s → Stands indst s
  Rests-Stands indst s (d, e) = d ∙ ap some (rw e (omega arith))

  dedent-IsStacked :
      (ind : ℕ) (indst : List ℕ) (out : List (List Bytes))
      → IsStacked indst
      → IsStacked (dedent ind indst out).0
  unfolding dedent
  dedent-IsStacked ind [] out h = tt
  dedent-IsStacked ind (level ∷ indst) out (t, l, h) = elim (Bool-cases (ltb ind level)) [
    | inl ends ↦ rw ends (dedent-IsStacked ind indst (end_line ∷ out) h)
    | inr stays ↦ rw stays (t, l, h)
  ]

  pub reindent-Reaches :
      (ind : ℕ) (indst : List ℕ) (s : Parser)
      → ind < indst_size
      → IsStacked indst
      → Stands indst s
      → Reaches (reindent ind indst s)
  unfolding reindent
  reindent-Reaches ind indst s small k h =
      let (d, e) = end_expected-Rests indst s h in
      let levels = dedent-depth ind indst (end_expected s).out d in
      let kept = dedent-IsStacked ind indst (end_expected s).out k in
      let (indst', out) = dedent ind indst (end_expected s).out in
      let same : Parser = record { expstart = (end_expected s).expstart; out = out } in
      let here : Rests indst' same = (levels, e) in
      elim (Bool-cases (ltb (top indst) ind)) [
        | inl deeper ↦ rw deeper (deepen-Reaches ind indst s small (ltb→lt _ _ deeper) k h)
        | inr level ↦ elim (Bool-cases (ltb (top indst') ind)) [
          | inl again ↦
              rw (level, again)
                (deepen-Reaches ind indst' same small (ltb→lt _ _ again) kept
                  (Rests-Stands indst' same here))
          | inr met ↦ rw (level, met) (indst', same, refl, here, kept)
        ]
      ]

  dedent_all :
      (indst : List ℕ) (out : List (List Bytes)) → IsStacked indst → (dedent 0 indst out).0 ≡ []
  unfolding dedent
  dedent_all [] out h = refl
  dedent_all (level ∷ indst) out (t, l, h) =
      let lower : ltb 0 level ≡ true = ground arith in
      rw lower (dedent_all indst (end_line ∷ out) h)

  -- At the end of the file all levels end.
  pub reindent_all :
      (indst : List ℕ) (s : Parser)
      → IsStacked indst
      → Stands indst s
      → (s' : Parser) × (reindent 0 indst s ≡ some ([], s')) × Rests [] s'
  unfolding reindent
  reindent_all indst s k h =
      let (d, e) = end_expected-Rests indst s h in
      let levels = dedent-depth 0 indst (end_expected s).out d in
      let gone = dedent_all indst (end_expected s).out k in
      let level : ltb (top indst) 0 ≡ false = ground arith in
      let met : ltb (top (dedent 0 indst (end_expected s).out).0) 0 ≡ false = ground arith in
      rw (level, met)
        (
          record {
            expstart = (end_expected s).expstart;
            out = (dedent 0 indst (end_expected s).out).1;
          },
          ap
              (λ l. some (
                l,
                record {
                  expstart = (end_expected s).expstart;
                  out = (dedent 0 indst (end_expected s).out).1;
                },
              ))
              gone,
          (levels ∙ ap (λ l. some (length l)) gone, e),
        )

  pub directive-Stands :
      (w : List Bytes) (indst : List ℕ) (s : Parser)
      → Rests indst s
      → Stands indst (directive expects w s)
  unfolding directive
  directive-Stands w indst s (d, e) = elim (Bool-cases (is_illegal w)) [
    | inl illegal ↦ rw illegal (Rests-Stands indst s (d, e))
    | inr legal ↦
        let no_start : begins_with (codes "start") w ≡ false = ground arith in
        let no_end : begins_with (codes "end") w ≡ false = ground arith in
        elim (Bool-cases (expects (w ∷ s.out))) [
          | inl block ↦ rw (legal, e, block, d, no_start, no_end) refl
          | inr plain ↦ rw (legal, e, plain, d, no_start, no_end) (ap some (omega arith))
        ]
  ]
