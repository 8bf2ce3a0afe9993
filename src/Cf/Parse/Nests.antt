-- ===== src/Cf/Parse/Nests.antt =====
-- What getcfline gives is a sequence of blocks: every start and every block that was expected has
-- its end.
use ashd.Base.{
  Bool-cases, All, Bytes, codes, cstr, strcmp, ℕ, zero, suc, ◌<◌, ◌≡◌, refl, inl, inr, Bool, true,
  false, Option, none, some, List, [], ◌∷◌,
}
use ashd.Utils.Tokenize.{tokenize}
use ashd.Cf.Lines.{file_lines, strip_end, indentation, is_blank}
use ashd.Cf.Parse.{
  Files, Parser, eof_line, begins_with, indst_size, directive, include_spec, include_files,
  doincludes, take_words, parse_line, parse_lines, parsefile, parsefn,
}
use ashd.Cf.Parse.Levels.{
  Stands, Rests, Rests-Stands, reindent-Reaches, directive-Stands, IsStacked, reindent_all, depth,
}

-- What stands of a line when the space at its end is cut off.
abbrev pub stripped : Bytes → Bytes
stripped buf = strip_end (cstr buf)

abbrev pub arguments : List Bytes → List Bytes
arguments [] = []
arguments (w ∷ args) = args

module _ (fs : Files) where
  -- Every file that an include brings in is good.
  abbrev pub Includes : (Bytes → Bytes → Type 0) → Bytes → Bytes → Type 0
  Includes Good file spec =
      All (λ path. (text : Bytes) → fs.fopen path ≡ some text → Good path text)
        (fs.glob (include_spec fs file spec))

  -- The line is not indented by more than the bound of `indst` allows, its words end on it, and the
  -- files that it includes are good.
  abbrev pub LegibleLine : (Bytes → Bytes → Type 0) → Bytes → Bytes → Type 0
  LegibleLine Good file buf =
      is_blank (indentation 0 (stripped buf)).1 ≡ false
      → ((indentation 0 (stripped buf)).0 < indst_size)
        × (w : List Bytes) × (tokenize (stripped buf) ≡ some w)
        × (begins_with (codes "include") w ≡ true → All (Includes Good file) (arguments w))

  -- All lines are legible, and files include one another at most `fuel` deep.
  unfoldable pub Legible : ℕ → Bytes → Bytes → Type 0
  Legible zero file text = ⊥
  Legible (suc fuel) file text = All (LegibleLine (Legible fuel) file) (file_lines text)

  module _ (expects : List (List Bytes) → Bool) where
    -- The parser comes to a state in which no block is open.
    abbrev Returns : List ℕ → Option Parser → Type 0
    Returns indst o = (s : Parser) × (o ≡ some s) × Rests expects indst s

    module _ (parse : Bytes → Bytes → Parser → Option Parser) (Good : Bytes → Bytes → Type 0)
        (parses : (file text : Bytes) (s : Parser)
          → Good file text
          → Rests expects [] s
          → Returns [] (parse file text s)) where
      include_files-Returns :
          (paths : List Bytes) (s : Parser)
          → All (λ path. (text : Bytes) → fs.fopen path ≡ some text → Good path text) paths
          → Rests expects [] s
          → Returns [] (include_files expects fs parse paths s)
      unfolding include_files
      include_files-Returns [] s g h = (s, refl, h)
      include_files-Returns (path ∷ paths) s (g, gs) h =
          go (fs.fopen path) refl (λ s' h'. include_files-Returns paths s' gs h')
        where
          go :
              (o : Option Bytes)
              → fs.fopen path ≡ o
              → ((s' : Parser)
                  → Rests expects [] s'
                  → Returns [] (include_files expects fs parse paths s'))
              → Returns [] (elim o [
                | none ↦ include_files expects fs parse paths s
                | some text ↦ elim (parse path text s) [
                  | none ↦ none
                  | some s' ↦ include_files expects fs parse paths s'
                ]
              ])
          go none e next = next s h
          go (some text) e next =
              let (s', f, h') = parses path text s (g text e) h in rw f (next s' h')

      doincludes-Returns :
          (file : Bytes) (specs : List Bytes) (s : Parser)
          → All (Includes Good file) specs
          → Rests expects [] s
          → Returns [] (doincludes expects fs parse file specs s)
      unfolding doincludes
      doincludes-Returns file [] s g h = (s, refl, h)
      doincludes-Returns file (spec ∷ specs) s (g, gs) h =
          let (s', f, h') = include_files-Returns (fs.glob (include_spec fs file spec)) s g h in
          rw (doincludes, f) (doincludes-Returns file specs s' gs h')

      -- Behind a line, where a block may be expected.
      abbrev Goes : List ℕ → Option Parser → Type 0
      Goes indst o = (s : Parser) × (o ≡ some s) × Stands expects indst s

      take_words-Goes :
          (file : Bytes) (indst : List ℕ) (w : List Bytes) (s : Parser)
          → (begins_with (codes "include") w ≡ true → All (Includes Good file) (arguments w))
          → Rests expects indst s
          → Goes indst (take_words expects fs parse file indst w s)
      unfolding take_words
      take_words-Goes file indst [] s g h = (s, refl, Rests-Stands expects indst s h)
      take_words-Goes file [] (w ∷ args) s g h = elim (Bool-cases (strcmp w (codes "include"))) [
        | inl includes ↦
            let (s', f, h') = doincludes-Returns file args s (g includes) h in
            rw includes (s', f, Rests-Stands expects [] s' h')
        | inr other ↦
            rw other
              (directive expects (w ∷ args) s, refl, directive-Stands expects (w ∷ args) [] s h)
      ]
      take_words-Goes file (level ∷ indst) (w ∷ args) s g h = (
        directive expects (w ∷ args) s,
        refl,
        directive-Stands expects (w ∷ args) (level ∷ indst) s h,
      )

      parse_line-Goes :
          (file buf : Bytes) (indst : List ℕ) (s : Parser)
          → LegibleLine Good file buf
          → Stands expects indst s
          → IsStacked expects indst
          → (indst' : List ℕ) × (s' : Parser) × (parse_line expects fs parse file buf indst s
              ≡ some (indst', s'))
            × Stands expects indst' s'
            × IsStacked expects indst'
      unfolding parse_line
      parse_line-Goes file buf indst s g h deep =
          let (ind, text) = indentation 0 (stripped buf) in
          elim (Bool-cases (is_blank text)) [
            | inl blank ↦ rw blank (indst, s, refl, h, deep)
            | inr told ↦
                let (small, w, f, incs) = g told in
                let (indst', after, r, rests, deep') =
                  reindent-Reaches expects ind indst s small deep h in
                let (s', t, h') = take_words-Goes file indst' w after incs rests in
                rw (told, r, f, t) (indst', s', refl, h', deep')
          ]

      parse_lines-Returns :
          (file : Bytes) (bufs : List Bytes) (indst : List ℕ) (s : Parser)
          → All (LegibleLine Good file) bufs
          → Stands expects indst s
          → IsStacked expects indst
          → Returns [] (parse_lines expects fs parse file bufs indst s)
      unfolding parse_lines
      parse_lines-Returns file [] indst s g h deep =
          let (s', r, rests) = reindent_all expects indst s deep h in
          rw (parse_lines, r) (s', refl, rests)
      parse_lines-Returns file (buf ∷ bufs) indst s (g, gs) h deep =
          let (indst', s', f, h', deep') = parse_line-Goes file buf indst s g h deep in
          rw (parse_lines, f) (parse_lines-Returns file bufs indst' s' gs h' deep')

    parsefile-Returns :
        (fuel : ℕ) (file text : Bytes) (s : Parser)
        → Legible fuel file text
        → Rests expects [] s
        → Returns [] (parsefile expects fs fuel file text s)
    unfolding parsefile Legible
    parsefile-Returns zero file text s g h = absurd g
    parsefile-Returns (suc fuel) file text s g h =
        parse_lines-Returns (parsefile expects fs fuel) (Legible fuel) (parsefile-Returns fuel) file
          (file_lines text) [] s g (Rests-Stands expects [] s h) tt

    -- Where every line is indented by less than 80 and its words end on it, and the files include
    -- one another no deeper than the fuel, the parser comes to the end of the file without a write
    -- outside of `indst`, and the lines that it has yielded by then are a sequence of blocks: no end
    -- is without its start or its expected block, and none of these is left open.
    pub parsefn-depth :
        (fuel : ℕ) (file text : Bytes)
        → Legible fuel file text
        → (out : List (List Bytes)) × (parsefn expects fs fuel file text ≡ some (eof_line ∷ out))
          × (depth expects out ≡ some 0)
    unfolding parsefn
    parsefn-depth fuel file text g =
        let (s, f, (d, _)) =
          parsefile-Returns fuel file text (record { expstart = false; out = [] }) g (refl, refl) in
        rw (parsefn, f) (s.out, refl, d)
