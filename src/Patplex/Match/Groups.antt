-- ===== src/Patplex/Match/Groups.antt =====
-- With what regexec promises, no rule reads outside of a buffer, and a rule matches as it should.
use ashd.Base.{
  length, take, drop, Bytes, cstr, ℕ, zero, suc, ◌+◌, ◌-◌, ◌≤◌, ◌<◌, ◌≡◌, refl, Option, none, some,
  List, [], ◌∷◌, arith,
}
use ashd.Req.Head.{Hthead}
use ashd.Patplex.Offsets.{Rises}
use ashd.Patplex.Match.{
  RuleType, pat_rest, pat_url, pat_method, pat_header, pat_all, Groups, offset_at, copy_group,
  copy_groups, new_rmo,
}

-- The offsets of a match lie in the text, and begin before they end.
abbrev pub Within : ℕ → ℕ × ℕ → Type 0
Within n (so, eo) = (so ≤ eo) × (eo ≤ n)

abbrev pub WithinAll : ℕ → List (Option (ℕ × ℕ)) → Type 0
WithinAll n [] = Unit
WithinAll n (none ∷ gs) = WithinAll n gs
WithinAll n (some g ∷ gs) = Within n g × WithinAll n gs

-- What regexec(3) documents of `gr`.
abbrev pub IsRegexec : {Regex : Type 0} → (Regex → Bytes → Option Groups) → Type 0
IsRegexec {Regex} regexec =
    (rx : Regex) (text : Bytes) (gr : Groups)
    → regexec rx text ≡ some gr
    → Within (length text) gr.0 × WithinAll (length text) gr.1

-- A request with its strings, as every request that is received has them.
abbrev pub HasTexts : Hthead → Type 0
HasTexts req =
    ((t : Bytes) × (req.rest ≡ some t))
    × ((t : Bytes) × (req.url ≡ some t))
    × ((t : Bytes) × (req.method ≡ some t))

pub length-cstr : (s : Bytes) → length (cstr s) ≤ length s
length-cstr [] = omega arith
length-cstr (c ∷ s) = ground (arith, length-cstr s)

-- An entry of `obuf`.
abbrev Entry : List ℕ → ℕ → ℕ → ℕ → Type 0
Entry ks i n k = (o : ℕ) × (offset_at ks k ≡ some o) × (i ≤ o) × (o ≤ n)

pub offset_at-Rises : (ks : List ℕ) (i n k : ℕ) → Rises i ks n → k < length ks → Entry ks i n k
unfolding offset_at
offset_at-Rises [] i n k r l = absurd r
offset_at-Rises (a ∷ []) i n zero (r, e) l = (a, refl, r, omega arith)
offset_at-Rises (a ∷ []) i n (suc k) r l = absurd (omega arith)
offset_at-Rises (a ∷ b ∷ ks) i n zero (r, rs) l =
    let (o, e, low, high) = offset_at-Rises (b ∷ ks) (a + 1) n zero rs (omega arith) in
    (a, refl, r, omega arith)
offset_at-Rises (a ∷ b ∷ ks) i n (suc k) (r, rs) l =
    let (o, e, low, high) = offset_at-Rises (b ∷ ks) (a + 1) n k rs (omega arith) in
    (o, e, omega arith, high)

-- Two entries in order.
offset_at_order :
    (ks : List ℕ) (i n j k : ℕ)
    → Rises i ks n
    → j ≤ k
    → k < length ks
    → (o : ℕ) × (p : ℕ) × (offset_at ks j ≡ some o) × (offset_at ks k ≡ some p) × (o ≤ p) × (p ≤ n)
unfolding offset_at
offset_at_order [] i n j k r l m = absurd r
offset_at_order (a ∷ ks) i n zero zero r l m =
    let (o, e, low, high) = offset_at-Rises (a ∷ ks) i n zero r m in (o, o, e, e, omega arith, high)
offset_at_order (a ∷ []) i n zero (suc k) r l m = absurd (omega arith)
offset_at_order (a ∷ b ∷ ks) i n zero (suc k) (r, rs) l m =
    let (o, e, low, high) = offset_at-Rises (b ∷ ks) (a + 1) n k rs (omega arith) in
    (a, o, refl, e, omega arith, high)
offset_at_order (a ∷ ks) i n (suc j) zero r l m = absurd (omega arith)
offset_at_order (a ∷ []) i n (suc j) (suc k) r l m = absurd (omega arith)
offset_at_order (a ∷ b ∷ ks) i n (suc j) (suc k) (r, rs) l m =
    offset_at_order (b ∷ ks) (a + 1) n j k rs (omega arith) (omega arith)

-- A buffer of `qoffsets`, as the loops need it.
abbrev pub Covers : Bytes → List ℕ → ℕ → Type 0
Covers pstr obuf n = (n < length obuf) × Rises 0 obuf (length pstr)

copy_group-some :
    (pstr : Bytes) (obuf : List ℕ) (n : ℕ) (g : ℕ × ℕ)
    → Covers pstr obuf n
    → Within n g
    → (s : Bytes) × (copy_group pstr obuf g ≡ some s)
unfolding copy_group
copy_group-some pstr obuf n (so, eo) (l, r) (w, v) =
    let (o, p, e, f, m, q) = offset_at_order obuf 0 (length pstr) so eo r w (omega arith) in
    (take (p - o) (drop o pstr), ground arith)

pub copy_groups-some :
    (pstr : Bytes) (obuf : List ℕ) (n : ℕ) (gs : List (Option (ℕ × ℕ)))
    → Covers pstr obuf n
    → WithinAll n gs
    → (ss : List Bytes) × (copy_groups pstr obuf gs ≡ some ss)
unfolding copy_groups
copy_groups-some pstr obuf n [] c w = ([], refl)
copy_groups-some pstr obuf n (none ∷ gs) c w = ([], refl)
copy_groups-some pstr obuf n (some g ∷ gs) c (w, ws) =
    let (s, e) = copy_group-some pstr obuf n g c w in
    let (ss, es) = copy_groups-some pstr obuf n gs c ws in (s ∷ ss, rw (e, es) refl)

module _ {Regex : Type 0} where
  pub new_rmo-some :
      (kind : RuleType Regex) (obuf : List ℕ) (n : ℕ) (g : ℕ × ℕ) (rmo : Option ℕ) (pstr : Bytes)
      → Covers pstr obuf n
      → Within n g
      → (o : Option ℕ) × (new_rmo kind obuf g rmo ≡ some o)
  unfolding new_rmo
  new_rmo-some (pat_rest rx) obuf n (so, eo) rmo pstr (l, r) (w, v) =
      let (o, e, low, high) = offset_at-Rises obuf 0 (length pstr) eo r (omega arith) in
      (some o, rw e refl)
  new_rmo-some (pat_url rx) obuf n g rmo pstr c w = (rmo, refl)
  new_rmo-some (pat_method rx) obuf n g rmo pstr c w = (rmo, refl)
  new_rmo-some (pat_header name rx) obuf n g rmo pstr c w = (rmo, refl)
  new_rmo-some pat_all obuf n g rmo pstr c w = (rmo, refl)
