-- ===== src/Req/Parse/Trim.antt =====
-- What `trim` leaves alone, and that it leaves nothing to trim.
use ashd.Base.{Bytes, isspace, ℕ, ◌≡◌, refl, ap, false, [], ◌∷◌}
use ashd.Req.Parse.{skip_space, drop_space_end, trim_end, trim}

-- A text that neither begins nor ends with white space.
abbrev pub NoSpaceEnd : Bytes → Type 0
NoSpaceEnd [] = Unit
NoSpaceEnd (c ∷ []) = isspace c ≡ false
NoSpaceEnd (c ∷ d ∷ s) = NoSpaceEnd (d ∷ s)

abbrev pub IsTrimmed : Bytes → Type 0
IsTrimmed [] = Unit
IsTrimmed (c ∷ s) = (isspace c ≡ false) × NoSpaceEnd (c ∷ s)

drop_space_end_self : (s : Bytes) → NoSpaceEnd s → drop_space_end s ≡ s
unfolding drop_space_end
drop_space_end_self [] h = refl
drop_space_end_self (c ∷ []) h = rw h
drop_space_end_self (c ∷ d ∷ s) h = rw (drop_space_end_self (d ∷ s) h)

NoSpaceEnd-tail : (c : ℕ) (s : Bytes) → NoSpaceEnd (c ∷ s) → NoSpaceEnd s
NoSpaceEnd-tail c [] h = tt
NoSpaceEnd-tail c (d ∷ s) h = h

pub trim_self : (s : Bytes) → IsTrimmed s → trim s ≡ s
unfolding trim skip_space trim_end
trim_self [] h = refl
trim_self (c ∷ s) (h, e) =
    rw (h, trim_end) (ap (◌∷◌ c) (drop_space_end_self s (NoSpaceEnd-tail c s e)))

-- A space in front is trimmed.
pub trim-space : (s : Bytes) → trim (b' ' ∷ s) ≡ trim s
unfolding trim skip_space
trim-space s = refl
