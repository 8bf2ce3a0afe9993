-- ===== src/Tests/UtilsTests.antt =====
-- Tests of lib/utils.c.
use Prim.Native.Nat.{Ordering}
use ashd.Base.{◌∷◌, [], some, IsByte, codes, All, ℕ, ◌+◌, ◌≤◌, ◌≡◌, refl, ◌≢◌, none, some, arith}
use ashd.Utils.Btree.{
  bbtrl, bbtrr, Btree, nil, node, ptrcmp, btheight, bbtreeput, bbtreedel, btreeget,
}
use ashd.Utils.Tokenize.{tokenize, quote_line, tokenize-quote_line}
use ashd.Utils.Base64.{base64encode, base64decode}
use ashd.Utils.Base64.RoundTrip.{base64decode-base64encode}
use ashd.Utils.Btree.Balance.{IsBalanced}
use ashd.Utils.Btree.Put.{bbtreeput-IsBalanced}
use ashd.Utils.Btree.Sorted.{Ordered}
use ashd.Utils.Btree.Items.{items}
use ashd.Utils.Btree.Lookup.{btreeget-bbtreeput, btreeget-bbtreedel, found_or}
use ashd.Utils.Btree.Ptrcmp.{ptrcmp-IsOrder}

-- The tree of 1, 2 and 3.
abbrev three : Btree ℕ
three = node (node nil 1 1 nil) 2 2 (node nil 1 3 nil)

-- The tree of 1 to 8, as `bbtreeput` makes it from 1, 2, 3, 4, 5, 6, 7 and 8.
abbrev eight : Btree ℕ
eight =
    node (node (node nil 1 1 nil) 2 2 (node nil 1 3 nil)) 4 4
      (node (node nil 1 5 nil) 3 6 (node nil 2 7 (node nil 1 8 nil)))

abbrev put : Btree ℕ → ℕ → Btree ℕ
put t n = (bbtreeput ptrcmp t n).0

in_order : put (put (put (put (put (put (put (put nil 1) 2) 3) 4) 5) 6) 7) 8 ≡ eight
unfolding bbtreeput ptrcmp bbtrr bbtrl
in_order = refl

three-IsBalanced : IsBalanced three
three-IsBalanced = (
  refl,
  omega arith,
  omega arith,
  (refl, omega arith, omega arith, tt, tt),
  (refl, omega arith, omega arith, tt, tt),
)

three-Ordered : Ordered ptrcmp (items three)
unfolding ptrcmp
three-Ordered = ((refl, (refl, tt)), ((refl, tt), (tt, tt)))

bbtreeput-IsBalanced_example :
    IsBalanced (bbtreeput ptrcmp three 4).0
    × (btheight three ≤ btheight (bbtreeput ptrcmp three 4).0)
    × (btheight (bbtreeput ptrcmp three 4).0 ≤ btheight three + 1)
bbtreeput-IsBalanced_example = bbtreeput-IsBalanced ptrcmp three 4 three-IsBalanced

btreeget-bbtreeput_example :
    Ordered ptrcmp (items (bbtreeput ptrcmp three 4).0)
    × ((y : ℕ)
        → (ptrcmp y 4 ≡ Ordering.eq
            → btreeget ptrcmp (bbtreeput ptrcmp three 4).0 y
              ≡ some (found_or ptrcmp ptrcmp-IsOrder (btreeget ptrcmp three 4) 4))
          × (ptrcmp y 4 ≢ Ordering.eq
              → btreeget ptrcmp (bbtreeput ptrcmp three 4).0 y ≡ btreeget ptrcmp three y))
btreeget-bbtreeput_example = btreeget-bbtreeput ptrcmp ptrcmp-IsOrder three 4 three-Ordered

btreeget-bbtreedel_example :
    Ordered ptrcmp (items (bbtreedel ptrcmp three 2).0)
    × ((y : ℕ)
        → (ptrcmp y 2 ≡ Ordering.eq → btreeget ptrcmp (bbtreedel ptrcmp three 2).0 y ≡ none)
          × (ptrcmp y 2 ≢ Ordering.eq
              → btreeget ptrcmp (bbtreedel ptrcmp three 2).0 y ≡ btreeget ptrcmp three y))
btreeget-bbtreedel_example = btreeget-bbtreedel ptrcmp ptrcmp-IsOrder three 2 three-Ordered

-- The removal of 4 from `eight` moves its successor 5 up and leaves the node of 6 without a left
-- child, with a right subtree of two levels: a tree that is not balanced.
abbrev take_out : Btree ℕ → ℕ → Btree ℕ
take_out t n = (bbtreedel ptrcmp t n).0

unbalanced :
    take_out eight 4
    ≡ node
        (node (node nil 1 1 nil) 2 2 (node nil 1 3 nil))
        4
        5
        (node nil 3 6 (node nil 2 7 (node nil 1 8 nil)))
unfolding bbtreedel ptrcmp bbtrr bbtrl
unbalanced = refl

data_bytes : All IsByte (0 ∷ 255 ∷ 16 ∷ 7 ∷ [])
data_bytes = omega arith

base64decode-base64encode_example :
    base64decode (base64encode (0 ∷ 255 ∷ 16 ∷ 7 ∷ [])) ≡ some (0 ∷ 255 ∷ 16 ∷ 7 ∷ [])
base64decode-base64encode_example = base64decode-base64encode (0 ∷ 255 ∷ 16 ∷ 7 ∷ []) data_bytes

ashd64 : base64encode (codes "ashd") ≡ codes "YXNoZA=="
unfolding base64encode
ashd64 = refl

tokenize-quote_line_example :
    tokenize (quote_line (codes "a b" ∷ [] ∷ codes "c" ∷ []))
    ≡ some (codes "a b" ∷ [] ∷ codes "c" ∷ [])
tokenize-quote_line_example = tokenize-quote_line (codes "a b" ∷ [] ∷ codes "c" ∷ [])

-- A line that ends in quotation marks is read past its end.
unterminated : tokenize (codes "a \"b") ≡ none
unfolding tokenize
unterminated = refl
