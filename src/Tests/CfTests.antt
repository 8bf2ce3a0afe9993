-- ===== src/Tests/CfTests.antt =====
-- Tests of lib/cf.c.
use ashd.Base.{
  if◌then◌else◌, Bytes, codes, strcmp, ◌≡◌, refl, ap, Bool, true, false, Option, none, some, List,
  [], ◌∷◌, arith,
}
use ashd.Utils.Tokenize.{tokenize}
use ashd.Cf.Parse.{Files, begins_with, start_line, end_line, eof_line, parsefn}
use ashd.Cf.Child.{
  epipe, delivered, failed, ch_socket, Stdchild, started, passed, closed, Answers, stdhandle,
}
use ashd.Cf.Child.Handles.{Accounts, stdhandle-Accounts}
use ashd.Cf.Parse.Levels.{depth}
use ashd.Cf.Parse.Nests.{Legible, parsefn-depth}

-- A file system with one file to include.
abbrev one_file : Files
one_file = record {
  dirname = λ file. codes ".";
  glob = λ spec. if strcmp spec (codes "./a") then codes "./a" ∷ [] else [];
  fopen = λ path. some (codes "x\n");
}

-- A reader that expects a block behind each match.
abbrev expects_match : List (List Bytes) → Bool
expects_match [] = false
expects_match (w ∷ out) = begins_with (codes "match") w

abbrev text : Bytes
text = codes "include a\nmatch\n  b \"c d\"\n    e\nmatch\nf\n"

blocks :
    parsefn expects_match one_file 2 (codes "m") text
    ≡ some (
        eof_line
        ∷ (codes "f" ∷ [])
        ∷ end_line
        ∷ (codes "match" ∷ [])
        ∷ end_line
        ∷ end_line
        ∷ (codes "e" ∷ [])
        ∷ start_line
        ∷ (codes "b" ∷ codes "c d" ∷ [])
        ∷ (codes "match" ∷ [])
        ∷ (codes "x" ∷ [])
        ∷ [])
unfolding parsefn ashd.Cf.Lines.fgets_lines ashd.Cf.Lines.indentation ashd.Cf.Lines.strip_end
    tokenize strcmp
blocks = refl

abbrev text_of : Option Bytes → Bytes
text_of none = []
text_of (some t) = t

x_line-Legible : (path : Bytes) → Legible one_file 1 path (codes "x\n")
unfolding Legible ashd.Cf.Lines.fgets_lines ashd.Cf.Lines.indentation ashd.Cf.Lines.strip_end
    tokenize strcmp
x_line-Legible path = ((λ _. (omega arith, codes "x" ∷ [], refl, λ e. absurd (cc))), tt)

text-Legible : Legible one_file 2 (codes "m") text
unfolding Legible ashd.Cf.Lines.fgets_lines ashd.Cf.Lines.indentation ashd.Cf.Lines.strip_end
    tokenize strcmp ashd.Cf.Parse.include_spec
text-Legible = (
  λ _. (
    omega arith,
    codes "include" ∷ codes "a" ∷ [],
    refl,
    λ e. ((λ t f. rw⁻¹ (ap text_of f) (x_line-Legible (codes "./a")), tt), tt),
  ),
  (
    λ _. (omega arith, codes "match" ∷ [], refl, λ e. absurd (cc)),
    (
      λ _. (omega arith, codes "b" ∷ codes "c d" ∷ [], refl, λ e. absurd (cc)),
      (
        λ _. (omega arith, codes "e" ∷ [], refl, λ e. absurd (cc)),
        (
          λ _. (omega arith, codes "match" ∷ [], refl, λ e. absurd (cc)),
          (λ _. (omega arith, codes "f" ∷ [], refl, λ e. absurd (cc)), tt),
        ),
      ),
    ),
  ),
)

parsefn-depth_example :
    (out : List (List Bytes)) × (parsefn expects_match one_file 2 (codes "m") text
      ≡ some (eof_line ∷ out))
    × (depth expects_match out ≡ some 0)
parsefn-depth_example = parsefn-depth one_file expects_match 2 (codes "m") text text-Legible

-- A child that has crashed and is started again.
abbrev crashed : Answers
crashed = record {
  first_fd = none;
  second_fd = some 6;
  first_sent = failed epipe;
  second_sent = delivered;
  forks = true;
  now = 100;
}

abbrev socket_child : Stdchild
socket_child = record { type = ch_socket; fd = some 5; agains = 2; lastrep = 80 }

crashed_restarts : stdhandle crashed socket_child ≡ (
  true,
  record { type = ch_socket; fd = some 6; agains = 0; lastrep = 80 },
  closed 5 ∷ started (some 6) ∷ passed 6 ∷ [],
)
unfolding stdhandle
crashed_restarts = refl

stdhandle-Accounts_example : Accounts (some 5) (stdhandle crashed socket_child)
stdhandle-Accounts_example = stdhandle-Accounts crashed socket_child
