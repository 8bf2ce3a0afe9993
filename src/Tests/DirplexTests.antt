-- ===== src/Tests/DirplexTests.antt =====
-- Tests of Dirplex, with a directory `a` that holds `b.txt` and `.c`.
use ashd.Base.{
  if◌then◌else◌, codes, strcmp, ◌≡◌, refl, sym, false, ◌||◌, none, some, [], ◌∷◌, arith,
}
use ashd.Req.Head.{Hthead, mkreq, replrest}
use ashd.Dirplex.Match.{Pattern, file, all, Config, regular, directory, World}
use ashd.Dirplex.Walk.{Answer, run, run_notfound, redirect, serve}
use ashd.Dirplex.Inside.{AllSafe}
use ashd.Dirplex.Served.{serve-AllSafe}
use ashd.Dirplex.Reply.{IsReply}
use ashd.Dirplex.Ends.{AllConfigured, NoReparse, serve-Answers}

abbrev send : Pattern
send = record {
  type = file;
  headers = [];
  childnm = codes "send";
  fchild = none;
  rules = record { type = all; patterns = [] } ∷ [];
}

abbrev plain_config : Config
plain_config = record {
  path = none;
  children = codes "send" ∷ [];
  patterns = send ∷ [];
  index = some (codes "index.html" ∷ []);
  dotallow = none;
  capture = none;
  reparse = none;
  caproot = false;
  parsecomb = false;
}

unfoldable small : World
unfolding strcmp
small = record {
  getconfig = λ path. some plain_config;
  lconfig = none;
  gconfig = none;
  stat = λ path.
      if strcmp path (codes "./a")
      then some directory
      else if strcmp path (codes "a/b.txt") || strcmp path (codes "a/.c")
      then some regular
      else none;
  readdir = λ path. none;
  fnmatch = strcmp;
  fnmatch_path = strcmp;
}

abbrev asking : Hthead
asking = mkreq (codes "GET") (codes "/a/b.txt/x") (codes "HTTP/1.1")

served :
    serve small 11 asking (codes "a/b.txt/x")
    ≡ some (some (run send (codes "a/b.txt") (replrest asking (codes "/x"))))
unfolding serve small mkreq
served = refl

hidden : serve small 11 asking (codes "a/.c") ≡ some (some (run_notfound (codes "a/") asking))
unfolding serve small mkreq
hidden = refl

redirected : serve small 11 asking (codes "a") ≡ some (some (redirect (codes "a/")))
unfolding serve small mkreq
redirected = refl

serve-AllSafe_example : AllSafe small (serve small 11 asking (codes "a/b.txt/x"))
serve-AllSafe_example = serve-AllSafe small 11 asking (codes "a/b.txt/x")

some_inj_reparse : (cf : Config) → some plain_config ≡ some cf → cf.reparse ≡ none
some_inj_reparse cf e = let same : plain_config ≡ cf = cc in rw (sym same) refl

small-NoReparse : NoReparse small
unfolding small
small-NoReparse path cf e = some_inj_reparse cf e

small-AllConfigured : AllConfigured small
unfolding small
small-AllConfigured path = (plain_config, refl)

serve-Answers_example :
    (a : Answer) × (serve small 11 asking (codes "a/b.txt/x") ≡ some (some a)) × IsReply small a
serve-Answers_example =
    serve-Answers small small-AllConfigured small-NoReparse 11 asking (codes "a/b.txt/x")
      (omega arith)
