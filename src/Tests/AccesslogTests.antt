-- ===== src/Tests/AccesslogTests.antt =====
-- Tests of Accesslog. The clock prints the format it is given.
use ashd.Base.{Bytes, codes, strcasecmp, split_at, ◌≡◌, refl, none, some, [], ◌∷◌, ◌++◌, arith}
use ashd.Req.Head.{Hthead, Header}
use ashd.Accesslog.{Timeval, Logdata, Clock, qputs, logreq}
use ashd.Accesslog.Quoted.{in_text, read_quoted, read_quoted-qputs}
use ashd.Accesslog.Line.{Plain, IsRequest, logreq-Writes}
use ashd.Accesslog.Pass.{passdata}
use ashd.Accesslog.Pass.Whole.{Passes, passdata-Whole}
use ashd.Tests.BufioTests.{
  device, device-IsSource, device-IsSink, hello, hello-IsReader, hello-IsWriter,
}

unfoldable clock : Clock
clock = record {
  strftime_local = λ d t. d;
  strftime_gm = λ d t. d;
  print_span = λ a b. codes "0.5";
}

abbrev attack : Hthead
attack = record {
  method = some (codes "GET");
  url = some (codes "/a?b");
  ver = some (codes "HTTP/1.1");
  msg = none;
  code = 0;
  rest = some (codes "a");
  headers = (codes "user-agent", 34 ∷ 10 ∷ b'x' ∷ 200 ∷ []) ∷ [];
}

abbrev attempt : Logdata
attempt = record {
  req = attack;
  resp = none;
  start = record { tv_sec = 7; tv_usec = 42 };
  end = record { tv_sec = 0; tv_usec = 0 };
  bytesin = some 120;
  bytesout = none;
}

abbrev short_format : Bytes
short_format = codes "%m %U %s %i %o %d \"%G\" %{x}t %{"

logged :
    logreq clock short_format attempt
    ≡ some (codes "GET /a 000042 120 - - \"\\\"\\nx\\xc8\" x " ++ 10 ∷ [])
unfolding logreq clock split_at ashd.Req.Head.getheader strcasecmp
logged = refl

short_format-Plain : Plain short_format
short_format-Plain = ground arith

attack-IsRequest : IsRequest attack
attack-IsRequest = record {
  method = (codes "GET", refl);
  url = (codes "/a?b", refl);
  ver = (codes "HTTP/1.1", refl);
  rest = (codes "a", refl);
}

clock_spans : (a b : Timeval) → Plain (clock.print_span a b)
unfolding clock
clock_spans a b = ground arith

logreq-Writes_example :
    (line : Bytes) × (logreq clock short_format attempt ≡ some (line ++ 10 ∷ [])) × Plain line
logreq-Writes_example =
    logreq-Writes clock clock_spans short_format attempt short_format-Plain attack-IsRequest

read_quoted-qputs_example :
    read_quoted in_text (qputs (34 ∷ 10 ∷ 200 ∷ 92 ∷ []) ++ 34 ∷ codes " 1")
    ≡ some (34 ∷ 10 ∷ 200 ∷ 92 ∷ [], codes " 1")
read_quoted-qputs_example =
    read_quoted-qputs (34 ∷ 10 ∷ 200 ∷ 92 ∷ []) (codes " 1") (ground arith) (ground arith)

passdata-Whole_example :
    Passes device device
      (λ s. s.input)
      (λ s. s.output)
      device-IsSource
      device-IsSink
      0
      hello
      hello
      (passdata device device 40 0 hello hello)
passdata-Whole_example =
    passdata-Whole device device (λ s. s.input) (λ s. s.output) device-IsSource device-IsSink hello
      hello hello-IsReader hello-IsWriter 40 (omega arith)
