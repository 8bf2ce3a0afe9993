-- ===== src/Tests/BufioTests.antt =====
-- Tests of Bufio, with a source of at most three bytes a read and a sink of at most two a write.
use ashd.Base.{
  length, take, drop, take-append-drop, length-take, Bytes, ℕ, zero, suc, ◌<◌, min, ◌≡◌, refl, sym,
  true, false, some, [], ◌∷◌, ◌++◌, arith,
}
use ashd.Bufio.{Io, done, failed, Ops, Bufio, bioopen}
use ashd.Bufio.Read.{biogetc, bioreadsome}
use ashd.Bufio.Read.Stream.{IsSource, IsReader}
use ashd.Bufio.Read.Getc.{bio-Gets, Gets, GetsSome}
use ashd.Bufio.Write.{bioputc, biowrite, biowritesome}
use ashd.Bufio.Write.Stream.{IsSink, IsWriter}
use ashd.Bufio.Write.Whole.{bio-Writes, Puts, Writes}
use ashd.Bufio.Write.Some.{AddsSome}
use ashd.Bufio.Copy.{Copies, biocopysome, biocopybuf, bio-Copies}

-- What a device has to give, and what it was given.
pub record Device : Type 0 where
  pub input : Bytes
  pub output : Bytes

unfoldable pub device : Ops Device
device = record {
  can_read = true;
  read = λ n s.
      (done (take (min n 3) s.input), record { input = drop (min n 3) s.input; output = s.output });
  can_write = true;
  write = λ bytes s. (
    done (min 2 (length bytes)),
    record { input = s.input; output = s.output ++ take (min 2 (length bytes)) bytes },
  );
}

take_none : (n : ℕ) (xs : Bytes) → 0 < n → take n xs ≡ [] → xs ≡ []
take_none n [] p e = refl
take_none zero (x ∷ xs) p e = absurd (omega arith)
take_none (suc n) (x ∷ xs) p e = cc

pub device-IsSource : IsSource device (λ s. s.input)
unfolding device
device-IsSource = record {
  readable = refl;
  reads = λ n s p.
      let taken = length-take (min n 3) s.input in
      (
        sym (take-append-drop (min n 3) s.input),
        omega arith,
        take_none (min n 3) s.input (omega arith),
      );
}

pub device-IsSink : IsSink device (λ s. s.output)
unfolding device
device-IsSink = record { writable = refl; writes = λ bytes s p. (refl, omega arith, omega arith) }

-- "hello", one of its bytes read ahead and read.
abbrev pub hello : Bufio Device
hello = record {
  rbuf = 104 ∷ 101 ∷ [];
  rsize = 2;
  rh = 2;
  wbuf = 33 ∷ 34 ∷ [];
  wsize = 3;
  wh = 1;
  bufhint = 4;
  err = 0;
  eof = false;
  pdata = record { input = 108 ∷ 108 ∷ 111 ∷ []; output = 32 ∷ 33 ∷ [] };
}

pub hello-IsReader : IsReader device (λ s. s.input) hello
hello-IsReader = record {
  head = omega arith;
  fits = omega arith;
  hint = omega arith;
  ended = λ e. absurd (cc);
}

pub hello-IsWriter : IsWriter device (λ s. s.output) hello
hello-IsWriter = record { head = omega arith; fits = omega arith; hint = omega arith }

bio-Gets_example :
    Gets device (λ s. s.input) hello (biogetc device hello)
    × ((len : ℕ) → GetsSome device (λ s. s.input) len hello (bioreadsome device len hello))
bio-Gets_example = bio-Gets device (λ s. s.input) device-IsSource hello hello-IsReader

bio-Writes_example :
    ((c : ℕ) → Puts device (λ s. s.output) device-IsSink c hello (bioputc device c hello))
    × ((bytes : Bytes)
        → Writes device (λ s. s.output) device-IsSink 0 bytes hello (biowrite device bytes hello))
bio-Writes_example = bio-Writes device (λ s. s.output) device-IsSink hello hello-IsWriter

bio-Copies_example :
    ((bytes : Bytes)
      → AddsSome device (λ s. s.output) device-IsSink bytes hello (biowritesome device bytes hello))
    × Copies device (λ s. s.output) device-IsSink hello hello (biocopysome device hello hello)
    × Copies device (λ s. s.output) device-IsSink hello hello (biocopybuf hello hello)
bio-Copies_example =
    bio-Copies device (λ s. s.output) device-IsSink hello hello hello-IsWriter (omega arith)

got : (biogetc device hello).0 ≡ some 108
unfolding biogetc device
got = refl

written :
    biowrite device (1 ∷ 2 ∷ 3 ∷ 4 ∷ 5 ∷ 6 ∷ 7 ∷ []) hello
    ≡ some (
      done 7,
      record hello {
        wbuf = 3 ∷ 4 ∷ 5 ∷ 6 ∷ 7 ∷ [];
        wsize = 6;
        wh = 0;
        pdata = record { input = 108 ∷ 108 ∷ 111 ∷ []; output = 32 ∷ 33 ∷ 34 ∷ 1 ∷ 2 ∷ [] };
      },
    )
unfolding biowrite device ashd.Bufio.sizebuf
written = refl
