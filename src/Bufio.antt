-- ===== src/Bufio.antt =====
-- lib/bufio.c, the buffered streams, and `sizebuf` of lib/utils.c. What stands behind a stream is
-- `pdata`, a state of any type, with the operations on it. The memory of a buffer is the list of
-- its first `d` bytes and its size.
pub mod Read
pub mod Write
pub mod Copy
use ashd.Base.{
  ltb, leb, ◌==◌, if◌then◌else◌, length, Bytes, ℕ, zero, suc, ◌-◌, ◌*◌, Bool, false, ◌&&◌, [],
}

-- What an operation comes to: -1 with errno is `failed`.
pub data Io {ℓ} (A : Type ℓ) : Type ℓ where
  done : A → Io A
  failed : ℕ → Io A

-- `struct bufioops`; `can_read` and `can_write` are false where the pointer is NULL. A read is told
-- how many bytes there is room for.
pub record Ops (S : Type 0) : Type 0 where
  pub can_read : Bool
  pub read : ℕ → S → Io Bytes × S
  pub can_write : Bool
  pub write : Bytes → S → Io ℕ × S

-- `struct bufio`.
pub record Bufio (S : Type 0) : Type 0 where
  pub rbuf : Bytes
  pub rsize : ℕ
  pub rh : ℕ
  pub wbuf : Bytes
  pub wsize : ℕ
  pub wh : ℕ
  pub bufhint : ℕ
  pub err : ℕ
  pub eof : Bool
  pub pdata : S

-- The loop of `_sizebuf`, on fuel: the size is doubled until it is enough.
unfoldable pub double_until : ℕ → ℕ → ℕ → ℕ
double_until zero n wanted = n
double_until (suc fuel) n wanted =
    let more = double_until fuel (n * 2) wanted in if ltb n wanted then more else n

-- `_sizebuf`: the new size.
unfoldable pub sizebuf : ℕ → ℕ → ℕ
unfolding double_until
sizebuf size wanted =
    let n = double_until wanted (if size == 0 then 1 else size) wanted in
    if leb n size then size else n

module _ {S : Type 0} where
  unfoldable pub bioopen : S → Bufio S
  bioopen pdata = record {
    rbuf = [];
    rsize = 0;
    rh = 0;
    wbuf = [];
    wsize = 0;
    wh = 0;
    bufhint = 4096;
    err = 0;
    eof = false;
    pdata = pdata;
  }

  abbrev pub biordata : Bufio S → ℕ
  biordata bio = length bio.rbuf - bio.rh

  abbrev pub biorspace : Bufio S → ℕ
  biorspace bio =
      if leb bio.bufhint (length bio.rbuf - bio.rh)
      then 0
      else bio.bufhint - (length bio.rbuf - bio.rh)

  abbrev pub bioeof : Bufio S → Bool
  bioeof bio = bio.eof && leb (length bio.rbuf) bio.rh

  abbrev pub biowdata : Bufio S → ℕ
  biowdata bio = length bio.wbuf - bio.wh

  abbrev pub biowspace : Bufio S → ℕ
  biowspace bio =
      if leb bio.bufhint (length bio.wbuf - bio.wh)
      then 0
      else bio.bufhint - (length bio.wbuf - bio.wh)
