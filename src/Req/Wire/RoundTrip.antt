-- ===== src/Req/Wire/RoundTrip.antt =====
-- What `recvreq` makes of the datagrams of `sendreq2`, and of any other.
use ashd.Base.{
  length, length-append, All, Bytes, IsCstr, ℕ, zero, suc, ◌<◌, ◌≡◌, refl, ◌∙◌, ◌≢◌, Option, none,
  some, List, [], ◌∷◌, ◌++◌, append-nil, append_assoc, arith,
}
use ashd.Req.Head.{Header, Hthead, headappheader}
use ashd.Req.Wire.{
  request, recvreq, sendreq2, decstr, cat_headers, Received, received, null_read, next_string,
  recv_headers,
}

-- The strings of a header that the wire can carry: an empty name ends the headers.
abbrev pub IsWireHeader : Header → Type 0
IsWireHeader h = IsCstr h.0 × IsCstr h.1 × (h.0 ≢ [])

-- The bytes of the headers, without an accumulator.
abbrev pub wire_headers : List Header → Bytes → Bytes
wire_headers [] rest = rest
wire_headers ((n, v) ∷ hs) rest = n ++ (0 ∷ (v ++ (0 ∷ wire_headers hs rest)))

pub wire_headers-append :
    (hs : List Header) (junk more : Bytes)
    → wire_headers hs (0 ∷ junk) ++ more ≡ wire_headers hs (0 ∷ (junk ++ more))
wire_headers-append [] junk more = refl
wire_headers-append ((n, v) ∷ hs) junk more = simp (append_assoc, wire_headers-append hs junk more)

decstr-cat : (s rest : Bytes) → IsCstr s → decstr (s ++ 0 ∷ rest) ≡ some (s, rest)
unfolding decstr
decstr-cat [] rest h = refl
decstr-cat (c ∷ s) rest (h, hs) = ground (arith, decstr-cat s rest hs)

abbrev Decoded : Bytes → Option (Bytes × Bytes) → Type 0
Decoded b none = IsCstr b
Decoded b (some (s, rest)) = (b ≡ s ++ 0 ∷ rest) × IsCstr s

decstr_step :
    (c : ℕ) (b : Bytes) (o : Option (Bytes × Bytes))
    → decstr b ≡ o
    → Decoded b o
    → Decoded (c ∷ b) (decstr (c ∷ b))
unfolding decstr
decstr_step c b none e h = ground arith
decstr_step c b (some (s, rest)) e h = ground arith

-- `decstr` splits at the first NUL, or there is none.
pub decstr-Decoded : (b : Bytes) → Decoded b (decstr b)
unfolding decstr
decstr-Decoded [] = tt
decstr-Decoded (c ∷ b) = decstr_step c b (decstr b) refl (decstr-Decoded b)

pub decstr_sound :
    (b : Bytes) {s rest : Bytes} → decstr b ≡ some (s, rest) → (b ≡ s ++ 0 ∷ rest) × IsCstr s
decstr_sound b e = rw e at (decstr-Decoded b)

cat_headers-wire :
    (hs : List Header) (buf rest : Bytes) → cat_headers buf hs ++ rest ≡ buf ++ wire_headers hs rest
unfolding cat_headers
cat_headers-wire [] buf rest = refl
cat_headers-wire ((n, v) ∷ hs) buf rest = cat_headers-wire hs _ rest ∙ simp append_assoc

-- What a step that was received shows.
pub next_string-received :
    (p : Bytes) (k : Bytes → Bytes → Received) {h : Hthead}
    → next_string p k ≡ received h
    → (s : Bytes) × (p' : Bytes) × (p ≡ s ++ 0 ∷ p') × IsCstr s × (k s p' ≡ received h)
unfolding next_string
next_string-received p k {h} e = go (decstr p) refl e
  where
    go :
        (o : Option (Bytes × Bytes))
        → decstr p ≡ o
        → elim o [ none ↦ null_read | some (s, p') ↦ k s p' ] ≡ received h
        → (s : Bytes) × (p' : Bytes) × (p ≡ s ++ 0 ∷ p') × IsCstr s × (k s p' ≡ received h)
    go none d e = cc
    go (some (s, p')) d e = let (q, c) = decstr_sound p d in (s, p', q, c, e)

next_string-cat :
    (s rest : Bytes) (k : Bytes → Bytes → Received)
    → IsCstr s
    → next_string (s ++ 0 ∷ rest) k ≡ k s rest
unfolding next_string
next_string-cat s rest k h = rw (decstr-cat s rest h, next_string)

unfoldable pub append_headers : Hthead → List Header → Hthead
append_headers h hs = record h { headers = h.headers ++ hs }

-- One round of the loop reads one header back.
recv_headers-cons :
    (c : ℕ) (n v rest : Bytes) (fuel : ℕ) (req : Hthead)
    → IsWireHeader (c ∷ n, v)
    → recv_headers (suc fuel) req (c ∷ (n ++ 0 ∷ (v ++ 0 ∷ rest)))
      ≡ recv_headers fuel (headappheader req (c ∷ n) v) rest
unfolding recv_headers
recv_headers-cons c n v rest fuel req (hn, hv, _) =
    next_string-cat (c ∷ n) (v ++ 0 ∷ rest) _ hn ∙ next_string-cat v rest _ hv

wire_length : (n v : Bytes) (rest : Bytes) → length rest < length (n ++ 0 ∷ (v ++ 0 ∷ rest))
wire_length n v rest =
    omega (arith, length-append n (0 ∷ (v ++ 0 ∷ rest)), length-append v (0 ∷ rest))

recv_headers-wire :
    (hs : List Header) (fuel : ℕ) (req : Hthead) (junk : Bytes)
    → All IsWireHeader hs
    → length (wire_headers hs (0 ∷ junk)) < fuel
    → recv_headers fuel req (wire_headers hs (0 ∷ junk)) ≡ received (append_headers req hs)
recv_headers-wire hs zero req junk w f = absurd (omega arith)
recv_headers-wire [] (suc fuel) req junk w f =
    unfold recv_headers append_headers in (next_string-cat [] junk _ tt ∙ simp append-nil)
recv_headers-wire (([], v) ∷ hs) (suc fuel) req junk w f = absurd (w.0.2 refl)
recv_headers-wire ((c ∷ n, v) ∷ hs) (suc fuel) req junk (w, ws) f =
    recv_headers-cons c n v _ fuel req w
    ∙ recv_headers-wire hs fuel (headappheader req (c ∷ n) v) junk ws
        (omega (arith, wire_length n v (wire_headers hs (0 ∷ junk))))
    ∙ (unfold headappheader append_headers in simp append_assoc)

-- The bytes of a request.
abbrev pub wire : Bytes → Bytes → Bytes → Bytes → List Header → Bytes → Bytes
wire method url ver rest hs junk =
    method ++ 0 ∷ (url ++ 0 ∷ (ver ++ 0 ∷ (rest ++ 0 ∷ wire_headers hs (0 ∷ junk))))

-- The strings of a request that the wire can carry.
pub record IsWire (method url ver rest : Bytes) (hs : List Header) : Type 0 where
  pub method_cstr : IsCstr method
  pub url_cstr : IsCstr url
  pub ver_cstr : IsCstr ver
  pub rest_cstr : IsCstr rest
  pub headers_wire : All IsWireHeader hs

module _ (method url ver rest : Bytes) (hs : List Header) where
  -- The datagram that `sendreq2` builds is the bytes of the request.
  pub sendreq2-wire :
      (junk : Bytes)
      → (buf : Bytes) × (sendreq2 (request method url ver rest hs) ≡ some buf)
        × (buf ++ junk ≡ wire method url ver rest hs junk)
  unfolding sendreq2 request
  sendreq2-wire junk = (_, refl, rw append_assoc (rw cat_headers-wire (simp append_assoc)))

  pub recvreq-wire :
      (junk : Bytes)
      → IsWire method url ver rest hs
      → recvreq (wire method url ver rest hs junk) ≡ received (request method url ver rest hs)
  unfolding recvreq request append_headers
  recvreq-wire junk w =
      next_string-cat method _ _ w.method_cstr
      ∙ next_string-cat url _ _ w.url_cstr
      ∙ next_string-cat ver _ _ w.ver_cstr
      ∙ next_string-cat rest _ _ w.rest_cstr
      ∙ recv_headers-wire hs (suc (length (wire_headers hs (0 ∷ junk))))
          (request method url ver rest []) junk w.headers_wire (omega arith)

  -- A request whose strings hold no NUL, and whose header names are not empty, is received as it
  -- was sent, whatever follows it in the buffer.
  pub recvreq-sendreq2 :
      (junk : Bytes)
      → IsWire method url ver rest hs
      → (buf : Bytes) × (sendreq2 (request method url ver rest hs) ≡ some buf)
        × (recvreq (buf ++ junk) ≡ received (request method url ver rest hs))
  recvreq-sendreq2 junk w =
      let (buf, e, q) = sendreq2-wire junk in (buf, e, rw q (recvreq-wire junk w))
