-- ===== src/Req/Wire/Truncated.antt =====
-- What `recvreq` accepts, and what it makes of a datagram that is cut short.
use mathlib.Core.List.{cons-ne-nil}
use ashd.Base.{
  length, take, drop, length-append, take-append-drop, length-drop, All, Bytes, IsCstr, ℕ, zero,
  suc, ◌<◌, ◌≡◌, refl, ap, ◌∙◌, ◌≢◌, ◌↔◌, Option, none, some, List, [], ◌∷◌, ◌++◌, append-nil,
  append_assoc, arith,
}
use ashd.Req.Head.{Header, Hthead, headappheader}
use ashd.Req.Wire.{
  decstr, sendreq2, Received, received, null_read, out_of_fuel, next_string, with_name,
  recv_headers, request, recvreq,
}
use ashd.Req.Wire.RoundTrip.{
  wire_headers-append, decstr_sound, IsWireHeader, IsWire, wire_headers, wire, append_headers,
  next_string-received, sendreq2-wire, recvreq-wire,
}

-- The headers that a run of the loop has read from `p`.
record ReadHeaders (req : Hthead) (p : Bytes) (h : Hthead) : Type 0 where
  headers : List Header
  junk : Bytes
  bytes : p ≡ wire_headers headers (0 ∷ junk)
  result : append_headers req headers ≡ h
  are_wire : All IsWireHeader headers

ReadHeaders-cons :
    (c : ℕ) (n v p' p'' p : Bytes) (req h : Hthead)
    → p ≡ c ∷ n ++ 0 ∷ p'
    → p' ≡ v ++ 0 ∷ p''
    → IsCstr (c ∷ n)
    → IsCstr v
    → ReadHeaders (headappheader req (c ∷ n) v) p'' h
    → ReadHeaders req p h
unfolding append_headers headappheader
ReadHeaders-cons c n v p' p'' p req h e e' hn hv r = record {
  headers = (c ∷ n, v) ∷ r.headers;
  junk = r.junk;
  bytes = cc (r.bytes);
  result = simp append_assoc at r.result;
  are_wire = ((hn, hv, cons-ne-nil c n), r.are_wire);
}

-- What stands behind a name.
with_name_sound :
    (fuel : ℕ) (req : Hthead) (s p' p : Bytes) {h : Hthead}
    → ((r : Hthead) (q : Bytes) → recv_headers fuel r q ≡ received h → ReadHeaders r q h)
    → p ≡ s ++ 0 ∷ p'
    → IsCstr s
    → with_name (λ r q. recv_headers fuel r q) req s p' ≡ received h
    → ReadHeaders req p h
unfolding with_name append_headers
with_name_sound fuel req [] p' p ih e c k = record {
  headers = [];
  junk = p';
  bytes = e;
  result = simp append-nil (cc k);
  are_wire = tt;
}
with_name_sound fuel req (x ∷ n) p' p ih e c k =
    let (v, p'', e', hv, k') = next_string-received p' _ k in
    ReadHeaders-cons x n v p' p'' p req _ e e' c hv (ih _ p'' k')

recv_headers_sound :
    (fuel : ℕ) (req : Hthead) (p : Bytes) {h : Hthead}
    → recv_headers fuel req p ≡ received h
    → ReadHeaders req p h
unfolding recv_headers
recv_headers_sound zero req p e = cc
recv_headers_sound (suc fuel) req p {h} e =
    let (s, p', q, c, k) = next_string-received p _ e in
    with_name_sound fuel req s p' p (λ r q. recv_headers_sound fuel r q) q c k

-- What `recvreq` accepts: the bytes of a request, and what follows them.
pub record Accepts (b : Bytes) (h : Hthead) : Type 0 where
  pub method : Bytes
  pub url : Bytes
  pub ver : Bytes
  pub rest : Bytes
  pub headers : List Header
  pub junk : Bytes
  pub is_wire : IsWire method url ver rest headers
  pub bytes : b ≡ wire method url ver rest headers junk
  pub result : request method url ver rest headers ≡ h

recvreq_sound : (b : Bytes) {h : Hthead} → recvreq b ≡ received h → Accepts b h
unfolding recvreq append_headers request
recvreq_sound b e =
    let (method, p, q, c, k) = next_string-received b _ e in
    let (url, p1, q1, c1, k1) = next_string-received p _ k in
    let (ver, p2, q2, c2, k2) = next_string-received p1 _ k1 in
    let (rest, p3, q3, c3, k3) = next_string-received p2 _ k2 in
    let r = recv_headers_sound (suc (length p3)) (request method url ver rest []) p3 k3 in
    record {
      method = method;
      url = url;
      ver = ver;
      rest = rest;
      headers = r.headers;
      junk = r.junk;
      is_wire = record {
        method_cstr = c;
        url_cstr = c1;
        ver_cstr = c2;
        rest_cstr = c3;
        headers_wire = r.are_wire;
      };
      bytes = q ∙ cc (q1, q2, q3, r.bytes);
      result = r.result;
    }

decstr_shorter : (p : Bytes) {s p' : Bytes} → decstr p ≡ some (s, p') → length p' < length p
decstr_shorter p {s} {p'} d =
    omega (arith, ap length (decstr_sound p d).0, length-append s (0 ∷ p'))

-- A run of the loop that never comes to the end of its fuel.
abbrev Ends : (Hthead → Bytes → Received) → ℕ → Type 0
Ends loop fuel = (r : Hthead) (q : Bytes) → length q < fuel → loop r q ≢ out_of_fuel

next_string_ends :
    (p : Bytes) (k : Bytes → Bytes → Received)
    → ((s p' : Bytes) → length p' < length p → k s p' ≢ out_of_fuel)
    → next_string p k ≢ out_of_fuel
unfolding next_string
next_string_ends p k h = go (decstr p) refl
  where
    go :
        (o : Option (Bytes × Bytes))
        → decstr p ≡ o
        → elim o [ none ↦ null_read | some (s, p') ↦ k s p' ] ≢ out_of_fuel
    go none d e = cc
    go (some (s, p')) d e = h s p' (decstr_shorter p d) e

with_name-Ends :
    (loop : Hthead → Bytes → Received) (fuel : ℕ) (req : Hthead) (s p' : Bytes)
    → Ends loop fuel
    → length p' < fuel
    → with_name loop req s p' ≢ out_of_fuel
unfolding with_name
with_name-Ends loop fuel req [] p' ih f = λ e. cc
with_name-Ends loop fuel req (c ∷ n) p' ih f =
    next_string_ends p' _ λ v p'' g. ih _ p'' (omega arith)

-- The fuel of the loop, the bytes left and one more, is enough.
recv_headers-Ends : (fuel : ℕ) → Ends (recv_headers fuel) fuel
unfolding recv_headers
recv_headers-Ends zero req p f = absurd (omega arith)
recv_headers-Ends (suc fuel) req p f =
    next_string_ends p _
      λ s p' g. with_name-Ends _ fuel req s p' (recv_headers-Ends fuel) (omega arith)

-- Every datagram is received, or it makes `recvreq` read through NULL.
recvreq_ends : (b : Bytes) → recvreq b ≢ out_of_fuel
unfolding recvreq
recvreq_ends b = next_string_ends b _ λ method p _. next_string_ends p _ λ url p1 _.
    next_string_ends p1 _ λ ver p2 _.
      next_string_ends p2 _ λ rest p3 _. recv_headers-Ends (suc (length p3)) _ p3 (omega arith)

-- `recvreq` receives a datagram exactly when it begins with the bytes of a request that the wire
-- can carry, and then it receives that request. Any other datagram makes it read through NULL.
pub recvreq_exact :
    (b : Bytes)
    → ((h : Hthead) → (recvreq b ≡ received h) ↔ Accepts b h)
      × (((h : Hthead) → ¬ Accepts b h) → recvreq b ≡ null_read)
recvreq_exact b = (
  λ h. (
    recvreq_sound b,
    λ a. rw a.bytes (recvreq-wire _ _ _ _ _ a.junk a.is_wire ∙ ap received a.result),
  ),
  λ no_request. go (recvreq b) refl no_request,
)
  where
    go : (r : Received) → recvreq b ≡ r → ((h : Hthead) → ¬ Accepts b h) → recvreq b ≡ null_read
    go (received h) e n = absurd (n h (recvreq_sound b e))
    go null_read e n = e
    go out_of_fuel e n = absurd (recvreq_ends b e)

wire-append :
    (m u v r : Bytes) (hs : List Header) (junk more : Bytes)
    → wire m u v r hs junk ++ more ≡ wire m u v r hs (junk ++ more)
wire-append m u v r hs junk more = simp (append_assoc, wire_headers-append hs junk more)

-- Two requests with one datagram are one request, so nothing follows the longer one.
no_rest :
    (m u v r : Bytes) (hs : List Header) (buf rest : Bytes)
    → IsWire m u v r hs
    → sendreq2 (request m u v r hs) ≡ some buf
    → {h : Hthead} (a : Accepts (buf ++ rest) h) → length a.junk ≡ length rest
no_rest m u v r hs buf rest w e a =
    let (buf0, e0, q0) = sendreq2-wire m u v r hs rest in
    let (buf', e', q') = sendreq2-wire a.method a.url a.ver a.rest a.headers a.junk in
    let sent : recvreq (buf ++ rest) ≡ received (request m u v r hs) =
      (let same : buf ≡ buf0 = cc (e, e0) in rw (same, q0) (recvreq-wire m u v r hs rest w)) in
    let got : recvreq (buf ++ rest) ≡ received (request a.method a.url a.ver a.rest a.headers) =
      rw a.bytes (recvreq-wire _ _ _ _ _ a.junk a.is_wire) in
    let heads : request m u v r hs ≡ request a.method a.url a.ver a.rest a.headers =
      cc (sent, got) in
    let one : buf ≡ buf' = cc (heads, e, e') in
    omega (
      arith,
      ap length one,
      ap length a.bytes,
      ap length q',
      length-append buf rest,
      length-append buf' a.junk,
    )

extend : (b more b' : Bytes) {h : Hthead} → b ++ more ≡ b' → Accepts b h → Accepts b' h
extend b more b' e a = record {
  method = a.method;
  url = a.url;
  ver = a.ver;
  rest = a.rest;
  headers = a.headers;
  junk = a.junk ++ more;
  is_wire = a.is_wire;
  bytes = rw (← e, a.bytes) (wire-append _ _ _ _ _ a.junk more);
  result = a.result;
}

-- A datagram that is cut short anywhere makes `recvreq` read through NULL.
pub recvreq_truncated :
    (method url ver rest : Bytes) (hs : List Header) (buf : Bytes) (n : ℕ)
    → IsWire method url ver rest hs
    → sendreq2 (request method url ver rest hs) ≡ some buf
    → n < length buf
    → recvreq (take n buf) ≡ null_read
unfolding extend
recvreq_truncated m u v r hs buf n w e f = (recvreq_exact (take n buf)).1 λ h a.
    let back : take n buf ++ drop n buf ≡ buf ++ [] = rw append-nil (take-append-drop n buf) in
    absurd (
      omega (
        arith,
        no_rest m u v r hs buf [] w e (extend (take n buf) (drop n buf) (buf ++ []) back a),
        length-append a.junk (drop n buf),
        length-drop n buf,
      ))
