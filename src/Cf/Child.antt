-- ===== src/Cf/Child.antt =====
-- lib/cf.c stdhandle and stdmerge: the socket of a child, over what the system answers. The
-- arguments of the program, which expandargs makes, and what runs in the child are left out.
pub mod Handles
use ashd.Base.{
  ltb, ◌==◌, if◌then◌else◌, ℕ, ◌+◌, ◌-◌, Bool, true, false, ◌&&◌, Option, none, some, List, [], ◌∷◌,
  ◌++◌,
}

-- The errors that stdhandle tells apart.
pub data Errno : Type 0 where
  epipe : Errno
  econnreset : Errno
  eagain : Errno
  other : Errno

-- What sendreq2 comes to.
pub data Sent : Type 0 where
  delivered : Sent
  failed : Errno → Sent

-- `type`. stdmkchild makes a socket child, stdforkserve a process for one request.
pub data ChildType : Type 0 where
  ch_socket : ChildType
  ch_fork : ChildType

-- `struct stdchild` without the program and its environment. `fd` is `none` for -1.
pub record Stdchild : Type 0 where
  pub type : ChildType
  pub fd : Option ℕ
  pub agains : ℕ
  pub lastrep : ℕ

-- What is done with descriptors and with the request, in order.
pub data Action : Type 0 where
  started : Option ℕ → Action
  passed : ℕ → Action
  closed : ℕ → Action
  forked : Bool → Action

-- What the system answers: the descriptors of the first and the second stdmkchild, what the first
-- and the second sendreq2 come to, whether stdforkserve succeeds, and the time.
pub record Answers : Type 0 where
  pub first_fd : Option ℕ
  pub second_fd : Option ℕ
  pub first_sent : Sent
  pub second_sent : Sent
  pub forks : Bool
  pub now : ℕ

-- sendreq2 on a descriptor; on -1 it fails with EBADF.
abbrev pub sendreq2_on : Option ℕ → Sent → Sent
sendreq2_on none sent = failed other
sendreq2_on (some fd) sent = sent

abbrev pub pass_on : Option ℕ → List Action
pass_on none = []
pass_on (some fd) = passed fd ∷ []

-- close(2); on -1 it does nothing.
abbrev pub close_fd : Option ℕ → List Action
close_fd none = []
close_fd (some fd) = closed fd ∷ []

-- From `ok` on.
unfoldable pub accepted : ℕ → Stdchild → Stdchild
accepted now sd =
    if ltb 0 sd.agains && ltb 10 (now - sd.lastrep) then record sd { agains = 0 } else sd

-- The request is denied: with the socket full, or with an error that costs the socket.
unfoldable pub denied : ℕ → Errno → Stdchild → Bool × Stdchild × List Action
denied now eagain sd = (
  false,
  record sd { agains = sd.agains + 1; lastrep = if sd.agains == 0 then now else sd.lastrep },
  [],
)
denied now epipe sd = (false, record sd { fd = none }, close_fd sd.fd)
denied now econnreset sd = (false, record sd { fd = none }, close_fd sd.fd)
denied now other sd = (false, record sd { fd = none }, close_fd sd.fd)

-- The child is taken to have crashed, and is started again.
unfoldable pub restart : Answers → Stdchild → Bool × Stdchild × List Action
unfolding accepted denied
restart a sd =
    let again : Stdchild = record sd { fd = a.second_fd } in
    let begun = close_fd sd.fd ++ started a.second_fd ∷ [] in
    elim (sendreq2_on a.second_fd a.second_sent) [
      | delivered ↦ (true, accepted a.now again, begun ++ pass_on a.second_fd)
      | failed e ↦ let (ret, sd', done) = denied a.now e again in (ret, sd', begun ++ done)
    ]

-- The error of the first attempt.
unfoldable pub first_failed : Answers → Errno → Stdchild → Bool × Stdchild × List Action
unfolding restart denied
first_failed a epipe sd = restart a sd
first_failed a econnreset sd = restart a sd
first_failed a eagain sd = denied a.now eagain sd
first_failed a other sd = denied a.now other sd

unfoldable pub send_socket : Answers → Stdchild → Bool × Stdchild × List Action
unfolding accepted first_failed
send_socket a sd = elim (sendreq2_on sd.fd a.first_sent) [
  | delivered ↦ (true, accepted a.now sd, pass_on sd.fd)
  | failed e ↦ first_failed a e sd
]

-- Whether 0 is returned, the child afterwards, and what was done.
unfoldable pub stdhandle : Answers → Stdchild → Bool × Stdchild × List Action
unfolding send_socket
stdhandle a sd = elim sd.type [
  | ch_fork ↦ (a.forks, sd, forked a.forks ∷ [])
  | ch_socket ↦ elim sd.fd [
    | some fd ↦ send_socket a sd
    | none ↦
        let (ok, sd', done) = send_socket a (record sd { fd = a.first_fd }) in
        (ok, sd', started a.first_fd ∷ done)
  ]
]

-- The socket of the old child goes to the new one of its name.
unfoldable pub stdmerge : Stdchild → Stdchild → Stdchild × Stdchild
stdmerge dst src = (record dst { fd = src.fd }, record src { fd = none })
