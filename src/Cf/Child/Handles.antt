-- ===== src/Cf/Child/Handles.antt =====
-- stdhandle keeps account of its descriptor.
use ashd.Base.{
  ltb, ◌==◌, if◌then◌else◌, Bool-cases, ℕ, suc, ◌-◌, ◌≡◌, refl, sym, ap, ◌∙◌, ◌⊎◌, inl, inr, Bool,
  true, false, ◌&&◌, Option, none, some, List, [], ◌∷◌, ◌++◌, arith,
}
use ashd.Cf.Child.{
  Errno, epipe, econnreset, eagain, other, Sent, delivered, failed, ChildType, ch_socket, ch_fork,
  Stdchild, Action, started, passed, closed, forked, Answers, sendreq2_on, pass_on, close_fd,
  accepted, denied, restart, first_failed, send_socket, stdhandle,
}

-- The descriptor that is held after these actions. A child is started only where none is held, and
-- only the one that is held is used or closed; anything else is `none`.
abbrev pub held_after : Option ℕ → List Action → Option (Option ℕ)
held_after held [] = some held
held_after none (started fd ∷ done) = held_after fd done
held_after (some fd) (started fd' ∷ done) = none
held_after none (passed fd ∷ done) = none
held_after (some fd) (passed fd' ∷ done) =
    let rest = held_after (some fd) done in if fd == fd' then rest else none
held_after none (closed fd ∷ done) = none
held_after (some fd) (closed fd' ∷ done) =
    let rest = held_after none done in if fd == fd' then rest else none
held_after held (forked ok ∷ done) = held_after held done

-- How often the request was passed on.
abbrev pub times_passed : List Action → ℕ
times_passed [] = 0
times_passed (started fd ∷ done) = times_passed done
times_passed (passed fd ∷ done) = suc (times_passed done)
times_passed (closed fd ∷ done) = times_passed done
times_passed (forked true ∷ done) = suc (times_passed done)
times_passed (forked false ∷ done) = times_passed done

abbrev pub Accounts : Option ℕ → Bool × Stdchild × List Action → Type 0
Accounts held (ok, sd, done) =
    (held_after held done ≡ some sd.fd) × (times_passed done ≡ (if ok then 1 else 0))

accepted-fd : (now : ℕ) (sd : Stdchild) → (accepted now sd).fd ≡ sd.fd
unfolding accepted
accepted-fd now sd = elim (Bool-cases (ltb 0 sd.agains && ltb 10 (now - sd.lastrep))) [
  | inl late ↦ rw late refl
  | inr early ↦ rw early refl
]

same_fd : (fd : ℕ) → (fd == fd) ≡ true
same_fd fd = ground arith

close_held :
    (held : Option ℕ)
    → (held_after held (close_fd held) ≡ some none) × (times_passed (close_fd held) ≡ 0)
close_held none = (refl, refl)
close_held (some fd) = (rw (same_fd fd) refl, refl)

close_start :
    (held fd : Option ℕ) (done : List Action)
    → (held_after held ((close_fd held ++ started fd ∷ []) ++ done) ≡ held_after fd done)
      × (times_passed ((close_fd held ++ started fd ∷ []) ++ done) ≡ times_passed done)
close_start none fd done = (refl, refl)
close_start (some old) fd done = (rw (same_fd old) refl, refl)

pass_held :
    (fd : ℕ)
    → (held_after (some fd) (pass_on (some fd)) ≡ some (some fd))
      × (times_passed (pass_on (some fd)) ≡ 1)
pass_held fd = (rw (same_fd fd) refl, refl)

denied-Accounts : (now : ℕ) (e : Errno) (sd : Stdchild) → Accounts sd.fd (denied now e sd)
unfolding denied
denied-Accounts now epipe sd = close_held sd.fd
denied-Accounts now econnreset sd = close_held sd.fd
denied-Accounts now eagain sd = (refl, refl)
denied-Accounts now other sd = close_held sd.fd

sendreq2_on-cases :
    (fd : Option ℕ) (sent : Sent)
    → ((fd' : ℕ) × (fd ≡ some fd') × (sendreq2_on fd sent ≡ delivered))
      ⊎ ((e : Errno) × (sendreq2_on fd sent ≡ failed e))
sendreq2_on-cases none sent = inr (other, refl)
sendreq2_on-cases (some fd) delivered = inl (fd, refl, refl)
sendreq2_on-cases (some fd) (failed e) = inr (e, refl)

restart-Accounts : (a : Answers) (sd : Stdchild) → Accounts sd.fd (restart a sd)
unfolding restart
restart-Accounts a sd =
    let again : Stdchild = record sd { fd = a.second_fd } in
    elim (sendreq2_on-cases a.second_fd a.second_sent) [
      | inl (fd, e, f) ↦
          let (h, t) = close_start sd.fd a.second_fd (pass_on a.second_fd) in
          let (h', t') = pass_held fd in
          rw (restart, f)
            (
              h
                  ∙ ap (λ o. held_after o (pass_on o)) e
                  ∙ h'
                  ∙ ap some (sym e)
                  ∙ ap some (sym (accepted-fd a.now again)),
              t ∙ ap (λ o. times_passed (pass_on o)) e,
            )
      | inr (e, f) ↦
          let (h, t) = close_start sd.fd a.second_fd (denied a.now e again).2 in
          let (h', t') = denied-Accounts a.now e again in rw (restart, f) (h ∙ h', t ∙ t')
    ]

first_failed-Accounts :
    (a : Answers) (e : Errno) (sd : Stdchild) → Accounts sd.fd (first_failed a e sd)
unfolding first_failed
first_failed-Accounts a epipe sd = restart-Accounts a sd
first_failed-Accounts a econnreset sd = restart-Accounts a sd
first_failed-Accounts a eagain sd = denied-Accounts a.now eagain sd
first_failed-Accounts a other sd = denied-Accounts a.now other sd

send_socket-Accounts : (a : Answers) (sd : Stdchild) → Accounts sd.fd (send_socket a sd)
unfolding send_socket
send_socket-Accounts a sd = elim (sendreq2_on-cases sd.fd a.first_sent) [
  | inl (fd, e, f) ↦
      let (h', t') = pass_held fd in
      rw (send_socket, f)
        (
          ap (λ o. held_after o (pass_on o)) e
              ∙ h'
              ∙ ap some (sym e)
              ∙ ap some (sym (accepted-fd a.now sd)),
          ap (λ o. times_passed (pass_on o)) e,
        )
  | inr (e, f) ↦ rw (send_socket, f) (first_failed-Accounts a e sd)
]

-- Whatever the system answers, stdhandle starts a child only where no socket is held, sends to and
-- closes only the socket that is held, and keeps the one that is left; and the request is passed on
-- once where it returns 0, and never where it returns -1.
pub stdhandle-Accounts : (a : Answers) (sd : Stdchild) → Accounts sd.fd (stdhandle a sd)
unfolding stdhandle
stdhandle-Accounts a sd = go sd.type sd.fd refl
  where
    fork : (held : Option ℕ) (ok : Bool) → sd.fd ≡ held → Accounts held (ok, sd, forked ok ∷ [])
    fork none true e = (ap some (sym e), refl)
    fork none false e = (ap some (sym e), refl)
    fork (some fd) true e = (ap some (sym e), refl)
    fork (some fd) false e = (ap some (sym e), refl)

    go :
        (type : ChildType) (held : Option ℕ)
        → sd.fd ≡ held
        → Accounts held (elim type [
          | ch_fork ↦ (a.forks, sd, forked a.forks ∷ [])
          | ch_socket ↦ elim held [
            | some fd ↦ send_socket a sd
            | none ↦
                let (ok, sd', done) = send_socket a (record sd { fd = a.first_fd }) in
                (ok, sd', started a.first_fd ∷ done)
          ]
        ])
    go ch_fork held e = fork held a.forks e
    go ch_socket (some fd) e = rw⁻¹ e (send_socket-Accounts a sd)
    go ch_socket none e = send_socket-Accounts a (record sd { fd = a.first_fd })
