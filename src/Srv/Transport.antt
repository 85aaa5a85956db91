-- ===== src/Srv/Transport.antt =====
-- srv.c: receiving requests, sending replies, and the dispatch function of the socket. What the kernel
-- gives to recvmsg(2) is a list of datagrams and errors, and what it answers to sendmsg(2) depends on
-- all replies tried before.
pub mod Kept
pub mod Requests
pub mod Replies
pub mod Dispatched
use einit.Prelude.{
  ℕ, zero, suc, ◌+◌, ◌≡◌, Bool, true, false, not, ◌&&◌, ◌||◌, Option, none, some, List, [], ◌∷◌,
  Result, ok, err, assertion, no_fuel, ◌>>=◌, length, ◌==◌, if◌then◌else◌, ℤ, pos, negsuc, neg,
  is_zero,
}
use einit.Mnt.{eagain}
use einit.Repo.Load.{enomem}
use einit.Sys.{Sys}
use einit.World.{Env, World}
use einit.Proto.Reply.{Buff, eproto}
use einit.Srv.{tinit_srv_process_request}
use einit.Srv.Queue.{Buffq}

-- EINTR, EACCES, EMSGSIZE, EADDRNOTAVAIL and ECONNREFUSED
abbrev pub eintr : ℕ
eintr = 4

abbrev eacces : ℕ
eacces = 13

abbrev emsgsize : ℕ
emsgsize = 90

abbrev eaddrnotavail : ℕ
eaddrnotavail = 99

abbrev pub econnrefused : ℕ
econnrefused = 111

-- What a call to receive gives: the user, the group, the size and the bytes of a datagram, or an errno.
pub data Incoming : Type 0 where
  datagram : ℕ → ℕ → ℕ → List ℕ → Incoming
  recv_fails : ℕ → Incoming

-- The state that the functions work on: the queues, what the buffers hold, the services, the replies
-- tried with the errno of each (the latest first), and whether EPOLLOUT is watched.
pub record Server (Q : Type 0) : Type 0 where
  pub queue : Q
  pub mem : ℕ → Buff
  pub world : World
  pub sends : List (Buff × ℕ)
  pub watch_out : Bool

abbrev pub set_mem : ℕ → Buff → (ℕ → Buff) → ℕ → Buff
set_mem b buff mem c = if c == b then buff else mem c

-- `ret == -e`
abbrev pub is_errno : ℕ → ℤ → Bool
is_errno e (pos n) = false
is_errno e (negsuc n) = (n + 1) == e

-- neither 0 nor one of the errors of receiving that are known
abbrev pub recv_asserts : ℕ → Bool
recv_asserts e = not (
    (e == eagain)
    || (e == eintr)
    || (e == enomem)
    || (e == eaddrnotavail)
    || (e == emsgsize)
    || (e == eproto))

abbrev pub send_asserts : ℕ → Bool
send_asserts e =
    not ((e == 0) || (e == eagain) || (e == eintr) || (e == enomem) || (e == econnrefused))

-- The state that the kernel reports for the socket.
pub record Events : Type 0 where
  pub epollin : Bool
  pub epollout : Bool
  pub epollpri : Bool
  pub epollrdhup : Bool
  pub epollerr : Bool
  pub epollhup : Bool

abbrev pub dispatch_asserts : Events → Bool
dispatch_asserts state =
    not (
      state.epollin || state.epollout || state.epollpri || state.epollrdhup || state.epollerr
      || state.epollhup)
    || state.epollrdhup
    || state.epollpri
    || state.epollerr
    || state.epollhup

-- `tinit_gid` is CONFIG_TINIT_GID, and `send_errno` the errno of the next reply sent, or 0.
module _ {Q : Type 0} (ops : Buffq Q) (sys : Sys) (env : Env) (tinit_gid : ℕ)
    (send_errno : List (Buff × ℕ) → ℕ) where
  unfoldable pub tinit_srv_are_creds_ok : ℕ → ℕ → Bool
  tinit_srv_are_creds_ok uid gid = (uid == 0) || (gid == tinit_gid)

  unfoldable pub tinit_srv_recv : Incoming → Result ℤ
  tinit_srv_recv (datagram uid gid bytes data_bytes) =
      if tinit_srv_are_creds_ok uid gid then ok (pos 0) else ok (neg eacces)
  tinit_srv_recv (recv_fails e) = if recv_asserts e then err assertion else ok (neg e)

  unfoldable pub store_reply : ℕ → Server Q → Option Buff × World → ℤ × Server Q
  store_reply b srv (none, w) = (neg eproto, record srv { world = w })
  store_reply b srv (some buff, w) = (pos 0, record srv { mem = set_mem b buff srv.mem; world = w })

  process_datagram : ℕ → Incoming → Server Q → Result (ℤ × Server Q)
  process_datagram b (recv_fails e) srv = ok (neg e, srv)
  process_datagram b (datagram uid gid bytes data_bytes) srv =
      tinit_srv_process_request sys env bytes data_bytes srv.world >>= λ r. ok (store_reply b srv r)

  -- receiving into a buffer, and processing what was received
  unfoldable pub handle_request : ℕ → Incoming → Server Q → Result (ℤ × Server Q)
  unfolding process_datagram
  handle_request b msg srv = tinit_srv_recv msg >>= λ ret.
      if is_zero ret then process_datagram b msg srv else ok (ret, srv)

  -- where the buffer goes
  unfoldable pub settle : ℕ → Q → ℤ → Q
  settle b q ret = if is_zero ret then ops.nqueue_busy b q else ops.release b q

  -- One turn of the loop, with a free buffer: what the function has returned, or `none` to go on.
  unfoldable pub request_turn : Incoming → Server Q → Result (Option ℤ × Server Q)
  request_turn msg srv =
      let (b, q) = ops.dqueue_free srv.queue in
      handle_request b msg srv >>= λ (ret, srv').
      let next = record srv' { queue = settle b q ret } in
      if is_errno eagain ret
      then ok (some (pos 0), next)
      else if is_errno eintr ret || is_errno enomem ret
      then ok (some ret, next)
      else ok (none, next)

  -- With nothing more to receive, the call fails with EAGAIN. What was not received is returned too.
  unfoldable pub tinit_srv_handle_requests :
      List Incoming → Server Q → Result (ℤ × List Incoming × Server Q)
  tinit_srv_handle_requests [] srv =
      let turn = request_turn (recv_fails eagain) srv >>= λ (o, srv'). ok (pos 0, [], srv') in
      if ops.has_free srv.queue then turn else ok (pos 0, [], srv)
  tinit_srv_handle_requests (msg ∷ inbox) srv =
      let turn = request_turn msg srv >>= λ (o, srv').
      let rest = tinit_srv_handle_requests inbox srv' in
      elim o [ none ↦ rest | some ret ↦ ok (ret, inbox, srv') ] in
      if ops.has_free srv.queue then turn else ok (pos 0, msg ∷ inbox, srv)

  -- the errno of sending, once it is known
  unfoldable pub tinit_srv_send : ℕ → Result ℕ
  tinit_srv_send e = if send_asserts e then err assertion else ok e

  -- One turn of the loop, with a reply to send.
  unfoldable pub reply_turn : Server Q → Result (Option ℤ × Server Q)
  reply_turn srv =
      let (b, q) = ops.dqueue_busy srv.queue in
      tinit_srv_send (send_errno srv.sends) >>= λ e.
      let sent = record srv { sends = (srv.mem b, e) ∷ srv.sends; queue = q } in
      let released = record sent { queue = ops.release b q } in
      let requeued = record sent { queue = ops.requeue_busy b q } in
      if (e == 0) || (e == econnrefused)
      then ok (none, released)
      else if e == eagain
      then ok (some (pos 0), record requeued { watch_out = true })
      else if e == eintr
      then ok (some (neg eintr), requeued)
      else ok (some (neg enomem), released)

  unfoldable pub replies_loop : ℕ → Server Q → Result (ℤ × Server Q)
  replies_loop zero srv = err no_fuel
  replies_loop (suc fuel) srv =
      let turn = reply_turn srv >>= λ (o, srv').
      let rest = replies_loop fuel srv' in elim o [ none ↦ rest | some ret ↦ ok (ret, srv') ] in
      if ops.has_busy srv.queue then turn else ok (pos 0, record srv { watch_out = false })

  -- Every turn that goes on takes a reply from the queue.
  unfoldable pub tinit_srv_handle_replies : Server Q → Result (ℤ × Server Q)
  tinit_srv_handle_replies srv = replies_loop (suc (length (ops.busy srv.queue))) srv

  unfoldable pub tinit_srv_dispatch :
      Events → List Incoming → Server Q → Result (ℤ × List Incoming × Server Q)
  tinit_srv_dispatch state inbox srv =
      let received =
        if state.epollin then tinit_srv_handle_requests inbox srv else ok (pos 0, inbox, srv) in
      let run = received >>= λ (ret, left, srv').
      let replied = tinit_srv_handle_replies srv' >>= λ (ret', srv''). ok (ret', left, srv'') in
      if is_zero ret then replied else ok (ret, left, srv') in
      if dispatch_asserts state then err assertion else run
