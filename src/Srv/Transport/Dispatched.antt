-- ===== src/Srv/Transport/Dispatched.antt =====
-- srv.c, tinit_srv_dispatch(): no buffer is lost, and the replies go out in the order of the requests.
use einit.Prelude.{
  ℕ, ◌≤◌, ◌≡◌, inl, inr, false, List, All, ok, Returns, ◌>>=◌, Returns-bind, Bool-cases, ℤ, pos,
  is_zero, if◌then◌else◌, arith,
}
use einit.Sys.{Sys}
use einit.World.{Env}
use einit.Proto.Reply.{Buff, status_data_size}
use einit.Srv.Queue.{Buffq, IsBuffq}
use einit.Srv.Transport.{
  Incoming, Server, send_asserts, Events, dispatch_asserts, tinit_srv_handle_requests,
  tinit_srv_handle_replies, tinit_srv_dispatch,
}
use einit.Srv.Transport.Kept.{Kept, Kept-refl, Kept-trans}
use einit.Srv.Transport.Requests.{
  IsExpected, IsVerdict, IsServing, IsServing-Kept, Served, handle_requests-Served,
}
use einit.Srv.Transport.Replies.{zero-IsVerdict, IsWatched, handle_replies-Replied}

module _ {Q : Type 0} (ops : Buffq Q) where
  -- After a dispatch.
  pub record Dispatched (u : Server Q) (r : ℤ × List Incoming × Server Q) : Type 0 where
    pub kept : Kept ops u r.2
    pub verdict : IsVerdict r.0
    pub watched : r.0 ≡ pos 0 → IsWatched ops r.2

  module _ (laws : IsBuffq ops) (sys : Sys)
      (rounds : (n : ℕ) → n ≤ sys.stroll_round_upper n status_data_size) (env : Env) (tinit_gid : ℕ)
      (send_errno : List (Buff × ℕ) → ℕ)
      (expected : (sends : List (Buff × ℕ)) → send_asserts (send_errno sends) ≡ false) where
    received-Served :
        (state : Events) (inbox : List Incoming) (srv : Server Q)
        → IsServing ops srv
        → All IsExpected inbox
        → Returns (Served ops srv) (
            if state.epollin
            then tinit_srv_handle_requests ops sys env tinit_gid send_errno inbox srv
            else ok (pos 0, inbox, srv))
    received-Served state inbox srv h x = elim (Bool-cases state.epollin) [
      | inl e ↦
          rw e (handle_requests-Served ops laws sys rounds env tinit_gid send_errno inbox srv h x)
      | inr e ↦ rw e (Kept-refl ops srv h.sound, zero-IsVerdict)
    ]

    replied :
        (srv : Server Q) (ret : ℤ) (left : List Incoming) (srv' : Server Q)
        → IsServing ops srv
        → Served ops srv (ret, left, srv')
        → Returns (Dispatched srv) (
            if is_zero ret
            then (tinit_srv_handle_replies ops sys env tinit_gid send_errno srv'
                >>= λ (ret', srv''). ok (ret', left, srv''))
            else ok (ret, left, srv'))
    replied srv ret left srv' h (k, v) = elim (Bool-cases (is_zero ret)) [
      | inl e ↦ rw e (
          Returns-bind (Dispatched srv)
            (tinit_srv_handle_replies ops sys env tinit_gid send_errno srv') _
            (handle_replies-Replied ops laws sys env tinit_gid send_errno expected srv'
              (IsServing-Kept ops srv srv' h k).sound)
            (λ (ret', srv'') q. record {
              kept = Kept-trans ops k q.kept;
              verdict = q.verdict;
              watched = q.watched;
            }))
      | inr e ↦ rw e (record { kept = k; verdict = v; watched = λ z. absurd (ground arith) })
    ]

    -- A server whose world is sound, whose services have paths of 1 to 254 bytes, and in whose queues no
    -- buffer stands twice; the kernel reports input or output alone, hands over no well-formed reload or
    -- switch request, and gives only the errors that are known. Then a dispatch ends and fails at no
    -- assertion, the world stays sound, and every buffer is in the queues as often as before. The
    -- replies dealt with and those that wait are the earlier ones in their order, with new ones behind.
    -- The result is 0, -EINTR or -ENOMEM; at 0 no reply waits, or EPOLLOUT is watched.
    pub tinit_srv_dispatch-Dispatched :
        (state : Events) (inbox : List Incoming) (srv : Server Q)
        → dispatch_asserts state ≡ false
        → IsServing ops srv
        → All IsExpected inbox
        → Returns
            (Dispatched srv)
            (tinit_srv_dispatch ops sys env tinit_gid send_errno state inbox srv)
    unfolding tinit_srv_dispatch
    tinit_srv_dispatch-Dispatched state inbox srv a h x = rw a (
        Returns-bind (Dispatched srv) _ _ (received-Served state inbox srv h x)
          (λ (ret, left, srv') k. replied srv ret left srv' h k))
