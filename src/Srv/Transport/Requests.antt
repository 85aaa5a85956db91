-- ===== src/Srv/Transport/Requests.antt =====
-- srv.c, tinit_srv_handle_requests(): what the loop over the datagrams keeps.
use einit.Prelude.{
  ℕ, zero, suc, ◌≤◌, ◌≡◌, ◌⊎◌, refl, inl, inr, true, false, ◌||◌, Option, none, some, List, [], ◌∷◌,
  All, ok, Returns, Returns-bind, Returns-map, Bool-cases, ℤ, pos, negsuc, neg, arith,
  if◌then◌else◌,
}
use einit.Mnt.{eagain}
use einit.Repo.Load.{enomem}
use einit.Sys.{Sys}
use einit.World.{Env, World}
use einit.Svc.Evolve.{IsSound}
use einit.Svc.Serviced.{Serviced, Serviced-refl}
use einit.Proto.Reply.{Buff, status_data_size}
use einit.Srv.{tinit_srv_process_request}
use einit.Srv.Queue.{count, Buffq, IsBuffq}
use einit.Srv.Processed.{HasPath, IsPlain, tinit_srv_process_request-Processed}
use einit.Srv.Transport.{
  eintr, Incoming, datagram, recv_fails, Server, set_mem, is_errno, recv_asserts,
  tinit_srv_are_creds_ok, tinit_srv_recv, store_reply, handle_request, settle, request_turn,
  tinit_srv_handle_requests,
}
use einit.Srv.Transport.Kept.{
  onto-set_mem, count-append, dealt, history, Kept, Kept-refl, Kept-trans, IsDistinct,
}

-- A datagram that can be processed, or an error that receiving is known to give.
unfoldable pub IsExpected : Incoming → Type 0
IsExpected (datagram uid gid bytes data_bytes) = IsPlain bytes data_bytes
IsExpected (recv_fails e) = recv_asserts e ≡ false

-- 0, -EINTR or -ENOMEM
unfoldable pub IsVerdict : ℤ → Type 0
IsVerdict ret = (ret ≡ pos 0) ⊎ ((ret ≡ neg eintr) ⊎ (ret ≡ neg enomem))

-- The paths are part of the configurations, which stay.
HasPath-Serviced :
    (u v : World) (ids : List ℕ) → Serviced u v → All (HasPath u) ids → All (HasPath v) ids
HasPath-Serviced u v [] k h = tt
HasPath-Serviced u v (id ∷ ids) k h = (rw (k.setup id).conf h.0, HasPath-Serviced u v ids k h.1)

is_errno-IsVerdict :
    (ret r : ℤ)
    → (is_errno eintr ret ≡ true) ⊎ (is_errno enomem ret ≡ true)
    → some ret ≡ some r
    → IsVerdict r
unfolding IsVerdict
is_errno-IsVerdict (pos n) r h e = absurd (ground arith)
is_errno-IsVerdict (negsuc n) r (inl h) e = inr (inl (ground arith))
is_errno-IsVerdict (negsuc n) r (inr h) e = inr (inr (ground arith))

zero-IsVerdict : (r : ℤ) → some (pos 0) ≡ some r → IsVerdict r
unfolding IsVerdict
zero-IsVerdict r e = inl (ground arith)

module _ {Q : Type 0} (ops : Buffq Q) where
  -- What the functions of the server need of the state.
  pub record IsServing (srv : Server Q) : Type 0 where
    pub sound : IsSound srv.world
    pub paths : All (HasPath srv.world) srv.world.repo
    pub distinct : IsDistinct ops srv.queue

  pub IsServing-Kept : (u v : Server Q) → IsServing u → Kept ops u v → IsServing v
  unfolding IsDistinct
  IsServing-Kept u v h k = record {
    sound = k.serviced.sound;
    paths = HasPath-Serviced u.world v.world v.world.repo k.serviced (rw k.serviced.repo h.paths);
    distinct = λ c. rw (k.buffers c) (h.distinct c);
  }

  abbrev pub Served : Server Q → ℤ × List Incoming × Server Q → Type 0
  Served srv (ret, left, srv') = Kept ops srv srv' × IsVerdict ret

  module _ (laws : IsBuffq ops) where
    taken_apart :
        (q : Q)
        → IsDistinct ops q
        → ops.has_free q ≡ true
        → count (ops.dqueue_free q).0 (ops.busy q) ≡ 0
    unfolding IsDistinct
    taken_apart q d f =
        let b = (ops.dqueue_free q).0 in
        let h = laws.dqueue_free-free q f b in let k = d b in ground arith

    released-Kept :
        (srv : Server Q) (w : World)
        → ops.has_free srv.queue ≡ true
        → Serviced srv.world w
        → Kept ops srv (record srv {
          world = w;
          queue = ops.release (ops.dqueue_free srv.queue).0 (ops.dqueue_free srv.queue).1;
        })
    unfolding history
    released-Kept srv w f k =
        let (b, q) = ops.dqueue_free srv.queue in
        record {
          serviced = k;
          buffers = λ c.
              (let x = laws.dqueue_free-free srv.queue f c in
                let y = laws.release-free b q c in
                rw (laws.release-busy b q, laws.dqueue_free-busy srv.queue f) (omega arith));
          replies = ([], rw (laws.release-busy b q, laws.dqueue_free-busy srv.queue f) refl);
        }

    answered-Kept :
        (srv : Server Q) (buff : Buff) (w : World)
        → IsDistinct ops srv.queue
        → ops.has_free srv.queue ≡ true
        → Serviced srv.world w
        → Kept ops srv (record srv {
          mem = set_mem (ops.dqueue_free srv.queue).0 buff srv.mem;
          world = w;
          queue = ops.nqueue_busy (ops.dqueue_free srv.queue).0 (ops.dqueue_free srv.queue).1;
        })
    unfolding history
    answered-Kept srv buff w d f k =
        let (b, q) = ops.dqueue_free srv.queue in
        record {
          serviced = k;
          buffers = λ c.
              (let x = laws.dqueue_free-free srv.queue f c in
                let z = count-append c (ops.busy srv.queue) (b ∷ []) in
                rw
                  (
                    laws.nqueue_busy-busy b q,
                    laws.nqueue_busy-free b q,
                    laws.dqueue_free-busy srv.queue f,
                  )
                  (omega arith));
          replies = (
            buff ∷ [],
            rw (laws.nqueue_busy-busy b q, laws.dqueue_free-busy srv.queue f)
                (onto-set_mem b buff srv.mem (ops.busy srv.queue) (dealt srv.sends)
                  (taken_apart srv.queue d f)),
          );
        }

    module _ (sys : Sys) (rounds : (n : ℕ) → n ≤ sys.stroll_round_upper n status_data_size)
        (env : Env) (tinit_gid : ℕ) (send_errno : List (Buff × ℕ) → ℕ) where
      -- The state after one datagram, with its buffer put where it goes.
      settled : Server Q → ℤ × Server Q → Server Q
      settled srv (ret, srv') = record srv' {
        queue =
            settle ops sys env tinit_gid send_errno (ops.dqueue_free srv.queue).0
              (ops.dqueue_free srv.queue).1 ret;
      }

      Handled : Server Q → ℤ × Server Q → Type 0
      Handled srv r = Kept ops srv (settled srv r)

      released-settled :
          (srv : Server Q) (w : World) (n : ℕ)
          → ops.has_free srv.queue ≡ true
          → Serviced srv.world w
          → Handled srv (negsuc n, record srv { world = w })
      unfolding settle settled Handled
      released-settled srv w n f k = released-Kept srv w f k

      store_reply-Handled :
          (srv : Server Q) (r : Option Buff × World)
          → IsDistinct ops srv.queue
          → ops.has_free srv.queue ≡ true
          → Serviced srv.world r.1
          → Handled srv
              (store_reply ops sys env tinit_gid send_errno (ops.dqueue_free srv.queue).0 srv r)
      unfolding store_reply Handled settle settled
      store_reply-Handled srv (none, w) d f k = released-settled srv w 70 f k
      store_reply-Handled srv (some buff, w) d f k = answered-Kept srv buff w d f k

      Ended : Server Q → Option ℤ × Server Q → Type 0
      Ended srv (o, srv') = Kept ops srv srv' × ((ret : ℤ) → o ≡ some ret → IsVerdict ret)

      handle_request-Handled :
          (srv : Server Q) (msg : Incoming)
          → IsSound srv.world
          → All (HasPath srv.world) srv.world.repo
          → IsDistinct ops srv.queue
          → ops.has_free srv.queue ≡ true
          → IsExpected msg
          → Returns (Handled srv) (
              handle_request ops sys env tinit_gid send_errno (ops.dqueue_free srv.queue).0 msg srv)
      unfolding handle_request tinit_srv_recv IsExpected
      handle_request-Handled srv (recv_fails zero) s p d f x = absurd (ground arith)
      handle_request-Handled srv (recv_fails (suc n)) s p d f x =
          rw x (released-settled srv srv.world n f (Serviced-refl srv.world s))
      handle_request-Handled srv (datagram uid gid bytes data_bytes) s p d f x =
          elim (Bool-cases (tinit_srv_are_creds_ok ops sys env tinit_gid send_errno uid gid)) [
            | inl allowed ↦ rw allowed (
                Returns-bind (Handled srv)
                  (tinit_srv_process_request sys env bytes data_bytes srv.world) _
                  (tinit_srv_process_request-Processed srv.world s sys rounds env p bytes data_bytes
                    x)
                  (λ r k. store_reply-Handled srv r d f k))
            | inr rejected ↦
                rw rejected (released-settled srv srv.world 12 f (Serviced-refl srv.world s))
          ]

      turn_ends :
          (srv : Server Q) (ret : ℤ) (srv' : Server Q)
          → Kept ops srv srv'
          → Returns (Ended srv) (
              if is_errno eagain ret
              then ok (some (pos 0), srv')
              else if is_errno eintr ret || is_errno enomem ret
              then ok (some ret, srv')
              else ok (none, srv'))
      unfolding Ended
      turn_ends srv ret srv' k = elim (Bool-cases (is_errno eagain ret)) [
        | inl again ↦ rw again (k, λ r e. zero-IsVerdict r e)
        | inr other ↦ elim (Bool-cases (is_errno eintr ret)) [
          | inl intr ↦ rw (other, intr) (k, λ r e. is_errno-IsVerdict ret r (inl intr) e)
          | inr not_intr ↦ elim (Bool-cases (is_errno enomem ret)) [
            | inl nomem ↦
                rw (other, not_intr, nomem) (k, λ r e. is_errno-IsVerdict ret r (inr nomem) e)
            | inr on ↦ rw (other, not_intr, on) (k, λ r e. absurd (ground arith))
          ]
        ]
      ]

      request_turn-Ended :
          (srv : Server Q) (msg : Incoming)
          → IsSound srv.world
          → All (HasPath srv.world) srv.world.repo
          → IsDistinct ops srv.queue
          → ops.has_free srv.queue ≡ true
          → IsExpected msg
          → Returns (Ended srv) (request_turn ops sys env tinit_gid send_errno msg srv)
      unfolding request_turn Handled settled
      request_turn-Ended srv msg s p d f x =
          Returns-bind (Ended srv)
            (handle_request ops sys env tinit_gid send_errno (ops.dqueue_free srv.queue).0 msg srv)
            _ (handle_request-Handled srv msg s p d f x)
            (λ (ret, srv') k. turn_ends srv ret (settled srv (ret, srv')) k)

      pub handle_requests-Served :
          (inbox : List Incoming) (srv : Server Q)
          → IsServing srv
          → All IsExpected inbox
          → Returns
              (Served srv)
              (tinit_srv_handle_requests ops sys env tinit_gid send_errno inbox srv)
      unfolding tinit_srv_handle_requests IsExpected IsVerdict Ended
      handle_requests-Served [] srv h x = elim (Bool-cases (ops.has_free srv.queue)) [
        | inl f ↦ rw f (
            Returns-bind (Served srv)
              (request_turn ops sys env tinit_gid send_errno (recv_fails eagain) srv) _
              (request_turn-Ended srv (recv_fails eagain) h.sound h.paths h.distinct f refl)
              (λ (o, srv') k. (k.0, inl refl)))
        | inr f ↦ rw f (Kept-refl ops srv h.sound, inl refl)
      ]
      handle_requests-Served (msg ∷ inbox) srv h x = elim (Bool-cases (ops.has_free srv.queue)) [
        | inl f ↦ rw f (
            Returns-bind (Served srv) (request_turn ops sys env tinit_gid send_errno msg srv) _
              (request_turn-Ended srv msg h.sound h.paths h.distinct f x.0)
              (λ (o, srv') k.
                next o srv' k
                  (λ q. handle_requests-Served inbox srv' (IsServing-Kept srv srv' h q) x.1)))
        | inr f ↦ rw f (Kept-refl ops srv h.sound, inl refl)
      ]
        where
          next :
              (o : Option ℤ) (srv' : Server Q)
              → Ended srv (o, srv')
              → (Kept ops srv srv'
                  → Returns
                      (Served srv')
                      (tinit_srv_handle_requests ops sys env tinit_gid send_errno inbox srv'))
              → Returns (Served srv) (elim o [
                | none ↦ tinit_srv_handle_requests ops sys env tinit_gid send_errno inbox srv'
                | some ret ↦ ok (ret, inbox, srv')
              ])
          next none srv' k rest =
              Returns-map {P = Served srv'} {Q = Served srv}
                (tinit_srv_handle_requests ops sys env tinit_gid send_errno inbox srv') (rest k.0)
                (λ r q. (Kept-trans ops k.0 q.0, q.1))
          next (some ret) srv' k rest = (k.0, k.1 ret refl)
