-- ===== src/Srv/Transport/Replies.antt =====
-- srv.c, tinit_srv_handle_replies(): the loop over the replies ends, and sends them in their order.
use einit.Prelude.{
  ℕ, zero, suc, ◌<◌, ◌≡◌, ◌⊎◌, refl, sym, ◌∙◌, subst, inl, inr, Bool, true, false, ◌||◌, Option,
  none, some, List, [], ◌∷◌, ok, Returns, Returns-bind, Returns-map, Bool-cases, ℤ, pos, neg, arith,
  length, ◌==◌,
}
use einit.Mnt.{eagain}
use einit.Repo.Load.{enomem}
use einit.Sys.{Sys}
use einit.World.{Env}
use einit.Svc.Evolve.{IsSound}
use einit.Svc.Serviced.{Serviced-refl}
use einit.Proto.Reply.{Buff}
use einit.Srv.Queue.{Buffq, IsBuffq}
use einit.Srv.Transport.{
  eintr, econnrefused, Server, send_asserts, tinit_srv_send, reply_turn, replies_loop,
  tinit_srv_handle_replies,
}
use einit.Srv.Transport.Kept.{dealt, history, Kept, Kept-trans}
use einit.Srv.Transport.Requests.{IsVerdict}

pub zero-IsVerdict : IsVerdict (pos 0)
unfolding IsVerdict
zero-IsVerdict = inl refl

eintr-IsVerdict : IsVerdict (neg eintr)
unfolding IsVerdict
eintr-IsVerdict = inr (inl refl)

enomem-IsVerdict : IsVerdict (neg enomem)
unfolding IsVerdict
enomem-IsVerdict = inr (inr refl)

module _ {Q : Type 0} (ops : Buffq Q) where
  -- No reply is left without EPOLLOUT being watched.
  abbrev pub IsWatched : Server Q → Type 0
  IsWatched srv = (ops.busy srv.queue ≡ []) ⊎ (srv.watch_out ≡ true)

  -- After the replies were handled.
  pub record Replied (u : Server Q) (r : ℤ × Server Q) : Type 0 where
    pub kept : Kept ops u r.1
    pub verdict : IsVerdict r.0
    pub watched : r.0 ≡ pos 0 → IsWatched r.1

  -- After one turn of the loop: it ends, or there is one reply less.
  record Turned (u : Server Q) (r : Option ℤ × Server Q) : Type 0 where
    kept : Kept ops u r.1
    ends : (ret : ℤ) → r.0 ≡ some ret → Replied u (ret, r.1)
    shrinks : r.0 ≡ none → length (ops.busy u.queue) ≡ suc (length (ops.busy r.1.queue))

  ended-Turned :
      (u v : Server Q) (ret : ℤ)
      → Kept ops u v
      → IsVerdict ret
      → (ret ≡ pos 0 → IsWatched v)
      → Turned u (some ret, v)
  ended-Turned u v ret k verdict watched = record {
    kept = k;
    ends = λ r q.
        (let e : ret ≡ r = ground arith in
          record { kept = k; verdict = subst IsVerdict e verdict; watched = λ z. watched (e ∙ z) });
    shrinks = λ q. absurd (ground arith);
  }

  module _ (laws : IsBuffq ops) where
    -- A reply that is dealt with, and whose buffer is released.
    released-Kept :
        (srv : Server Q) (e : ℕ)
        → IsSound srv.world
        → ops.has_busy srv.queue ≡ true
        → ((e == eagain) || (e == eintr)) ≡ false
        → Kept ops srv (record srv {
          sends = (srv.mem (ops.dqueue_busy srv.queue).0, e) ∷ srv.sends;
          queue = ops.release (ops.dqueue_busy srv.queue).0 (ops.dqueue_busy srv.queue).1;
        })
    unfolding history dealt
    released-Kept srv e s f n =
        let (b, q) = ops.dqueue_busy srv.queue in
        record {
          serviced = Serviced-refl srv.world s;
          buffers = λ c.
              (let y = laws.release-free b q c in
                rw
                  (
                    laws.release-busy b q,
                    laws.dqueue_busy-busy srv.queue f,
                    sym (laws.dqueue_busy-free srv.queue f),
                  )
                  (omega arith));
          replies = ([], rw (laws.release-busy b q, laws.dqueue_busy-busy srv.queue f, n) refl);
        }

    released_shorter :
        (srv : Server Q)
        → ops.has_busy srv.queue ≡ true
        → length (ops.busy srv.queue)
          ≡ suc (
              length (
                ops.busy (ops.release (ops.dqueue_busy srv.queue).0 (ops.dqueue_busy srv.queue).1)))
    released_shorter srv f =
        let (b, q) = ops.dqueue_busy srv.queue in
        rw (laws.release-busy b q, laws.dqueue_busy-busy srv.queue f) refl

    -- A reply that is put back in front.
    requeued-Kept :
        (srv : Server Q) (e : ℕ) (watch : Bool)
        → IsSound srv.world
        → ops.has_busy srv.queue ≡ true
        → ((e == eagain) || (e == eintr)) ≡ true
        → Kept ops srv (record srv {
          sends = (srv.mem (ops.dqueue_busy srv.queue).0, e) ∷ srv.sends;
          queue = ops.requeue_busy (ops.dqueue_busy srv.queue).0 (ops.dqueue_busy srv.queue).1;
          watch_out = watch;
        })
    unfolding history dealt
    requeued-Kept srv e watch s f n =
        let (b, q) = ops.dqueue_busy srv.queue in
        record {
          serviced = Serviced-refl srv.world s;
          buffers = λ c.
              rw
                (
                  laws.requeue_busy-busy b q,
                  laws.requeue_busy-free b q,
                  laws.dqueue_busy-free srv.queue f,
                  laws.dqueue_busy-busy srv.queue f,
                )
                refl;
          replies =
              ([], rw (laws.requeue_busy-busy b q, laws.dqueue_busy-busy srv.queue f, n) refl);
        }

    module _ (sys : Sys) (env : Env) (tinit_gid : ℕ) (send_errno : List (Buff × ℕ) → ℕ)
        (expected : (sends : List (Buff × ℕ)) → send_asserts (send_errno sends) ≡ false) where
      reply_turn-Turned :
          (srv : Server Q)
          → IsSound srv.world
          → ops.has_busy srv.queue ≡ true
          → Returns (Turned srv) (reply_turn ops sys env tinit_gid send_errno srv)
      unfolding reply_turn tinit_srv_send
      reply_turn-Turned srv s f =
          let e = send_errno srv.sends in
          let known = expected srv.sends in
          elim (Bool-cases ((e == 0) || (e == econnrefused))) [
            | inl done ↦
                rw (expected srv.sends, done)
                  (record {
                    kept = released-Kept srv e s f (ground arith);
                    ends = λ ret q. absurd (ground arith);
                    shrinks = λ q. released_shorter srv f;
                  })
            | inr left ↦ elim (Bool-cases (e == eagain)) [
              | inl again ↦
                  rw (expected srv.sends, left, again)
                    (ended-Turned srv _ (pos 0) (requeued-Kept srv e true s f (ground arith))
                      zero-IsVerdict (λ q. inr refl))
              | inr other ↦ elim (Bool-cases (e == eintr)) [
                | inl intr ↦
                    rw (expected srv.sends, left, other, intr)
                      (ended-Turned srv _ (neg eintr)
                        (requeued-Kept srv e srv.watch_out s f (ground arith)) eintr-IsVerdict
                        (λ q. absurd (ground arith)))
                | inr last ↦
                    rw (expected srv.sends, left, other, last)
                      (ended-Turned srv _ (neg enomem) (released-Kept srv e s f (ground arith))
                        enomem-IsVerdict (λ q. absurd (ground arith)))
              ]
            ]
          ]

      replies_loop-Replied :
          (fuel : ℕ) (srv : Server Q)
          → IsSound srv.world
          → length (ops.busy srv.queue) < fuel
          → Returns (Replied srv) (replies_loop ops sys env tinit_gid send_errno fuel srv)
      unfolding replies_loop history
      replies_loop-Replied zero srv s lt = absurd (omega arith)
      replies_loop-Replied (suc fuel) srv s lt = elim (Bool-cases (ops.has_busy srv.queue)) [
        | inl f ↦ rw f (
            Returns-bind (Replied srv) (reply_turn ops sys env tinit_gid send_errno srv) _
              (reply_turn-Turned srv s f)
              (λ (o, srv') k. next o srv' k (λ e.
                replies_loop-Replied fuel srv' k.kept.serviced.sound
                  (let n = k.shrinks e in omega arith))))
        | inr f ↦ rw f (record {
          kept = record {
            serviced = Serviced-refl srv.world s;
            buffers = λ c. refl;
            replies = ([], refl);
          };
          verdict = zero-IsVerdict;
          watched = λ q. inl (laws.no_busy srv.queue f);
        })
      ]
        where
          next :
              (o : Option ℤ) (srv' : Server Q)
              → Turned srv (o, srv')
              → (o ≡ none
                  → Returns
                      (Replied srv')
                      (replies_loop ops sys env tinit_gid send_errno fuel srv'))
              → Returns (Replied srv) (elim o [
                | none ↦ replies_loop ops sys env tinit_gid send_errno fuel srv'
                | some ret ↦ ok (ret, srv')
              ])
          next none srv' k rest =
              Returns-map {P = Replied srv'} {Q = Replied srv}
                (replies_loop ops sys env tinit_gid send_errno fuel srv') (rest refl)
                (λ r q. record {
                  kept = Kept-trans ops k.kept q.kept;
                  verdict = q.verdict;
                  watched = q.watched;
                })
          next (some ret) srv' k rest = k.ends ret refl

      -- Handling the replies ends within one turn more than there are replies and fails at no assertion,
      -- where sending only gives the errors that are known.
      pub handle_replies-Replied :
          (srv : Server Q)
          → IsSound srv.world
          → Returns (Replied srv) (tinit_srv_handle_replies ops sys env tinit_gid send_errno srv)
      unfolding tinit_srv_handle_replies
      handle_replies-Replied srv s =
          replies_loop-Replied (suc (length (ops.busy srv.queue))) srv s (omega arith)
