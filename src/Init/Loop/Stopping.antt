-- ===== src/Init/Loop/Stopping.antt =====
-- The daemon while it winds down: signals and timers in any order, until every service has stopped.
use einit.Prelude.{
  ℕ, ◌≡◌, ◌≢◌, refl, ◌∙◌, subst, inl, inr, Bool, true, false, Option, none, some, List, [], ◌∷◌,
  All, In, Returns, Returns-bind, Returns-map, Bool-cases, arith,
}
use einit.Sys.{Sys}
use einit.World.{Side, off, stopped, Env, World, installed}
use einit.Svc.Evolve.{
  side_of, side_of-Moves, IsSound, Evolves, Evolves-refl, Evolves-IsSound, moving-Evolves,
}
use einit.Svc.Events.Expire.{svc_expire-Evolves}
use einit.Sigchan.{
  SigEntry, sigchld, shutdown_request, other_signal, tinit_sigchan_dispatch_stopping,
}
use einit.Sigchan.Noted.{IsSignal}
use einit.Sigchan.Drain.{EntryEnded}
use einit.Sigchan.Open.{tinit_sigchan_dispatch_stopping-Dispatched}
use einit.Target.Shutdown.{IsWindingDown}
use einit.Proto.Reply.{Buff}
use einit.Srv.Queue.{Buffq}
use einit.Init.Loop.{
  PollEvent, sigs_ready, timer_expires, srv_ready, expire_timer, stopping_event, poll_stopping,
}
use einit.Init.Loop.Started.{IsEvent}

IsSignal-EntryEnded : (es : List SigEntry) → All IsSignal es → All EntryEnded es
unfolding IsSignal
IsSignal-EntryEnded [] h = tt
IsSignal-EntryEnded (sigchld infos ∷ es) h = (h.0, IsSignal-EntryEnded es h.1)
IsSignal-EntryEnded (shutdown_request signo from_user ∷ es) h = (tt, IsSignal-EntryEnded es h.1)
IsSignal-EntryEnded (other_signal ∷ es) h = (tt, IsSignal-EntryEnded es h.1)

-- What an expiry keeps.
IsWindingDown-Evolves :
    (cnt : ℕ) (v w : World) → IsWindingDown cnt v → Evolves v w → IsWindingDown cnt w
IsWindingDown-Evolves cnt v w h k = record {
  sound = Evolves-IsSound k h.sound;
  are_off = λ id m.
      side_of-Moves (v.svc id).state (w.svc id).state (k.each id).moves
      ∙ h.are_off id (subst (In id) k.repo m);
  covered = omega (arith, moving-Evolves k, h.covered);
}

-- All services of the repository are stopped.
abbrev pub AllStopped : World → Type 0
AllStopped w = (id : ℕ) → In id w.repo → (w.svc id).state ≡ stopped

record Turned (w : World) (r : Bool × ℕ × World) : Type 0 where
  winds : IsWindingDown r.1 r.2
  same_repo : r.2.repo ≡ w.repo
  stays_open : r.0 ≡ false → r.1 ≢ 0
  stops : r.0 ≡ true → AllStopped r.2

-- After a number of events: the channel is closed with all services stopped, or is still open.
pub record Wound (w : World) (r : Bool × World) : Type 0 where
  pub sound : IsSound r.1
  pub same_repo : r.1.repo ≡ w.repo
  pub are_off : (id : ℕ) → In id r.1.repo → side_of (r.1.svc id).state ≡ off
  pub stops : r.0 ≡ true → AllStopped r.1

module _ {Q : Type 0} (ops : Buffq Q) (sys : Sys) (env : Env) (tinit_gid : ℕ)
    (send_errno : List (Buff × ℕ) → ℕ) where
  expire_timer-Evolves :
      (o : Option Side) (id cnt : ℕ) (w : World)
      → installed w.log id ≡ o
      → IsWindingDown cnt w
      → In id w.repo
      → Returns (Evolves w) (expire_timer ops sys env tinit_gid send_errno o id w)
  unfolding expire_timer
  expire_timer-Evolves none id cnt w e h mem = Evolves-refl w
  expire_timer-Evolves (some side) id cnt w e h mem =
      svc_expire-Evolves env id w h.sound mem side e (h.are_off id mem)

  stopping_event-Turned :
      (event : PollEvent) (cnt : ℕ) (w : World)
      → IsWindingDown cnt w
      → cnt ≢ 0
      → IsEvent w.repo event
      → Returns (Turned w) (stopping_event ops sys env tinit_gid send_errno event (cnt, w))
  unfolding stopping_event IsEvent
  stopping_event-Turned (sigs_ready es) cnt w h n x =
      Returns-map (tinit_sigchan_dispatch_stopping env es cnt w)
        (tinit_sigchan_dispatch_stopping-Dispatched env es cnt w h n (IsSignal-EntryEnded es x))
        (λ r k. record {
          winds = k.drained.0;
          same_repo = k.serviced.repo;
          stays_open = k.stays_open;
          stops = k.drained.1;
        })
  stopping_event-Turned (timer_expires id) cnt w h n x =
      Returns-bind (Turned w)
        (expire_timer ops sys env tinit_gid send_errno (installed w.log id) id w) _
        (expire_timer-Evolves (installed w.log id) id cnt w refl h x)
        (λ v k. record {
          winds = IsWindingDown-Evolves cnt w v h k;
          same_repo = k.repo;
          stays_open = λ e. n;
          stops = λ e. absurd (ground arith);
        })
  stopping_event-Turned (srv_ready state inbox) cnt w h n x = record {
    winds = h;
    same_repo = refl;
    stays_open = λ e. n;
    stops = λ e. absurd (ground arith);
  }

  pub poll_stopping-Wound :
      (events : List PollEvent) (cnt : ℕ) (w : World)
      → IsWindingDown cnt w
      → cnt ≢ 0
      → All (IsEvent w.repo) events
      → Returns (Wound w) (poll_stopping ops sys env tinit_gid send_errno events (cnt, w))
  unfolding poll_stopping
  poll_stopping-Wound [] cnt w h n x = record {
    sound = h.sound;
    same_repo = refl;
    are_off = h.are_off;
    stops = λ e. absurd (ground arith);
  }
  poll_stopping-Wound (event ∷ events) cnt w h n x =
      Returns-bind (Wound w) (stopping_event ops sys env tinit_gid send_errno event (cnt, w)) _
        (stopping_event-Turned event cnt w h n x.0)
        (λ (closed, left, v) k. elim (Bool-cases closed) [
          | inl e ↦ rw e (record {
            sound = k.winds.sound;
            same_repo = k.same_repo;
            are_off = k.winds.are_off;
            stops = λ q. k.stops e;
          })
          | inr e ↦ rw e (
              Returns-map {P = Wound v} {Q = Wound w}
                (poll_stopping ops sys env tinit_gid send_errno events (left, v))
                (poll_stopping-Wound events left v k.winds (k.stays_open e) (rw k.same_repo x.1))
                (λ r q. record {
                  sound = q.sound;
                  same_repo = q.same_repo ∙ k.same_repo;
                  are_off = q.are_off;
                  stops = q.stops;
                }))
        ])
