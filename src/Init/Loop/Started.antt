-- ===== src/Init/Loop/Started.antt =====
-- The daemon at work: signals, timers and requests in any order.
use einit.Prelude.{
  ℕ, ◌≤◌, ◌≡◌, refl, sym, subst, inl, inr, Bool, true, false, Option, none, some, List, [], ◌∷◌,
  All, In, ok, Returns, Returns-bind, Returns-map, Bool-cases, arith, if◌then◌else◌,
}
use einit.Sys.{Sys}
use einit.World.{Side, Env, World, installed}
use einit.Svc.Evolve.{IsSound}
use einit.Svc.Serviced.{Serviced, Serviced-refl, Serviced-Reacts}
use einit.Svc.Events.{svc_expire}
use einit.Svc.Events.Sound.{svc_expire-Reacts}
use einit.Sigchan.{is_shutdown_signo, tinit_sigchan_dispatch_started}
use einit.Sigchan.Noted.{IsSignal, tinit_sigchan_dispatch_started-Serviced}
use einit.Proto.Reply.{Buff, status_data_size}
use einit.Srv.Queue.{Buffq, IsBuffq}
use einit.Srv.Transport.{Server, send_asserts, dispatch_asserts, tinit_srv_dispatch}
use einit.Srv.Transport.Kept.{history, Kept, Kept-refl, Kept-trans}
use einit.Srv.Transport.Requests.{IsExpected, IsServing, IsServing-Kept}
use einit.Srv.Transport.Dispatched.{tinit_srv_dispatch-Dispatched}
use einit.Init.Loop.{
  PollEvent, sigs_ready, timer_expires, srv_ready, expire_timer, started_event, poll_started,
}

-- Of a repository of the services `ids`: a timer is one of theirs, and the socket reports input or
-- output alone, with datagrams other than reload and switch requests.
unfoldable pub IsEvent : List ℕ → PollEvent → Type 0
IsEvent ids (sigs_ready es) = All IsSignal es
IsEvent ids (timer_expires id) = In id ids
IsEvent ids (srv_ready state inbox) = (dispatch_asserts state ≡ false) × All IsExpected inbox

-- A request to shut down, if there is one, is one of the four signals.
abbrev pub IsAsked : Option ℕ → Type 0
IsAsked o = (signo : ℕ) → o ≡ some signo → is_shutdown_signo signo ≡ true

IsAsked-if :
    (down : Bool) (n : ℕ)
    → (down ≡ true → is_shutdown_signo n ≡ true)
    → IsAsked (if down then some n else none)
IsAsked-if true n h signo e = let q : n ≡ signo = ground arith in rw (sym q) (h refl)
IsAsked-if false n h signo e = absurd (ground arith)

module _ {Q : Type 0} (ops : Buffq Q) where
  -- The services changed, and nothing else.
  Kept-world :
      (srv : Server Q) (w : World) → Serviced srv.world w → Kept ops srv (record srv { world = w })
  unfolding history
  Kept-world srv w k = record { serviced = k; buffers = λ c. refl; replies = ([], refl) }

  -- After an event, and after a number of them.
  abbrev Stepped : Server Q → Option ℕ × Server Q → Type 0
  Stepped srv (o, srv') = Kept ops srv srv' × IsAsked o

  pub record Polled (u : Server Q) (r : Option ℕ × List PollEvent × Server Q) : Type 0 where
    pub kept : Kept ops u r.2
    pub asked : IsAsked r.0
    pub left : All (IsEvent u.world.repo) r.1

  module _ (laws : IsBuffq ops) (sys : Sys)
      (rounds : (n : ℕ) → n ≤ sys.stroll_round_upper n status_data_size) (env : Env) (tinit_gid : ℕ)
      (send_errno : List (Buff × ℕ) → ℕ)
      (expected : (sends : List (Buff × ℕ)) → send_asserts (send_errno sends) ≡ false)
      (is_open : Bool) where
    expire_timer-Serviced :
        (o : Option Side) (id : ℕ) (w : World)
        → installed w.log id ≡ o
        → IsSound w
        → In id w.repo
        → Returns (Serviced w) (expire_timer ops sys env tinit_gid send_errno o id w)
    unfolding expire_timer
    expire_timer-Serviced none id w e s mem = Serviced-refl w s
    expire_timer-Serviced (some side) id w e s mem =
        Returns-map (svc_expire env side id w) (svc_expire-Reacts env id side w s mem e)
          (λ v h. Serviced-Reacts h)

    started_event-Stepped :
        (event : PollEvent) (srv : Server Q)
        → IsServing ops srv
        → IsEvent srv.world.repo event
        → Returns (Stepped srv) (started_event ops sys env tinit_gid send_errno is_open event srv)
    unfolding started_event IsEvent
    started_event-Stepped (sigs_ready es) srv h x =
        Returns-bind (Stepped srv) (tinit_sigchan_dispatch_started env es srv.world) _
          (tinit_sigchan_dispatch_started-Serviced env es srv.world h.sound x)
          (λ (c, w) k. (Kept-world srv w k.1, IsAsked-if c.shutdown c.signo k.0))
    started_event-Stepped (timer_expires id) srv h x =
        Returns-bind (Stepped srv)
          (expire_timer ops sys env tinit_gid send_errno (installed srv.world.log id) id srv.world)
          _ (expire_timer-Serviced (installed srv.world.log id) id srv.world refl h.sound x)
          (λ w k. (Kept-world srv w k, λ n e. absurd (ground arith)))
    started_event-Stepped (srv_ready state inbox) srv h x = elim (Bool-cases is_open) [
      | inl e ↦ rw e (
          Returns-bind (Stepped srv)
            (tinit_srv_dispatch ops sys env tinit_gid send_errno state inbox srv) _
            (tinit_srv_dispatch-Dispatched ops laws sys rounds env tinit_gid send_errno expected
              state inbox srv x.0 h x.1)
            (λ (ret, left, srv') k. (k.kept, λ n q. absurd (ground arith))))
      | inr e ↦ rw e (Kept-refl ops srv h.sound, λ n q. absurd (ground arith))
    ]

    -- The daemon at work, with a serving server and a queue that behaves as documented: whatever signals
    -- that the channel lets through, timers of its services, and datagrams other than reload and switch
    -- requests come, in any number and order, no assertion fails. The world stays sound, no buffer is
    -- lost and the replies keep their order. If the channel asks for the end, it is with one of the
    -- four signals.
    pub poll_started-Polled :
        (events : List PollEvent) (srv : Server Q)
        → IsServing ops srv
        → All (IsEvent srv.world.repo) events
        → Returns (Polled srv) (poll_started ops sys env tinit_gid send_errno is_open events srv)
    unfolding poll_started
    poll_started-Polled [] srv h x = record {
      kept = Kept-refl ops srv h.sound;
      asked = λ n q. absurd (ground arith);
      left = tt;
    }
    poll_started-Polled (event ∷ events) srv h x =
        Returns-bind (Polled srv) (started_event ops sys env tinit_gid send_errno is_open event srv)
          _ (started_event-Stepped event srv h x.0)
          (λ (o, srv') k. next o srv' k (λ q.
            poll_started-Polled events srv' (IsServing-Kept ops srv srv' h q)
              (rw q.serviced.repo x.1)))
      where
        next :
            (o : Option ℕ) (srv' : Server Q)
            → Stepped srv (o, srv')
            → (Kept ops srv srv'
                → Returns
                    (Polled srv')
                    (poll_started ops sys env tinit_gid send_errno is_open events srv'))
            → Returns (Polled srv) (elim o [
              | none ↦ poll_started ops sys env tinit_gid send_errno is_open events srv'
              | some signo ↦ ok (some signo, events, srv')
            ])
        next none srv' k rest =
            Returns-map {P = Polled srv'} {Q = Polled srv}
              (poll_started ops sys env tinit_gid send_errno is_open events srv') (rest k.0)
              (λ r q. record {
                kept = Kept-trans ops k.0 q.kept;
                asked = q.asked;
                left = subst (λ ids. All (IsEvent ids) r.1) k.0.serviced.repo q.left;
              })
        next (some signo) srv' k rest = record { kept = k.0; asked = k.1; left = x.1 }
