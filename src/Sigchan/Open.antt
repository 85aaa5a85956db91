-- ===== src/Sigchan/Open.antt =====
-- The signal channel stays open only with a count that is not 0.
use einit.Prelude.{
  ℕ, ◌≡◌, ◌≢◌, ◌⊎◌, refl, inl, inr, Bool, true, false, ◌&&◌, List, [], ◌∷◌, All, Result, ok, err,
  assertion, leb, Returns, Returns-map, Partly, Partly-always, Partly-bind, Partly-map,
  Partly-Returns, Returns-Partly, Bool-cases, arith, ◌==◌, if◌then◌else◌,
}
use einit.World.{Env, World}
use einit.Svc.Evolve.{IsSound}
use einit.Svc.Serviced.{Serviced, Serviced-refl, Serviced-trans}
use einit.Sigchan.Reap.{tinit_sigchan_handle_sigchld-Serviced}
use einit.Sigchan.{
  tinit_sigchan_handle_sigchld, SigEntry, sigchld, shutdown_request, other_signal, stopping_entry,
  is_sigchld, stopping_loop, tinit_sigchan_dispatch_stopping,
}
use einit.Sigchan.Drain.{EntryEnded, Drained, tinit_sigchan_dispatch_stopping-Drained}
use einit.Target.Shutdown.{IsWindingDown}

still_open :
    (a : Bool) (m cnt : ℕ) → cnt ≢ 0 → (a ≡ true) ⊎ (m ≡ cnt) → (a && m == 0) ≡ false → m ≢ 0
still_open a m cnt n (inl e) h = ground arith
still_open a m cnt n (inr e) h = ground arith

module _ (env : Env) where
  -- Only SIGCHLD changes the count.
  stopping_entry-same :
      (e : SigEntry) (cnt : ℕ) (w : World)
      → Partly (λ r. (is_sigchld e ≡ true) ⊎ (r.0 ≡ cnt)) (stopping_entry env e (cnt, w))
  unfolding stopping_entry is_sigchld
  stopping_entry-same (sigchld infos) cnt w = Partly-always _ (λ r. inl refl)
  stopping_entry-same (shutdown_request signo from_user) cnt w = inr refl
  stopping_entry-same other_signal cnt w = inr refl

  stopping_loop-open :
      (es : List SigEntry) (cnt : ℕ) (w : World)
      → cnt ≢ 0
      → Partly (λ (closed, left, v). closed ≡ false → left ≢ 0) (stopping_loop env es (cnt, w))
  unfolding stopping_loop
  stopping_loop-open [] cnt w n = λ e. n
  stopping_loop-open (e ∷ es) cnt w n =
      Partly-bind (λ (closed, left, v). closed ≡ false → left ≢ 0) (stopping_entry env e (cnt, w)) _
        (stopping_entry-same e cnt w)
        (λ r k. elim (Bool-cases (is_sigchld e && r.0 == 0)) [
          | inl done ↦ rw done (λ f. absurd (ground arith))
          | inr more ↦
              rw more (stopping_loop-open es r.0 r.1 (still_open (is_sigchld e) r.0 cnt n k more))
        ])

  stopping_entry-Serviced :
      (e : SigEntry) (cnt : ℕ) (w : World)
      → IsSound w
      → EntryEnded e
      → Partly (λ r. Serviced w r.1) (stopping_entry env e (cnt, w))
  unfolding stopping_entry
  stopping_entry-Serviced (sigchld infos) cnt w s h =
      Partly-bind {P = λ r. Serviced w r.1} (λ r. Serviced w r.1)
        (tinit_sigchan_handle_sigchld env 0 infos w) _
        (Partly-Returns (λ r. Serviced w r.1) (tinit_sigchan_handle_sigchld env 0 infos w)
          (tinit_sigchan_handle_sigchld-Serviced env infos 0 w s h))
        (λ r k. elim (Bool-cases (leb r.0 cnt)) [ inl fits ↦ rw fits k | inr over ↦ rw over tt ])
  stopping_entry-Serviced (shutdown_request signo from_user) cnt w s h = Serviced-refl w s
  stopping_entry-Serviced other_signal cnt w s h = Serviced-refl w s

  stopping_loop-Serviced :
      (es : List SigEntry) (cnt : ℕ) (w : World)
      → IsSound w
      → All EntryEnded es
      → Partly (λ (closed, left, v). Serviced w v) (stopping_loop env es (cnt, w))
  unfolding stopping_loop
  stopping_loop-Serviced [] cnt w s h = Serviced-refl w s
  stopping_loop-Serviced (e ∷ es) cnt w s h =
      Partly-bind {P = λ r. Serviced w r.1} (λ (closed, left, v). Serviced w v)
        (stopping_entry env e (cnt, w)) _ (stopping_entry-Serviced e cnt w s h.0)
        (λ r k. elim (Bool-cases (is_sigchld e && r.0 == 0)) [
          | inl done ↦ rw done k
          | inr more ↦ rw more (
              Partly-map (λ (closed, left, v). Serviced r.1 v) (λ (closed, left, v). Serviced w v)
                (stopping_loop env es (r.0, r.1)) (stopping_loop-Serviced es r.0 r.1 k.sound h.1)
                (λ q m. Serviced-trans k m))
        ])

  -- After a dispatch in which the channel may have been closed.
  pub record Dispatched (w : World) (r : Bool × ℕ × World) : Type 0 where
    pub drained : Drained r
    pub stays_open : r.0 ≡ false → r.1 ≢ 0
    pub serviced : Serviced w r.2

  -- While the daemon winds down: the services that have to stop stay covered by the count, which is not
  -- 0 as long as the channel is open.
  pub tinit_sigchan_dispatch_stopping-Dispatched :
      (es : List SigEntry) (cnt : ℕ) (w : World)
      → IsWindingDown cnt w
      → cnt ≢ 0
      → All EntryEnded es
      → Returns (Dispatched w) (tinit_sigchan_dispatch_stopping env es cnt w)
  unfolding tinit_sigchan_dispatch_stopping
  tinit_sigchan_dispatch_stopping-Dispatched es cnt w h n ended =
      Returns-map {Q = Dispatched w} (tinit_sigchan_dispatch_stopping env es cnt w)
        (Returns-Partly Drained (λ r. (r.0 ≡ false → r.1 ≢ 0) × Serviced w r.2)
          (tinit_sigchan_dispatch_stopping env es cnt w)
          (tinit_sigchan_dispatch_stopping-Drained env es cnt w h n ended) (past (cnt == 0)))
        (λ r (d, k). record { drained = d; stays_open = k.0; serviced = k.1 })
    where
      both :
          (r : Result (Bool × ℕ × World))
          → Partly (λ (closed, left, v). closed ≡ false → left ≢ 0) r
          → Partly (λ (closed, left, v). Serviced w v) r
          → Partly (λ r. (r.0 ≡ false → r.1 ≢ 0) × Serviced w r.2) r
      both (ok a) h k = (h, k)
      both (err e) h k = tt

      past :
          (b : Bool)
          → Partly
              (λ r. (r.0 ≡ false → r.1 ≢ 0) × Serviced w r.2)
              (if b then err assertion else stopping_loop env es (cnt, w))
      past true = tt
      past false =
          both (stopping_loop env es (cnt, w)) (stopping_loop-open es cnt w n)
            (stopping_loop-Serviced es cnt w h.sound ended)
