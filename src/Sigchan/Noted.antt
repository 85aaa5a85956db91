-- ===== src/Sigchan/Noted.antt =====
-- The signal channel while the daemon is at work.
use einit.Prelude.{
  ℕ, ◌≡◌, inl, inr, Bool, true, false, ◌&&◌, List, [], ◌∷◌, All, ok, ◌>>=◌, Returns, Returns-bind,
  Returns-map, Bool-cases, arith, ◌==◌,
}
use einit.World.{Env, World}
use einit.Svc.Evolve.{IsSound}
use einit.Svc.Serviced.{Serviced, Serviced-refl, Serviced-trans}
use einit.Sigchan.{
  SigEntry, sigchld, shutdown_request, other_signal, is_shutdown_signo, Started, note_signal,
  started_entry, started_loop, tinit_sigchan_handle_sigchld, tinit_sigchan_dispatch_started,
}
use einit.Sigchan.Reap.{HasEnded, tinit_sigchan_handle_sigchld-Serviced}

-- A signal that the channel lets through, with children that have ended.
unfoldable pub IsSignal : SigEntry → Type 0
IsSignal (sigchld infos) = All HasEnded infos
IsSignal (shutdown_request signo from_user) = is_shutdown_signo signo ≡ true
IsSignal other_signal = ⊥

-- What a dispatch of the channel has noted is a signal to shut down.
abbrev pub IsNoted : Started → Type 0
IsNoted c = c.shutdown ≡ true → is_shutdown_signo c.signo ≡ true

note_signal-IsNoted :
    (env : Env) (signo : ℕ) (from_user : Bool) (c : Started)
    → is_shutdown_signo signo ≡ true
    → IsNoted c
    → IsNoted (note_signal env signo from_user c)
unfolding note_signal
note_signal-IsNoted env signo from_user c h n = elim (Bool-cases (from_user && c.signo == 0)) [
  | inl e ↦ rw e (λ q. h)
  | inr e ↦ rw e n
]

module _ (env : Env) where
  started_loop-Serviced :
      (es : List SigEntry) (c : Started) (w : World)
      → IsSound w
      → IsNoted c
      → All IsSignal es
      → Returns (λ (d, v). IsNoted d × Serviced w v) (started_loop env es (c, w))
  unfolding started_loop started_entry IsSignal
  started_loop-Serviced [] c w s n h = (n, Serviced-refl w s)
  started_loop-Serviced (sigchld infos ∷ es) c w s n h =
      Returns-bind {P = λ (d, v). IsNoted d × Serviced w v} (λ (d, v). IsNoted d × Serviced w v)
        (tinit_sigchan_handle_sigchld env 0 infos w >>= λ r. ok (c, r.1)) _
        (Returns-bind (λ (d, v). IsNoted d × Serviced w v)
          (tinit_sigchan_handle_sigchld env 0 infos w) _
          (tinit_sigchan_handle_sigchld-Serviced env infos 0 w s h.0) (λ r k. (n, k)))
        (λ (d, v) k.
          Returns-map {P = λ (d', u). IsNoted d' × Serviced v u}
            {Q = λ (d', u). IsNoted d' × Serviced w u} (started_loop env es (d, v))
            (started_loop-Serviced es d v k.1.sound k.0 h.1) (λ r q. (q.0, Serviced-trans k.1 q.1)))
  started_loop-Serviced (shutdown_request signo from_user ∷ es) c w s n h = rw h.0 (
      started_loop-Serviced es (note_signal env signo from_user c) w s
        (note_signal-IsNoted env signo from_user c h.0 n) h.1)
  started_loop-Serviced (other_signal ∷ es) c w s n h = elim h.0 [ ]

  -- A dispatch of the signal channel, in a sound world and with the signals that it lets through, fails
  -- at no assertion; the world stays sound, and what it notes is a signal to shut down.
  pub tinit_sigchan_dispatch_started-Serviced :
      (es : List SigEntry) (w : World)
      → IsSound w
      → All IsSignal es
      → Returns (λ (d, v). IsNoted d × Serviced w v) (tinit_sigchan_dispatch_started env es w)
  unfolding tinit_sigchan_dispatch_started
  tinit_sigchan_dispatch_started-Serviced es w s h =
      started_loop-Serviced es (record { signo = 0; shutdown = false }) w s
        (λ e. absurd (ground arith)) h
