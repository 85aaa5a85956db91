-- ===== src/Sigchan/Reap.antt =====
-- Reaping children in a sound world: it never fails, and while the services are being stopped the
-- count of the channel never falls below the number of services that are still stopping.
use einit.Prelude.{
  ◌<◌, ℕ, ◌+◌, ◌≡◌, ◌≢◌, refl, Option, none, some, List, [], ◌∷◌, All, ok, Returns, Returns-bind,
  Returns-map, ℤ, pos,
}
use einit.World.{stopped, exit_evt, Env, World}
use einit.Svc.Evolve.{IsSound}
use einit.Svc.Serviced.{Serviced, Serviced-refl, Serviced-trans, Serviced-Reacts}
use einit.Svc.Events.{svc_handle_evts}
use einit.Svc.Events.Sound.{svc_handle_evts-Reacts}
use einit.Repo.{bypid_loop}
use einit.Repo.Lookup.{bypid_found, search_bypid-ok}
use einit.Sigchan.{
  CldCode, cld_exited, cld_killed, cld_dumped, cld_other, SigInfo, exit_status, reap_svc,
  tinit_sigchan_handle_sigchld,
}

-- waitid(2) with WEXITED reports children that have ended, and no others, by their PID.
abbrev pub HasEnded : SigInfo → Type 0
HasEnded info = (info.code ≢ cld_other) × (0 < info.pid)

pub exit_status-ok :
    (code : CldCode) (status : ℕ) → code ≢ cld_other → (s : ℤ) × (exit_status code status ≡ ok s)
unfolding exit_status
exit_status-ok cld_exited status h = (pos status, refl)
exit_status-ok cld_killed status h = (_, refl)
exit_status-ok cld_dumped status h = (_, refl)
exit_status-ok cld_other status h = absurd (h refl)

-- A service with a process is not stopped.
pub child_not_stopped :
    (w : World) (id pid : ℕ) → IsSound w → (w.svc id).child ≡ pos pid → (w.svc id).state ≢ stopped
child_not_stopped w id pid s c e = cc ((s.fit id).idle e)

module _ (env : Env) where
  reap_svc-Serviced :
      (found : Option ℕ) (info : SigInfo) (w : World)
      → IsSound w
      → HasEnded info
      → bypid_loop w.svc info.pid w.repo ≡ found
      → Returns (λ r. Serviced w r.1) (reap_svc env found info w)
  unfolding reap_svc
  reap_svc-Serviced none info w s ended e = Serviced-refl w s
  reap_svc-Serviced (some id) info w s ended e =
      let (status, is) = exit_status-ok info.code info.status ended.0 in
      let (mem, c) = bypid_found w info.pid id e in
      rw is (
        Returns-bind (λ r. Serviced w r.1) (svc_handle_evts env id exit_evt status w) _
          (svc_handle_evts-Reacts env id exit_evt status w s mem
            (λ _. child_not_stopped w id info.pid s c))
          (λ v h. Serviced-Reacts h))

  -- Whatever children waitid(2) reports, known or not, in whatever order: in a sound world every
  -- exit is handled with no failed assertion, and the world stays sound.
  pub tinit_sigchan_handle_sigchld-Serviced :
      (infos : List SigInfo) (cnt : ℕ) (w : World)
      → IsSound w
      → All HasEnded infos
      → Returns (λ r. Serviced w r.1) (tinit_sigchan_handle_sigchld env cnt infos w)
  unfolding tinit_sigchan_handle_sigchld
  tinit_sigchan_handle_sigchld-Serviced [] cnt w s ended = Serviced-refl w s
  tinit_sigchan_handle_sigchld-Serviced (info ∷ infos) cnt w s ended =
      rw (search_bypid-ok w info.pid ended.0.1) (
        Returns-bind (λ r. Serviced w r.1) (reap_svc env (bypid_loop w.svc info.pid w.repo) info w)
          _ (reap_svc-Serviced (bypid_loop w.svc info.pid w.repo) info w s ended.0 refl)
          (λ r h.
            Returns-map {P = λ q. Serviced r.1 q.1} {Q = λ q. Serviced w q.1}
              (tinit_sigchan_handle_sigchld env (cnt + r.0) infos r.1)
              (tinit_sigchan_handle_sigchld-Serviced infos (cnt + r.0) r.1 h.sound ended.1)
              (λ q k. Serviced-trans h k)))
