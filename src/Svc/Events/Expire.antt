-- ===== src/Svc/Events/Expire.antt =====
-- The expiry of a timer while the service is switched off.
use einit.Prelude.{ℕ, ◌≡◌, refl, inl, inr, some, In, Returns, Bool-cases, is_zero}
use einit.World.{SvcState, stopped, starting, ready, stopping, Side, on, off, Env, World, installed}
use einit.Svc.Spawn.{kill_run, svc_kill-ok}
use einit.Svc.Evolve.{side_of, IsSound, Evolves, Evolves-refl}
use einit.Svc.Events.{sigkill, expire_off_by, svc_expire_off, svc_expire}
use einit.Svc.Events.Switch.{kill_run-Evolves, kill_failed-Evolves}

module _ (env : Env) (id : ℕ) (w : World) (s : IsSound w) (mem : In id w.repo) where
  expire_off_by-Evolves :
      (a : SvcState)
      → (w.svc id).state ≡ a
      → side_of a ≡ off
      → Returns (Evolves w) (expire_off_by env a id w)
  unfolding expire_off_by
  expire_off_by-Evolves starting e o = cc
  expire_off_by-Evolves ready e o = cc
  expire_off_by-Evolves stopped e o = Evolves-refl w
  expire_off_by-Evolves stopping e o =
      rw (svc_kill-ok env id sigkill w) (elim (Bool-cases (is_zero (kill_run env id sigkill w).0)) [
        | inl found ↦ rw found (kill_run-Evolves env id sigkill w)
        | inr gone ↦ rw gone (kill_failed-Evolves env id sigkill w s mem e)
      ])

  -- The expiry of the timer of a service that is switched off starts nothing but the rest of the
  -- stop sequence.
  pub svc_expire-Evolves :
      (side : Side)
      → installed w.log id ≡ some side
      → side_of (w.svc id).state ≡ off
      → Returns (Evolves w) (svc_expire env side id w)
  unfolding svc_expire svc_expire_off
  svc_expire-Evolves on e o = let h = s.armed id on e in cc
  svc_expire-Evolves off e o = expire_off_by-Evolves (w.svc id).state refl o
