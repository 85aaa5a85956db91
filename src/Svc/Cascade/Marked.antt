-- ===== src/Svc/Cascade/Marked.antt =====
-- What svc_mark_ready() and svc_mark_stopped() do beyond the new state itself: only what the observers do.
use einit.Prelude.{
  ℕ, zero, suc, ◌≤◌, ◌≡◌, refl, ap, ◌∙◌, inl, inr, true, false, In, length, Returns, negsuc, arith,
}
use einit.World.{stopped, ready, Svc, Env, World, put}
use einit.Svc.Cascade.{
  Mark, mark_ready, mark_stopped, mark_step, mark, svc_mark, svc_mark_ready, svc_mark_stopped,
}
use einit.Svc.Cascade.Writes.{before}
use einit.Svc.Cascade.Total.{notif_foreach-Evolves, mark-Serves}
use einit.Svc.Evolve.{
  IsSound, Evolves, Evolves-put, Evolves-IsSound, is_moving, moving, moving-pos, moving-lt-Evolves,
  moving-le-length, put_self,
}

-- the service as it is once it is marked
abbrev pub marked : Mark → Svc → Svc
marked mark_ready s = record s { state = ready }
marked mark_stopped s = record s { child = negsuc 0; state = stopped }

pub marked-Evolves :
    (m : Mark) (id : ℕ) (w : World)
    → (w.svc id).state ≡ before m
    → Evolves w (put w id (marked m (w.svc id)))
marked-Evolves mark_ready id w e =
    Evolves-put w id (record (w.svc id) { state = ready })
      (record {
        setup = ground arith;
        evts = refl;
        notif = refl;
        moves = inr (inl (e, refl));
        idle = λ k. cc;
      })
marked-Evolves mark_stopped id w e =
    Evolves-put w id (record (w.svc id) { child = negsuc 0; state = stopped })
      (record {
        setup = ground arith;
        evts = refl;
        notif = refl;
        moves = inr (inr (e, refl));
        idle = λ k. inl refl;
      })

marked_rests : (m : Mark) (s : Svc) → is_moving (marked m s).state ≡ false
marked_rests mark_ready s = refl
marked_rests mark_stopped s = refl

before_moves : (m : Mark) → is_moving (before m) ≡ true
before_moves mark_ready = refl
before_moves mark_stopped = refl

module _ (env : Env) (id : ℕ) (w : World) (s : IsSound w) (mem : In id w.repo) where
  fewer :
      (m : Mark) (f : ℕ)
      → (w.svc id).state ≡ before m
      → moving w.svc w.repo ≤ suc f
      → moving (put w id (marked m (w.svc id))).svc w.repo ≤ f
  fewer m f e small =
      let less =
        moving-lt-Evolves id (marked-Evolves m id w e) mem (ap is_moving e ∙ before_moves m) (
          ap (λ (t : Svc). is_moving t.state) (put_self w id (marked m (w.svc id)))
          ∙ marked_rests m (w.svc id)) in
      omega arith

  mark-marked :
      (m : Mark) (fuel : ℕ)
      → (w.svc id).state ≡ before m
      → moving w.svc w.repo ≤ fuel
      → Returns (Evolves (put w id (marked m (w.svc id)))) (mark env fuel m id w)
  unfolding mark mark_step svc_mark_ready svc_mark_stopped
  mark-marked m zero e small =
      let some_moves = moving-pos w.svc w.repo id mem (ap is_moving e ∙ before_moves m) in
      absurd (omega arith)
  mark-marked mark_ready (suc f) e small =
      notif_foreach-Evolves env (mark env f) (mark-Serves env f) id (w.svc id).starton_obsrv
        (put w id (marked mark_ready (w.svc id)))
        (Evolves-IsSound (marked-Evolves mark_ready id w e) s) (s.starton_closed id)
        (fewer mark_ready f e small)
  mark-marked mark_stopped (suc f) e small =
      notif_foreach-Evolves env (mark env f) (mark-Serves env f) id (w.svc id).stopon_obsrv
        (put w id (marked mark_stopped (w.svc id)))
        (Evolves-IsSound (marked-Evolves mark_stopped id w e) s) (s.stopon_closed id)
        (fewer mark_stopped f e small)

  -- The observers are notified in the world in which the service is marked.
  pub svc_mark-marked :
      (m : Mark)
      → (w.svc id).state ≡ before m
      → Returns (Evolves (put w id (marked m (w.svc id)))) (svc_mark env m id w)
  unfolding svc_mark
  svc_mark-marked m e = mark-marked m (length w.repo) e (moving-le-length w.svc w.repo)
