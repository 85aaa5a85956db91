-- ===== src/Srv/Answer.antt =====
-- The requests on a service in a sound world: an error changes nothing, and a success has the service
-- on the side that was asked for.
use einit.Prelude.{
  ℕ, suc, length, true, ◌≡◌, ◌≢◌, ◌⊎◌, refl, ap, ◌∙◌, subst, inl, inr, Bool, false, some, In,
  Result, ok, Returns, Returns-bind, Option-cases, Bool-cases, ℤ, pos, negsuc, is_zero, arith, ◌||◌,
  is_neg, err, assertion, if◌then◌else◌,
}
use einit.Conf.{CStr}
use einit.Common.Names.{check_answer}
use einit.Common.Names.Valid.{tinit_check_svc_name-ok, check_answer_bounds}
use einit.World.{SvcState, stopped, starting, ready, stopping, Side, on, off, Env, World}
use einit.Svc.Spawn.{kill_run, svc_kill-ok}
use einit.Svc.Evolve.{side_of, side_of-Moves, IsSound}
use einit.Svc.React.{Reacts-of_Evolves}
use einit.Svc.Serviced.{Serviced, Serviced-refl}
use einit.Svc.Events.{svc_reload}
use einit.Svc.Events.Switch.{kill_run-Evolves}
use einit.Repo.{byname_loop, tinit_repo_search_byname}
use einit.Repo.Lookup.{byname_found, search_byname-ok}
use einit.Target.Switch.Chosen.{
  Turned, Turned-refl, Reacts-Turned, svc_start-Turned, svc_stop-Turned,
}
use einit.Srv.{
  named_request, start_in, stop_in, reload_in, tinit_srv_request_start, tinit_srv_request_stop,
  tinit_srv_request_reload,
}

-- What a request that asks for a side returns: an error, with the world as it was, or 0, with the
-- service of that name on the side.
abbrev pub Outcome : Side → CStr → World → ℤ × World → Type 0
Outcome side name w r =
    ((r.0 ≢ pos 0) × (r.1 ≡ w))
    ⊎ ((r.0 ≡ pos 0)
        × ((id : ℕ) × (tinit_repo_search_byname w name ≡ ok (some id))
            × (side_of (r.1.svc id).state ≡ side)))

pub record Granted (side : Side) (name : CStr) (w : World) (r : ℤ × World) : Type 0 where
  pub serviced : Serviced w r.1
  pub outcome : Outcome side name w r

Granted-refuse :
    (side : Side) (name : CStr) (w : World) (e : ℤ)
    → IsSound w
    → e ≢ pos 0
    → Granted side name w (e, w)
Granted-refuse side name w e s n = record { serviced = Serviced-refl w s; outcome = inl (n, refl) }

nonzero : (e : ℤ) → is_zero e ≡ false → e ≢ pos 0
nonzero (pos n) h = ground arith
nonzero (negsuc n) h = ground arith

is_zero→zero : (r : ℤ) → is_zero r ≡ true → r ≡ pos 0
is_zero→zero (pos n) h = ground arith
is_zero→zero (negsuc n) h = absurd (ground arith)

-- A name that passes the check meets the assertions of the lookup.
pub checked-found :
    (w : World) (name : CStr) (len : ℕ)
    → len ≡ length name
    → is_zero (check_answer name len) ≡ true
    → tinit_repo_search_byname w name ≡ ok (byname_loop w.svc name w.repo)
checked-found w name len size fine =
    let (n, m) = check_answer_bounds name len (is_zero→zero _ fine) in
    search_byname-ok w name (omega arith) (omega arith)

module _ (w : World) (s : IsSound w) (side : Side) (act : ℕ → World → Result World) where
  named_request-Granted :
      (name : CStr) (len : ℕ)
      → len ≡ length name
      → ((id : ℕ) → In id w.repo → Returns (Turned id side w) (act id w))
      → Returns (Granted side name w) (named_request act name len w)
  unfolding named_request
  named_request-Granted name len size h =
      rw (tinit_check_svc_name-ok name len size)
        (elim (Bool-cases (is_zero (check_answer name len))) [
          | inr bad ↦ rw bad (Granted-refuse side name w (check_answer name len) s (nonzero _ bad))
          | inl fine ↦
              (let found = checked-found w name len size fine in
                rw (fine, found)
                  (elim (Option-cases (byname_loop w.svc name w.repo)) [
                    | inl missing ↦ rw missing (Granted-refuse side name w _ s (ground arith))
                    | inr (id, e) ↦ rw e (
                        Returns-bind (Granted side name w) (act id w) _
                          (h id (byname_found w name id e))
                          (λ v t. record {
                            serviced = t.serviced;
                            outcome = inr (refl, (id, found ∙ ap ok e, t.turned));
                          }))
                  ]))
        ])

module _ (env : Env) (w : World) (s : IsSound w) where
  stay : (id : ℕ) (a : SvcState) → (w.svc id).state ≡ a → Turned id (side_of a) w w
  stay id a e = subst (λ side. Turned id side w w) (ap side_of e) (Turned-refl id w s)

  pub start_in-Turned :
      (id : ℕ) (a : SvcState)
      → In id w.repo
      → (w.svc id).state ≡ a
      → Returns (Turned id on w) (start_in env a id w)
  unfolding start_in
  start_in-Turned id starting mem e = stay id starting e
  start_in-Turned id ready mem e = stay id ready e
  start_in-Turned id stopped mem e = svc_start-Turned env id w s mem
  start_in-Turned id stopping mem e = svc_start-Turned env id w s mem

  pub stop_in-Turned :
      (id : ℕ) (a : SvcState)
      → In id w.repo
      → (w.svc id).state ≡ a
      → Returns (Turned id off w) (stop_in env a id w)
  unfolding stop_in
  stop_in-Turned id stopped mem e = stay id stopped e
  stop_in-Turned id stopping mem e = stay id stopping e
  stop_in-Turned id starting mem e = svc_stop-Turned env id w s mem
  stop_in-Turned id ready mem e = svc_stop-Turned env id w s mem

  -- A start request, with any name and its length, in a sound world: no assertion fails, the world stays sound, an
  -- error leaves it unchanged, and success means that the service of that name is starting or ready.
  pub tinit_srv_request_start-Granted :
      (name : CStr) (len : ℕ)
      → len ≡ length name
      → Returns (Granted on name w) (tinit_srv_request_start env name len w)
  unfolding tinit_srv_request_start
  tinit_srv_request_start-Granted name len size =
      named_request-Granted w s on (λ id v. start_in env (v.svc id).state id v) name len size
        (λ id mem. start_in-Turned id (w.svc id).state mem refl)

  -- A stop request, with any name and its length, in a sound world: no assertion fails, the world stays sound, an error
  -- leaves it unchanged, and success means that the service of that name is stopping or stopped.
  pub tinit_srv_request_stop-Granted :
      (name : CStr) (len : ℕ)
      → len ≡ length name
      → Returns (Granted off name w) (tinit_srv_request_stop env name len w)
  unfolding tinit_srv_request_stop
  tinit_srv_request_stop-Granted name len size =
      named_request-Granted w s off (λ id v. stop_in env (v.svc id).state id v) name len size
        (λ id mem. stop_in-Turned id (w.svc id).state mem refl)

  svc_reload-kills :
      (id n : ℕ)
      → (w.svc id).state ≡ ready
      → (w.svc id).child ≡ pos (suc n)
      → svc_reload env id w ≡ ok (kill_run env id (w.svc id).conf.reload_sig w).1
  unfolding svc_reload
  svc_reload-kills id n e c =
      rw (e, svc_kill-ok env id (w.svc id).conf.reload_sig w)
        (cond_ok (is_neg (w.svc id).child || is_zero (w.svc id).child) _ (rw c (ground arith)))
    where
      cond_ok : (b : Bool) (v : World) → b ≡ false → (if b then err assertion else ok v) ≡ ok v
      cond_ok b v h = rw h refl

  module _
      (alive : (id : ℕ)
        → (w.svc id).state ≡ ready
        → (n : ℕ) × ((w.svc id).child ≡ pos (suc n))) where
    reload_in-Turned :
        (id : ℕ) (a : SvcState)
        → In id w.repo
        → (w.svc id).state ≡ a
        → Returns (Turned id on w) (reload_in env a id w)
    unfolding reload_in
    reload_in-Turned id stopped mem e = svc_start-Turned env id w s mem
    reload_in-Turned id stopping mem e = svc_start-Turned env id w s mem
    reload_in-Turned id starting mem e = stay id starting e
    reload_in-Turned id ready mem e =
        let (n, c) = alive id e in
        let v : World = (kill_run env id (w.svc id).conf.reload_sig w).1 in
        let h = kill_run-Evolves env id (w.svc id).conf.reload_sig w in
        rw (svc_reload-kills id n e c) (
          Reacts-Turned id on w v (Reacts-of_Evolves id s h)
            (side_of-Moves (w.svc id).state (v.svc id).state (h.each id).moves ∙ ap side_of e))

    -- A reload request, with any name and its length, in a sound world in which every ready service has a process: no assertion
    -- fails, the world stays sound, an error leaves it unchanged, and success means that the service of
    -- that name is starting or ready.
    pub tinit_srv_request_reload-Granted :
        (name : CStr) (len : ℕ)
        → len ≡ length name
        → Returns (Granted on name w) (tinit_srv_request_reload env name len w)
    unfolding tinit_srv_request_reload
    tinit_srv_request_reload-Granted name len size =
        named_request-Granted w s on (λ id v. reload_in env (v.svc id).state id v) name len size
          (λ id mem. reload_in-Turned id (w.svc id).state mem refl)
