-- ===== src/Target/Switch/Chosen.antt =====
-- Switching to a target turns on exactly the services that it names.
use einit.Prelude.{
  ℕ, ◌≡◌, refl, sym, ap, ◌∙◌, subst, ◌⊎◌, inl, inr, Bool, true, false, List, [], ◌∷◌, In, All,
  All-In, Returns, Returns-bind, Returns-map,
}
use native.Mathlib.Decide.{ℕ_discrete}
use einit.World.{SvcState, stopped, starting, ready, stopping, Side, on, off, Env, World}
use einit.Svc.Evolve.{side_of, side_of-Moves, IsSound, Evolves}
use einit.Svc.React.{Reacts, Reacts-Evolves}
use einit.Svc.Serviced.{Serviced, Serviced-refl, Serviced-trans, Serviced-Reacts}
use einit.Svc.Events.{svc_start, svc_stop, enter_starting, enter_stopping}
use einit.Svc.Events.Switch.{
  enter_starting-Reacts, enter_stopping-Reacts, state-enter_starting, state-enter_stopping,
  svc_start-Evolves, svc_stop-Evolves,
}
use einit.Target.{in_target, switch_one, switch_loop}

-- The side on which a switch leaves a service.
abbrev pub wanted : Bool → Side
wanted true = on
wanted false = off

-- One service has been brought to a side, and no other one has changed sides.
pub record Turned (id : ℕ) (side : Side) (v w : World) : Type 0 where
  pub serviced : Serviced v w
  pub turned : side_of (w.svc id).state ≡ side
  pub kept : (j : ℕ) → (side_of (w.svc j).state ≡ side_of (v.svc j).state) ⊎ (id ≡ j)

pub Reacts-Turned :
    (id : ℕ) (side : Side) (v w : World)
    → Reacts id v w
    → side_of (w.svc id).state ≡ side
    → Turned id side v w
Reacts-Turned id side v w h e = record {
  serviced = Serviced-Reacts h;
  turned = e;
  kept = λ j. elim (ℕ_discrete id j) [
    | yes same ↦ inr same
    | no other ↦ inl (side_of-Moves (v.svc j).state (w.svc j).state (h.others j other).moves)
  ];
}

pub Turned-refl : (id : ℕ) (w : World) → IsSound w → Turned id (side_of (w.svc id).state) w w
Turned-refl id w s = record { serviced = Serviced-refl w s; turned = refl; kept = λ j. inl refl }

module _ (env : Env) (id : ℕ) (w : World) (s : IsSound w) (mem : In id w.repo) where
  pub svc_start-Turned : Returns (Turned id on w) (svc_start env id w)
  svc_start-Turned =
      Returns-map {P = Evolves (enter_starting env id w)} {Q = Turned id on w} (svc_start env id w)
        (svc_start-Evolves env id w s mem)
        (λ v h. Reacts-Turned id on w v (Reacts-Evolves (enter_starting-Reacts env id w s mem) h) (
          side_of-Moves ((enter_starting env id w).svc id).state (v.svc id).state (h.each id).moves
          ∙ ap side_of (state-enter_starting env id w)))

  pub svc_stop-Turned : Returns (Turned id off w) (svc_stop env id w)
  svc_stop-Turned =
      Returns-map {P = Evolves (enter_stopping env id w)} {Q = Turned id off w} (svc_stop env id w)
        (svc_stop-Evolves env id w s mem)
        (λ v h. Reacts-Turned id off w v (Reacts-Evolves (enter_stopping-Reacts env id w s mem) h) (
          side_of-Moves ((enter_stopping env id w).svc id).state (v.svc id).state (h.each id).moves
          ∙ ap side_of (state-enter_stopping env id w)))

  switch_one-Turned :
      (found : Bool) (a : SvcState)
      → (w.svc id).state ≡ a
      → Returns (Turned id (wanted found) w) (switch_one env found a id w)
  unfolding switch_one
  switch_one-Turned false starting e = svc_stop-Turned
  switch_one-Turned false ready e = svc_stop-Turned
  switch_one-Turned true stopped e = svc_start-Turned
  switch_one-Turned true stopping e = svc_start-Turned
  switch_one-Turned false stopped e =
      subst (λ side. Turned id side w w) (ap side_of e) (Turned-refl id w s)
  switch_one-Turned false stopping e =
      subst (λ side. Turned id side w w) (ap side_of e) (Turned-refl id w s)
  switch_one-Turned true starting e =
      subst (λ side. Turned id side w w) (ap side_of e) (Turned-refl id w s)
  switch_one-Turned true ready e =
      subst (λ side. Turned id side w w) (ap side_of e) (Turned-refl id w s)

-- A run of the daemon does not rename services.
in_target_same :
    (v w : World) (id : ℕ) (tbl : List ℕ) → Serviced v w → in_target w id tbl ≡ in_target v id tbl
unfolding in_target
in_target_same v w id [] h = refl
in_target_same v w id (curr ∷ tbl) h =
    rw ((h.setup curr).conf, (h.setup id).conf, in_target_same v w id tbl h) refl

-- What a run over the services `ids` has done.
record Switched (tbl ids : List ℕ) (v w : World) : Type 0 where
  pub serviced : Serviced v w
  pub chosen : (id : ℕ) → In id ids → side_of (w.svc id).state ≡ wanted (in_target v id tbl)
  pub kept :
      (id : ℕ)
      → (side_of (w.svc id).state ≡ side_of (v.svc id).state)
        ⊎ (side_of (w.svc id).state ≡ wanted (in_target v id tbl))

Switched-cons :
    (tbl : List ℕ) (id : ℕ) (ids : List ℕ) (u v w : World)
    → Turned id (wanted (in_target u id tbl)) u v
    → Switched tbl ids v w
    → Switched tbl (id ∷ ids) u w
Switched-cons tbl id ids u v w t k =
    let same : (j : ℕ) → in_target v j tbl ≡ in_target u j tbl =
      λ j. in_target_same u v j tbl t.serviced in
    record {
      serviced = Serviced-trans t.serviced k.serviced;
      chosen = λ j m. elim m [
        | inl e ↦
            subst (λ i. side_of (w.svc i).state ≡ wanted (in_target u i tbl)) (sym e)
              (elim (k.kept id) [
                | inl stay ↦ stay ∙ t.turned
                | inr turn ↦ turn ∙ ap wanted (same id)
              ])
        | inr later ↦ k.chosen j later ∙ ap wanted (same j)
      ];
      kept = λ j. elim (k.kept j) [
        | inr turn ↦ inr (turn ∙ ap wanted (same j))
        | inl stay ↦ elim (t.kept j) [
          | inl before ↦ inl (stay ∙ before)
          | inr e ↦
              inr (
                stay ∙ subst (λ i. side_of (v.svc i).state ≡ wanted (in_target u i tbl)) e t.turned)
        ]
      ];
    }

module _ (env : Env) (tbl : List ℕ) where
  switch_loop-Switched :
      (ids : List ℕ) (w : World)
      → IsSound w
      → ((id : ℕ) → In id ids → In id w.repo)
      → Returns (Switched tbl ids w) (switch_loop env tbl ids w)
  unfolding switch_loop
  switch_loop-Switched [] w s mem = record {
    serviced = Serviced-refl w s;
    chosen = λ id m. elim m [ ];
    kept = λ id. inl refl;
  }
  switch_loop-Switched (id ∷ ids) w s mem =
      Returns-bind (Switched tbl (id ∷ ids) w)
        (switch_one env (in_target w id tbl) (w.svc id).state id w) _
        (switch_one-Turned env id w s (mem id (inl refl)) (in_target w id tbl) (w.svc id).state
          refl)
        (λ v t.
          Returns-map {P = Switched tbl ids v} {Q = Switched tbl (id ∷ ids) w}
            (switch_loop env tbl ids v)
            (switch_loop-Switched ids v t.serviced.sound
              (λ j m. subst (In j) (sym t.serviced.repo) (mem j (inr m))))
            (λ u k. Switched-cons tbl id ids w v u t k))

  -- Switching to the services of a target, in a sound world: the loop over the repository fails at
  -- no assertion, leaves the world sound, and every service of the repository is starting or ready
  -- if a service of the target has its name, and stopping or stopped if none has.
  pub switch_loop-chosen :
      (w : World)
      → IsSound w
      → Returns
          (λ v.
            IsSound v × All (λ id. side_of (v.svc id).state ≡ wanted (in_target w id tbl)) w.repo)
          (switch_loop env tbl w.repo w)
  switch_loop-chosen w s =
      Returns-map {P = Switched tbl w.repo w} (switch_loop env tbl w.repo w)
        (switch_loop-Switched w.repo w s (λ id m. m))
        (λ v h. (h.serviced.sound, All-In w.repo h.chosen))

  pub switch_loop-Serviced :
      (w : World) → IsSound w → Returns (Serviced w) (switch_loop env tbl w.repo w)
  switch_loop-Serviced w s =
      Returns-map {P = Switched tbl w.repo w} {Q = Serviced w} (switch_loop env tbl w.repo w)
        (switch_loop-Switched w.repo w s (λ id m. m)) (λ v h. h.serviced)
