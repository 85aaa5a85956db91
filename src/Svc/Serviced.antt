-- ===== src/Svc/Serviced.antt =====
-- What any run of the daemon's handlers keeps.
use einit.Prelude.{ℕ, ◌≡◌, refl, ◌∙◌, subst}
use native.Mathlib.Decide.{ℕ_discrete}
use einit.World.{World}
use einit.Svc.Evolve.{SameSetup, SameSetup-refl, SameSetup-trans, IsSound}
use einit.Svc.React.{Reacts}

-- A run of the daemon's handlers: the repository and the registrations stay, soundness is kept.
pub record Serviced (v w : World) : Type 0 where
  pub repo : w.repo ≡ v.repo
  pub setup : (id : ℕ) → SameSetup (v.svc id) (w.svc id)
  pub sound : IsSound w

pub Serviced-refl : (w : World) → IsSound w → Serviced w w
Serviced-refl w s = record { repo = refl; setup = λ id. SameSetup-refl (w.svc id); sound = s }

pub Serviced-trans : {u v w : World} → Serviced u v → Serviced v w → Serviced u w
Serviced-trans h k = record {
  repo = k.repo ∙ h.repo;
  setup = λ id. SameSetup-trans (h.setup id) (k.setup id);
  sound = k.sound;
}

pub Serviced-Reacts : {id : ℕ} {v w : World} → Reacts id v w → Serviced v w
Serviced-Reacts {id} {v} {w} h = record {
  repo = h.repo;
  setup = λ j. elim (ℕ_discrete id j) [
    | yes e ↦ subst (λ k. SameSetup (v.svc k) (w.svc k)) e h.self
    | no n ↦ (h.others j n).setup
  ];
  sound = h.sound;
}
