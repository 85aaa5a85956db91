-- ===== src/Repo/Load/Rounds.antt =====
-- The last loop of tinit_repo_load(): both polls of every service are set up, each once.
use einit.Prelude.{
  ℕ, ◌≡◌, ◌≢◌, ◌⊎◌, refl, ap, ◌∙◌, sym, subst, inl, inr, List, [], ◌∷◌, ◌++◌, In, Returns,
  Returns-bind, Returns-map,
}
use einit.Conf.Load.Valid.{OptAll, IsNames}
use einit.World.{World}
use einit.Svc.Register.{Relation, starton, stopon, poll_of, conf_of, svc_init_notif_obsrv}
use einit.Svc.Register.Wired.{Wired}
use einit.Repo.Load.{tinit_repo_setup_svc, setup_loop}
use einit.Repo.Load.Wiring.{Setup, Setup-refl, Setup-trans, OnePoll, setup_svc-OnePoll}

abbrev pub IsNodup : List ℕ → Type 0
IsNodup [] = Unit
IsNodup (x ∷ xs) = ¬ In x xs × IsNodup xs

pub IsNodup-append : (xs : List ℕ) (x : ℕ) → IsNodup xs → ¬ In x xs → IsNodup (xs ++ (x ∷ []))
IsNodup-append [] x d n = ((λ i. elim i [ ]), tt)
IsNodup-append (y ∷ xs) x (fresh, d) n = (
  λ i. elim (last y xs i) [ inl j ↦ fresh j | inr e ↦ n (inl (sym e)) ],
  IsNodup-append xs x d (λ i. n (inr i)),
)
  where
    last : (a : ℕ) (ys : List ℕ) → In a (ys ++ (x ∷ [])) → In a ys ⊎ (a ≡ x)
    last a [] (inl e) = inr e
    last a [] (inr i) = elim i [ ]
    last a (z ∷ ys) (inl e) = inl (inl e)
    last a (z ∷ ys) (inr i) = elim (last a ys i) [ inl j ↦ inl (inr j) | inr e ↦ inr e ]

-- The poll is as svc_init() left it, and the configuration names a source if it has a list.
abbrev pub IsUnset : Relation → ℕ → World → Type 0
IsUnset rel id w =
    (poll_of rel (w.svc id) ≡ svc_init_notif_obsrv (conf_of rel (w.svc id).conf))
    × OptAll IsNames (conf_of rel (w.svc id).conf)

-- The setup of one poll leaves every other one unset.
IsUnset-kept :
    (rel other : Relation) (sink id : ℕ) {w v : World}
    → OnePoll rel sink w v
    → ¬ ((other ≡ rel) × (id ≡ sink))
    → IsUnset other id w
    → IsUnset other id v
IsUnset-kept rel other sink id {w} {v} h apart (poll, named) =
    let same = (h.setup.core id).conf in
    (
      elim (h.others other id) [
        | inr own ↦ absurd (apart own)
        | inl e ↦ e ∙ poll ∙ ap (λ c. svc_init_notif_obsrv (conf_of other c)) (sym same)
      ],
      subst (λ c. OptAll IsNames (conf_of other c)) (sym same) named,
    )

stopon_starton : stopon ≢ starton
stopon_starton e = cc

-- Both setups of one service.
both_relations-Setup :
    (id : ℕ) (ids : List ℕ) (w : World)
    → Wired w
    → In id w.repo
    → ¬ In id ids
    → ((rel : Relation) → IsUnset rel id w)
    → ((rel : Relation) (j : ℕ) → In j ids → IsUnset rel j w)
    → Returns
        (λ v.
          Returns
            (λ u. Setup w u × ((rel : Relation) (j : ℕ) → In j ids → IsUnset rel j u))
            (tinit_repo_setup_svc stopon id v))
        (tinit_repo_setup_svc starton id w)
both_relations-Setup id ids w wired mem fresh own rest =
    Returns-map (tinit_repo_setup_svc starton id w)
      (setup_svc-OnePoll starton id w wired mem (own starton).0 (own starton).1)
      (λ v h.
        let next = IsUnset-kept starton stopon id id h (λ p. stopon_starton p.0) (own stopon) in
        Returns-map (tinit_repo_setup_svc stopon id v)
          (setup_svc-OnePoll stopon id v h.setup.wired (subst (In id) (sym h.setup.repo) mem) next.0
            next.1)
          (λ u k. (
            Setup-trans h.setup k.setup,
            λ rel j i.
                let apart : j ≢ id = λ e. fresh (subst (λ m. In m ids) e i) in
                IsUnset-kept stopon rel id j k (λ p. apart p.1)
                  (IsUnset-kept starton rel id j h (λ p. apart p.1) (rest rel j i)),
          )))

pub setup_loop-Setup :
    (ids : List ℕ) (w : World)
    → Wired w
    → IsNodup ids
    → ((id : ℕ) → In id ids → In id w.repo)
    → ((rel : Relation) (id : ℕ) → In id ids → IsUnset rel id w)
    → Returns (Setup w) (setup_loop ids w)
unfolding setup_loop
setup_loop-Setup [] w wired d mem unset = Setup-refl w wired
setup_loop-Setup (id ∷ ids) w wired (fresh, d) mem unset =
    Returns-bind (Setup w) (tinit_repo_setup_svc starton id w) _
      (both_relations-Setup id ids w wired (mem id (inl refl)) fresh
        (λ rel. unset rel id (inl refl)) (λ rel j i. unset rel j (inr i)))
      (λ v inner. Returns-bind (Setup w) (tinit_repo_setup_svc stopon id v) _ inner (λ u (h, rest).
        Returns-map (setup_loop ids u)
          (setup_loop-Setup ids u h.wired d (λ j i. subst (In j) (sym h.repo) (mem j (inr i))) rest)
          (λ x k. Setup-trans h k)))
