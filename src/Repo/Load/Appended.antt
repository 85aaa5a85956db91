-- ===== src/Repo/Load/Appended.antt =====
-- One more service in the repository that is being filled.
use einit.Prelude.{
  ℕ, ◌≡◌, ◌⊎◌, refl, ap, ◌∙◌, sym, subst, inl, inr, true, false, List, [], ◌∷◌, ◌++◌, In, All, map,
  length, length-append, Bool-cases, ◌==◌, ==_iff, arith,
}
use einit.Conf.{ConfSvc}
use einit.Conf.Load.Accepted.{IsConf}
use einit.World.{Svc, World, update}
use einit.Svc.Register.{svc_init}
use einit.Repo.Load.{append_svc}
use einit.Repo.Load.Rounds.{IsNodup-append}
use einit.Repo.Load.Loaded.{IsIdle, Filled, svc_init-IsIdle, svc_init-IsUnset}

In-last : (a : ℕ) (xs : List ℕ) (x : ℕ) → In a (xs ++ (x ∷ [])) → In a xs ⊎ (a ≡ x)
In-last a [] x (inl e) = inr e
In-last a [] x (inr i) = elim i [ ]
In-last a (y ∷ xs) x (inl e) = inl (inl e)
In-last a (y ∷ xs) x (inr i) = elim (In-last a xs x i) [ inl j ↦ inl (inr j) | inr e ↦ inr e ]

All-append :
    {A : Type 0} (P : A → Type 0) (xs : List A) (x : A) → All P xs → P x → All P (xs ++ (x ∷ []))
All-append P [] x h p = (p, tt)
All-append P (y ∷ xs) x h p = (h.0, All-append P xs x h.1 p)

-- The new service's configuration comes last, and the others' are still there.
confs-append :
    (f : ℕ → Svc) (id : ℕ) (s : Svc) (ids : List ℕ)
    → ¬ In id ids
    → map (λ j. (update f id s j).conf) (ids ++ (id ∷ []))
      ≡ map (λ j. (f j).conf) ids ++ (s.conf ∷ [])
confs-append f id s [] n = rw ((==_iff id id).1 refl) refl
confs-append f id s (j ∷ ids) n = elim (Bool-cases (id == j)) [
  | inl e ↦ absurd (n (inl ((==_iff id j).0 e)))
  | inr e ↦ rw (e, confs-append f id s ids (λ i. n (inr i))) refl
]

pub append_svc-Filled :
    (confs : List ConfSvc) (conf : ConfSvc) (junk : Svc) (w : World)
    → Filled confs w
    → IsConf conf
    → Filled (confs ++ (conf ∷ [])) (append_svc conf junk w)
unfolding svc_init
append_svc-Filled confs conf junk w h valid =
    let id = length w.repo in
    record {
      nodup = IsNodup-append w.repo id h.nodup fresh;
      bounded = λ j i. elim (In-last j w.repo id i) [
        | inl old ↦ omega (arith, h.bounded j old, length-append w.repo (id ∷ []))
        | inr e ↦ omega (arith, length-append w.repo (id ∷ []))
      ];
      log = h.log;
      idle = λ j. elim (Bool-cases (id == j)) [
        | inl e ↦ subst IsIdle (sym (at_new j e)) (svc_init-IsIdle conf junk)
        | inr e ↦ subst IsIdle (sym (at_old j e)) (h.idle j)
      ];
      unset = λ rel j i. elim (Bool-cases (id == j)) [
        | inl e ↦ svc_init-IsUnset rel j conf junk (append_svc conf junk w) valid (at_new j e)
        | inr e ↦ elim (In-last j w.repo id i) [
          | inl old ↦ rw (at_old j e) (h.unset rel j old)
          | inr same ↦ absurd (ground arith)
        ]
      ];
      listed =
          confs-append w.svc id (svc_init conf junk) w.repo fresh
          ∙ ap (λ l. l ++ (conf ∷ [])) h.listed;
      valid = All-append IsConf confs conf h.valid valid;
    }
  where
    fresh : ¬ In (length w.repo) w.repo
    fresh i = omega (arith, h.bounded (length w.repo) i)

    at_new :
        (j : ℕ) → (length w.repo == j) ≡ true → (append_svc conf junk w).svc j ≡ svc_init conf junk
    at_new j e = rw e refl

    at_old : (j : ℕ) → (length w.repo == j) ≡ false → (append_svc conf junk w).svc j ≡ w.svc j
    at_old j e = rw e refl
