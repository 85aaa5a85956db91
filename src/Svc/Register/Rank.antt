-- ===== src/Svc/Register/Rank.antt =====
-- A registration that the search lets through keeps the services free of cycles.
use einit.Prelude.{
  ℕ, ◌+◌, ◌≤◌, ◌<◌, ◌≡◌, ◌⊎◌, ◌↔◌, refl, ap, sym, subst, inl, inr, Bool, true, false, List, In,
  length, ok, if◌then◌else◌, arith,
}
use einit.Svc.Register.{has_notifier}
use einit.Svc.Register.Reach.{
  Reach, here, through, IsRanked, false-true, below-lt, below-length, has_notifier-Decides,
}

-- The sources have a ranking: no service waits for itself.
abbrev pub IsAcyclic : (ℕ → List ℕ) → List ℕ → Type 0
IsAcyclic srcs repo = (rank : ℕ → ℕ) × IsRanked rank srcs repo

-- Within a ranking, reaching goes down.
Reach-le :
    (rank : ℕ → ℕ) (srcs : ℕ → List ℕ) (repo : List ℕ) {m x : ℕ}
    → IsRanked rank srcs repo
    → Reach srcs m x
    → rank m ≤ rank x
Reach-le rank srcs repo ranked here = omega arith
Reach-le rank srcs repo ranked (through {x} {y} i r) =
    omega (arith, (ranked x y i).0, Reach-le rank srcs repo ranked r)

-- No service of an acyclic repository is a source of its own, however many others lie between.
pub IsAcyclic-no_loop :
    (srcs : ℕ → List ℕ) (repo : List ℕ) (x y : ℕ)
    → IsAcyclic srcs repo
    → In y (srcs x)
    → ¬ Reach srcs x y
IsAcyclic-no_loop srcs repo x y (rank, ranked) i r =
    omega (arith, (ranked x y i).0, Reach-le rank srcs repo ranked r)

module _ (srcs : ℕ → List ℕ) (repo : List ℕ) (m : ℕ) (acyclic : IsAcyclic srcs repo) where
  -- In an acyclic repository the search for a service from another one ends, within as many nested calls
  -- as there are services, and returns true exactly if the one waits for the other or is the same.
  pub has_notifier-decides :
      (x : ℕ)
      → In x repo
      → (b : Bool) × (has_notifier srcs (length repo) x m ≡ ok b) × ((b ≡ true) ↔ Reach srcs m x)
  has_notifier-decides x i =
      let (rank, ranked) = acyclic in
      let fewer = below-lt rank x (rank x + 1) repo i (omega arith) in
      let most = below-length rank (rank x + 1) repo in
      has_notifier-Decides rank srcs repo ranked m (length repo) x (omega arith)

  reaches : (x : ℕ) → (b : Bool) × ((b ≡ true) ↔ Reach srcs m x)
  reaches x =
      let (rank, ranked) = acyclic in
      let most = below-length rank (rank x) repo in
      let (b, e, iff) =
        has_notifier-Decides rank srcs repo ranked m (length repo + 1) x (omega arith) in
      (b, iff)

-- A new source for `sink` that does not wait for `sink`.
pub IsAcyclic-add :
    (srcs srcs' : ℕ → List ℕ) (repo : List ℕ) (sink src : ℕ)
    → IsAcyclic srcs repo
    → In src repo
    → ¬ Reach srcs sink src
    → ((x y : ℕ) → In y (srcs' x) → In y (srcs x) ⊎ ((x ≡ sink) × (y ≡ src)))
    → IsAcyclic srcs' repo
IsAcyclic-add srcs srcs' repo sink src (rank, ranked) mem free grown = (
  λ x. lifted x (reaches srcs repo sink (rank, ranked) x).0,
  λ x y i. elim (grown x y i) [
    | inl old ↦ (
      old_edge x y old (reaches srcs repo sink (rank, ranked) x)
          (reaches srcs repo sink (rank, ranked) y),
      (ranked x y old).1,
    )
    | inr (same_x, same_y) ↦ (
      new_edge x y same_x same_y (reaches srcs repo sink (rank, ranked) x)
          (reaches srcs repo sink (rank, ranked) y),
      subst (λ k. In k repo) (sym same_y) mem,
    )
  ],
)
  where
    lifted : ℕ → Bool → ℕ
    lifted x b = if b then rank x + rank src + 1 else rank x

    old_edge :
        (x y : ℕ)
        → In y (srcs x)
        → (p : (b : Bool) × ((b ≡ true) ↔ Reach srcs sink x))
          (q : (b : Bool) × ((b ≡ true) ↔ Reach srcs sink y))
        → lifted y q.0 < lifted x p.0
    old_edge x y i (true, p) (true, q) = omega (arith, (ranked x y i).0)
    old_edge x y i (true, p) (false, q) = omega (arith, (ranked x y i).0)
    old_edge x y i (false, p) (true, q) = absurd (false-true (p.1 (through i (q.0 refl))))
    old_edge x y i (false, p) (false, q) = (ranked x y i).0

    new_edge :
        (x y : ℕ)
        → x ≡ sink
        → y ≡ src
        → (p : (b : Bool) × ((b ≡ true) ↔ Reach srcs sink x))
          (q : (b : Bool) × ((b ≡ true) ↔ Reach srcs sink y))
        → lifted y q.0 < lifted x p.0
    new_edge x y ex ey (true, p) (true, q) = absurd (free (subst (Reach srcs sink) ey (q.0 refl)))
    new_edge x y ex ey (true, p) (false, q) = let e = ap rank ey in omega arith
    new_edge x y ex ey (false, p) q =
        absurd (false-true (p.1 (subst (Reach srcs sink) (sym ex) here)))
