-- ===== src/Svc/Register/Reach.antt =====
-- The search for a notifier among the sources, and the sources' sources: on a graph with ranks it ends
-- within as many nested calls as there are services, and finds exactly the services waited for.
use einit.Prelude.{
  ℕ, zero, suc, ◌+◌, ◌≤◌, ◌<◌, ◌≡◌, ◌≢◌, ◌⊎◌, ◌↔◌, refl, ap, sym, subst, inl, inr, Bool, true,
  false, List, [], ◌∷◌, In, length, Result, ok, ltb, ◌==◌, ==_iff, if◌then◌else◌, Bool-cases, arith,
}
use einit.Svc.Register.{any_notifier, has_notifier}

-- `x` is `m` or waits for it, itself or through others.
pub data Reach (srcs : ℕ → List ℕ) (m : ℕ) : ℕ → Type 0 where
  here : Reach srcs m m
  through : {x y : ℕ} → In y (srcs x) → Reach srcs m y → Reach srcs m x

-- Sources are services of the repository, and rank below what waits for them.
abbrev pub IsRanked : (ℕ → ℕ) → (ℕ → List ℕ) → List ℕ → Type 0
IsRanked rank srcs repo = (x y : ℕ) → In y (srcs x) → (rank y < rank x) × In y repo

-- the services below a rank
unfoldable pub below : (ℕ → ℕ) → ℕ → List ℕ → ℕ
below rank n [] = 0
below rank n (x ∷ xs) = (if ltb (rank x) n then 1 else 0) + below rank n xs

below_mono : (rank : ℕ → ℕ) (a b : ℕ) (xs : List ℕ) → a ≤ b → below rank a xs ≤ below rank b xs
unfolding below
below_mono rank a b [] h = omega arith
below_mono rank a b (x ∷ xs) h = let ih = below_mono rank a b xs h in ground arith

pub below-lt :
    (rank : ℕ → ℕ) (x b : ℕ) (xs : List ℕ)
    → In x xs
    → rank x < b
    → below rank (rank x) xs < below rank b xs
unfolding below
below-lt rank x b [] m h = elim m [ ]
below-lt rank x b (y ∷ xs) (inl e) h =
    let ih = below_mono rank (rank x) b xs (omega arith) in
    let f : rank y ≡ rank x = ap rank (sym e) in ground arith
below-lt rank x b (y ∷ xs) (inr m) h = let ih = below-lt rank x b xs m h in ground arith

pub below-length : (rank : ℕ → ℕ) (n : ℕ) (xs : List ℕ) → below rank n xs ≤ length xs
unfolding below
below-length rank n [] = omega arith
below-length rank n (x ∷ xs) = let ih = below-length rank n xs in ground arith

pub false-true : false ≢ true
false-true q = cc

module _ (rank : ℕ → ℕ) (srcs : ℕ → List ℕ) (repo : List ℕ) (ranked : IsRanked rank srcs repo)
    (m : ℕ) where
  Some : List ℕ → Type 0
  Some ys = (y : ℕ) × In y ys × Reach srcs m y

  Reach-cases : {x : ℕ} → Reach srcs m x → (x ≡ m) ⊎ Some (srcs x)
  unfolding Some
  Reach-cases here = inl refl
  Reach-cases (through {x} {y} i r) = inr (y, i, r)

  -- The search from a service returns, and tells whether it reaches `m`.
  abbrev pub Decides : ℕ → Result Bool → Type 0
  Decides x r = (b : Bool) × (r ≡ ok b) × ((b ≡ true) ↔ Reach srcs m x)

  any_notifier-Decides :
      (test : ℕ → Result Bool) (ys : List ℕ)
      → ((y : ℕ) → In y ys → Decides y (test y))
      → (b : Bool) × (any_notifier test ys ≡ ok b) × ((b ≡ true) ↔ Some ys)
  unfolding any_notifier Some
  any_notifier-Decides test [] h =
      (false, refl, (λ e. absurd (ground arith), λ (y, i, r). elim i [ ]))
  any_notifier-Decides test (y ∷ ys) h =
      let (b, e, iff) = h y (inl refl) in
      let (c, f, jff) = any_notifier-Decides test ys (λ z i. h z (inr i)) in step b c e f iff jff
    where
      step :
          (b c : Bool)
          → test y ≡ ok b
          → any_notifier test ys ≡ ok c
          → (b ≡ true) ↔ Reach srcs m y
          → (c ≡ true) ↔ Some ys
          → (d : Bool) × (any_notifier test (y ∷ ys) ≡ ok d) × ((d ≡ true) ↔ Some (y ∷ ys))
      step true c e f iff jff = rw e (true, refl, (λ q. (y, inl refl, iff.0 refl), λ q. refl))
      step false c e f iff jff = rw e (
        c,
        f,
        (
          λ q. (let (z, i, r) = jff.0 q in (z, inr i, r)),
          λ (z, i, r). elim i [
            | inl same ↦ absurd (false-true (iff.1 (subst (Reach srcs m) same r)))
            | inr later ↦ jff.1 (z, later, r)
          ],
        ),
      )

  pub has_notifier-Decides :
      (fuel x : ℕ) → below rank (rank x) repo < fuel → Decides x (has_notifier srcs fuel x m)
  unfolding has_notifier Some
  has_notifier-Decides zero x h = absurd (omega arith)
  has_notifier-Decides (suc fuel) x h = elim (Bool-cases (x == m)) [
    | inl same ↦
        (let e = (==_iff x m).0 same in
          rw same (true, refl, (λ q. subst (Reach srcs m) (sym e) here, λ q. refl)))
    | inr other ↦
        (let (b, f, iff) =
            any_notifier-Decides (λ src. has_notifier srcs fuel src m) (srcs x)
              (λ y i.
                let (lt, mem) = ranked x y i in
                let fewer = below-lt rank y (rank x) repo mem lt in
                has_notifier-Decides fuel y (omega arith)) in
          rw other (
            b,
            f,
            (
              λ q. (let (y, i, r) = iff.0 q in through i r),
              λ r. elim (Reach-cases r) [
                | inl e ↦ absurd (differs e other)
                | inr found ↦ iff.1 found
              ],
            ),
          ))
  ]
    where
      differs : x ≡ m → (x == m) ≢ false
      differs e q = let t = (==_iff x m).1 e in cc
