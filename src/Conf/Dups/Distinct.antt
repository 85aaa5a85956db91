-- ===== src/Conf/Dups/Distinct.antt =====
-- The check finds a string that stands twice, or that is the service's own name, and nothing else.
use einit.Prelude.{
  ◌≡◌, ◌≢◌, ◌↔◌, refl, Bool, true, false, List, [], ◌∷◌, All, Result, ok, ◌>>=◌, if◌then◌else◌,
  Bool-cases, inl, inr, arith,
}
use einit.Conf.{CStr}
use einit.Common.Strings.{strcmp_eq, strcmp_eq_refl, strcmp_eq→eq}
use einit.Conf.Dups.{is_empty, ref_loop, pairs_loop, conf_strarr_has_dups}

abbrev pub Distinct : List CStr → Type 0
Distinct [] = Unit
Distinct (str ∷ strs) = All (λ other. str ≢ other) strs × Distinct strs

-- No string is empty.
abbrev pub NonEmpty : List CStr → Type 0
NonEmpty strs = All (λ str. is_empty str ≡ false) strs

-- A search that returns, and misses just when `P` holds.
abbrev pub Misses : Type 0 → Result Bool → Type 0
Misses P r = (b : Bool) × (r ≡ ok b) × ((b ≡ false) ↔ P)

differs : (s t : CStr) → strcmp_eq s t ≡ false → s ≢ t
differs s t h e = let q = strcmp_eq_refl t in let r : strcmp_eq t t ≡ false = rw e at h in cc

ref_loop-Misses :
    (ref : CStr) (strs : List CStr)
    → NonEmpty strs
    → Misses (All (λ other. ref ≢ other) strs) (ref_loop ref strs)
unfolding ref_loop
ref_loop-Misses ref [] n = (false, refl, (λ h. tt, λ h. refl))
ref_loop-Misses ref (str ∷ strs) n =
    let (b, run, iff) = ref_loop-Misses ref strs n.1 in
    elim (Bool-cases (strcmp_eq ref str)) [
      | inl hit ↦
          rw (n.0, hit)
            (true, refl, (λ h. absurd (ground arith), λ h. absurd (h.0 (strcmp_eq→eq ref str hit))))
      | inr miss ↦ rw (n.0, miss) (b, run, (λ h. (differs ref str miss, iff.0 h), λ h. iff.1 h.1))
    ]

then_Misses :
    {P Q : Type 0} (r s : Result Bool)
    → Misses P r
    → Misses Q s
    → Misses (P × Q) (r >>= λ hit. if hit then ok true else s)
then_Misses r s (true, e, iff) (c, f, jff) =
    rw e (true, refl, (λ h. absurd (ground arith), λ h. iff.1 h.0))
then_Misses r s (false, e, iff) (c, f, jff) =
    rw e (c, f, (λ h. (iff.0 refl, jff.0 h), λ h. jff.1 h.1))

pairs_loop-Misses : (strs : List CStr) → NonEmpty strs → Misses (Distinct strs) (pairs_loop strs)
unfolding pairs_loop
pairs_loop-Misses [] n = (false, refl, (λ h. tt, λ h. refl))
pairs_loop-Misses (str ∷ []) n = (false, refl, (λ h. (tt, tt), λ h. refl))
pairs_loop-Misses (str ∷ next ∷ strs) n = rw n.0 (
    then_Misses (ref_loop str (next ∷ strs)) (pairs_loop (next ∷ strs))
      (ref_loop-Misses str (next ∷ strs) n.1) (pairs_loop-Misses (next ∷ strs) n.1))

-- On an array of strings that are not empty, one at least, and a name that is not empty,
-- conf_strarr_has_dups fails at no assertion, and returns false exactly if the strings and the name are
-- all different from each other.
pub conf_strarr_has_dups-Misses :
    (ref str : CStr) (strs : List CStr)
    → NonEmpty (ref ∷ str ∷ strs)
    → Misses (Distinct (ref ∷ str ∷ strs)) (conf_strarr_has_dups (str ∷ strs) ref)
unfolding conf_strarr_has_dups
conf_strarr_has_dups-Misses ref str strs n = rw n.0 (
    then_Misses (ref_loop ref (str ∷ strs)) (pairs_loop (str ∷ strs))
      (ref_loop-Misses ref (str ∷ strs) n.1) (pairs_loop-Misses (str ∷ strs) n.1))
