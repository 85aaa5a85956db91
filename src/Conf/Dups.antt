-- ===== src/Conf/Dups.antt =====
-- conf.c, conf_strarr_has_dups(): the check of the services that a `starton` or `stopon` list names.
pub mod Distinct
use einit.Prelude.{
  Bool, true, false, List, [], ◌∷◌, Result, ok, err, assertion, ◌>>=◌, if◌then◌else◌,
}
use einit.Conf.{CStr, StrArr}
use einit.Common.Strings.{strcmp_eq}

-- assert(str[0])
abbrev pub is_empty : CStr → Bool
is_empty [] = true
is_empty (c ∷ str) = false

-- either inner loop: whether `ref` is one of the strings
unfoldable pub ref_loop : CStr → List CStr → Result Bool
ref_loop ref [] = ok false
ref_loop ref (str ∷ strs) =
    let rest = ref_loop ref strs in
    if is_empty str then err assertion else if strcmp_eq ref str then ok true else rest

-- the second loop: each string but the last with those behind it
unfoldable pub pairs_loop : List CStr → Result Bool
pairs_loop [] = ok false
pairs_loop (str ∷ []) = ok false
pairs_loop (str ∷ next ∷ strs) =
    let rest = pairs_loop (next ∷ strs) in
    let found = ref_loop str (next ∷ strs) >>= λ hit. if hit then ok true else rest in
    if is_empty str then err assertion else found

dups_in : CStr → StrArr → Result Bool
dups_in ref [] = err assertion
dups_in ref (str ∷ strs) =
    ref_loop ref (str ∷ strs) >>= λ hit. if hit then ok true else pairs_loop (str ∷ strs)

-- strarr_nr() asserts that the array is not empty
unfoldable pub conf_strarr_has_dups : StrArr → CStr → Result Bool
unfolding dups_in
conf_strarr_has_dups array ref = if is_empty ref then err assertion else dups_in ref array
