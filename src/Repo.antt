-- ===== src/Repo.antt =====
-- repo.c: looking services up. A result is the service's number, or `none` for NULL.
pub mod Lookup
pub mod Load
use einit.Prelude.{
  Bool, ◌||◌, ◌==◌, leb, Result, ok, err, assertion, ℕ, Option, none, some, List, [], ◌∷◌,
  if◌then◌else◌, ℤ, pos, eqb,
}
use einit.Conf.{CStr, name_max}
use einit.Common.Strings.{strncmp_eq, strnlen}
use einit.World.{Svc, World}

module _ (svc : ℕ → Svc) where
  -- the loops over the repository's list
  unfoldable pub byname_loop : CStr → List ℕ → Option ℕ
  byname_loop name [] = none
  byname_loop name (id ∷ ids) =
      if strncmp_eq 32 (svc id).conf.name name then some id else byname_loop name ids

  unfoldable pub bypath_loop : CStr → List ℕ → Option ℕ
  bypath_loop path [] = none
  bypath_loop path (id ∷ ids) =
      if strncmp_eq name_max (svc id).conf.path path then some id else bypath_loop path ids

  unfoldable pub bypid_loop : ℕ → List ℕ → Option ℕ
  bypid_loop pid [] = none
  bypid_loop pid (id ∷ ids) = if eqb (svc id).child (pos pid) then some id else bypid_loop pid ids

-- The assertions on a string: it is not empty, and shorter than `max`.
unfoldable pub key_asserts : CStr → ℕ → Bool
key_asserts key max = strnlen key max == 0 || leb max (strnlen key max)

unfoldable pub tinit_repo_search_byname : World → CStr → Result (Option ℕ)
unfolding byname_loop key_asserts
tinit_repo_search_byname w name =
    if key_asserts name 32 then err assertion else ok (byname_loop w.svc name w.repo)

unfoldable pub tinit_repo_search_bypath : World → CStr → Result (Option ℕ)
unfolding bypath_loop key_asserts
tinit_repo_search_bypath w path =
    if key_asserts path name_max then err assertion else ok (bypath_loop w.svc path w.repo)

unfoldable pub tinit_repo_search_bypid : World → ℕ → Result (Option ℕ)
unfolding bypid_loop
tinit_repo_search_bypid w pid = if pid == 0 then err assertion else ok (bypid_loop w.svc pid w.repo)
