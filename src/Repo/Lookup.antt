-- ===== src/Repo/Lookup.antt =====
-- The lookups of repo.c return the first service of the repository that fits, and NULL if none does.
use einit.Prelude.{
  ◌<◌, ◌==◌, ok, Returns, ℕ, ◌≤◌, ◌≡◌, refl, sym, subst, In-append_right, inl, inr, Bool, true,
  false, Option, none, some, List, [], ◌∷◌, ◌++◌, In, All, length, arith, Bool-cases, ℤ, pos,
  negsuc, eqb,
}
use einit.Conf.{CStr}
use einit.Common.Strings.{strnlen_lem, strcmp_eq, strncmp_eq, strncmp_eq-strcmp_eq}
use einit.World.{Svc, World}
use einit.Repo.{
  key_asserts, byname_loop, bypid_loop, tinit_repo_search_byname, tinit_repo_search_bypid,
}

-- What a search along a list returns: the first element that passes, with none that passes before
-- it, or nothing if all fail.
abbrev pub IsFirst : (ℕ → Bool) → List ℕ → Option ℕ → Type 0
IsFirst test ids none = All (λ id. test id ≡ false) ids
IsFirst test ids (some id) =
    (before : List ℕ) × (rest : List ℕ) × (ids ≡ before ++ (id ∷ rest))
    × (test id ≡ true)
    × All (λ j. test j ≡ false) before

IsFirst-cons :
    (test : ℕ → Bool) (id : ℕ) (ids : List ℕ) (r : Option ℕ)
    → test id ≡ false
    → IsFirst test ids r
    → IsFirst test (id ∷ ids) r
IsFirst-cons test id ids none e h = (e, h)
IsFirst-cons test id ids (some j) e (before, rest, split, found, missed) =
    (id ∷ before, rest, (λ i. id ∷ split i), found, (e, missed))

bypid_loop-IsFirst :
    (svc : ℕ → Svc) (pid : ℕ) (ids : List ℕ)
    → IsFirst (λ id. eqb (svc id).child (pos pid)) ids (bypid_loop svc pid ids)
unfolding bypid_loop
bypid_loop-IsFirst svc pid [] = tt
bypid_loop-IsFirst svc pid (id ∷ ids) = elim (Bool-cases (eqb (svc id).child (pos pid))) [
  | inl hit ↦ rw hit ([], ids, refl, hit, tt)
  | inr miss ↦ rw miss (IsFirst-cons _ id ids _ miss (bypid_loop-IsFirst svc pid ids))
]

byname_loop-IsFirst :
    (svc : ℕ → Svc) (name : CStr) (ids : List ℕ)
    → All (λ id. length (svc id).conf.name ≤ 32) ids
    → length name ≤ 32
    → IsFirst (λ id. strcmp_eq (svc id).conf.name name) ids (byname_loop svc name ids)
unfolding byname_loop
byname_loop-IsFirst svc name [] short n = tt
byname_loop-IsFirst svc name (id ∷ ids) short n =
    let same = strncmp_eq-strcmp_eq 32 (svc id).conf.name name short.0 n in
    elim (Bool-cases (strcmp_eq (svc id).conf.name name)) [
      | inl hit ↦ rw (same, hit) ([], ids, refl, hit, tt)
      | inr miss ↦
          rw (same, miss)
            (IsFirst-cons _ id ids _ miss (byname_loop-IsFirst svc name ids short.1 n))
    ]

pub search_byname-ok :
    (w : World) (name : CStr)
    → 0 < length name
    → length name < 32
    → tinit_repo_search_byname w name ≡ ok (byname_loop w.svc name w.repo)
unfolding tinit_repo_search_byname key_asserts
search_byname-ok w name n m =
    let fine : key_asserts name 32 ≡ false = ground (arith, strnlen_lem name 32) in rw fine refl

-- For a name of 1 to 31 bytes, where the names of the services have at most 32,
-- `tinit_repo_search_byname` fails at no assertion and returns the first service of the repository with
-- that very name, and NULL if none has it.
pub tinit_repo_search_byname-IsFirst :
    (w : World) (name : CStr)
    → All (λ id. length (w.svc id).conf.name ≤ 32) w.repo
    → 0 < length name
    → length name < 32
    → Returns
        (IsFirst (λ id. strcmp_eq (w.svc id).conf.name name) w.repo)
        (tinit_repo_search_byname w name)
tinit_repo_search_byname-IsFirst w name short n m =
    rw (search_byname-ok w name n m) (byname_loop-IsFirst w.svc name w.repo short (omega arith))

pub search_bypid-ok :
    (w : World) (pid : ℕ)
    → 0 < pid
    → tinit_repo_search_bypid w pid ≡ ok (bypid_loop w.svc pid w.repo)
unfolding tinit_repo_search_bypid
search_bypid-ok w pid n = let some_pid : (pid == 0) ≡ false = ground arith in rw some_pid refl

-- For a positive PID, `tinit_repo_search_bypid` fails at no assertion and returns the first service of the repository whose child has that PID,
-- and NULL if there is none.
pub tinit_repo_search_bypid-IsFirst :
    (w : World) (pid : ℕ)
    → 0 < pid
    → Returns
        (IsFirst (λ id. eqb (w.svc id).child (pos pid)) w.repo)
        (tinit_repo_search_bypid w pid)
tinit_repo_search_bypid-IsFirst w pid n =
    rw (search_bypid-ok w pid n) (bypid_loop-IsFirst w.svc pid w.repo)

IsFirst-In :
    (test : ℕ → Bool) (ids : List ℕ) (id : ℕ)
    → IsFirst test ids (some id)
    → In id ids × (test id ≡ true)
IsFirst-In test ids id (before, rest, split, found, missed) =
    (subst (In id) (sym split) (In-append_right id before (id ∷ rest) (inl refl)), found)

eqb→eq : (c : ℤ) (n : ℕ) → eqb c (pos n) ≡ true → c ≡ pos n
eqb→eq (pos m) n h = ground arith
eqb→eq (negsuc m) n h = cc

-- A service that is found by its process is in the repository and has that process.
pub bypid_found :
    (w : World) (pid id : ℕ)
    → bypid_loop w.svc pid w.repo ≡ some id
    → In id w.repo × ((w.svc id).child ≡ pos pid)
bypid_found w pid id e =
    let (mem, hit) =
      IsFirst-In (λ id. eqb (w.svc id).child (pos pid)) w.repo id
        (subst (IsFirst (λ id. eqb (w.svc id).child (pos pid)) w.repo) e
          (bypid_loop-IsFirst w.svc pid w.repo)) in
    (mem, eqb→eq (w.svc id).child pid hit)

byname_In :
    (svc : ℕ → Svc) (name : CStr) (ids : List ℕ) (id : ℕ)
    → byname_loop svc name ids ≡ some id
    → In id ids
unfolding byname_loop
byname_In svc name [] id e = absurd (ground arith)
byname_In svc name (j ∷ ids) id e = elim (Bool-cases (strncmp_eq 32 (svc j).conf.name name)) [
  | inl hit ↦ inl (ground arith)
  | inr miss ↦ inr (byname_In svc name ids id (ground arith))
]

pub byname_found :
    (w : World) (name : CStr) (id : ℕ) → byname_loop w.svc name w.repo ≡ some id → In id w.repo
byname_found w name id e = byname_In w.svc name w.repo id e
