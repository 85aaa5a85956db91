-- ===== src/Target/Folder/Fits.antt =====
-- target.c: the name of a configuration file that a link gives meets the assertions of the functions
-- that it is handed to.
use einit.Prelude.{
  ℕ, zero, suc, ◌+◌, ◌-◌, ◌<◌, ◌≡◌, refl, Bool, true, false, not, ◌||◌, inl, inr, Option, none,
  some, List, [], ◌∷◌, ◌++◌, ok, length, drop, leb, if◌then◌else◌, Bool-cases, ℤ, pos, negsuc,
  arith,
}
use einit.Conf.{CStr}
use einit.Conf.Load.Valid.{OptAll}
use einit.Common.Names.{tinit_svc_name_max, probe_asserts, probe_answer, tinit_probe_inval_char}
use einit.Common.Strings.{strnlen_lem, has_prefix}
use einit.Sys.{Sys, DirEntry}
use einit.World.{World}
use einit.Repo.{bypath_loop, key_asserts, tinit_repo_search_bypath}
use einit.Target.Folder.{
  tinit_parse_svc_name, probe_dest, probe_link, probe_base, tinit_target_probe_folder_svc_base,
  search_base, entry_svc,
}

-- A name that tinit_probe_inval_char() may be asked about, with its length
abbrev IsProbed : CStr → Type 0
IsProbed name = (0 < length name) × (length name < tinit_svc_name_max)

-- Where the length is a name's own, and that of a name, no assertion of tinit_probe_inval_char fails.
pub probe-ok :
    (name : CStr) (len : ℕ)
    → len ≡ length name
    → IsProbed name
    → tinit_probe_inval_char name len ≡ ok (probe_answer name len)
unfolding tinit_probe_inval_char probe_asserts
probe-ok name len e (n, m) =
    let fine : probe_asserts name len ≡ false =
      ground (arith, strnlen_lem name tinit_svc_name_max) in
    rw fine refl

length-drop : (n : ℕ) (xs : List ℕ) → length (drop n xs) ≡ length xs - n
length-drop zero xs = omega arith
length-drop (suc n) [] = omega arith
length-drop (suc n) (x ∷ xs) = omega (arith, length-drop n xs)

module _ (sys : Sys) where
  -- tinit_parse_svc_name() calls it with such a length.
  pub parse_svc_name-probes :
      (name : CStr) (len : ℕ)
      → sys.upath_validate_path name tinit_svc_name_max ≡ pos len
      → tinit_probe_inval_char name len ≡ ok (probe_answer name len)
  parse_svc_name-probes name len e =
      let (size, n, m) = sys.upath_law name tinit_svc_name_max len e in
      probe-ok name len size (omega arith, omega arith)

  -- What stands behind the directory in the destination of a link
  dest_fits :
      (b c : Bool) (real : CStr)
      → (b ≡ false → IsProbed real)
      → OptAll IsProbed (if b then none else if c then some real else none)
  dest_fits true c real h = tt
  dest_fits false true real h = h refl
  dest_fits false false real h = tt

  probe_dest-fits :
      (spath : CStr) (r : ℤ)
      → sys.upath_validate_path spath (length sys.include_dir + 1 + (tinit_svc_name_max - 1) + 1)
        ≡ r
      → OptAll IsProbed (probe_dest sys spath r)
  unfolding probe_dest
  probe_dest-fits spath (negsuc n) e = tt
  probe_dest-fits spath (pos len) e =
      let (size, n, m) = sys.upath_law spath _ len e in
      let behind = length-drop (length sys.include_dir + 1) spath in
      dest_fits
        (leb len (length sys.include_dir + 1)
          || not (has_prefix (sys.include_dir ++ (b'/' ∷ [])) spath))
        _ (drop (length sys.include_dir + 1) spath) (λ q. (ground arith, ground arith))

  probe_link-fits : (o : Option CStr) → OptAll IsProbed (probe_link sys o)
  unfolding probe_link
  probe_link-fits none = tt
  probe_link-fits (some spath) = probe_dest-fits spath _ refl

  probe_base-fits : (dpath base : CStr) (r : ℤ) → OptAll IsProbed (probe_base sys dpath base r)
  unfolding probe_base
  probe_base-fits dpath base (negsuc n) = tt
  probe_base-fits dpath base (pos len) = probe_link-fits (sys.realpath (dpath ++ base))

  module _ (w : World) (dpath : CStr) where
    search_base-ok :
        (o : Option CStr)
        → OptAll IsProbed o
        → (found : Option ℕ) × (search_base sys w dpath o ≡ ok found)
    unfolding search_base tinit_repo_search_bypath key_asserts
    search_base-ok none h = (none, refl)
    search_base-ok (some base) (n, m) =
        let fine : key_asserts base 255 ≡ false = ground (arith, strnlen_lem base 255) in
        (bypath_loop w.svc base w.repo, rw fine refl)

    -- An entry is looked at with no failed assertion.
    pub entry_svc-ok :
        (ent : DirEntry) → (found : Option ℕ) × (entry_svc sys w dpath ent ≡ ok found)
    unfolding entry_svc tinit_target_probe_folder_svc_base
    entry_svc-ok ent = elim (Bool-cases ent.is_link) [
      | inl e ↦
          (let (found, q) =
              search_base-ok (probe_base sys dpath ent.d_name (tinit_parse_svc_name sys ent.d_name))
                (probe_base-fits dpath ent.d_name (tinit_parse_svc_name sys ent.d_name)) in
            (found, rw e q))
      | inr e ↦ (none, rw e refl)
    ]
