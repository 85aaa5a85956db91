-- ===== src/Target/Folder.antt =====
-- target.c: the services of a target are the links of its directory to configuration files of
-- services of the repository; lib.c, tinit_parse_svc_name(). Memory for paths is not modelled. The
-- assertions of tinit_probe_inval_char() on a length that upath_validate_path() returned hold: see
-- Folder/Fits.
pub mod Table
pub mod Fits
use einit.Prelude.{
  ℕ, zero, suc, ◌+◌, ◌-◌, ◌*◌, ◌%◌, ◌^◌, Bool, true, false, not, ◌&&◌, ◌||◌, Option, none, some,
  List, [], ◌∷◌, ◌++◌, Result, ok, err, assertion, out_of_bounds, no_fuel, ◌>>=◌, length, drop, ltb,
  leb, ◌==◌, if◌then◌else◌, ℤ, pos, negsuc, neg,
}
use einit.Conf.{CStr}
use einit.Common.Strings.{has_prefix, char_at}
use einit.Common.Names.{tinit_svc_name_max, einval, probe_answer}
use einit.Sys.{Sys, DirEntry, Dir, OpenDir, opened, not_opened}
use einit.World.{World}
use einit.Repo.{tinit_repo_search_bypath}

-- PATH_MAX of limits.h, and TINIT_TARGET_PATH_MAX
abbrev pub tinit_target_path_max : ℕ
tinit_target_path_max = 4032

-- What a walk of the folder gives: a service and the rest of the folder, or the final errno.
pub data Walk : Type 0 where
  svc_found : ℕ → Dir → Walk
  walk_end : ℕ → Walk

module _ (sys : Sys) where
  parse_name_by : CStr → ℤ → ℤ
  parse_name_by name (negsuc n) = negsuc n
  parse_name_by name (pos len) = if probe_answer name len == 0 then pos len else neg einval

  -- the length, or a negative errno
  unfoldable pub tinit_parse_svc_name : CStr → ℤ
  unfolding parse_name_by
  tinit_parse_svc_name name = parse_name_by name (sys.upath_validate_path name tinit_svc_name_max)

  -- TINIT_SVC_PATH_MAX
  abbrev tinit_svc_path_max : ℕ
  tinit_svc_path_max = length sys.include_dir + 1 + (tinit_svc_name_max - 1) + 1

  -- the checks of the link's destination: it stands in the directory of configuration files
  probe_dest : CStr → ℤ → Option CStr
  probe_dest spath (negsuc n) = none
  probe_dest spath (pos len) =
      let size = length sys.include_dir + 1 in
      let real = drop size spath in
      if leb len size || not (has_prefix (sys.include_dir ++ (b'/' ∷ [])) spath)
      then none
      else if probe_answer real (len - size) == 0
      then some real
      else none

  probe_link : Option CStr → Option CStr
  unfolding probe_dest
  probe_link none = none
  probe_link (some spath) = probe_dest spath (sys.upath_validate_path spath tinit_svc_path_max)

  probe_base : CStr → CStr → ℤ → Option CStr
  unfolding probe_link
  probe_base dpath base (negsuc n) = none
  probe_base dpath base (pos len) = probe_link (sys.realpath (dpath ++ base))

  -- `dpath` ends with '/'. The errno of a failure is only logged.
  unfoldable pub tinit_target_probe_folder_svc_base : CStr → CStr → Option CStr
  unfolding probe_base
  tinit_target_probe_folder_svc_base dpath base = probe_base dpath base (tinit_parse_svc_name base)

  module _ (w : World) (dpath : CStr) where
    search_base : Option CStr → Result (Option ℕ)
    search_base none = ok none
    search_base (some base) = tinit_repo_search_bypath w base

    -- the service that an entry names, `none` where the loop goes on
    unfoldable pub entry_svc : DirEntry → Result (Option ℕ)
    unfolding search_base
    entry_svc ent =
        if ent.is_link
        then search_base (tinit_target_probe_folder_svc_base dpath ent.d_name)
        else ok none

    -- the loop of `tinit_target_walk_folder`; 9 is EBADF
    unfoldable pub walk_loop : ℕ → List DirEntry → Result Walk
    walk_loop e [] = if e == 9 then err assertion else ok (walk_end e)
    walk_loop e (ent ∷ ents) =
        let rest = walk_loop e ents in
        entry_svc ent >>= λ o. elim o [
          | none ↦ rest
          | some id ↦ ok (svc_found id (record { entries = ents; err = e }))
        ]

    -- the assertions on `dlen` and `dpath`, here and in tinit_target_fini_folder()
    unfoldable pub folder_asserts : Bool
    folder_asserts =
        length dpath == 0
        || leb tinit_target_path_max (length dpath)
        || not (char_at dpath 0 == b'/')

    unfoldable pub tinit_target_walk_folder : Dir → Result Walk
    unfolding walk_loop folder_asserts
    tinit_target_walk_folder dir =
        let walk = walk_loop dir.err dir.entries in if folder_asserts then err assertion else walk

    -- the loop of `tinit_target_init_iter`, with the table's `cnt` entries and its size `nr`
    unfoldable pub iter_loop : ℕ → List ℕ → ℕ → Walk → Result (ℤ × List ℕ)
    iter_loop fuel tbl nr (walk_end zero) =
        if ltb nr (length tbl) then err assertion else ok (pos 0, tbl)
    iter_loop fuel tbl nr (walk_end (suc e)) =
        if ltb nr (length tbl) then err assertion else ok (negsuc e, [])
    iter_loop zero tbl nr (svc_found id dir) = err no_fuel
    iter_loop (suc fuel) tbl nr (svc_found id dir) =
        let nr' = if length tbl == nr then nr * 2 % 2 ^ 32 else nr in
        let rest =
          tinit_target_walk_folder dir >>= λ walk. iter_loop fuel (tbl ++ (id ∷ [])) nr' walk in
        if ltb nr (length tbl)
        then err assertion
        else if ltb (length tbl) nr'
        then rest
        else err out_of_bounds

  abbrev pub is_positive : ℤ → Bool
  is_positive (pos n) = ltb 0 n
  is_positive (negsuc n) = false

  unfoldable pub init_by : World → CStr → OpenDir → Result (ℤ × List ℕ)
  init_by w dpath (not_opened e) = if e == 9 then err assertion else ok (neg e, [])
  init_by w dpath (opened dir) = tinit_target_walk_folder w dpath dir >>= λ walk.
      iter_loop w dpath (length dir.entries) [] 4 walk

  unfoldable pub folder_by : World → CStr → CStr → ℤ → ℤ → Result (ℤ × List ℕ)
  unfolding init_by
  folder_by w path name (negsuc n) nlen = ok (negsuc n, [])
  folder_by w path name (pos plen) (pos (suc nlen)) =
      let dpath = path ++ (b'/' ∷ name) in init_by w (dpath ++ (b'/' ∷ [])) (sys.opendir dpath)
  folder_by w path name (pos plen) _ = err assertion

  -- 0 and the table, or a negative errno
  unfoldable pub tinit_target_init_iter : World → CStr → CStr → Result (ℤ × List ℕ)
  unfolding folder_by
  tinit_target_init_iter w path name =
      let init =
        folder_by w path name (sys.upath_validate_path path tinit_target_path_max)
          (tinit_parse_svc_name name) in
      if is_positive (sys.upath_validate_path_name path) then init else err assertion
