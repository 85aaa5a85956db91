-- ===== src/Repo/Load.antt =====
-- repo.c: loading the repository. The services are numbered in the order in which they are created.
pub mod Wiring
pub mod Rounds
pub mod Loaded
pub mod Appended
pub mod Total
use einit.Prelude.{
  ℕ, zero, suc, ◌+◌, leb, Bool, true, false, not, ◌||◌, Option, none, some, List, [], ◌∷◌, ◌++◌,
  Result, ok, err, assertion, ◌>>=◌, length, ◌==◌, if◌then◌else◌, ℤ, pos, negsuc, neg,
}
use einit.Conf.{CStr, name_max, StrArr, ConfSvc}
use einit.Conf.Settings.{path_max}
use einit.Proto.Reply.{enoent}
use einit.Common.Strings.{strcmp_eq}
use einit.Conf.Load.{Load, loaded, refused, faulted, LibConfig}
use einit.Conf.Load.Root.{ReadFile, conf_load_file}
use einit.Sys.{Sys, DirEntry, Dir, OpenDir, opened, not_opened}
use einit.World.{Svc, World, put}
use einit.Repo.{tinit_repo_search_byname}
use einit.Svc.Register.{Relation, starton, stopon, conf_of, svc_register_obsrv, svc_init}

-- the loop of `tinit_repo_setup_svc_starton` and of `tinit_repo_setup_svc_stopon`
unfoldable pub setup_names : Relation → ℕ → List CStr → World → Result World
setup_names rel sink [] w = ok w
setup_names rel sink (name ∷ names) w =
    tinit_repo_search_byname w name >>= λ o. found o >>= λ v. setup_names rel sink names v
  where
    found : Option ℕ → Result World
    found none = ok w
    found (some src) = svc_register_obsrv rel src sink w

-- The two functions. The assertion is strarr_nr()'s.
unfoldable pub setup_of : Relation → ℕ → Option StrArr → World → Result World
setup_of rel sink none w = ok w
setup_of rel sink (some []) w = err assertion
setup_of rel sink (some (name ∷ names)) w = setup_names rel sink (name ∷ names) w

unfoldable pub tinit_repo_setup_svc : Relation → ℕ → World → Result World
tinit_repo_setup_svc rel sink w = setup_of rel sink (conf_of rel (w.svc sink).conf) w

-- the last loop of `tinit_repo_load`
unfoldable pub setup_loop : List ℕ → World → Result World
setup_loop [] w = ok w
setup_loop (id ∷ ids) w = tinit_repo_setup_svc starton id w >>= λ v.
    tinit_repo_setup_svc stopon id v >>= λ u. setup_loop ids u

-- what stands behind the last '.', as strrchr(3) finds it
unfoldable pub extension : CStr → Option CStr
extension [] = none
extension (c ∷ str) = nearer (extension str)
  where
    nearer : Option CStr → Option CStr
    nearer (some ext) = some ext
    nearer none = if c == b'.' then some str else none

-- "conf"
abbrev pub conf_ext : CStr
conf_ext = b'c' ∷ b'o' ∷ b'n' ∷ b'f' ∷ []

abbrev pub enomem : ℕ
enomem = 12

abbrev pub ebadf : ℕ
ebadf = 9

abbrev pub has_conf_ext : Option CStr → Bool
has_conf_ext none = false
has_conf_ext (some ext) = strcmp_eq ext conf_ext

-- the assertion of notif_create_sink_poll()
abbrev pub has_no_names : Option StrArr → Bool
has_no_names none = false
has_no_names (some names) = length names == 0

-- svc_create() in memory that holds `junk`, and the entry into the repository's list
abbrev pub append_svc : ConfSvc → Svc → World → World
append_svc conf junk w =
    let id = length w.repo in put (record w { repo = w.repo ++ (id ∷ []) }) id (svc_init conf junk)

module _ {S : Type 0} (sys : Sys) (lib : LibConfig S) (basename : CStr → CStr)
    (read_file : CStr → ReadFile S) (junk : Svc) where
  -- conf_create_from_file()
  unfoldable pub conf_create_from_file : CStr → Load ConfSvc
  conf_create_from_file path = conf_load_file lib basename (read_file path) path

  add_conf : Load ConfSvc → World → Result (ℕ × World)
  add_conf (loaded conf) w =
      if has_no_names conf.starton || has_no_names conf.stopon
      then err assertion
      else ok (0, append_svc conf junk w)
  add_conf (refused e) w = ok (if e == enomem then enomem else 0, w)
  add_conf (faulted e) w = err e

  -- An error is returned as its positive number, here and below; 0 is success.
  unfoldable pub tinit_repo_load_svc : DirEntry → World → Result (ℕ × World)
  unfolding add_conf
  tinit_repo_load_svc ent w =
      let add = add_conf (conf_create_from_file (sys.include_dir ++ (b'/' ∷ ent.d_name))) w in
      if not ent.is_reg || not (has_conf_ext (extension ent.d_name)) then ok (0, w) else add

  -- tinit_repo_read_dirent() where readdir(3) gives no entry and leaves `e` in errno, and what the
  -- loop then makes of its result
  unfoldable pub tinit_repo_read_dirent : ℕ → Result ℕ
  tinit_repo_read_dirent e =
      if e == ebadf then err assertion else if e == 0 then ok enoent else ok e

  unfoldable pub last_dirent : ℕ → Result ℕ
  last_dirent e = tinit_repo_read_dirent e >>= λ ret. ok (if ret == enoent then 0 else ret)

  -- the loop over the directory
  unfoldable pub load_loop : ℕ → List DirEntry → World → Result (ℕ × World)
  load_loop last [] w = last_dirent last >>= λ e. ok (e, w)
  load_loop last (ent ∷ ents) w = tinit_repo_load_svc ent w >>= λ (e, v).
      let rest = load_loop last ents v in if e == 0 then rest else ok (e, v)

  -- tinit_repo_clear() does nothing without CONFIG_TINIT_DEBUG. Its release of memory is left out.
  unfoldable pub load_end : ℕ → World → Result (ℤ × World)
  load_end zero w = setup_loop w.repo w >>= λ v. ok (pos 0, v)
  load_end (suc e) w = ok (negsuc e, if sys.is_debug then record w { repo = [] } else w)

  unfoldable pub load_by : OpenDir → World → Result (ℤ × World)
  load_by (not_opened e) w = if e == ebadf then err assertion else ok (neg e, w)
  load_by (opened dir) w = load_loop dir.err dir.entries w >>= λ (e, v). load_end e v

  unfoldable pub tinit_repo_load : World → Result (ℤ × World)
  tinit_repo_load w =
      let load = load_by (sys.opendir sys.include_dir) w in
      if leb (length sys.include_dir + 1 + name_max) path_max then load else err assertion
