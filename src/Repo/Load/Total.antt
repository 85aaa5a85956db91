-- ===== src/Repo/Load/Total.antt =====
-- tinit_repo_load() returns, and what it leaves in the repository.
use einit.Prelude.{
  ℕ, suc, ◌<◌, ◌≡◌, ◌≢◌, ◌⊎◌, not, ◌||◌, List, [], ◌∷◌, ◌++◌, length, Fault, ℤ, pos, negsuc,
  if◌then◌else◌,
}
use einit.Conf.{CStr, name_max, ConfSvc}
use einit.Conf.Settings.{path_max}
use einit.Proto.Reply.{enoent}
use einit.Conf.Load.{Load, loaded, refused, faulted, LibConfig}
use einit.Conf.Load.Root.{ReadFile}
use einit.Conf.Load.Accepted.{IsRooted}
use einit.Sys.{Sys, DirEntry, Dir}
use einit.World.{Svc, World}
use einit.Repo.Load.{conf_create_from_file, has_conf_ext, extension, enomem}
use einit.Repo.Load.Loaded.{Filled, IsLoaded}

module _ {S : Type 0} (sys : Sys) (lib : LibConfig S) (basename : CStr → CStr)
    (read_file : CStr → ReadFile S) (junk : Svc) where
  with_conf : Load ConfSvc → List ConfSvc → List ConfSvc
  with_conf (loaded conf) confs = confs ++ (conf ∷ [])
  with_conf (refused e) confs = confs
  with_conf (faulted e) confs = confs

  -- The configurations that a directory holds: those of its regular files with the extension "conf"
  -- that are accepted, in the directory's order.
  unfoldable pub accepted_confs : List DirEntry → List ConfSvc → List ConfSvc
  unfolding with_conf
  accepted_confs [] confs = confs
  accepted_confs (ent ∷ ents) confs =
      let file =
        conf_create_from_file sys lib basename read_file junk
          (sys.include_dir ++ (b'/' ∷ ent.d_name)) in
      accepted_confs ents (
        if not ent.is_reg || not (has_conf_ext (extension ent.d_name))
        then confs
        else with_conf file confs)

  -- The entry's file has a path of less than 4096 bytes and a name of less than 255, its root setting, if
  -- it is read, is a group, and the loader does not fault on it.
  abbrev pub IsReadable : DirEntry → Type 0
  IsReadable ent =
      let path = sys.include_dir ++ (b'/' ∷ ent.d_name) in
      (length (basename path) < name_max)
      × (length path < path_max)
      × IsRooted lib (read_file path)
      × ((e : Fault) → conf_create_from_file sys lib basename read_file junk path ≢ faulted e)

  -- What is left after entries that give the configurations `confs`: all is read, or an error.
  abbrev Read : ℕ → List ConfSvc → ℕ × World → Type 0
  Read last confs (e, v) =
      ((e ≡ 0) × ((last ≡ 0) ⊎ (last ≡ enoent)) × Filled confs v)
      ⊎ ((k : ℕ) × (e ≡ suc k) × ((last ≡ suc k) ⊎ (enomem ≡ suc k)))

  -- What one file leaves: its configuration, nothing, or the one error that ends the loop.
  abbrev OneMore : List ConfSvc → ℕ × World → Type 0
  OneMore confs (e, v) = ((e ≡ 0) × Filled confs v) ⊎ (e ≡ enomem)

  -- What tinit_repo_load() is to answer and to leave for the directory's entries and last error:
  -- 0 and the services, or the error of readdir(3) or -ENOMEM.
  pub IsListed : Dir → ℤ × World → Type 0
  IsListed dir (r, v) =
      ((r ≡ pos 0)
        × ((dir.err ≡ 0) ⊎ (dir.err ≡ enoent))
        × IsLoaded (accepted_confs dir.entries []) v)
      ⊎ ((k : ℕ) × (r ≡ negsuc k) × ((dir.err ≡ suc k) ⊎ (enomem ≡ suc k)))
