-- ===== src/Conf/Load/Root.antt =====
-- conf.c: the table of loaders, and a configuration file as a whole.
use einit.Prelude.{
  leb, ◌||◌, ℕ, Bool, true, false, ◌&&◌, not, Option, none, some, List, [], ◌∷◌, unset, assertion,
  Result, ok, err, length, ◌==◌, if◌then◌else◌, ltb,
}
use einit.Conf.{CStr, name_max, StrArr, ConfSvc}
use einit.Common.Names.{enodata}
use einit.Common.Strings.{strcmp_eq}
use einit.Conf.Settings.{path_max, ebadmsg}
use einit.Conf.Dups.{conf_strarr_has_dups}
use einit.Conf.Load.{Load, loaded, refused, faulted, ◌>>-◌, LibConfig, Draft}
use einit.Conf.Load.Fields.{
  conf_load_name, conf_load_desc, conf_load_stdin, conf_load_stdout, conf_load_env,
  conf_load_starton, conf_load_start, conf_load_stopon, conf_load_stop, conf_load_signal,
  conf_load_daemon, stop_key,
}

abbrev pub eproto : ℕ
eproto = 71

-- SIGTERM of signal.h
abbrev pub sigterm : ℕ
sigterm = 15

-- enum of the entries of `conf_loaders`
pub data Loader : Type 0 where
  load_name load_desc load_stdin load_stdout load_env load_starton load_start load_stopon load_stop
        load_signal load_daemon :
      Loader

-- `conf_loaders`
abbrev pub conf_loaders : List (CStr × Loader)
conf_loaders =
    (b'n' ∷ b'a' ∷ b'm' ∷ b'e' ∷ [], load_name)
    ∷ (b'd' ∷ b'e' ∷ b's' ∷ b'c' ∷ b'r' ∷ b'i' ∷ b'p' ∷ b't' ∷ b'i' ∷ b'o' ∷ b'n' ∷ [], load_desc)
    ∷ (b's' ∷ b't' ∷ b'd' ∷ b'i' ∷ b'n' ∷ [], load_stdin)
    ∷ (b's' ∷ b't' ∷ b'd' ∷ b'o' ∷ b'u' ∷ b't' ∷ [], load_stdout)
    ∷ (b'e' ∷ b'n' ∷ b'v' ∷ b'i' ∷ b'r' ∷ b'o' ∷ b'n' ∷ [], load_env)
    ∷ (b's' ∷ b't' ∷ b'a' ∷ b'r' ∷ b't' ∷ b'o' ∷ b'n' ∷ [], load_starton)
    ∷ (b's' ∷ b't' ∷ b'a' ∷ b'r' ∷ b't' ∷ [], load_start)
    ∷ (b's' ∷ b't' ∷ b'o' ∷ b'p' ∷ b'o' ∷ b'n' ∷ [], load_stopon)
    ∷ (stop_key, load_stop)
    ∷ (b's' ∷ b'i' ∷ b'g' ∷ b'n' ∷ b'a' ∷ b'l' ∷ [], load_signal)
    ∷ (b'd' ∷ b'a' ∷ b'e' ∷ b'm' ∷ b'o' ∷ b'n' ∷ [], load_daemon)
    ∷ []

-- the search of `conf_load_root` for a setting's loader
unfoldable pub find_loader : CStr → List (CStr × Loader) → Option Loader
find_loader name [] = none
find_loader name ((key, loader) ∷ entries) =
    if strcmp_eq name key then some loader else find_loader name entries

abbrev pub blank : Draft
blank = record {
  stdin = none;
  stdout = none;
  env = none;
  start = [];
  daemon = none;
  stop = [];
  stop_sig = 0;
  reload_sig = 0;
  name = none;
  desc = none;
  starton = none;
  stopon = none;
}

unfoldable pub dups_answer : Result Bool → Load (Unit {0})
dups_answer (ok true) = refused eproto
dups_answer (ok false) = loaded tt
dups_answer (err e) = faulted e

-- the checks of `starton` and `stopon`
unfoldable pub check_dups : Option StrArr → CStr → Load (Unit {0})
check_dups none name = loaded tt
check_dups (some names) name = dups_answer (conf_strarr_has_dups names name)

abbrev pub has_daemon : Option StrArr → Bool
has_daemon none = false
has_daemon (some args) = true

-- the default of a signal that is not set
abbrev pub default_sig : ℕ → ℕ
default_sig signo = if signo == 0 then sigterm else signo

-- the checks of `conf_load_root` behind its loop: the name and the configuration
unfoldable pub check_named : Option CStr → Draft → Load (CStr × Draft)
check_named none conf = refused eproto
check_named (some name) conf =
    let rest = check_dups conf.starton name >>- λ a. check_dups conf.stopon name >>- λ b. loaded (
      name,
      record conf {
        stop_sig = default_sig conf.stop_sig;
        reload_sig = default_sig conf.reload_sig;
      },
    ) in
    if length conf.start == 0 && length conf.stop == 0 && not (has_daemon conf.daemon)
    then refused eproto
    else rest

-- config_read_file() and what it leaves: the root setting, or the kind of error
pub data ReadFile (S : Type 0) : Type 0 where
  file_root : S → ReadFile S
  file_io : ℕ → ReadFile S
  file_parse : ReadFile S

module _ {S : Type 0} (lib : LibConfig S) where
  unfoldable pub run_loader : Loader → Draft → S → Load Draft
  run_loader load_name = conf_load_name lib
  run_loader load_desc = conf_load_desc lib
  run_loader load_stdin = conf_load_stdin lib
  run_loader load_stdout = conf_load_stdout lib
  run_loader load_env = conf_load_env lib
  run_loader load_starton = conf_load_starton lib
  run_loader load_start = conf_load_start lib
  run_loader load_stopon = conf_load_stopon lib
  run_loader load_stop = conf_load_stop lib
  run_loader load_signal = conf_load_signal lib
  run_loader load_daemon = conf_load_daemon lib

  -- one round of the loop, and the rounds behind it
  unfoldable pub with_loader :
      Option Loader → S → Bool → Draft → (Bool → Draft → Load (Bool × Draft)) → Load (Bool × Draft)
  with_loader none set written conf rest = rest written conf
  with_loader (some loader) set written conf rest =
      run_loader loader conf set >>- λ conf'. rest true conf'

  -- the loop over the settings; the flag tells that `ret` has been written
  unfoldable pub root_loop : Bool → Draft → List S → Load (Bool × Draft)
  root_loop written conf [] = loaded (written, conf)
  root_loop written conf (set ∷ sets) =
      let load =
        with_loader (find_loader (lib.name set) conf_loaders) set written conf
          (λ known next. root_loop known next sets) in
      if length (lib.name set) == 0 then faulted assertion else load

  unfoldable pub root_of : List S → Load (CStr × Draft)
  root_of [] = refused enodata
  root_of (set ∷ sets) = root_loop false blank (set ∷ sets) >>- λ (written, conf).
      if written then check_named conf.name conf else faulted unset

  unfoldable pub conf_load_root : S → Load (CStr × Draft)
  unfolding root_of
  conf_load_root root =
      let load = root_of (lib.elems root) in if lib.is_group root then load else faulted assertion

  -- the configuration that is filled in, under its file's name
  unfoldable pub filled_in : CStr → CStr → Draft → Load ConfSvc
  filled_in base name conf =
      if ltb (length base) name_max
      then loaded (record {
        stdin = conf.stdin;
        stdout = conf.stdout;
        env = conf.env;
        start = conf.start;
        daemon = conf.daemon;
        stop = conf.stop;
        stop_sig = conf.stop_sig;
        reload_sig = conf.reload_sig;
        name = name;
        path = base;
        desc = conf.desc;
        starton = conf.starton;
        stopon = conf.stopon;
      })
      else faulted assertion

  -- what is made of the file that was read
  unfoldable pub file_by : (CStr → CStr) → ReadFile S → CStr → Load ConfSvc
  file_by basename (file_io e) path = refused e
  file_by basename file_parse path = refused ebadmsg
  file_by basename (file_root root) path =
      conf_load_root root >>- λ (name, conf). filled_in (basename path) name conf

  -- conf_load_file(), with basename() of the C library
  unfoldable pub conf_load_file : (CStr → CStr) → ReadFile S → CStr → Load ConfSvc
  unfolding file_by
  conf_load_file basename file path =
      let load = file_by basename file path in
      if length path == 0 || leb path_max (length path) then faulted assertion else load
