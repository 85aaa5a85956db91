-- ===== src/Conf/Load/Fields.antt =====
-- conf.c: the loaders of the fields of a configuration.
use einit.Prelude.{
  assertion, ◌==◌, length, ℕ, ◌+◌, ◌&&◌, ◌||◌, not, Option, none, some, List, [], ◌∷◌, ◌++◌, unset,
  take, leb, ltb, if◌then◌else◌, ℤ, pos, negsuc,
}
use einit.Conf.{CStr, StrArr}
use einit.Common.Names.{enodata, einval}
use einit.Common.Strings.{strcmp_eq, has_prefix}
use einit.Conf.Settings.{
  ebadmsg, is_desc_char, check_chars, conf_parse_string_setting, conf_parse_name_setting,
  conf_parse_cmd_arg, env_var_answer, conf_parse_env_val, conf_load_stdio,
}
use einit.Conf.Load.{
  Load, loaded, refused, faulted, ◌>>-◌, LibConfig, Draft, strrep, conf_load_strarr_setting,
  conf_load_seq_setting,
}

abbrev pub enotty : ℕ
enotty = 25

abbrev pub erange : ℕ
erange = 34

-- SVC_DESC_MAX
abbrev pub svc_desc_max : ℕ
svc_desc_max = 128

-- SIGSYS, SIGRTMIN and SIGRTMAX of signal.h
abbrev pub sigsys : ℕ
sigsys = 31

abbrev pub sigrtmin : ℕ
sigrtmin = 34

abbrev pub sigrtmax : ℕ
sigrtmax = 64

unfoldable pub signo_by : Option ℤ → Load ℕ
signo_by none = refused ebadmsg
signo_by (some (negsuc n)) = refused erange
signo_by (some (pos val)) =
    if leb val 0 || (ltb sigsys val && ltb val sigrtmin) || ltb sigrtmax val
    then refused erange
    else loaded val

-- "/dev/", "stop" and "reload"
abbrev pub dev_prefix : CStr
dev_prefix = b'/' ∷ b'd' ∷ b'e' ∷ b'v' ∷ b'/' ∷ []

abbrev pub stop_key : CStr
stop_key = b's' ∷ b't' ∷ b'o' ∷ b'p' ∷ []

abbrev pub reload_key : CStr
reload_key = b'r' ∷ b'e' ∷ b'l' ∷ b'o' ∷ b'a' ∷ b'd' ∷ []

unfoldable pub stdin_by : ℤ × Option CStr → Load CStr
stdin_by (negsuc n, path) = refused (n + 1)
stdin_by (pos len, none) = faulted unset
stdin_by (pos len, some path) =
    if leb len 5 || not (has_prefix dev_prefix path) then refused enotty else loaded (take len path)

unfoldable pub stdout_by : ℤ × Option CStr → Load CStr
stdout_by (negsuc n, path) = refused (n + 1)
stdout_by (pos len, none) = faulted unset
stdout_by (pos len, some path) = loaded (take len path)

-- The name of a variable, and its value.
unfoldable pub expr_by : CStr → Option CStr → ℤ → ℤ → Load CStr
expr_by var val (negsuc n) val_len = refused (n + 1)
expr_by var val (pos var_len) val_len =
    strrep val val_len >>- λ v. loaded (take var_len var ++ (b'=' ∷ v))

-- The name of a variable is the setting's own. The assertions: it is not empty.
unfoldable pub conf_parse_env_var : CStr → Load ℤ
conf_parse_env_var str = if length str == 0 then faulted assertion else loaded (env_var_answer str)

module _ {S : Type 0} (lib : LibConfig S) where
  unfoldable pub conf_parse_signo_setting : S → Load ℕ
  unfolding signo_by
  conf_parse_signo_setting setting = signo_by (lib.get_int setting)

  unfoldable pub conf_load_name : Draft → S → Load Draft
  conf_load_name conf setting =
      let str = lib.get_string setting in
      strrep str (conf_parse_name_setting str) >>- λ name. loaded (record conf { name = some name })

  unfoldable pub conf_load_desc : Draft → S → Load Draft
  conf_load_desc conf setting =
      let str = lib.get_string setting in
      strrep str (check_chars is_desc_char str (conf_parse_string_setting str svc_desc_max))
      >>- λ desc. loaded (record conf { desc = some desc })

  unfoldable pub conf_load_stdin : Draft → S → Load Draft
  unfolding stdin_by
  conf_load_stdin conf setting = stdin_by (conf_load_stdio (lib.get_string setting)) >>- λ path.
      loaded (record conf { stdin = some path })

  unfoldable pub conf_load_stdout : Draft → S → Load Draft
  unfolding stdout_by
  conf_load_stdout conf setting = stdout_by (conf_load_stdio (lib.get_string setting)) >>- λ path.
      loaded (record conf { stdout = some path })

  unfoldable pub conf_build_env_expr : S → Load CStr
  unfolding expr_by
  conf_build_env_expr setting =
      let val = lib.get_string setting in
      conf_parse_env_var (lib.name setting) >>- λ len.
      expr_by (lib.name setting) val len (conf_parse_env_val val)

  -- the loop of `conf_load_env`
  unfoldable pub env_loop : List S → Load StrArr
  env_loop [] = loaded []
  env_loop (var ∷ vars) =
      conf_build_env_expr var >>- λ expr. env_loop vars >>- λ exprs. loaded (expr ∷ exprs)

  unfoldable pub env_of : Draft → List S → Load Draft
  env_of conf [] = refused enodata
  env_of conf (var ∷ vars) =
      env_loop (var ∷ vars) >>- λ env. loaded (record conf { env = some env })

  unfoldable pub conf_load_env : Draft → S → Load Draft
  unfolding env_of
  conf_load_env conf setting =
      if lib.is_group setting then env_of conf (lib.elems setting) else refused ebadmsg

  unfoldable pub conf_load_starton : Draft → S → Load Draft
  conf_load_starton conf setting =
      conf_load_strarr_setting lib conf_parse_name_setting setting >>- λ names.
      loaded (record conf { starton = some names })

  unfoldable pub conf_load_stopon : Draft → S → Load Draft
  conf_load_stopon conf setting =
      conf_load_strarr_setting lib conf_parse_name_setting setting >>- λ names.
      loaded (record conf { stopon = some names })

  unfoldable pub conf_load_start : Draft → S → Load Draft
  conf_load_start conf setting =
      conf_load_seq_setting lib setting >>- λ cmds. loaded (record conf { start = cmds })

  unfoldable pub conf_load_stop : Draft → S → Load Draft
  conf_load_stop conf setting =
      conf_load_seq_setting lib setting >>- λ cmds. loaded (record conf { stop = cmds })

  unfoldable pub conf_load_sig_setting : Draft → S → Load Draft
  conf_load_sig_setting conf setting =
      let stop =
        conf_parse_signo_setting setting >>- λ signo. loaded (record conf { stop_sig = signo }) in
      let reload =
        conf_parse_signo_setting setting >>- λ signo. loaded (record conf { reload_sig = signo }) in
      if strcmp_eq (lib.name setting) stop_key
      then stop
      else if strcmp_eq (lib.name setting) reload_key
      then reload
      else refused einval

  -- the loop of `conf_load_signal`
  unfoldable pub signal_loop : Draft → List S → Load Draft
  signal_loop conf [] = loaded conf
  signal_loop conf (sig ∷ sigs) = conf_load_sig_setting conf sig >>- λ conf'. signal_loop conf' sigs

  unfoldable pub signal_of : Draft → List S → Load Draft
  signal_of conf [] = refused enodata
  signal_of conf (sig ∷ sigs) = signal_loop conf (sig ∷ sigs)

  unfoldable pub conf_load_signal : Draft → S → Load Draft
  unfolding signal_of
  conf_load_signal conf setting =
      if lib.is_group setting then signal_of conf (lib.elems setting) else refused ebadmsg

  unfoldable pub conf_load_daemon : Draft → S → Load Draft
  conf_load_daemon conf setting =
      conf_load_strarr_setting lib conf_parse_cmd_arg setting >>- λ args.
      loaded (record conf { daemon = some args })
