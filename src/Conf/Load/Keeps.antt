-- ===== src/Conf/Load/Keeps.antt =====
-- Every loader keeps the draft valid, whatever the settings are.
use einit.Prelude.{refl, inr, inl, length, ◌<◌, In, ◌≡◌, true, List, [], ◌∷◌, All, arith}
use einit.Common.Strings.{has_prefix, strcmp_eq}
use einit.Conf.Settings.{
  is_print, is_desc_char, svc_arg_max, check_chars, conf_parse_string_setting, conf_parse_cmd_arg,
  conf_parse_name_setting, conf_load_stdio,
}
use einit.Conf.Settings.Accept.{IsText}
use einit.Conf.Load.{
  Load, loaded, ◌>>-◌, LibConfig, Draft, strrep, conf_load_strarr_setting, seq_loop, seq_of,
  conf_load_seq_setting,
}
use einit.Conf.Load.Fields.{
  dev_prefix, svc_desc_max, stop_key, reload_key, stdin_by, stdout_by, conf_parse_signo_setting,
  conf_load_name, conf_load_desc, conf_load_stdin, conf_load_stdout, conf_build_env_expr, env_loop,
  env_of, conf_load_env, conf_load_starton, conf_load_stopon, conf_load_start, conf_load_stop,
  conf_load_sig_setting, signal_loop, signal_of, conf_load_signal, conf_load_daemon,
}
use einit.Conf.Load.Root.{
  Loader, load_name, load_desc, load_stdin, load_stdout, load_env, load_starton, load_start,
  load_stopon, load_stop, load_signal, load_daemon, run_loader,
}
use einit.Conf.Load.Valid.{
  Loads, Loads-bind, Loads-if, IsName, IsNames, IsCmd, IsAssignment, IsSig, IsPath, IsDraft,
  IsText-Loads, IsName-Loads, conf_load_strarr_setting-Loads,
}
use einit.Conf.Load.Texts.{cmd_arg_Loads, signo_Loads, stdin_Loads, stdout_Loads, env_expr_Loads}

module _ {S : Type 0} (lib : LibConfig S) where
  IsCmd-Loads :
      (setting : S) → Loads IsCmd (conf_load_strarr_setting lib conf_parse_cmd_arg setting)
  IsCmd-Loads setting =
      conf_load_strarr_setting-Loads lib (IsText is_print svc_arg_max) conf_parse_cmd_arg
        cmd_arg_Loads setting

  IsNames-Loads :
      (setting : S) → Loads IsNames (conf_load_strarr_setting lib conf_parse_name_setting setting)
  IsNames-Loads setting =
      conf_load_strarr_setting-Loads lib IsName conf_parse_name_setting IsName-Loads setting

  seq_loop-Loads : (cmds : List S) → Loads (All IsCmd) (seq_loop lib cmds)
  unfolding seq_loop
  seq_loop-Loads [] = tt
  seq_loop-Loads (cmd ∷ cmds) =
      Loads-bind {P = IsCmd} (All IsCmd) (conf_load_strarr_setting lib conf_parse_cmd_arg cmd) _
        (IsCmd-Loads cmd)
        (λ args p.
          Loads-bind {P = All IsCmd} (All IsCmd) (seq_loop lib cmds) _ (seq_loop-Loads cmds)
            (λ rest q. (p, q)))

  seq_Loads : (setting : S) → Loads (All IsCmd) (conf_load_seq_setting lib setting)
  unfolding conf_load_seq_setting
  seq_Loads setting =
      Loads-if (All IsCmd) (lib.is_list setting) _ _ (λ e. of_elems (lib.elems setting)) (λ e. tt)
    where
      of_elems : (elms : List S) → Loads (All IsCmd) (seq_of lib elms)
      of_elems [] = tt
      of_elems (elm ∷ elms) = seq_loop-Loads (elm ∷ elms)

  env_loop-Loads :
      (vars : List S)
      → ((var : S) → In var vars → 0 < length (lib.name var))
      → Loads (All IsAssignment) (env_loop lib vars)
  unfolding env_loop
  env_loop-Loads [] named = tt
  env_loop-Loads (var ∷ vars) named =
      Loads-bind {P = IsAssignment} (All IsAssignment) (conf_build_env_expr lib var) _
        (env_expr_Loads lib var (named var (inl refl)))
        (λ expr p.
          Loads-bind {P = All IsAssignment} (All IsAssignment) (env_loop lib vars) _
            (env_loop-Loads vars (λ v m. named v (inr m))) (λ exprs q. (p, q)))

  -- A field's loader: a check of the setting, and a write that keeps the draft valid.
  stores :
      {A : Type 0} (P : A → Type 0) (r : Load A) (write : A → Draft)
      → Loads P r
      → ((a : A) → P a → IsDraft (write a))
      → Loads IsDraft (r >>- λ a. loaded (write a))
  stores P r write h k = Loads-bind IsDraft r (λ a. loaded (write a)) h k

  module _ (conf : Draft) (h : IsDraft conf) where
    sig_setting-Loads : (setting : S) → Loads IsDraft (conf_load_sig_setting lib conf setting)
    unfolding conf_load_sig_setting conf_parse_signo_setting
    sig_setting-Loads setting =
        Loads-if IsDraft (strcmp_eq (lib.name setting) stop_key) _ _
          (λ e.
            stores IsSig (conf_parse_signo_setting lib setting) _
              (signo_Loads (lib.get_int setting)) (λ a p. ground (arith, h, p)))
          (λ e.
            Loads-if IsDraft (strcmp_eq (lib.name setting) reload_key) _ _
              (λ f.
                stores IsSig (conf_parse_signo_setting lib setting) _
                  (signo_Loads (lib.get_int setting)) (λ a p. ground (arith, h, p)))
              (λ f. tt))

  signal_loop-Loads :
      (conf : Draft) → IsDraft conf → (sigs : List S) → Loads IsDraft (signal_loop lib conf sigs)
  unfolding signal_loop
  signal_loop-Loads conf h [] = h
  signal_loop-Loads conf h (sig ∷ sigs) =
      Loads-bind {P = IsDraft} IsDraft (conf_load_sig_setting lib conf sig) _
        (sig_setting-Loads conf h sig) (λ conf' h'. signal_loop-Loads conf' h' sigs)

  module _ (conf : Draft) (h : IsDraft conf) where
    signal_Loads : (setting : S) → Loads IsDraft (conf_load_signal lib conf setting)
    unfolding conf_load_signal
    signal_Loads setting =
        Loads-if IsDraft (lib.is_group setting) _ _ (λ e. of_elems (lib.elems setting)) (λ e. tt)
      where
        of_elems : (elms : List S) → Loads IsDraft (signal_of lib conf elms)
        of_elems [] = tt
        of_elems (elm ∷ elms) = signal_loop-Loads conf h (elm ∷ elms)

    env_Loads : (setting : S) → Loads IsDraft (conf_load_env lib conf setting)
    unfolding conf_load_env
    env_Loads setting =
        Loads-if IsDraft (lib.is_group setting) _ _
          (λ e. of_elems (lib.elems setting) (λ var m. lib.named setting var e m)) (λ e. tt)
      where
        of_elems :
            (elms : List S)
            → ((var : S) → In var elms → 0 < length (lib.name var))
            → Loads IsDraft (env_of lib conf elms)
        of_elems [] named = tt
        of_elems (elm ∷ elms) named =
            stores (All IsAssignment) (env_loop lib (elm ∷ elms)) _
              (env_loop-Loads (elm ∷ elms) named) (λ a p. ground (arith, h, p))

    -- Each loader of the table, with any setting.
    pub run_loader-Loads :
        (loader : Loader) (setting : S) → Loads IsDraft (run_loader lib loader conf setting)
    unfolding run_loader conf_load_name conf_load_desc conf_load_stdin conf_load_stdout
        conf_load_starton conf_load_start conf_load_stopon conf_load_stop conf_load_daemon
    run_loader-Loads load_name setting =
        let str = lib.get_string setting in
        stores IsName (strrep str (conf_parse_name_setting str)) _ (IsName-Loads str)
          (λ a p. ground (arith, h, p))
    run_loader-Loads load_desc setting =
        let str = lib.get_string setting in
        stores (IsText is_desc_char svc_desc_max)
          (strrep str (check_chars is_desc_char str (conf_parse_string_setting str svc_desc_max))) _
          (IsText-Loads is_desc_char svc_desc_max str) (λ a p. ground (arith, h, p))
    run_loader-Loads load_stdin setting =
        stores (λ path. IsPath path × (has_prefix dev_prefix path ≡ true))
          (stdin_by (conf_load_stdio (lib.get_string setting))) _
          (stdin_Loads (lib.get_string setting)) (λ a p. ground (arith, h, p))
    run_loader-Loads load_stdout setting =
        stores IsPath (stdout_by (conf_load_stdio (lib.get_string setting))) _
          (stdout_Loads (lib.get_string setting)) (λ a p. ground (arith, h, p))
    run_loader-Loads load_env setting = env_Loads setting
    run_loader-Loads load_starton setting =
        stores IsNames (conf_load_strarr_setting lib conf_parse_name_setting setting) _
          (IsNames-Loads setting) (λ a p. ground (arith, h, p))
    run_loader-Loads load_start setting =
        stores (All IsCmd) (conf_load_seq_setting lib setting) _ (seq_Loads setting)
          (λ a p. ground (arith, h, p))
    run_loader-Loads load_stopon setting =
        stores IsNames (conf_load_strarr_setting lib conf_parse_name_setting setting) _
          (IsNames-Loads setting) (λ a p. ground (arith, h, p))
    run_loader-Loads load_stop setting =
        stores (All IsCmd) (conf_load_seq_setting lib setting) _ (seq_Loads setting)
          (λ a p. ground (arith, h, p))
    run_loader-Loads load_signal setting = signal_Loads setting
    run_loader-Loads load_daemon setting =
        stores IsCmd (conf_load_strarr_setting lib conf_parse_cmd_arg setting) _
          (IsCmd-Loads setting) (λ a p. ground (arith, h, p))
