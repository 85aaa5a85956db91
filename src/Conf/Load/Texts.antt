-- ===== src/Conf/Load/Texts.antt =====
-- The strings and numbers that the loaders take from a setting.
use einit.Prelude.{
  ℕ, ◌<◌, ◌≡◌, refl, ap, ◌∙◌, sym, subst, Bool, true, false, not, ◌||◌, ◌&&◌, Option, none, some,
  ◌∷◌, ◌++◌, All, length, take, take-all, ℤ, pos, neg, negsuc, leb, ltb, if◌then◌else◌, arith, ◌==◌,
}
use einit.Conf.{CStr}
use einit.Common.Names.{einval, is_digit}
use einit.Common.Strings.{has_prefix, strspn, strspn-All, strspn-le, char_at, strnlen, strnlen_lem}
use einit.Conf.Settings.{
  is_print, is_path_char, is_env_char, is_var_char, svc_arg_max, svc_env_name_max,
  svc_env_value_max, path_max, conf_parse_string_setting, conf_parse_cmd_arg, conf_parse_env_val,
  env_var_answer, conf_load_stdio, emsgsize, stdio_by,
}
use einit.Conf.Settings.Accept.{IsText, parse_string_only}
use einit.Conf.Load.{loaded, refused, LibConfig, strrep}
use einit.Conf.Load.Fields.{
  conf_parse_env_var, dev_prefix, erange, sigsys, sigrtmin, sigrtmax, signo_by, stdin_by, stdout_by,
  expr_by, conf_build_env_expr,
}
use einit.Conf.Load.Valid.{Loads, Loads-bind, Loads-if, IsAssignment, IsSig, IsPath, IsText-Loads}

pub cmd_arg_Loads :
    (setting : Option CStr)
    → Loads (IsText is_print svc_arg_max) (strrep setting (conf_parse_cmd_arg setting))
unfolding conf_parse_cmd_arg
cmd_arg_Loads setting = IsText-Loads is_print svc_arg_max setting

pub signo_Loads : (value : Option ℤ) → Loads IsSig (signo_by value)
unfolding signo_by
signo_Loads none = tt
signo_Loads (some (negsuc n)) = tt
signo_Loads (some (pos val)) =
    Loads-if IsSig (leb val 0 || (ltb sigsys val && ltb val sigrtmin) || ltb sigrtmax val)
      (refused erange) (loaded val) (λ e. tt) (λ e. in_range val e)
  where
    in_range :
        (n : ℕ) → (leb n 0 || (ltb sigsys n && ltb n sigrtmin) || ltb sigrtmax n) ≡ false → IsSig n
    in_range n e = (ground arith, ground arith, ground arith)

stdio_only :
    (setting : Option CStr) (r : ℤ) (len : ℕ) (path : CStr)
    → stdio_by setting r ≡ (pos len, some path)
    → (setting ≡ some path) × (r ≡ pos len) × (strspn is_path_char path ≡ len)
unfolding stdio_by
stdio_only setting (negsuc n) len path e = absurd (ground arith)
stdio_only none (pos n) len path e = absurd (ground arith)
stdio_only (some str) (pos n) len path e =
    let (same, l, s) = test (strspn is_path_char str == n) refl e in
    (ap some same, l, subst (λ q. strspn is_path_char q ≡ len) same s)
  where
    test :
        (b : Bool)
        → (strspn is_path_char str == n) ≡ b
        → Path
            (ℤ × Option CStr)
            (if b then (pos n, some str) else (neg einval, none))
            (pos len, some path)
        → (str ≡ path) × (pos n ≡ pos len) × (strspn is_path_char str ≡ len)
    test true q h = (ground arith, ap (λ x. x.0) h, ground arith)
    test false q h = absurd (ground arith)

-- The path that the loaders of the standard streams go on with, where there is one.
stdio-IsPath :
    (setting : Option CStr) (len : ℕ) (path : CStr)
    → conf_load_stdio setting ≡ (pos len, some path)
    → IsPath path × (take len path ≡ path)
unfolding conf_load_stdio
stdio-IsPath setting len path e =
    let (s, parsed, span) =
      stdio_only setting (conf_parse_string_setting setting path_max) len path e in
    let (n, m, l) = parse_string_only path path_max len (rw s at parsed) in
    (
      record { nonempty = n; fits = m; chars = strspn-All is_path_char path (span ∙ l) },
      subst (λ k. take k path ≡ path) (sym l) (take-all path),
    )

pub stdin_Loads :
    (setting : Option CStr)
    → Loads
        (λ path. IsPath path × (has_prefix dev_prefix path ≡ true))
        (stdin_by (conf_load_stdio setting))
unfolding stdin_by
stdin_Loads setting = by_result (conf_load_stdio setting) refl
  where
    by_result :
        (r : ℤ × Option CStr)
        → conf_load_stdio setting ≡ r
        → Loads (λ path. IsPath path × (has_prefix dev_prefix path ≡ true)) (stdin_by r)
    by_result (negsuc n, path) e = tt
    by_result (pos len, none) e = refl
    by_result (pos len, some path) e =
        let (p, same) = stdio-IsPath setting len path e in
        Loads-if (λ q. IsPath q × (has_prefix dev_prefix q ≡ true))
          (leb len 5 || not (has_prefix dev_prefix path)) _ _ (λ q. tt)
          (λ q. rw same (p, ground arith))

pub stdout_Loads : (setting : Option CStr) → Loads IsPath (stdout_by (conf_load_stdio setting))
unfolding stdout_by
stdout_Loads setting = by_result (conf_load_stdio setting) refl
  where
    by_result : (r : ℤ × Option CStr) → conf_load_stdio setting ≡ r → Loads IsPath (stdout_by r)
    by_result (negsuc n, path) e = tt
    by_result (pos len, none) e = refl
    by_result (pos len, some path) e = let (p, same) = stdio-IsPath setting len path e in rw same p

env_var_only :
    (var : CStr) (len : ℕ)
    → 0 < length var
    → env_var_answer var ≡ pos len
    → (take len var ≡ var)
      × (length var < svc_env_name_max)
      × (is_digit (char_at var 0) ≡ false)
      × All (λ c. is_var_char c ≡ true) var
unfolding env_var_answer
env_var_only var len n e =
    let lem = strnlen_lem var svc_env_name_max in
    let le = strspn-le is_var_char var in
    let (room, l, chr) =
      tests (strnlen var svc_env_name_max)
        (if is_digit (char_at var 0) then 0 else strspn is_var_char var) e in
    let short : length var < svc_env_name_max = ground arith in
    let same : len ≡ length var = ground arith in
    let span : strspn is_var_char var ≡ length var = ground arith in
    (
      subst (λ k. take k var ≡ var) (sym same) (take-all var),
      short,
      ground arith,
      strspn-All is_var_char var span,
    )
  where
    tests :
        (n chr : ℕ)
        → (if leb svc_env_name_max n then neg emsgsize else if chr == n then pos n else neg einval)
          ≡ pos len
        → (n < svc_env_name_max) × (len ≡ n) × (chr ≡ n)
    tests n chr h = (ground arith, ground arith, ground arith)

pub env_expr_Loads :
    {S : Type 0} (lib : LibConfig S) (setting : S)
    → 0 < length (lib.name setting)
    → Loads IsAssignment (conf_build_env_expr lib setting)
unfolding conf_build_env_expr conf_parse_env_val conf_parse_env_var
env_expr_Loads lib setting n =
    let some_name : (length (lib.name setting) == 0) ≡ false = ground arith in
    rw some_name (by_len (env_var_answer (lib.name setting)) refl)
  where
    by_len :
        (r : ℤ)
        → env_var_answer (lib.name setting) ≡ r
        → Loads IsAssignment (
            expr_by
              (lib.name setting)
              (lib.get_string setting)
              r
              (conf_parse_env_val (lib.get_string setting)))
    by_len (negsuc n) e = tt
    by_len (pos len) e =
        let (same, short, first, chars) = env_var_only (lib.name setting) len n e in
        Loads-bind {P = IsText is_env_char svc_env_value_max} IsAssignment
          (strrep (lib.get_string setting) (conf_parse_env_val (lib.get_string setting))) _
          (IsText-Loads is_env_char svc_env_value_max (lib.get_string setting))
          (λ val v.
            (lib.name setting, val, ap (λ l. l ++ (b'=' ∷ val)) same, n, short, first, chars, v))
