-- ===== src/Conf/Load/Valid.antt =====
-- What a loaded configuration is, and the rules for showing it of a loader.
use einit.Prelude.{
  ℕ, ◌≤◌, ◌<◌, ◌≡◌, refl, ap, suc, ◌⊎◌, Bool, true, false, Option, none, some, List, [], ◌∷◌, ◌++◌,
  All, unset, length, take, take-all, ℤ, pos, negsuc, if◌then◌else◌, subst, ◌∙◌, arith,
}
use einit.Conf.{CStr, StrArr}
use einit.Common.Strings.{char_at, has_prefix, strspn-All}
use einit.Common.Names.{is_digit, check_answer, tinit_svc_name_max}
use einit.Conf.Settings.{
  is_print, is_env_char, is_var_char, is_path_char, is_desc_char, svc_arg_max, svc_env_value_max,
  svc_env_name_max, path_max, check_chars, conf_parse_string_setting, conf_parse_name_setting,
}
use einit.Conf.Settings.Accept.{
  IsText, parse_string_only, check_only, name_only, conf_name_answer_iff,
}
use einit.Conf.Load.{
  Load, loaded, refused, faulted, ◌>>-◌, LibConfig, Draft, strrep, strarr_loop, strarr_of,
  conf_load_strarr_setting,
}
use einit.Conf.Load.Fields.{dev_prefix, svc_desc_max, sigsys, sigrtmin, sigrtmax}

-- A loader that may refuse, but fails at no assertion: at most it reads a variable that was not set.
abbrev pub Loads : {A : Type 0} → (A → Type 0) → Load A → Type 0
Loads P (loaded a) = P a
Loads P (refused e) = Unit
Loads P (faulted e) = e ≡ unset

pub Loads-bind :
    {A B : Type 0} {P : A → Type 0} (Q : B → Type 0) (r : Load A) (f : A → Load B)
    → Loads P r
    → ((a : A) → P a → Loads Q (f a))
    → Loads Q (r >>- f)
Loads-bind Q (loaded a) f h k = k a h
Loads-bind Q (refused e) f h k = tt
Loads-bind Q (faulted e) f h k = h

pub Loads-map :
    {A : Type 0} {P Q : A → Type 0} (r : Load A) → Loads P r → ((a : A) → P a → Q a) → Loads Q r
Loads-map (loaded a) h k = k a h
Loads-map (refused e) h k = tt
Loads-map (faulted e) h k = h

pub Loads-if :
    {A : Type 0} (P : A → Type 0) (b : Bool) (r s : Load A)
    → (b ≡ true → Loads P r)
    → (b ≡ false → Loads P s)
    → Loads P (if b then r else s)
Loads-if P true r s h k = h refl
Loads-if P false r s h k = k refl

abbrev pub OptAll : {A : Type 0} → (A → Type 0) → Option A → Type 0
OptAll P none = Unit
OptAll P (some a) = P a

abbrev pub IsName : CStr → Type 0
IsName name = check_answer name (length name) ≡ pos 0

abbrev pub IsNames : StrArr → Type 0
IsNames names = (0 < length names) × All IsName names

abbrev pub IsCmd : StrArr → Type 0
IsCmd args = (0 < length args) × All (IsText is_print svc_arg_max) args

-- NAME=value, with a name of 1 byte or more that does not begin with a digit
abbrev pub IsAssignment : CStr → Type 0
IsAssignment expr =
    (var : CStr) × (val : CStr) × (expr ≡ var ++ (b'=' ∷ val))
    × (0 < length var)
    × (length var < svc_env_name_max)
    × (is_digit (char_at var 0) ≡ false)
    × All (λ c. is_var_char c ≡ true) var
    × IsText is_env_char svc_env_value_max val

abbrev pub IsSig : ℕ → Type 0
IsSig signo = (0 < signo) × (signo ≤ sigrtmax) × ((signo ≤ sigsys) ⊎ (sigrtmin ≤ signo))

abbrev pub IsPath : CStr → Type 0
IsPath path = IsText is_path_char path_max path

-- What the loaders write, each of them a field of its own.
pub record IsDraft (conf : Draft) : Type 0 where
  pub stdin : OptAll (λ path. IsPath path × (has_prefix dev_prefix path ≡ true)) conf.stdin
  pub stdout : OptAll IsPath conf.stdout
  pub env : OptAll (All IsAssignment) conf.env
  pub start : All IsCmd conf.start
  pub daemon : OptAll IsCmd conf.daemon
  pub stop : All IsCmd conf.stop
  pub stop_sig : (conf.stop_sig ≡ 0) ⊎ IsSig conf.stop_sig
  pub reload_sig : (conf.reload_sig ≡ 0) ⊎ IsSig conf.reload_sig
  pub name : OptAll IsName conf.name
  pub desc : OptAll (IsText is_desc_char svc_desc_max) conf.desc
  pub starton : OptAll IsNames conf.starton
  pub stopon : OptAll IsNames conf.stopon

strrep-Loads :
    (P : CStr → Type 0) (str : CStr) (r : ℤ)
    → ((len : ℕ) → r ≡ pos len → P (take len str))
    → Loads P (strrep (some str) r)
strrep-Loads P str (pos len) h = h len refl
strrep-Loads P str (negsuc n) h = tt

-- A string of a set of characters, as a copy of it is stored.
pub IsText-Loads :
    (accept : ℕ → Bool) (max : ℕ) (setting : Option CStr)
    → Loads
        (IsText accept max)
        (strrep setting (check_chars accept setting (conf_parse_string_setting setting max)))
unfolding conf_parse_string_setting check_chars
IsText-Loads accept max none = tt
IsText-Loads accept max (some str) =
    strrep-Loads (IsText accept max) str
      (check_chars accept (some str) (conf_parse_string_setting (some str) max))
      (λ len e.
        let (parsed, span) =
          check_only accept str (conf_parse_string_setting (some str) max) len e in
        let (n, m, l) = parse_string_only str max len parsed in
        rw (l, take-all str)
          (record { nonempty = n; fits = m; chars = strspn-All accept str (span ∙ l) }))

pub IsName-Loads :
    (setting : Option CStr) → Loads IsName (strrep setting (conf_parse_name_setting setting))
unfolding conf_parse_name_setting conf_parse_string_setting
IsName-Loads none = tt
IsName-Loads (some str) = strrep-Loads IsName str (conf_parse_name_setting (some str)) (λ len e.
    let (parsed, chars) =
      name_only str (conf_parse_string_setting (some str) tinit_svc_name_max) len e in
    let (n, m, l) = parse_string_only str tinit_svc_name_max len parsed in
    rw (l, take-all str)
      ((conf_name_answer_iff str).0 (subst (λ k. conf_parse_name_setting (some str) ≡ pos k) l e)))

module _ {S : Type 0} (lib : LibConfig S) where
  module _ (P : CStr → Type 0) (parse : Option CStr → ℤ)
      (each : (setting : Option CStr) → Loads P (strrep setting (parse setting))) where
    strarr_loop-Loads :
        (elms : List S)
        → Loads (λ strs. (length strs ≡ length elms) × All P strs) (strarr_loop lib parse elms)
    unfolding strarr_loop
    strarr_loop-Loads [] = (refl, tt)
    strarr_loop-Loads (elm ∷ elms) =
        Loads-bind {P = P} (λ strs. (length strs ≡ suc (length elms)) × All P strs)
          (strrep (lib.get_string elm) (parse (lib.get_string elm))) _ (each (lib.get_string elm))
          (λ str p.
            Loads-bind {P = λ strs. (length strs ≡ length elms) × All P strs}
              (λ strs. (length strs ≡ suc (length elms)) × All P strs) (strarr_loop lib parse elms)
              _ (strarr_loop-Loads elms) (λ strs q. (ap suc q.0, (p, q.1))))

    -- An array of strings that all pass, one at least.
    pub conf_load_strarr_setting-Loads :
        (setting : S)
        → Loads
            (λ strs. (0 < length strs) × All P strs)
            (conf_load_strarr_setting lib parse setting)
    unfolding conf_load_strarr_setting
    conf_load_strarr_setting-Loads setting =
        Loads-if (λ strs. (0 < length strs) × All P strs) (lib.is_array setting) _ _
          (λ e. of_elems (lib.elems setting)) (λ e. tt)
      where
        of_elems :
            (elms : List S)
            → Loads (λ strs. (0 < length strs) × All P strs) (strarr_of lib parse elms)
        of_elems [] = tt
        of_elems (elm ∷ elms) =
            Loads-map (strarr_loop lib parse (elm ∷ elms)) (strarr_loop-Loads (elm ∷ elms))
              (λ strs q. (omega (arith, q.0), q.1))
