-- ===== src/Conf/Settings/Accept.antt =====
-- The strings that the parsers of settings accept.
use einit.Prelude.{
  ok, ℕ, ◌<◌, ◌≡◌, ◌↔◌, refl, subst, Bool, true, false, some, All, length, ◌==◌, if◌then◌else◌, ℤ,
  pos, neg, negsuc, arith,
}
use einit.Conf.{CStr}
use einit.Common.Strings.{strnlen_lem, strspn, strspn-All, All-strspn}
use einit.Common.Names.{
  tinit_svc_name_max, einval, check_answer, probe_answer, probe_asserts, tinit_check_svc_name,
  tinit_probe_inval_char,
}
use einit.Common.Names.Valid.{check_answer_zero}
use einit.Common.Strings.{strnlen_lem}
use einit.Conf.Settings.{
  conf_parse_string_setting, check_chars, name_by, conf_parse_cmd_arg, conf_parse_env_val,
  conf_parse_name_setting, is_print, is_env_char, svc_arg_max, svc_env_value_max,
}

-- 1 to `max` - 1 bytes, all of a set
pub record IsText (accept : ℕ → Bool) (max : ℕ) (str : CStr) : Type 0 where
  pub nonempty : 0 < length str
  pub fits : length str < max
  pub chars : All (λ c. accept c ≡ true) str

pub parse_string_fits :
    (str : CStr) (max : ℕ)
    → 0 < length str
    → length str < max
    → conf_parse_string_setting (some str) max ≡ pos (length str)
unfolding conf_parse_string_setting
parse_string_fits str max n m = let e = strnlen_lem str max in ground arith

pub parse_string_only :
    (str : CStr) (max len : ℕ)
    → conf_parse_string_setting (some str) max ≡ pos len
    → (0 < length str) × (length str < max) × (len ≡ length str)
unfolding conf_parse_string_setting
parse_string_only str max len h =
    let e = strnlen_lem str max in (ground arith, ground arith, ground arith)

pub check_only :
    (accept : ℕ → Bool) (str : CStr) (r : ℤ) (len : ℕ)
    → check_chars accept (some str) r ≡ pos len
    → (r ≡ pos len) × (strspn accept str ≡ len)
unfolding check_chars
check_only accept str (pos n) len h = (ground arith, ground arith)
check_only accept str (negsuc n) len h = absurd (ground arith)

check_fits :
    (accept : ℕ → Bool) (str : CStr) (len : ℕ)
    → strspn accept str ≡ len
    → check_chars accept (some str) (pos len) ≡ pos len
unfolding check_chars
check_fits accept str len h = ground arith

check_chars_iff :
    (accept : ℕ → Bool) (max : ℕ) (str : CStr)
    → (check_chars accept (some str) (conf_parse_string_setting (some str) max) ≡ pos (length str))
      ↔ IsText accept max str
check_chars_iff accept max str = (
  λ h.
      let (e, s) =
        check_only accept str (conf_parse_string_setting (some str) max) (length str) h in
      let (n, m, l) = parse_string_only str max (length str) e in
      record { nonempty = n; fits = m; chars = strspn-All accept str s },
  λ t.
      rw (parse_string_fits str max t.nonempty t.fits)
        (check_fits accept str (length str) (All-strspn accept str t.chars)),
)

-- An argument of a command is accepted, with its whole length, exactly if it has 1 to 1023 bytes, all
-- printable or white space.
pub conf_parse_cmd_arg_iff :
    (str : CStr)
    → (conf_parse_cmd_arg (some str) ≡ pos (length str)) ↔ IsText is_print svc_arg_max str
unfolding conf_parse_cmd_arg
conf_parse_cmd_arg_iff str = check_chars_iff is_print svc_arg_max str

-- The value of an environment variable is accepted exactly if it has 1 to 1023 bytes, all of the
-- set of characters for values.
pub conf_parse_env_val_iff :
    (str : CStr)
    → (conf_parse_env_val (some str) ≡ pos (length str)) ↔ IsText is_env_char svc_env_value_max str
unfolding conf_parse_env_val
conf_parse_env_val_iff str = check_chars_iff is_env_char svc_env_value_max str

pub name_only :
    (str : CStr) (r : ℤ) (len : ℕ)
    → name_by (some str) r ≡ pos len
    → (r ≡ pos len) × (probe_answer str len ≡ 0)
unfolding name_by
name_only str (pos n) len h = name_ok (probe_answer str n == 0) refl h
  where
    name_ok :
        (b : Bool)
        → (probe_answer str n == 0) ≡ b
        → (if b then pos n else neg einval) ≡ pos len
        → (pos n ≡ pos len) × (probe_answer str len ≡ 0)
    name_ok true e k =
        let same : n ≡ len = ground arith in
        let none_bad : probe_answer str n ≡ 0 = ground arith in
        (k, subst (λ j. probe_answer str j ≡ 0) same none_bad)
    name_ok false e k = absurd (ground arith)
name_only str (negsuc n) len h = absurd (ground arith)

-- without the assertions
pub conf_name_answer_iff :
    (str : CStr)
    → (conf_parse_name_setting (some str) ≡ pos (length str))
      ↔ (check_answer str (length str) ≡ pos 0)
unfolding conf_parse_name_setting check_answer
conf_name_answer_iff str = (
  λ h.
      let (e, p) =
        name_only str (conf_parse_string_setting (some str) tinit_svc_name_max) (length str) h in
      let (n, m, l) = parse_string_only str tinit_svc_name_max (length str) e in ground arith,
  λ h.
      let n : 0 < length str = ground arith in
      let m : length str < tinit_svc_name_max = ground arith in
      let p : probe_answer str (length str) ≡ 0 = ground arith in
      rw (parse_string_fits str tinit_svc_name_max n m) (name_fits str (length str) p),
)
  where
    name_fits : (s : CStr) (len : ℕ) → probe_answer s len ≡ 0 → name_by (some s) (pos len) ≡ pos len
    name_fits s len p = rw p refl

-- The names of services that configurations may have are those that requests may have: a name is
-- accepted by conf_parse_name_setting exactly if tinit_check_svc_name finds nothing wrong with it.
pub conf_parse_name_setting_iff :
    (str : CStr)
    → (conf_parse_name_setting (some str) ≡ pos (length str))
      ↔ (tinit_check_svc_name str (length str) ≡ ok (pos 0))
conf_parse_name_setting_iff str =
    let (to, of) = conf_name_answer_iff str in
    let (there, back) = check_answer_zero str in (λ h. there (to h), λ h. of (back h))

-- The assertions of tinit_probe_inval_char hold where conf_parse_name_setting calls it.
pub conf_name-probes :
    (str : CStr) (len : ℕ)
    → conf_parse_string_setting (some str) tinit_svc_name_max ≡ pos len
    → tinit_probe_inval_char str len ≡ ok (probe_answer str len)
unfolding tinit_probe_inval_char probe_asserts
conf_name-probes str len e =
    let (n, m, l) = parse_string_only str tinit_svc_name_max len e in
    let short : probe_asserts str len ≡ false =
      ground (arith, strnlen_lem str tinit_svc_name_max) in
    rw short refl
