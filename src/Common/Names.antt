-- ===== src/Common/Names.antt =====
-- common.c: the names of services and targets.
pub mod Valid
use einit.Prelude.{
  ℕ, ◌-◌, ◌≤◌, ◌<◌, ◌≡◌, ◌≢◌, ◌↔◌, Bool, true, false, not, ◌&&◌, ◌||◌, ltb, leb, ◌==◌,
  if◌then◌else◌, length, ℤ, pos, neg, All, arith, Result, ok, err, assertion, ◌>>=◌,
}
use einit.Conf.{CStr}
use einit.Common.Strings.{strspn, strnlen, char_at}

-- The sizes and errno values that the program uses.
abbrev pub tinit_svc_name_max : ℕ
tinit_svc_name_max = 32

abbrev pub enodata : ℕ
enodata = 61

abbrev pub enametoolong : ℕ
enametoolong = 36

abbrev pub einval : ℕ
einval = 22

unfoldable pub is_digit : ℕ → Bool
is_digit c = leb b'0' c && leb c b'9'

unfoldable pub is_alpha : ℕ → Bool
is_alpha c = (leb b'a' c && leb c b'z') || (leb b'A' c && leb c b'Z')

-- isalnum() of the C locale, and ALNUM_CHARSET
unfoldable pub is_alnum : ℕ → Bool
unfolding is_digit is_alpha
is_alnum c = is_alpha c || is_digit c

-- ALNUM_CHARSET "-_.@"
unfoldable pub is_name_char : ℕ → Bool
unfolding is_alnum
is_name_char c = is_alnum c || c == b'-' || c == b'_' || c == b'.' || c == b'@'

-- The assertions of tinit_probe_inval_char() fail.
unfoldable pub probe_asserts : CStr → ℕ → Bool
probe_asserts name len =
    len == 0 || leb tinit_svc_name_max len || not (strnlen name tinit_svc_name_max == len)

-- What it returns where they hold: 0, or the byte that is not allowed. The parsers of conf.c and lib.c,
-- which call it with the length that they have just taken and bounded, use this function directly.
unfoldable pub probe_answer : CStr → ℕ → ℕ
unfolding strspn char_at
probe_answer name len =
    let chr =
      if not (is_alnum (char_at name 0))
      then 0
      else if not (is_alnum (char_at name (len - 1)))
      then len - 1
      else strspn is_name_char name in
    if chr == len then 0 else char_at name chr

unfoldable pub tinit_probe_inval_char : CStr → ℕ → Result ℕ
unfolding probe_asserts
tinit_probe_inval_char name len =
    if probe_asserts name len then err assertion else ok (probe_answer name len)

-- 0, or a negative errno
unfoldable pub tinit_check_svc_name : CStr → ℕ → Result ℤ
tinit_check_svc_name name len =
    if len == 0
    then ok (neg enodata)
    else if leb tinit_svc_name_max len
    then ok (neg enametoolong)
    else tinit_probe_inval_char name len >>= λ c. ok (if c == 0 then pos 0 else neg einval)

-- What tinit_check_svc_name() returns for a string and its length.
unfoldable pub check_answer : CStr → ℕ → ℤ
unfolding probe_answer
check_answer name len =
    if len == 0
    then neg enodata
    else if leb tinit_svc_name_max len
    then neg enametoolong
    else if probe_answer name len == 0
    then pos 0
    else neg einval
