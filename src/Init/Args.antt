-- ===== src/Init/Args.antt =====
-- init.c: the arguments of the command line. Matching a keyword and measuring a string are libutils',
-- and what the loggers make of their arguments is elog's.
pub mod Checked
use einit.Prelude.{
  ◌>>=◌, ℕ, zero, suc, ◌+◌, ◌-◌, ◌<◌, ◌≤◌, ◌≡◌, ◌⊎◌, refl, ap, inl, inr, Bool, true, false, ◌||◌,
  Option, none, some, List, [], ◌∷◌, All, Result, ok, err, assertion, ◌>>=◌, Returns, Returns-bind,
  Bool-cases, Option-cases, length, take, drop, leb, ◌==◌, if◌then◌else◌, ℤ, pos, negsuc, is_zero,
  arith,
}
use einit.Conf.{CStr}
use einit.Common.Strings.{strnlen}
use einit.Common.Names.{tinit_check_svc_name}

-- TINIT_ARG_MAX
abbrev pub tinit_arg_max : ℕ
tinit_arg_max = 256

-- "current"
abbrev pub current : CStr
current = b'c' ∷ b'u' ∷ b'r' ∷ b'r' ∷ b'e' ∷ b'n' ∷ b't' ∷ []

-- What the arguments set: `tinit_boot_target`, and what the loggers are given, the latest first.
pub record Settled : Type 0 where
  pub boot_target : CStr
  pub stdlog : List CStr
  pub mqlog : List CStr

abbrev pub before_args : Settled
before_args = record { boot_target = current; stdlog = []; mqlog = [] }

-- the functions of `tinit_cmdln_parsers`
pub data Parser : Type 0 where
  parse_stdlog parse_mqlog parse_target : Parser

-- "stdlog", "mqlog" and "target"
abbrev pub tinit_cmdln_parsers : List (CStr × Parser)
tinit_cmdln_parsers =
    (b's' ∷ b't' ∷ b'd' ∷ b'l' ∷ b'o' ∷ b'g' ∷ [], parse_stdlog)
    ∷ (b'm' ∷ b'q' ∷ b'l' ∷ b'o' ∷ b'g' ∷ [], parse_mqlog)
    ∷ (b't' ∷ b'a' ∷ b'r' ∷ b'g' ∷ b'e' ∷ b't' ∷ [], parse_target)
    ∷ []

-- where memchr(3) finds a byte
unfoldable pub memchr : ℕ → List ℕ → Option ℕ
memchr c [] = none
memchr c (b ∷ bs) = if b == c then some 0 else further (memchr c bs)
  where
    further : Option ℕ → Option ℕ
    further none = none
    further (some n) = some (suc n)

abbrev pub is_pos : ℕ → ℤ → Bool
is_pos len (pos n) = n == len
is_pos len (negsuc n) = false

module _ (ustr_match_token : CStr → ℕ → CStr → ℕ → Bool) (ustr_parse : CStr → ℕ → ℤ) where
  parse_target_arg : CStr → Settled → ℤ → Settled
  parse_target_arg arg s ret = if is_zero ret then record s { boot_target = arg } else s

  unfoldable pub tinit_parse_target_arg : CStr → ℕ → Settled → Result Settled
  unfolding parse_target_arg
  tinit_parse_target_arg arg len s =
      if len == 0
      then err assertion
      else if is_pos len (ustr_parse arg tinit_arg_max)
      then (tinit_check_svc_name arg len >>= λ ret. ok (parse_target_arg arg s ret))
      else err assertion

  -- tinit_parse_stdlog_arg() and tinit_parse_mqlog_arg(), up to the call of elog
  unfoldable pub tinit_parse_log_arg : CStr → ℕ → Settled → Result Settled
  tinit_parse_log_arg arg len s =
      if is_pos len (ustr_parse arg tinit_arg_max) then ok s else err assertion

  unfoldable pub run_parser : Parser → CStr → ℕ → Settled → Result Settled
  run_parser parse_stdlog arg len s =
      tinit_parse_log_arg arg len (record s { stdlog = arg ∷ s.stdlog })
  run_parser parse_mqlog arg len s =
      tinit_parse_log_arg arg len (record s { mqlog = arg ∷ s.mqlog })
  run_parser parse_target arg len s = tinit_parse_target_arg arg len s

  -- the loop over the parsers
  unfoldable pub parsers_loop :
      List (CStr × Parser) → CStr → ℕ → CStr → ℕ → Settled → Result Settled
  parsers_loop [] arg alen val vlen s = ok s
  parsers_loop ((kword, parser) ∷ parsers) arg alen val vlen s =
      let run = run_parser parser val vlen s in
      let rest = parsers_loop parsers arg alen val vlen s in
      if ustr_match_token arg alen kword (length kword) then run else rest

  unfoldable pub split_arg : CStr → ℕ → Option ℕ → Settled → Result Settled
  split_arg arg len none s = ok s
  split_arg arg len (some alen) s =
      let run =
        parsers_loop tinit_cmdln_parsers arg alen (drop (suc alen) arg) (len - suc alen) s in
      if (alen == 0) || leb len alen then ok s else run

  -- A warning changes nothing.
  unfoldable pub tinit_parse_arg : CStr → Settled → Result Settled
  tinit_parse_arg arg s =
      let len = strnlen arg tinit_arg_max in
      let run = split_arg arg len (memchr b'=' (take len arg)) s in
      if len == 0 then err assertion else if leb tinit_arg_max len then ok s else run

  -- the arguments behind the program's name
  unfoldable pub tinit_parse_cmdln : List CStr → Settled → Result Settled
  tinit_parse_cmdln [] s = ok s
  tinit_parse_cmdln (arg ∷ args) s = tinit_parse_arg arg s >>= λ t. tinit_parse_cmdln args t
