-- ===== src/Init/Args/Checked.antt =====
-- The boot target that the command line gives is a valid name.
use einit.Prelude.{
  ℕ, zero, suc, ◌-◌, ◌<◌, ◌≡◌, refl, sym, ◌∙◌, inl, inr, Bool, true, false, ◌||◌, Option, none,
  some, List, [], ◌∷◌, All, Returns, Returns-bind, Bool-cases, length, drop, take-all, leb, ◌==◌, ℤ,
  pos, negsuc, is_zero, arith, ltb,
}
use einit.Conf.{CStr}
use einit.Common.Strings.{strnlen, strnlen_lem}
use einit.Common.Names.{check_answer}
use einit.Common.Names.Valid.{tinit_check_svc_name-ok}
use einit.Init.Args.{
  tinit_arg_max, Settled, Parser, parse_stdlog, parse_mqlog, parse_target, tinit_cmdln_parsers,
  memchr, is_pos, parse_target_arg, tinit_parse_target_arg, tinit_parse_log_arg, run_parser,
  parsers_loop, split_arg, tinit_parse_arg, tinit_parse_cmdln,
}

-- An argument has at least one byte, and one behind its first '=' at least.
pub record IsArg (arg : CStr) : Type 0 where
  pub nonempty : 0 < length arg
  pub has_value : (alen : ℕ) → memchr b'=' arg ≡ some alen → suc alen < length arg

-- The boot target is a name that passes the check.
abbrev pub IsNamed : Settled → Type 0
IsNamed s = check_answer s.boot_target (length s.boot_target) ≡ pos 0

length-drop : (n : ℕ) (xs : List ℕ) → length (drop n xs) ≡ length xs - n
length-drop zero xs = omega arith
length-drop (suc n) [] = omega arith
length-drop (suc n) (x ∷ xs) = omega (arith, length-drop n xs)

is_zero→zero : (r : ℤ) → is_zero r ≡ true → r ≡ pos 0
is_zero→zero (pos n) h = ground arith
is_zero→zero (negsuc n) h = absurd (ground arith)

module _ (ustr_match_token : CStr → ℕ → CStr → ℕ → Bool) (ustr_parse : CStr → ℕ → ℤ)
    (measures : (s : CStr)
      → 0 < length s
      → length s < tinit_arg_max
      → ustr_parse s tinit_arg_max ≡ pos (length s)) where
  measured :
      (s : CStr)
      → 0 < length s
      → length s < tinit_arg_max
      → is_pos (length s) (ustr_parse s tinit_arg_max) ≡ true
  measured s h k = rw (measures s h k) (ground arith)

  parse_target_arg-IsNamed :
      (val : CStr) (s : Settled)
      → IsNamed s
      → IsNamed (parse_target_arg ustr_match_token ustr_parse val s (check_answer val (length val)))
  unfolding parse_target_arg
  parse_target_arg-IsNamed val s h = elim (Bool-cases (is_zero (check_answer val (length val)))) [
    | inl e ↦ rw e (is_zero→zero (check_answer val (length val)) e)
    | inr e ↦ rw e h
  ]

  run_parser-IsNamed :
      (parser : Parser) (val : CStr) (s : Settled)
      → 0 < length val
      → length val < tinit_arg_max
      → IsNamed s
      → Returns IsNamed (run_parser ustr_match_token ustr_parse parser val (length val) s)
  unfolding run_parser tinit_parse_log_arg tinit_parse_target_arg
  run_parser-IsNamed parse_stdlog val s h k n = rw (measured val h k) n
  run_parser-IsNamed parse_mqlog val s h k n = rw (measured val h k) n
  run_parser-IsNamed parse_target val s h k n =
      let z : (length val == 0) ≡ false = ground arith in
      rw (z, measured val h k, tinit_check_svc_name-ok val (length val) refl)
        (parse_target_arg-IsNamed val s n)

  parsers_loop-IsNamed :
      (parsers : List (CStr × Parser)) (arg : CStr) (alen : ℕ) (val : CStr) (s : Settled)
      → 0 < length val
      → length val < tinit_arg_max
      → IsNamed s
      → Returns IsNamed
          (parsers_loop ustr_match_token ustr_parse parsers arg alen val (length val) s)
  unfolding parsers_loop
  parsers_loop-IsNamed [] arg alen val s h k n = n
  parsers_loop-IsNamed ((kword, parser) ∷ parsers) arg alen val s h k n =
      elim (Bool-cases (ustr_match_token arg alen kword (length kword))) [
        | inl e ↦ rw e (run_parser-IsNamed parser val s h k n)
        | inr e ↦ rw e (parsers_loop-IsNamed parsers arg alen val s h k n)
      ]

  split_arg-IsNamed :
      (arg : CStr) (o : Option ℕ) (s : Settled)
      → memchr b'=' arg ≡ o
      → IsArg arg
      → length arg < tinit_arg_max
      → IsNamed s
      → Returns IsNamed (split_arg ustr_match_token ustr_parse arg (length arg) o s)
  unfolding split_arg
  split_arg-IsNamed arg none s e a k n = n
  split_arg-IsNamed arg (some alen) s e a k n =
      let v = a.has_value alen e in
      let l = length-drop (suc alen) arg in
      elim (Bool-cases ((alen == 0) || leb (length arg) alen)) [
        | inl f ↦ rw f n
        | inr f ↦
            rw (f, sym l)
              (parsers_loop-IsNamed tinit_cmdln_parsers arg alen (drop (suc alen) arg) s
                (omega arith) (omega arith) n)
      ]

  parse_arg-IsNamed :
      (arg : CStr) (s : Settled)
      → IsArg arg
      → IsNamed s
      → Returns IsNamed (tinit_parse_arg ustr_match_token ustr_parse arg s)
  unfolding tinit_parse_arg
  parse_arg-IsNamed arg s a n = elim (Bool-cases (ltb (length arg) tinit_arg_max)) [
    | inl short ↦
        (let e : strnlen arg tinit_arg_max ≡ length arg =
            strnlen_lem arg tinit_arg_max ∙ rw short refl in
          let z : (length arg == 0) ≡ false = let q = a.nonempty in ground arith in
          let b : leb tinit_arg_max (length arg) ≡ false = ground arith in
          rw (e, z, b, take-all arg)
            (split_arg-IsNamed arg (memchr b'=' arg) s refl a (ground arith) n))
    | inr long ↦
        (let e : strnlen arg tinit_arg_max ≡ tinit_arg_max =
            strnlen_lem arg tinit_arg_max ∙ rw long refl in
          rw e n)
  ]

  pub tinit_parse_cmdln-IsNamed :
      (args : List CStr) (s : Settled)
      → All IsArg args
      → IsNamed s
      → Returns IsNamed (tinit_parse_cmdln ustr_match_token ustr_parse args s)
  unfolding tinit_parse_cmdln
  tinit_parse_cmdln-IsNamed [] s a n = n
  tinit_parse_cmdln-IsNamed (arg ∷ args) s a n =
      Returns-bind IsNamed (tinit_parse_arg ustr_match_token ustr_parse arg s) _
        (parse_arg-IsNamed arg s a.0 n) (λ t m. tinit_parse_cmdln-IsNamed args t a.1 m)
