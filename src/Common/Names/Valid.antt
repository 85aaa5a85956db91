-- ===== src/Common/Names/Valid.antt =====
-- Which names `tinit_check_svc_name` accepts.
use einit.Prelude.{
  leb, ◌==◌, Bool, if◌then◌else◌, neg, ℤ, ok, Bool-cases, inl, inr, refl, sym, ap, ◌∙◌, ℕ, suc, ◌-◌,
  ◌<◌, ◌≡◌, ◌≢◌, ◌↔◌, true, length, pos, All, [], ◌∷◌, arith,
}
use einit.Conf.{CStr}
use einit.Common.Strings.{
  strnlen, strnlen_lem, strspn, char_at, strspn-All, All-strspn, char_at-strspn-pos,
}
use einit.Common.Names.{
  tinit_svc_name_max, einval, is_alnum, is_name_char, probe_answer, probe_asserts, check_answer,
  tinit_probe_inval_char, tinit_check_svc_name,
}

-- A name of 1 to 31 letters, digits and "-_.@" that begins and ends with a letter or a digit.
pub record IsSvcName (name : CStr) : Type 0 where
  pub nonempty : 0 < length name
  pub fits : length name < tinit_svc_name_max
  pub first : is_alnum (char_at name 0) ≡ true
  pub last : is_alnum (char_at name (length name - 1)) ≡ true
  pub chars : All (λ c. is_name_char c ≡ true) name

-- No byte of a C string is 0.
abbrev pub IsCStr : CStr → Type 0
IsCStr = All (λ c. c ≢ 0)

char_at-pos : (s : CStr) (i : ℕ) → IsCStr s → i < length s → char_at s i ≢ 0
unfolding char_at
char_at-pos [] i h lt = elim lt [ ]
char_at-pos (c ∷ s) ℕ.zero h lt = h.0
char_at-pos (c ∷ s) (suc i) h lt = char_at-pos s i h.1 (omega arith)

probe_zero :
    (name : CStr)
    → IsCStr name
    → 0 < length name
    → probe_answer name (length name) ≡ 0
    → (is_alnum (char_at name 0) ≡ true)
      × (is_alnum (char_at name (length name - 1)) ≡ true)
      × (strspn is_name_char name ≡ length name)
unfolding probe_answer
probe_zero name c n h = ground (
  arith,
  char_at-pos name 0 c n,
  char_at-pos name (length name - 1) c (omega arith),
  char_at-strspn-pos is_name_char name c,
)

zero_probe :
    (name : CStr)
    → is_alnum (char_at name 0) ≡ true
    → is_alnum (char_at name (length name - 1)) ≡ true
    → strspn is_name_char name ≡ length name
    → probe_answer name (length name) ≡ 0
unfolding probe_answer
zero_probe name a b h = ground arith

check_answer_iff :
    (name : CStr) → IsCStr name → (check_answer name (length name) ≡ pos 0) ↔ IsSvcName name
unfolding check_answer
check_answer_iff name c = (
  λ h.
      let n : 0 < length name = ground arith in
      let z : probe_answer name (length name) ≡ 0 = ground arith in
      let (a, b, l) = probe_zero name c n z in
      record {
        nonempty = n;
        fits = ground arith;
        first = a;
        last = b;
        chars = strspn-All is_name_char name l;
      },
  λ v. ground (
    arith,
    zero_probe name v.first v.last (All-strspn is_name_char name v.chars),
    v.nonempty,
    v.fits,
  ),
)

-- The check of a string with its length fails at no assertion.
pub tinit_check_svc_name-ok :
    (name : CStr) (len : ℕ)
    → len ≡ length name
    → tinit_check_svc_name name len ≡ ok (check_answer name len)
unfolding tinit_check_svc_name check_answer tinit_probe_inval_char probe_asserts
tinit_check_svc_name-ok name len e = elim (Bool-cases (len == 0)) [
  | inl empty ↦ rw empty refl
  | inr some_ ↦ elim (Bool-cases (leb tinit_svc_name_max len)) [
    | inl long ↦ rw (some_, long) refl
    | inr short ↦
        (let same : (strnlen name tinit_svc_name_max == len) ≡ true =
            ground (arith, strnlen_lem name tinit_svc_name_max) in
          rw (some_, short, same) (push (probe_answer name len == 0)))
  ]
]
  where
    push : (b : Bool) → ok (if b then pos 0 else neg einval) ≡ ok (if b then pos 0 else neg einval)
    push b = refl

pub check_answer_zero :
    (name : CStr)
    → (check_answer name (length name) ≡ pos 0)
      ↔ (tinit_check_svc_name name (length name) ≡ ok (pos 0))
check_answer_zero name =
    let e = tinit_check_svc_name-ok name (length name) refl in
    (λ h. e ∙ ap ok h, λ h. ok_injective _ _ (sym e ∙ h))
  where
    ok_injective : (a b : ℤ) → ok a ≡ ok b → a ≡ b
    ok_injective a b h = cc

-- A name that passes has the length of a name.
pub check_answer_bounds :
    (name : CStr) (len : ℕ) → check_answer name len ≡ pos 0 → (0 < len) × (len < tinit_svc_name_max)
unfolding check_answer
check_answer_bounds name len h = (ground arith, ground arith)

-- `tinit_check_svc_name` on a NUL-terminated string and its length returns 0 exactly for the names
-- that `IsSvcName` describes.
pub tinit_check_svc_name_iff :
    (name : CStr)
    → IsCStr name
    → (tinit_check_svc_name name (length name) ≡ ok (pos 0)) ↔ IsSvcName name
tinit_check_svc_name_iff name c =
    let (to, of) = check_answer_iff name c in
    (λ h. to ((check_answer_zero name).1 h), λ v. (check_answer_zero name).0 (of v))
