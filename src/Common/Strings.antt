-- ===== src/Common/Strings.antt =====
-- The string functions of the C library that the program calls, over NUL-terminated strings.
use einit.Prelude.{
  ℕ, zero, suc, ◌≤◌, ◌≡◌, ◌≢◌, refl, ap, inl, inr, Bool-cases, Bool, true, false, ◌&&◌, [], ◌∷◌,
  length, All, arith, ltb, ◌==◌, if◌then◌else◌,
}
use einit.Conf.{CStr}

-- strcmp(a, b) == 0
unfoldable pub strcmp_eq : CStr → CStr → Bool
strcmp_eq [] [] = true
strcmp_eq (a ∷ as') (b ∷ bs) = (a == b) && strcmp_eq as' bs
strcmp_eq _ _ = false

-- strncmp(a, b, n) == 0
unfoldable pub strncmp_eq : ℕ → CStr → CStr → Bool
strncmp_eq zero _ _ = true
strncmp_eq (suc n) [] [] = true
strncmp_eq (suc n) (a ∷ as') (b ∷ bs) = (a == b) && strncmp_eq n as' bs
strncmp_eq (suc n) _ _ = false

-- memcmp() of the bytes of `prefix` with those at the start of a string
unfoldable pub has_prefix : CStr → CStr → Bool
has_prefix [] str = true
has_prefix (c ∷ prefix) [] = false
has_prefix (c ∷ prefix) (d ∷ str) = if c == d then has_prefix prefix str else false

-- strnlen(s, max)
unfoldable pub strnlen : CStr → ℕ → ℕ
strnlen s zero = 0
strnlen [] (suc max) = 0
strnlen (c ∷ s) (suc max) = suc (strnlen s max)

-- strspn(s, accept), for a set of bytes that is given by its test
unfoldable pub strspn : (ℕ → Bool) → CStr → ℕ
strspn accept [] = 0
strspn accept (c ∷ s) = if accept c then suc (strspn accept s) else 0

-- `s[i]`, where the byte behind the last is the terminating NUL
unfoldable pub char_at : CStr → ℕ → ℕ
char_at [] i = 0
char_at (c ∷ s) zero = c
char_at (c ∷ s) (suc i) = char_at s i

pub strcmp_eq_refl : (s : CStr) → strcmp_eq s s ≡ true
unfolding strcmp_eq
strcmp_eq_refl [] = refl
strcmp_eq_refl (c ∷ s) = ground (arith, strcmp_eq_refl s)

pub strcmp_eq→eq : (s t : CStr) → strcmp_eq s t ≡ true → s ≡ t
unfolding strcmp_eq
strcmp_eq→eq [] [] h = refl
strcmp_eq→eq [] (_ ∷ _) h = cc
strcmp_eq→eq (_ ∷ _) [] h = cc
strcmp_eq→eq (c ∷ s) (d ∷ t) h = ground (arith, strcmp_eq→eq s t)

-- Below the bound `strncmp` is `strcmp`.
pub strncmp_eq-strcmp_eq :
    (n : ℕ) (s t : CStr) → length s ≤ n → length t ≤ n → strncmp_eq n s t ≡ strcmp_eq s t
unfolding strncmp_eq strcmp_eq
strncmp_eq-strcmp_eq zero [] [] h k = refl
strncmp_eq-strcmp_eq zero (c ∷ s) t h k = absurd (omega arith)
strncmp_eq-strcmp_eq zero [] (c ∷ t) h k = absurd (omega arith)
strncmp_eq-strcmp_eq (suc n) [] [] h k = refl
strncmp_eq-strcmp_eq (suc n) [] (d ∷ t) h k = refl
strncmp_eq-strcmp_eq (suc n) (c ∷ s) [] h k = refl
strncmp_eq-strcmp_eq (suc n) (c ∷ s) (d ∷ t) h k =
    ap (λ b. (c == d) && b) (strncmp_eq-strcmp_eq n s t (omega arith) (omega arith))

pub strnlen_lem :
    (s : CStr) (max : ℕ) → strnlen s max ≡ (if ltb (length s) max then length s else max)
unfolding strnlen
strnlen_lem s zero = ground arith
strnlen_lem [] (suc max) = ground arith
strnlen_lem (c ∷ s) (suc max) = ground (arith, strnlen_lem s max)

pub strspn-le : (accept : ℕ → Bool) (s : CStr) → strspn accept s ≤ length s
unfolding strspn
strspn-le accept [] = omega arith
strspn-le accept (c ∷ s) = ground (arith, strspn-le accept s)

-- The span is the whole string exactly if every byte is accepted.
pub strspn-All :
    (accept : ℕ → Bool) (s : CStr) → strspn accept s ≡ length s → All (λ c. accept c ≡ true) s
unfolding strspn
strspn-All accept [] h = tt
strspn-All accept (c ∷ s) h = ground (arith, strspn-All accept s)

pub All-strspn :
    (accept : ℕ → Bool) (s : CStr) → All (λ c. accept c ≡ true) s → strspn accept s ≡ length s
unfolding strspn
All-strspn accept [] h = refl
All-strspn accept (c ∷ s) h = ground (arith, h.0, All-strspn accept s h.1)

-- Where the span ends before the string does, the byte there is in the string.
pub char_at-strspn-pos :
    (accept : ℕ → Bool) (s : CStr)
    → All (λ c. c ≢ 0) s
    → strspn accept s ≢ length s
    → char_at s (strspn accept s) ≢ 0
unfolding strspn char_at
char_at-strspn-pos accept [] h n = absurd (n refl)
char_at-strspn-pos accept (c ∷ s) h n = elim (Bool-cases (accept c)) [
  | inl yes_c ↦ rw yes_c (char_at-strspn-pos accept s h.1 (λ e. n (ground arith)))
  | inr no_c ↦ rw no_c h.0
]
