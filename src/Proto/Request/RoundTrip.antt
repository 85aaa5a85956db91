-- ===== src/Proto/Request/RoundTrip.antt =====
-- What the client builds the server parses, and what else the server may accept.
use einit.Prelude.{
  ℕ, zero, suc, ◌+◌, ◌-◌, ◌*◌, ◌/◌, ◌%◌, ◌^◌, ◌≤◌, ◌<◌, ◌≡◌, refl, ap, sym, Bool, false, none, some,
  List, [], ◌∷◌, ◌++◌, length, take, drop, arith,
}
use einit.Prelude.{if◌then◌else◌, not, ◌||◌, ltb, leb, ◌==◌}
use einit.Conf.{CStr}
use einit.Common.Names.Valid.{IsCStr}
use einit.Proto.Request.{
  tinit_msg_type_nr, tinit_svc_pattern_max, request_head_size, u16_at, mem_strnlen,
  tinit_build_request, Request, sub_size, tinit_srv_parse_request,
}

take_all : (name : CStr) → take (length name) name ≡ name
take_all [] = refl
take_all (c ∷ name) = ap (λ l. c ∷ l) (take_all name)

take-suc : (name : CStr) → take (suc (length name)) (name ++ (0 ∷ [])) ≡ name ++ (0 ∷ [])
take-suc [] = refl
take-suc (c ∷ name) = ap (λ l. c ∷ l) (take-suc name)

take_end : (name : CStr) → take (length name + 1) (name ++ (0 ∷ [])) ≡ name ++ (0 ∷ [])
take_end name = let e : length name + 1 ≡ suc (length name) = omega arith in rw (e) (take-suc name)

pub mem_strnlen_name :
    (name : CStr) (max : ℕ)
    → IsCStr name
    → length name < max
    → mem_strnlen (name ++ (0 ∷ [])) max ≡ length name
unfolding mem_strnlen
mem_strnlen_name name zero c h = absurd (omega arith)
mem_strnlen_name [] (suc max) c h = refl
mem_strnlen_name (zero ∷ name) (suc max) c h = absurd (c.0 refl)
mem_strnlen_name (suc b ∷ name) (suc max) c h = ap suc (mem_strnlen_name name max c.1 (omega arith))

-- A request of one of the message types, built for a name of 1 to 255 bytes, is parsed by the server
-- to that type, the name with its terminating NUL, and the name's length.
pub parse-build_request :
    (seqno type : ℕ) (name : CStr)
    → type < tinit_msg_type_nr
    → IsCStr name
    → 0 < length name
    → length name < tinit_svc_pattern_max
    → tinit_srv_parse_request
        (request_head_size + length name + 1)
        (tinit_build_request seqno type name (length name))
      ≡ some (record { type = type; pattern = name ++ (0 ∷ []); len = length name })
unfolding tinit_srv_parse_request tinit_build_request
parse-build_request seqno type name t c n m =
    let sz : sub_size (request_head_size + length name + 1) request_head_size ≡ length name + 1 =
      omega arith in
    let ty : type % 65536 % 256 + 256 * (type % 65536 / 256 % 256) ≡ type = omega arith in
    let ln : length name + 1 - 1 ≡ length name = omega arith in
    rw
      (
        take_all name,
        sz,
        mem_strnlen_name name (length name + 1) c (omega arith),
        take_end name,
        ln,
        ty,
      )
      (ground arith)

pub mem_strnlen_le : (bytes : List ℕ) (n : ℕ) → mem_strnlen bytes n ≤ length bytes
unfolding mem_strnlen
mem_strnlen_le bytes zero = omega arith
mem_strnlen_le [] (suc n) = omega arith
mem_strnlen_le (zero ∷ bytes) (suc n) = omega arith
mem_strnlen_le (suc b ∷ bytes) (suc n) = omega (arith, mem_strnlen_le bytes n)

mem_strnlen-take : (bytes : List ℕ) (n : ℕ) → mem_strnlen (take n bytes) n ≡ mem_strnlen bytes n
unfolding mem_strnlen
mem_strnlen-take bytes zero = refl
mem_strnlen-take [] (suc n) = refl
mem_strnlen-take (zero ∷ bytes) (suc n) = refl
mem_strnlen-take (suc b ∷ bytes) (suc n) = ap suc (mem_strnlen-take bytes n)

-- three tests passed
three_guards :
    (a b c : Bool) (x r : Request)
    → (if a then none else if b then none else if c then none else some x) ≡ some r
    → (a ≡ false) × (b ≡ false) × (c ≡ false) × (x ≡ r)
three_guards a b c x r h = ground arith

small_size :
    (bytes : ℕ)
    → bytes < 2 ^ 64
    → (leb (sub_size bytes request_head_size) 1
        || ltb tinit_svc_pattern_max (sub_size bytes request_head_size))
      ≡ false
    → (5 < bytes) × (bytes < 261) × (sub_size bytes request_head_size ≡ bytes - 4)
small_size bytes small h =
    let (lo, hi) = size_bounds (sub_size bytes request_head_size) h in
    (omega arith, omega arith, omega arith)
  where
    size_bounds :
        (sz : ℕ)
        → (leb sz 1 || ltb tinit_svc_pattern_max sz) ≡ false
        → (1 < sz) × (sz ≤ tinit_svc_pattern_max)
    size_bounds sz h = ground arith

-- A well-formed request of that size.
abbrev pub IsRequest : ℕ → Request → Type 0
IsRequest bytes r =
    (bytes ≡ request_head_size + r.len + 1)
    × (0 < r.len)
    × (r.len < tinit_svc_pattern_max)
    × (r.type < tinit_msg_type_nr)
    × (mem_strnlen r.pattern (r.len + 1) ≡ r.len)

-- What is accepted has the size of its parts: 4 bytes of header, 1 to 255 bytes of pattern with no
-- NUL among them, and the NUL. Shorter datagrams, for which the size computed wraps around, are not.
pub parse_request_sound :
    (bytes : ℕ) (data_bytes : List ℕ) (r : Request)
    → bytes < 2 ^ 64
    → tinit_srv_parse_request bytes data_bytes ≡ some r
    → IsRequest bytes r
unfolding tinit_srv_parse_request
parse_request_sound bytes data_bytes r small h =
    let sz = sub_size bytes request_head_size in
    let pattern = drop 4 data_bytes in
    let (g1, g2, g3, e) =
      three_guards (leb sz 1 || ltb tinit_svc_pattern_max sz)
        (leb tinit_msg_type_nr (u16_at data_bytes 2)) (not (mem_strnlen pattern sz + 1 == sz))
        (record { type = u16_at data_bytes 2; pattern = take sz pattern; len = sz - 1 }) r h in
    let (lo, hi, es) = small_size bytes small g1 in
    let et : u16_at data_bytes 2 ≡ r.type = ap (λ x. x.type) e in
    let el : sz - 1 ≡ r.len = ap (λ x. x.len) e in
    let ep : take sz pattern ≡ r.pattern = ap (λ x. x.pattern) e in
    let en : r.len + 1 ≡ sz = omega arith in
    let eq : mem_strnlen pattern sz + 1 ≡ sz = passed_eq (mem_strnlen pattern sz + 1) sz g3 in
    (
      omega arith,
      omega arith,
      omega arith,
      passed_lt (u16_at data_bytes 2) r.type et g2,
      rw (en, sym ep, mem_strnlen-take pattern sz) (omega arith),
    )
  where
    passed_eq : (a b : ℕ) → not (a == b) ≡ false → a ≡ b
    passed_eq a b h = ground arith

    passed_lt : (a b : ℕ) → a ≡ b → leb tinit_msg_type_nr a ≡ false → b < tinit_msg_type_nr
    passed_lt a b e h = ground arith
