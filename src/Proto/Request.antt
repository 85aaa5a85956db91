-- ===== src/Proto/Request.antt =====
-- lib.c, tinit_build_request(); srv.c, tinit_srv_parse_request().
pub mod RoundTrip
use einit.Prelude.{
  ℕ, zero, suc, ◌+◌, ◌-◌, ◌*◌, ◌/◌, ◌%◌, ◌^◌, Bool, ◌||◌, not, List, [], ◌∷◌, ◌++◌, take, drop,
  Option, none, some, leb, ltb, ◌==◌, if◌then◌else◌,
}
use einit.Conf.{CStr}

-- TINIT_MSG_TYPE_NR, TINIT_SVC_PATTERN_MAX, and the size of the request's header
abbrev pub tinit_msg_type_nr : ℕ
tinit_msg_type_nr = 6

abbrev pub tinit_svc_pattern_max : ℕ
tinit_svc_pattern_max = 256

abbrev pub request_head_size : ℕ
request_head_size = 4

-- a uint16_t in memory, and its value
abbrev pub le16 : ℕ → List ℕ
le16 n = (n % 256) ∷ ((n / 256) % 256) ∷ []

-- the byte at an offset; what lies behind the data that a test has let through is never read
abbrev pub byte_at : List ℕ → ℕ → ℕ
byte_at [] i = 0
byte_at (b ∷ bs) zero = b
byte_at (b ∷ bs) (suc i) = byte_at bs i

abbrev pub u16_at : List ℕ → ℕ → ℕ
u16_at bytes i = byte_at bytes i + 256 * byte_at bytes (i + 1)

-- strnlen() of memory that may hold NUL anywhere
unfoldable pub mem_strnlen : List ℕ → ℕ → ℕ
mem_strnlen bytes zero = 0
mem_strnlen [] (suc max) = 0
mem_strnlen (zero ∷ bytes) (suc max) = 0
mem_strnlen (suc b ∷ bytes) (suc max) = suc (mem_strnlen bytes max)

-- the buffer up to the size that is returned
unfoldable pub tinit_build_request : ℕ → ℕ → CStr → ℕ → List ℕ
tinit_build_request seqno type name len =
    le16 (seqno % 65536) ++ (le16 (type % 65536) ++ (take len name ++ (0 ∷ [])))

-- What the server takes from a request: the type, the pattern buffer, and the length returned.
pub record Request : Type 0 where
  pub type : ℕ
  pub pattern : List ℕ
  pub len : ℕ

-- `size_t` subtraction
abbrev pub sub_size : ℕ → ℕ → ℕ
sub_size a b = (a + 2 ^ 64 - b) % 2 ^ 64

-- `none` is -EPROTO. `bytes` is the size of the datagram in the buffer `data_bytes`.
unfoldable pub tinit_srv_parse_request : ℕ → List ℕ → Option Request
tinit_srv_parse_request bytes data_bytes =
    let sz = sub_size bytes request_head_size in
    let type = u16_at data_bytes 2 in
    let pattern = drop 4 data_bytes in
    if leb sz 1 || ltb tinit_svc_pattern_max sz
    then none
    else if leb tinit_msg_type_nr type
    then none
    else if not (mem_strnlen pattern sz + 1 == sz)
    then none
    else some (record { type = type; pattern = take sz pattern; len = sz - 1 })
