-- ===== src/Examples/Dispatch.antt =====
-- The dispatch of the server's socket, at a queue of two buffers and three datagrams.
use einit.Prelude.{
  ℕ, ◌+◌, ◌≡◌, refl, ap, Bool, true, false, Option, some, none, List, [], ◌∷◌, ◌++◌, Returns, arith,
  All,
}
use einit.Proto.Request.{Request, mem_strnlen, tinit_srv_parse_request}
use einit.Srv.Queue.{count_one, count, Buffq, IsBuffq}
use einit.Srv.Processed.{IsPlain}
use einit.Srv.Transport.{Incoming, datagram, recv_fails, Server, Events, tinit_srv_dispatch}
use einit.Srv.Transport.Kept.{IsDistinct}
use einit.Srv.Transport.Requests.{IsExpected, IsServing}
use einit.Srv.Transport.Dispatched.{Dispatched, tinit_srv_dispatch-Dispatched}
use einit.Examples.Worlds.{easy}
use einit.Examples.Control.{sample, serving, serving-IsSound}

abbrev front : List ℕ → ℕ
front [] = 0
front (b ∷ bs) = b

abbrev behind : List ℕ → List ℕ
behind [] = []
behind (b ∷ bs) = bs

abbrev is_some : List ℕ → Bool
is_some [] = false
is_some (b ∷ bs) = true

-- both queues as lists
abbrev pub two_lists : Buffq (List ℕ × List ℕ)
two_lists = record {
  free = λ q. q.0;
  busy = λ q. q.1;
  has_free = λ q. is_some q.0;
  has_busy = λ q. is_some q.1;
  dqueue_free = λ q. (front q.0, (behind q.0, q.1));
  dqueue_busy = λ q. (front q.1, (q.0, behind q.1));
  nqueue_busy = λ b q. (q.0, q.1 ++ (b ∷ []));
  requeue_busy = λ b q. (q.0, b ∷ q.1);
  release = λ b q. (b ∷ q.0, q.1);
}

front_counted :
    (bs : List ℕ)
    → is_some bs ≡ true
    → (c : ℕ) → count c bs ≡ count_one c (front bs) + count c (behind bs)
front_counted [] h c = absurd (ground arith)
front_counted (b ∷ bs) h c = refl

front-behind : (bs : List ℕ) → is_some bs ≡ true → bs ≡ front bs ∷ behind bs
front-behind [] h = absurd (ground arith)
front-behind (b ∷ bs) h = refl

none_behind : (bs : List ℕ) → is_some bs ≡ false → bs ≡ []
none_behind [] h = refl
none_behind (b ∷ bs) h = absurd (ground arith)

pub two_lists-IsBuffq : IsBuffq two_lists
two_lists-IsBuffq = record {
  dqueue_free-free = λ q h. front_counted q.0 h;
  dqueue_free-busy = λ q h. refl;
  dqueue_busy-busy = λ q h. front-behind q.1 h;
  dqueue_busy-free = λ q h. refl;
  no_busy = λ q h. none_behind q.1 h;
  nqueue_busy-busy = λ b q. refl;
  nqueue_busy-free = λ b q. refl;
  requeue_busy-busy = λ b q. refl;
  requeue_busy-free = λ b q. refl;
  release-free = λ b q c. refl;
  release-busy = λ b q. refl;
}

-- "start web"
abbrev start_web : List ℕ
start_web = 7 ∷ 0 ∷ 1 ∷ 0 ∷ 119 ∷ 101 ∷ 98 ∷ 0 ∷ []

-- the request, a datagram that was truncated, and one that is too short
abbrev pub arriving : List Incoming
arriving = datagram 0 0 8 start_web ∷ recv_fails 90 ∷ datagram 0 0 2 (7 ∷ 0 ∷ []) ∷ []

abbrev pub waiting_server : Server (List ℕ × List ℕ)
waiting_server = record {
  queue = (0 ∷ 1 ∷ [], []);
  mem = λ b. record { seq = 0; type = 0; ret = 0; bytes = 0; statuses = [] };
  world = serving;
  sends = [];
  watch_out = false;
}

abbrev pub input_ready : Events
input_ready = record {
  epollin = true;
  epollout = false;
  epollpri = false;
  epollrdhup = false;
  epollerr = false;
  epollhup = false;
}

type_of : Option Request → ℕ
type_of none = 9
type_of (some r) = r.type

is_request : Option Request → Bool
is_request none = false
is_request (some r) = true

start_web-IsPlain : IsPlain 8 start_web
unfolding IsPlain tinit_srv_parse_request mem_strnlen type_of
start_web-IsPlain =
    (omega arith, λ r e. (let t : 1 ≡ r.type = ap type_of e in (ground arith, ground arith)))

short-IsPlain : IsPlain 2 (7 ∷ 0 ∷ [])
unfolding IsPlain tinit_srv_parse_request mem_strnlen is_request
short-IsPlain =
    (omega arith, λ r e. absurd (let t : false ≡ true = ap is_request e in ground arith))

pub arriving-IsExpected : All IsExpected arriving
unfolding IsExpected
arriving-IsExpected = (start_web-IsPlain, (refl, (short-IsPlain, tt)))

pub waiting-IsServing : IsServing two_lists waiting_server
unfolding IsDistinct
waiting-IsServing = record {
  sound = serving-IsSound;
  paths = ((omega arith, omega arith), ((omega arith, omega arith), tt));
  distinct = λ c. ground arith;
}

tinit_srv_dispatch-Dispatched_example :
    Returns (Dispatched two_lists waiting_server) (
      tinit_srv_dispatch two_lists sample easy 100 (λ sends. 0) input_ready arriving waiting_server)
tinit_srv_dispatch-Dispatched_example =
    tinit_srv_dispatch-Dispatched two_lists two_lists-IsBuffq sample (λ n. omega arith) easy 100
      (λ sends. 0) (λ sends. refl) input_ready arriving waiting_server refl waiting-IsServing
      arriving-IsExpected
