-- ===== src/Examples/Registration.antt =====
-- Two services that are set up but not registered, and a directory with one configuration file.
use einit.Prelude.{
  ℕ, ◌≡◌, ◌↔◌, refl, subst, List, In, inl, inr, Bool, true, false, none, some, [], ◌∷◌, ok, Returns,
  Bool-cases, ◌==◌, if◌then◌else◌, negsuc, arith,
}
use einit.Sys.{Sys, Dir, opened}
use einit.World.{stopped, off, Svc, World}
use einit.Svc.Register.{
  poll_of, Relation, starton, stopon, obsrv_of, srcs_of, has_notifier, svc_register_obsrv,
}
use einit.Svc.Register.Reach.{Reach}
use einit.Svc.Register.Rank.{IsAcyclic, has_notifier-decides}
use einit.Svc.Runnable.{HasSlots}
use einit.Svc.Register.Wired.{Wired}
use einit.Svc.Register.Registered.{Registered, Outcome, svc_register_obsrv-Registered}
use einit.Examples.Worlds.{net_conf, web_conf, net_name}
use einit.Examples.Control.{sample}

-- "net" is 0, and "web", which waits for it, is 1.
abbrev net_web : ℕ → List ℕ
net_web id = if id == 1 then 0 ∷ [] else []

net_web-IsAcyclic : IsAcyclic net_web (0 ∷ 1 ∷ [])
net_web-IsAcyclic = (
  λ id. id,
  λ x y i. elim (Bool-cases (x == 1)) [
    | inl e ↦ elim (rw e at i) [
      | inl q ↦ (ground arith, inl q)
      | inr none_left ↦ elim none_left [ ]
    ]
    | inr e ↦ absurd (rw e at i)
  ],
)

has_notifier-decides_example :
    (b : Bool) × (has_notifier net_web 2 1 0 ≡ ok b) × ((b ≡ true) ↔ Reach net_web 0 1)
has_notifier-decides_example =
    has_notifier-decides net_web (0 ∷ 1 ∷ []) 0 net_web-IsAcyclic 1 (inr (inl refl))

abbrev blank_svc : Svc
blank_svc = record {
  handle_evts = off;
  child = negsuc 0;
  state = stopped;
  handle_notif = off;
  start_cmd = 0;
  starton_obsrv = [];
  starton_notif = none;
  stop_cmd = negsuc 0;
  stopon_obsrv = [];
  stopon_notif = none;
  conf = net_conf;
}

-- Both are set up, "web" with room for one source, and none is registered.
abbrev apart : World
apart = record {
  svc = λ id.
      if id == 1
      then record blank_svc { starton_notif = some (record { srcs = []; nr = 1 }); conf = web_conf }
      else blank_svc;
  repo = 0 ∷ 1 ∷ [];
  log = [];
}

apart_empty : (rel : Relation) (id : ℕ) → srcs_of rel apart.svc id ≡ []
apart_empty starton id = elim (Bool-cases (id == 1)) [ inl e ↦ rw e refl | inr e ↦ rw e refl ]
apart_empty stopon id = elim (Bool-cases (id == 1)) [ inl e ↦ rw e refl | inr e ↦ rw e refl ]

apart_unobserved : (rel : Relation) (id : ℕ) → obsrv_of rel (apart.svc id) ≡ []
apart_unobserved starton id = elim (Bool-cases (id == 1)) [ inl e ↦ rw e refl | inr e ↦ rw e refl ]
apart_unobserved stopon id = elim (Bool-cases (id == 1)) [ inl e ↦ rw e refl | inr e ↦ rw e refl ]

apart_slots : (rel : Relation) (id : ℕ) → HasSlots (poll_of rel (apart.svc id))
apart_slots starton id = elim (Bool-cases (id == 1)) [
  | inl e ↦ rw e (omega arith)
  | inr e ↦ rw e tt
]
apart_slots stopon id = elim (Bool-cases (id == 1)) [ inl e ↦ rw e tt | inr e ↦ rw e tt ]

apart-Wired : Wired apart
apart-Wired = record {
  acyclic = λ rel. (λ x. 0, λ x y i. absurd (subst (In y) (apart_empty rel x) i));
  slots = λ rel id m. apart_slots rel id;
  linked = λ rel src sink. (
    λ i. absurd (subst (In sink) (apart_unobserved rel src) i),
    λ i. absurd (subst (In src) (apart_empty rel sink) i),
  );
  closed = λ rel src sink i. absurd (subst (In sink) (apart_unobserved rel src) i);
}

svc_register_obsrv-Registered_example :
    Returns
      (λ v.
        Registered starton 1 (record { srcs = []; nr = 1 }) apart v
        × Outcome starton 1 0 (record { srcs = []; nr = 1 }) apart v)
      (svc_register_obsrv starton 0 1 apart)
svc_register_obsrv-Registered_example =
    svc_register_obsrv-Registered starton 0 1 apart (record { srcs = []; nr = 1 }) apart-Wired
      (inl refl) (inr (inl refl)) refl (ground arith)

-- "/e" holds the file "n.conf" and a link.
abbrev conf_dir : Dir
conf_dir = record {
  entries =
      record {
        d_name = b'n' ∷ b'.' ∷ b'c' ∷ b'o' ∷ b'n' ∷ b'f' ∷ [];
        is_link = false;
        is_reg = true;
      }
      ∷ record { d_name = net_name; is_link = true; is_reg = false }
      ∷ [];
  err = 0;
}

abbrev conf_sys : Sys
conf_sys = record sample { opendir = λ path. opened conf_dir }

abbrev empty_world : World
empty_world = record { svc = λ id. blank_svc; repo = []; log = [] }
