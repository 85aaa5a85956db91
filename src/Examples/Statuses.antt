-- ===== src/Examples/Statuses.antt =====
-- A reply with the status of "net", to which that of "web" is appended.
use einit.Prelude.{
  ℕ, ◌≡◌, refl, true, false, [], ◌∷◌, ok, inl, inr, length, ◌==◌, if◌then◌else◌, pos, neg, arith,
}
use einit.World.{ready, stopped}
use einit.Svc.Evolve.{side_of}
use einit.Proto.Reply.{
  StatusData, Buff, status_data, enoent, append_asserts, tinit_srv_append_status_reply,
}
use einit.Proto.Reply.RoundTrip.{is_on_side}
use einit.Proto.Step.{StatusIter, tinit_step_status}
use einit.Proto.Step.Walk.{IsRounding, IsLast, Shows, step-append}
use einit.Examples.Worlds.{net_name, web_name}
use einit.Examples.Control.{sample}

abbrev net_status : StatusData
net_status = status_data 100 true ready net_name

abbrev web_status : StatusData
web_status = status_data 0 false stopped web_name

abbrev one_status : Buff
one_status = record { seq = 7; type = 0; ret = 0; bytes = 20; statuses = (8, net_status) ∷ [] }

abbrev two_statuses : Buff
two_statuses = record one_status { bytes = 36; statuses = (8, net_status) ∷ (24, web_status) ∷ [] }

abbrev at_net : StatusIter
at_net = record { status = 8; len = 3 }

abbrev reply_memory : ℕ → StatusData
reply_memory off = if off == 24 then web_status else net_status

sample-IsRounding : IsRounding sample
sample-IsRounding n = (omega arith, omega arith, omega arith)

web_appended :
    tinit_srv_append_status_reply sample one_status 0 false stopped web_name
    ≡ ok (pos 0, two_statuses)
unfolding tinit_srv_append_status_reply append_asserts
web_appended = refl

memory-Shows : Shows reply_memory two_statuses
memory-Shows off status (inl e) = cc
memory-Shows off status (inr (inl e)) = cc
memory-Shows off status (inr (inr i)) = elim i [ ]

step-append_example :
    (tinit_step_status sample reply_memory 20 at_net ≡ (neg enoent, at_net))
    × (found : StatusIter) × (tinit_step_status sample reply_memory 36 at_net ≡ (pos 0, found))
    × (found.len ≡ length web_name)
    × (reply_memory found.status ≡ status_data 0 (is_on_side (side_of stopped)) stopped web_name)
    × IsLast found two_statuses
step-append_example =
    step-append sample sample-IsRounding reply_memory at_net one_status
      (record { aligned = refl; bytes = refl }) 0 stopped web_name two_statuses 36 (ground arith)
      (λ e. cc) web_appended memory-Shows (ground arith)
