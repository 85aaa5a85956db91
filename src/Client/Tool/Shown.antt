-- ===== src/Client/Tool/Shown.antt =====
-- The loop over the statuses of a reply ends with the reply.
use einit.Prelude.{
  ℕ, zero, suc, ◌+◌, ◌-◌, ◌≤◌, ◌<◌, ◌≡◌, ◌≢◌, refl, ap, neg, inl, inr, true, List, [], Returns,
  Returns-bind, Bool-cases, arith, ℤ, pos, negsuc, is_zero,
}
use einit.Sys.{Sys}
use einit.Proto.Reply.{StatusData, status_data_size, enoent, tinit_parse_status_data}
use einit.Proto.Step.{StatusIter, conf_path_offset, stepped, tinit_step_status}
use einit.Client.{Link}
use einit.Client.Tool.{status_at, Loaded, Row, View, show_loop, show_loaded}

-- There is no status behind the end of the reply.
parse-room :
    (status : StatusData) (room len pid : ℕ)
    → tinit_parse_status_data status room ≡ (pos len, pid)
    → room ≢ 0
unfolding tinit_parse_status_data
parse-room status zero len pid e =
    let q : neg enoent ≡ pos len = ap (λ r. r.0) e in absurd (ground arith)
parse-room status (suc room) len pid e = ground arith

module _ (sys : Sys) (rounds : (n : ℕ) → n ≤ sys.stroll_round_upper n status_data_size) where
  -- A step that succeeds goes on, and stays in the reply.
  step_advances :
      (memory : ℕ → StatusData) (size : ℕ) (iter : StatusIter)
      → is_zero (tinit_step_status sys memory size iter).0 ≡ true
      → (iter.status < (tinit_step_status sys memory size iter).1.status)
        × ((tinit_step_status sys memory size iter).1.status < size)
  unfolding tinit_step_status
  step_advances memory size iter h =
      by_parse (tinit_parse_status_data (memory nxt) (size - (nxt + conf_path_offset))) refl h
    where
      nxt : ℕ
      nxt = iter.status + sys.stroll_round_upper (status_data_size + iter.len + 1) status_data_size

      by_parse :
          (r : ℤ × ℕ)
          → tinit_parse_status_data (memory nxt) (size - (nxt + conf_path_offset)) ≡ r
          → is_zero (stepped iter nxt r).0 ≡ true
          → (iter.status < (stepped iter nxt r).1.status) × ((stepped iter nxt r).1.status < size)
      by_parse (pos len, pid) e z =
          let r = parse-room (memory nxt) (size - (nxt + conf_path_offset)) len pid e in
          let up = rounds (status_data_size + iter.len + 1) in (omega arith, omega arith)
      by_parse (negsuc n, pid) e z = absurd (ground arith)

  show_loop-returns :
      (view : View) (reply : Loaded) (fuel : ℕ) (iter : StatusIter) (rows : List Row)
      → 0 < fuel
      → reply.size < iter.status + fuel
      → Returns (λ r. Unit) (show_loop sys view reply fuel iter rows)
  unfolding show_loop
  show_loop-returns view reply zero iter rows some_fuel enough = absurd (omega arith)
  show_loop-returns view reply (suc fuel) iter rows some_fuel enough =
      elim (Bool-cases (view.row_fails rows)) [
        | inl e ↦ rw e tt
        | inr e ↦
            elim (Bool-cases
              (is_zero (tinit_step_status sys (status_at reply.buff) reply.size iter).0)) [
                | inl more ↦
                    (let (a, b) = step_advances (status_at reply.buff) reply.size iter more in
                      rw (e, more)
                        (show_loop-returns view reply fuel
                          (tinit_step_status sys (status_at reply.buff) reply.size iter).1 _
                          (omega arith) (omega arith)))
                | inr last ↦ rw (e, last) tt
              ]
      ]

  -- Showing a loaded reply ends, within one turn more than the reply has bytes.
  pub show_loaded-returns :
      {W : Type 0} (link : Link W) (view : View) (reply : Loaded)
      → Returns (λ r. Unit) (show_loaded sys link view reply)
  unfolding show_loaded show_loop
  show_loaded-returns link view reply = elim (Bool-cases view.create_fails) [
    | inl e ↦ rw e tt
    | inr e ↦ rw e (
        Returns-bind (λ r. Unit) (show_loop sys view reply (suc reply.size) reply.iter []) _
          (show_loop-returns view reply (suc reply.size) reply.iter [] (omega arith) (omega arith))
          (λ r u. tt))
  ]
