-- ===== src/Proto/Step.antt =====
-- lib.c: the client's steps from one status of a reply to the next. What stands at an offset of the
-- reply is given by a function.
pub mod Walk
use einit.Prelude.{ℕ, ◌+◌, ◌-◌, ℤ, pos, negsuc}
use einit.Sys.{Sys}
use einit.Proto.Reply.{StatusData, status_data_size, tinit_parse_status_data}

-- offsetof(struct tinit_status_data, conf_path)
abbrev pub conf_path_offset : ℕ
conf_path_offset = 6

-- struct tinit_status_iter: the offset of the current status and the length of its path
pub record StatusIter : Type 0 where
  pub status : ℕ
  pub len : ℕ

abbrev pub stepped : StatusIter → ℕ → ℤ × ℕ → ℤ × StatusIter
stepped iter nxt (pos len, pid) = (pos 0, record { status = nxt; len = len })
stepped iter nxt (negsuc e, pid) = (negsuc e, iter)

module _ (sys : Sys) (memory : ℕ → StatusData) where
  -- `end` is the size of the reply
  unfoldable pub tinit_step_status : ℕ → StatusIter → ℤ × StatusIter
  tinit_step_status end iter =
      let nxt =
        iter.status + sys.stroll_round_upper (status_data_size + iter.len + 1) status_data_size in
      stepped iter nxt (tinit_parse_status_data (memory nxt) (end - (nxt + conf_path_offset)))
