-- ===== src/Examples/Control.antt =====
-- The theorems about the control tool's requests and about targets, at the two services.
use einit.Conf.{CStr}
use einit.Prelude.{
  ℤ, ◌>>=◌, false, ◌<◌, ◌&&◌, ℕ, ◌+◌, ◌*◌, ◌/◌, ◌≡◌, refl, true, false, some, [], ◌∷◌, All, Returns,
  ok, length, arith, pos, neg, if◌then◌else◌, ltb, ◌==◌, suc, Bool-cases, inl, inr,
}
use einit.Common.Names.{probe_answer, is_alnum, is_name_char}
use einit.World.{stopped, ready, on, off, World}
use einit.Sys.{Sys, Dir, opened}
use einit.Svc.Evolve.{IsSound, side_of}
use einit.Target.{in_target, switch_loop}
use einit.Common.Strings.{char_at}
use einit.Target.Folder.{folder_asserts, iter_loop, tinit_target_walk_folder, tinit_parse_svc_name}
use einit.Target.Folder.Table.{table_of, iter_loop-table_of}
use einit.Target.Switch.{tinit_target_switch}
use einit.Target.Switch.Chosen.{wanted, switch_loop-chosen}
use einit.Target.Switch.Total.{IsFolder, Answers, tinit_target_switch-Answers}
use einit.Proto.Reply.{Buff}
use einit.Srv.{
  tinit_srv_request_start, tinit_srv_request_stop, tinit_srv_request_reload,
  tinit_srv_request_status,
}
use einit.Srv.Answer.{
  Granted, tinit_srv_request_start-Granted, tinit_srv_request_stop-Granted,
  tinit_srv_request_reload-Granted,
}
use einit.Srv.Status.{Fits, tinit_srv_request_status-Fits}
use einit.Examples.Worlds.{two, two-IsSound, easy, net_name, web_name}

-- "net" is ready and "web" is stopped.
abbrev pub serving : World
serving = two ready (pos 100) stopped

pub serving-IsSound : IsSound serving
serving-IsSound = two-IsSound ready (pos 100) stopped (λ e. absurd (ground arith))

-- "/e" holds the configuration files, and the target has one link, "web".
abbrev web_dir : Dir
web_dir = record {
  entries = record { d_name = web_name; is_link = true; is_reg = false } ∷ [];
  err = 0;
}

unfoldable pub sample_validate : CStr → ℕ → ℤ
sample_validate path max =
    if ltb 0 (length path) && ltb (length path) max then pos (length path) else neg 36

pub sample_law :
    (path : CStr) (max len : ℕ)
    → sample_validate path max ≡ pos len
    → (len ≡ length path) × (0 < len) × (len < max)
unfolding sample_validate
sample_law path max len h = (ground arith, ground arith, ground arith)

abbrev pub sample : Sys
sample = record {
  opendir = λ path. opened web_dir;
  realpath = λ path. some (b'/' ∷ b'e' ∷ b'/' ∷ web_name);
  upath_validate_path = sample_validate;
  upath_law = sample_law;
  upath_validate_path_name = λ path. pos (length path);
  fnmatch = λ pattern name. if length pattern == length name then 0 else 1;
  stroll_round_upper = λ n m. (n + 7) / 8 * 8;
  include_dir = b'/' ∷ b'e' ∷ [];
  sysconf_dir = b'/' ∷ b'e' ∷ [];
  is_debug = false;
}

tinit_srv_request_start-Granted_example :
    Returns (Granted on web_name serving) (tinit_srv_request_start easy web_name 3 serving)
tinit_srv_request_start-Granted_example =
    tinit_srv_request_start-Granted easy serving serving-IsSound web_name 3 refl

tinit_srv_request_stop-Granted_example :
    Returns (Granted off net_name serving) (tinit_srv_request_stop easy net_name 3 serving)
tinit_srv_request_stop-Granted_example =
    tinit_srv_request_stop-Granted easy serving serving-IsSound net_name 3 refl

serving_alive :
    (id : ℕ) → (serving.svc id).state ≡ ready → (n : ℕ) × ((serving.svc id).child ≡ pos (suc n))
serving_alive id h = elim (Bool-cases (id == 0)) [
  | inl e ↦ (99, rw e refl)
  | inr e ↦ elim (Bool-cases (id == 1)) [
    | inl f ↦ absurd (ground arith)
    | inr f ↦ absurd (ground arith)
  ]
]

tinit_srv_request_reload-Granted_example :
    Returns (Granted on net_name serving) (tinit_srv_request_reload easy net_name 3 serving)
tinit_srv_request_reload-Granted_example =
    tinit_srv_request_reload-Granted easy serving serving-IsSound serving_alive net_name 3 refl

abbrev status_buff : Buff
status_buff = record { seq = 7; type = 0; ret = 0; bytes = 8; statuses = [] }

tinit_srv_request_status-Fits_example :
    Returns Fits (tinit_srv_request_status sample serving web_name status_buff)
tinit_srv_request_status-Fits_example =
    tinit_srv_request_status-Fits sample (λ n. omega arith) serving web_name status_buff refl refl
      (omega arith)

switch_loop-chosen_example :
    Returns
      (λ v.
        IsSound v
        × All
            (λ id. side_of (v.svc id).state ≡ wanted (in_target serving id (1 ∷ [])))
            serving.repo)
      (switch_loop easy (1 ∷ []) serving.repo serving)
switch_loop-chosen_example = switch_loop-chosen easy (1 ∷ []) serving serving-IsSound

web_parsed : tinit_parse_svc_name sample web_name ≡ pos 3
unfolding tinit_parse_svc_name sample_validate probe_answer is_alnum is_name_char
web_parsed = refl

web-IsFolder : IsFolder sample serving sample.sysconf_dir web_name
unfolding folder_asserts char_at
web-IsFolder = record { named = refl; fits = refl; readable = (omega arith, refl) }

tinit_target_switch-Answers_example :
    Returns (Answers serving) (tinit_target_switch sample easy sample.sysconf_dir web_name serving)
tinit_target_switch-Answers_example =
    tinit_target_switch-Answers sample serving easy serving-IsSound sample.sysconf_dir web_name 2
      web_parsed web-IsFolder

root_folder : folder_asserts sample serving (b'/' ∷ []) ≡ false
unfolding folder_asserts char_at
root_folder = refl

iter_loop-table_of_example :
    (tinit_target_walk_folder sample serving (b'/' ∷ []) web_dir >>= λ walk.
    iter_loop sample serving (b'/' ∷ []) 1 [] 4 walk)
    ≡ ok (table_of sample serving (b'/' ∷ []) web_dir.entries web_dir.err [])
iter_loop-table_of_example =
    iter_loop-table_of sample serving (b'/' ∷ []) web_dir (omega arith) refl root_folder
