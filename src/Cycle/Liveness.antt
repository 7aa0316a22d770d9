-- ===== src/Cycle/Liveness.antt =====
-- internal/cycle/liveness.go: whether the run behind an open claim still works. What the probe asks of
-- the machine and of the workflow service, which do not change while it is asked, is a parameter.
pub mod Answers
mod Tests
use crossrev.Prelude.{
  ℕ, String, Bool, true, false, not, ◌&&◌, ◌||◌, Option, none, some, List, [], ◌∷◌, ◌==◌, ◌!=◌,
  nat_Eq, leb, if◌then◌else◌,
}
use crossrev.Prelude.Bytes.{Bytes, codes, newline, cut, cut_prefix, atoi_nat}
use crossrev.Prelude.Scan.{bytes_Eq, trim_right}
use crossrev.Vcs.Lock.{unknown_host, before_cut, parse_holder}

abbrev pub life_unknown : String
life_unknown = ""

abbrev pub life_running : String
life_running = "running"

abbrev pub life_gone : String
life_gone = "gone"

abbrev pub life_elsewhere : String
life_elsewhere = "elsewhere"

abbrev pub status_gone_locally : Bytes
status_gone_locally = codes "the process that started it is gone"

abbrev pub status_gone_in_workflow : Bytes
status_gone_in_workflow = codes "the workflow run finished without it"

-- What the probe may ask: the shared git directory, none where it cannot be told; the lock file of a
-- pull request in it; whether a process is alive; the name of the machine, empty where the lookup
-- fails; and the status of a workflow run, none without a client.
pub record Surroundings : Type 0 where
  pub pr : ℕ
  pub git_dir : Option Bytes
  pub lock_file : Bytes → ℕ → Option Bytes
  pub pid_alive : ℕ → Bool
  pub name : Bytes
  pub workflow_run_status : Option (Bytes → Bytes)

-- The life of a run, and the detail beside it.
abbrev pub Answer : Type 0
Answer = String × Bytes

abbrev pub unknown : Answer
unknown = (life_unknown, [])

all_digits : Bytes → Bool
all_digits [] = true
all_digits (c ∷ s) = (leb b'0' c && leb c b'9') && all_digits s

unfoldable pub status_is_pid : Bytes → Bool
unfolding all_digits
status_is_pid [] = false
status_is_pid (c ∷ s) = all_digits (c ∷ s)

pub host_of : Bytes → Option (Bytes × Bytes) → Bytes
host_of holder none = before_cut holder (cut (codes " since ") holder)
host_of holder (some parts) = (parse_holder holder).host

unfoldable pub status_lock_host : Bytes → Bytes
unfolding host_of
status_lock_host holder = host_of holder (cut (codes " on ") holder)

unfoldable pub hostname : Surroundings → Bytes
hostname s = if s.name == [] then unknown_host else s.name

pub alive_number : Surroundings → Option ℕ → Bool
alive_number s none = false
alive_number s (some n) = s.pid_alive n

-- `alive`.
unfoldable pub is_alive : Surroundings → Bytes → Bool
unfolding alive_number
is_alive s pid = alive_number s (atoi_nat pid)

unfoldable pub judge_line : Surroundings → Bytes → Bytes → Answer
unfolding status_lock_host hostname is_alive
judge_line s pid holder =
    if before_cut holder (cut (codes " ") holder) != pid
    then unknown
    else if status_lock_host holder != [] && status_lock_host holder != hostname s
    then (life_elsewhere, status_lock_host holder)
    else if is_alive s pid
    then (life_running, [])
    else (life_gone, status_gone_locally)

pub judge_lock : Surroundings → Bytes → Option Bytes → Answer
unfolding judge_line
judge_lock s pid none = unknown
judge_lock s pid (some raw) = judge_line s pid (trim_right newline raw)

pub judge_dir : Surroundings → Bytes → Option Bytes → Answer
unfolding judge_lock
judge_dir s pid none = unknown
judge_dir s pid (some []) = unknown
judge_dir s pid (some (c ∷ dir)) = judge_lock s pid (s.lock_file (c ∷ dir) s.pr)

-- `local`.
unfoldable pub local_answer : Surroundings → Bytes → Answer
unfolding status_is_pid judge_dir
local_answer s pid = if not (status_is_pid pid) then unknown else judge_dir s pid s.git_dir

unfoldable pub answer_of_status : Bytes → Answer
answer_of_status status =
    if status == codes "queued"
      || status == codes "in_progress"
      || status == codes "requested"
      || status == codes "waiting"
      || status == codes "pending"
    then (life_running, [])
    else if status == codes "completed"
    then (life_gone, status_gone_in_workflow)
    else unknown

pub ask_workflow : Bytes → Option (Bytes → Bytes) → Answer
unfolding answer_of_status
ask_workflow run_id none = unknown
ask_workflow run_id (some status) = answer_of_status (status run_id)

-- `workflow`.
unfoldable pub workflow_answer : Surroundings → Bytes → Answer
unfolding ask_workflow
workflow_answer s run_id = ask_workflow run_id s.workflow_run_status

pub answer_for : Surroundings → Bytes → Option Bytes → Answer
unfolding local_answer workflow_answer
answer_for s run_id (some pid) = local_answer s pid
answer_for s run_id none = workflow_answer s run_id

-- The answer for a run that the probe does not remember.
unfoldable pub ask : Surroundings → Bytes → Answer
unfolding answer_for
ask s [] = unknown
ask s (c ∷ run_id) = answer_for s (c ∷ run_id) (cut_prefix (c ∷ run_id) (codes "local-"))

-- What `LivenessProbe` keeps: the last run that it was asked for, and the answer.
pub record LivenessProbe : Type 0 where
  pub asked_for : Bytes
  pub life : String
  pub detail : Bytes

abbrev pub new_probe : LivenessProbe
new_probe = record { asked_for = []; life = life_unknown; detail = [] }

pub remember : Bytes → Answer → LivenessProbe
remember run_id (life, detail) = record { asked_for = run_id; life = life; detail = detail }

-- `Alive`, for the run of a claim.
unfoldable pub alive : Surroundings → LivenessProbe → Bytes → LivenessProbe × Answer
unfolding ask remember
alive s p run_id =
    let answer = ask s run_id in
    if run_id == p.asked_for then (p, (p.life, p.detail)) else (remember run_id answer, answer)

-- The answers to questions in a row, from one probe.
unfoldable pub alive_all : Surroundings → LivenessProbe → List Bytes → List Answer
unfolding alive
alive_all s p [] = []
alive_all s p (run_id ∷ run_ids) = (alive s p run_id).1 ∷ alive_all s (alive s p run_id).0 run_ids
