-- ===== src/Cycle/Liveness/Tests.antt =====
-- A claim of a local run, asked about on the machine that holds its lock (internal/cycle/liveness.go).
use crossrev.Prelude.{
  arith, ℕ, true, false, none, some, [], ◌∷◌, ◌++◌, map, ◌≡◌, refl, if◌then◌else◌,
}
use crossrev.Prelude.Bytes.{Bytes, codes, newline, itoa_bytes}
use crossrev.Vcs.Lock.{Machine, own_holder, holder_text}
use crossrev.Vcs.Lock.Holding.{IsPlain}
use crossrev.Cycle.Liveness.{
  Surroundings, ask, life_gone, life_running, status_gone_locally, status_gone_in_workflow,
  new_probe, hostname, alive_all,
}
use crossrev.Cycle.Liveness.Answers.{ask-holder, alive_all-ask}

abbrev writer : Machine
writer = record {
  pid = 41;
  name = codes "box";
  now = codes "2026-01-02T03:04:05Z";
  alive = λ m. true;
  common_dir = some (codes "/g");
  lock_path = λ dir pr. codes "/g/l";
  mkdir_error = none;
  remove_error = none;
  write_error = none;
}

-- No process is alive.
abbrev around : Surroundings
around = record {
  pr = 7;
  git_dir = some (codes "/g");
  lock_file = λ dir pr. some (holder_text (own_holder writer) ++ newline ∷ []);
  pid_alive = λ n. false;
  name = codes "box";
  workflow_run_status = some (λ run_id. codes "completed");
}

writer-IsPlain : IsPlain (own_holder writer)
unfolding own_holder
writer-IsPlain = record {
  number = omega arith;
  host = ground arith;
  host_line = ground arith;
  since_line = ground arith;
}

same_host : (own_holder writer).host ≡ hostname around
unfolding own_holder hostname
same_host = refl

ask-holder_example :
    ask around (codes "local-" ++ itoa_bytes (own_holder writer).pid)
    ≡ (if false then (life_running, []) else (life_gone, status_gone_locally))
ask-holder_example = ask-holder around writer b'/' (codes "g") writer-IsPlain same_host refl refl

alive_all-ask_example :
    alive_all around new_probe (codes "9" ∷ codes "9" ∷ codes "local-41" ∷ [])
    ≡ map (ask around) (codes "9" ∷ codes "9" ∷ codes "local-41" ∷ [])
alive_all-ask_example = alive_all-ask around (codes "9" ∷ codes "9" ∷ codes "local-41" ∷ [])

workflow-gone : ask around (codes "9") ≡ (life_gone, status_gone_in_workflow)
unfolding ask crossrev.Prelude.Bytes.cut_prefix
workflow-gone = refl
