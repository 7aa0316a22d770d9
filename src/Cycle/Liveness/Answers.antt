-- ===== src/Cycle/Liveness/Answers.antt =====
-- What the answers of a probe rest on.
use crossrev.Prelude.{
  arith, ℕ, ◌≤◌, Bool, true, false, ◌&&◌, some, List, [], ◌∷◌, ◌++◌, map, ◌==◌, nat_Eq, length,
  if◌then◌else◌, ◌≡◌, refl, sym, ap, ◌∙◌, All, Bool-cases, inl, inr,
}
use crossrev.Prelude.Bytes.{Bytes, codes, newline, itoa_bytes}
use crossrev.Prelude.Bytes.Cuts.{cut_prefix-append, atoi-itoa}
use crossrev.Prelude.Bytes.Digits.{IsDigit, itoa-All, length-itoa_pos}
use crossrev.Prelude.Scan.{bytes_Eq, bytes_eq_iff}
use crossrev.Vcs.Lock.{Holder, holder_text, Machine, own_holder}
use crossrev.Vcs.Lock.Holding.{
  IsPlain, cut-on, cut-space, parse_holder-holder_text, trim_right-line, line-All,
}
use crossrev.Cycle.Liveness.{
  life_running, life_gone, status_gone_locally, Surroundings, Answer, unknown, all_digits,
  status_is_pid, host_of, status_lock_host, hostname, is_alive, judge_line, judge_lock, judge_dir,
  local_answer, answer_for, ask, LivenessProbe, new_probe, remember, alive, alive_all,
}

-- What a probe remembers is what it would be told now.
abbrev Remembers : Surroundings → LivenessProbe → Type 0
Remembers s p = (p.life, p.detail) ≡ ask s p.asked_for

remember-Remembers :
    (s : Surroundings) (run_id : Bytes) → Remembers s (remember run_id (ask s run_id))
unfolding remember
remember-Remembers s run_id = refl

alive-ask :
    (s : Surroundings) (p : LivenessProbe) (run_id : Bytes)
    → Remembers s p
    → ((alive s p run_id).1 ≡ ask s run_id) × Remembers s (alive s p run_id).0
unfolding alive
alive-ask s p run_id h = elim (Bool-cases (run_id == p.asked_for)) [
  | inl e ↦ rw e (h ∙ ap (ask s) (sym ((bytes_eq_iff run_id p.asked_for).0 e)), h)
  | inr e ↦ rw e (refl, remember-Remembers s run_id)
]

alive_all-from :
    (s : Surroundings) (p : LivenessProbe) (run_ids : List Bytes)
    → Remembers s p
    → alive_all s p run_ids ≡ map (ask s) run_ids
unfolding alive_all
alive_all-from s p [] h = refl
alive_all-from s p (run_id ∷ run_ids) h =
    let (answer, kept) = alive-ask s p run_id h in
    ap (λ a. a ∷ alive_all s (alive s p run_id).0 run_ids) answer
    ∙ ap (λ rest. ask s run_id ∷ rest) (alive_all-from s (alive s p run_id).0 run_ids kept)

-- While its surroundings stand still, a new probe that is asked about any runs in a row gives the
-- answers that it would give without a memory.
pub alive_all-ask :
    (s : Surroundings) (run_ids : List Bytes) → alive_all s new_probe run_ids ≡ map (ask s) run_ids
unfolding ask
alive_all-ask s run_ids = alive_all-from s new_probe run_ids refl

all_digits-IsDigit : (s : Bytes) → All IsDigit s → all_digits s ≡ true
unfolding all_digits
all_digits-IsDigit [] h = refl
all_digits-IsDigit (c ∷ s) h = ground (arith, all_digits-IsDigit s)

is_pid-digits : (s : Bytes) → All IsDigit s → 1 ≤ length s → status_is_pid s ≡ true
unfolding status_is_pid
is_pid-digits [] h k = absurd (omega arith)
is_pid-digits (c ∷ s) h k = all_digits-IsDigit (c ∷ s) h

ask-local : (s : Surroundings) (pid : Bytes) → ask s (codes "local-" ++ pid) ≡ local_answer s pid
unfolding ask answer_for
ask-local s pid = ap (answer_for s (codes "local-" ++ pid)) (cut_prefix-append (codes "local-") pid)

lock_host-text : (h : Holder) → IsPlain h → status_lock_host (holder_text h) ≡ h.host
unfolding status_lock_host host_of
lock_host-text h p =
    ap (host_of (holder_text h)) (cut-on h) ∙ ap (λ x. x.host) (parse_holder-holder_text h p)

judge_line-text :
    (s : Surroundings) (h : Holder)
    → IsPlain h
    → h.host ≡ hostname s
    → judge_line s (itoa_bytes h.pid) (holder_text h)
      ≡ (if s.pid_alive h.pid then (life_running, []) else (life_gone, status_gone_locally))
unfolding judge_line is_alive crossrev.Cycle.Liveness.alive_number
judge_line-text s h p e =
    let same : (itoa_bytes h.pid == itoa_bytes h.pid) ≡ true =
      (bytes_eq_iff (itoa_bytes h.pid) (itoa_bytes h.pid)).1 refl in
    let here : (hostname s == hostname s) ≡ true =
      (bytes_eq_iff (hostname s) (hostname s)).1 refl in
    simp (cut-space h, same, lock_host-text h p, e, here, atoi-itoa h.pid p.number, and_false)
  where
    and_false : (b : Bool) → (b && false) ≡ false
    and_false true = refl
    and_false false = refl

-- Where the lock file holds the line that a process wrote on this machine, the probe says of the
-- run of that process that it works while the process is alive, and that it is gone otherwise.
pub ask-holder :
    (s : Surroundings) (m : Machine) (c : ℕ) (dir : Bytes)
    → IsPlain (own_holder m)
    → (own_holder m).host ≡ hostname s
    → s.git_dir ≡ some (c ∷ dir)
    → s.lock_file (c ∷ dir) s.pr ≡ some (holder_text (own_holder m) ++ newline ∷ [])
    → ask s (codes "local-" ++ itoa_bytes (own_holder m).pid) ≡ (
        if s.pid_alive (own_holder m).pid
        then (life_running, [])
        else (life_gone, status_gone_locally))
unfolding local_answer judge_dir judge_lock
ask-holder s m c dir p host here file =
    let h = own_holder m in
    let pid = itoa_bytes h.pid in
    ask-local s pid
    ∙ rw (is_pid-digits pid (itoa-All h.pid) (length-itoa_pos h.pid)) (
        ap (judge_dir s pid) here
        ∙ ap (judge_lock s pid) file
        ∙ ap (judge_line s pid) (trim_right-line (holder_text h) (line-All h p))
        ∙ judge_line-text s h p host)
