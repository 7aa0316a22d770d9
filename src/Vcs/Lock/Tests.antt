-- ===== src/Vcs/Lock/Tests.antt =====
-- Two processes on one host, one after the other (internal/vcs/lock.go).
use crossrev.Prelude.{ℕ, true, none, some, nat_Eq, ◌≡◌, refl, ok}
use crossrev.Prelude.Bytes.{Bytes, codes}
use crossrev.Vcs.Lock.{Machine, Disk, RunLock, acquire_run_lock, automated_mode, no_lock}

-- Every process is alive.
abbrev process : ℕ → Machine
process n = record {
  pid = n;
  name = codes "box";
  now = codes "2026-01-02T03:04:05Z";
  alive = λ m. true;
  common_dir = some (codes "/g");
  lock_path = λ dir pr. codes "/g/l";
  mkdir_error = none;
  remove_error = none;
  write_error = none;
}

abbrev empty_disk : Disk
empty_disk p = none

abbrev local_mode : Bytes
local_mode = codes "local"

abbrev after : Disk
after = (acquire_run_lock (process 41) 7 local_mode empty_disk).0

abbrev first_lock : RunLock
first_lock = record { path = codes "/g/l"; warning = none; held = true }

automated-unlocked :
    acquire_run_lock (process 41) 7 automated_mode empty_disk ≡ (empty_disk, ok no_lock)
unfolding acquire_run_lock
automated-unlocked = refl
