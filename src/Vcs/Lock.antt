-- ===== src/Vcs/Lock.antt =====
-- internal/vcs/lock.go: the run lock of a pull request, a file in the clone's shared git directory.
-- The machine a process runs on, and the outcome of each call to it, are parameters. A file that
-- stands can be read, and a negative number for a process, which no lock holds, is read as none.
pub mod Exclusion
pub mod Holding
mod Taking
mod Tests
use crossrev.Prelude.{
  ℕ, Bool, true, false, not, ◌&&◌, ◌||◌, Option, none, some, List, [], ◌∷◌, ◌++◌, ◌==◌, nat_Eq,
  Result, ok, err, if◌then◌else◌,
}
use crossrev.Prelude.Bytes.{Bytes, codes, newline, cut, atoi_nat, itoa_bytes}
use crossrev.Prelude.Scan.{bytes_Eq, trim_right}

abbrev pub automated_mode : Bytes
automated_mode = codes "automated"

abbrev pub unknown_host : Bytes
unknown_host = codes "local"

pub record Holder : Type 0 where
  pub pid : ℕ
  pub host : Bytes
  pub since : Bytes
  pub raw : Bytes

-- `Holder.String`.
unfoldable pub holder_text : Holder → Bytes
holder_text h = itoa_bytes h.pid ++ (codes " on " ++ (h.host ++ (codes " since " ++ h.since)))

-- What `strings.Cut` puts before the separator: the whole where there is none.
abbrev pub before_cut : Bytes → Option (Bytes × Bytes) → Bytes
before_cut s none = s
before_cut s (some (a, b)) = a

abbrev number_of : Option ℕ → ℕ
number_of none = 0
number_of (some n) = n

pub place_of : Holder → Option (Bytes × Bytes) → Holder
place_of h none = h
place_of h (some (a, rest)) = since_of (cut (codes " since ") rest)
  where
    since_of : Option (Bytes × Bytes) → Holder
    since_of none = record h { host = rest }
    since_of (some (host, since)) = record h { host = host; since = since }

unfoldable pub parse_holder : Bytes → Holder
unfolding place_of
parse_holder line =
    place_of
      (record {
        pid = number_of (atoi_nat (before_cut line (cut (codes " ") line)));
        host = [];
        since = [];
        raw = line;
      })
      (cut (codes " on ") line)

-- `Warning` and `Refusal`.
pub record Notice : Type 0 where
  pub message : Bytes
  pub hint : Bytes

pub record RunLock : Type 0 where
  pub path : Bytes
  pub warning : Option Notice
  pub held : Bool

abbrev pub no_lock : RunLock
no_lock = record { path = []; warning = none; held = false }

pub data LockError : Type 0 where
  refused : Notice → LockError
  failed : Bytes → LockError

-- A process: its number, what it may ask, and the errors of its three calls on files. The host has
-- no name where the lookup fails.
pub record Machine : Type 0 where
  pub pid : ℕ
  pub name : Bytes
  pub now : Bytes
  pub alive : ℕ → Bool
  pub common_dir : Option Bytes
  pub lock_path : Bytes → ℕ → Bytes
  pub mkdir_error : Option Bytes
  pub remove_error : Option Bytes
  pub write_error : Option Bytes

abbrev pub Disk : Type 0
Disk = Bytes → Option Bytes

unfoldable pub put : Bytes → Option Bytes → Disk → Disk
put path content disk p = if p == path then content else disk p

unfoldable pub hostname : Machine → Bytes
hostname m = if m.name == [] then unknown_host else m.name

unfoldable pub own_holder : Machine → Holder
unfolding hostname
own_holder m = record { pid = m.pid; host = hostname m; since = m.now; raw = [] }

unfoldable pub live_notice : ℕ → Holder → Notice
live_notice pr h = record {
  message =
      codes "another CrossRev run already holds pull request "
      ++ (itoa_bytes pr ++ (codes " " ++ (0xe2 ∷ 0x80 ∷ 0x94 ∷ codes " " ++ h.raw)));
  hint =
      codes
        "Two runs writing the same pull request would interleave comments and replies. Wait for it to finish, or stop that process.";
}

unfoldable pub stale_notice : ℕ → Holder → Notice
stale_notice pr h = record {
  message =
      codes "a previous run left a lock on pull request "
      ++ (itoa_bytes pr ++ (codes " held by " ++ (h.raw ++ codes ", which is no longer running")));
  hint =
      codes
        "Taking it over. If that run was killed mid-write, its marker records how far it got and this run posts only the difference.";
}

abbrev pub Acquired : Type 0
Acquired = Disk × Result LockError RunLock

pub after_write : Machine → Bytes → Option Notice → Disk → Option Bytes → Acquired
unfolding put own_holder holder_text
after_write m path warning disk (some e) = (disk, err (failed e))
after_write m path warning disk none = (
  put path (some (holder_text (own_holder m) ++ newline ∷ [])) disk,
  ok (record { path = path; warning = warning; held = true }),
)

-- The end of the acquisition: the lock is written.
pub take_lock : Machine → Bytes → Option Notice → Disk → Acquired
unfolding after_write
take_lock m path warning disk = after_write m path warning disk m.write_error

pub after_remove : Machine → ℕ → Bytes → Holder → Disk → Option Bytes → Acquired
unfolding put take_lock stale_notice
after_remove m pr path h disk (some e) = (disk, err (failed e))
after_remove m pr path h disk none =
    take_lock m path (some (stale_notice pr h)) (put path none disk)

-- A dead holder's lock is removed first.
unfoldable pub take_over : Machine → ℕ → Bytes → Holder → Disk → Acquired
unfolding after_remove
take_over m pr path h disk = after_remove m pr path h disk m.remove_error

pub judge_holder : Machine → ℕ → Bytes → Holder → Disk → Acquired
unfolding take_over live_notice
judge_holder m pr path h disk =
    if h.pid == m.pid
    then (disk, ok (record { path = path; warning = none; held = false }))
    else if not (h.pid == 0) && m.alive h.pid
    then (disk, err (refused (live_notice pr h)))
    else take_over m pr path h disk

pub judge_file : Machine → ℕ → Bytes → Option Bytes → Disk → Acquired
unfolding judge_holder take_lock parse_holder
judge_file m pr path none disk = take_lock m path none disk
judge_file m pr path (some raw) disk =
    judge_holder m pr path (parse_holder (trim_right newline raw)) disk

pub after_mkdir : Machine → ℕ → Bytes → Disk → Option Bytes → Acquired
unfolding judge_file
after_mkdir m pr path disk (some e) = (disk, err (failed e))
after_mkdir m pr path disk none = judge_file m pr path (disk path) disk

pub acquire_in : Machine → ℕ → Option Bytes → Disk → Acquired
unfolding after_mkdir
acquire_in m pr none disk = (disk, ok no_lock)
acquire_in m pr (some []) disk = (disk, ok no_lock)
acquire_in m pr (some (c ∷ dir)) disk =
    after_mkdir m pr (m.lock_path (c ∷ dir) pr) disk m.mkdir_error

unfoldable pub acquire_run_lock : Machine → ℕ → Bytes → Disk → Acquired
unfolding acquire_in
acquire_run_lock m pr mode disk =
    if mode == automated_mode then (disk, ok no_lock) else acquire_in m pr m.common_dir disk

-- `Release`, where the removal goes through. A file that is gone already is no error.
unfoldable pub release : RunLock → Disk → Disk
unfolding put
release l disk = if not l.held || l.path == [] then disk else put l.path none disk
