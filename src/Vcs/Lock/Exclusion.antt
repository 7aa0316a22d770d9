-- ===== src/Vcs/Lock/Exclusion.antt =====
-- A lock that a process holds keeps the others out.
use crossrev.Prelude.{Bool, ℕ, true, false, none, some, [], ◌∷◌, ◌++◌, nat_Eq, ok, err, ◌≡◌, ◌≢◌}
use crossrev.Prelude.Bytes.{Bytes, newline}
use crossrev.Prelude.Scan.{bytes_Eq}
use crossrev.Vcs.Lock.{
  automated_mode, Holder, holder_text, refused, stale_notice, Machine, Disk, own_holder,
  live_notice, Acquired,
}
use crossrev.Vcs.Lock.Taking.{TookOver}

-- The holder that a process writes, as it is read back.
abbrev pub written : Machine → Holder
written m = record (own_holder m) { raw = holder_text (own_holder m) }

-- Where an acquisition took the lock, the file holds its line.
abbrev Writes : Machine → Acquired → Type 0
Writes m (disk, err e) = Unit
Writes m (disk, ok l) =
    (l.held ≡ true) → disk l.path ≡ some (holder_text (own_holder m) ++ newline ∷ [])

-- A local run that has a shared git directory, whose lock of the pull request is at the path.
abbrev pub LocksAt : Machine → ℕ → Bytes → Bytes → Type 0
LocksAt m pr mode path =
    (mode ≢ automated_mode)
    × (m.mkdir_error ≡ none)
    × (c : ℕ) × (dir : Bytes) × (m.common_dir ≡ some (c ∷ dir))
    × (m.lock_path (c ∷ dir) pr ≡ path)

-- What a second acquisition comes to, by whether it finds the first process alive.
abbrev pub Outcome : Machine → Machine → ℕ → Bytes → Disk → Bool → Acquired → Type 0
Outcome a b pr path disk true (disk', r) =
    (disk' ≡ disk) × (r ≡ err (refused (live_notice pr (written a))))
Outcome a b pr path disk false acquired =
    TookOver b path (stale_notice pr (written a)) disk b.remove_error b.write_error acquired
