-- ===== src/Vcs/Lock/Taking.antt =====
-- What is left where a process takes a lock over.
use crossrev.Prelude.{
  arith, ℕ, true, false, Option, none, some, [], ◌∷◌, ◌++◌, ◌==◌, nat_Eq, ok, err, ◌≡◌, ◌≢◌, refl,
  ◌∙◌,
}
use crossrev.Prelude.Bytes.{Bytes, newline}
use crossrev.Prelude.Scan.{bytes_Eq, bytes_eq_iff}
use crossrev.Vcs.Lock.{
  Holder, holder_text, Notice, failed, stale_notice, Machine, Disk, put, own_holder, Acquired,
  after_write, take_lock, after_remove,
}

pub same_path : (p : Bytes) → (p == p) ≡ true
same_path p = (bytes_eq_iff p p).1 refl

-- The line that a process writes into the file.
abbrev pub line_of : Machine → Bytes
line_of m = holder_text (own_holder m) ++ newline ∷ []

abbrev pub SameElsewhere : Bytes → Disk → Disk → Type 0
SameElsewhere path disk disk' = (p : Bytes) → p ≢ path → disk' p ≡ disk p

-- What taking a lock over leaves, by the errors of the removal and of the write: with no error, the
-- file holds the line of the process, which holds the lock and warns.
abbrev pub TookOver :
    Machine → Bytes → Notice → Disk → Option Bytes → Option Bytes → Acquired → Type 0
TookOver m path warning disk (some e) write (disk', r) = (disk' ≡ disk) × (r ≡ err (failed e))
TookOver m path warning disk none (some e) (disk', r) =
    (disk' path ≡ none) × SameElsewhere path disk disk' × (r ≡ err (failed e))
TookOver m path warning disk none none (disk', r) =
    (disk' path ≡ some (line_of m))
    × SameElsewhere path disk disk'
    × (r ≡ ok (record { path = path; warning = some warning; held = true }))

put-same :
    (path : Bytes) (content : Option Bytes) (disk : Disk) → put path content disk path ≡ content
unfolding put
put-same path content disk = simp (same_path path)

put-SameElsewhere :
    (path : Bytes) (content : Option Bytes) (disk : Disk)
    → SameElsewhere path disk (put path content disk)
unfolding put
put-SameElsewhere path content disk p h =
    let other : (p == path) ≡ false = ground (arith, bytes_eq_iff p path) in rw other refl

after_write-TookOver :
    (m : Machine) (path : Bytes) (warning : Notice) (disk : Disk) (write : Option Bytes)
    → TookOver m path warning disk none write
        (after_write m path (some warning) (put path none disk) write)
unfolding after_write
after_write-TookOver m path warning disk (some e) =
    (put-same path none disk, put-SameElsewhere path none disk, refl)
after_write-TookOver m path warning disk none = (
  put-same path (some (line_of m)) (put path none disk),
  λ p h.
      put-SameElsewhere path (some (line_of m)) (put path none disk) p h
      ∙ put-SameElsewhere path none disk p h,
  refl,
)

pub after_remove-TookOver :
    (m : Machine) (pr : ℕ) (path : Bytes) (h : Holder) (disk : Disk) (remove : Option Bytes)
    → TookOver m path
        (stale_notice pr h)
        disk
        remove
        m.write_error
        (after_remove m pr path h disk remove)
unfolding after_remove take_lock
after_remove-TookOver m pr path h disk (some e) = (refl, refl)
after_remove-TookOver m pr path h disk none =
    after_write-TookOver m path (stale_notice pr h) disk m.write_error
