-- ===== src/Vcs/Lock/Holding.antt =====
-- What a lock says of its holder, and what it keeps other processes from.
use crossrev.Prelude.{
  some, arith, ℕ, ◌<◌, [], ◌∷◌, ◌++◌, nat_Eq, ◌≡◌, refl, All, All-weaken, All-append,
}
use crossrev.Prelude.Bytes.{cut, Bytes, codes, newline, itoa_bytes}
use Prim.Native.Nat.{◌^◌}
use crossrev.Prelude.Bytes.Cuts.{cut-first, atoi-itoa}
use crossrev.Prelude.Bytes.Digits.{IsDigit, itoa-All}
use crossrev.Prelude.Scan.{bytes_Eq, trim_right, Differs}
use crossrev.Vcs.Lock.{Holder, holder_text, place_of, parse_holder}

-- A holder that a process writes: a number below the limit, a host without a space, and no line end.
pub record IsPlain (h : Holder) : Type 0 where
  pub number : h.pid < 2 ^ 63
  pub host : All (Differs 32) h.host
  pub host_line : All (Differs newline) h.host
  pub since_line : All (Differs newline) h.since

digit-Differs : (c : ℕ) → IsDigit c → Differs 32 c
digit-Differs c h = ground arith

digits-Differs : (n : ℕ) → All (Differs 32) (itoa_bytes n)
digits-Differs n = All-weaken IsDigit (Differs 32) digit-Differs (itoa_bytes n) (itoa-All n)

-- What stands behind the number in the text of a holder.
abbrev pub place : Holder → Bytes
place h = h.host ++ (codes " since " ++ h.since)

-- Where the two separators behind the number are found.
pub cut-space :
    (h : Holder) → cut (codes " ") (holder_text h) ≡ some (itoa_bytes h.pid, codes "on " ++ place h)
unfolding holder_text
cut-space h = cut-first 32 [] (itoa_bytes h.pid) (codes "on " ++ place h) (digits-Differs h.pid)

pub cut-on : (h : Holder) → cut (codes " on ") (holder_text h) ≡ some (itoa_bytes h.pid, place h)
unfolding holder_text
cut-on h = cut-first 32 (codes "on ") (itoa_bytes h.pid) (place h) (digits-Differs h.pid)

pub parse_holder-holder_text :
    (h : Holder) → IsPlain h → parse_holder (holder_text h) ≡ record h { raw = holder_text h }
unfolding parse_holder place_of
parse_holder-holder_text h p = simp (
  cut-space h,
  cut-on h,
  cut-first 32 (codes "since ") h.host h.since p.host,
  atoi-itoa h.pid p.number,
)

pub trim_right-line :
    (s : Bytes) → All (Differs newline) s → trim_right newline (s ++ newline ∷ []) ≡ s
unfolding trim_right
trim_right-line [] h = refl
trim_right-line (c ∷ []) h = simp h.0
trim_right-line (c ∷ d ∷ s) h = simp (trim_right-line (d ∷ s) h.1)

digit-line : (c : ℕ) → IsDigit c → Differs newline c
digit-line c h = ground arith

-- The text of a holder is one line.
pub line-All : (h : Holder) → IsPlain h → All (Differs newline) (holder_text h)
unfolding holder_text
line-All h p =
    All-append (Differs newline) (itoa_bytes h.pid) (codes " on " ++ place h)
      (All-weaken IsDigit (Differs newline) digit-line (itoa_bytes h.pid) (itoa-All h.pid))
      (
        refl,
        (
          refl,
          (
            refl,
            (
              refl,
              All-append (Differs newline) h.host (codes " since " ++ h.since) p.host_line
                  (refl, (refl, (refl, (refl, (refl, (refl, (refl, p.since_line))))))),
            ),
          ),
        ),
      )
