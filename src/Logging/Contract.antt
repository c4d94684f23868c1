-- ===== src/Logging/Contract.antt =====
-- What the writers keep of the contract of `io.Writer`.
use tailscale_os.Base.{
  ℕ, ◌==◌, leb, ◌≤◌, ◌<◌, ◌≡◌, ◌↔◌, refl, Bool, true, false, ◌||◌, none, some, List, length,
  succeeds, if◌then◌else◌, arith, Bool-cases, inl, inr,
}
use tailscale_os.Logging.{Written, Writer, stamped_line, report, stamped, log_line}

-- No more is written than there is, and less only with an error.
pub record Keeps (p : List ℕ) (r : Written) : Type 0 where
  pub within : r.0 ≤ length p
  pub short_fails : r.0 < length p → succeeds r.1 ≡ false

-- What a report says, and when it keeps the contract on a line of this length.
record Reported (p : List ℕ) (under r : Written) : Type 0 where
  same_error : succeeds r.1 ≡ succeeds under.1
  counted : r.0 ≡ (if succeeds under.1 then length p else under.0)

reported :
    (p : List ℕ) (len_buf : ℕ) (under : Written)
    → (under.0 < len_buf → succeeds under.1 ≡ false)
    → under.0 ≤ len_buf
    → Reported p under (report (length p) len_buf under)
reported p len_buf (n, some e) h le = record { same_error = refl; counted = refl }
reported p len_buf (n, none) h le = elim (Bool-cases (n == len_buf)) [
  | inl all ↦ rw all (record { same_error = refl; counted = refl })
  | inr part ↦ cc (h (ground (arith, part)))
]

Reported-Keeps :
    (p : List ℕ) (under r : Written)
    → Reported p under r
    → (succeeds under.1 || leb under.0 (length p)) ≡ true
    → Keeps p r
Reported-Keeps p under r v e = record {
  within = ground (arith, v.counted, e);
  short_fails = λ short. ground (arith, v.counted, v.same_error, short);
}

Keeps-Reported :
    (p : List ℕ) (under r : Written)
    → Reported p under r
    → Keeps p r
    → (succeeds under.1 || leb under.0 (length p)) ≡ true
Keeps-Reported p under r v k = ground (arith, v.counted, k.within)

-- If the writer below keeps the contract of `io.Writer` on the line with its time stamp, a write of the
-- line succeeds exactly if that writer does; it reports the length of the line then, and else what that
-- writer reports; and it keeps the contract itself exactly if that writer succeeds or fails before it
-- has written more bytes than the line has.
pub stamped_reports :
    (stamp p : List ℕ) (w : Writer)
    → Keeps (stamped_line stamp p) (w (stamped_line stamp p))
    → let under = w (stamped_line stamp p) in
      let r = stamped stamp w p in
      (succeeds r.1 ≡ succeeds under.1)
      × (r.0 ≡ (if succeeds under.1 then length p else under.0))
      × (Keeps p r ↔ ((succeeds under.1 || leb under.0 (length p)) ≡ true))
unfolding stamped
stamped_reports stamp p w k =
    let under : Written = w (stamped_line stamp p) in
    let v : Reported p under (stamped stamp w p) =
      reported p (length (stamped_line stamp p)) under k.short_fails k.within in
    (
      v.same_error,
      v.counted,
      (Keeps-Reported p under (stamped stamp w p) v, Reported-Keeps p under (stamped stamp w p) v),
    )

-- The writer over a logger keeps the contract of `io.Writer` exactly if its level is enabled or the line
-- is empty: else it reports that nothing was written, and no error.
pub log_line-Keeps :
    (enabled : Bool) (trim : List ℕ → List ℕ) (line : List ℕ)
    → Keeps line (log_line enabled trim line).1 ↔ ((enabled || length line == 0) ≡ true)
unfolding log_line
log_line-Keeps true trim line =
    (λ k. refl, λ e. record { within = omega arith; short_fails = λ h. absurd (omega arith) })
log_line-Keeps false trim line = (
  λ k. ground (arith, k.short_fails),
  λ e. record { within = omega arith; short_fails = λ h. ground (arith, e, h) },
)
