-- ===== src/Log/Lines.antt =====
-- What `llog` prints is one line.
use sillyweb.Base.{
  ℕ, ◌≤◌, ◌≡◌, ◌≢◌, refl, true, All, All-append, [], ◌∷◌, ◌++◌, some, length, take, take_all,
  length-take, length-append, take-append, append_assoc, sym, ap, ◌∙◌, ◌-◌, Bytes, codes, arith,
}
use sillyweb.Platform.{Platform}
use sillyweb.Util.{is_print, filter_nonprintables, sctime}
use sillyweb.Util.Printable.{filter_nonprintables-is_print}
use sillyweb.Log.{log_message, service_line, llog_service}
use sillyweb.Log.Fits.{IsClock, llog_service_fits}
use sillyweb.Log.Output.{Journal, print_line, llog}

-- No newline.
abbrev pub IsOneLine : Bytes → Type 0
IsOneLine s = All (λ c. c ≢ b'\n') s

print-no_newline : (s : Bytes) → All (λ c. is_print c ≡ true) s → IsOneLine s
unfolding is_print
print-no_newline [] h = tt
print-no_newline (c ∷ s) h = (ground (arith, h.0), print-no_newline s h.1)

log_message-IsOneLine : (message : Bytes) → IsOneLine (log_message message)
log_message-IsOneLine message =
    let (size, printable) =
      filter_nonprintables-is_print (take 510 message) 512 b'.' (unfold is_print in refl) in
    print-no_newline (log_message message) (
      rw⁻¹
        (take_all 512 (filter_nonprintables (take 510 message) 512 b'.')
          (omega (arith, size, length-take 510 message)))
        printable)

-- `ctime` writes a date of at most 24 bytes and a newline.
pub record IsDated (os : Platform) : Type 0 where
  pub date : ℕ → Bytes
  pub is_date : (at : ℕ) → os.ctime at ≡ date at ++ b'\n' ∷ []
  pub short : (at : ℕ) → length (date at) ≤ 24
  pub one_line : (at : ℕ) → IsOneLine (date at)

module _ (os : Platform) (dated : IsDated os) where
  open os use {World}

  dated-IsClock : IsClock os
  dated-IsClock at = omega (
    arith,
    ap (λ (t : Bytes). length t) (dated.is_date at),
    dated.short at,
    length-append (dated.date at) (b'\n' ∷ []),
  )

  sctime-date : (w : World) → sctime os 0 w ≡ dated.date (os.time w)
  unfolding sctime
  sctime-date w =
      let at = os.time w in
      let size : length (dated.date at ++ b'\n' ∷ []) - 1 ≡ length (dated.date at) =
        omega (arith, length-append (dated.date at) (b'\n' ∷ [])) in
      rw (dated.is_date at) (
        ap (λ n. take n (dated.date at ++ b'\n' ∷ [])) size
        ∙ take-append (dated.date at) (b'\n' ∷ []))

  -- The line of a message with no client, without its end.
  abbrev pub service_text : Bytes → World → Bytes
  service_text message w =
      codes "SERVICE - [" ++ (dated.date (os.time w) ++ (codes "] - " ++ log_message message))

  service_line-text :
      (message : Bytes) (w : World)
      → service_line os message w ≡ service_text message w ++ codes "\n"
  unfolding service_line
  service_line-text message w =
      ap (λ d. codes "SERVICE - [" ++ (d ++ (codes "] - " ++ (log_message message ++ codes "\n"))))
        (sctime-date w)
      ∙ ap (λ t. codes "SERVICE - [" ++ t)
          (sym (
            append_assoc (dated.date (os.time w)) (codes "] - " ++ log_message message)
              (codes "\n")))

  -- Whatever bytes a message of at most 471 has, `llog(NULL, …)` prints one line for it: the date
  -- and the filtered message between the texts of the format, in which there is no newline, and
  -- then one. It keeps the time as that of the last event, and does nothing else.
  pub llog-IsOneLine :
      (journal : Journal World) (message : Bytes) (w : World)
      → length message ≤ 471
      → (line : Bytes) × (llog os journal message w
          ≡ some (record { last_event = os.time w; world = journal.print (line ++ codes "\n") w }))
        × IsOneLine line
        × (line ≡ service_text message w)
  unfolding llog print_line
  llog-IsOneLine journal message w h =
      let fits : llog_service os message w ≡ true =
        llog_service_fits os dated-IsClock message w h in
      (
        service_text message w,
        rw (llog, fits, service_line-text message w) refl,
        All-append (λ c. c ≢ b'\n') (codes "SERVICE - [") _ (omega arith)
            (All-append (λ c. c ≢ b'\n') (dated.date (os.time w)) _ (dated.one_line (os.time w))
              (All-append (λ c. c ≢ b'\n') (codes "] - ") _ (omega arith)
                (log_message-IsOneLine message))),
        refl,
      )
