-- ===== src/Log/Heartbeats.antt =====
-- The heartbeats in the loop of `main`.
use sillyweb.Base.{
  ℕ, zero, suc, ◌+◌, ◌*◌, ◌≤◌, ◌<◌, ◌≡◌, All, append_assoc, append-nil, refl, sym, ap, ◌∙◌, true,
  false, List, [], ◌∷◌, ◌++◌, some, length, Bytes, codes, ltb, arith,
}
use sillyweb.Platform.{Platform}
use sillyweb.Log.{service_line, llog_service}
use sillyweb.Log.Fits.{IsClock, llog_service_fits}
use sillyweb.Log.Output.{
  Journal, LogState, print_line, llog, llog_heartbeat, heartbeat_rounds, max_log_heartbeat_secs,
}

-- Time goes on in `sleep` alone, by so many seconds, and what is printed is kept as lines.
pub record IsTicking (os : Platform) (journal : Journal os.World) (printed : os.World → List Bytes)
    : Type 0 where
  pub sleeps : (n : ℕ) (w : os.World) → os.time (journal.sleep n w) ≡ os.time w + n
  pub sleep_quiet : (n : ℕ) (w : os.World) → printed (journal.sleep n w) ≡ printed w
  pub print_at_once : (line : Bytes) (w : os.World) → os.time (journal.print line w) ≡ os.time w
  pub prints :
      (line : Bytes) (w : os.World) → printed (journal.print line w) ≡ printed w ++ line ∷ []

-- The line of a heartbeat, at some time.
abbrev pub IsHeartbeat : Platform → Bytes → Type 0
IsHeartbeat os line = (w : os.World) × (line ≡ service_line os (codes "heartbeat!") w)

module _ (os : Platform) (journal : Journal os.World) (printed : os.World → List Bytes)
    (ticking : IsTicking os journal printed) (clock : IsClock os) where
  open os use {World}

  abbrev slept : LogState World → LogState World
  slept s = record s { world = journal.sleep 5 s.world }

  -- A round with no heartbeat.
  round_quiet :
      (s : LogState World)
      → os.time s.world + 5 ≤ s.last_event + max_log_heartbeat_secs
      → llog_heartbeat os journal (slept s) ≡ some (slept s)
  unfolding llog_heartbeat
  round_quiet s h =
      let early : ltb (s.last_event + 15) (os.time (journal.sleep 5 s.world)) ≡ false =
        ground (arith, ticking.sleeps 5 s.world) in
      rw early refl

  round_beats :
      (s : LogState World)
      → s.last_event + max_log_heartbeat_secs < os.time s.world + 5
      → let w = journal.sleep 5 s.world in
        llog_heartbeat os journal (record s { world = w })
        ≡ some (print_line os journal (service_line os (codes "heartbeat!") w) w)
  unfolding llog_heartbeat llog
  round_beats s h =
      let w = journal.sleep 5 s.world in
      let late : ltb (s.last_event + 15) (os.time w) ≡ true =
        ground (arith, ticking.sleeps 5 s.world) in
      let fits : llog_service os (codes "heartbeat!") w ≡ true =
        llog_service_fits os clock (codes "heartbeat!") w (omega arith) in
      rw (late, fits) refl

  round :
      (n : ℕ) (s s' : LogState World)
      → llog_heartbeat os journal (slept s) ≡ some s'
      → heartbeat_rounds os journal (suc n) s ≡ heartbeat_rounds os journal n s'
  unfolding heartbeat_rounds
  round n s s' e = rw (heartbeat_rounds, e) refl

  -- Four rounds after an event there is a heartbeat, and none before.
  four_rounds :
      (n : ℕ) (s : LogState World)
      → s.last_event ≡ os.time s.world
      → (s' : LogState World) × (line : Bytes) × (heartbeat_rounds os journal
            (suc (suc (suc (suc n))))
            s
          ≡ heartbeat_rounds os journal n s')
        × (s'.last_event ≡ os.time s'.world)
        × (os.time s'.world ≡ os.time s.world + 20)
        × (printed s'.world ≡ printed s.world ++ line ∷ [])
        × IsHeartbeat os line
  unfolding print_line
  four_rounds n s e =
      let s₁ = slept s in
      let s₂ = slept s₁ in
      let s₃ = slept s₂ in
      let w = journal.sleep 5 s₃.world in
      let line = service_line os (codes "heartbeat!") w in
      let t₁ = ticking.sleeps 5 s.world in
      let t₂ = ticking.sleeps 5 s₁.world in
      let t₃ = ticking.sleeps 5 s₂.world in
      let t₄ = ticking.sleeps 5 s₃.world in
      let quiet : printed w ≡ printed s.world =
        ticking.sleep_quiet 5 s₃.world
        ∙ ticking.sleep_quiet 5 s₂.world
        ∙ ticking.sleep_quiet 5 s₁.world
        ∙ ticking.sleep_quiet 5 s.world in
      (
        print_line os journal line w,
        line,
        round (suc (suc (suc n))) s s₁ (round_quiet s (omega (arith, e)))
            ∙ round (suc (suc n)) s₁ s₂ (round_quiet s₁ (omega (arith, e, t₁)))
            ∙ round (suc n) s₂ s₃ (round_quiet s₂ (omega (arith, e, t₁, t₂)))
            ∙ round n s₃ (print_line os journal line w)
                (round_beats s₃ (omega (arith, e, t₁, t₂, t₃))),
        sym (ticking.print_at_once line w),
        omega (arith, ticking.print_at_once line w, t₁, t₂, t₃, t₄),
        ticking.prints line w ∙ ap (λ ls. ls ++ line ∷ []) quiet,
        (w, refl),
      )

  -- The heartbeats of an idle server: when time goes on in `sleep` alone and `ctime` writes at most
  -- 25 bytes, from an event on the loop of `main` ends each of its rounds, and prints exactly one
  -- heartbeat in each four of them, that is in 20 seconds, and nothing else.
  pub heartbeat_rounds-IsHeartbeat :
      (k : ℕ) (s : LogState World)
      → s.last_event ≡ os.time s.world
      → (s' : LogState World) × (lines : List Bytes) × (heartbeat_rounds os journal (k * 4) s
          ≡ some s')
        × (os.time s'.world ≡ os.time s.world + k * 20)
        × (printed s'.world ≡ printed s.world ++ lines)
        × (length lines ≡ k)
        × All (IsHeartbeat os) lines
  unfolding heartbeat_rounds
  heartbeat_rounds-IsHeartbeat zero s e =
      (s, [], refl, omega arith, sym (append-nil (printed s.world)), refl, tt)
  heartbeat_rounds-IsHeartbeat (suc k) s e =
      let (s₁, line, four, e₁, later, out, beat) = four_rounds (k * 4) s e in
      let (s', lines, all, last, printed', size, beats) = heartbeat_rounds-IsHeartbeat k s₁ e₁ in
      (
        s',
        line ∷ lines,
        rw (more k) (four ∙ all),
        omega (arith, last, later),
        printed' ∙ rw out (append_assoc (printed s.world) (line ∷ []) lines),
        omega (arith, size),
        (beat, beats),
      )
    where
      more : (k : ℕ) → suc k * 4 ≡ suc (suc (suc (suc (k * 4))))
      more k = omega arith
