-- ===== src/Coord/Poll.antt =====
-- The coordinator's rounds of heartbeats: heartbeatOne, pollOnce and allTerminal of
-- internal/coord/coordinator.go. A round asks each worker once; what a worker answers is an argument,
-- `none` where the call fails. A time is in nanoseconds.
use aforo_nextgen_loadgen.Base.{
  ℕ, zero, suc, ap, ◌∙◌, get_elem?, ◌+◌, ◌≡◌, ◌⊎◌, refl, Bool, true, false, ◌&&◌, ◌||◌, String,
  Option, none, some, List, [], ◌∷◌, is_key, ltb, if◌then◌else◌,
}

-- `last_heartbeat` is `none` for the zero time.
pub record WorkerState : Type 0 where
  pub addr : String
  pub last_heartbeat : Option ℕ
  pub state : String
  pub dropout_logged : Bool

unfoldable pub is_terminal_state : String → Bool
is_terminal_state s =
    is_key s "done" || is_key s "aborted" || is_key s "failed" || is_key s "dropped"

-- now.Sub(lastHeartbeat) > timeout, of a worker that has been heard.
unfoldable pub is_overdue : ℕ → ℕ → WorkerState → Bool
is_overdue timeout now w = elim w.last_heartbeat [ none ↦ false | some t ↦ ltb (t + timeout) now ]

unfoldable pub heartbeat_one : ℕ → ℕ → Option String → WorkerState → WorkerState
unfolding is_terminal_state is_overdue
heartbeat_one timeout now answer w = if is_terminal_state w.state then w else elim answer [
  | none ↦
      if is_overdue timeout now w then record w { dropout_logged = true; state = "dropped" } else w
  | some s ↦ record w { last_heartbeat = some now; state = s }
]

unfoldable pub all_terminal : List WorkerState → Bool
unfolding is_terminal_state
all_terminal [] = true
all_terminal (w ∷ rest) = is_terminal_state w.state && all_terminal rest

unfoldable pub ask_all : ℕ → ℕ → (String → Option String) → List WorkerState → List WorkerState
unfolding heartbeat_one
ask_all timeout now answer [] = []
ask_all timeout now answer (w ∷ rest) =
    heartbeat_one timeout now (answer w.addr) w ∷ ask_all timeout now answer rest

unfoldable pub poll_once :
    ℕ → ℕ → (String → Option String) → List WorkerState → Bool × List WorkerState
unfolding ask_all all_terminal
poll_once timeout now answer ws =
    let next = ask_all timeout now answer ws in (all_terminal next, next)

-- At its end, or silent for longer than the timeout.
abbrev pub IsGone : ℕ → ℕ → WorkerState → Type 0
IsGone timeout now w = (is_terminal_state w.state ≡ true) ⊎ (is_overdue timeout now w ≡ true)

-- A worker that has reached its end.
abbrev pub IsOver : WorkerState → Type 0
IsOver w = is_terminal_state w.state ≡ true

heartbeat_one-IsOver :
    (timeout now : ℕ) (answer : Option String) (w : WorkerState)
    → IsOver w
    → heartbeat_one timeout now answer w ≡ w
unfolding heartbeat_one
heartbeat_one-IsOver timeout now answer w over = rw (over, heartbeat_one) refl

-- The workers after rounds at given times, with what each answered.
unfoldable pub after_rounds :
    ℕ → List (ℕ × (String → Option String)) → List WorkerState → List WorkerState
after_rounds timeout [] ws = ws
after_rounds timeout ((now, answer) ∷ rest) ws =
    after_rounds timeout rest (poll_once timeout now answer ws).1

abbrev asked : ℕ → ℕ → (String → Option String) → Option WorkerState → Option WorkerState
asked timeout now answer none = none
asked timeout now answer (some w) = some (heartbeat_one timeout now (answer w.addr) w)

pub get_elem?-ask_all :
    (timeout now : ℕ) (answer : String → Option String) (ws : List WorkerState) (i : ℕ)
    (w : WorkerState)
    → get_elem? ws i ≡ some w
    → get_elem? (ask_all timeout now answer ws) i
      ≡ some (heartbeat_one timeout now (answer w.addr) w)
unfolding ask_all
get_elem?-ask_all timeout now answer [] i w e = absurd cc
get_elem?-ask_all timeout now answer (v ∷ ws) zero w e = ap (asked timeout now answer) e
get_elem?-ask_all timeout now answer (v ∷ ws) (suc i) w e =
    get_elem?-ask_all timeout now answer ws i w e

-- A worker that is done, aborted, failed or dropped stays as it is, whatever it answers in later
-- rounds.
pub after_rounds-IsOver :
    (timeout : ℕ) (rounds : List (ℕ × (String → Option String))) (ws : List WorkerState) (i : ℕ)
    (w : WorkerState)
    → get_elem? ws i ≡ some w
    → IsOver w
    → get_elem? (after_rounds timeout rounds ws) i ≡ some w
unfolding after_rounds poll_once
after_rounds-IsOver timeout [] ws i w at over = at
after_rounds-IsOver timeout ((now, answer) ∷ rest) ws i w at over =
    after_rounds-IsOver timeout rest (ask_all timeout now answer ws) i w
      (get_elem?-ask_all timeout now answer ws i w at
        ∙ ap some (heartbeat_one-IsOver timeout now (answer w.addr) w over))
      over
