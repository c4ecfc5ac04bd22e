-- ===== src/Lifecycle/Wire.antt =====
-- How a state that the platform or a log file spells is read: fromPlatformStatus of
-- internal/lifecycle/helpers.go and scenarioState of internal/validate/lifecycle_helpers.go.
use aforo_nextgen_loadgen.Base.{ℕ, ltb, String, ◌≡◌, if◌then◌else◌, is_key}
use aforo_nextgen_loadgen.Lifecycle.State.{
  SubscriptionState, created, trialing, active, past_due, paused, expiring_soon, expired, cancelled,
  suspended, other, wire,
}

-- Go's texts and its strings package, as far as they are used here: `byte_len` and `byte_prefix` are
-- len(s) and s[:n], and `join` is s + t.
pub record Strings : Type 0 where
  pub to_upper : String → String
  pub trim_space : String → String
  pub replace_newlines : String → String
  pub byte_len : String → ℕ
  pub byte_prefix : String → ℕ → String
  pub join : String → String → String

-- FormatError of internal/lifecycle/client.go, on the text of the error.
unfoldable pub format_error : Strings → String → String
format_error lib message =
    let s = lib.replace_newlines message in
    if ltb 400 (lib.byte_len s) then lib.join (lib.byte_prefix s 400) "…" else s

abbrev pub normal : Strings → String → String
normal lib s = lib.to_upper (lib.trim_space s)

-- The `switch`, with what the caller returns at its end.
parse_state : String → SubscriptionState → SubscriptionState
parse_state t default =
    if is_key t "CREATED"
    then created
    else if is_key t "TRIALING"
    then trialing
    else if is_key t "ACTIVE"
    then active
    else if is_key t "PAST_DUE"
    then past_due
    else if is_key t "PAUSED"
    then paused
    else if is_key t "EXPIRING_SOON"
    then expiring_soon
    else if is_key t "EXPIRED"
    then expired
    else if is_key t "CANCELLED"
    then cancelled
    else if is_key t "SUSPENDED"
    then suspended
    else default

unfoldable pub from_platform_status : Strings → String → SubscriptionState
unfolding parse_state
from_platform_status lib s = parse_state (normal lib s) active

unfoldable pub scenario_state : Strings → String → SubscriptionState
unfolding parse_state
scenario_state lib s = parse_state (normal lib s) (other (lib.trim_space s))

-- One of the nine states of the platform.
abbrev pub IsKnown : SubscriptionState → Type 0
IsKnown (other s) = ⊥
IsKnown _ = Unit

-- strings.ToUpper leaves upper-case text as it is, and strings.TrimSpace text with no space at its
-- ends: said of the nine texts of the platform's states.
abbrev pub KeepsNames : Strings → Type 0
KeepsNames lib = (s : SubscriptionState) → IsKnown s → normal lib (wire s) ≡ wire s

-- A state that is written to the log is read back as the same state.
pub scenario_state-wire :
    (lib : Strings) (s : SubscriptionState)
    → KeepsNames lib
    → IsKnown s
    → scenario_state lib (wire s) ≡ s
unfolding scenario_state wire
scenario_state-wire lib (other t) keeps h = absurd h
scenario_state-wire lib created keeps h = rw (keeps created tt)
scenario_state-wire lib trialing keeps h = rw (keeps trialing tt)
scenario_state-wire lib active keeps h = rw (keeps active tt)
scenario_state-wire lib past_due keeps h = rw (keeps past_due tt)
scenario_state-wire lib paused keeps h = rw (keeps paused tt)
scenario_state-wire lib expiring_soon keeps h = rw (keeps expiring_soon tt)
scenario_state-wire lib expired keeps h = rw (keeps expired tt)
scenario_state-wire lib cancelled keeps h = rw (keeps cancelled tt)
scenario_state-wire lib suspended keeps h = rw (keeps suspended tt)
