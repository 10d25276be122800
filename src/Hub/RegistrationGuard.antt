-- ===== src/Hub/RegistrationGuard.antt =====
-- The limiter of OAuth client registrations (internal/hub/server/oauth_registration_limiter.go): at
-- most so many registrations from one source in a fixed window, and at most so many sources. A time
-- is a number of nanoseconds, 0 for Go's zero time; a window is at most the longest Duration.
pub mod Quota
use fast_spider.Prelude.{
  ℕ, suc, ◌+◌, ◌*◌, Bool, true, false, ◌||◌, List, [], ◌∷◌, Option, none, some, String, Map,
  if◌then◌else◌, ltb, leb, ◌==◌, str_eq, length, lookup, insert, keep_if,
}

pub record WindowEntry : Type 0 where
  pub count : ℕ
  pub window_start : ℕ

pub record RegistrationGuard : Type 0 where
  pub entries : Map WindowEntry
  pub window : ℕ
  pub per_window : ℕ
  pub max_sources : ℕ
  pub max_clients : ℕ
  pub max_orphans : ℕ
  pub max_source_orphans : ℕ
  pub orphan_retention : ℕ
  pub next_sweep : ℕ

-- time.Second
abbrev second : ℕ
second = 1_000_000_000

abbrev pub minute : ℕ
minute = 60 * second

unfoldable pub new_registration_guard : RegistrationGuard
new_registration_guard = record {
  entries = [];
  window = minute;
  per_window = 30;
  max_sources = 4096;
  max_clients = 4096;
  max_orphans = 1024;
  max_source_orphans = 32;
  orphan_retention = 30 * minute;
  next_sweep = 0;
}

-- `now.Sub(entry.windowStart) < g.window`
abbrev pub is_current : ℕ → ℕ → WindowEntry → Bool
is_current window now e = ltb now (e.window_start + window)

unfoldable pub sweep : RegistrationGuard → ℕ → RegistrationGuard
sweep g now =
    if g.next_sweep == 0 || leb g.next_sweep now
    then record g {
      entries = keep_if (λ p. is_current g.window now p.1) g.entries;
      next_sweep = now + g.window;
    }
    else g

-- A source that is not in a window opens one, if there is room for a source.
unfoldable pub open_window : RegistrationGuard → String → ℕ → RegistrationGuard × Bool
open_window g source now = if leb g.max_sources (length g.entries) then (g, false) else (
  record g { entries = insert source (record { count = 1; window_start = now }) g.entries },
  true,
)

unfoldable pub allow_entry :
    RegistrationGuard → String → ℕ → Option WindowEntry → RegistrationGuard × Bool
unfolding open_window
allow_entry g source now none = open_window g source now
allow_entry g source now (some e) =
    if is_current g.window now e
    then (if leb g.per_window e.count then (g, false) else (
      record g { entries = insert source (record e { count = suc e.count }) g.entries },
      true,
    ))
    else open_window g source now

unfoldable pub allow_named : RegistrationGuard → String → ℕ → RegistrationGuard × Bool
unfolding sweep allow_entry
allow_named g source now =
    let swept = sweep g now in allow_entry swept source now (lookup source swept.entries)

unfoldable pub source_name : String → String
source_name source = if str_eq source "" then "unknown" else source

-- `none` is the nil guard.
unfoldable pub allow : Option RegistrationGuard → String → ℕ → Option RegistrationGuard × Bool
unfolding allow_named source_name
allow none source now = (none, false)
allow (some g) source now =
    let (g', granted) = allow_named g (source_name source) now in (some g', granted)
