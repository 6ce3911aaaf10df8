-- ===== src/Tests/Server.antt =====
-- Requests and connections at the limits, and the theorems on limits at a concrete input.
use crownline.Prelude.{◌≡◌, refl, true, false, [], ◌∷◌, arith}
use crownline.Prelude.Map
use crownline.Server.Limits.{
  ServerLimits, default_limits, Scope, create, RequestLimiter, window_of, set_window, check,
  keep_fresh, discard_expired, ConnectionRegistry, try_open, close,
}
use crownline.Server.Connections.{
  Used, idle, opened, closed, Accounted, Used-Accounted, close-try_open,
}
use crownline.Server.Pace.{Spaced}
use crownline.Server.Requests.{Log, begun, asked, Log-Spaced}

-- Two connections in all, one from each address.
abbrev narrow : ServerLimits
narrow = record default_limits { max_connections_total = 2; max_connections_per_ip = 1 }

abbrev nobody : ConnectionRegistry
nobody = record { total = 0; per_ip = [] }

abbrev one_open : ConnectionRegistry
one_open = (try_open nobody 7 narrow).0

second-refused : (try_open one_open 7 narrow).1 ≡ false
unfolding try_open Map.get Map.insert
second-refused = refl

other-accepted : (try_open one_open 8 narrow).1 ≡ true
unfolding try_open Map.get Map.insert
other-accepted = refl

one_open-Used : Used narrow one_open
one_open-Used = opened nobody 7 idle

Used-Accounted_example : Accounted narrow (close one_open 9)
Used-Accounted_example = Used-Accounted narrow (close one_open 9) (closed one_open 9 one_open-Used)

close-try_open_example : close (try_open one_open 8 narrow).0 8 ≡ one_open
close-try_open_example =
    close-try_open narrow one_open 8 (Used-Accounted narrow one_open one_open-Used) other-accepted

-- Two rooms a minute from an address: the third request is refused until the minute is over.
abbrev scope : Scope
scope = (create, "127.0.0.1")

abbrev quiet_limiter : RequestLimiter
quiet_limiter = record { windows = [] }

abbrev asked_once : RequestLimiter
asked_once = (check quiet_limiter scope 2 0).0

abbrev asked_twice : RequestLimiter
asked_twice = (check asked_once scope 2 1000).0

third-refused : (check asked_twice scope 2 2000).1 ≡ false
unfolding check window_of set_window
third-refused = refl

later-accepted : (check (discard_expired asked_twice 60000000000) scope 2 60000000000).1 ≡ true
unfolding check window_of set_window discard_expired keep_fresh
later-accepted = refl

once-Log : Log scope 2 asked_once 0 (0 ∷ [])
unfolding check window_of set_window
once-Log = asked quiet_limiter 0 0 [] (begun 0) (omega arith)

twice-Log : Log scope 2 asked_twice 1000 (1000 ∷ 0 ∷ [])
unfolding check window_of set_window
twice-Log = asked asked_once 0 1000 (0 ∷ []) once-Log (omega arith)

Log-Spaced_example : Spaced 2 (1000 ∷ 0 ∷ [])
Log-Spaced_example = Log-Spaced scope 2 asked_twice 1000 (1000 ∷ 0 ∷ []) (omega arith) twice-Log
