-- ===== src/Server/Limits.antt =====
-- The limits of the server: crates/crownline_server/src/limits.rs. Instants and durations are in
-- nanoseconds, an address is a number.
use crownline.Prelude.{
  ℕ, ◌+◌, ◌-◌, ◌*◌, ◌&&◌, ◌||◌, Bool, true, false, Option, none, some, List, [], ◌∷◌, nat_beq, ltb,
  leb, length, if◌then◌else◌, ◌==◌, string_eq, String, u32_max,
}
use crownline.Prelude.Map
use crownline.Prelude.Map.{Map}

-- `Duration::from_mins(1)`.
abbrev pub one_minute : ℕ
one_minute = 60000000000

pub record ServerLimits : Type 0 where
  pub max_http_body_bytes : ℕ
  pub max_rooms : ℕ
  pub create_per_ip_per_minute : ℕ
  pub join_per_ip_per_minute : ℕ
  pub operations_per_room_per_minute : ℕ
  pub max_connections_total : ℕ
  pub max_connections_per_ip : ℕ
  pub pregame_idle_timeout : ℕ

-- `ServerLimits::default`, with the protocol's `MAX_HTTP_REQUEST_BYTES`.
abbrev pub default_limits : ServerLimits
default_limits = record {
  max_http_body_bytes = 8192;
  max_rooms = 1000;
  create_per_ip_per_minute = 10;
  join_per_ip_per_minute = 30;
  operations_per_room_per_minute = 120;
  max_connections_total = 2000;
  max_connections_per_ip = 8;
  pregame_idle_timeout = 30 * one_minute;
}

pub data LimitKind : Type 0 where
  create join room_operation : LimitKind

abbrev pub limit_kind_index : LimitKind → ℕ
limit_kind_index create = 0
limit_kind_index join = 1
limit_kind_index room_operation = 2

pub record Window : Type 0 where
  pub started : ℕ
  pub count : ℕ

abbrev pub Scope : Type 0
Scope = LimitKind × String

abbrev pub scope_beq : Scope → Scope → Bool
scope_beq (a, s) (b, t) = nat_beq (limit_kind_index a) (limit_kind_index b) && s == t

-- The windows, of which only the number and the value at a key are read.
pub record RequestLimiter : Type 0 where
  pub windows : List (Scope × Window)

abbrev pub saturating_add_u32 : ℕ → ℕ
saturating_add_u32 n = if ltb n u32_max then n + 1 else u32_max

-- `entry(key).or_insert`.
unfoldable pub window_of : Scope → ℕ → List (Scope × Window) → Window
window_of key now [] = record { started = now; count = 0 }
window_of key now ((k, w) ∷ rest) = if scope_beq k key then w else window_of key now rest

unfoldable pub set_window : Scope → Window → List (Scope × Window) → List (Scope × Window)
set_window key next [] = (key, next) ∷ []
set_window key next ((k, w) ∷ rest) =
    if scope_beq k key then (k, next) ∷ rest else (k, w) ∷ set_window key next rest

-- A window of a minute ago or more begins anew; `duration_since` is 0 for a later start.
abbrev pub renewed : ℕ → Window → Window
renewed now w = if leb one_minute (now - w.started) then record { started = now; count = 0 } else w

-- `RequestLimiter::check`.
unfoldable pub check : RequestLimiter → Scope → ℕ → ℕ → RequestLimiter × Bool
unfolding window_of set_window
check limiter key maximum now =
    let w = renewed now (window_of key now limiter.windows) in
    if leb maximum w.count
    then (record { windows = set_window key w limiter.windows }, false)
    else (
      record {
        windows =
            set_window key (record { started = w.started; count = saturating_add_u32 w.count })
              limiter.windows;
      },
      true,
    )

abbrev pub is_fresh : ℕ → Window → Bool
is_fresh now w = ltb (now - w.started) one_minute

unfoldable pub keep_fresh : ℕ → List (Scope × Window) → List (Scope × Window)
keep_fresh now [] = []
keep_fresh now ((k, w) ∷ rest) =
    let others = keep_fresh now rest in if is_fresh now w then (k, w) ∷ others else others

unfoldable pub discard_expired : RequestLimiter → ℕ → RequestLimiter
unfolding keep_fresh
discard_expired limiter now = record { windows = keep_fresh now limiter.windows }

unfoldable pub tracked_scopes : RequestLimiter → ℕ
tracked_scopes limiter = length limiter.windows

pub record ConnectionRegistry : Type 0 where
  pub total : ℕ
  pub per_ip : Map ℕ

abbrev pub or_zero : Option ℕ → ℕ
or_zero none = 0
or_zero (some n) = n

unfoldable pub try_open : ConnectionRegistry → ℕ → ServerLimits → ConnectionRegistry × Bool
try_open registry ip limits =
    let for_ip = or_zero (Map.get ip registry.per_ip) in
    if leb limits.max_connections_total registry.total || leb limits.max_connections_per_ip for_ip
    then (registry, false)
    else (
      record { total = registry.total + 1; per_ip = Map.insert ip (for_ip + 1) registry.per_ip },
      true,
    )

-- An address whose last connection is closed is forgotten.
abbrev pub put_count : ℕ → ℕ → Map ℕ → Map ℕ
put_count ip left per_ip =
    if nat_beq left 0 then Map.remove ip per_ip else Map.insert ip left per_ip

-- What `close` does with the count of the address.
abbrev pub close_held : ConnectionRegistry → ℕ → Option ℕ → ConnectionRegistry
close_held registry ip none = registry
close_held registry ip (some for_ip) = record {
  total = registry.total - 1;
  per_ip = put_count ip (for_ip - 1) registry.per_ip;
}

unfoldable pub close : ConnectionRegistry → ℕ → ConnectionRegistry
close registry ip = close_held registry ip (Map.get ip registry.per_ip)
