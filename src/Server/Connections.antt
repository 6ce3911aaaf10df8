-- ===== src/Server/Connections.antt =====
-- What the registry of connections counts, in crates/crownline_server/src/limits.rs.
use crownline.Prelude.{
  ℕ, ◌+◌, ◌-◌, ◌≤◌, ◌≡◌, refl, Bool-cases, inl, inr, true, Option, none, some, [], arith, leb, ◌||◌,
}
use crownline.Prelude.Map
use crownline.Prelude.Map.{Map}
use crownline.Server.Limits.{
  ServerLimits, ConnectionRegistry, or_zero, try_open, put_count, close_held, close,
}
use crownline.Server.Counts.{
  Counted, sum, get-Counted, insert-Counted, sum-insert, remove-Counted, sum-remove,
  remove-insert_new, insert-insert, get-insert_self,
}

-- Opening and closing connections from an empty registry.
pub data Used (limits : ServerLimits) : ConnectionRegistry → Type 0 where
  idle : Used limits (record { total = 0; per_ip = [] })
  opened : (r : ConnectionRegistry) (ip : ℕ) → Used limits r → Used limits (try_open r ip limits).0
  closed : (r : ConnectionRegistry) (ip : ℕ) → Used limits r → Used limits (close r ip)

-- The total is the number of connections of all addresses, and no limit is exceeded.
pub record Accounted (limits : ServerLimits) (r : ConnectionRegistry) : Type 0 where
  pub by_ip : Counted 0 limits.max_connections_per_ip r.per_ip
  pub counted : r.total ≡ sum r.per_ip
  pub bounded : r.total ≤ limits.max_connections_total

try_open-Accounted :
    (limits : ServerLimits) (r : ConnectionRegistry) (ip : ℕ)
    → Accounted limits r
    → Accounted limits (try_open r ip limits).0
unfolding try_open
try_open-Accounted limits r ip h =
    let held = or_zero (Map.get ip r.per_ip) in
    elim (Bool-cases
      (leb limits.max_connections_total r.total || leb limits.max_connections_per_ip held)) [
        | inl full ↦ rw full h
        | inr room ↦ rw room (record {
          by_ip =
              insert-Counted ip 0 limits.max_connections_per_ip (held + 1) r.per_ip h.by_ip
                (omega arith) (omega arith) (ground (arith, room));
          counted = grind (
            arith,
            h.counted,
            sum-insert ip 0 limits.max_connections_per_ip (held + 1) r.per_ip h.by_ip,
          );
          bounded = ground (arith, room);
        })
      ]

close_held-Accounted :
    (limits : ServerLimits) (r : ConnectionRegistry) (ip : ℕ) (held : Option ℕ)
    → Map.get ip r.per_ip ≡ held
    → Accounted limits r
    → Accounted limits (close_held r ip held)
close_held-Accounted limits r ip none e h = h
close_held-Accounted limits r ip (some n) e h =
    let most = limits.max_connections_per_ip in
    let (some_left, fits, _) = get-Counted ip 0 most n r.per_ip h.by_ip e in
    record {
      by_ip = ground (
        arith,
        remove-Counted ip 0 most r.per_ip h.by_ip,
        insert-Counted ip 0 most (n - 1) r.per_ip h.by_ip,
      );
      counted = grind (
        arith,
        h.counted,
        e,
        sum-remove ip 0 most r.per_ip h.by_ip,
        sum-insert ip 0 most (n - 1) r.per_ip h.by_ip,
      );
      bounded = ground (arith, h.bounded);
    }

close-Accounted :
    (limits : ServerLimits) (r : ConnectionRegistry) (ip : ℕ)
    → Accounted limits r
    → Accounted limits (close r ip)
unfolding close
close-Accounted limits r ip h = close_held-Accounted limits r ip (Map.get ip r.per_ip) refl h

-- However connections are opened and closed, the total is the number of connections of all
-- addresses, and neither the limit of an address nor that of the server is exceeded.
pub Used-Accounted :
    (limits : ServerLimits) (r : ConnectionRegistry) → Used limits r → Accounted limits r
Used-Accounted limits r idle = record { by_ip = tt; counted = refl; bounded = omega arith }
Used-Accounted limits r (opened before ip u) =
    try_open-Accounted limits before ip (Used-Accounted limits before u)
Used-Accounted limits r (closed before ip u) =
    close-Accounted limits before ip (Used-Accounted limits before u)

put_count-insert :
    (ip most : ℕ) (m : Map ℕ) (held : Option ℕ)
    → Counted 0 most m
    → Map.get ip m ≡ held
    → put_count ip (or_zero held) (Map.insert ip (or_zero held + 1) m) ≡ m
put_count-insert ip most m none c h = remove-insert_new ip 0 most 1 m c h
put_count-insert ip most m (some n) c h =
    let (present, _, _) = get-Counted ip 0 most n m c h in
    ground (arith, insert-insert ip 0 most n (n + 1) m c h)

close_held-try_open :
    (limits : ServerLimits) (r : ConnectionRegistry) (ip : ℕ)
    → Accounted limits r
    → close_held
        (record {
          total = r.total + 1;
          per_ip = Map.insert ip (or_zero (Map.get ip r.per_ip) + 1) r.per_ip;
        })
        ip
        (some (or_zero (Map.get ip r.per_ip) + 1))
      ≡ r
close_held-try_open limits r ip h =
    let m = limits.max_connections_per_ip in
    grind (arith, put_count-insert ip m r.per_ip (Map.get ip r.per_ip) h.by_ip refl)

-- Closing a connection that was opened gives its place back: the registry is as it was.
pub close-try_open :
    (limits : ServerLimits) (r : ConnectionRegistry) (ip : ℕ)
    → Accounted limits r
    → (try_open r ip limits).1 ≡ true
    → close (try_open r ip limits).0 ip ≡ r
unfolding close try_open
close-try_open limits r ip h opens =
    elim (Bool-cases (
      leb limits.max_connections_total r.total
      || leb limits.max_connections_per_ip (or_zero (Map.get ip r.per_ip)))) [
        | inl full ↦ cc
        | inr room ↦ rw room (
            rw (get-insert_self ip (or_zero (Map.get ip r.per_ip) + 1) r.per_ip)
              (close_held-try_open limits r ip h))
      ]
