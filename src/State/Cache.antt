-- ===== src/State/Cache.antt =====
-- What `VisibilityCache::visible` of crates/crownline_core/src/state.rs answers.
use crownline.Prelude.{
  ◌≡◌, ◌⊎◌, ◌∙◌, inl, inr, refl, sym, true, Option, none, some, List, arith, Bool-cases,
  is_some_and, string_eq, ok, Ensures, Ensures-ok, Ensures-map, >>=-Ensures_any, any, keep, map,
}
use crownline.Prelude.Map
use crownline.Prelude.Map.{Map}
use crownline.Scenario.Types.{
  BoardSize, Coord, FogRules, Player, player_beq, north, south, ScenarioDefinition,
}
use crownline.State.Types.{Piece, MatchState}
use crownline.State.Vision.{
  friendly, sees, all_coordinates, visible_coordinates_unchecked, check_context, fog_beq, key_beq,
  VisibilityCache, cache_key, cached, cache_visible, cleared,
}

fog_beq-eq : (a b : Option FogRules) → fog_beq a b ≡ true → a ≡ b
fog_beq-eq none none h = refl
fog_beq-eq none (some b) h = cc
fog_beq-eq (some a) none h = cc
fog_beq-eq (some a) (some b) h = ground arith

-- Two scenarios and states that the key of a cache does not tell apart.
record Alike (scenario seen : ScenarioDefinition) (state before : MatchState) : Type 0 where
  named : scenario.id ≡ seen.id
  board : scenario.board ≡ seen.board
  fog : scenario.rules.fog ≡ seen.rules.fog
  revision : state.revision ≡ before.revision

key_beq-Alike :
    (scenario seen : ScenarioDefinition) (state before : MatchState)
    → key_beq (cache_key seen before) (cache_key scenario state) ≡ true
    → Alike scenario seen state before
key_beq-Alike scenario seen state before h = record {
  named = ground (arith, h, string_eq.beq_iff seen.id scenario.id);
  board = ground (arith, h);
  fog = ground (arith, h, fog_beq-eq seen.rules.fog scenario.rules.fog);
  revision = ground (arith, h);
}

-- Where the pieces stand at each revision of a match on a scenario does not change: of the scenarios
-- and states that are looked at, two with one identifier, board, fog and revision have the same
-- pieces.
abbrev pub Determined : (ScenarioDefinition → MatchState → Type 0) → Type 0
Determined Seen =
    (scenario other : ScenarioDefinition) (state before : MatchState)
    → Seen scenario state
    → Seen other before
    → scenario.id ≡ other.id
    → scenario.board ≡ other.board
    → scenario.rules.fog ≡ other.rules.fog
    → state.revision ≡ before.revision
    → state.pieces ≡ before.pieces

-- The caches that lookups leave, from an empty one.
pub data Filled (Seen : ScenarioDefinition → MatchState → Type 0) : VisibilityCache → Type 0 where
  empty : Filled Seen cleared
  looked :
      (cache next : VisibilityCache) (scenario : ScenarioDefinition) (state : MatchState)
      (player : Player) (answer : List Coord)
      → Filled Seen cache
      → Seen scenario state
      → cache_visible cache scenario state player ≡ ok (next, answer)
      → Filled Seen next

-- The cache holds what the players see in a state that was looked at, under the key of that state.
record Holds (Seen : ScenarioDefinition → MatchState → Type 0) (cache : VisibilityCache)
    : Type 0 where
  scenario : ScenarioDefinition
  state : MatchState
  seen : Seen scenario state
  key : cache.key ≡ some (cache_key scenario state)
  sight :
      (player : Player) → cached cache player ≡ visible_coordinates_unchecked scenario state player

-- What is seen depends on the fog, the board and the pieces alone.
seen_with : Option FogRules → BoardSize → Map Piece → Player → List Coord
seen_with none board pieces player = all_coordinates board
seen_with (some fog) board pieces player =
    keep
      (λ at.
        any (λ piece. sees fog.vision_radius piece at)
          (map (λ piece. piece.at)
            (keep (λ piece. player_beq piece.owner player) (Map.values pieces))))
      (all_coordinates board)

visible-seen_with :
    (scenario : ScenarioDefinition) (state : MatchState) (player : Player)
    → visible_coordinates_unchecked scenario state player
      ≡ seen_with scenario.rules.fog scenario.board state.pieces player
unfolding visible_coordinates_unchecked friendly seen_with
visible-seen_with scenario state player = by scenario.rules.fog
  where
    by :
        (fog : Option FogRules)
        → ◌≡◌ {A = List Coord}
            (elim fog [
              | none ↦ all_coordinates scenario.board
              | some f ↦
                  keep
                    (λ at. any (λ piece. sees f.vision_radius piece at) (friendly state player))
                    (all_coordinates scenario.board)
            ])
            (seen_with fog scenario.board state.pieces player)
    by none = refl
    by (some f) = refl

visible-Alike :
    (scenario seen : ScenarioDefinition) (state before : MatchState) (player : Player)
    → Alike scenario seen state before
    → state.pieces ≡ before.pieces
    → visible_coordinates_unchecked seen before player
      ≡ visible_coordinates_unchecked scenario state player
visible-Alike scenario seen state before player alike pieces =
    visible-seen_with seen before player
    ∙ (λ i. seen_with (sym alike.fog i) (sym alike.board i) (sym pieces i) player)
    ∙ sym (visible-seen_with scenario state player)

module _ (Seen : ScenarioDefinition → MatchState → Type 0) where
  -- What a lookup answers and leaves, from a cache that is empty or holds what was seen.
  Served : ScenarioDefinition → MatchState → Player → VisibilityCache × List Coord → Type 0
  Served scenario state player (next, answer) =
      (answer ≡ visible_coordinates_unchecked scenario state player) × Holds Seen next

  hit-Served :
      (cache : VisibilityCache) (scenario : ScenarioDefinition) (state : MatchState)
      (player : Player)
      → Determined Seen
      → Seen scenario state
      → Holds Seen cache
      → is_some_and cache.key (λ key. key_beq key (cache_key scenario state)) ≡ true
      → Served scenario state player (cache, cached cache player)
  unfolding Served
  hit-Served cache scenario state player determined now h hit =
      let alike : Alike scenario h.scenario state h.state =
        key_beq-Alike scenario h.scenario state h.state (rw h.key at hit) in
      let pieces =
        determined scenario h.scenario state h.state now h.seen alike.named alike.board alike.fog
          alike.revision in
      (h.sight player ∙ visible-Alike scenario h.scenario state h.state player alike pieces, h)

  refilled-Served :
      (scenario : ScenarioDefinition) (state : MatchState) (player : Player)
      → Seen scenario state
      → let fresh : VisibilityCache = record {
        key = some (cache_key scenario state);
        north = visible_coordinates_unchecked scenario state north;
        south = visible_coordinates_unchecked scenario state south;
      } in
        Served scenario state player (fresh, cached fresh player)
  unfolding Served
  refilled-Served scenario state player now = (
    both player,
    record { scenario = scenario; state = state; seen = now; key = refl; sight = both },
  )
    where
      both :
          (other : Player)
          → cached
              (record {
                key = some (cache_key scenario state);
                north = visible_coordinates_unchecked scenario state north;
                south = visible_coordinates_unchecked scenario state south;
              })
              other
            ≡ visible_coordinates_unchecked scenario state other
      both north = refl
      both south = refl

  cache_visible-Served :
      (cache : VisibilityCache) (scenario : ScenarioDefinition) (state : MatchState)
      (player : Player)
      → Determined Seen
      → Seen scenario state
      → (cache ≡ cleared) ⊎ Holds Seen cache
      → Ensures (Served scenario state player) (cache_visible cache scenario state player)
  unfolding cache_visible cleared
  cache_visible-Served cache scenario state player determined now (inl new) = rw new (
      >>=-Ensures_any (Served scenario state player) (check_context scenario state) _
        λ _ _. refilled-Served scenario state player now)
  cache_visible-Served cache scenario state player determined now (inr h) =
      elim (Bool-cases (is_some_and cache.key (λ key. key_beq key (cache_key scenario state)))) [
        | inl hit ↦ rw hit (hit-Served cache scenario state player determined now h hit)
        | inr miss ↦ rw miss (
            >>=-Ensures_any (Served scenario state player) (check_context scenario state) _
              λ _ _. refilled-Served scenario state player now)
      ]

  Filled-Holds :
      (cache : VisibilityCache)
      → Determined Seen
      → Filled Seen cache
      → (cache ≡ cleared) ⊎ Holds Seen cache
  unfolding Served
  Filled-Holds cache determined empty = inl refl
  Filled-Holds cache determined (looked before _ scenario state player answer f now e) =
      inr
        (Ensures-ok (Served scenario state player) _ e (
          cache_visible-Served before scenario state player determined now
            (Filled-Holds before determined f))).1

-- Through any lookups for any scenarios and states, in any order, by either player, a cache answers
-- with what the player sees in the very state that is asked about, as long as the revision of a match
-- determines where its pieces stand.
pub cache_visible-visible_coordinates_unchecked :
    (Seen : ScenarioDefinition → MatchState → Type 0) (cache : VisibilityCache)
    (scenario : ScenarioDefinition) (state : MatchState) (player : Player)
    → Determined Seen
    → Filled Seen cache
    → Seen scenario state
    → Ensures
        (λ reply. reply.1 ≡ visible_coordinates_unchecked scenario state player)
        (cache_visible cache scenario state player)
unfolding Served
cache_visible-visible_coordinates_unchecked Seen cache scenario state player determined f now =
    Ensures-map (Served Seen scenario state player)
      (λ reply. reply.1 ≡ visible_coordinates_unchecked scenario state player)
      (cache_visible cache scenario state player) (λ reply h. h.0)
      (cache_visible-Served Seen cache scenario state player determined now
        (Filled-Holds Seen cache determined f))
