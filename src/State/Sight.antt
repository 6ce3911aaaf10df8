-- ===== src/State/Sight.antt =====
-- What a seat sees, and what it has explored: crates/crownline_core/src/state.rs.
use crownline.Prelude.{
  ℕ, zero, suc, ◌+◌, ◌≡◌, inl, inr, refl, ap, ◌∙◌, Bool, true, ◌&&◌, ◌||◌, Option, none, some, List,
  [], ◌∷◌, ◌++◌, map, arith, ltb, leb, nat_beq, Bool-cases, any, keep, flat_map, range_from,
  contains, Ensures,
}
use crownline.Scenario.Types.{
  Coord, BoardSize, is_within, coord_beq, coord_eq, coord_beq_iff, Player, north, south, player_beq,
  FogRules, ScenarioDefinition,
}
use crownline.Scenario.CoordSet.{contains-extend}
use crownline.State.Types.{ExplorationState, explored, MatchState}
use crownline.State.Steps.{from_step}
use crownline.State.Vision.{
  all_coordinates, friendly, sees, visible_coordinates_unchecked, check_context,
  exploration_or_default, learn, update_exploration_unchecked, update_exploration,
}

contains-append :
    (xs ys : List Coord) (at : Coord) → contains (xs ++ ys) at ≡ (contains xs at || contains ys at)
contains-append [] ys at = refl
contains-append (x ∷ xs) ys at = ground (arith, contains-append xs ys at)

contains-keep :
    (p : Coord → Bool) (cs : List Coord) (at : Coord)
    → contains (keep p cs) at ≡ (contains cs at && p at)
contains-keep p [] at = refl
contains-keep p (c ∷ cs) at = elim (Bool-cases (coord_beq c at)) [
  | inl same ↦ ground (arith, contains-keep p cs at, same, ap p ((coord_beq_iff c at).0 same))
  | inr other ↦ ground (arith, contains-keep p cs at, other)
]

contains-column :
    (x y n : ℕ) (at : Coord)
    → contains (map (λ y. record { x = x; y = y }) (range_from y n)) at
      ≡ (nat_beq x at.x && (leb y at.y && ltb at.y (y + n)))
contains-column x y zero at = ground arith
contains-column x y (suc n) at = ground (arith, contains-column x (suc y) n at)

contains-columns :
    (x n height : ℕ) (at : Coord)
    → contains
        (flat_map (λ x. map (λ y. record { x = x; y = y }) (range_from 0 height)) (range_from x n))
        at
      ≡ (leb x at.x && ltb at.x (x + n) && ltb at.y height)
contains-columns x zero height at = ground arith
contains-columns x (suc n) height at =
    rw
      (
        contains-append (map (λ y. record { x = x; y = y }) (range_from 0 height))
            (flat_map (λ x. map (λ y. record { x = x; y = y }) (range_from 0 height))
              (range_from (suc x) n))
            at,
        contains-column x 0 height at,
        contains-columns (suc x) n height at,
      )
      (ground arith)

contains-all_coordinates :
    (board : BoardSize) (at : Coord) → contains (all_coordinates board) at ≡ is_within at board
unfolding all_coordinates
contains-all_coordinates board at = contains-columns 0 board.width board.height at ∙ ground arith

-- The square is near enough to a piece of the player, or there is no fog.
abbrev pub in_sight : ScenarioDefinition → MatchState → Player → Coord → Bool
in_sight scenario state player at = elim scenario.rules.fog [
  | none ↦ true
  | some fog ↦ any (λ piece. sees fog.vision_radius piece at) (friendly state player)
]

-- A player sees exactly the squares of the board that lie within the vision radius of one of the
-- player's pieces, and without fog the whole board.
pub visible_coordinates_unchecked-contains :
    (scenario : ScenarioDefinition) (state : MatchState) (player : Player) (at : Coord)
    → contains (visible_coordinates_unchecked scenario state player) at
      ≡ (is_within at scenario.board && in_sight scenario state player at)
unfolding visible_coordinates_unchecked
visible_coordinates_unchecked-contains scenario state player at = go scenario.rules.fog
  where
    go :
        (fog : Option FogRules)
        → contains
            (elim fog [
              | none ↦ all_coordinates scenario.board
              | some fog ↦
                  keep
                    (λ at. any (λ piece. sees fog.vision_radius piece at) (friendly state player))
                    (all_coordinates scenario.board)
            ])
            at
          ≡ (is_within at scenario.board && elim fog [
            | none ↦ true
            | some fog ↦ any (λ piece. sees fog.vision_radius piece at) (friendly state player)
          ])
    go none = ground (arith, contains-all_coordinates scenario.board at)
    go (some fog) =
        rw
          (
            contains-keep
                (λ at. any (λ piece. sees fog.vision_radius piece at) (friendly state player))
                (all_coordinates scenario.board) at,
            contains-all_coordinates scenario.board at,
          )
          refl

-- What the players had explored, and nothing without a record.
abbrev pub explored_in : MatchState → Player → List Coord
explored_in state player = explored (exploration_or_default state.exploration) player

pub explored-learn :
    (scenario : ScenarioDefinition) (state : MatchState) (player other : Player)
    (knowledge : ExplorationState) (at : Coord)
    → contains (explored (learn scenario state player knowledge) other) at ≡ (
        contains (explored knowledge other) at
        || player_beq player other
          && contains (visible_coordinates_unchecked scenario state player) at)
unfolding learn
explored-learn scenario state north north knowledge at = contains-extend _ _ at
explored-learn scenario state north south knowledge at = ground arith
explored-learn scenario state south north knowledge at = ground arith
explored-learn scenario state south south knowledge at = contains-extend _ _ at

-- Each player has explored, besides what was explored before, exactly what the player sees.
abbrev pub Explores : ScenarioDefinition → MatchState → MatchState → Type 0
Explores scenario state next =
    (player : Player) (at : Coord)
    → contains (explored_in next player) at ≡ (
        contains (explored_in state player) at
        || contains (visible_coordinates_unchecked scenario state player) at)

abbrev pub known_before : MatchState → ExplorationState
known_before state = exploration_or_default state.exploration

exploration-updated :
    (scenario : ScenarioDefinition) (state : MatchState) (fog : FogRules)
    → scenario.rules.fog ≡ some fog
    → (update_exploration_unchecked scenario state).exploration
      ≡ some (learn scenario state south (learn scenario state north (known_before state)))
unfolding update_exploration_unchecked
exploration-updated scenario state fog e = ground (arith, e)

pub both_players :
    (player : Player) (known : Bool) (seen : Player → Bool)
    → ((known || player_beq north player && seen north) || player_beq south player && seen south)
      ≡ (known || seen player)
both_players north known seen = ground arith
both_players south known seen = ground arith

-- Under fog an update adds to what each player had explored exactly what the player sees, so nothing
-- is ever forgotten.
pub update_exploration-explored :
    (scenario : ScenarioDefinition) (state : MatchState) (fog : FogRules)
    → scenario.rules.fog ≡ some fog
    → Ensures (Explores scenario state) (update_exploration scenario state)
unfolding update_exploration
update_exploration-explored scenario state fog e =
    from_step (Explores scenario state) (check_context scenario state) _ λ _ _ player at.
      let first = explored-learn scenario state north player (known_before state) at in
      let second =
        explored-learn scenario state south player (learn scenario state north (known_before state))
          at in
      rw (exploration-updated scenario state fog e) (
        second
        ∙ rw first (
            both_players player (contains (explored_in state player) at)
              (λ p. contains (visible_coordinates_unchecked scenario state p) at)))
