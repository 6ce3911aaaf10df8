-- ===== src/Scenario/Sound.antt =====
-- What an accepted scenario of crates/crownline_core/src/scenario.rs promises.
use crownline.Prelude.{
  ◌≡◌, ◌⊎◌, inl, inr, refl, ap, Bool, true, false, Option, none, some, List, [], ◌∷◌, ◌++◌, arith,
  contains, flat_map, ℤ, pos, negsuc, nat_beq_iff, ok,
}
use crownline.Scenario.Types.{
  Coord, coord_eq, is_within, Player, north, south, all_players, Deployment, ScenarioDefinition,
}
use crownline.Scenario.Errors.{ScenarioError}
use crownline.Scenario.Header.{push_if, validate_header, validate_rule_configuration, direction_beq}
use crownline.Scenario.Validate.{
  deployment_errors, deployed_kings, is_unit_direction, player_errors, terrain_errors, edge_errors,
  validation_errors, validate,
}
use crownline.Scenario.Sites.{on_mountain, validate_sites}
use crownline.Scenario.Keeps.{validate_keeps_and_fortifications}
use crownline.Scenario.Castling.{validate_castling}

append-nil : {A : Type 0} (xs ys : List A) → xs ++ ys ≡ [] → (xs ≡ []) × (ys ≡ [])
append-nil [] ys h = (refl, h)
append-nil (x ∷ xs) ys h = cc

-- The deployments stand on the board, off the mountains, and on squares of their own.
abbrev pub Deployed : ScenarioDefinition → List Coord → List Deployment → Type 0
Deployed scenario occupied [] = Unit {0}
Deployed scenario occupied (d ∷ rest) =
    (is_within d.at scenario.board ≡ true)
    × (contains occupied d.at ≡ false)
    × (on_mountain scenario d.at ≡ false)
    × Deployed scenario (d.at ∷ occupied) rest

deployment_errors-Deployed :
    (scenario : ScenarioDefinition) (occupied : List Coord) (ds : List Deployment)
    → deployment_errors scenario occupied ds ≡ []
    → Deployed scenario occupied ds
unfolding deployment_errors
deployment_errors-Deployed scenario occupied [] h = tt
deployment_errors-Deployed scenario occupied (d ∷ rest) h =
    ground (arith, h, deployment_errors-Deployed scenario (d.at ∷ occupied) rest)

-- The two pawn directions are known, and are those up and down the board.
abbrev pub Opposed : Option ℤ → Option ℤ → Type 0
Opposed a b =
    (a ≡ some (pos 1)) × (b ≡ some (negsuc 0)) ⊎ (a ≡ some (negsuc 0)) × (b ≡ some (pos 1))

-- A scenario that a match can be played on.
pub record Playable (scenario : ScenarioDefinition) : Type 0 where
  pub deployed : Deployed scenario [] scenario.deployments
  pub one_king : (player : Player) → deployed_kings scenario player ≡ 1
  pub opposed : Opposed (scenario.rules.pawn_forward_y north) (scenario.rules.pawn_forward_y south)

push_if-nil : (test : Bool) (error : ScenarioError) → push_if test error ≡ [] → test ≡ false
push_if-nil true error h = cc
push_if-nil false error h = refl

players-nil :
    (scenario : ScenarioDefinition) (player : Player)
    → player_errors scenario player ≡ []
    → (deployed_kings scenario player ≡ 1)
      × (is_unit_direction (scenario.rules.pawn_forward_y player) ≡ true)
unfolding player_errors
players-nil scenario player h = ground (arith, h)

unit-cases :
    (a : Option ℤ) → is_unit_direction a ≡ true → (a ≡ some (pos 1)) ⊎ (a ≡ some (negsuc 0))
unit-cases none h = cc
unit-cases (some (pos n)) h = inl (ap (λ k. some (pos k)) ((nat_beq_iff n 1).0 h))
unit-cases (some (negsuc n)) h = inr (ap (λ k. some (negsuc k)) ((nat_beq_iff n 0).0 h))

directions-Opposed :
    (a b : Option ℤ)
    → is_unit_direction a ≡ true
    → is_unit_direction b ≡ true
    → direction_beq a b ≡ false
    → Opposed a b
directions-Opposed a b h k d = elim (unit-cases a h) [
  | inl down ↦ elim (unit-cases b k) [
    | inl same ↦ let e = rw (down, same) at d in cc
    | inr up ↦ inl (down, up)
  ]
  | inr up ↦ elim (unit-cases b k) [
    | inl down ↦ inr (up, down)
    | inr same ↦ let e = rw (up, same) at d in cc
  ]
]

rules-nil :
    (scenario : ScenarioDefinition)
    → validate_rule_configuration scenario ≡ []
    → direction_beq (scenario.rules.pawn_forward_y north) (scenario.rules.pawn_forward_y south)
      ≡ false
unfolding validate_rule_configuration
rules-nil scenario h = ground (arith, h)

validate-nil :
    (scenario : ScenarioDefinition) → validate scenario ≡ ok tt → validation_errors scenario ≡ []
unfolding validate
validate-nil scenario h = ground (arith, h)

-- A scenario that validation accepts deploys its pieces on the board, off the mountains and on squares
-- of their own, gives each player one King (counted modulo 256), and tells both players a pawn
-- direction of one step, opposite to the other's.
pub validate-Playable :
    (scenario : ScenarioDefinition) → validate scenario ≡ ok tt → Playable scenario
unfolding validation_errors
validate-Playable scenario h =
    let all = validate-nil scenario h in
    let (header, rest) = append-nil (validate_header scenario) _ all in
    let (deployments, rest1) =
      append-nil (deployment_errors scenario [] scenario.deployments) _ rest in
    let (players, rest2) = append-nil (flat_map (player_errors scenario) all_players) _ rest1 in
    let (terrain, rest3) = append-nil (terrain_errors scenario scenario.terrain) _ rest2 in
    let (edges, rest4) = append-nil (edge_errors scenario scenario.edges) _ rest3 in
    let site_check = validate_sites scenario [] in
    let keep_check = validate_keeps_and_fortifications scenario site_check.0 in
    let castling_check = validate_castling scenario scenario.castling_routes keep_check.0 in
    let (sites, rest5) = append-nil site_check.1 _ rest4 in
    let (keeps, rest6) = append-nil keep_check.1 _ rest5 in
    let (castling, rules) = append-nil castling_check.1 _ rest6 in
    let (n, ns) = append-nil (player_errors scenario north) _ players in
    let (s, ss) = append-nil (player_errors scenario south) _ ns in
    let (north_king, north_unit) = players-nil scenario north n in
    let (south_king, south_unit) = players-nil scenario south s in
    record {
      deployed = deployment_errors-Deployed scenario [] scenario.deployments deployments;
      one_king = λ player. elim player as (λ p. deployed_kings scenario p ≡ 1) [
        | north ↦ north_king
        | south ↦ south_king
      ];
      opposed =
          directions-Opposed (scenario.rules.pawn_forward_y north)
            (scenario.rules.pawn_forward_y south) north_unit south_unit (rules-nil scenario rules);
    }
