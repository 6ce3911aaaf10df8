-- ===== src/State/Range.antt =====
-- The squares that a player sees, as the fog of crates/crownline_core/src/state.rs promises them.
use crownline.Prelude.{
  ℕ, ◌+◌, ◌<◌, ◌≤◌, ◌≡◌, ◌↔◌, ◌⊎◌, ◌∙◌, inl, inr, refl, sym, ap, subst, true, false, ◌||◌, Option,
  none, some, List, [], ◌∷◌, map, arith, Bool-cases, any, keep, In, contains,
}
use crownline.Prelude.Map
use crownline.Prelude.Map.{Map}
use crownline.Scenario.Types.{
  Coord, coord_eq, Player, player_beq, player_beq_iff, FogRules, ScenarioDefinition,
}
use crownline.State.Types.{Piece, MatchState}
use crownline.State.Vision.{friendly, sees, visible_coordinates_unchecked}
use crownline.State.Sight.{in_sight, visible_coordinates_unchecked-contains}

-- Neither coordinate of the two squares differs by more than the radius.
abbrev pub Near : ℕ → Coord → Coord → Type 0
Near radius a b =
    (a.x ≤ b.x + radius) × (b.x ≤ a.x + radius) × (a.y ≤ b.y + radius) × (b.y ≤ a.y + radius)

-- One of the pieces is the player's and near the square.
abbrev pub Watches : ℕ → Player → Coord → Map Piece → Type 0
Watches radius player at pieces =
    (id : ℕ) × (piece : Piece) × In (id, piece) pieces
    × (piece.owner ≡ player)
    × Near radius piece.at at

abbrev pub InRange : Option FogRules → MatchState → Player → Coord → Type 0
InRange none state player at = Unit
InRange (some fog) state player at = Watches fog.vision_radius player at state.pieces

-- The square is on the board and, under fog, near one of the player's pieces.
abbrev pub Visible : ScenarioDefinition → MatchState → Player → Coord → Type 0
Visible scenario state player at =
    (at.x < scenario.board.width)
    × (at.y < scenario.board.height)
    × InRange scenario.rules.fog state player at

sees-Near : (radius : ℕ) (a b : Coord) → (sees radius a b ≡ true) ↔ Near radius a b
sees-Near radius a b = ground arith

friends : Player → Map Piece → List Coord
friends player pieces =
    map (λ piece. piece.at) (keep (λ piece. player_beq piece.owner player) (Map.values pieces))

friends-Watches :
    (radius : ℕ) (player : Player) (at : Coord) (pieces : Map Piece)
    → any (λ a. sees radius a at) (friends player pieces) ≡ true
    → Watches radius player at pieces
unfolding friends
friends-Watches radius player at [] h = cc
friends-Watches radius player at ((id, piece) ∷ rest) h =
    elim (Bool-cases (player_beq piece.owner player)) [
      | inl own ↦
          near own (Bool-cases (sees radius piece.at at)) (rw own at h)
            (friends-Watches radius player at rest)
      | inr other ↦ later (friends-Watches radius player at rest (rw other at h))
    ]
  where
    later : Watches radius player at rest → Watches radius player at ((id, piece) ∷ rest)
    later (i, p, k, own, close) = (i, p, inr k, own, close)

    near :
        player_beq piece.owner player ≡ true
        → (sees radius piece.at at ≡ true) ⊎ (sees radius piece.at at ≡ false)
        → (sees radius piece.at at || any (λ a. sees radius a at) (friends player rest)) ≡ true
        → (any (λ a. sees radius a at) (friends player rest) ≡ true → Watches radius player at rest)
        → Watches radius player at ((id, piece) ∷ rest)
    near own (inl close) k go = (
      id,
      piece,
      inl refl,
      (player_beq_iff piece.owner player).0 own,
      (sees-Near radius piece.at at).0 close,
    )
    near own (inr far) k go = later (go (rw far at k))

Watches-friends :
    (radius : ℕ) (player : Player) (at : Coord) (pieces : Map Piece)
    → Watches radius player at pieces
    → any (λ a. sees radius a at) (friends player pieces) ≡ true
unfolding friends
Watches-friends radius player at [] (id, piece, k, own, close) = absurd k.1
Watches-friends radius player at ((j, p) ∷ rest) (id, piece, inl same, own, close) =
    let mine : player_beq p.owner player ≡ true =
      (player_beq_iff p.owner player).1 (sym (ap (λ e. e.1.owner) same) ∙ own) in
    let seen : sees radius p.at at ≡ true =
      subst (λ e. sees radius e.1.at at ≡ true) same ((sees-Near radius piece.at at).1 close) in
    rw mine (rw seen refl)
Watches-friends radius player at ((j, p) ∷ rest) (id, piece, inr k, own, close) =
    let others = Watches-friends radius player at rest (id, piece, k, own, close) in
    elim (Bool-cases (player_beq p.owner player)) [
      | inl mine ↦ rw mine (ground (arith, others))
      | inr other ↦ rw other others
    ]

in_sight-InRange :
    (scenario : ScenarioDefinition) (state : MatchState) (player : Player) (at : Coord)
    → (in_sight scenario state player at ≡ true) ↔ InRange scenario.rules.fog state player at
unfolding friendly friends
in_sight-InRange scenario state player at = by scenario.rules.fog
  where
    by :
        (fog : Option FogRules)
        → (elim fog [
          | none ↦ true
          | some f ↦ any (λ a. sees f.vision_radius a at) (friendly state player)
        ]
            ≡ true)
          ↔ InRange fog state player at
    by none = (λ _. tt, λ _. refl)
    by (some f) = (
      friends-Watches f.vision_radius player at state.pieces,
      Watches-friends f.vision_radius player at state.pieces,
    )

-- A player sees exactly the squares of the board neither of whose coordinates differs by more than
-- the vision radius from those of one of the player's pieces, and without fog the whole board.
pub visible_coordinates_unchecked-Visible :
    (scenario : ScenarioDefinition) (state : MatchState) (player : Player) (at : Coord)
    → (contains (visible_coordinates_unchecked scenario state player) at ≡ true)
      ↔ Visible scenario state player at
visible_coordinates_unchecked-Visible scenario state player at =
    rw (visible_coordinates_unchecked-contains scenario state player at)
      (ground (arith, in_sight-InRange scenario state player at))
