-- ===== src/Projection/Named.antt =====
-- The pieces that the settlements of a view name, in crates/crownline_core/src/projection.rs.
use crownline.Prelude.{
  ℕ, ◌≡◌, inl, inr, Bool, true, false, Bool-cases, not, ◌||◌, Option, none, some, List, [], ◌∷◌,
  if◌then◌else◌, get_elem?, nat_eq, ltb, nat_beq, option_beq, option_eq, contains, Result, ok, err,
  ◌>>=◌, ok_or, map_err, Ensures, map_err-Ensures, >>=-Ensures, >>=-Ensures_any,
}
use crownline.Prelude.Map
use crownline.Prelude.Map.{Map}
use crownline.Scenario.Types.{Coord, coord_eq, Player, player_eq, Site, ScenarioDefinition}
use crownline.State.Types.{PieceId, SettlementState, MatchState}
use crownline.State.Errors.{TransitionError}
use crownline.Rules.Realm.{is_governed}
use crownline.Projection.Types.{SettlementDynamicView, SettlementView, failed, panicked}
use crownline.Projection.View.{
  dynamic_view, disclosed, settlement_dynamic, permitted_dynamic, project_settlements,
}

-- The reference is to a piece that is shown.
abbrev pub Named : List PieceId → Option PieceId → Type 0
Named ids none = Unit
Named ids (some id) = contains ids id ≡ true

disclosed-Named : (ids : List PieceId) (o : Option PieceId) → Named ids (disclosed ids o)
disclosed-Named ids none = tt
disclosed-Named ids (some id) = elim (Bool-cases (contains ids id)) [
  | inl known ↦ rw known known
  | inr unknown ↦ rw unknown tt
]

abbrev pub DynamicNamed : List PieceId → Option SettlementDynamicView → Type 0
DynamicNamed ids none = Unit
DynamicNamed ids (some d) =
    Named ids d.founder × Named ids d.produced_pawn × Named ids d.transfer_candidate

abbrev pub AllNamed : List PieceId → Map SettlementView → Type 0
AllNamed ids [] = Unit
AllNamed ids ((index, s) ∷ rest) = DynamicNamed ids s.dynamic × AllNamed ids rest

insert-AllNamed :
    (ids : List PieceId) (index : ℕ) (s : SettlementView) (views : Map SettlementView)
    → DynamicNamed ids s.dynamic
    → AllNamed ids views
    → AllNamed ids (Map.insert index s views)
unfolding Map.insert
insert-AllNamed ids index s [] h k = (h, tt)
insert-AllNamed ids index s ((j, v) ∷ views) h (k, ks) = elim (Bool-cases (ltb index j)) [
  | inl before ↦ rw before (h, (k, ks))
  | inr after ↦ elim (Bool-cases (nat_beq j index)) [
    | inl same ↦ rw (after, same) (h, ks)
    | inr other ↦ rw (after, other) (k, insert-AllNamed ids index s views h ks)
  ]
]

permitted_dynamic-DynamicNamed :
    (permitted : Bool) (scenario : ScenarioDefinition) (state : MatchState) (s : SettlementState)
    (ids : List PieceId)
    → Ensures (DynamicNamed ids) (permitted_dynamic permitted scenario state s ids)
unfolding permitted_dynamic settlement_dynamic
permitted_dynamic-DynamicNamed false scenario state s ids = tt
permitted_dynamic-DynamicNamed true scenario state s ids =
    go (is_governed scenario state s.site_index)
  where
    go :
        (r : Result Bool TransitionError)
        → Ensures
            (DynamicNamed ids)
            ((r >>= λ held. ok (dynamic_view s ids held)) >>= λ d. ok (some d))
    go (ok held) = (
      disclosed-Named ids s.founder,
      disclosed-Named ids s.produced_pawn,
      disclosed-Named ids s.transfer_candidate,
    )
    go (err e) = tt

pub project_settlements-AllNamed :
    (scenario : ScenarioDefinition) (state : MatchState) (seat : Player)
    (visible explored : List Coord) (ids : List PieceId) (settlements : List SettlementState)
    (projected : Map SettlementView)
    → AllNamed ids projected
    → Ensures
        (AllNamed ids)
        (project_settlements scenario state seat visible explored ids settlements projected)
unfolding project_settlements
project_settlements-AllNamed scenario state seat visible explored ids [] projected h = h
project_settlements-AllNamed scenario state seat visible explored ids (s ∷ rest) projected h =
    >>=-Ensures_any (AllNamed ids) (ok_or (get_elem? scenario.settlements s.site_index) panicked) _
      λ site _.
        >>=-Ensures (AllNamed ids) (AllNamed ids) _ _ (one site (contains explored site.at))
          λ next. project_settlements-AllNamed scenario state seat visible explored ids rest next
  where
    one :
        (site : Site) (known : Bool)
        → Ensures (AllNamed ids) (
            if not known then ok projected else do
              dynamic ←
                  map_err
                    (permitted_dynamic
                      (contains visible site.at || option_beq s.owner (some seat))
                      scenario
                      state
                      s
                      ids)
                    failed
              ok (
                  Map.insert s.site_index
                    (record {
                      site_index = s.site_index;
                      id = site.id;
                      at = site.at;
                      dynamic = dynamic;
                    })
                    projected))
    one site false = h
    one site true =
        >>=-Ensures (DynamicNamed ids) (AllNamed ids) _ _
          (map_err-Ensures (DynamicNamed ids) _ failed (
            permitted_dynamic-DynamicNamed
              (contains visible site.at || option_beq s.owner (some seat)) scenario state s ids))
          λ dynamic named. insert-AllNamed ids s.site_index _ projected named h
