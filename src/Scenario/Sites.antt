-- ===== src/Scenario/Sites.antt =====
-- The registration of identifiers and the checks on sites in crates/crownline_core/src/scenario.rs.
use crownline.Prelude.{
  Bool, false, not, Option, none, some, List, [], ◌∷◌, ◌++◌, map, if◌then◌else◌, String, string_eq,
}
use crownline.Scenario.Types.{
  Coord, coord_eq, is_within, is_mountain, Site, ScenarioDefinition, map_get,
}
use crownline.Scenario.Errors.{
  ScenarioError, empty_id, duplicate_id, out_of_bounds, site_on_mountain, overlapping_sites,
}
use crownline.Scenario.Header.{is_blank, push_if}

-- The identifiers registered so far with their kind, the latest first.
abbrev pub Ids : Type 0
Ids = List (String × String)

-- A validator that registers identifiers returns the map that it leaves, and its errors.
abbrev pub Checked : Type 0
Checked = Ids × List ScenarioError

-- What `insert` returns is what the key held before.
abbrev pub previous_error : Option String → (String → ScenarioError) → List ScenarioError
previous_error none error = []
previous_error (some previous) error = error previous ∷ []

unfoldable pub register_id : Ids → String → String → Checked
register_id ids kind id =
    if is_blank id
    then (ids, empty_id kind ∷ [])
    else ((id, kind) ∷ ids, previous_error (map_get id ids) (λ first. duplicate_id id first kind))

-- `terrain.get(&at) == Some(&Mountain)`.
unfoldable pub on_mountain : ScenarioDefinition → Coord → Bool
on_mountain scenario at = elim (map_get at scenario.terrain) [
  | none ↦ false
  | some tile ↦ is_mountain tile
]

abbrev pub Labelled : Type 0
Labelled = String × Site

abbrev pub labelled_sites : ScenarioDefinition → List Labelled
labelled_sites scenario =
    map (λ s. ("settlement", s)) scenario.settlements
    ++ map (λ s. ("promotion site", s)) scenario.promotion_sites

unfoldable pub check_sites :
    ScenarioDefinition → List Labelled → List (Coord × String) → Ids → Checked
check_sites scenario [] coordinates ids = (ids, [])
check_sites scenario ((kind, site) ∷ rest) coordinates ids =
    let (ids', errors) = register_id ids kind site.id in
    let (ids'', more) = check_sites scenario rest ((site.at, kind) ∷ coordinates) ids' in
    (
      ids'',
      errors
          ++ (push_if (not (is_within site.at scenario.board)) (out_of_bounds kind site.at)
              ++ (push_if (on_mountain scenario site.at) (site_on_mountain kind site.at)
                  ++ (previous_error (map_get site.at coordinates)
                        (λ first. overlapping_sites site.at first kind)
                      ++ more))),
    )

unfoldable pub validate_sites : ScenarioDefinition → Ids → Checked
unfolding check_sites
validate_sites scenario ids = check_sites scenario (labelled_sites scenario) [] ids
