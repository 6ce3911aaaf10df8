-- ===== src/Scenario/CoordSet.antt =====
-- `BTreeSet<Coord>` as a list in the derived order of coordinates.
use crownline.Prelude.{◌≡◌, ◌||◌, List, [], ◌∷◌, arith, if◌then◌else◌, contains}
use crownline.Scenario.Types.{Coord, coord_beq, coord_le, coord_beq_iff, coord_eq}

unfoldable pub insert : Coord → List Coord → List Coord
insert a [] = a ∷ []
insert a (b ∷ bs) =
    if coord_beq b a then b ∷ bs else if coord_le a b then a ∷ b ∷ bs else b ∷ insert a bs

-- `extend`, and `collect` from the empty set.
unfoldable pub extend : List Coord → List Coord → List Coord
extend set [] = set
extend set (a ∷ as') = extend (insert a set) as'

unfoldable pub of_list : List Coord → List Coord
unfolding extend insert
of_list cs = extend [] cs

-- `retain` and set difference read the set in its order.
pub contains-insert :
    (a b : Coord) (set : List Coord) → contains (insert a set) b ≡ (coord_beq a b || contains set b)
unfolding insert
contains-insert a b [] = ground arith
contains-insert a b (c ∷ cs) = ground (arith, contains-insert a b cs, coord_beq_iff c a)

pub contains-extend :
    (set cs : List Coord) (b : Coord)
    → contains (extend set cs) b ≡ (contains set b || contains cs b)
unfolding extend
contains-extend set [] b = ground arith
contains-extend set (a ∷ cs) b =
    ground (arith, contains-extend (insert a set) cs b, contains-insert a b set)
