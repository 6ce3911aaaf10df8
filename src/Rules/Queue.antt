-- ===== src/Rules/Queue.antt =====
-- The order of the mandatory choices in crates/crownline_core/src/rules.rs.
use crownline.Prelude.{
  ◌≡◌, ◌↔◌, refl, true, false, List, arith, length, length-sort_by, Sorted, sort_by-Sorted, In,
  In-sort_by,
}
use crownline.Scenario.Types.{coord_beq_iff, ScenarioDefinition}
use crownline.State.Types.{MandatoryChoice, TurnPhase, resolving_choices, command, MatchState}
use crownline.Rules.Choices.{
  ChoiceKey, choice_key, key_le, choice_le, sort_phase, sort_mandatory_choices,
}
use crownline.Rules.Promotions.{pending}

key_le_total : (a b : ChoiceKey) → key_le a b ≡ false → key_le b a ≡ true
key_le_total a b h = ground (arith, coord_beq_iff a.place b.place, coord_beq_iff b.place a.place)

key_le_trans : (a b c : ChoiceKey) → key_le a b ≡ true → key_le b c ≡ true → key_le a c ≡ true
key_le_trans a b c h k = ground (
  arith,
  coord_beq_iff a.place b.place,
  coord_beq_iff b.place c.place,
  coord_beq_iff a.place c.place,
)

choice_le_total :
    (scenario : ScenarioDefinition) (a b : MandatoryChoice)
    → choice_le scenario a b ≡ false
    → choice_le scenario b a ≡ true
choice_le_total scenario a b = key_le_total (choice_key scenario a) (choice_key scenario b)

choice_le_trans :
    (scenario : ScenarioDefinition) (a b c : MandatoryChoice)
    → choice_le scenario a b ≡ true
    → choice_le scenario b c ≡ true
    → choice_le scenario a c ≡ true
choice_le_trans scenario a b c =
    key_le_trans (choice_key scenario a) (choice_key scenario b) (choice_key scenario c)

-- The queue in order: by the square of the site, promotions before placements, then by number; it
-- holds the same choices, and as many of them.
pub record Ordered (scenario : ScenarioDefinition) (before after : List MandatoryChoice)
    : Type 0 where
  pub sorted : Sorted (choice_le scenario) after
  pub same : (c : MandatoryChoice) → In c after ↔ In c before
  pub count : length after ≡ length before

-- Sorting the mandatory choices leaves the same choices, as many of them, in their order.
pub sort_mandatory_choices-Ordered :
    (scenario : ScenarioDefinition) (state : MatchState)
    → Ordered scenario (pending state.phase) (pending (sort_mandatory_choices scenario state).phase)
unfolding sort_mandatory_choices
sort_mandatory_choices-Ordered scenario state = go state.phase
  where
    go :
        (phase : TurnPhase) → Ordered scenario (pending phase) (pending (sort_phase scenario phase))
    go command = record { sorted = tt; same = λ c. (λ h. h, λ h. h); count = refl }
    go (resolving_choices queue) = record {
      sorted =
          sort_by-Sorted (choice_le scenario) (choice_le_total scenario) (choice_le_trans scenario)
            queue;
      same = λ c. In-sort_by (choice_le scenario) c queue;
      count = length-sort_by (choice_le scenario) queue;
    }
