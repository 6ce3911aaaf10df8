-- ===== src/Tests/Offers.antt =====
-- A draw offer that lapses, in a run of the model.
use crownline.Prelude.{◌≡◌, true, some, refl, is_ok, is_ok-cases, ok}
use crownline.Scenario.Types.{north, south}
use crownline.State.Types.{MatchState, Action, move, hold, offer_draw}
use crownline.Rules.Events.{Transition}
use crownline.Rules.Action.{apply_action}
use crownline.Rules.Offers.{offer_after, apply_action-offer_after}
use crownline.Evaluation.{evaluation}
use crownline.Examples.{at, demo, demo_digest, start, act}

-- South has offered a draw and moved.
abbrev offered : MatchState
offered = act (move south 3 (at 3 3)) (act (offer_draw south) start)

still_pending : offered.outstanding_draw_offer ≡ some south
unfolding evaluation
still_pending = refl

-- North holds instead of answering.
abbrev wait : Action
wait = hold north

wait-is_ok : is_ok (apply_action demo_digest demo offered wait) ≡ true
unfolding evaluation
wait-is_ok = refl

abbrev waited : Transition
waited = (is_ok-cases (apply_action demo_digest demo offered wait) wait-is_ok).0

waited-eq : apply_action demo_digest demo offered wait ≡ ok waited
waited-eq = (is_ok-cases (apply_action demo_digest demo offered wait) wait-is_ok).1

apply_action-offer_after_example :
    waited.state.outstanding_draw_offer ≡ offer_after wait offered.outstanding_draw_offer
apply_action-offer_after_example = apply_action-offer_after demo_digest demo offered wait waited-eq
