-- ===== src/Rules/Threefold.antt =====
-- The repetition counts of crates/crownline_core/src/rules.rs.
use crownline.Prelude.{
  ℕ, ◌+◌, ◌≡◌, refl, none, some, List, [], ◌∷◌, arith, leb, min, u8_max, String, ◌==◌, string_eq,
  if◌then◌else◌, ok, Ensures,
}
use crownline.State.Types.{MatchState, threefold_repetition}
use crownline.State.Repetition.{Digest, repetition_key}
use crownline.Rules.Command.{bump_count, count_of, record_repetition}

count_of-bump_count :
    (key k : String) (counts : List (String × ℕ))
    → count_of k (bump_count key counts)
      ≡ (if key == k then min (count_of key counts + 1) u8_max else count_of k counts)
unfolding bump_count count_of
count_of-bump_count key k [] = ground arith
count_of-bump_count key k ((j, n) ∷ rest) = ground (
  arith,
  count_of-bump_count key k rest,
  string_eq.beq_iff j key,
  string_eq.beq_iff j k,
  string_eq.beq_iff key k,
)

-- The count of one position has grown by one, up to 255, and the match is drawn at the third.
pub record Counted (before after : MatchState) (key : String) : Type 0 where
  pub counts :
      (k : String)
      → count_of k after.repetition_counts ≡ (
          if key == k
          then min (count_of key before.repetition_counts + 1) u8_max
          else count_of k before.repetition_counts)
  pub outcome : after.outcome ≡ (
      if leb 2 (count_of key before.repetition_counts)
      then some (record { winner = none; reason = threefold_repetition })
      else before.outcome)
  pub pieces : after.pieces ≡ before.pieces

-- The position that a turn begins with is counted once more, every other count stays, and the match is
-- drawn exactly if the position had been counted twice before.
pub record_repetition-Counted :
    (digest : Digest) (state : MatchState) (key : String)
    → repetition_key digest state ≡ ok key
    → Ensures (λ next. Counted state next key) (record_repetition digest state)
unfolding record_repetition
record_repetition-Counted digest state key e =
    let own = count_of-bump_count key key state.repetition_counts in
    let self = (string_eq.beq_iff key key).1 refl in
    rw e (record {
      counts = λ k. count_of-bump_count key k state.repetition_counts;
      outcome = ground (arith, own, self);
      pieces = refl;
    })
