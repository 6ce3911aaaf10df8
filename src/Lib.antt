-- ===== src/Lib.antt =====
-- Crownlines: the rules of the game, as the crate crates/crownline_core implements them.
--
-- A match is played on a scenario, which crates/crownline_core/src/scenario.rs describes and
-- validates. The canonical state of a match is a value (crates/crownline_core/src/state.rs), and
-- every transition is a function from a state and an action to a new state and the events that led
-- there, or to an error (crates/crownline_core/src/rules.rs). The clock wraps the transitions
-- (crates/crownline_core/src/clock.rs). A journal records the actions that were accepted and replays
-- them (crates/crownline_core/src/journal.rs), saves and snapshots keep a state with its hash
-- (crates/crownline_core/src/persistence.rs), and a seat is shown a projection of the state and of the
-- events (crates/crownline_core/src/projection.rs). The server, the client and the computer player
-- call these functions and keep no rules of their own; the server also limits requests and
-- connections (crates/crownline_server/src/limits.rs).
--
-- The parts and their files:
--   * Prelude: what the files share. Tests on numbers, lists, sorting, membership, integers, Boolean
--     equality as an interface, `Result` with its do blocks, and maps with numeric keys.
--   * Scenario: Types and Errors are the data of scenario.rs; Header, Sites, Keeps, Castling and
--     Validate are `ScenarioDefinition::validate`, where a check returns the errors that the source
--     pushes; CoordSet is a set of squares in its order; Variant is `FogScenarioVariant::apply`.
--     Sound is about accepted scenarios.
--   * State: Types and Errors are the data of state.rs; Invariants is `validate_invariants`, NonBoard
--     is `apply_non_board_action`, Repetition is `repetition_key`, Create is `from_scenario`, Vision
--     is the functions on vision and exploration with the cache. WellFormed says the invariants
--     without loops, Sight, Range and Knowledge are about vision and exploration, Cache is about
--     the cache, Begun is about new matches, and Steps has the rules for chains of fallible steps.
--   * Board: the methods of `Board` in rules.rs. Geometry (offsets, terrain, edges), Rays (the
--     sliding loops), Governance, Attacks and Moves (pseudo-legal moves). Agreement, Reach and
--     Locality are about them.
--   * Rules: the transitions of rules.rs. Moving (`apply_move_unchecked`), Legality (check,
--     `legal_moves`, `inspect_move`, `attack_lines_on`), Realm (governance, the control score,
--     placement squares), Settlements and Cycles (landing, transfers, interruptions, owner cycles),
--     Choices and Promotions (the queue of mandatory choices), Command (moves, holds, repetition),
--     Recruitment (promotion and placement), Events, and Action (`apply_action`). Moves, Inspection,
--     Authority, Safety, Turn, Conduct, Frame, Settled, Integrity, Identity, Discovery, Offers,
--     Claims, Development, Rewards, Queue, Opening and Threefold are about them.
--   * Clock: `start_clocks`, `advance_clock` and `apply_timed_action`; Clock/Charge is about them.
--   * Match: the states that a match reaches, also by actions on clocks; Match/History is one game
--     with all its states in their order.
--   * Journal: Types and Equality are the data of journal.rs; Append starts a journal and appends to
--     it, Replay replays it, Codec writes, reads and migrates it. RoundTrip, Session, Idempotency,
--     Tail, Trust and Migration are about them. An append returns the journal that it leaves behind.
--   * Persistence: Types is the data of persistence.rs; Envelope has the checks and the encoding,
--     Reader is `SaveReader` and the reading of snapshots, Atomic is `write_bytes_atomically`.
--     Integrity, Belonging, Snapshots and Atomicity are about them.
--   * Projection: Types is the data of projection.rs; View is `project_player_view`, Intents is the
--     methods of `PlayerView` and `apply_player_intent`, Events is `project_events`. Named, Privacy,
--     Facts and Discretion are about them. The index of a settlement or a player's direction that is
--     missing makes the projection panic, which is an outcome of its own.
--   * Server: Limits is limits.rs, with instants and durations in nanoseconds and addresses as
--     numbers. Counts, Connections, Windows, Pace and Requests are about it.
--   * Examples, Evaluation and Tests: a small scenario, the names unfolded to run the model on it,
--     and runs.
--
-- How the state and the operations correspond. `MatchState` is a record with the fields of the
-- struct. A function that takes `&mut MatchState` returns the new state, and a fallible one returns
-- `Result`; `?` is a bind. A `BTreeMap` by piece is a list of pairs in the order of its keys, a
-- `BTreeSet` of squares is a list in their order, and the maps of a scenario are lists of pairs or
-- functions. A loop over a collection is recursion on the list, with what an early `return` or
-- `break` does written out. Where one Rust function is long, it is a chain of named steps in the
-- order of its statements.
--
-- Numbers. `u8` to `u64` are natural numbers. `checked_add` is a test against the maximum of the
-- type, `saturating_add` is a minimum, and the counters that the source adds to without a check (the
-- `u8` counters of Kings and the `u32` total of a control score) wrap as in a release build. `i8`
-- offsets are integers.
--
-- Fuel. The sliding loops run on `width + height + 1` rounds; Board/Reach has the theorem that this
-- is enough from a square of the board. The loops over a Rook's castling route, in the scenario's
-- validation and on the board, run on the number of squares between its start and its destination,
-- which the loop reaches in as many rounds or breaks before.
--
-- Parameters. What is not this repository's code is an argument of the definitions that use it. The
-- SHA-256 of a JSON encoding is a function from what it covers to a text, or nothing where the
-- encoding fails: `Digest` for the repetition key, `StateHash` for a state, `ViewHash` for a view.
-- `JournalCodec` is serde_json on journals and `Json` is serde_json on values and envelopes, each with
-- the texts of errors that the code passes on. `AtomicSaveStorage` is the host's storage, each of
-- whose operations also returns the storage that it leaves behind. Where a theorem relies on what
-- these do, it says so by a hypothesis: that what is written is read back, or the host's contract.
--
-- Not modelled: scenarios with guided content (guided.rs, and the branch of `from_scenario` that
-- starts from a guided state), the derived encodings, the text of
-- `square_explanation`, limits from the environment (`ServerLimits::from_env`); the computer player,
-- the protocol, the rest of the server and the client.

pub mod Prelude
pub mod Scenario
pub mod Server
pub mod State
pub mod Board
pub mod Rules
pub mod Clock
pub mod Match
pub mod Journal
pub mod Projection
pub mod Persistence
pub mod Examples
pub mod Evaluation
pub mod Tests
