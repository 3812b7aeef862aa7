-- ===== src/Engine/Error.antt =====
-- The errors that the engine throws, one constructor for each message.
pub data EngineError : Type 0 where
  -- cards.ts
  invalid_card_code inconsistent_card duplicate_card : EngineError
  -- state.ts
  seat_count_out_of_range button_outside_table player_ids_not_unique : EngineError
  stacks_or_blinds_not_positive deck_not_52_cards : EngineError
  -- evaluator.ts
  not_seven_cards unable_to_evaluate : EngineError
  -- pots.ts
  cannot_evaluate_showdown board_cannot_run_out deck_exhausted : EngineError
  hand_not_complete pot_without_eligible_player : EngineError
  -- lifecycle.ts
  actor_not_seated add_on_during_hand add_on_not_positive unknown_player : EngineError
  advance_before_complete advance_before_settled hand_identity_missing : EngineError
  funded_seats_out_of_range no_funded_player : EngineError
  -- invariants.ts
  not_2_to_9_players seats_not_unique button_not_seated blinds_invalid : EngineError
  minimum_raise_not_positive actor_unknown street_exceeds_hand active_without_chips : EngineError
  all_in_with_chips actor_not_eligible current_bet_trails unknown_metadata_owner : EngineError
  invalid_board_count invalid_hole_owner not_two_hole_cards : EngineError
  participant_without_cards : EngineError
