-- ===== src/Gateway/Witnesses.antt =====
-- The theorems about actions, recovery and views at a concrete room, and tests of the definitions.
use porker_monorepo.Base.{List, String, [], arith, none, ok, refl, some, ◌===◌, ◌∷◌, ◌≡◌}
use porker_monorepo.Engine.Cards.{clubs, parse_card, validate_deck}
use porker_monorepo.Engine.Commands.{Action}
use porker_monorepo.Engine.Evaluator.{compare_hands, evaluate_five, evaluate_seven}
use porker_monorepo.Engine.Invariants.{assert_invariants}
use porker_monorepo.Engine.Invariants.Check.{assert_invariants_iff}
use porker_monorepo.Engine.Progress.{finish_or_pass_action}
use porker_monorepo.Engine.Reducer.{act, act_if_seated, after_plain, apply_command_result}
use porker_monorepo.Engine.Samples.{card, first_state, settled_table, shown_players, shown_state}
use porker_monorepo.Engine.Showdown.{best_ids, pot_total, settle_showdown}
use porker_monorepo.Engine.Table.{total_chips}
use porker_monorepo.Gateway.{
  Finalized, GatewayState, awards_of, broadcast_events, player_view, schedule_next_hand,
  settle_if_complete, settlement_event, success,
}
use porker_monorepo.Gateway.Actions.{act_under_lock}
use porker_monorepo.Gateway.Actions.Kept.{HasKept}
use porker_monorepo.Gateway.Actions.Once.{act_under_lock-once}
use porker_monorepo.Gateway.Recovery.{drained, ready, recover_result, with_runtime}
use porker_monorepo.Gateway.Recovery.Accepted.{Rebuilt, recover_result-Rebuilt}
use porker_monorepo.Gateway.Runs.{Run-Kept, acts, goes_on, stays}
use porker_monorepo.Gateway.Samples.{
  after_fold, ann_folds, calm, fold_ack, fold_sent, folded_hall, folded_runtime, hash_request,
  opened, seal, table_room, unseal,
}
use porker_monorepo.Gateway.Settlement.{award_total, settle_if_complete-awards}
use porker_monorepo.Gateway.Views.{player_view-hides}
use porker_monorepo.Ledger.Integers.{pos}
use porker_monorepo.Ledger.Samples.{Rows}
use porker_monorepo.Store.{attempts}
use porker_monorepo.Store.Game.Commits.{commit_durable_action, store_events}
use porker_monorepo.Store.Game.Hands.{
  find_table_operation, load_hand_events_after, load_latest_table_snapshot,
}
use porker_monorepo.Store.Game.Releases.{set_room_draining}
use porker_monorepo.Store.Game.Seats.{list_public_rooms, list_table_seats}
use porker_monorepo.Store.Game.Sessions.{find_disconnect_grace}
use porker_monorepo.Store.Samples.{database, list_laws}

fold_runs :
    act_under_lock database unseal seal hash_request calm "ann" ann_folds opened
    ≡ ok (after_fold, success fold_ack, fold_sent)
unfolding act_under_lock find_table_operation list_public_rooms list_table_seats
    apply_command_result act_if_seated act after_plain commit_durable_action finish_or_pass_action
    attempts broadcast_events schedule_next_hand find_disconnect_grace ◌===◌
fold_runs = refl

first_state-Inv : assert_invariants first_state ≡ ok tt
unfolding assert_invariants validate_deck parse_card ◌===◌
first_state-Inv = refl

abbrev hash_act : Action → String → String
hash_act action user = "hash"

Run-Kept_example : HasKept "table" first_state after_fold
unfolding ◌===◌
Run-Kept_example =
    Run-Kept database unseal seal hash_request hash_act "table" opened after_fold
      (record { state = first_state; action_deadline_at = some 100 }) refl first_state-Inv
      (omega arith)
      (goes_on opened after_fold stays
        (acts calm "ann" ann_folds (after_fold, success fold_ack, fold_sent) refl fold_runs))

act_under_lock-once_example :
    act_under_lock database unseal seal hash_request calm "ann" ann_folds after_fold
    ≡ ok (after_fold, success fold_ack, [])
act_under_lock-once_example =
    act_under_lock-once database list_laws unseal seal hash_request calm calm "ann" ann_folds opened
      after_fold fold_ack fold_sent fold_runs

-- After a restart, the runtime is rebuilt from what the action has stored.
abbrev restarted : GatewayState Rows List
restarted = record { store = folded_hall; runtimes = [] }

recovery_runs :
    recover_result database unseal "table" restarted ≡ ok (after_fold, ready folded_runtime)
unfolding recover_result load_latest_table_snapshot assert_invariants validate_deck parse_card
    load_hand_events_after store_events ◌===◌
recovery_runs = refl

recover_result-Rebuilt_example :
    Rebuilt "table" (load_hand_events_after database "hand-1" 0 folded_hall) folded_runtime
    × (after_fold ≡ with_runtime database unseal "table" folded_runtime restarted)
recover_result-Rebuilt_example =
    recover_result-Rebuilt database unseal "table" restarted {s' = after_fold}
      {runtime = folded_runtime} refl recovery_runs

-- If the snapshot does not open, the room is set to draining.
spoilt_drains :
    recover_result database (λ text. none) "table" restarted
    ≡ ok (
      record restarted {
        store = record folded_hall { rooms = record table_room { status = "DRAINING" } ∷ [] };
      },
      drained,
    )
unfolding recover_result load_latest_table_snapshot set_room_draining store_events ◌===◌
spoilt_drains = refl

-- Ann sees the same table, whatever the deck and the cards of the others are.
player_view-hides_example :
    player_view
      (record first_state {
        deck = [];
        hole_cards = ("ann", card 4 clubs ∷ card 7 clubs ∷ []) ∷ [];
      })
      "ann"
      (pos 20)
      none
    ≡ player_view first_state "ann" (pos 20) none
unfolding ◌===◌
player_view-hides_example =
    player_view-hides first_state "ann" (pos 20) none []
      (("ann", card 4 clubs ∷ card 7 clubs ∷ []) ∷ []) refl

abbrev shown_down : Finalized
shown_down = record {
  state = settled_table;
  events = settlement_event shown_state settled_table ∷ [];
}

shown_consistent : assert_invariants shown_state ≡ ok tt
unfolding assert_invariants validate_deck parse_card ◌===◌
shown_consistent = refl

shown_finalized : settle_if_complete shown_state [] ≡ ok shown_down
unfolding settle_if_complete settle_showdown best_ids evaluate_seven evaluate_five compare_hands
    assert_invariants validate_deck parse_card ◌===◌
shown_finalized = refl

settle_if_complete-awards_example :
    (shown_down.events ≡ settlement_event shown_state settled_table ∷ [])
    × (award_total (awards_of shown_players settled_table.players) ≡ pot_total shown_players)
    × (pot_total settled_table.players ≡ 0)
    × (total_chips settled_table.players ≡ total_chips shown_players)
settle_if_complete-awards_example =
    settle_if_complete-awards shown_state [] {f = shown_down}
      (((assert_invariants_iff shown_state).0 shown_consistent).core.ids_unique) refl
      shown_finalized

-- The only award is the pot, which ann gets.
shown_awards : awards_of shown_players settled_table.players ≡ ("ann", 135) ∷ []
unfolding awards_of ◌===◌
shown_awards = refl
