-- ===== src/Gateway/Runs.antt =====
-- apps/poker-api/src/game/game.gateway.ts: a hand at a table in memory, through the actions of its
-- players and of the clock.
use porker_monorepo.Base.{List, Option, String, ap, lookup, ok, some, sym, ◌∙◌, ◌≡◌}
use porker_monorepo.Engine.Commands.{Action}
use porker_monorepo.Engine.Invariants.{assert_invariants}
use porker_monorepo.Engine.Invariants.Facts.{Stocked}
use porker_monorepo.Engine.Table.{TableState}
use porker_monorepo.Gateway.{Effect, GatewayState, Reply, TableRuntime}
use porker_monorepo.Gateway.Actions.{ActionRequest, act_under_lock}
use porker_monorepo.Gateway.Actions.Kept.{HasKept, Kept-start, act_under_lock-Kept}
use porker_monorepo.Gateway.Timeouts.{ExpectedTurn, perform_automatic_action}
use porker_monorepo.Gateway.Timeouts.Kept.{perform_automatic_action-Kept}
use porker_monorepo.Gateway.Turns.{Surroundings}
use porker_monorepo.Store.{Database}

module _ {L : Type 0} {T : Type 0 → Type 0} (d : Database L T)
    (decrypt : String → Option TableState) (encrypt : TableState → String)
    (hash_action : ActionRequest → String) (hash_turn : Action → String → String) where
  -- One of the handlers of a room, which returns.
  pub data Step (room : String) (s : GatewayState L T) : GatewayState L T → Type 0 where
    acts :
        (w : Surroundings) (user : String) (q : ActionRequest)
        (after : GatewayState L T × Reply × List Effect)
        → q.room_id ≡ room
        → act_under_lock d decrypt encrypt hash_action w user q s ≡ ok after
        → Step room s (after.0)
    times_out :
        (w : Surroundings) (required : Option String) (expected : Option ExpectedTurn)
        (after : GatewayState L T × List Effect)
        → perform_automatic_action d decrypt encrypt hash_turn w room required expected s ≡ ok after
        → Step room s (after.0)

  pub data Run (room : String) (s : GatewayState L T) : GatewayState L T → Type 0 where
    stays : Run room s s
    goes_on : (t u : GatewayState L T) → Run room s t → Step room t u → Run room s u

  Step-Kept :
      (room : String) (s t : GatewayState L T) (before : TableState)
      → Step room s t
      → HasKept room before s
      → HasKept room before t
  Step-Kept room s t before (acts w user q after at e) (r, cached, k) =
      let here : lookup q.room_id s.runtimes ≡ some r = ap (λ n. lookup n s.runtimes) at ∙ cached in
      let (r', cached', k') =
        act_under_lock-Kept d decrypt encrypt hash_action w user q s r {after = after} here
          k.consistent k.stocked e in
      (
        r',
        ap (λ n. lookup n (after.0).runtimes) (sym at) ∙ cached',
        record { consistent = k'.consistent; stocked = k'.stocked; chips = k'.chips ∙ k.chips },
      )
  Step-Kept room s t before (times_out w required expected after e) (r, cached, k) =
      let (r', cached', k') =
        perform_automatic_action-Kept d decrypt encrypt hash_turn w room required expected s r
          {after = after} cached k.consistent k.stocked e in
      (
        r',
        cached',
        record { consistent = k'.consistent; stocked = k'.stocked; chips = k'.chips ∙ k.chips },
      )

  -- If the table of a room in memory passes assertInvariants and has the cards that its board still
  -- wants, then so does the table in memory after any actions of players and of the clock, accepted,
  -- refused or failed, in any order, that do not throw; and no chip has appeared or gone.
  pub Run-Kept :
      (room : String) (s t : GatewayState L T) (runtime : TableRuntime)
      → lookup room s.runtimes ≡ some runtime
      → assert_invariants runtime.state ≡ ok tt
      → Stocked runtime.state
      → Run room s t
      → HasKept room runtime.state t
  Run-Kept room s t runtime cached v st stays = (runtime, cached, Kept-start runtime.state v st)
  Run-Kept room s t runtime cached v st (goes_on m u run step) =
      Step-Kept room m u runtime.state step (Run-Kept room s m runtime cached v st run)
