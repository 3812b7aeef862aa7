-- ===== src/Engine/Progress/Invariant.antt =====
-- reducer.ts: the invariants at the end of `finishOrPassAction`.
use porker_monorepo.Base.{
  All, Bool, List, String, Unique, [], all, all-append, any, arith, false, includes, keys, leb,
  length, refl, some, true, ℕ, ◌&&◌, ◌++◌, ◌+◌, ◌<◌, ◌===◌, ◌||◌, ◌∷◌, ◌≡◌,
}
use porker_monorepo.Engine.Hand.{id_of}
use porker_monorepo.Engine.Invariants.{is_valid_board}
use porker_monorepo.Engine.Invariants.Facts.{Core, Inv, PlayerOk, Stocked}
use porker_monorepo.Engine.Players.{player_of-get, player_of-known}
use porker_monorepo.Engine.Progress.{
  Acted, actives, can_act, finish_hand, is_hand_closed, next_active_player, pass_action,
}
use porker_monorepo.Engine.Progress.Turn.{next_active_player-first}
use porker_monorepo.Engine.Reducer.Middle.{middle}
use porker_monorepo.Engine.Table.{
  BettingPhase, TablePlayer, TableState, complete, is_complete, player_ids, player_of,
}

-- The facts about a move that the end of a turn rests on.
pub record Ready (s : TableState) (a : Acted) : Type 0 where
  pub core : Core (middle s a)
  pub live : is_complete s.phase ≡ false
  pub stocked : Stocked s
  pub actor_known : includes (player_ids a.players) s.actor_id ≡ true

pub known-parts :
    (q : String → Bool) (xs ys zs : List String)
    → all q (xs ++ (ys ++ zs)) ≡ true
    → (all q xs ≡ true) × (all q ys ≡ true) × (all q zs ≡ true)
known-parts q xs ys zs h = ground (arith, all-append q xs (ys ++ zs), all-append q ys zs)

pub known-join :
    (q : String → Bool) (xs ys zs : List String)
    → all q xs ≡ true
    → all q ys ≡ true
    → all q zs ≡ true
    → all q (xs ++ (ys ++ zs)) ≡ true
known-join q xs ys zs hx hy hz = ground (arith, all-append q xs (ys ++ zs), all-append q ys zs)

pub live-board :
    (phase : BettingPhase) (n : ℕ)
    → is_valid_board phase n ≡ true
    → is_valid_board complete n ≡ true
live-board phase n h = ground arith

-- A change of the phase and of the betting metadata alone.
Core-meta :
    (s : TableState) (version : ℕ) (phase : BettingPhase) (actor : String)
    (acted rights : List String) (last : List (String × ℕ))
    → Core s
    → is_valid_board phase (length s.board) ≡ true
    → all (includes (player_ids s.players)) (acted ++ (rights ++ keys last)) ≡ true
    → Core (record s {
      version = version;
      phase = phase;
      actor_id = actor;
      acted_player_ids = acted;
      raise_rights = rights;
      last_acted_bet = last;
    })
Core-meta s version phase actor acted rights last v fits known = record {
  at_least_two = v.at_least_two;
  at_most_nine = v.at_most_nine;
  ids_unique = v.ids_unique;
  seats_unique = v.seats_unique;
  button = v.button;
  small_positive = v.small_positive;
  blinds_rise = v.blinds_rise;
  raise_positive = v.raise_positive;
  players_ok = v.players_ok;
  bet_covers = v.bet_covers;
  owners_known = known;
  board_fits = fits;
  holes_ok = v.holes_ok;
  participants_dealt = v.participants_dealt;
  cards_consistent = v.cards_consistent;
  cards_distinct = v.cards_distinct;
}

pub finish_hand-Inv : (s : TableState) (a : Acted) → Ready s a → Inv (finish_hand s a)
unfolding finish_hand
finish_hand-Inv s a r =
    let v = r.core in
    let (kacted, krights, klast) =
      known-parts (includes (player_ids a.players)) a.acted_player_ids a.raise_rights
        (keys a.last_acted_bet) v.owners_known in
    let (p, found) = player_of-known s.actor_id a.players r.actor_known in
    record {
      core =
          Core-meta (middle s a) (s.version + 1) complete s.actor_id a.acted_player_ids []
            a.last_acted_bet v (live-board s.phase (length s.board) v.board_fits)
            (known-join _ a.acted_player_ids [] (keys a.last_acted_bet) kacted refl klast);
      actor_ok = (p, found, refl);
    }

-- An active player can act: he has chips.
actives-act :
    (ps : List TablePlayer) → All PlayerOk ps → 0 < length (actives ps) → any can_act ps ≡ true
actives-act [] k h = absurd (omega arith)
actives-act (p ∷ ps) k h = ground (arith, k.0.active_funded, actives-act ps k.1)

-- The player whose turn comes is seated, and can act.
pub next_active-ok :
    (ps : List TablePlayer) (seat : ℕ) (old : String)
    → Unique ◌===◌ (player_ids ps)
    → All PlayerOk ps
    → 0 < length (actives ps)
    → (p : TablePlayer) × (player_of (id_of (next_active_player ps seat) old) ps ≡ some p)
      × (can_act p ≡ true)
next_active-ok ps seat old u k h =
    let (p, e, first) = next_active_player-first ps seat (actives-act ps k h) in
    (p, rw e (player_of-get ps _ u first.stands_at), first.acts)

closed-without-active :
    (q : TablePlayer → Bool) (b : Bool) (ps : List TablePlayer)
    → (b || (leb (length ps) 1 && all q ps)) ≡ false
    → 0 < length ps
closed-without-active q b [] h = ground arith
closed-without-active q b (p ∷ ps) h = omega arith

pub pass_action-Inv :
    (s : TableState) (a : Acted) (seat : ℕ)
    → Ready s a
    → is_hand_closed a.players s.current_bet ≡ false
    → Inv (pass_action s a seat)
unfolding pass_action is_hand_closed
pass_action-Inv s a seat r open_hand =
    let v = r.core in
    let (p, found, acts) =
      next_active-ok a.players seat s.actor_id v.ids_unique v.players_ok
        (closed-without-active _ _ (actives a.players) open_hand) in
    record {
      core =
          Core-meta (middle s a) (s.version + 1) s.phase
            (id_of (next_active_player a.players seat) s.actor_id) a.acted_player_ids a.raise_rights
            a.last_acted_bet v v.board_fits v.owners_known;
      actor_ok = (p, found, ground (arith, acts));
    }
