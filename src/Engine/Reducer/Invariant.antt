-- ===== src/Engine/Reducer/Invariant.antt =====
-- reducer.ts: the invariants after a command.
use porker_monorepo.Base.{
  All-get, Bool, List, String, [], all, all-append, all-filter, arith, false, filter, get_elem?,
  if◌then◌else◌, includes, insert, keys, map-modify, max_of-All, min, modify, not, ok, refl, some,
  subst, sym, true, ℕ, ◌+◌, ◌<◌, ◌===◌, ◌∙◌, ◌∷◌, ◌≡◌, ◌≤◌,
}
use porker_monorepo.Engine.Commands.{GameEvent, TableCommand}
use porker_monorepo.Engine.Invariants.{assert_invariants}
use porker_monorepo.Engine.Invariants.Check.{assert_invariants_iff}
use porker_monorepo.Engine.Invariants.Facts.{Inv, PlayerOk, Stocked}
use porker_monorepo.Engine.Players.{all-ids, player_of-includes}
use porker_monorepo.Engine.Pots.Eligible.{Known-filter}
use porker_monorepo.Engine.Pots.Payouts.{all-keys-insert}
use porker_monorepo.Engine.Progress.{Transition, actives, add_unique}
use porker_monorepo.Engine.Progress.Invariant.{Ready, known-join, known-parts}
use porker_monorepo.Engine.Progress.NextStreet.{finish_or_pass_action-Inv}
use porker_monorepo.Engine.Reducer.{
  after_plain, after_wager, apply_command_result, fold_player, keeps_right, others_with_action, pay,
  same, to_call, wager, without,
}
use porker_monorepo.Engine.Reducer.Middle.{FairChange, middle-Core}
use porker_monorepo.Engine.Reducer.Plays.{
  Play, apply_command_result-Accepted, calls, checks, folds, wagers,
}
use porker_monorepo.Engine.Table.{
  TablePlayer, TableState, is_active, is_complete, player_ids, player_of,
}

add_unique-known :
    (q : String → Bool) (ids : List String) (id : String)
    → all q ids ≡ true
    → q id ≡ true
    → all q (add_unique ids id) ≡ true
unfolding add_unique
add_unique-known q ids id h k = ground (arith, all-append q ids (id ∷ []))

if-known :
    (q : String → Bool) (b : Bool) (xs ys : List String)
    → all q xs ≡ true
    → all q ys ≡ true
    → all q (if b then xs else ys) ≡ true
if-known q true xs ys hx hy = hx
if-known q false xs ys hx hy = hy

if-pos : (b : Bool) (m n : ℕ) → 0 < m → 0 < n → 0 < (if b then m else n)
if-pos b m n hm hn = ground arith

-- The acting player is seated: his id is known, and he is within the bet.
record Acting (s : TableState) (p : TablePlayer) (i : ℕ) : Type 0 where
  inv : Inv s
  stocked : Stocked s
  at_index : get_elem? s.players i ≡ some p
  acts : is_active p ≡ true
  live : is_complete s.phase ≡ false
  is_actor : p.id ≡ s.actor_id
  found : player_of s.actor_id s.players ≡ some p

module _ (s : TableState) (p : TablePlayer) (i : ℕ) (k : Acting s p i) where
  own_ok : PlayerOk p
  own_ok = All-get PlayerOk s.players i k.inv.players_ok k.at_index

  own_bet : p.street_committed ≤ s.current_bet
  own_bet =
      All-get (λ x. x.street_committed ≤ s.current_bet) s.players i
        (max_of-All (λ x. x.street_committed) s.current_bet s.players k.inv.bet_covers) k.at_index

  actor_included : includes (player_ids s.players) s.actor_id ≡ true
  actor_included = player_of-includes s.actor_id s.players k.found

  own_included : includes (player_ids s.players) p.id ≡ true
  own_included = rw k.is_actor actor_included

  ready :
      (top least : ℕ) (f : TablePlayer → TablePlayer) (acted rights : List String)
      (last : List (String × ℕ))
      → s.current_bet ≤ top
      → 0 < least
      → FairChange top p f
      → all (includes (player_ids s.players)) acted ≡ true
      → all (includes (player_ids s.players)) rights ≡ true
      → all (includes (player_ids s.players)) (keys last) ≡ true
      → Ready
          (record s { current_bet = top; minimum_raise = least })
          (record {
            players = modify s.players i f;
            acted_player_ids = acted;
            raise_rights = rights;
            last_acted_bet = last;
          })
  ready top least f acted rights last le pos c ka kr kl = record {
    core =
        middle-Core s p i top least f acted rights last k.inv.core k.at_index k.acts le pos c
          (known-join _ acted rights (keys last) ka kr kl);
    live = k.live;
    stocked = k.stocked;
    actor_known =
        subst (λ ids. includes ids s.actor_id ≡ true)
          (sym (map-modify (λ x. x.id) f s.players i c.same_id)) actor_included;
  }

  known_parts :
      (all (includes (player_ids s.players)) s.acted_player_ids ≡ true)
      × (all (includes (player_ids s.players)) s.raise_rights ≡ true)
      × (all (includes (player_ids s.players)) (keys s.last_acted_bet) ≡ true)
  known_parts =
      known-parts (includes (player_ids s.players)) s.acted_player_ids s.raise_rights
        (keys s.last_acted_bet) k.inv.owners_known

  acted_known : all (includes (player_ids s.players)) (add_unique s.acted_player_ids p.id) ≡ true
  acted_known = add_unique-known _ s.acted_player_ids p.id known_parts.0 own_included

  rights_known : all (includes (player_ids s.players)) (without s.raise_rights p.id) ≡ true
  rights_known = all-filter _ (λ other. not (other === p.id)) s.raise_rights known_parts.1

  last_known :
      (n : ℕ) → all (includes (player_ids s.players)) (keys (insert p.id n s.last_acted_bet)) ≡ true
  last_known n = all-keys-insert _ p.id n s.last_acted_bet own_included known_parts.2

  plain-Inv :
      (f : TablePlayer → TablePlayer) (e : GameEvent)
      → FairChange s.current_bet p f
      → Inv (after_plain s p i f e).state × Stocked (after_plain s p i f e).state
  unfolding after_plain
  plain-Inv f e c = finish_or_pass_action-Inv s _ p.seat (e ∷ []) (
      ready s.current_bet s.minimum_raise f _ _ _ (omega arith) k.inv.raise_positive c acted_known
        rights_known (last_known s.current_bet))

  fold_change : FairChange s.current_bet p fold_player
  fold_change = record {
    same_id = λ x. refl;
    same_seat = λ x. refl;
    still_ok = record { street = own_ok.street; active_funded = λ h. cc; all_in_spent = λ h. cc };
    within_bet = own_bet;
  }

  same_change : FairChange s.current_bet p same
  same_change = record {
    same_id = λ x. refl;
    same_seat = λ x. refl;
    still_ok = own_ok;
    within_bet = own_bet;
  }

  pay_change : (paid : ℕ) → paid ≡ min (to_call s p) p.stack → FairChange s.current_bet p (pay paid)
  pay_change paid e = record {
    same_id = λ x. refl;
    same_seat = λ x. refl;
    still_ok = ground (arith, own_ok, k.acts);
    within_bet = omega (arith, own_bet);
  }

  wager_change :
      (amount : ℕ)
      → s.current_bet < amount
      → amount ≤ p.street_committed + p.stack
      → FairChange amount p (wager amount)
  wager_change amount above within = record {
    same_id = λ x. refl;
    same_seat = λ x. refl;
    still_ok = ground (arith, own_ok, k.acts, own_bet);
    within_bet = omega arith;
  }

  changed_known :
      (top : ℕ) (f : TablePlayer → TablePlayer) (keep : TablePlayer → Bool)
      → FairChange top p f
      → all (includes (player_ids s.players)) (player_ids (filter keep (modify s.players i f)))
        ≡ true
  changed_known top f keep c =
      subst (λ ids. all (includes ids) (player_ids (filter keep (modify s.players i f))) ≡ true)
        (map-modify (λ x. x.id) f s.players i c.same_id) (Known-filter keep (modify s.players i f))

  wager-Inv :
      (amount raise_size : ℕ) (full incomplete : Bool) (e : GameEvent)
      → s.current_bet < amount
      → amount ≤ p.street_committed + p.stack
      → 0 < raise_size
      → Inv (after_wager s p i amount full incomplete raise_size e).state
        × Stocked (after_wager s p i amount full incomplete raise_size e).state
  unfolding after_wager
  wager-Inv amount raise_size full incomplete e above within pos =
      let c = wager_change amount above within in
      let players = modify s.players i (wager amount) in
      let last = insert p.id amount s.last_acted_bet in
      let rights = without s.raise_rights p.id in
      let keeping = filter (keeps_right rights last amount s.minimum_raise) (actives players) in
      finish_or_pass_action-Inv _ _ p.seat (e ∷ []) (
        ready amount (if full then raise_size else s.minimum_raise) (wager amount) _ _ last
          (omega arith) (if-pos full raise_size s.minimum_raise pos k.inv.raise_positive) c
          (if-known _ full (p.id ∷ []) _ (ground (arith, own_included)) acted_known)
          (if-known _ full (others_with_action players p.id) _
            (changed_known amount (wager amount) _ c)
            (if-known _ incomplete (player_ids keeping) rights
              (all-ids _ _ (actives players) (changed_known amount (wager amount) is_active c))
              rights_known))
          (last_known amount))

  Play-Inv : {t : Transition} → Play s p i t → Inv t.state × Stocked t.state
  Play-Inv (folds e) = rw e (plain-Inv fold_player _ fold_change)
  Play-Inv (checks z e) = rw e (plain-Inv same _ same_change)
  Play-Inv (calls paid z m e) = rw e (plain-Inv (pay paid) _ (pay_change paid m))
  Play-Inv (wagers amount size full incomplete event above within pos e) =
      rw e (wager-Inv amount size full incomplete event above within pos)

apply-Inv :
    (s : TableState) (c : TableCommand) {t : Transition}
    → apply_command_result s c ≡ ok t
    → Inv s
    → Stocked s
    → Inv t.state × Stocked t.state
apply-Inv s c h v st =
    let a = apply_command_result-Accepted s c h in
    Play-Inv s a.player a.index
      (record {
        inv = v;
        stocked = st;
        at_index = a.at_index;
        acts = a.acts;
        live = a.live;
        is_actor = a.own_id ∙ a.is_actor;
        found = subst (λ id. player_of id s.players ≡ some a.player) a.is_actor a.found;
      })
      a.play

-- On a table that passes assertInvariants, and whose deck has the cards for the rest of the board,
-- every accepted command leads to such a table again.
pub apply_command_result-assert_invariants :
    (s : TableState) (c : TableCommand) {t : Transition}
    → apply_command_result s c ≡ ok t
    → assert_invariants s ≡ ok tt
    → Stocked s
    → (assert_invariants t.state ≡ ok tt) × Stocked t.state
apply_command_result-assert_invariants s c {t} h v st =
    let (inv, stocked) = apply-Inv s c {t = t} h ((assert_invariants_iff s).0 v) st in
    ((assert_invariants_iff t.state).1 inv, stocked)
