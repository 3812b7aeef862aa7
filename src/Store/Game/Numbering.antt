-- ===== src/Store/Game/Numbering.antt =====
-- packages/db/src/game-server.ts: the numbers of the events of a hand.
use porker_monorepo.Base.{
  ===_iff, List, Option, String, [], ap, arith, false, filter, length, ltb, map, none, ok, refl,
  some, subst, suc, sym, true, zero, ℕ, ◌++◌, ◌+◌, ◌===◌, ◌∙◌, ◌∷◌, ◌≡◌,
}
use porker_monorepo.Store.{Database}
use porker_monorepo.Store.Game.{DurableActionAck, GameTables, HandEvent, last_by}
use porker_monorepo.Store.Game.Actions.{commit_unless_done-parts, filter-create}
use porker_monorepo.Store.Game.Commits.{
  ActionEvent, CommitActionInput, commit_unless_done, event_row, last_sequence, store_events,
}
use porker_monorepo.Store.Game.Hands.{value_or_zero_of}
use porker_monorepo.Store.Game.Seats.{indices_from}
use porker_monorepo.Store.Rows.{TableLaws}

indices_from-append :
    (start n : ℕ) → indices_from start n ++ (start + n) ∷ [] ≡ indices_from start (n + 1)
indices_from-append start zero = ap (λ k. k ∷ []) (omega arith)
indices_from-append start (suc n) =
    let shift : start + suc n ≡ start + 1 + n = omega arith in
    let more : suc n + 1 ≡ suc (n + 1) = omega arith in
    rw (shift, more) (ap (λ r. start ∷ r) (indices_from-append (start + 1) n))

map-create {ℓ} :
    {R : Type ℓ} (f : R → ℕ) (xs : List R) (x : R) → map f (xs ++ x ∷ []) ≡ map f xs ++ f x ∷ []
map-create f [] x = refl
map-create f (y ∷ ys) x = ap (λ r. f y ∷ r) (map-create f ys x)

module _ {ℓ} {R : Type ℓ} (key : R → ℕ) where
  -- The largest of consecutive numbers is the last.
  last_by-numbered :
      (xs : List R) (start n : ℕ)
      → map key xs ≡ indices_from start (suc n)
      → (best : R) × (last_by key xs ≡ some best) × (key best ≡ start + n)
  last_by-numbered [] start n h = absurd (ground (arith, h))
  last_by-numbered (x ∷ xs) start zero h =
      let first : key x ≡ start = ground (arith, h) in
      let alone : map key xs ≡ [] = ground (arith, h) in
      (x, ap some_last (nothing xs alone), omega arith)
    where
      nothing : (ys : List R) → map key ys ≡ [] → ys ≡ []
      nothing [] e = refl
      nothing (y ∷ ys) e = cc

      some_last : List R → Option R
      some_last ys = last_by key (x ∷ ys)
  last_by-numbered (x ∷ xs) start (suc n) h =
      let first : key x ≡ start = ground (arith, h) in
      let rest : map key xs ≡ indices_from (start + 1) (suc n) = ground (arith, h) in
      let (best, found, value) = last_by-numbered xs (start + 1) n rest in
      let low : ltb (key best) (key x) ≡ false = ground (arith, first, value) in
      (best, rw (found, low) refl, omega (arith, value))

module _ {L : Type 0} {T : Type 0 → Type 0} {J : Type 0} (d : Database L T)
    (tables : TableLaws d.tables) where
  abbrev pub hand_events : String → T (HandEvent J) → List (HandEvent J)
  hand_events hand rows = filter (λ e. e.hand_id === hand) (tables.rows rows)

  -- The events of a hand are numbered from one, in the order in which they were written.
  abbrev pub IsNumbered : String → ℕ → T (HandEvent J) → Type 0
  IsNumbered hand n rows = map (λ e. e.sequence) (hand_events hand rows) ≡ indices_from 1 n

  last_sequence-IsNumbered :
      (hand : String) (n : ℕ) (rows : T (HandEvent J))
      → IsNumbered hand n rows
      → last_sequence d hand rows ≡ n
  last_sequence-IsNumbered hand n rows h =
      ap
        (λ xs.
          value_or_zero_of (λ (e : HandEvent J). e.sequence)
            (last_by (λ (e : HandEvent J). e.sequence) xs))
        (tables.many_rows (λ e. e.hand_id === hand) rows)
      ∙ numbered (hand_events hand rows) n h
    where
      numbered :
          (xs : List (HandEvent J)) (n : ℕ)
          → map (λ e. e.sequence) xs ≡ indices_from 1 n
          → value_or_zero_of
              (λ (e : HandEvent J). e.sequence)
              (last_by (λ (e : HandEvent J). e.sequence) xs)
            ≡ n
      numbered [] zero e = refl
      numbered [] (suc n) e = cc
      numbered (x ∷ xs) zero e = cc
      numbered (x ∷ xs) (suc n) e =
          let (best, found, value) =
            last_by-numbered (λ (e : HandEvent J). e.sequence) (x ∷ xs) 1 n e in
          ap (value_or_zero_of (λ (e : HandEvent J). e.sequence)) found ∙ value ∙ omega arith

  create-IsNumbered :
      (hand : String) (n : ℕ) (row : HandEvent J) (rows : T (HandEvent J))
      → row.hand_id ≡ hand
      → row.sequence ≡ n + 1
      → IsNumbered hand n rows
      → IsNumbered hand (n + 1) (d.tables.create row rows)
  create-IsNumbered hand n row rows own number h =
      let mine : (row.hand_id === hand) ≡ true = (===_iff row.hand_id hand).1 own in
      let place : row.sequence ≡ 1 + n = number ∙ omega arith in
      ap (λ xs. map (λ (e : HandEvent J). e.sequence) (filter (λ e. e.hand_id === hand) xs))
        (tables.create_rows row rows)
      ∙ ap (map (λ (e : HandEvent J). e.sequence))
          (filter-create (λ (e : HandEvent J). e.hand_id === hand) (tables.rows rows) row mine)
      ∙ map-create (λ (e : HandEvent J). e.sequence) (hand_events hand rows) row
      ∙ rw (h, place) (indices_from-append 1 n)

  store_events-IsNumbered :
      (input : CommitActionInput J) (index n : ℕ) (events : List (ActionEvent J))
      (rows : T (HandEvent J))
      → IsNumbered input.hand_id n rows
      → IsNumbered input.hand_id (n + length events) (store_events d input index n events rows)
  unfolding store_events
  store_events-IsNumbered input index n [] rows h =
      subst (λ k. IsNumbered input.hand_id k rows) (omega arith) h
  store_events-IsNumbered input index n (event ∷ events) rows h =
      let row = event_row input index (n + 1) event in
      subst
        (λ k.
          IsNumbered input.hand_id k
            (store_events d input (index + 1) (n + 1) events (d.tables.create row rows)))
        (omega arith)
        (store_events-IsNumbered input (index + 1) (n + 1) events (d.tables.create row rows)
          (create-IsNumbered input.hand_id n row rows refl refl h))

  -- If the events of a hand are numbered from one without a gap, they still are after a commit that
  -- adds its events.
  pub commit_unless_done-IsNumbered :
      (input : CommitActionInput J) (now n : ℕ) (s : GameTables L T J)
      {r : GameTables L T J × DurableActionAck J}
      → commit_unless_done d none input now s ≡ ok r
      → IsNumbered input.hand_id n s.events
      → IsNumbered input.hand_id (n + length input.events) (r.0).events
  commit_unless_done-IsNumbered input now n s {r} h numbered =
      let (stored, _, same) = commit_unless_done-parts d tables input now s {r = r} h in
      subst
        (λ (x : GameTables L T J × DurableActionAck J).
          IsNumbered input.hand_id (n + length input.events) (x.0).events)
        same
        (subst
          (λ k.
            IsNumbered input.hand_id (n + length input.events)
              (store_events d input 0 k input.events s.events))
          (sym (last_sequence-IsNumbered input.hand_id n s.events numbered))
          (store_events-IsNumbered input 0 n input.events s.events numbered))
