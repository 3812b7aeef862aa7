-- ===== src/Engine/Showdown/Winners.antt =====
-- pots.ts: the winners of a pot.
use Prim.Native.Nat.{Ordering}
use porker_monorepo.Base.{
  ===_iff, ===_refl, >>=-eq-ok, All, All-imp, Bool, Bool-cases, List, String, [], ap, arith, false,
  includes, inl, inr, ok, ok-injective, or-true, refl, some, subst, sym, true, ◌++◌, ◌===◌, ◌||◌,
  ◌∙◌, ◌∷◌, ◌≡◌, ◌⊎◌,
}
use porker_monorepo.Engine.Evaluator.{HandScore, compare_hands, is_greater}
use porker_monorepo.Engine.Evaluator.Order.{NoBetter, compare_hands-flip, compare_hands_trans, flip}
use porker_monorepo.Engine.Showdown.{
  Leaders, best_ids, best_ids_from, consider, score_of, update_leaders,
}
use porker_monorepo.Engine.Table.{TableState}

abbrev pub is_tie : Ordering → Bool
is_tie Ordering.lt = false
is_tie Ordering.eq = true
is_tie Ordering.gt = false

tie-eq : (o : Ordering) → is_tie o ≡ true → o ≡ Ordering.eq
tie-eq Ordering.lt h = cc
tie-eq Ordering.eq h = refl
tie-eq Ordering.gt h = cc

self-eq : (o : Ordering) → o ≡ flip o → o ≡ Ordering.eq
self-eq Ordering.lt h = cc
self-eq Ordering.eq h = refl
self-eq Ordering.gt h = cc

compare_hands_self : (a : HandScore) → compare_hands a a ≡ Ordering.eq
compare_hands_self a = self-eq (compare_hands a a) (compare_hands-flip a a)

-- A player's score is not above the best, and he is a winner exactly if it equals the best.
abbrev pub Judged : TableState → HandScore → List String → String → Type 0
Judged state best ws id =
    (s : HandScore) × (score_of state id ≡ ok s)
    × NoBetter (compare_hands s best)
    × (includes ws id ≡ is_tie (compare_hands s best))

-- A winner's score equals the best.
abbrev pub Tied : TableState → HandScore → String → Type 0
Tied state best w =
    (s : HandScore) × (score_of state w ≡ ok s) × (compare_hands s best ≡ Ordering.eq)

Tied-includes :
    (state : TableState) (best : HandScore) (ws : List String) (id : String)
    → All (Tied state best) ws
    → includes ws id ≡ true
    → Tied state best id
Tied-includes state best [] id k h = cc
Tied-includes state best (w ∷ ws) id k h = elim (Bool-cases (w === id)) [
  | inl e ↦ subst (Tied state best) ((===_iff w id).0 e) (k.0)
  | inr e ↦ Tied-includes state best ws id k.1 (ground (arith, e))
]

-- Nobody who was not above the old best ties with a score above it.
below-apart :
    (a b s : HandScore)
    → NoBetter (compare_hands a b)
    → compare_hands s b ≡ Ordering.gt
    → NoBetter (compare_hands a s) × (is_tie (compare_hands a s) ≡ false)
below-apart a b s h up =
    let down : NoBetter (compare_hands b s) =
      subst NoBetter (sym (compare_hands-flip s b)) (ap (λ o. is_greater (flip o)) up) in
    let under = compare_hands_trans a b s h down in
    (
      under,
      elim (Bool-cases (is_tie (compare_hands a s))) [
        | inl e ↦
            let even : compare_hands a s ≡ Ordering.eq = tie-eq (compare_hands a s) e in
            let back : NoBetter (compare_hands s a) =
              subst NoBetter (sym (compare_hands-flip a s)) (ap (λ o. is_greater (flip o)) even) in
            let no : NoBetter (compare_hands s b) = compare_hands_trans s a b back h in
            absurd (ground (arith, no, ap is_greater up))
        | inr e ↦ e
      ],
    )

same-score :
    (state : TableState) (id : String) {s s' : HandScore}
    → score_of state id ≡ ok s
    → score_of state id ≡ ok s'
    → s ≡ s'
same-score state id h h' = ok-injective (sym h ∙ h')

includes-last :
    (ws : List String) (x id : String) → includes (ws ++ id ∷ []) x ≡ (includes ws x || id === x)
includes-last [] x id = ground arith
includes-last (w ∷ ws) x id = ground (arith, includes-last ws x id)

All-last :
    (P : String → Type 0) (ws : List String) (id : String) → All P ws → P id → All P (ws ++ id ∷ [])
All-last P [] id k h = (h, tt)
All-last P (w ∷ ws) id k h = (k.0, All-last P ws id k.1 h)

-- A new best score: all judged before are below it.
Judged-above :
    (state : TableState) (best s : HandScore) (ws : List String) (id x : String)
    → score_of state id ≡ ok s
    → compare_hands s best ≡ Ordering.gt
    → Judged state best ws x
    → Judged state s (id ∷ []) x
Judged-above state best s ws id x scored up (sx, score_x, below, _) =
    let (under, apart) = below-apart sx best s below up in
    let other : includes (id ∷ []) x ≡ false = elim (Bool-cases (id === x)) [
      | inl e ↦
          let score_x' : score_of state id ≡ ok sx =
            subst (λ j. score_of state j ≡ ok sx) (sym ((===_iff id x).0 e)) score_x in
          let alike : sx ≡ s = same-score state id score_x' scored in
          let no : NoBetter (compare_hands s best) =
            subst (λ y. NoBetter (compare_hands y best)) alike below in
          absurd (ground (arith, no, ap is_greater up))
      | inr e ↦ rw e refl
    ] in
    (sx, score_x, under, other ∙ sym apart)

-- A tie with the best: one more winner.
Judged-even :
    (state : TableState) (best s : HandScore) (ws : List String) (id x : String)
    → score_of state id ≡ ok s
    → compare_hands s best ≡ Ordering.eq
    → Judged state best ws x
    → Judged state best (ws ++ id ∷ []) x
Judged-even state best s ws id x scored even (sx, score_x, below, won) =
    let more : includes (ws ++ id ∷ []) x ≡ is_tie (compare_hands sx best) =
      elim (Bool-cases (id === x)) [
        | inl e ↦
            let score_x' : score_of state id ≡ ok sx =
              subst (λ j. score_of state j ≡ ok sx) (sym ((===_iff id x).0 e)) score_x in
            let alike : s ≡ sx = same-score state id scored score_x' in
            let tie : is_tie (compare_hands sx best) ≡ true =
              subst (λ y. is_tie (compare_hands y best) ≡ true) alike (ap is_tie even) in
            includes-last ws x id ∙ ground (arith, e, tie, won)
        | inr e ↦ includes-last ws x id ∙ ground (arith, e, won)
      ] in
    (sx, score_x, below, more)

Ordering-cases : (o : Ordering) → (o ≡ Ordering.lt) ⊎ ((o ≡ Ordering.eq) ⊎ (o ≡ Ordering.gt))
Ordering-cases Ordering.lt = inl refl
Ordering-cases Ordering.eq = inr (inl refl)
Ordering-cases Ordering.gt = inr (inr refl)

-- The winners so far among the players considered.
record Leading (state : TableState) (best : HandScore) (ws considered : List String) : Type 0 where
  judged : All (Judged state best ws) considered
  tied : All (Tied state best) ws

first_leader :
    (state : TableState) (s : HandScore) (id : String)
    → score_of state id ≡ ok s
    → Leading state s (id ∷ []) (id ∷ [])
first_leader state s id scored =
    let even = compare_hands_self s in
    let in_it : includes (id ∷ []) id ≡ true = ground (arith, ===_refl id) in
    record {
      judged = ((s, scored, ap is_greater even, in_it ∙ sym (ap is_tie even)), tt);
      tied = ((s, scored, even), tt);
    }

-- A player below the best is no winner.
lower-Judged :
    (state : TableState) (best s : HandScore) (ws : List String) (id : String)
    → score_of state id ≡ ok s
    → compare_hands s best ≡ Ordering.lt
    → All (Tied state best) ws
    → Judged state best ws id
lower-Judged state best s ws id scored low k =
    let out : includes ws id ≡ false = elim (Bool-cases (includes ws id)) [
      | inl e ↦
          let (s', scored', even) = Tied-includes state best ws id k e in
          let alike : s' ≡ s = same-score state id scored' scored in
          let no : is_tie (compare_hands s best) ≡ true =
            ap is_tie (subst (λ y. compare_hands y best ≡ Ordering.eq) alike even) in
          absurd (ground (arith, no, ap is_tie low))
      | inr e ↦ e
    ] in
    (s, scored, ap is_greater low, out ∙ sym (ap is_tie low))

even-Judged :
    (state : TableState) (best s : HandScore) (ws : List String) (id : String)
    → score_of state id ≡ ok s
    → compare_hands s best ≡ Ordering.eq
    → Judged state best (ws ++ id ∷ []) id
even-Judged state best s ws id scored even =
    let in_it : includes (ws ++ id ∷ []) id ≡ true =
      includes-last ws id id ∙ ground (arith, ===_refl id, or-true (includes ws id)) in
    (s, scored, ap is_greater even, in_it ∙ sym (ap is_tie even))

-- The leaders after one more player.
consider-Leading :
    (state : TableState) (best s : HandScore) (ws considered : List String) (id : String)
    → score_of state id ≡ ok s
    → Leading state best ws considered
    → (best' : HandScore) × (ws' : List String) × (consider id s
          (record { best = some best; winners = ws })
        ≡ record { best = some best'; winners = ws' })
      × Leading state best' ws' (id ∷ considered)
unfolding consider
consider-Leading state best s ws considered id scored k =
    let l : Leaders = record { best = some best; winners = ws } in
    elim (Ordering-cases (compare_hands s best)) [
      | inl low ↦ (
        best,
        ws,
        ap (λ o. update_leaders o id s l) low,
        record {
          judged = (lower-Judged state best s ws id scored low k.tied, k.judged);
          tied = k.tied;
        },
      )
      | inr (inl even) ↦ (
        best,
        ws ++ id ∷ [],
        ap (λ o. update_leaders o id s l) even,
        record {
          judged = (
            even-Judged state best s ws id scored even,
            All-imp (Judged state best ws) (Judged state best (ws ++ id ∷ [])) considered
                (λ x. Judged-even state best s ws id x scored even) k.judged,
          );
          tied = All-last (Tied state best) ws id k.tied (s, scored, even);
        },
      )
      | inr (inr up) ↦
          let alone = first_leader state s id scored in
          (
            s,
            id ∷ [],
            ap (λ o. update_leaders o id s l) up,
            record {
              judged = (
                alone.judged.0,
                All-imp (Judged state best ws) (Judged state s (id ∷ [])) considered
                    (λ x. Judged-above state best s ws id x scored up) k.judged,
              );
              tied = alone.tied;
            },
          )
    ]

best_ids_from-Leading :
    (state : TableState) (ids : List String) (best : HandScore) (ws considered : List String)
    {out : List String}
    → best_ids_from state ids (record { best = some best; winners = ws }) ≡ ok out
    → Leading state best ws considered
    → (top : HandScore) × All (Judged state top out) considered
      × All (Judged state top out) ids
      × All (Tied state top) out
unfolding best_ids_from
best_ids_from-Leading state [] best ws considered {out} h k =
    let same : ws ≡ out = ok-injective h in
    (
      best,
      subst (λ l. All (Judged state best l) considered) same k.judged,
      tt,
      subst (All (Tied state best)) same k.tied,
    )
best_ids_from-Leading state (id ∷ ids) best ws considered {out} h k =
    let (s, scored, rest) = >>=-eq-ok (score_of state id) _ h in
    let (best', ws', now, k') = consider-Leading state best s ws considered id scored k in
    let rest' : best_ids_from state ids (record { best = some best'; winners = ws' }) ≡ ok out =
      subst (λ l. best_ids_from state ids l ≡ ok out) now rest in
    let (top, judged, later, tied) =
      best_ids_from-Leading state ids best' ws' (id ∷ considered) {out = out} rest' k' in
    (top, judged.1, (judged.0, later), tied)

-- Where `bestIds` returns for some players, there is a best score: nobody's score beats it, the
-- players with that score are exactly those who win, and every winner has it.
pub best_ids-wins :
    (state : TableState) (id : String) (ids : List String) {ws : List String}
    → best_ids state (id ∷ ids) ≡ ok ws
    → (top : HandScore) × All (Judged state top ws) (id ∷ ids) × All (Tied state top) ws
unfolding best_ids best_ids_from consider
best_ids-wins state id ids {ws} h =
    let (s, scored, rest) = >>=-eq-ok (score_of state id) _ h in
    let (top, first, later, tied) =
      best_ids_from-Leading state ids s (id ∷ []) (id ∷ []) {out = ws} rest
        (first_leader state s id scored) in
    (top, (first.0, later), tied)
