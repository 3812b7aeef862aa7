-- ===== src/Engine/Pots/Layers.antt =====
-- pots.ts: the pots as layers of the commitments.
use porker_monorepo.Base.{
  ===_refl, All, Bool-cases, List, String, [], ap, append-nil, append_assoc, arith, false,
  if◌then◌else◌, includes, inl, inr, keys, leb, length, min, refl, subst, suc, sum_by, sym, true, ℕ,
  ◌*◌, ◌++◌, ◌-◌, ◌<◌, ◌∙◌, ◌∷◌, ◌≡◌, ◌≤◌,
}
use porker_monorepo.Engine.Pots.{
  Pot, PotBuildResult, add_level, build_levels, build_pots, contributors, eligible_of, pot_levels,
}
use porker_monorepo.Engine.Pots.Eligible.{pot_levels-paid}
use porker_monorepo.Engine.Pots.Payouts.{Known, all-keys-insert}
use porker_monorepo.Engine.Pots.Total.{
  Ascends, Ascends-any, Covers, Covers-next, pot_levels-Ascends, pot_levels-Covers-from,
}
use porker_monorepo.Engine.Table.{TablePlayer, player_ids}

-- What a commitment has between two levels.
abbrev pub slice : ℕ → ℕ → TablePlayer → ℕ
slice low high p = min p.hand_committed high - low

-- A pot is the layer of all commitments between the level below it and its own: it takes from every
-- player what he has there, at least two players have paid all of it, nobody has stopped inside, and
-- those of the payers who have not folded can win it.
pub record Layer (ps : List TablePlayer) (low : ℕ) (pot : Pot) : Type 0 where
  pub level : ℕ
  pub rises : low < level
  pub amount : pot.amount ≡ sum_by (λ p. slice low level p) ps
  pub contested : 2 ≤ length (contributors level ps)
  pub whole : contributors (suc low) ps ≡ contributors level ps
  pub eligible : pot.eligible ≡ eligible_of (contributors level ps)

-- The layers follow each other from the bottom, and above the last one there is at most one player,
-- who alone may have a refund.
abbrev pub Layered : List TablePlayer → List (String × ℕ) → ℕ → List Pot → Type 0
Layered ps refunds low [] =
    (length (contributors (suc low) ps) ≤ 1) × Known (contributors (suc low) ps) (keys refunds)
Layered ps refunds low (pot ∷ pots) =
    (layer : Layer ps low pot) × Layered ps refunds layer.level pots

slice-sum :
    (n l : ℕ) (ls : List ℕ) (ps : List TablePlayer)
    → Ascends n (l ∷ ls)
    → Covers n (l ∷ ls) ps
    → sum_by (λ p. slice n l p) ps ≡ (l - n) * length (contributors l ps)
slice-sum n l ls [] a c = omega arith
slice-sum n l ls (p ∷ ps) a c =
    let rest = slice-sum n l ls ps a c.1 in
    let above = Ascends-any l p.hand_committed ls a.1 in
    elim (Bool-cases (leb l p.hand_committed)) [
      | inl e ↦
          let mine : slice n l p ≡ l - n = ground (arith, e) in rw e (omega (arith, rest, mine))
      | inr e ↦
          let low : p.hand_committed ≤ n = ground (arith, e, c.0, above, a.0) in
          let mine : slice n l p ≡ 0 = ground (arith, e, low) in rw e (omega (arith, rest, mine))
    ]

-- Nobody has stopped between two levels that follow each other.
contributors-whole :
    (n l : ℕ) (ls : List ℕ) (ps : List TablePlayer)
    → Ascends n (l ∷ ls)
    → Covers n (l ∷ ls) ps
    → contributors (suc n) ps ≡ contributors l ps
contributors-whole n l ls [] a c = refl
contributors-whole n l ls (p ∷ ps) a c =
    let rest = contributors-whole n l ls ps a c.1 in
    let above = Ascends-any l p.hand_committed ls a.1 in
    elim (Bool-cases (leb l p.hand_committed)) [
      | inl e ↦
          let low : leb (suc n) p.hand_committed ≡ true = ground (arith, e, a.0) in
          rw (e, low) (ap (λ r. p ∷ r) rest)
      | inr e ↦
          let low : leb (suc n) p.hand_committed ≡ false = ground (arith, e, c.0, above, a.0) in
          rw (e, low) rest
    ]

contributors-none : (n : ℕ) (ps : List TablePlayer) → Covers n [] ps → contributors (suc n) ps ≡ []
contributors-none n [] c = refl
contributors-none n (p ∷ ps) c =
    let low : leb (suc n) p.hand_committed ≡ false = ground (arith, c.0) in
    rw low (contributors-none n ps c.1)

-- Whoever has paid a higher level is among those who have paid a lower one.
contributors-higher :
    (n l : ℕ) (ps : List TablePlayer)
    → n ≤ l
    → contributors l ps ≡ contributors l (contributors n ps)
contributors-higher n l [] h = refl
contributors-higher n l (p ∷ ps) h =
    let rest = contributors-higher n l ps h in
    elim (Bool-cases (leb n p.hand_committed)) [
      | inl e ↦ rw e (ap (λ r. if leb l p.hand_committed then p ∷ r else r) rest)
      | inr e ↦ let high : leb l p.hand_committed ≡ false = ground (arith, e) in rw (e, high) rest
    ]

alone-stays :
    (n l : ℕ) (ps : List TablePlayer) (p : TablePlayer)
    → contributors n ps ≡ p ∷ []
    → n ≤ l
    → 0 < length (contributors l ps)
    → contributors l ps ≡ p ∷ []
alone-stays n l ps p alone h some_have =
    let same : contributors l ps ≡ contributors l (p ∷ []) =
      contributors-higher n l ps h ∙ ap (contributors l) alone in
    let some_paid : 0 < length (contributors l (p ∷ [])) =
      subst (λ qs. 0 < length qs) same some_have in
    same ∙ ground (arith, some_paid)

-- Once one player is left, the levels only add to his refund.
build_levels-refunds :
    (ps : List TablePlayer) (p : TablePlayer) (low n : ℕ) (ls : List ℕ) (r : PotBuildResult)
    → contributors (suc low) ps ≡ p ∷ []
    → low ≤ n
    → Ascends n ls
    → All (λ l. 0 < length (contributors l ps)) ls
    → Known (p ∷ []) (keys r.refunds)
    → ((build_levels ps n ls r).pots ≡ r.pots)
      × Known (p ∷ []) (keys (build_levels ps n ls r).refunds)
unfolding build_levels add_level
build_levels-refunds ps p low n [] r alone h a k known = (refl, known)
build_levels-refunds ps p low n (l ∷ ls) r alone h a k known =
    let payer : contributors l ps ≡ p ∷ [] =
      alone-stays (suc low) l ps p alone (omega (arith, a.0)) k.0 in
    let self : includes (player_ids (p ∷ [])) p.id ≡ true = ground (arith, ===_refl p.id) in
    let after =
      λ (qs : List TablePlayer). build_levels ps l ls (add_level ((l - n) * length qs) qs r) in
    subst (λ qs. ((after qs).pots ≡ r.pots) × Known (p ∷ []) (keys (after qs).refunds)) (sym payer)
      (build_levels-refunds ps p low l ls (add_level ((l - n) * 1) (p ∷ []) r) alone
        (omega (arith, a.0)) a.1 k.1
        (all-keys-insert (includes (player_ids (p ∷ []))) p.id _ r.refunds self known))

build_levels-Layered :
    (ps : List TablePlayer) (n : ℕ) (ls : List ℕ) (r : PotBuildResult)
    → Ascends n ls
    → Covers n ls ps
    → All (λ l. 0 < length (contributors l ps)) ls
    → r.refunds ≡ []
    → (more : List Pot) × ((build_levels ps n ls r).pots ≡ r.pots ++ more)
      × Layered ps (build_levels ps n ls r).refunds n more
unfolding build_levels add_level
build_levels-Layered ps n [] r a c k e =
    let nobody = contributors-none n ps c in
    ([], sym (append-nil r.pots), rw (nobody, e) (omega arith, refl))
build_levels-Layered ps n (l ∷ ls) r a c k e =
    next_level (λ r' e'. build_levels-Layered ps l ls r' a.1 (Covers-next n l ls ps a.0 c) k.1 e')
      (contributors l ps) refl
  where
    next_level :
        ((r' : PotBuildResult)
          → r'.refunds ≡ []
          → (more : List Pot) × ((build_levels ps l ls r').pots ≡ r'.pots ++ more)
            × Layered ps (build_levels ps l ls r').refunds l more)
        → (paying : List TablePlayer) → contributors l ps ≡ paying
        → (more : List Pot) × ((build_levels ps l ls
              (add_level ((l - n) * length paying) paying r)).pots
            ≡ r.pots ++ more)
          × Layered ps
              (build_levels ps l ls (add_level ((l - n) * length paying) paying r)).refunds
              n
              more
    next_level again [] those = absurd (omega (arith, k.0, ap length those))
    next_level again (p ∷ []) those =
        let alone : contributors (suc n) ps ≡ p ∷ [] = contributors-whole n l ls ps a c ∙ those in
        let self : includes (player_ids (p ∷ [])) p.id ≡ true = ground (arith, ===_refl p.id) in
        let none_yet : Known (p ∷ []) (keys r.refunds) = rw e refl in
        let (kept, known) =
          build_levels-refunds ps p n l ls _ alone (omega (arith, a.0)) a.1 k.1
            (all-keys-insert (includes (player_ids (p ∷ []))) p.id _ r.refunds self none_yet) in
        ([], kept ∙ sym (append-nil r.pots), rw alone (omega arith, known))
    next_level again (p ∷ q ∷ qs) those =
        let paying = p ∷ q ∷ qs in
        let pot : Pot = record {
          amount = (l - n) * length paying;
          eligible = eligible_of paying;
        } in
        let (more, grown, layers) = again (add_level ((l - n) * length paying) paying r) e in
        (
          pot ∷ more,
          grown ∙ append_assoc r.pots (pot ∷ []) more,
          (
            record {
              level = l;
              rises = a.0;
              amount = sym (slice-sum n l ls ps a c ∙ ap (λ qs. (l - n) * length qs) those);
              contested = rw those (omega arith);
              whole = contributors-whole n l ls ps a c;
              eligible = ap eligible_of (sym those);
            },
            layers,
          ),
        )

-- The pots of `buildPots` are the layers of the commitments, from the bottom: each takes from every
-- player what he has put in between the level below and its own, nobody has stopped between these, at
-- least two players have paid the level, and the payers who have not folded are eligible. Above the
-- last pot there is at most one player, and nobody else has a refund.
pub build_pots-Layered :
    (ps : List TablePlayer) → Layered ps (build_pots ps).refunds 0 (build_pots ps).pots
unfolding build_pots
build_pots-Layered ps =
    let (more, all_pots, layers) =
      build_levels-Layered ps 0 (pot_levels ps) (record { pots = []; refunds = [] })
        (pot_levels-Ascends ps) (pot_levels-Covers-from ps ps (λ h m. m)) (pot_levels-paid ps)
        refl in
    subst (λ pots. Layered ps (build_pots ps).refunds 0 pots) (sym all_pots) layers
