-- ===== src/Game/Combat/Choice.antt =====
-- The choice of findHit among the candidates: in whatever order and however often the ids come, the
-- target with the smallest id.
use rewind.Prelude.{
  ℕ, ◌≡◌, List, [], ◌∷◌, Bool, true, false, not, ◌&&◌, ◌||◌, ◌==◌, if◌then◌else◌, Option, none,
  some, arith, ap, ◌∙◌, Bool-cases, inl, inr, refl, ◌≤◌, All, All-pure, sym, All-map, leb,
}
use rewind.Prelude.Members.{has_nat}
use rewind.Game.World.{Player, find_player}
use rewind.Game.World.Order.{IsAscending}
use rewind.Game.Combat.Hits.{is_beaten, judge, pick_victim}

module _ {F : Type 0} where
  -- The first in the order of ids whom the projectile strikes and who did not shoot it.
  unfoldable pub first_struck : ℕ → (Player F → Bool) → List (Player F) → Option (Player F)
  first_struck owner struck [] = none
  first_struck owner struck (p ∷ ps) =
      if not (p.id == owner) && struck p then some p else first_struck owner struck ps

module _ {F : Type 0} (owner : ℕ) (struck : Player F → Bool) where
  abbrev is_target : Player F → Bool
  is_target p = not (p.id == owner) && struck p

  -- The first whom the projectile strikes among those whose ids were looked at.
  unfoldable first_among : (ℕ → Bool) → List (Player F) → Option (Player F)
  first_among seen [] = none
  first_among seen (p ∷ ps) = if is_target p && seen p.id then some p else first_among seen ps

  abbrev or_this : ℕ → (ℕ → Bool) → ℕ → Bool
  or_this id seen n = id == n || seen n

  find_player-below :
      (id b : ℕ) (ps : List (Player F)) → id ≤ b → IsAscending b ps → find_player id ps ≡ none
  unfolding find_player IsAscending
  find_player-below id b [] h a = refl
  find_player-below id b (p ∷ ps) h (l, _, a) =
      let other : (p.id == id) ≡ false = ground (arith, h, l) in
      rw other (find_player-below id p.id ps (omega (arith, h, l)) a)

  first_among-below :
      (id b : ℕ) (seen : ℕ → Bool) (ps : List (Player F))
      → id ≤ b
      → IsAscending b ps
      → first_among (or_this id seen) ps ≡ first_among seen ps
  unfolding first_among IsAscending
  first_among-below id b seen [] h a = refl
  first_among-below id b seen (p ∷ ps) h (l, _, a) =
      let other : (id == p.id) ≡ false = ground (arith, h, l) in
      let rest = first_among-below id p.id seen ps (omega (arith, h, l)) a in rw (other, rest) refl

  not_beaten :
      (id b : ℕ) (seen : ℕ → Bool) (ps : List (Player F))
      → id ≤ b
      → IsAscending b ps
      → is_beaten id (first_among seen ps) ≡ false
  unfolding first_among IsAscending is_beaten
  not_beaten id b seen [] h a = refl
  not_beaten id b seen (p ∷ ps) h (l, _, a) = elim (Bool-cases (is_target p && seen p.id)) [
    | inl e ↦ rw e (ground (arith, h, l))
    | inr e ↦ rw e (not_beaten id p.id seen ps (omega (arith, h, l)) a)
  ]

  unfoldable consider : List (Player F) → ℕ → Option (Player F) → Option (Player F)
  consider ps id best =
      if id == owner
      then best
      else if is_beaten id best
      then best
      else judge struck (find_player id ps) best

  consider-first :
      (id b : ℕ) (seen : ℕ → Bool) (ps : List (Player F))
      → IsAscending b ps
      → consider ps id (first_among seen ps) ≡ first_among (or_this id seen) ps
  unfolding consider first_among IsAscending is_beaten judge find_player
  consider-first id b seen [] a = ground arith
  consider-first id b seen (p ∷ ps) (l, f, a) =
      let rest = consider-first id p.id seen ps a in
      elim (Bool-cases (is_target p && seen p.id)) [
        | inl e ↦
            let e' : (is_target p && or_this id seen p.id) ≡ true = ground (arith, e) in
            rw (e, e')
              (elim (Bool-cases (leb p.id id)) [
                | inl k ↦ rw k (ground arith)
                | inr k ↦
                    let other : (p.id == id) ≡ false = ground (arith, k) in
                    let before : id ≤ p.id = ground (arith, k) in
                    let absent : find_player id ps ≡ none = find_player-below id p.id ps before a in
                    rw (k, other, absent) (ground arith)
              ])
        | inr e ↦ elim (Bool-cases (p.id == id)) [
          | inl k ↦
              let here : (id == p.id) ≡ true = ground (arith, k) in
              let upto : id ≤ p.id = ground (arith, k) in
              let free = not_beaten id p.id seen ps upto a in
              let same = first_among-below id p.id seen ps upto a in
              elim (Bool-cases (id == owner)) [
                | inl o ↦
                    let own : (p.id == owner) ≡ true = ground (arith, k, o) in
                    rw (e, o, own, same) refl
                | inr o ↦
                    let own : (p.id == owner) ≡ false = ground (arith, k, o) in
                    rw (e, o, own, free, here, k, same) (ground arith)
              ]
          | inr k ↦
              let other : (id == p.id) ≡ false = ground (arith, k) in
              let e' : (is_target p && or_this id seen p.id) ≡ false = ground (arith, e, other) in
              rw (e, e', k) rest
        ]
      ]

  abbrev or_these : List ℕ → (ℕ → Bool) → ℕ → Bool
  or_these ids seen n = has_nat n ids || seen n

  first_among-cong :
      (f g : ℕ → Bool) (ps : List (Player F))
      → All (λ (p : Player F). is_target p ≡ true → f p.id ≡ g p.id) ps
      → first_among f ps ≡ first_among g ps
  unfolding first_among
  first_among-cong f g [] h = refl
  first_among-cong f g (p ∷ ps) (h, hs) =
      let rest = first_among-cong f g ps hs in
      elim (Bool-cases (is_target p)) [ inl e ↦ rw (e, h e, rest) refl | inr e ↦ rw (e, rest) refl ]

  pick_victim-among :
      (b : ℕ) (ps : List (Player F)) (ids : List ℕ) (seen : ℕ → Bool)
      → IsAscending b ps
      → pick_victim owner struck ps ids (first_among seen ps) ≡ first_among (or_these ids seen) ps
  unfolding pick_victim has_nat consider
  pick_victim-among b ps [] seen a = refl
  pick_victim-among b ps (id ∷ ids) seen a =
      ap (pick_victim owner struck ps ids) (consider-first id b seen ps a)
      ∙ pick_victim-among b ps ids (or_this id seen) a
      ∙ first_among-cong (or_these ids (or_this id seen)) (or_these (id ∷ ids) seen) ps
          (All-pure (λ p _. ground arith) ps)

  among-none : (ps : List (Player F)) → first_among (λ n. false) ps ≡ none
  unfolding first_among
  among-none [] = refl
  among-none (p ∷ ps) =
      let no : (is_target p && false) ≡ false = ground arith in rw no (among-none ps)

  among-all : (ps : List (Player F)) → first_among (λ n. true) ps ≡ first_struck owner struck ps
  unfolding first_among first_struck
  among-all [] = refl
  among-all (p ∷ ps) = ground (arith, among-all ps)

  -- If every target is among the candidates, the choice is the first target.
  pub pick_victim-first :
      (b : ℕ) (ps : List (Player F)) (ids : List ℕ)
      → IsAscending b ps
      → All (λ (p : Player F). is_target p ≡ true → has_nat p.id ids ≡ true) ps
      → pick_victim owner struck ps ids none ≡ first_struck owner struck ps
  pick_victim-first b ps ids a h =
      ap (pick_victim owner struck ps ids) (sym (among-none ps))
      ∙ pick_victim-among b ps ids (λ n. false) a
      ∙ first_among-cong (or_these ids (λ n. false)) (λ n. true) ps
          (All-map (λ p k t. ground (arith, k t)) ps h)
      ∙ among-all ps
