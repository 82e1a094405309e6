-- ===== src/Webhook/Async/Lists.antt =====
-- Sums over the lists of jobs, and what picking an entry does to them.
use mailvault.Base.{
  ℕ, zero, suc, ◌+◌, ◌≡◌, refl, List, [], ◌∷◌, ◌++◌, Option, none, some, arith, length, All,
}
use mailvault.Webhook.Async.Handlers.{pick}

module _ {ℓ} {A : Type ℓ} where
  unfoldable pub tally : (A → ℕ) → List A → ℕ
  tally f [] = 0
  tally f (x ∷ xs) = f x + tally f xs

  pub tally-snoc : (f : A → ℕ) (xs : List A) (x : A) → tally f (xs ++ x ∷ []) ≡ tally f xs + f x
  unfolding tally
  tally-snoc f [] x = omega arith
  tally-snoc f (y ∷ xs) x = omega (arith, tally-snoc f xs x)

  -- What is true of a list with an entry picked from it.
  pub record Picked (xs : List A) (x : A) (others : List A) : Type ℓ where
    pub sums : (f : A → ℕ) → tally f xs ≡ f x + tally f others
    pub sizes : length xs ≡ suc (length others)

  abbrev pub PickedFrom : List A → Option (A × List A) → Type ℓ
  PickedFrom xs none = Unit
  PickedFrom xs (some (x, others)) = Picked xs x others

  pub pick-PickedFrom : (i : ℕ) (xs : List A) → PickedFrom xs (pick i xs)
  unfolding pick tally
  pick-PickedFrom i [] = tt
  pick-PickedFrom zero (x ∷ xs) = record { sums = λ f. refl; sizes = refl }
  pick-PickedFrom (suc i) (x ∷ xs) = later (pick i xs) (pick-PickedFrom i xs)
    where
      later :
          (o : Option (A × List A))
          → PickedFrom xs o
          → PickedFrom (x ∷ xs) (elim o [ none ↦ none | some (y, ys) ↦ some (y, x ∷ ys) ])
      later none p = tt
      later (some (y, ys)) p = record {
        sums = λ f. omega (arith, p.sums f);
        sizes = omega (arith, p.sizes);
      }

module _ {A : Type 0} (P : A → Type 0) where
  pub All-snoc : (xs : List A) (x : A) → All P xs → P x → All P (xs ++ x ∷ [])
  All-snoc [] x h p = (p, tt)
  All-snoc (y ∷ xs) x h p = (h.0, All-snoc xs x h.1 p)

  abbrev pub AllPicked : Option (A × List A) → Type 0
  AllPicked none = Unit
  AllPicked (some (x, others)) = P x × All P others

  pub pick-All : (i : ℕ) (xs : List A) → All P xs → AllPicked (pick i xs)
  unfolding pick
  pick-All i [] h = tt
  pick-All zero (x ∷ xs) h = h
  pick-All (suc i) (x ∷ xs) h = later (pick i xs) (pick-All i xs h.1)
    where
      later :
          (o : Option (A × List A))
          → AllPicked o
          → AllPicked (elim o [ none ↦ none | some (y, ys) ↦ some (y, x ∷ ys) ])
      later none p = tt
      later (some (y, ys)) p = (p.0, (h.0, p.1))
