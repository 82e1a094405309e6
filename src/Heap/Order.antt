-- ===== src/Heap/Order.antt =====
-- The heap order of a slice, and the laws of Less that it rests on.
use mailvault.Base.{
  ℕ, zero, suc, ◌<◌, ◌≡◌, Bool, true, false, List, arith, get_or, Bool-cases, inl, inr,
}
use mailvault.Heap.{parent}

-- A strict weak order.
pub record IsOrder {ℓ} {A : Type ℓ} (less : A → A → Bool) : Type ℓ where
  pub asym : (x y : A) → less x y ≡ true → less y x ≡ false
  pub through : (x y z : A) → less y x ≡ false → less z y ≡ false → less z x ≡ false

module _ {ℓ} {A : Type ℓ} (d : A) (less : A → A → Bool) where
  -- The entry at c does not come before the entry at p.
  abbrev pub Below : List A → ℕ → ℕ → Type 0
  Below a p c = less (get_or a c d) (get_or a p d) ≡ false

  abbrev pub IsHeap : List A → ℕ → Type 0
  IsHeap a n = (c : ℕ) → 0 < c → c < n → Below a (parent c) c

  module _ (order : IsOrder less) where
    pub Below-irrefl : (a : List A) (i : ℕ) → Below a i i
    Below-irrefl a i =
        let x = get_or a i d in
        elim (Bool-cases (less x x)) [ inl e ↦ order.asym x x e | inr e ↦ e ]

    pub root_first : (k : ℕ) (a : List A) (n i : ℕ) → IsHeap a n → i < k → i < n → Below a 0 i
    root_first zero a n i h f p = absurd (omega arith)
    root_first (suc k) a n zero h f p = Below-irrefl a 0
    root_first (suc k) a n (suc i) h f p =
        order.through _ _ _ (root_first k a n (parent (suc i)) h (omega arith) (omega arith))
          (h (suc i) (omega arith) p)
