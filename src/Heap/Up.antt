-- ===== src/Heap/Up.antt =====
-- up: the new entry of a push finds its place.
use mathlib.Core.List.{Perm}
use mathlib.Core.List.Perm
use mailvault.Base.{
  ℕ, zero, suc, ◌<◌, ◌≤◌, ◌≡◌, ◌≢◌, Bool, true, List, arith, ◌==◌, if◌then◌else◌, get_or, length,
  exchange, get_or-exchange, length-exchange, exchange-perm, Bool-cases, inl, inr, ℕ_discrete,
  ==_iff, ==-false,
}
use mailvault.Heap.{parent, up}
use mailvault.Heap.Order.{IsOrder, Below, IsHeap}

module _ {ℓ} {A : Type ℓ} (d : A) (less : A → A → Bool) (order : IsOrder less) where
  -- Only the edge above j may be out of order, and j may be left out of the path through it.
  pub record UpInv (a : List A) (n j : ℕ) : Type 0 where
    pub inside : j < n
    pub room : n ≤ length a
    pub edges : (c : ℕ) → 0 < c → c < n → c ≢ j → Below d less a (parent c) c
    pub bridged : (c : ℕ) → 0 < c → c < n → parent c ≡ j → 0 < j → Below d less a (parent j) c

  module _ (a : List A) (n j : ℕ) (v : UpInv a n j) (pos : parent j ≢ j)
      (wrong : less (get_or a j d) (get_or a (parent j) d) ≡ true) where
    at :
        (c : ℕ)
        → get_or (exchange d a (parent j) j) c d ≡ (
            if j == c
            then get_or a (parent j) d
            else if parent j == c
            then get_or a j d
            else get_or a c d)
    at c =
        get_or-exchange d a (parent j) j c (omega (arith, v.room, v.inside))
          (omega (arith, v.room, v.inside))

    edges-exchange :
        (c : ℕ)
        → 0 < c
        → c < n
        → c ≢ parent j
        → Below d less (exchange d a (parent j) j) (parent c) c
    edges-exchange c p q r = ground (
      arith,
      at c,
      at (parent c),
      v.edges c,
      v.bridged c,
      order.asym (get_or a j d) (get_or a (parent j) d),
      order.through (get_or a j d) (get_or a (parent j) d) (get_or a c d),
    )

    bridged-exchange :
        (c : ℕ)
        → 0 < c
        → c < n
        → parent c ≡ parent j
        → 0 < parent j
        → Below d less (exchange d a (parent j) j) (parent (parent j)) c
    bridged-exchange c p q r s = ground (
      arith,
      at c,
      at (parent (parent j)),
      v.inside,
      v.edges c,
      v.edges (parent j),
      order.through (get_or a (parent (parent j)) d) (get_or a (parent j) d) (get_or a c d),
    )

    exchange-UpInv : UpInv (exchange d a (parent j) j) n (parent j)
    exchange-UpInv = record {
      inside = omega (arith, v.inside);
      room = rw length-exchange v.room;
      edges = edges-exchange;
      bridged = bridged-exchange;
    }

  -- With one round for each level, up ends with a heap of the same entries.
  pub up_restores :
      (fuel : ℕ) (a : List A) (n j : ℕ)
      → j < fuel
      → UpInv a n j
      → IsHeap d less (up d less fuel a j) n × Perm (up d less fuel a j) a
  unfolding up
  up_restores zero a n j f v = absurd (omega arith)
  up_restores (suc fuel) a n j f v = elim (ℕ_discrete (parent j) j) [
    | yes root ↦ rw ((==_iff (parent j) j).1 root) (λ c p q. v.edges c p q (omega arith), Perm.rfl)
    | no pos ↦ elim (Bool-cases (less (get_or a j d) (get_or a (parent j) d))) [
      | inl wrong ↦
          let (heap, perm) =
            up_restores fuel (exchange d a (parent j) j) n (parent j) (omega arith)
              (exchange-UpInv a n j v pos wrong) in
          let inside : j < length a = omega (arith, v.inside, v.room) in
          rw (==-false (parent j) j pos, wrong)
            (heap, Perm.trans perm (exchange-perm d a (parent j) j (omega arith) inside))
      | inr settled ↦
          rw (==-false (parent j) j pos, settled) (λ c p q. ground (arith, v.edges c), Perm.rfl)
    ]
  ]
