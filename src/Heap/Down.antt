-- ===== src/Heap/Down.antt =====
-- down: the entry that a pop moves to the root finds its place.
use mathlib.Core.List.{Perm}
use mathlib.Core.List.Perm
use mailvault.Base.{
  ℕ, zero, suc, ◌+◌, ◌-◌, ◌*◌, ◌<◌, ◌≤◌, ◌≡◌, ◌≢◌, refl, ◌∙◌, Bool, true, List, arith, ◌==◌,
  if◌then◌else◌, get_or, length, exchange, get_or-exchange, length-exchange, exchange-perm,
  Bool-cases, inl, inr, ◌⊎◌, leb,
}
use mailvault.Heap.{parent, pick_child, down}
use mailvault.Heap.Order.{IsOrder, Below, IsHeap, Below-irrefl}

module _ {ℓ} {A : Type ℓ} (d : A) (less : A → A → Bool) (order : IsOrder less) where
  -- Only the edges below i may be out of order, and i may be left out of the paths through it.
  pub record DownInv (a : List A) (n i : ℕ) : Type 0 where
    pub room : n ≤ length a
    pub edges : (c : ℕ) → 0 < c → c < n → parent c ≢ i → Below d less a (parent c) c
    pub bridged : (c : ℕ) → 0 < c → c < n → parent c ≡ i → 0 < i → Below d less a (parent i) c

  -- m is a child of i, and no child of i comes before it.
  record IsFirstChild (a : List A) (n i m : ℕ) : Type 0 where
    inside : m < n
    child : (m ≡ 2 * i + 1) ⊎ (m ≡ 2 * i + 1 + 1)
    first : (c : ℕ) → 0 < c → c < n → parent c ≡ i → Below d less a m c

  pick_child-IsFirstChild :
      (a : List A) (n i : ℕ) → 2 * i + 1 < n → IsFirstChild a n i (pick_child d less a i n)
  unfolding pick_child
  pick_child-IsFirstChild a n i h = record {
    inside = ground arith;
    child = ground arith;
    first = λ c p q r. ground (
      arith,
      Below-irrefl d less order a c,
      order.asym (get_or a (2 * i + 1 + 1) d) (get_or a (2 * i + 1) d),
    );
  }

  module _ (a : List A) (n i m : ℕ) (v : DownInv a n i) (s : IsFirstChild a n i m)
      (wrong : less (get_or a m d) (get_or a i d) ≡ true) where
    at :
        (c : ℕ)
        → get_or (exchange d a i m) c d
          ≡ (if m == c then get_or a i d else if i == c then get_or a m d else get_or a c d)
    at c =
        get_or-exchange d a i m c (omega (arith, v.room, s.inside, s.child))
          (omega (arith, v.room, s.inside))

    edges-exchange :
        (c : ℕ) → 0 < c → c < n → parent c ≢ m → Below d less (exchange d a i m) (parent c) c
    edges-exchange c p q r = ground (
      arith,
      at c,
      at (parent c),
      v.edges c,
      v.bridged m,
      s.first c,
      s.child,
      order.asym (get_or a m d) (get_or a i d),
    )

    bridged-exchange :
        (c : ℕ)
        → 0 < c
        → c < n
        → parent c ≡ m
        → 0 < m
        → Below d less (exchange d a i m) (parent m) c
    bridged-exchange c p q r t = ground (arith, at c, at (parent m), v.edges c, s.child)

    exchange-DownInv : DownInv (exchange d a i m) n m
    exchange-DownInv = record {
      room = rw length-exchange v.room;
      edges = edges-exchange;
      bridged = bridged-exchange;
    }

  -- With one round for each level, down ends with a heap of the same entries in the first n places,
  -- and the places from n on keep theirs.
  pub down_restores :
      (fuel : ℕ) (a : List A) (n i : ℕ)
      → n - i < fuel
      → DownInv a n i
      → IsHeap d less (down d less fuel a i n) n
        × Perm (down d less fuel a i n) a
        × ((c : ℕ) → n ≤ c → get_or (down d less fuel a i n) c d ≡ get_or a c d)
  unfolding down
  down_restores zero a n i f v = absurd (omega arith)
  down_restores (suc fuel) a n i f v = elim (Bool-cases (leb n (2 * i + 1))) [
    | inl leaf ↦ rw leaf (λ c p q. v.edges c p q (ground arith), Perm.rfl, λ c p. refl)
    | inr inner ↦
        let m = pick_child d less a i n in
        let left : 2 * i + 1 < n = ground arith in
        let s = pick_child-IsFirstChild a n i left in
        elim (Bool-cases (less (get_or a m d) (get_or a i d))) [
          | inl wrong ↦
              let (heap, perm, kept) =
                down_restores fuel (exchange d a i m) n m (omega (arith, s.child))
                  (exchange-DownInv a n i m v s wrong) in
              let lower : m < length a = omega (arith, v.room, s.inside) in
              let upper : i < length a = omega (arith, v.room) in
              rw (inner, wrong)
                (
                  heap,
                  Perm.trans perm (exchange-perm d a i m upper lower),
                  λ c p. kept c p ∙ ground (arith, at a n i m v s wrong c, s.inside),
                )
          | inr settled ↦
              rw (inner, settled)
                (
                  λ c p q. ground (
                    arith,
                    v.edges c,
                    s.first c,
                    order.through (get_or a i d) (get_or a m d) (get_or a c d),
                  ),
                  Perm.rfl,
                  λ c p. refl,
                )
        ]
  ]
