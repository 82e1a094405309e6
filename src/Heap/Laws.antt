-- ===== src/Heap/Laws.antt =====
-- What a push and a pop do to a heap.
use mathlib.Core.List.{Perm}
use mathlib.Core.List.Perm
use mailvault.Base.{
  ℕ, zero, suc, ◌+◌, ◌<◌, ◌≡◌, refl, ◌∙◌, Bool, false, List, [], ◌∷◌, ◌++◌, arith, All,
  if◌then◌else◌, ◌==◌, get_or, length, take, exchange, get_or-exchange, length-exchange,
  exchange-perm, length-append, get_or-append, snoc-perm, length-perm, take-snoc, get_or-take,
  length-take,
}
use mailvault.Heap.{parent, down, heap_push, heap_pop}
use mailvault.Heap.Order.{IsOrder, IsHeap, root_first}
use mailvault.Heap.Up.{up_restores}
use mailvault.Heap.Down.{DownInv, down_restores}

-- The whole slice is a heap, whatever stands for the entries outside of it.
abbrev pub IsHeapOf {ℓ} : {A : Type ℓ} → (A → A → Bool) → List A → Type ℓ
IsHeapOf {A = A} less a = (d : A) → IsHeap d less a (length a)

module _ {ℓ} {A : Type ℓ} where
  get_or_inside : (a : List A) (c : ℕ) (d e : A) → c < length a → get_or a c d ≡ get_or a c e
  get_or_inside [] c d e h = absurd (omega arith)
  get_or_inside (x ∷ a) zero d e h = refl
  get_or_inside (x ∷ a) (suc c) d e h = get_or_inside a c d e (omega arith)

  pub IsHeapOf-of :
      (less : A → A → Bool) (d : A) (a : List A) (n : ℕ)
      → length a ≡ n
      → IsHeap d less a n
      → IsHeapOf less a
  IsHeapOf-of less d a n size h e c p q =
      rw (get_or_inside a c e d q, get_or_inside a (parent c) e d (omega arith))
        (h c p (omega arith))

module _ {ℓ} {A : Type ℓ} where
  All-of_get_or {κ} :
      (P : A → Type κ) (d : A) (a : List A) → ((i : ℕ) → i < length a → P (get_or a i d)) → All P a
  All-of_get_or P d [] h = tt
  All-of_get_or P d (x ∷ a) h =
      (h 0 (omega arith), All-of_get_or P d a (λ i p. h (suc i) (omega arith)))

module _ {ℓ} {A : Type ℓ} (less : A → A → Bool) (order : IsOrder less) where
  -- A push keeps the heap order and adds exactly the entry.
  pub heap_push_correct :
      (a : List A) (x : A)
      → IsHeapOf less a
      → IsHeapOf less (heap_push less a x) × Perm (heap_push less a x) (x ∷ a)
  unfolding heap_push
  heap_push_correct a x h =
      let size : length (a ++ x ∷ []) ≡ length a + 1 = length-append a (x ∷ []) in
      let (heap, perm) =
        up_restores x less order (length a + 1) (a ++ x ∷ []) (length a + 1) (length a)
          (omega arith)
          (record {
            inside = omega arith;
            room = omega arith;
            edges = λ c p q r.
                ground (
                  arith,
                  h x c,
                  get_or-append x a (x ∷ []) c,
                  get_or-append x a (x ∷ []) (parent c),
                );
            bridged = λ c p q r s. absurd (omega arith);
          }) in
      (
        IsHeapOf-of less x _ (length a + 1) (length-perm perm ∙ size) heap,
        Perm.trans perm (snoc-perm a x),
      )

  -- What a pop leaves is a heap again; the entry popped is the root, with the rest it makes up the
  -- old slice, and no entry of the old slice comes before it.
  pub record Popped (a : List A) (y : A) (rest : List A) : Type ℓ where
    pub heap : IsHeapOf less rest
    pub same : Perm (y ∷ rest) a
    pub first : All (λ z. less z y ≡ false) a

  module _ (x : A) (xs : List A) (h : IsHeapOf less (x ∷ xs)) where
    abbrev moved : List A
    moved = exchange x (x ∷ xs) 0 (length xs)

    at :
        (c : ℕ)
        → get_or moved c x ≡ (
            if length xs == c
            then x
            else if 0 == c
            then get_or (x ∷ xs) (length xs) x
            else get_or (x ∷ xs) c x)
    at c = get_or-exchange x (x ∷ xs) 0 (length xs) c (omega arith) (omega arith)

    moved-DownInv : DownInv x less order moved (length xs) 0
    moved-DownInv = record {
      room = rw length-exchange (omega arith);
      edges = λ c p q r. ground (arith, at c, at (parent c), h x c);
      bridged = λ c p q r s. absurd (omega arith);
    }

    -- A pop from a heap keeps the heap order and takes an entry that no other comes before.
    pub heap_pop_correct : Popped (x ∷ xs) (heap_pop less x xs).0 (heap_pop less x xs).1
    unfolding heap_pop
    heap_pop_correct =
        let n = length xs in
        let (heap, perm, kept) =
          down_restores x less order (n + 1) moved n 0 (omega arith) moved-DownInv in
        let b = down x less (n + 1) moved 0 n in
        let back : Perm b (x ∷ xs) =
          Perm.trans perm (exchange-perm x (x ∷ xs) 0 n (omega arith) (omega arith)) in
        let size : length b ≡ suc n = length-perm back in
        let root : get_or b n x ≡ x = kept n (omega arith) ∙ ground (arith, at n) in
        record {
          heap = IsHeapOf-of less x (take n b) n (length-take x n b (omega arith)) (λ c p q.
              rw (get_or-take x n b c q, get_or-take x n b (parent c) (omega arith)) (heap c p q));
          same =
              Perm.trans (Perm.symm (snoc-perm (take n b) (get_or b n x)))
                (rw (take-snoc x n b size) back);
          first =
              All-of_get_or (λ z. less z (get_or b n x) ≡ false) x (x ∷ xs)
                (λ i p. rw root (
                  root_first x less order (suc i) (x ∷ xs) (length (x ∷ xs)) i (h x) (omega arith)
                    p));
        }
