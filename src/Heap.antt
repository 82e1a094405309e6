-- ===== src/Heap.antt =====
-- Go's container/heap, as far as the two priority queues of app/worker use it. The queues give the
-- order by their Less; `d` stands for an entry outside the slice, which no call reads.
use mailvault.Base.{
  ℕ, zero, suc, ◌+◌, ◌-◌, ◌*◌, ◌/◌, List, [], ◌∷◌, ◌++◌, Bool, ◌&&◌, ◌||◌, not, ltb, leb, ◌==◌,
  if◌then◌else◌, get_or, exchange, length, take,
}
pub mod Order
pub mod Up
pub mod Down
pub mod Laws

-- (j - 1) / 2, which is 0 at the root
abbrev pub parent : ℕ → ℕ
parent j = (j - 1) / 2

module _ {ℓ} {A : Type ℓ} (d : A) (less : A → A → Bool) where
  -- The loop of up: one round goes one level towards the root.
  unfoldable pub up : ℕ → List A → ℕ → List A
  up zero a j = a
  up (suc fuel) a j =
      let rest = up fuel (exchange d a (parent j) j) (parent j) in
      if parent j == j || not (less (get_or a j d) (get_or a (parent j) d)) then a else rest

  -- The child of `i` that down compares, the left one being there.
  unfoldable pub pick_child : List A → ℕ → ℕ → ℕ
  pick_child a i n =
      if ltb (2 * i + 1 + 1) n && less (get_or a (2 * i + 1 + 1) d) (get_or a (2 * i + 1) d)
      then 2 * i + 1 + 1
      else 2 * i + 1

  -- The loop of down within the first n entries.
  unfoldable pub down : ℕ → List A → ℕ → ℕ → List A
  down zero a i n = a
  down (suc fuel) a i n =
      let j = pick_child a i n in
      let rest = down fuel (exchange d a i j) j n in
      if leb n (2 * i + 1) || not (less (get_or a j d) (get_or a i d)) then a else rest

-- heap.Push: the slice grows at its end, and the new entry goes up.
unfoldable pub heap_push {ℓ} : {A : Type ℓ} → (A → A → Bool) → List A → A → List A
heap_push less a x = up x less (length a + 1) (a ++ x ∷ []) (length a)

-- heap.Pop on a slice that is not empty: the entry popped, and the slice left.
unfoldable pub heap_pop {ℓ} : {A : Type ℓ} → (A → A → Bool) → A → List A → A × List A
heap_pop less x xs =
    let n = length xs in
    let b = down x less (n + 1) (exchange x (x ∷ xs) 0 n) 0 n in (get_or b n x, take n b)
