-- ===== src/Base/Arrays.antt =====
-- Slices as lists under native indices: entries, writes and exchanges.
use mathlib.Core.List.{Perm, Permᴰ, perm_middle, append-nil}
use mathlib.Core.List.Perm
use mathlib.Core.Logic.{∥∥₁_elim}
use native.Mathlib.Nat.{ℕ_set}
use Prim.Native.Nat.{ℕ, zero, suc, ◌<◌, ◌≤◌}
use mathlib.Core.Path.{◌≡◌, refl, ap}
use mathlib.Core.List.{List, [], ◌∷◌, ◌++◌}
use native.Mathlib.Omega.{arith}
use mailvault.Base.Tests.{◌==◌, if◌then◌else◌}
use mailvault.Base.Lists.{length, take}

module _ {ℓ} {A : Type ℓ} where
  abbrev pub get_or : List A → ℕ → A → A
  get_or [] i d = d
  get_or (x ∷ xs) zero d = x
  get_or (x ∷ xs) (suc i) d = get_or xs i d

  abbrev pub set : List A → ℕ → A → List A
  set [] i v = []
  set (x ∷ xs) zero v = v ∷ xs
  set (x ∷ xs) (suc i) v = x ∷ set xs i v

  pub length-set : (xs : List A) (i : ℕ) (new : A) → length (set xs i new) ≡ length xs
  length-set (x ∷ xs) (suc i) new = omega (arith, length-set xs i new)
  length-set (x ∷ xs) zero new = refl
  length-set [] i new = refl

  pub get_or-set :
      (a : List A) (i c : ℕ) (v d : A)
      → i < length a
      → get_or (set a i v) c d ≡ (if i == c then v else get_or a c d)
  get_or-set [] i c v d h = absurd (omega arith)
  get_or-set (x ∷ a) zero zero v d h = refl
  get_or-set (x ∷ a) zero (suc c) v d h = ground arith
  get_or-set (x ∷ a) (suc i) zero v d h = ground arith
  get_or-set (x ∷ a) (suc i) (suc c) v d h = ground (arith, get_or-set a i c v d)

  rearranged_length : {xs ys : List A} → Permᴰ xs ys → length ys ≡ length xs
  rearranged_length (Permᴰ.trans first second) =
      omega (arith, rearranged_length first, rearranged_length second)
  rearranged_length (Permᴰ.swap x y) = refl
  rearranged_length (Permᴰ.cons x p) = omega (arith, rearranged_length p)
  rearranged_length Permᴰ.nil = refl

  pub snoc-perm : (a : List A) (x : A) → Perm (a ++ x ∷ []) (x ∷ a)
  snoc-perm a x = rw (append-nil a) at (perm_middle {a = x} a [])

  pub length-perm : {xs ys : List A} → Perm xs ys → length xs ≡ length ys
  length-perm p = ∥∥₁_elim p (ℕ_set _ _) (λ r. omega (arith, rearranged_length r))

  -- Writing `v` at `i` gives up the entry that stood there.
  set-perm : (a : List A) (i : ℕ) (v d : A) → i < length a → Perm (get_or a i d ∷ set a i v) (v ∷ a)
  set-perm [] i v d h = absurd (omega arith)
  set-perm (x ∷ a) zero v d h = Perm.swap v x a
  set-perm (x ∷ a) (suc i) v d h =
      Perm.trans (Perm.swap x (get_or a i d) (set a i v))
        (Perm.trans (Perm.cons x (set-perm a i v d (omega arith))) (Perm.swap v x a))

-- jq[i], jq[j] = jq[j], jq[i]
module _ {ℓ} {A : Type ℓ} (d : A) where
  unfoldable pub exchange : List A → ℕ → ℕ → List A
  exchange a i j = set (set a i (get_or a j d)) j (get_or a i d)

  pub length-exchange : (a : List A) (i j : ℕ) → length (exchange a i j) ≡ length a
  unfolding exchange
  length-exchange a i j = simp length-set

  pub get_or-exchange :
      (a : List A) (i j c : ℕ)
      → i < length a
      → j < length a
      → get_or (exchange a i j) c d
        ≡ (if j == c then get_or a i d else if i == c then get_or a j d else get_or a c d)
  unfolding exchange
  get_or-exchange a i j c hi hj = ground (
    arith,
    get_or-set (set a i (get_or a j d)) j c (get_or a i d) d,
    get_or-set a i c (get_or a j d) d,
    length-set a i (get_or a j d),
  )

  pub exchange-perm : (a : List A) (i j : ℕ) → i < length a → j < length a → Perm (exchange a i j) a
  unfolding exchange
  exchange-perm a i j hi hj =
      let same : get_or (set a i (get_or a j d)) j d ≡ get_or a j d =
        ground (arith, get_or-set a i j (get_or a j d) d) in
      let outer =
        rw same at (set-perm (set a i (get_or a j d)) j (get_or a i d) d (rw length-set hj)) in
      Perm.cons_inv (Perm.trans outer (set-perm a i (get_or a j d) d hi))

module _ {ℓ} {A : Type ℓ} (d : A) where
  -- A slice is its front and its last entry.
  pub take-snoc : (n : ℕ) (a : List A) → length a ≡ suc n → take n a ++ get_or a n d ∷ [] ≡ a
  take-snoc n [] h = absurd (omega arith)
  take-snoc zero (x ∷ []) h = refl
  take-snoc zero (x ∷ y ∷ a) h = absurd (omega arith)
  take-snoc (suc n) (x ∷ a) h = ap (◌∷◌ x) (take-snoc n a (omega arith))

  pub get_or-take : (n : ℕ) (a : List A) (c : ℕ) → c < n → get_or (take n a) c d ≡ get_or a c d
  get_or-take zero a c h = absurd (omega arith)
  get_or-take (suc n) [] c h = refl
  get_or-take (suc n) (x ∷ a) zero h = refl
  get_or-take (suc n) (x ∷ a) (suc c) h = get_or-take n a c (omega arith)

  pub length-take : (n : ℕ) (a : List A) → n ≤ length a → length (take n a) ≡ n
  length-take zero a h = refl
  length-take (suc n) [] h = absurd (omega arith)
  length-take (suc n) (x ∷ a) h = ap suc (length-take n a (omega arith))

  pub get_or-append : (a b : List A) (c : ℕ) → c < length a → get_or (a ++ b) c d ≡ get_or a c d
  get_or-append [] b c h = absurd (omega arith)
  get_or-append (x ∷ a) b zero h = refl
  get_or-append (x ∷ a) b (suc c) h = get_or-append a b c (omega arith)
