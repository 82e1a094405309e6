-- ===== src/Domains/Rows.antt =====
-- The rows of the table of domains as a list, and what the writes of a row do to them.
use mailvault.Base.{
  ℕ, ◌≡◌, ◌≢◌, refl, sym, subst, ◌⊎◌, inl, inr, List, [], ◌∷◌, arith, if◌then◌else◌, ◌==◌, if_rule,
  All,
}
use mailvault.Domains.{Domain}

-- Some entry of a list.
abbrev pub Has : (Domain → Type 0) → List Domain → Type 0
Has P [] = ⊥
Has P (d ∷ rows) = P d ⊎ Has P rows

unfoldable pub replaced : Domain → List Domain → List Domain
replaced d [] = []
replaced d (e ∷ rows) = (if e.id == d.id then d else e) ∷ replaced d rows

unfoldable pub removed : ℕ → List Domain → List Domain
removed id [] = []
removed id (e ∷ rows) = let rest = removed id rows in if e.id == id then rest else e ∷ rest

pub All-replaced :
    (P : Domain → Type 0) (d : Domain) (rows : List Domain)
    → P d
    → All P rows
    → All P (replaced d rows)
unfolding replaced
All-replaced P d [] h a = tt
All-replaced P d (e ∷ rows) h a =
    (if_rule P (e.id == d.id) (λ _. h) (λ _. a.0), All-replaced P d rows h a.1)

pub All-removed :
    (P : Domain → Type 0) (id : ℕ) (rows : List Domain) → All P rows → All P (removed id rows)
unfolding removed
All-removed P id [] a = tt
All-removed P id (e ∷ rows) a =
    if_rule (All P) (e.id == id) (λ _. All-removed P id rows a.1)
      (λ _. (a.0, All-removed P id rows a.1))

pub Has-All :
    (P : Domain → Type 0) (d : Domain) (rows : List Domain)
    → All P rows
    → Has (λ x. d ≡ x) rows
    → P d
Has-All P d [] a h = elim h [ ]
Has-All P d (e ∷ rows) a (inl h) = subst P (sym h) a.0
Has-All P d (e ∷ rows) a (inr h) = Has-All P d rows a.1 h

pub Has-replaced :
    (P : Domain → Type 0) (d : Domain) (rows : List Domain)
    → ((e : Domain) → Has (λ x. e ≡ x) rows → e.id ≡ d.id → P e → P d)
    → Has P rows
    → Has P (replaced d rows)
unfolding replaced
Has-replaced P d [] same h = elim h [ ]
Has-replaced P d (e ∷ rows) same (inl h) =
    inl (if_rule P (e.id == d.id) (λ t. same e (inl refl) (ground (arith, t)) h) (λ _. h))
Has-replaced P d (e ∷ rows) same (inr h) = inr (Has-replaced P d rows (λ x row. same x (inr row)) h)

pub Has-removed :
    (P : Domain → Type 0) (id : ℕ) (rows : List Domain)
    → ((e : Domain) → Has (λ x. e ≡ x) rows → P e → e.id ≢ id)
    → Has P rows
    → Has P (removed id rows)
unfolding removed
Has-removed P id [] other h = elim h [ ]
Has-removed P id (e ∷ rows) other (inl h) =
    let differs = other e (inl refl) h in
    if_rule (Has P) (e.id == id) (λ t. absurd (differs (ground (arith, t)))) (λ _. inl h)
Has-removed P id (e ∷ rows) other (inr h) =
    let rest = Has-removed P id rows (λ x row. other x (inr row)) h in
    if_rule (Has P) (e.id == id) (λ _. rest) (λ _. inr rest)
