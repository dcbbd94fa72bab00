-- ===== src/Domain/Jury/Selection.antt =====
-- Who is drawn for a jury.
use mathlib.Core.List.{Perm, Permᴰ}
use mathlib.Core.Logic.{∥∥₁_elim}
use democrachat.Prelude.{
  nat_eq, contains, All-imp, ℕ, zero, suc, ◌≡◌, refl, ap, ◌∙◌, ◌≢◌, true, false, not, List, [], ◌∷◌,
  map, min, arith, nat_beq, length, take, retain, All, All-take,
}
use democrachat.Domain.Jury.{
  contains, scored_before, insert_scored, sort_scored, not_accused, score, voter_of, select_jury,
}

before_total : (p q : ℕ × ℕ) → scored_before p q ≡ false → scored_before q p ≡ true
unfolding scored_before
before_total (h, i) (k, j) e = ground arith

before_antisym : (p q : ℕ × ℕ) → scored_before p q ≡ true → scored_before q p ≡ true → p ≡ q
unfolding scored_before
before_antisym (h, i) (k, j) e f = ground arith

before_trans :
    (p q r : ℕ × ℕ) → scored_before p q ≡ true → scored_before q r ≡ true → scored_before p r ≡ true
unfolding scored_before
before_trans (h, i) (k, j) (l, m) e f = ground arith

insert_scored_comm :
    (p q : ℕ × ℕ) (l : List (ℕ × ℕ))
    → insert_scored p (insert_scored q l) ≡ insert_scored q (insert_scored p l)
unfolding insert_scored
insert_scored_comm p q [] = ground (arith, before_total p q, before_antisym p q)
insert_scored_comm p q (r ∷ l) = ground (
  arith,
  insert_scored_comm p q l,
  before_total p q,
  before_antisym p q,
  before_trans p q r,
  before_trans q p r,
)

-- The candidates but the accused, in the order in which they are drawn.
abbrev ranking : ℕ → ℕ → List ℕ → List (ℕ × ℕ)
ranking accused seed candidates =
    sort_scored (map (score seed) (retain (not_accused accused) candidates))

ranking-permᴰ :
    (accused seed : ℕ) {xs ys : List ℕ}
    → Permᴰ xs ys
    → ranking accused seed xs ≡ ranking accused seed ys
unfolding sort_scored
ranking-permᴰ accused seed Permᴰ.nil = refl
ranking-permᴰ accused seed (Permᴰ.cons e p) = ground (arith, ranking-permᴰ accused seed p)
ranking-permᴰ accused seed (Permᴰ.swap {a = a} {b = b} {l = l} e f) =
    ground (arith, insert_scored_comm (score seed a) (score seed b) (ranking accused seed l))
ranking-permᴰ accused seed (Permᴰ.trans p q) =
    ranking-permᴰ accused seed p ∙ ranking-permᴰ accused seed q

list_set : IsSet (List ℕ)
list_set = hlevel

-- The jury does not depend on the order in which the candidates are listed.
pub select_jury-perm :
    (xs ys : List ℕ) (accused size seed : ℕ)
    → Perm xs ys
    → select_jury xs accused size seed ≡ select_jury ys accused size seed
unfolding select_jury
select_jury-perm xs ys accused size seed p =
    ∥∥₁_elim p (list_set _ _)
      (λ q. ap (λ r. map voter_of (take size r)) (ranking-permᴰ accused seed q))

abbrev eligible : ℕ → List ℕ → List ℕ
eligible accused = retain (not_accused accused)

length-insert_scored : (p : ℕ × ℕ) (l : List (ℕ × ℕ)) → length (insert_scored p l) ≡ suc (length l)
unfolding insert_scored
length-insert_scored p [] = refl
length-insert_scored p (q ∷ l) = ground (arith, length-insert_scored p l)

length-sort_scored : (l : List (ℕ × ℕ)) → length (sort_scored l) ≡ length l
unfolding sort_scored
length-sort_scored [] = refl
length-sort_scored (p ∷ l) =
    omega (arith, length-insert_scored p (sort_scored l), length-sort_scored l)

length-map {ℓ κ} : {A : Type ℓ} {B : Type κ} (f : A → B) (l : List A) → length (map f l) ≡ length l
length-map f [] = refl
length-map f (x ∷ l) = ap suc (length-map f l)

length-take {ℓ} : {A : Type ℓ} (n : ℕ) (l : List A) → length (take n l) ≡ min n (length l)
length-take zero l = omega arith
length-take (suc n) [] = omega arith
length-take (suc n) (x ∷ l) = omega (arith, length-take n l)

-- The panel has the size asked for, or all candidates but the accused where these are fewer.
pub length-select_jury :
    (xs : List ℕ) (accused size seed : ℕ)
    → length (select_jury xs accused size seed)
      ≡ min size (length (retain (λ c. not (nat_beq c accused)) xs))
unfolding select_jury
length-select_jury xs accused size seed =
    length-map voter_of (take size (ranking accused seed xs))
    ∙ (length-take size (ranking accused seed xs)
        ∙ ap (min size) (
            length-sort_scored (map (score seed) (eligible accused xs))
            ∙ length-map (score seed) (eligible accused xs)))

module _ {ℓ} (P : ℕ → Type ℓ) where
  abbrev Drawn : ℕ × ℕ → Type ℓ
  Drawn p = P p.1

  All-insert_scored :
      (p : ℕ × ℕ) (l : List (ℕ × ℕ)) → P p.1 → All Drawn l → All Drawn (insert_scored p l)
  unfolding insert_scored
  All-insert_scored p [] h a = (h, tt)
  All-insert_scored p (q ∷ l) h a = ground (arith, All-insert_scored p l h a.1)

  All-sort_scored : (l : List (ℕ × ℕ)) → All Drawn l → All Drawn (sort_scored l)
  unfolding sort_scored
  All-sort_scored [] h = tt
  All-sort_scored (p ∷ l) h = All-insert_scored p (sort_scored l) h.0 (All-sort_scored l h.1)

  All-score : (seed : ℕ) (l : List ℕ) → All P l → All Drawn (map (score seed) l)
  All-score seed [] h = tt
  All-score seed (c ∷ l) h = (h.0, All-score seed l h.1)

  All-map : (l : List (ℕ × ℕ)) → All Drawn l → All P (map voter_of l)
  All-map [] h = tt
  All-map (p ∷ l) h = (h.0, All-map l h.1)

  -- Whatever holds of all candidates but the accused holds of all jurors.
  All-select_jury :
      (xs : List ℕ) (accused size seed : ℕ)
      → All P (eligible accused xs)
      → All P (select_jury xs accused size seed)
  unfolding select_jury
  All-select_jury xs accused size seed h =
      All-map _ (All-take Drawn size _ (All-sort_scored _ (All-score seed (eligible accused xs) h)))

abbrev IsCandidate : ℕ → List ℕ → ℕ → Type 0
IsCandidate accused xs c = (c ≢ accused) × (contains xs c ≡ true)

eligible-IsCandidate :
    (accused : ℕ) (xs : List ℕ) → All (IsCandidate accused xs) (eligible accused xs)
eligible-IsCandidate accused [] = tt
eligible-IsCandidate accused (x ∷ xs) =
    let rest =
      All-imp (IsCandidate accused xs) (IsCandidate accused (x ∷ xs))
        (λ c h. (h.0, ground (arith, h.1))) (eligible accused xs)
        (eligible-IsCandidate accused xs) in
    ground (arith, rest)

-- The accused never sits on the jury, and every juror is one of the candidates.
pub select_jury_members :
    (xs : List ℕ) (accused size seed : ℕ)
    → All (λ c. (c ≢ accused) × (contains xs c ≡ true)) (select_jury xs accused size seed)
select_jury_members xs accused size seed =
    All-select_jury (IsCandidate accused xs) xs accused size seed (eligible-IsCandidate accused xs)
