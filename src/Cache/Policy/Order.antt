-- ===== src/Cache/Policy/Order.antt =====
-- The order in which eviction goes through the chunks: what `sort_by_key` gives.
use s3xc.Prelude.{
  ◌≡◌, refl, ◌∙◌, ◌&&◌, inl, inr, List, [], ◌∷◌, All, arith, Bool-cases, if◌then◌else◌,
}
use s3xc.Prelude.Int.{ℤ, ◌≤ℤ◌, leb_ℤ}
use mathlib.Core.List.{Perm}
use mathlib.Core.List.Perm
use s3xc.Cache.Policy.{Candidate, insert, sort_by_key}

-- Each candidate was last used no later than those after it.
abbrev pub Sorted : List Candidate → Type 0
Sorted [] = Unit
Sorted (x ∷ xs) = All (λ y. x.last_accessed ≤ℤ y.last_accessed) xs × Sorted xs

-- The candidates that were last used at a time, in their order.
abbrev pub used_at : ℤ → List Candidate → List Candidate
used_at t [] = []
used_at t (x ∷ xs) =
    let rest = used_at t xs in
    if leb_ℤ x.last_accessed t && leb_ℤ t x.last_accessed then x ∷ rest else rest

insert-Perm : (x : Candidate) (xs : List Candidate) → Perm (insert x xs) (x ∷ xs)
unfolding insert
insert-Perm x [] = Perm.refl (x ∷ [])
insert-Perm x (y ∷ ys) = elim (Bool-cases (leb_ℤ x.last_accessed y.last_accessed)) [
  | inl le ↦ rw le (Perm.refl (x ∷ y ∷ ys))
  | inr gt ↦ rw gt (Perm.trans (Perm.cons y (insert-Perm x ys)) (Perm.swap x y ys))
]

-- What holds of a candidate and of a list holds of the list with it.
pub All-insert :
    (P : Candidate → Type 0) (x : Candidate) (xs : List Candidate)
    → P x
    → All P xs
    → All P (insert x xs)
unfolding insert
All-insert P x [] p all = (p, tt)
All-insert P x (y ∷ ys) p all = elim (Bool-cases (leb_ℤ x.last_accessed y.last_accessed)) [
  | inl le ↦ rw le (p, all)
  | inr gt ↦ rw gt (all.0, All-insert P x ys p all.1)
]

All-le :
    (x y : Candidate) (ys : List Candidate)
    → x.last_accessed ≤ℤ y.last_accessed
    → All (λ z. y.last_accessed ≤ℤ z.last_accessed) ys
    → All (λ z. x.last_accessed ≤ℤ z.last_accessed) ys
All-le x y [] le all = tt
All-le x y (z ∷ zs) le all = (omega (arith, all.0), All-le x y zs le all.1)

insert-Sorted : (x : Candidate) (xs : List Candidate) → Sorted xs → Sorted (insert x xs)
unfolding insert
insert-Sorted x [] s = (tt, tt)
insert-Sorted x (y ∷ ys) s = elim (Bool-cases (leb_ℤ x.last_accessed y.last_accessed)) [
  | inl le ↦
      let below : x.last_accessed ≤ℤ y.last_accessed = ground arith in
      rw le ((below, All-le x y ys below s.0), s)
  | inr gt ↦ rw gt (
    All-insert (λ z. y.last_accessed ≤ℤ z.last_accessed) x ys (ground arith) s.0,
    insert-Sorted x ys s.1,
  )
]

insert-used_at :
    (t : ℤ) (x : Candidate) (xs : List Candidate) → used_at t (insert x xs) ≡ used_at t (x ∷ xs)
unfolding insert
insert-used_at t x [] = refl
insert-used_at t x (y ∷ ys) = ground (arith, insert-used_at t x ys)

pub sort_by_key-Perm : (xs : List Candidate) → Perm (sort_by_key xs) xs
unfolding sort_by_key
sort_by_key-Perm [] = Perm.refl []
sort_by_key-Perm (x ∷ xs) =
    Perm.trans (insert-Perm x (sort_by_key xs)) (Perm.cons x (sort_by_key-Perm xs))

pub sort_by_key-Sorted : (xs : List Candidate) → Sorted (sort_by_key xs)
unfolding sort_by_key
sort_by_key-Sorted [] = tt
sort_by_key-Sorted (x ∷ xs) = insert-Sorted x (sort_by_key xs) (sort_by_key-Sorted xs)

pub sort_by_key-used_at : (t : ℤ) (xs : List Candidate) → used_at t (sort_by_key xs) ≡ used_at t xs
unfolding sort_by_key
sort_by_key-used_at t [] = refl
sort_by_key-used_at t (x ∷ xs) =
    insert-used_at t x (sort_by_key xs) ∙ ground (arith, sort_by_key-used_at t xs)
