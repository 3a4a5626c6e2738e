-- ===== src/Protocols/Sub0/Topics/Range.antt =====
-- The range query and `any` over the ordered set, and `starts_with`.
use nng_core.Prelude.{
  Bool-cases, inl, inr, ℕ, ◌≡◌, ◌≢◌, refl, arith, List, [], ◌∷◌, Bool, true, false, ◌++◌,
}
use nng_core.Protocols.Sub0.Order.{cmp, cmp_refl, eq_of_cmp, lt_of_gt, gt_of_lt, lt_trans}
use nng_core.Protocols.Sub0.Topics.Laws.{Above, IsSorted, contains}
use nng_core.Protocols.Sub0.Topics.{range_to, starts_with, any}
use Prim.Native.Nat.Ordering.{lt, gt}

-- A prefix of the body does not come after it.
starts_with-le : (body p : List ℕ) → starts_with body p ≡ true → cmp p body ≢ gt
unfolding starts_with cmp
starts_with-le [] [] h = λ e. cc
starts_with-le (c ∷ body) [] h = λ e. cc
starts_with-le [] (x ∷ p) h = absurd (ground arith)
starts_with-le (c ∷ body) (x ∷ p) h = ground (arith, starts_with-le body p)

gt_of_gt : (a b c : List ℕ) → cmp a b ≡ gt → cmp a c ≡ lt → cmp c b ≡ gt
gt_of_gt a b c h g = gt_of_lt b c (lt_trans b a c (lt_of_gt a b h) g)

-- Beyond the first element above the body there is no prefix of it.
any_beyond :
    (body t : List ℕ) (ts : List (List ℕ))
    → cmp t body ≡ gt
    → Above t ts
    → any (starts_with body) ts ≡ false
unfolding any
any_beyond body t [] h a = refl
any_beyond body t (u ∷ ts) h a =
    ground (arith, any_beyond body t ts h, gt_of_gt t body u h, starts_with-le body u)

-- On an ascending set of topics, looking for a prefix of a body among those up to the body finds
-- one exactly if looking among all does.
pub any-range_to :
    (body : List ℕ) (ts : List (List ℕ))
    → IsSorted ts
    → any (starts_with body) (range_to body ts) ≡ any (starts_with body) ts
unfolding any range_to
any-range_to body [] s = refl
any-range_to body (t ∷ ts) s =
    ground (arith, any-range_to body ts, any_beyond body t ts, starts_with-le body t)

-- `any` over the set finds an element that it contains, and finds each.
pub any-contains :
    (f : List ℕ → Bool) (ts : List (List ℕ))
    → any f ts ≡ true
    → (t : List ℕ) × (contains t ts ≡ true) × (f t ≡ true)
unfolding any
any-contains f [] h = cc
any-contains f (t ∷ ts) h = elim (Bool-cases (f t)) [
  | inl here ↦ (t, ground (arith, cmp_refl t), here)
  | inr miss ↦ let (u, c, e) = any-contains f ts (ground arith) in (u, ground (arith, c), e)
]

pub contains-any :
    (f : List ℕ → Bool) (ts : List (List ℕ)) (t : List ℕ)
    → contains t ts ≡ true
    → f t ≡ true
    → any f ts ≡ true
unfolding any
contains-any f [] t c e = cc
contains-any f (u ∷ ts) t c e = ground (arith, contains-any f ts t, eq_of_cmp t u)

-- `starts_with` is the prefix relation.
pub starts_with_sound :
    (body p : List ℕ) → starts_with body p ≡ true → (rest : List ℕ) × (body ≡ p ++ rest)
unfolding starts_with
starts_with_sound body [] h = (body, refl)
starts_with_sound [] (x ∷ p) h = cc
starts_with_sound (c ∷ body) (x ∷ p) h =
    let (rest, e) = starts_with_sound body p (ground arith) in (rest, ground (arith, e))

pub starts_with_complete : (p rest : List ℕ) → starts_with (p ++ rest) p ≡ true
unfolding starts_with
starts_with_complete [] rest = refl
starts_with_complete (x ∷ p) rest = ground (arith, starts_with_complete p rest)
