-- ===== src/Protocols/Sub0/Topics/Laws.antt =====
-- The set behind `Sub0State`: its order and its elements.
use nng_core.Prelude.{ℕ, ◌≡◌, refl, arith, List, [], ◌∷◌, All, Bool, true, false, ◌||◌, ◌&&◌, not}
use nng_core.Protocols.Sub0.Order.{cmp, cmp_refl, eq_of_cmp, lt_of_gt, lt_trans}
use nng_core.Protocols.Sub0.Topics.{insert, remove}
use Prim.Native.Nat.Ordering.{lt, eq}

-- Every element of the list comes after `p`.
abbrev pub Above : List ℕ → List (List ℕ) → Type 0
Above p ts = All (λ t. cmp p t ≡ lt) ts

abbrev pub IsSorted : List (List ℕ) → Type 0
IsSorted [] = Unit {0}
IsSorted (t ∷ ts) = Above t ts × IsSorted ts

abbrev pub same : List ℕ → List ℕ → Bool
same p q = elim (cmp p q) [ eq ↦ true | _ ↦ false ]

abbrev pub contains : List ℕ → List (List ℕ) → Bool
contains q [] = false
contains q (t ∷ ts) = same q t || contains q ts

Above-trans : (p q : List ℕ) (ts : List (List ℕ)) → cmp p q ≡ lt → Above q ts → Above p ts
Above-trans p q [] h a = tt
Above-trans p q (t ∷ ts) h a = (lt_trans p q t h a.0, Above-trans p q ts h a.1)

Above-insert :
    (p q : List ℕ) (ts : List (List ℕ)) → cmp p q ≡ lt → Above p ts → Above p (insert q ts)
unfolding insert
Above-insert p q [] h a = (h, tt)
Above-insert p q (t ∷ ts) h a = ground (arith, Above-insert p q ts h)

Above-remove : (p q : List ℕ) (ts : List (List ℕ)) → Above p ts → Above p (remove q ts)
unfolding remove
Above-remove p q [] a = tt
Above-remove p q (t ∷ ts) a = ground (arith, Above-remove p q ts)

pub insert-IsSorted : (p : List ℕ) (ts : List (List ℕ)) → IsSorted ts → IsSorted (insert p ts)
unfolding insert
insert-IsSorted p [] s = (tt, tt)
insert-IsSorted p (t ∷ ts) s =
    ground (arith, insert-IsSorted p ts, Above-insert t p ts, Above-trans p t ts, lt_of_gt p t)

pub remove-IsSorted : (p : List ℕ) (ts : List (List ℕ)) → IsSorted ts → IsSorted (remove p ts)
unfolding remove
remove-IsSorted p [] s = tt
remove-IsSorted p (t ∷ ts) s = ground (arith, remove-IsSorted p ts, Above-remove t p ts)

pub contains-insert :
    (q p : List ℕ) (ts : List (List ℕ)) → contains q (insert p ts) ≡ (same q p || contains q ts)
unfolding insert
contains-insert q p [] = refl
contains-insert q p (t ∷ ts) = ground (arith, contains-insert q p ts, eq_of_cmp p t, cmp_refl p)

contains-Above :
    (q p : List ℕ) (ts : List (List ℕ)) → cmp q p ≡ lt → Above p ts → contains q ts ≡ false
contains-Above q p [] h a = refl
contains-Above q p (t ∷ ts) h a = ground (arith, contains-Above q p ts h, lt_trans q p t)

contains-Above_self : (q : List ℕ) (ts : List (List ℕ)) → Above q ts → contains q ts ≡ false
contains-Above_self q [] a = refl
contains-Above_self q (t ∷ ts) a = ground (arith, contains-Above_self q ts)

pub contains-remove :
    (q p : List ℕ) (ts : List (List ℕ))
    → IsSorted ts
    → contains q (remove p ts) ≡ (not (same q p) && contains q ts)
unfolding remove
contains-remove q p [] s = ground arith
contains-remove q p (t ∷ ts) s = ground (
  arith,
  contains-remove q p ts,
  eq_of_cmp q p,
  eq_of_cmp p t,
  cmp_refl p,
  contains-Above q t ts,
  contains-Above_self q ts,
)
