-- ===== src/Protocols/Sub0/Topics.antt =====
-- What `Sub0State` uses of `BTreeSet<Vec<u8>>` and of slices: a strictly ascending list with
-- insertion, removal and the range up to a bound.
pub mod Laws
pub mod Range
use nng_core.Prelude.{ℕ, List, [], ◌∷◌, Bool, true, false, ◌||◌, ◌&&◌, ◌==◌}
use nng_core.Protocols.Sub0.Order.{cmp}
use Prim.Native.Nat.Ordering.{lt, eq, gt}

unfoldable pub insert : List ℕ → List (List ℕ) → List (List ℕ)
insert p [] = p ∷ []
insert p (t ∷ ts) = elim (cmp p t) [ lt ↦ p ∷ (t ∷ ts) | eq ↦ t ∷ ts | gt ↦ t ∷ insert p ts ]

unfoldable pub remove : List ℕ → List (List ℕ) → List (List ℕ)
remove p [] = []
remove p (t ∷ ts) = elim (cmp p t) [ lt ↦ t ∷ ts | eq ↦ ts | gt ↦ t ∷ remove p ts ]

-- `range((Unbounded, Included(bound)))`: the elements in order, up to the first one above the bound.
unfoldable pub range_to : List ℕ → List (List ℕ) → List (List ℕ)
range_to bound [] = []
range_to bound (t ∷ ts) = elim (cmp t bound) [ gt ↦ [] | _ ↦ t ∷ range_to bound ts ]

-- `body.starts_with(prefix)`
unfoldable pub starts_with : List ℕ → List ℕ → Bool
starts_with body [] = true
starts_with [] (p ∷ ps) = false
starts_with (c ∷ body) (p ∷ ps) = c == p && starts_with body ps

-- `Iterator::any`
unfoldable pub any : (List ℕ → Bool) → List (List ℕ) → Bool
any f [] = false
any f (t ∷ ts) = f t || any f ts
