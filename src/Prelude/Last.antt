-- ===== src/Prelude/Last.antt =====
-- The last element of a list, and the elements that stand in one.
use mathlib.Core.Path.{◌≡◌, refl, sym, ap, ◌∙◌, subst}
use mathlib.Core.List.{List, [], ◌∷◌, ◌++◌, append_assoc}
use nng_core.Prelude.Lists.{All}
use mathlib.Core.Option.{Option, none, some}

module _ {ℓ} {A : Type ℓ} where
  abbrev pub last_of : List A → Option A
  last_of [] = none
  last_of (x ∷ []) = some x
  last_of (x ∷ (y ∷ ys)) = last_of (y ∷ ys)

  pub last_of-snoc : (xs : List A) (x : A) → last_of (xs ++ (x ∷ [])) ≡ some x
  last_of-snoc [] x = refl
  last_of-snoc (y ∷ []) x = refl
  last_of-snoc (y ∷ (z ∷ zs)) x = last_of-snoc (z ∷ zs) x

  abbrev pub IsIn : A → List A → Type ℓ
  IsIn a xs = (before : List A) × (after : List A) × (xs ≡ before ++ (a ∷ after))

  pub IsIn-append : (a : A) (xs ys : List A) → IsIn a xs → IsIn a (xs ++ ys)
  IsIn-append a xs ys (before, after, e) =
      (before, after ++ ys, ap (λ l. l ++ ys) e ∙ append_assoc before (a ∷ after) ys)

  pub IsIn-last_of : (a : A) (xs : List A) → some a ≡ last_of xs → IsIn a xs
  IsIn-last_of a [] e = absurd (none_ne e)
    where
      none_ne : some a ≡ none → ⊥
      none_ne p = subst (λ o. elim o [ some _ ↦ Unit {0} | none ↦ ⊥ ]) p tt
  IsIn-last_of a (x ∷ []) e = ([], [], ap (λ b. b ∷ []) (get e))
    where
      unwrap : Option A → A
      unwrap (some b) = b
      unwrap none = a

      get : some a ≡ some x → x ≡ a
      get p = sym (ap unwrap p)
  IsIn-last_of a (x ∷ (y ∷ ys)) e =
      let (before, after, p) = IsIn-last_of a (y ∷ ys) e in (x ∷ before, after, ap (λ l. x ∷ l) p)

  pub IsIn-All {κ} : (P : A → Type κ) (xs : List A) → ((a : A) → IsIn a xs → P a) → All P xs
  IsIn-All P [] h = tt
  IsIn-All P (x ∷ xs) h = (
    h x ([], xs, refl),
    IsIn-All P xs (λ a (before, after, e). h a (x ∷ before, after, ap (λ l. x ∷ l) e)),
  )
