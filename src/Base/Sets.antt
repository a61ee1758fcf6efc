-- ===== src/Base/Sets.antt =====
-- Membership in a list by the Boolean test, and lists read as sets.
use mathlib.Core.Path.{◌≡◌}
use mathlib.Core.Bool.{Bool, true, false, not, ◌&&◌, ◌||◌}
use mathlib.Core.List.{List, [], ◌∷◌, ◌++◌}
use native.Mathlib.Omega.{arith}
use gpt_trace_extractor_for.Base.Equality.{Eq, contains, is_subset}

module _ {ℓ} {A : Type ℓ} ⦃e : Eq A⦄ where
  pub contains-append :
      (xs ys : List A) (a : A) → contains (xs ++ ys) a ≡ (contains xs a || contains ys a)
  contains-append [] ys a = ground arith
  contains-append (x ∷ xs) ys a = ground (arith, contains-append xs ys a)

  pub contains-head : (xs : List A) (a : A) → contains (a ∷ xs) a ≡ true
  contains-head xs a = ground (arith, e.equals_iff a a)

  pub is_subset-append :
      (xs ys zs : List A)
      → is_subset xs zs ≡ true
      → is_subset ys zs ≡ true
      → is_subset (xs ++ ys) zs ≡ true
  is_subset-append [] ys zs h k = k
  is_subset-append (x ∷ xs) ys zs h k = ground (arith, is_subset-append xs ys zs)

  pub contains_of_subset :
      (xs ys : List A) (a : A)
      → is_subset xs ys ≡ true
      → contains xs a ≡ true
      → contains ys a ≡ true
  contains_of_subset [] ys a h m = ground arith
  contains_of_subset (x ∷ xs) ys a h m =
      ground (arith, e.equals_iff x a, contains_of_subset xs ys a)

  -- no element twice
  abbrev pub is_distinct : List A → Bool
  is_distinct [] = true
  is_distinct (x ∷ xs) = not (contains xs x) && is_distinct xs

  pub is_distinct-append_one :
      (xs : List A) (a : A)
      → is_distinct xs ≡ true
      → contains xs a ≡ false
      → is_distinct (xs ++ a ∷ []) ≡ true
  is_distinct-append_one [] a d h = ground arith
  is_distinct-append_one (x ∷ xs) a d h = ground (
    arith,
    is_distinct-append_one xs a,
    contains-append xs (a ∷ []) x,
    e.equals_iff x a,
    e.equals_iff a x,
  )
