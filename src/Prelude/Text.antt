-- ===== src/Prelude/Text.antt =====
-- Texts as lists of character codes, `find` and `substr` at a character, and maps from texts.
use Prim.Native.Char.{code}
use Prim.Native.String.{String}
use Prim.Native.Nat.{ℕ, ◌<◌}
use mathlib.Core.Path.{◌≡◌, refl}
use mathlib.Core.Logic.{◌≢◌, ◌↔◌, inl, inr}
use mathlib.Core.Bool.{Bool, true, false, ◌&&◌}
use mathlib.Core.Option.{Option, none, some}
use mathlib.Core.List.{List, [], ◌∷◌, ◌++◌}
use native.Mathlib.Omega.{arith}
use my_web_socket.Prelude.Tests.{◌==◌, if◌then◌else◌, Option-cases}
use my_web_socket.Prelude.Lists.{length, All}

-- The codes of a text that the source quotes.
abbrev pub codes : String → List ℕ
codes String.[] = []
codes (String.◌∷◌ c s) = code c ∷ codes s

unfoldable pub text_eq : List ℕ → List ℕ → Bool
text_eq [] [] = true
text_eq (x ∷ xs) (y ∷ ys) = x == y && text_eq xs ys
text_eq _ _ = false

pub text_eq_iff : (xs ys : List ℕ) → (text_eq xs ys ≡ true) ↔ (xs ≡ ys)
unfolding text_eq
text_eq_iff [] [] = (λ h. refl, λ h. refl)
text_eq_iff [] (y ∷ ys) = (λ h. cc, λ h. cc)
text_eq_iff (x ∷ xs) [] = (λ h. cc, λ h. cc)
text_eq_iff (x ∷ xs) (y ∷ ys) =
    (λ h. ground (arith, text_eq_iff xs ys), λ h. ground (arith, text_eq_iff xs ys))

-- The text before the first `c` and the text after it.
unfoldable pub split_first : ℕ → List ℕ → Option (List ℕ × List ℕ)
split_first c [] = none
split_first c (x ∷ xs) =
    if x == c
    then some ([], xs)
    else elim (split_first c xs) [ none ↦ none | some (p, r) ↦ some (x ∷ p, r) ]

pub split_first-length :
    (c : ℕ) (xs p r : List ℕ) → split_first c xs ≡ some (p, r) → length r < length xs
unfolding split_first
split_first-length c [] p r h = cc
split_first-length c (x ∷ xs) p r h = elim (Option-cases (split_first c xs)) [
  | inl e ↦ ground arith
  | inr ((p', r'), e) ↦ ground (arith, split_first-length c xs p' r' e)
]

pub split_first-append :
    (c : ℕ) (p r : List ℕ) → All (λ x. x ≢ c) p → split_first c (p ++ (c ∷ r)) ≡ some (p, r)
unfolding split_first
split_first-append c [] r h = ground arith
split_first-append c (x ∷ p) r h = ground (arith, split_first-append c p r h.1, h.0)

pub split_first-none : (c : ℕ) (p : List ℕ) → All (λ x. x ≢ c) p → split_first c p ≡ none
unfolding split_first
split_first-none c [] h = refl
split_first-none c (x ∷ p) h = ground (arith, split_first-none c p h.1, h.0)

-- `m[k] = v`, and `insert`, which keeps an old value.
module _ {ℓ} {V : Type ℓ} where
  unfoldable pub lookup : List ℕ → List (List ℕ × V) → Option V
  lookup k [] = none
  lookup k ((j, v) ∷ m) = if text_eq j k then some v else lookup k m

  unfoldable pub assign : List ℕ → V → List (List ℕ × V) → List (List ℕ × V)
  assign k v [] = (k, v) ∷ []
  assign k v ((j, w) ∷ m) = if text_eq j k then (j, v) ∷ m else (j, w) ∷ assign k v m

  pub lookup-assign :
      (k j : List ℕ) (v : V) (m : List (List ℕ × V))
      → lookup j (assign k v m) ≡ (if text_eq k j then some v else lookup j m)
  unfolding lookup assign
  lookup-assign k j v [] = refl
  lookup-assign k j v ((i, w) ∷ m) =
      ground (arith, text_eq_iff k j, text_eq_iff i k, text_eq_iff i j, lookup-assign k j v m)
