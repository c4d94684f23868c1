-- ===== src/Base/Maps.antt =====
-- Go maps with text keys as association lists. A write replaces the entry of its key, a delete
-- removes every entry of it, so a key is found at most once.
use Prim.Native.String.{String}
use mathlib.Core.Path.{◌≡◌, refl}
use mathlib.Core.List.{List, [], ◌∷◌}
use mathlib.Core.Option.{Option, none, some}
use native.Mathlib.Omega.{arith}
use text.Mathlib.Text.{◌==◌}
use text.Mathlib.TextEquality.{eq_iff}
use text.Mathlib.TextPositions.{eq_refl}
use tailscale_os.Base.Tests.{if◌then◌else◌}

module _ {κ} {A : Type κ} where
  unfoldable pub lookup : String → List (String × A) → Option A
  lookup key [] = none
  lookup key ((here, a) ∷ rest) =
      let later = lookup key rest in if key == here then some a else later

  unfoldable pub insert : String → A → List (String × A) → List (String × A)
  insert key a [] = (key, a) ∷ []
  insert key a ((here, b) ∷ rest) =
      let later = insert key a rest in if key == here then (here, a) ∷ rest else (here, b) ∷ later

  unfoldable pub delete : String → List (String × A) → List (String × A)
  delete key [] = []
  delete key ((here, a) ∷ rest) =
      let others = delete key rest in if key == here then others else (here, a) ∷ others

  pub lookup-insert :
      (key other : String) (a : A) (entries : List (String × A))
      → lookup other (insert key a entries)
        ≡ (if other == key then some a else lookup other entries)
  unfolding lookup insert
  lookup-insert key other a [] = refl
  lookup-insert key other a ((here, b) ∷ rest) =
      ground (
        lookup-insert key other a rest,
        eq_iff key here,
        eq_iff other here,
        eq_iff other key,
        arith,
      )

  pub lookup-delete :
      (key other : String) (entries : List (String × A))
      → lookup other (delete key entries) ≡ (if other == key then none else lookup other entries)
  unfolding lookup delete
  lookup-delete key other [] = ground arith
  lookup-delete key other ((here, b) ∷ rest) =
      ground
        (lookup-delete key other rest, eq_iff key here, eq_iff other here, eq_iff other key, arith)

  pub lookup-insert_self :
      (key : String) (a : A) (entries : List (String × A))
      → lookup key (insert key a entries) ≡ some a
  lookup-insert_self key a entries = simp (eq_refl, lookup-insert)

  pub lookup-delete_self :
      (key : String) (entries : List (String × A)) → lookup key (delete key entries) ≡ none
  lookup-delete_self key entries = simp (eq_refl, lookup-delete)
