-- ===== src/Base/Store.antt =====
-- A table or a Go map with `String` keys, as an association list.
use Prim.Native.String.{String}
use mathlib.Core.Path.{◌≡◌, refl}
use mathlib.Core.Option.{Option, none, some}
use mathlib.Core.List.{List, [], ◌∷◌}
use native.Mathlib.Omega.{arith}
use text.Mathlib.Text.{◌==◌}
use text.Mathlib.TextEquality.{eq_iff}
use safe_file_hub.Base.Tests.{if◌then◌else◌}

abbrev pub Table {ℓ} : Type ℓ → Type ℓ
Table V = List (String × V)

module _ {ℓ} {V : Type ℓ} where
  unfoldable pub lookup : String → Table V → Option V
  lookup key [] = none
  lookup key ((name, value) ∷ rest) =
      let later = lookup key rest in if name == key then some value else later

  -- Replaces the value in place, or adds the key at the end.
  unfoldable pub insert : String → V → Table V → Table V
  insert key new [] = (key, new) ∷ []
  insert key new ((name, value) ∷ rest) =
      let later = insert key new rest in
      if name == key then (key, new) ∷ rest else (name, value) ∷ later

  unfoldable pub erase : String → Table V → Table V
  erase key [] = []
  erase key ((name, value) ∷ rest) =
      let later = erase key rest in if name == key then later else (name, value) ∷ later

  -- The value under any key after a write to one.
  pub lookup-insert :
      (key any : String) (new : V) (table : Table V)
      → lookup any (insert key new table) ≡ (if key == any then some new else lookup any table)
  unfolding lookup insert
  lookup-insert key any new [] = refl
  lookup-insert key any new ((name, value) ∷ rest) =
      let ih = lookup-insert key any new rest in
      ground (arith, ih, eq_iff name any, eq_iff name key, eq_iff key any)

  pub lookup-erase :
      (key any : String) (table : Table V)
      → lookup any (erase key table) ≡ (if key == any then none else lookup any table)
  unfolding lookup erase
  lookup-erase key any [] = ground arith
  lookup-erase key any ((name, value) ∷ rest) =
      let ih = lookup-erase key any rest in
      ground (arith, ih, eq_iff name any, eq_iff name key, eq_iff key any)
