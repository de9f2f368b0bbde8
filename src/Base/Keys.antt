-- ===== src/Base/Keys.antt =====
-- A table is a map when every key stands in it at most once.
use Prim.Native.String.{String}
use mathlib.Core.Path.{◌≡◌, refl}
use mathlib.Core.Option.{none}
use mathlib.Core.List.{[], ◌∷◌}
use native.Mathlib.Omega.{arith}
use text.Mathlib.TextEquality.{eq_iff}
use safe_file_hub.Base.Store.{Table, lookup, insert, erase, lookup-insert, lookup-erase}

module _ {ℓ} {V : Type ℓ} where
  abbrev pub Distinct : Table V → Type ℓ
  Distinct [] = Unit
  Distinct ((key, v) ∷ rest) = (lookup key rest ≡ none) × Distinct rest

  pub Distinct-insert :
      (key : String) (v : V) (t : Table V) → Distinct t → Distinct (insert key v t)
  unfolding insert lookup
  Distinct-insert key v [] d = (refl, tt)
  Distinct-insert key v ((k, r) ∷ rest) (a, d) =
      let ih = Distinct-insert key v rest d in
      ground (arith, ih, a, d, lookup-insert key k v rest, eq_iff k key, eq_iff key k)

  pub Distinct-erase : (key : String) (t : Table V) → Distinct t → Distinct (erase key t)
  unfolding erase
  Distinct-erase key [] d = tt
  Distinct-erase key ((k, r) ∷ rest) (a, d) =
      let ih = Distinct-erase key rest d in ground (arith, ih, a, lookup-erase key k rest)
