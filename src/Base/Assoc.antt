-- ===== src/Base/Assoc.antt =====
-- Python's dictionaries with text keys, as association lists in the order of insertion.
use mathlib.Core.Path.{◌≡◌, refl}
use Prim.Native.String.{String}
use mathlib.Core.Option.{Option, none, some}
use mathlib.Core.List.{List, [], ◌∷◌}
use native.Mathlib.Omega.{arith}
use text.Mathlib.TextEquality.{eq_iff}
use evalai.Base.Tests.{if◌then◌else◌, ◌==◌, string_eq}

-- `d.get(name)`
abbrev pub lookup {ℓ} : {V : Type ℓ} → String → List (String × V) → Option V
lookup name [] = none
lookup name (entry ∷ rest) = if entry.0 == name then some entry.1 else lookup name rest

-- `d[name] = value`: a key keeps its place.
abbrev pub insert {ℓ} : {V : Type ℓ} → String → V → List (String × V) → List (String × V)
insert name value [] = (name, value) ∷ []
insert name value (entry ∷ rest) =
    if entry.0 == name then (entry.0, value) ∷ rest else entry ∷ insert name value rest

pub lookup-insert {ℓ} :
    {V : Type ℓ} (name other : String) (value : V) (d : List (String × V))
    → lookup other (insert name value d) ≡ (if name == other then some value else lookup other d)
lookup-insert name other value [] = refl
lookup-insert name other value (entry ∷ rest) =
    let ih = lookup-insert name other value rest in
    ground (arith, ih, eq_iff entry.0 other, eq_iff entry.0 name, eq_iff name other)
