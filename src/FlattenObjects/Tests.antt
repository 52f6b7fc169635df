-- ===== src/FlattenObjects/Tests.antt =====
-- The table of objects on concrete contents.
use chenlongos.Prelude.{ℕ, ◌<◌, ◌≤◌, ◌≡◌, ◌≢◌, refl, none, some, arith}
use chenlongos.FlattenObjects.{FlattenObjects, get, add_at, remove}
use chenlongos.FlattenObjects.Bitmap.{functions, functions_laws}
use chenlongos.FlattenObjects.Ids.{view, IsValid, Assigned}
use chenlongos.FlattenObjects.Alloc.{
  Added, add_lem, add_at_lem, fresh, fresh-IsValid, assigned, assigned-IsValid,
}

abbrev Table : Type 0
Table = FlattenObjects functions ℕ

abbrev blank : Table
blank = fresh functions_laws 4

-- Four IDs, of which 1 has an object.
abbrev table : Table
table = assigned functions_laws blank 1 50

blank-IsValid : IsValid blank
blank-IsValid = fresh-IsValid functions_laws 4 (omega arith)

table-IsValid : IsValid table
table-IsValid = assigned-IsValid functions_laws blank 1 50 blank-IsValid (omega arith) refl

view-table : (view table 0 ≡ none) × (view table 1 ≡ some 50) × (view table 9 ≡ none)
view-table = (refl, refl, refl)

get-table : (get table 1 ≡ some (some 50)) × (get table 2 ≡ some none)
unfolding get
get-table = (refl, refl)

remove-table : remove table 2 ≡ some (table, none)
unfolding remove
remove-table = refl

add_lem_example : Added table 60
add_lem_example = add_lem functions_laws table 60 table-IsValid

add_at_lem_example :
    (3 < 4
      → view table 3 ≡ none
      → (t' : Table) × (add_at table 3 60 ≡ some (t', some 3)) × Assigned table 3 60 t')
    × (view table 3 ≢ none → add_at table 3 60 ≡ some (table, none))
    × (4 ≤ 3 → add_at table 3 60 ≡ none)
add_at_lem_example = add_at_lem functions_laws table 3 60 table-IsValid
