-- ===== src/Resource/Catalog.antt =====
-- `Lookup` after `Remove` in resource/catalog.go.
use cfdev.Common.{◌≡◌, refl, String, none, List, [], ◌∷◌, ◌=s◌, eq_iff, arith, if◌then◌else◌}
use cfdev.Resource.{Item, lookup, remove}

-- After a removal the name is not found, and every other name is found as before.
pub lookup-remove :
    (name other : String) (items : List Item)
    → lookup other (remove name items) ≡ (if name =s other then none else lookup other items)
unfolding lookup remove
lookup-remove name other [] = ground arith
lookup-remove name other (item ∷ items) = ground (
  arith,
  lookup-remove name other items,
  eq_iff item.name name,
  eq_iff item.name other,
  eq_iff name other,
)

-- Removing a name that the catalog does not hold changes nothing.
pub remove_absent :
    (name : String) (items : List Item) → lookup name items ≡ none → remove name items ≡ items
unfolding lookup remove
remove_absent name [] h = refl
remove_absent name (item ∷ items) h = ground (arith, remove_absent name items)
