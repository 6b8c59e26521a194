-- ===== src/Resource.antt =====
-- resource/catalog.go: the catalog of downloadable assets.
pub mod Catalog
pub mod Progress
pub mod Retry
pub mod Storage
pub mod Cache
mod Examples
use cfdev.Common.{ℕ, String, Bool, Option, none, some, List, [], ◌∷◌, ◌=s◌, if◌then◌else◌}

pub record Item : Type 0 where
  pub url : String
  pub name : String
  pub md5 : String
  pub size : ℕ
  pub in_use : Bool

-- `Lookup`: the first item of that name. The pointer that Go returns is only read.
unfoldable pub lookup : String → List Item → Option Item
lookup name [] = none
lookup name (item ∷ items) = if item.name =s name then some item else lookup name items

-- `Remove`: the items of other names, in their order.
unfoldable pub remove : String → List Item → List Item
remove name [] = []
remove name (item ∷ items) =
    let rest = remove name items in if item.name =s name then rest else item ∷ rest
