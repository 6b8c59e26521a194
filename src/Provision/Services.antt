-- ===== src/Provision/Services.antt =====
-- Which services `WhiteListServices` lets through.
use cfdev.Common.{
  ◌≡◌, refl, inl, inr, String, Bool, true, false, not, ◌&&◌, ◌||◌, List, [], ◌∷◌, ◌++◌, arith, ◌=s◌,
  eq_iff, All, All-append, Among, All-Among_self, Bool-cases,
}
use cfdev.Common.Text.{codes, lower, same, trim_space}
use cfdev.Metadata.{Service}
use cfdev.Provision.{
  mentions, holds, always_included, requested, white_list_services, get_white_listed_service,
}
use cfdev.Runtime.{Result, ok, err}

holds-append :
    (xs ys : List Service) (name : String)
    → holds (xs ++ ys) name ≡ (holds xs name || holds ys name)
unfolding holds
holds-append [] ys name = refl
holds-append (x ∷ xs) ys name = ground (arith, holds-append xs ys name)

pub holds-Among : (s : Service) (xs : List Service) → Among s xs → holds xs s.name ≡ true
unfolding holds
holds-Among s [] h = absurd h
holds-Among s (x ∷ xs) (inl e) = ground (arith, eq_iff x.name s.name)
holds-Among s (x ∷ xs) (inr h) = ground (arith, holds-Among s xs h)

-- What is listed stays listed.
requested-keeps :
    (request : String) (services listed : List Service) (name : String)
    → holds listed name ≡ true
    → holds (requested request services listed) name ≡ true
unfolding requested
requested-keeps request [] listed name h = h
requested-keeps request (s ∷ services) listed name h =
    requested-keeps request services _ name (ground (arith, holds-append listed (s ∷ []) name))

requested-lists :
    (request : String) (services listed : List Service) (s : Service)
    → Among s services
    → mentions request s.flagname ≡ true
    → holds (requested request services listed) s.name ≡ true
unfolding requested holds
requested-lists request [] listed s m h = absurd m
requested-lists request (x ∷ services) listed s (inl e) h =
    requested-keeps request services _ s.name (elim (Bool-cases (holds listed s.name)) [
      | inl old ↦ ground (arith, holds-append listed (x ∷ []) s.name)
      | inr new ↦
          rw (← e) (ground (arith, holds-append listed (x ∷ []) x.name, eq_iff x.name x.name))
    ])
requested-lists request (x ∷ services) listed s (inr m) h = requested-lists request services _ s m h

always_included-lists :
    (services : List Service) (s : Service)
    → Among s services
    → s.flagname ≡ "always-include"
    → holds (always_included services) s.name ≡ true
unfolding always_included holds
always_included-lists [] s m h = absurd m
always_included-lists (x ∷ services) s (inl e) h =
    ground (arith, eq_iff x.flagname "always-include", eq_iff x.name s.name)
always_included-lists (x ∷ services) s (inr m) h =
    ground (arith, always_included-lists services s m h)

module _ (P : Service → Type 0) where
  requested-All :
      (request : String) (services listed : List Service)
      → All P services
      → All P listed
      → All P (requested request services listed)
  unfolding requested
  requested-All request [] listed h l = l
  requested-All request (s ∷ services) listed h l =
      elim (Bool-cases (mentions request s.flagname && not (holds listed s.name))) [
        | inl e ↦ rw e (requested-All request services _ h.1 (All-append P listed _ l (h.0, tt)))
        | inr e ↦ rw e (requested-All request services _ h.1 l)
      ]

  always_included-All :
      (services : List Service) → All P services → All P (always_included services)
  unfolding always_included
  always_included-All [] h = tt
  always_included-All (s ∷ services) h = elim (Bool-cases (s.flagname =s "always-include")) [
    | inl e ↦ rw e (h.0, always_included-All services h.1)
    | inr e ↦ rw e (always_included-All services h.1)
  ]

-- The three cases of `WhiteListServices`.
abbrev pub asks_for_all : String → Bool
asks_for_all request = same (trim_space (lower (codes request))) (codes "all")

abbrev pub asks_for_none : String → Bool
asks_for_none request =
    same (trim_space (lower (codes request))) (codes "")
    || same (trim_space (lower (codes request))) (codes "none")

-- Every service that is deployed comes from the metadata.
pub white_list_services-Among :
    (request : String) (services : List Service)
    → All (λ s. Among s services) (white_list_services request services)
unfolding white_list_services
white_list_services-Among request services =
    let P : Service → Type 0 = λ s. Among s services in
    let self = All-Among_self services in
    let always = always_included-All P services self in
    elim (Bool-cases (asks_for_all request)) [
      | inl all ↦ rw all self
      | inr not_all ↦ elim (Bool-cases (asks_for_none request)) [
        | inl nothing ↦ rw (not_all, nothing) always
        | inr names ↦ rw (not_all, names) (requested-All P request services _ self always)
      ]
    ]

-- A service marked "always-include" is deployed whatever is requested.
pub white_list_services-always :
    (request : String) (services : List Service) (s : Service)
    → Among s services
    → s.flagname ≡ "always-include"
    → holds (white_list_services request services) s.name ≡ true
unfolding white_list_services
white_list_services-always request services s m marked =
    let listed = always_included-lists services s m marked in
    elim (Bool-cases (asks_for_all request)) [
      | inl all ↦ rw all (holds-Among s services m)
      | inr not_all ↦ elim (Bool-cases (asks_for_none request)) [
        | inl nothing ↦ rw (not_all, nothing) listed
        | inr names ↦ rw (not_all, names) (requested-keeps request services _ s.name listed)
      ]
    ]

-- Unless nothing is requested, a service of the metadata whose flag name stands anywhere in the
-- request is deployed, up to another service of its name.
pub white_list_services-mentioned :
    (request : String) (services : List Service) (s : Service)
    → asks_for_none request ≡ false
    → Among s services
    → mentions request s.flagname ≡ true
    → holds (white_list_services request services) s.name ≡ true
unfolding white_list_services
white_list_services-mentioned request services s some_names m mentioned =
    elim (Bool-cases (asks_for_all request)) [
      | inl all ↦ rw all (holds-Among s services m)
      | inr not_all ↦ rw (not_all, some_names) (requested-lists request services _ s m mentioned)
    ]

-- What a search by flag name comes to.
abbrev pub Found : String → List Service → Result Service → Type 0
Found name services (ok s) = Among s services × (mentions name s.flagname ≡ true)
Found name services (err e) = All (λ s. mentions name s.flagname ≡ false) services

Found-cons :
    (name : String) (s : Service) (services : List Service) (r : Result Service)
    → mentions name s.flagname ≡ false
    → Found name services r
    → Found name (s ∷ services) r
Found-cons name s services (ok t) no_match f = (inr f.0, f.1)
Found-cons name s services (err e) no_match f = (no_match, f)

-- `GetWhiteListedService` returns a service of the metadata whose flag name stands in the name
-- asked for, or an error where there is none.
pub get_white_listed_service-Found :
    (name : String) (services : List Service)
    → Found name services (get_white_listed_service name services)
unfolding get_white_listed_service
get_white_listed_service-Found name [] = tt
get_white_listed_service-Found name (s ∷ services) = elim (Bool-cases (mentions name s.flagname)) [
  | inl e ↦ rw e (inl refl, e)
  | inr e ↦ rw e (Found-cons name s services _ e (get_white_listed_service-Found name services))
]
