-- ===== src/Toggle/Laws.antt =====
-- What the toggle keeps, and what comes back from its file.
use cfdev.Common.{◌≡◌, refl, String, Bool, true, false, ◌&&◌, some, [], ◌=s◌, arith, if◌then◌else◌}
use cfdev.Common.Dict.{get, get-put}
use cfdev.Toggle.{
  Toggle, Write, written, new, custom_analytics_defined, enabled, save, set_cf_analytics_enabled,
  set_custom_analytics_enabled, set_prop,
}

-- A toggle that was saved comes back with its flags if the user had chosen. A toggle that was
-- saved before any choice comes back as a choice against both.
pub new-save :
    (t : Toggle)
    → new (save written t).1 ≡ record {
      defined = true;
      cf_analytics_enabled = t.defined && t.cf_analytics_enabled;
      custom_analytics_enabled = t.defined && t.custom_analytics_enabled;
      props = [];
    }
unfolding new save
new-save t = ground arith

-- Custom analytics are on only together with the general ones.
abbrev pub IsConsistent : Toggle → Type 0
IsConsistent t = t.custom_analytics_enabled ≡ true → t.cf_analytics_enabled ≡ true

-- Either setter makes the toggle a choice that is enabled exactly as told; custom analytics stay
-- on only with the general ones, and the properties stay.
pub setters_lem :
    (value : Bool) (write : Write) (t : Toggle)
    → IsConsistent t
    → let cf = (set_cf_analytics_enabled value write t).0 in
      let custom = (set_custom_analytics_enabled value write t).0 in
      (enabled cf ≡ value)
      × (cf.defined ≡ true)
      × IsConsistent cf
      × (cf.props ≡ t.props)
      × (enabled custom ≡ value)
      × (custom.defined ≡ true)
      × IsConsistent custom
      × (custom.props ≡ t.props)
unfolding set_cf_analytics_enabled set_custom_analytics_enabled enabled
setters_lem true write t c = (refl, refl, (λ _. refl), refl, refl, refl, (λ _. refl), refl)
setters_lem false write t c = (refl, refl, (λ e. e), refl, refl, refl, (λ e. e), refl)

-- Setting a property leaves the choice and every other property alone.
pub set_prop_lem :
    (k v j : String) (write : Write) (t : Toggle)
    → let s = (set_prop k v write t).0 in
      (get j s.props ≡ (if k =s j then some v else get j t.props))
      × (s.defined ≡ t.defined)
      × (enabled s ≡ enabled t)
unfolding set_prop enabled
set_prop_lem k v j write t = (get-put k j v t.props, refl, refl)

-- What a setter makes of a toggle, whatever it was.
abbrev pub IsChoice : Bool → Toggle → Toggle → Type 0
IsChoice value t t' = (t'.defined ≡ true) × (enabled t' ≡ value) × (t'.props ≡ t.props)

pub set_cf-IsChoice :
    (value : Bool) (write : Write) (t : Toggle)
    → IsChoice value t (set_cf_analytics_enabled value write t).0
unfolding set_cf_analytics_enabled enabled
set_cf-IsChoice true write t = (refl, refl, refl)
set_cf-IsChoice false write t = (refl, refl, refl)

pub set_custom-IsChoice :
    (value : Bool) (write : Write) (t : Toggle)
    → IsChoice value t (set_custom_analytics_enabled value write t).0
unfolding set_custom_analytics_enabled enabled
set_custom-IsChoice true write t = (refl, refl, refl)
set_custom-IsChoice false write t = (refl, refl, refl)

-- After a choice about custom analytics there is one.
pub set_custom-defined :
    (value : Bool) (write : Write) (t : Toggle)
    → custom_analytics_defined (set_custom_analytics_enabled value write t).0 ≡ true
unfolding set_custom_analytics_enabled custom_analytics_defined
set_custom-defined true write t = refl
set_custom-defined false write t = refl
