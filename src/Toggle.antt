-- ===== src/Toggle.antt =====
-- cfanalytics/toggle/toggle.go: the user's choice, kept in a JSON file. The file holds the decoded
-- document; the encoding is the standard library's. The document `null`, on which `New` panics, is
-- left out.
pub mod Laws
use cfdev.Common.{String, Bool, true, false, not, ◌&&◌, ◌||◌, Option, none, some, [], if◌then◌else◌}
use cfdev.Common.Dict.{Dict, put}
use cfdev.Errors.{Error}
use cfdev.Runtime.{Result, ok, err}

pub record Toggle : Type 0 where
  pub defined : Bool
  pub cf_analytics_enabled : Bool
  pub custom_analytics_enabled : Bool
  pub props : Dict String

-- The document that `save` writes: the flags stand in it only once the user has chosen.
pub record Document : Type 0 where
  pub cf_analytics : Option Bool
  pub custom_analytics : Option Bool
  pub saved_props : Dict String

pub data File : Type 0 where
  -- Not there, or no JSON.
  missing malformed : File
  document : Document → File
  -- JSON with values of other types: what can be decoded is, and then there is an error.
  mistyped : Document → File

-- What writing the file comes to; a failed write may leave anything.
pub data Write : Type 0 where
  written : Write
  failed : Error → File → Write

abbrev flag_or_false : Option Bool → Bool
flag_or_false none = false
flag_or_false (some b) = b

abbrev pub undecided : Toggle
undecided = record {
  defined = false;
  cf_analytics_enabled = false;
  custom_analytics_enabled = false;
  props = [];
}

-- `New`: only the two flags are decoded, and any document that is decoded counts as a choice.
pub new : File → Toggle
new missing = undecided
new malformed = undecided
new (mistyped d) = record {
  defined = false;
  cf_analytics_enabled = flag_or_false d.cf_analytics;
  custom_analytics_enabled = flag_or_false d.custom_analytics;
  props = [];
}
new (document d) = record {
  defined = true;
  cf_analytics_enabled = flag_or_false d.cf_analytics;
  custom_analytics_enabled = flag_or_false d.custom_analytics;
  props = [];
}

unfoldable pub custom_analytics_defined : Toggle → Bool
custom_analytics_defined t =
    if not t.defined then false else not (t.cf_analytics_enabled && not t.custom_analytics_enabled)

unfoldable pub enabled : Toggle → Bool
enabled t = t.cf_analytics_enabled || t.custom_analytics_enabled

pub is_custom : Toggle → Bool
is_custom t = t.custom_analytics_enabled

to_document : Toggle → Document
to_document t = record {
  cf_analytics = if t.defined then some t.cf_analytics_enabled else none;
  custom_analytics = if t.defined then some t.custom_analytics_enabled else none;
  saved_props = t.props;
}

-- `save`: the result, and the file that is left.
pub save : Write → Toggle → Result (Unit {0}) × File
unfolding to_document
save written t = (ok tt, document (to_document t))
save (failed e left) t = (err e, left)

-- A method that changes the toggle and saves it.
abbrev pub Saved : Type 0
Saved = Toggle × Result (Unit {0}) × File

saving : Write → Toggle → Saved
saving write t = let (r, file) = save write t in (t, r, file)

pub set_cf_analytics_enabled : Bool → Write → Toggle → Saved
unfolding saving
set_cf_analytics_enabled value write t = saving write (
    if not value
    then record t { defined = true; cf_analytics_enabled = value; custom_analytics_enabled = value }
    else record t { defined = true; cf_analytics_enabled = value })

pub set_custom_analytics_enabled : Bool → Write → Toggle → Saved
unfolding saving
set_custom_analytics_enabled value write t =
    saving write
      (record t { defined = true; cf_analytics_enabled = value; custom_analytics_enabled = value })

pub set_prop : String → String → Write → Toggle → Saved
unfolding saving
set_prop k v write t = saving write (record t { props = put k v t.props })
