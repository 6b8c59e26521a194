-- ===== src/Analytics/Events.antt =====
-- What an event carries, and that none is sent against the user's choice.
use cfdev.Common.{
  ◌≡◌, refl, ◌∙◌, ap, String, true, false, Option, none, some, List, [], ◌∷◌, ◌=s◌, if◌then◌else◌,
}
use cfdev.Common.Dict.{Dict, get, merge, latest, get-merge, get-put}
use cfdev.Toggle.{Toggle, enabled}
use cfdev.Analytics.{Sender, identify, track, merge_all, base_properties, event}

-- Nothing at all is sent for a user who has not enabled analytics, whatever the event.
pub event-disabled :
    (a : Sender) (t : Toggle) (name : String) (data_maps : List (Dict String))
    → enabled t ≡ false
    → event a t name data_maps ≡ []
unfolding event
event-disabled a t name data_maps off = rw off

-- The value of a key after several maps, each over those before it.
abbrev pub latest_of : String → List (Dict String) → Option String → Option String
latest_of k [] before = before
latest_of k (m ∷ ms) before = latest_of k ms (latest k m before)

get-merge_all :
    (k : String) (ms : List (Dict String)) (d : Dict String)
    → get k (merge_all ms d) ≡ latest_of k ms (get k d)
unfolding merge_all
get-merge_all k [] d = refl
get-merge_all k (m ∷ ms) d = get-merge_all k ms (merge m d) ∙ ap (latest_of k ms) (get-merge k m d)

abbrev pub platform_value : Sender → String → Option String
platform_value a k =
    if "os_version" =s k
    then some a.os_version
    else if "plugin_version" =s k
    then some a.version
    else if "os" =s k
    then some a.goos
    else none

get-base_properties : (a : Sender) (k : String) → get k (base_properties a) ≡ platform_value a k
unfolding base_properties get
get-base_properties a k = simp get-put

-- For a user who has enabled analytics, an event is one identification and one record of that name.
-- Under each key the record has the value of the event's own data, the last map first, or else that
-- of the toggle's properties, or else that of the platform.
pub event-enabled :
    (a : Sender) (t : Toggle) (name : String) (data_maps : List (Dict String))
    → enabled t ≡ true
    → (sent : Dict String) × (event a t name data_maps
        ≡ identify a.user_id ∷ track a.user_id name sent ∷ [])
      × ((k : String) → get k sent ≡ latest_of k data_maps (latest k t.props (platform_value a k)))
unfolding event
event-enabled a t name data_maps on = (
  merge_all data_maps (merge t.props (base_properties a)),
  rw on,
  λ k.
      get-merge_all k data_maps _
      ∙ ap (latest_of k data_maps)
          (get-merge k t.props _ ∙ ap (latest k t.props) (get-base_properties a k)),
)
