-- ===== src/Analytics.antt =====
-- cfanalytics/cfanalytics.go: the events that the plugin sends, and the question whether it may.
pub mod Consent
pub mod Events
mod Examples
use cfdev.Common.{
  String, Bool, true, false, not, ◌&&◌, ◌||◌, Option, none, some, List, [], ◌∷◌, ◌=s◌,
  if◌then◌else◌,
}
use cfdev.Common.Dict.{Dict, put, merge}
use cfdev.Common.Text.{codes, lower, same}
use cfdev.Errors.{Error, safe_nil}
use cfdev.Runtime.{Result, ok, err}
use cfdev.Toggle.{
  Toggle, Write, File, enabled, custom_analytics_defined, set_cf_analytics_enabled,
  set_custom_analytics_enabled,
}

-- The client of the plugin: who sends, and from where.
pub record Sender : Type 0 where
  pub user_id : String
  pub version : String
  pub os_version : String
  pub goos : String

-- What is put on the queue of segment.io. The time stamp is left out.
pub data Sent : Type 0 where
  identify : String → Sent
  track : String → String → Dict String → Sent

-- `for _, d := range data { for k, v := range d { properties.Set(k, v) } }`
merge_all : List (Dict String) → Dict String → Dict String
merge_all [] d = d
merge_all (m ∷ ms) d = merge_all ms (merge m d)

base_properties : Sender → Dict String
base_properties a =
    put "os_version" a.os_version (put "plugin_version" a.version (put "os" a.goos []))

-- `Event`: what it enqueues, in order.
pub event : Sender → Toggle → String → List (Dict String) → List Sent
unfolding merge_all base_properties
event a t name data_maps =
    if not (enabled t)
    then []
    else identify a.user_id
      ∷ track a.user_id name (merge_all data_maps (merge t.props (base_properties a)))
      ∷ []

-- The fixed question of `PromptOptInIfNeeded`.
abbrev pub default_question : String
default_question =
    "CF Dev collects anonymous usage data to help us improve your user experience. We intend to share these anonymous usage analytics with user community by publishing quarterly reports at :\n\t\t\nhttps://github.com/pivotal-cf/cfdev/wiki/Telemetry\n\t\t\nAre you ok with CF Dev periodically capturing anonymized telemetry [y/N]?"

-- The user's side: what is answered to a question, whether the exit signal came in meanwhile, and
-- what the write of the choice comes to.
pub record User : Type 0 where
  pub answer : String → String
  pub exiting : Bool
  pub write : Write

pub record Prompted : Type 0 where
  pub asked : Option String
  pub result : Result (Unit {0})
  pub toggle : Toggle
  pub file : File

abbrev pub use_custom : String → Bool
use_custom custom_message = not (custom_message =s "")

pub is_needed : String → Toggle → Bool
is_needed custom_message t =
    not t.defined || (use_custom custom_message && not (custom_analytics_defined t))

pub is_yes : String → Bool
is_yes response =
    same (lower (codes response)) (codes "y") || same (lower (codes response)) (codes "yes")

record_choice : String → Bool → User → Toggle → Prompted
record_choice custom_message choice user t =
    let question = if use_custom custom_message then custom_message else default_question in
    let (t', r, file) =
      (if use_custom custom_message
        then set_custom_analytics_enabled choice user.write t
        else set_cf_analytics_enabled choice user.write t) in
    record { asked = some question; result = r; toggle = t'; file = file }

abbrev pub exit_error : Error
exit_error = safe_nil "Exit while waiting for telemetry prompt"

-- `PromptOptInIfNeeded`
pub prompt_opt_in_if_needed : String → User → Toggle → File → Prompted
unfolding record_choice is_yes is_needed
prompt_opt_in_if_needed custom_message user t file =
    if is_needed custom_message t
    then (let question = if use_custom custom_message then custom_message else default_question in
        if user.exiting
        then record { asked = some question; result = err exit_error; toggle = t; file = file }
        else record_choice custom_message (is_yes (user.answer question)) user t)
    else record { asked = none; result = ok tt; toggle = t; file = file }
