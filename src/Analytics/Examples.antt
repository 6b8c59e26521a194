-- ===== src/Analytics/Examples.antt =====
-- The theorems on analytics, the toggle and safe errors at concrete users.
use cfdev.Common.{◌≡◌, refl, String, true, false, ◌&&◌, none, [], ◌∷◌}
use cfdev.Common.Dict.{Dict, get, latest}
use cfdev.Errors.{plain, safe, safe_error}
use cfdev.Errors.Safe.{redact, safe_error-redact}
use cfdev.Runtime.{ok}
use cfdev.Toggle.{Toggle, written, missing, undecided, new, save, enabled}
use cfdev.Toggle.Laws.{new-save}
use cfdev.Analytics.{
  Sender, identify, track, event, User, is_needed, is_yes, prompt_opt_in_if_needed,
}
use cfdev.Analytics.Events.{latest_of, platform_value, event-enabled}
use cfdev.Analytics.Consent.{Consented, prompt_opt_in-Consented, prompt_opt_in_once, declined-event}

safe_error-redact_example :
    safe_error (redact "***" (safe (plain "/home/me: permission denied") "cf dev stop"))
    ≡ safe_error (safe (plain "/home/me: permission denied") "cf dev stop")
safe_error-redact_example =
    safe_error-redact "***" (safe (plain "/home/me: permission denied") "cf dev stop")

-- The user has agreed to the general analytics.
abbrev agreed : Toggle
agreed = record {
  defined = true;
  cf_analytics_enabled = true;
  custom_analytics_enabled = false;
  props = ("type", "cf") ∷ [];
}

abbrev refuses : User
refuses = record { answer = λ question. "no"; exiting = false; write = written }

abbrev agrees : User
agrees = record { answer = λ question. "Yes"; exiting = false; write = written }

abbrev sender : Sender
sender = record { user_id = "u"; version = "0.0.14"; os_version = "10.14"; goos = "darwin" }

new-save_example : new (save written agreed).1 ≡ record {
  defined = true;
  cf_analytics_enabled = true && true;
  custom_analytics_enabled = true && false;
  props = [];
}
new-save_example = new-save agreed

event-enabled_example :
    (sent : Dict String) × (event sender agreed "start_begin" []
      ≡ identify "u" ∷ track "u" "start_begin" sent ∷ [])
    × ((k : String) → get k sent ≡ latest_of k [] (latest k agreed.props (platform_value sender k)))
unfolding enabled
event-enabled_example = event-enabled sender agreed "start_begin" [] refl

prompt_opt_in-Consented_example :
    Consented "May we?" agrees undecided missing
      (prompt_opt_in_if_needed "May we?" agrees undecided missing)
prompt_opt_in-Consented_example = prompt_opt_in-Consented "May we?" agrees undecided missing

prompt_opt_in_once_example :
    let p = prompt_opt_in_if_needed "" refuses undecided missing in
    prompt_opt_in_if_needed "" agrees p.toggle p.file
    ≡ record { asked = none; result = ok tt; toggle = p.toggle; file = p.file }
prompt_opt_in_once_example = prompt_opt_in_once "" refuses agrees undecided missing refl

declined-event_example :
    event sender (prompt_opt_in_if_needed "" refuses undecided missing).toggle "stop" [] ≡ []
unfolding is_needed is_yes
declined-event_example = declined-event "" refuses undecided missing sender "stop" [] refl refl refl
