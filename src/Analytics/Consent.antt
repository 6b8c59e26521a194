-- ===== src/Analytics/Consent.antt =====
-- When the user is asked, and what the answer does.
pub mod Answers
use cfdev.Common.{
  ◌≡◌, ◌⊎◌, arith, subst, refl, inl, inr, String, Bool, true, false, none, some, List, [], ◌∙◌,
  ◌=s◌, Bool-cases, if◌then◌else◌,
}
use cfdev.Runtime.{ok, err}
use cfdev.Toggle.Laws.{IsChoice, set_cf-IsChoice, set_custom-IsChoice, set_custom-defined}
use cfdev.Toggle.{Toggle, File, enabled, custom_analytics_defined}
use cfdev.Common.Text.{codes}
use cfdev.Analytics.Consent.Answers.{is_word_of, yes_words, is_yes-words}
use cfdev.Analytics.Events.{event-disabled}
use cfdev.Common.Dict.{Dict}
use cfdev.Analytics.{
  Sender, event, User, Prompted, use_custom, default_question, is_needed, is_yes, record_choice,
  prompt_opt_in_if_needed, exit_error,
}

abbrev question : String → String
question custom_message = if use_custom custom_message then custom_message else default_question

-- The message, or the fixed question where there is none.
abbrev due_question : String → String
due_question m = if m =s "" then default_question else m

due_question-eq : (m : String) → question m ≡ due_question m
due_question-eq m = ground arith

-- There is no choice yet, or one that says nothing about the custom analytics of a message.
abbrev IsOpen : String → Toggle → Type 0
IsOpen m t =
    (t.defined ≡ false)
    ⊎ (((m =s "") ≡ false) × (t.cf_analytics_enabled ≡ true) × (t.custom_analytics_enabled ≡ false))

-- There is a choice, against both or about custom analytics too where there is a message.
abbrev IsSettled : String → Toggle → Type 0
IsSettled m t =
    (t.defined ≡ true)
    × (((m =s "") ≡ true) ⊎ (t.cf_analytics_enabled ≡ false) ⊎ (t.custom_analytics_enabled ≡ true))

-- What a prompt comes to, by whether the question is settled and whether the exit signal came in.
abbrev ConsentedTo : String → String → User → Toggle → File → Prompted → Type 0
ConsentedTo asking m user t file p =
    (IsOpen m t
      × (p.asked ≡ some asking)
      × (if user.exiting
          then (p.result ≡ err exit_error) × (p.toggle ≡ t) × (p.file ≡ file)
          else (p.toggle.defined ≡ true)
            × (enabled p.toggle ≡ is_word_of yes_words (codes (user.answer asking)))
            × (p.toggle.props ≡ t.props)))
    ⊎ (IsSettled m t × (p.asked ≡ none) × (p.result ≡ ok tt) × (p.toggle ≡ t) × (p.file ≡ file))

abbrev pub Consented : String → User → Toggle → File → Prompted → Type 0
Consented m user t file p = ConsentedTo (due_question m) m user t file p

needed-IsOpen : (m : String) (t : Toggle) → is_needed m t ≡ true → IsOpen m t
unfolding is_needed custom_analytics_defined
needed-IsOpen m t h = elim (Bool-cases t.defined) [
  | inr e ↦ inl e
  | inl e ↦ inr (ground (arith, e, h), ground (arith, e, h), ground (arith, e, h))
]

not_needed-IsSettled : (m : String) (t : Toggle) → is_needed m t ≡ false → IsSettled m t
unfolding is_needed custom_analytics_defined
not_needed-IsSettled m t h = elim (Bool-cases (m =s "")) [
  | inl e ↦ (ground (arith, h), inl e)
  | inr e ↦ elim (Bool-cases t.cf_analytics_enabled) [
    | inr f ↦ (ground (arith, h), inr (inl f))
    | inl f ↦ (ground (arith, h), inr (inr (ground (arith, e, f, h))))
  ]
]

record_choice-IsChoice :
    (m : String) (choice : Bool) (user : User) (t : Toggle)
    → ((record_choice m choice user t).asked ≡ some (question m))
      × IsChoice choice t (record_choice m choice user t).toggle
      × (is_needed m (record_choice m choice user t).toggle ≡ false)
unfolding record_choice is_needed
record_choice-IsChoice m choice user t = elim (Bool-cases (m =s "")) [
  | inl e ↦ let c = set_cf-IsChoice choice user.write t in rw e (refl, c, rw c.0)
  | inr e ↦
      let c = set_custom-IsChoice choice user.write t in
      rw e (refl, c, rw (c.0, set_custom-defined choice user.write t))
]

prompt_opt_in-ConsentedTo :
    (m : String) (user : User) (t : Toggle) (file : File)
    → ConsentedTo (question m) m user t file (prompt_opt_in_if_needed m user t file)
unfolding prompt_opt_in_if_needed
prompt_opt_in-ConsentedTo m user t file = elim (Bool-cases (is_needed m t)) [
  | inl needed ↦ elim (Bool-cases user.exiting) [
    | inl exiting ↦ rw (needed, exiting) (inl (needed-IsOpen m t needed, refl, (refl, refl, refl)))
    | inr stays ↦
        let response = user.answer (question m) in
        let (asked, (defined, told, kept), settled) =
          record_choice-IsChoice m (is_yes response) user t in
        rw (needed, stays)
          (inl (needed-IsOpen m t needed, asked, (defined, told ∙ is_yes-words response, kept)))
  ]
  | inr not_needed ↦
      rw not_needed (inr (not_needed-IsSettled m t not_needed, refl, refl, refl, refl))
]

-- The user is asked exactly when no choice is recorded, or when there is a custom message and the
-- choice is for the general analytics and not for the custom ones. An exit signal leaves the choice
-- and its file alone and is an error; otherwise the choice becomes one, enabled exactly if the answer
-- was y or yes, in any case of the letters.
pub prompt_opt_in-Consented :
    (m : String) (user : User) (t : Toggle) (file : File)
    → Consented m user t file (prompt_opt_in_if_needed m user t file)
prompt_opt_in-Consented m user t file =
    subst (λ q. ConsentedTo q m user t file (prompt_opt_in_if_needed m user t file))
      (due_question-eq m) (prompt_opt_in-ConsentedTo m user t file)

-- A user is asked at most once: where no exit signal comes in, a second prompt for the same
-- message, by any user, asks nothing and changes nothing.
pub prompt_opt_in_once :
    (m : String) (user later : User) (t : Toggle) (file : File)
    → user.exiting ≡ false
    → let p = prompt_opt_in_if_needed m user t file in
      prompt_opt_in_if_needed m later p.toggle p.file
      ≡ record { asked = none; result = ok tt; toggle = p.toggle; file = p.file }
unfolding prompt_opt_in_if_needed
prompt_opt_in_once m user later t file stays = elim (Bool-cases (is_needed m t)) [
  | inl needed ↦
      rw (needed, stays)
        (rw (record_choice-IsChoice m (is_yes (user.answer (question m))) user t).2)
  | inr not_needed ↦ rw (not_needed, not_needed)
]

answered-enabled :
    (m : String) (user : User) (t : Toggle) (file : File)
    → is_needed m t ≡ true
    → user.exiting ≡ false
    → enabled (prompt_opt_in_if_needed m user t file).toggle ≡ is_yes (user.answer (question m))
unfolding prompt_opt_in_if_needed
answered-enabled m user t file needed stays =
    let (asked, choice, settled) =
      record_choice-IsChoice m (is_yes (user.answer (question m))) user t in
    rw (needed, stays) (choice.1)

-- After a user who was asked, without an exit signal, did not answer yes, an event sends nothing.
pub declined-event :
    (m : String) (user : User) (t : Toggle) (file : File) (a : Sender) (name : String)
    (data_maps : List (Dict String))
    → is_needed m t ≡ true
    → user.exiting ≡ false
    → is_yes (user.answer (question m)) ≡ false
    → event a (prompt_opt_in_if_needed m user t file).toggle name data_maps ≡ []
declined-event m user t file a name data_maps needed stays refused =
    event-disabled a _ name data_maps (answered-enabled m user t file needed stays ∙ refused)
