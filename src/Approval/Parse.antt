-- ===== src/Approval/Parse.antt =====
-- The callback data of internal/approval/manager.go, printed and parsed.
use denkeeper.Prelude.{
  ◌≡◌, refl, ap, ◌∙◌, String, none, some, [], ◌∷◌, cut_prefix, cut_suffix, reverse_onto,
  cut_prefix-append, cut_prefix_other, cut_suffix_other, cut_suffix-append,
}
use Prim.Native.String.{◌++◌}
use text.Mathlib.TextLemmas.{append_assoc}
use denkeeper.Approval.Callback.{
  CallbackAction, approve, deny, approve_session, approve_always, action_text, parse_callback,
  cut_action,
}

-- The data of a button: the callback_data of its request, and the action.
abbrev pub button_data : String → CallbackAction → String
button_data id a = ("appr:" ++ id) ++ (":" ++ action_text a)

no_session_in_approve : (p : String) → cut_suffix ":approve_session" (p ++ ":approve") ≡ none
unfolding reverse_onto
no_session_in_approve p =
    cut_suffix_other ":approve_session" p ":approve" (λ t. cut_prefix_other _ _ _ _ t refl)

no_always_in_approve : (p : String) → cut_suffix ":approve_always" (p ++ ":approve") ≡ none
unfolding reverse_onto
no_always_in_approve p =
    cut_suffix_other ":approve_always" p ":approve" (λ t. cut_prefix_other _ _ _ _ t refl)

no_session_in_always : (p : String) → cut_suffix ":approve_session" (p ++ ":approve_always") ≡ none
unfolding reverse_onto
no_session_in_always p =
    cut_suffix_other ":approve_session" p ":approve_always" (λ t. cut_prefix_other _ _ _ _ t refl)

no_session_in_deny : (p : String) → cut_suffix ":approve_session" (p ++ ":deny") ≡ none
unfolding reverse_onto
no_session_in_deny p =
    cut_suffix_other ":approve_session" p ":deny" (λ t. cut_prefix_other _ _ _ _ t refl)

no_always_in_deny : (p : String) → cut_suffix ":approve_always" (p ++ ":deny") ≡ none
unfolding reverse_onto
no_always_in_deny p =
    cut_suffix_other ":approve_always" p ":deny" (λ t. cut_prefix_other _ _ _ _ t refl)

no_approve_in_deny : (p : String) → cut_suffix ":approve" (p ++ ":deny") ≡ none
unfolding reverse_onto
no_approve_in_deny p = cut_suffix_other ":approve" p ":deny" (λ t. cut_prefix_other _ _ _ _ t refl)

-- Each test of the loop looks at the end of the text alone.
cut_actions :
    (p : String) (a : CallbackAction)
    → cut_action
        (approve_session ∷ approve_always ∷ approve ∷ deny ∷ [])
        (p ++ (":" ++ action_text a))
      ≡ some (p, a)
unfolding cut_action
cut_actions p approve =
    rw (no_session_in_approve p, no_always_in_approve p, cut_suffix-append p ":approve") refl
cut_actions p deny =
    rw
      (no_session_in_deny p, no_always_in_deny p, no_approve_in_deny p, cut_suffix-append p ":deny")
      refl
cut_actions p approve_session = rw (cut_suffix-append p ":approve_session") refl
cut_actions p approve_always =
    rw (no_session_in_always p, cut_suffix-append p ":approve_always") refl

-- What a button sends parses to the callback data of its request and the action of the button,
-- whatever the id of the request is.
pub parse_callback-button_data :
    (id : String) (a : CallbackAction) → parse_callback (button_data id a) ≡ some ("appr:" ++ id, a)
unfolding parse_callback
parse_callback-button_data id a =
    let opened : cut_prefix "appr:" (button_data id a) ≡ some (id ++ (":" ++ action_text a)) =
      ap (cut_prefix "appr:") (append_assoc "appr:" id (":" ++ action_text a))
      ∙ cut_prefix-append "appr:" (id ++ (":" ++ action_text a)) in
    rw opened (cut_actions ("appr:" ++ id) a)
