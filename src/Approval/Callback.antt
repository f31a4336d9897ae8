-- ===== src/Approval/Callback.antt =====
-- internal/approval/manager.go: parseCallback and ExtractToolName, on texts.
use denkeeper.Prelude.{
  String, Option, none, some, string_eq, cut_prefix, cut_suffix, split_at, List, [], ◌∷◌,
}
use mathlib.Core.Option
use Prim.Native.String.{◌++◌}

pub data CallbackAction : Type 0 where
  approve deny approve_session approve_always : CallbackAction

abbrev pub action_text : CallbackAction → String
action_text approve = "approve"
action_text deny = "deny"
action_text approve_session = "approve_session"
action_text approve_always = "approve_always"

-- The action of the suffix that was cut, or of a later one.
abbrev pub cut_or :
    Option String
    → CallbackAction
    → Option (String × CallbackAction)
    → Option (String × CallbackAction)
cut_or (some prefix) a later = some (prefix, a)
cut_or none a later = later

-- The loop over the suffixes, in the code's order.
unfoldable pub cut_action : List CallbackAction → String → Option (String × CallbackAction)
unfolding cut_suffix
cut_action [] data_text = none
cut_action (a ∷ rest_of) data_text =
    cut_or (cut_suffix (":" ++ action_text a) data_text) a (cut_action rest_of data_text)

abbrev pub if_prefixed :
    Option String → Option (String × CallbackAction) → Option (String × CallbackAction)
if_prefixed none parsed = none
if_prefixed (some _) parsed = parsed

-- parseCallback
unfoldable pub parse_callback : String → Option (String × CallbackAction)
unfolding cut_action
parse_callback data_text =
    if_prefixed (cut_prefix "appr:" data_text)
      (cut_action (approve_session ∷ approve_always ∷ approve ∷ deny ∷ []) data_text)

-- The text after the first occurrence of another, which comes first.
unfoldable pub after_first : String → String → Option String
unfolding cut_prefix
after_first mark String.[] = cut_prefix mark ""
after_first mark (String.◌∷◌ c s) =
    let rest = after_first mark s in
    elim (cut_prefix mark (String.◌∷◌ c s)) [ some t ↦ some t | none ↦ rest ]

abbrev or_empty : Option (String × String) → String
or_empty none = ""
or_empty (some p) = p.0

unfoldable pub until_quote : Option String → String
unfolding split_at
until_quote none = ""
until_quote (some rest) = or_empty (split_at 34 rest)

-- ExtractToolName
unfoldable pub extract_tool_name : String → String
unfolding after_first until_quote
extract_tool_name summary = until_quote (after_first "Execute tool \"" summary)

-- sessionRuleKey
unfoldable pub session_rule_key : String → String → String → String
session_rule_key agent conversation_id tool = agent ++ "\0" ++ conversation_id ++ "\0" ++ tool

unfoldable pub middle_of : Option (String × String) → Option String
unfolding split_at
middle_of none = none
middle_of (some p) = Option.map (λ q. q.0) (split_at 0 p.1)

-- The second of the three parts of strings.SplitN at NUL, if there are three.
unfoldable pub key_conversation : String → Option String
unfolding split_at middle_of
key_conversation key = middle_of (split_at 0 key)
