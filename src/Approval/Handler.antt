-- ===== src/Approval/Handler.antt =====
-- internal/approval/callback.go: the answers that a chat user reads. The answer of an error is the
-- error itself, and `silent` stands for the empty text.
use denkeeper.Prelude.{String, Option, none, some, cut_prefix}
use denkeeper.Approval.{
  approved, denied, expired, Request, Error, not_found, stale_callback, Oracle, World,
}
use denkeeper.Approval.Manager.{Reply}
use denkeeper.Approval.Callback.{
  CallbackAction, approve, deny, approve_session, approve_always, parse_callback,
}
use denkeeper.Approval.Auto.{resolve_by_callback}

-- The message, with the summary that it ends with.
pub data Message : Type 0 where
  silent has_expired no_longer_pending : Message
  already_approved already_denied : String → Message
  now_approved approved_for_session approved_always now_denied : String → Message
  failed : Error → Message

unfoldable pub stale_message : Option Request → Message
stale_message none = no_longer_pending
stale_message (some r) = elim r.status [
  | expired ↦ has_expired
  | approved ↦ already_approved r.summary
  | denied ↦ already_denied r.summary
  | _ ↦ no_longer_pending
]

-- `_, action, _ := parseCallback(data)`: with no action, the switch takes its default.
unfoldable pub done_message : Option (String × CallbackAction) → String → Message
done_message none summary = now_denied summary
done_message (some (prefix, approve_session)) summary = approved_for_session summary
done_message (some (prefix, approve_always)) summary = approved_always summary
done_message (some (prefix, approve)) summary = now_approved summary
done_message (some (prefix, deny)) summary = now_denied summary

-- The switch on the error compares it with `==`: an error of an action is the default case.
unfoldable pub message_of : Option (String × CallbackAction) → Reply → Message
unfolding stale_message done_message
message_of parsed (request, some not_found) = silent
message_of parsed (request, some stale_callback) = stale_message request
message_of parsed (request, some e) = failed e
message_of parsed (some r, none) = done_message parsed r.summary
message_of parsed (none, none) = silent

unfoldable pub handled : Oracle → String → Option String → World → Message × World
unfolding message_of resolve_by_callback parse_callback
handled o data_text none w = (silent, w)
handled o data_text (some _) w =
    let (reply, w') = resolve_by_callback o data_text "telegram" w in
    (message_of (parse_callback data_text) reply, w')

-- Handler.Resolve
unfoldable pub handle : Oracle → String → World → Message × World
unfolding handled
handle o data_text w = handled o data_text (cut_prefix "appr:" data_text) w
