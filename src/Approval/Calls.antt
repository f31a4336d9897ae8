-- ===== src/Approval/Calls.antt =====
-- The calls of internal/approval/manager.go on requests and rules are sequences of effects.
use denkeeper.Prelude.{
  ℕ, ◌≡◌, refl, String, Bool, true, false, some, none, Option, List, [], ◌∷◌, string_eq, Bool-cases,
  inl, inr,
}
use denkeeper.Approval.{pending, Request, Rule, Waited, Result, ok, err, Oracle, World}
use denkeeper.Approval.Table
use denkeeper.Approval.Table.{Op, find_request, has_id, hit, statement, advance}
use denkeeper.Approval.Manager
use denkeeper.Approval.Manager.{Submission, Wake, told, context_done, status_for}
use denkeeper.Approval.Auto
use denkeeper.Approval.Config.{resolve_pairs, set_config_rules, sort_pairs, added_pairs, rule_sets}
use denkeeper.Approval.Auto.{concerns, is_approval, match_config_rule, is_live}
use denkeeper.Approval.Effect.{Effects, next, filed, silent, Adds, and_then-Adds, statement-Adds}
use denkeeper.Approval.Settle.{emit-Effects, resolve-Effects}
use denkeeper.Approval.Run.{woke}

module _ (o : Oracle) (w0 : World) where
  -- The INSERT and the registration are one effect.
  inserted-Effects :
      (id : String) (now at : ℕ) (s : Submission) (action : ℕ) (w : World) (old : Option Request)
      → find_request (has_id id) w.requests ≡ old
      → Effects w0 w
      → Effects w0
          (Table.and_then
            (Table.insert_unless old (Manager.request_of id now s) at w)
            (λ _ w'. (ok (Manager.request_of id now s), Manager.register id action w'))).1
  unfolding Table.insert_unless Table.and_then Manager.register
  inserted-Effects id now at s action w (some r) e es = es
  inserted-Effects id now at s action w none e es =
      next es (filed (Table.new_row (Manager.request_of id now s) at) action e refl refl refl refl)

  pub submit-Adds :
      (id : String) (s : Submission) (action : ℕ) → Adds w0 (Manager.submit o id s action)
  unfolding Manager.submit Table.create Table.insert_row statement Table.attempt advance
      Table.and_then
  submit-Adds id s action w es = elim (Bool-cases (o.runs w.moment)) [
    | inl works ↦ rw works (
        inserted-Effects id (o.clock w.moment) (o.clock w.moment) s action (advance w) _ refl
          (silent es refl refl refl))
    | inr fails ↦ rw fails (silent es refl refl refl)
  ]

  submitted-Effects :
      (id : String) (r : Result Request × World)
      → Effects w0 r.1
      → Effects w0 (Manager.submitted id r).1
  unfolding Manager.submitted Manager.drop_waiter
  submitted-Effects id (err e, w) es = silent es refl refl refl
  submitted-Effects id (ok r, w) es = es

  pub submit_and_wait-Adds :
      (s : Submission) (action : ℕ) → Adds w0 (Manager.submit_and_wait o s action)
  unfolding Manager.submit_and_wait Manager.open_waiter
  submit_and_wait-Adds s action w es =
      submitted-Effects _ _ (submit-Adds (o.new_id w.moment) s action _ (silent es refl refl refl))

  pub woken-Effects :
      (id : String) (wake : Wake) (channel : Option (Option Waited)) (w : World)
      → Effects w0 w
      → Effects w0 (woke w (Manager.woken id wake channel w))
  unfolding Manager.woken woke Manager.drop_waiter
  woken-Effects id context_done channel w es = silent es refl refl refl
  woken-Effects id told (some (some r)) w es = silent es refl refl refl
  woken-Effects id told (some none) w es = es
  woken-Effects id told none w es = es

  resolve_each-Effects :
      (agent tool : String) (rs : List Request) (w : World)
      → Effects w0 w
      → Effects w0 (Auto.resolve_each o agent tool rs w)
  unfolding Auto.resolve_each
  resolve_each-Effects agent tool [] w es = es
  resolve_each-Effects agent tool (r ∷ rs) w es = elim (Bool-cases (concerns agent tool r)) [
    | inl e ↦
        rw e (
          resolve_each-Effects agent tool rs _ (resolve-Effects o w0 r.id true "auto_approve" w es))
    | inr e ↦ rw e (resolve_each-Effects agent tool rs w es)
  ]

  resolve_listed-Effects :
      (agent tool : String) (r : Result (List Request) × World)
      → Effects w0 r.1
      → Effects w0 (Auto.resolve_listed o agent tool r)
  unfolding Auto.resolve_listed
  resolve_listed-Effects agent tool (err e, w) es = es
  resolve_listed-Effects agent tool (ok rs, w) es = resolve_each-Effects agent tool rs w es

  auto_resolve-Effects :
      (agent tool : String) (w : World)
      → Effects w0 w
      → Effects w0 (Auto.auto_resolve_pending o agent tool w)
  unfolding Auto.auto_resolve_pending Table.list Table.select_rows
  auto_resolve-Effects agent tool w es =
      resolve_listed-Effects agent tool (Table.list o pending w)
        (statement-Adds w0 o (Table.select_rows o pending) (λ v fs. fs) w es)

  pub add_session_rule-Effects :
      (agent tool conversation_id by : String) (w : World)
      → Effects w0 w
      → Effects w0 (Auto.add_session_rule o agent tool conversation_id by w)
  unfolding Auto.add_session_rule Auto.audit_rule_created
  add_session_rule-Effects agent tool conversation_id by w es =
      auto_resolve-Effects agent tool _ (emit-Effects o _ _ (silent es refl refl refl))

  insert_rule-Adds : (b : Bool) (r : Rule) → Adds w0 (Table.insert_rule b r)
  unfolding Table.insert_rule
  insert_rule-Adds true r w es = es
  insert_rule-Adds false r w es = silent es refl refl refl

  pub delete_rows-Adds : (b : Bool) (id : String) → Adds w0 (Table.delete_rows b id)
  unfolding Table.delete_rows
  delete_rows-Adds true id w es = silent es refl refl refl
  delete_rows-Adds false id w es = es

  pub add_permanent_rule-Adds :
      (agent tool by : String) → Adds w0 (Auto.add_permanent_rule o agent tool by)
  unfolding Auto.add_permanent_rule Auto.audit_rule_created Table.create_rule
  add_permanent_rule-Adds agent tool by w es =
      and_then-Adds w0 _ _ (statement-Adds w0 o _ (insert_rule-Adds _ _) w es)
        (λ _ v fs. auto_resolve-Effects agent tool _ (emit-Effects o _ _ fs))

  resolve_pairs-Effects :
      (ps : List (String × String)) (w : World) → Effects w0 w → Effects w0 (resolve_pairs o ps w)
  unfolding resolve_pairs
  resolve_pairs-Effects [] w es = es
  resolve_pairs-Effects ((agent, tool) ∷ ps) w es =
      resolve_pairs-Effects ps _ (auto_resolve-Effects agent tool w es)

  pub set_config_rules-Effects :
      (rules : List (String × List String)) (w : World)
      → Effects w0 w
      → Effects w0 (set_config_rules o rules w)
  unfolding set_config_rules
  set_config_rules-Effects rules w es =
      resolve_pairs-Effects (sort_pairs (added_pairs w.config_rules (rule_sets rules)))
        (record w { config_rules = rule_sets rules }) (silent es refl refl refl)
