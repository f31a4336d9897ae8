-- ===== src/Task/Run/Keeps.antt =====
-- Each call of internal/task/service.go is a sequence of effects of its member.
use denkeeper.Prelude.{
  ℕ, ◌≡◌, refl, subst, String, true, false, not, ◌||◌, Bool-cases, Option, none, some, inl, inr,
  ◌==◌, string_eq,
}
use denkeeper.Task.{EventKind, Status, status_eq}
use denkeeper.Task.Db.{Env, Db, Result, ok, err, Loaded, read_task, select_task}
use denkeeper.Task.Store
use denkeeper.Task.Effect.{Effect}
use denkeeper.Task.Effect.Updates.{
  release-Effect, checkout-Effect, set_status-Effect, assign-Effect, edit-Effect,
  add_comment-Effect,
}
use denkeeper.Task.Effect.Create.{create-Effect}
use denkeeper.Task.Service
use denkeeper.Task.Service.{
  World, Svc, ◌>>=◌, ◌>>◌, and_then, give, call, on_db, CreateRequest, UpdateRequest, Drivers, emit,
  notify, notify_parent, edit_step, assign_step, move_step, Change, clean_text, edit_field, resolve,
  resolve_optional,
}
use denkeeper.Task.Run.{
  Command, file_task, check_out, let_go, change, say, step, Effects, done, next,
}

-- What a computation of the service keeps true of the tables.
abbrev Keeps : {A : Type 0} → (Db → Type 0) → Svc A → Type 0
Keeps P m = (w : World) → P w.db → P (m w).1.db

module _ (P : Db → Type 0) where
  and_then-Keeps :
      {A B : Type 0} (r : Result A × World) (f : A → Svc B)
      → P r.1.db
      → ((a : A) → Keeps P (f a))
      → P (and_then r f).1.db
  and_then-Keeps (err e, w) f p k = p
  and_then-Keeps (ok a, w) f p k = k a w p

  bind-Keeps :
      {A B : Type 0} (m : Svc A) (f : A → Svc B)
      → Keeps P m
      → ((a : A) → Keeps P (f a))
      → Keeps P (m >>= f)
  bind-Keeps m f km kf w p = and_then-Keeps (m w) f (km w p) kf

  give-Keeps : {A : Type 0} (r : Result A) → Keeps P (give r)
  give-Keeps r w p = p

  on_db-db : {A : Type 0} (w : World) (r : Result A × Db) → (on_db w r).1.db ≡ r.1
  on_db-db w (r, db) = refl

  call-Keeps :
      {A : Type 0} (f : Db → Result A × Db) → ((db : Db) → P db → P (f db).1) → Keeps P (call f)
  call-Keeps f k w p = rw (on_db-db w (f w.db)) (k w.db p)

  notify-Keeps : (sv : Service.Service) (c : Change) → Keeps P (notify sv c)
  unfolding notify
  notify-Keeps sv c w p = elim (Bool-cases sv.has_hook) [ inl e ↦ rw e p | inr e ↦ rw e p ]

  emit-Keeps :
      (sv : Service.Service) (actor : String) (id : ℕ) (kind : EventKind)
      → Keeps P (emit sv actor id kind)
  unfolding emit
  emit-Keeps sv actor id kind w p = elim (Bool-cases sv.has_auditor) [
    | inl e ↦ rw e (notify-Keeps sv _ _ p)
    | inr e ↦ rw e (notify-Keeps sv _ w p)
  ]

  -- A write, its audit event and the result.
  write-Keeps :
      {A : Type 0} (sv : Service.Service) (actor : String) (id : A → ℕ) (kind : EventKind)
      (f : Db → Result A × Db)
      → ((db : Db) → P db → P (f db).1)
      → Keeps P (call f >>= λ t. emit sv actor (id t) kind >> give (ok t))
  write-Keeps sv actor id kind f k = bind-Keeps (call f) _ (call-Keeps f k) (λ t.
      bind-Keeps (emit sv actor (id t) kind) _ (emit-Keeps sv actor (id t) kind)
        (λ _. give-Keeps (ok t)))

module _ (sv : Service.Service) (actor : String) (db0 : Db) where
  abbrev After : Db → Type 0
  After = Effects sv.limits actor db0

  Effect-Keeps :
      {A : Type 0} (f : Db → Result A × Db)
      → ((db : Db) → Effect sv.limits actor db (f db).1)
      → (db : Db) → After db
      → After (f db).1
  Effect-Keeps f e db done_so_far = next done_so_far (e db)

  edit_step-Keeps :
      (env : Env) (id : ℕ) (title body : String) (cur : Loaded)
      → Keeps After (edit_step sv env actor id title body cur)
  unfolding edit_step
  edit_step-Keeps env id title body cur w p =
      elim (Bool-cases (not (title == cur.title) || not (body == cur.body))) [
        | inr same ↦ rw same p
        | inl differs ↦ rw differs (
            write-Keeps After sv actor (λ _. id) EventKind.edited
              (Store.edit env actor id title body)
              (Effect-Keeps (Store.edit env actor id title body)
                (λ db. edit-Effect sv.limits env actor id db title body))
              w p)
      ]

  assign_step-Keeps :
      (env : Env) (id : ℕ) (asked : Option String) (assignee : String) (t : Loaded)
      → Keeps After (assign_step sv env actor id asked assignee t)
  unfolding assign_step
  assign_step-Keeps env id none assignee t w p = p
  assign_step-Keeps env id (some _) assignee t w p = elim (Bool-cases (assignee == t.assignee)) [
    | inl same ↦ rw same p
    | inr differs ↦ rw differs (
        write-Keeps After sv actor (λ _. id) EventKind.assigned (Store.assign env actor id assignee)
          (Effect-Keeps (Store.assign env actor id assignee)
            (λ db. assign-Effect sv.limits env actor id db assignee))
          w p)
  ]

  move_step-Keeps :
      (env : Env) (id : ℕ) (asked : Option Status) (reason : String) (t : Loaded)
      → Keeps After (move_step sv env actor id asked reason t)
  unfolding move_step
  move_step-Keeps env id none reason t w p = p
  move_step-Keeps env id (some s) reason t w p = elim (Bool-cases (s == t.status)) [
    | inl same ↦ rw same p
    | inr differs ↦ rw differs (
        write-Keeps After sv actor (λ _. id) EventKind.status
          (Store.set_status env actor id s reason)
          (Effect-Keeps (Store.set_status env actor id s reason)
            (λ db. set_status-Effect sv.limits env actor id db s reason))
          w p)
  ]

  update-Keeps :
      (drivers : Drivers) (id : ℕ) (req : UpdateRequest)
      → Keeps After (Service.update sv drivers actor id req)
  unfolding Service.update
  update-Keeps drivers id req =
      bind-Keeps After (call (λ db. (read_task drivers.get select_task id db, db))) _
        (call-Keeps After (λ db. (read_task drivers.get select_task id db, db)) (λ db p. p))
        (λ cur.
          bind-Keeps After (give (edit_field "title" cur.title req.title 200 true)) _
            (give-Keeps After (edit_field "title" cur.title req.title 200 true))
            (λ title.
              bind-Keeps After (give (edit_field "body" cur.body req.body 20000 false)) _
                (give-Keeps After (edit_field "body" cur.body req.body 20000 false))
                (λ body.
                  bind-Keeps After (give (clean_text "reason" req.reason 500 false)) _
                    (give-Keeps After (clean_text "reason" req.reason 500 false))
                    (λ reason.
                      bind-Keeps After (give (resolve_optional sv req.assignee actor)) _
                        (give-Keeps After (resolve_optional sv req.assignee actor))
                        (λ assignee.
                          bind-Keeps After (edit_step sv drivers.edit actor id title body cur) _
                            (edit_step-Keeps drivers.edit id title body cur)
                            (λ t.
                              bind-Keeps After
                                (assign_step sv drivers.assign actor id req.assignee assignee t) _
                                (assign_step-Keeps drivers.assign id req.assignee assignee t)
                                (λ t'. move_step-Keeps drivers.move id req.status reason t')))))))

  notify_parent-Keeps : (p : Option ℕ) → Keeps After (notify_parent sv actor p)
  notify_parent-Keeps none w p = p
  notify_parent-Keeps (some q) w p =
      notify-Keeps After sv (record { task_id = q; kind = EventKind.subtask; actor = actor }) w p

  store_create-Keeps :
      (env : Env) (input : Store.CreateInput)
      → input.actor ≡ actor
      → Keeps After (call (Store.create env sv.limits input))
  store_create-Keeps env input by = call-Keeps After (Store.create env sv.limits input) (
      Effect-Keeps (Store.create env sv.limits input) (λ db.
        subst (λ a. Effect sv.limits a db (Store.create env sv.limits input db).1) by
          (create-Effect sv.limits env input db)))

  create-Keeps : (env : Env) (req : CreateRequest) → Keeps After (Service.create sv env actor req)
  unfolding Service.create
  create-Keeps env req =
      bind-Keeps After (give (clean_text "title" req.title 200 true)) _
        (give-Keeps After (clean_text "title" req.title 200 true))
        (λ title.
          bind-Keeps After (give (clean_text "body" req.body 20000 false)) _
            (give-Keeps After (clean_text "body" req.body 20000 false))
            (λ body.
              bind-Keeps After (give (resolve sv req.assignee actor)) _
                (give-Keeps After (resolve sv req.assignee actor))
                (λ assignee. bind-Keeps After (call _) _ (store_create-Keeps env _ refl) (λ t.
                  bind-Keeps After (emit sv actor t.id EventKind.created) _
                    (emit-Keeps After sv actor t.id EventKind.created)
                    (λ _.
                      bind-Keeps After (notify_parent sv actor req.parent_id) _
                        (notify_parent-Keeps req.parent_id) (λ _. give-Keeps After (ok t)))))))

  checkout-Keeps : (env : Env) (id : ℕ) → Keeps After (Service.checkout sv env actor id)
  unfolding Service.checkout
  checkout-Keeps env id =
      write-Keeps After sv actor (λ _. id) EventKind.claimed (Store.checkout env actor id)
        (Effect-Keeps (Store.checkout env actor id) (checkout-Effect sv.limits env actor id))

  release-Keeps : (env : Env) (id : ℕ) → Keeps After (Service.release sv env actor id)
  unfolding Service.release
  release-Keeps env id =
      write-Keeps After sv actor (λ _. id) EventKind.released (Store.release env actor id)
        (Effect-Keeps (Store.release env actor id) (release-Effect sv.limits env actor id))

  add_comment-Keeps :
      (env : Env) (id : ℕ) (body : String) → Keeps After (Service.add_comment sv env actor id body)
  unfolding Service.add_comment
  add_comment-Keeps env id body =
      bind-Keeps After (give (clean_text "comment" body 20000 true)) _
        (give-Keeps After (clean_text "comment" body 20000 true))
        (λ text.
          write-Keeps After sv actor (λ _. id) EventKind.comment
            (Store.add_comment env actor id text)
            (Effect-Keeps (Store.add_comment env actor id text)
              (λ db. add_comment-Effect sv.limits env actor id db text)))

-- Each call of the service is a sequence of effects of its member, whatever the driver does.
pub step-Effects :
    (sv : Service.Service) (actor : String) (c : Command) (w : World)
    → Effects sv.limits actor w.db (step sv actor c w).db
unfolding step
step-Effects sv actor (file_task env req) w = create-Keeps sv actor w.db env req w done
step-Effects sv actor (check_out env id) w = checkout-Keeps sv actor w.db env id w done
step-Effects sv actor (let_go env id) w = release-Keeps sv actor w.db env id w done
step-Effects sv actor (change drivers id req) w = update-Keeps sv actor w.db drivers id req w done
step-Effects sv actor (say env id body) w = add_comment-Keeps sv actor w.db env id body w done
