-- ===== src/Bridge/Dispatch/Replies/Once.antt =====
-- main/ws_bridge.cpp: each command makes exactly one reply, to the socket that it is given.
use zhac_mono_core.Prelude.{
  ℕ, ◌^◌, ◌<◌, ◌≡◌, refl, ◌∙◌, inl, inr, Bool, true, false, Option, none, some, List, [], ◌∷◌, ◌++◌,
  if◌then◌else◌, arith, append-nil, Bool-cases, Option-cases,
}
use zhac_mono_core.Prelude.Text.{bytes}
use zhac_mono_core.Document.{Json, as_text}
use zhac_mono_core.Devlist.Page.{IsZap, page_cap, parse_ieee}
use zhac_mono_core.Devlist.Page.Pages.{page_text-length}
use zhac_mono_core.Bridge.World.{Fd, Action, Platform, World, Handler, arg}
use zhac_mono_core.Bridge.Reply.{
  sent, with_data, replied, replied-append, send_err, reply_ok_or_err,
}
use zhac_mono_core.Bridge.Push.{ws_push}
use zhac_mono_core.Bridge.Push.Whole.{replied-ws_push}
use zhac_mono_core.Bridge.Devices.{
  cursor_address, not_empty, with_ieee, cmd_device_reinterview, cmd_device_configure,
  cmd_device_list_page, cmd_device_list, cmd_device_rename, cmd_device_delete,
  cmd_zigbee_permit_join, cmd_zigbee_permit_join_status, cmd_device_attr_set,
  cmd_device_options_set, bind_device, cmd_device_bind,
}
use zhac_mono_core.Groups.Api.{group_create, group_update, group_delete_req}
use zhac_mono_core.Bridge.GroupVerbs.{
  args_text, inner_of, changed, cmd_group_list, cmd_group_create, cmd_group_get, cmd_group_update,
  cmd_group_delete, cmd_group_cmd,
}
use zhac_mono_core.Bridge.RuleVerbs.{
  cmd_rule_list, cmd_rule_create, cmd_rule_update, cmd_rule_enable, cmd_rule_delete,
}
use zhac_mono_core.Bridge.ScriptVerbs.{
  cmd_ping, cmd_alerts_get, cmd_script_list, cmd_script_read, cmd_script_delete, cmd_script_run,
  cmd_script_check,
}

abbrev pub AnswersOnce : (p : Platform) → Handler p → Type 0
AnswersOnce p h =
    (w : World p) (fd : Fd) (id : ℕ) (doc : Json)
    → id < 2 ^ 32
    → replied (h w fd id doc).1 ≡ fd ∷ []

module _ (p : Platform) where
  with_ieee-Answers :
      (w : World p) (fd : Fd) (id : ℕ) (s : Option (List ℕ)) (run : ℕ → World p × List Action)
      → ((ieee : ℕ) → replied (run ieee).1 ≡ fd ∷ [])
      → replied (with_ieee p w fd id s run).1 ≡ fd ∷ []
  unfolding with_ieee send_err replied
  with_ieee-Answers w fd id none run h = refl
  with_ieee-Answers w fd id (some s) run h = ground (arith, h (parse_ieee s))

  pub cmd_device_reinterview-once : AnswersOnce p (cmd_device_reinterview p)
  unfolding cmd_device_reinterview replied reply_ok_or_err
  cmd_device_reinterview-once w fd id doc h =
      with_ieee-Answers w fd id (not_empty (as_text (arg doc "ieee"))) _ (λ ieee. refl)

  pub cmd_device_configure-once : AnswersOnce p (cmd_device_configure p)
  unfolding cmd_device_configure replied reply_ok_or_err send_err
  cmd_device_configure-once w fd id doc h =
      with_ieee-Answers w fd id (as_text (arg doc "ieee")) _ (λ ieee. ground arith)

  pub cmd_device_delete-once : AnswersOnce p (cmd_device_delete p)
  unfolding cmd_device_delete replied reply_ok_or_err
  cmd_device_delete-once w fd id doc h =
      with_ieee-Answers w fd id (as_text (arg doc "ieee")) _ (λ ieee. refl)

  pub cmd_device_rename-once : AnswersOnce p (cmd_device_rename p)
  unfolding cmd_device_rename replied reply_ok_or_err send_err with_ieee
  cmd_device_rename-once w fd id doc h = ground arith

  pub cmd_device_attr_set-once : AnswersOnce p (cmd_device_attr_set p)
  unfolding cmd_device_attr_set replied reply_ok_or_err send_err with_ieee
  cmd_device_attr_set-once w fd id doc h = ground arith

  pub cmd_device_options_set-once : AnswersOnce p (cmd_device_options_set p)
  unfolding cmd_device_options_set replied reply_ok_or_err send_err
  cmd_device_options_set-once w fd id doc h =
      with_ieee-Answers w fd id (as_text (arg doc "ieee")) _ (λ ieee. ground arith)

  pub cmd_device_bind-once : AnswersOnce p (cmd_device_bind p)
  unfolding cmd_device_bind bind_device replied reply_ok_or_err send_err with_ieee
  cmd_device_bind-once w fd id doc h = ground arith

  pub cmd_zigbee_permit_join-once : AnswersOnce p (cmd_zigbee_permit_join p)
  unfolding cmd_zigbee_permit_join replied reply_ok_or_err send_err
  cmd_zigbee_permit_join-once w fd id doc h = ground arith

  pub cmd_rule_list-once : AnswersOnce p (cmd_rule_list p)
  unfolding cmd_rule_list replied send_err
  cmd_rule_list-once w fd id doc h = ground arith

  pub cmd_rule_create-once : AnswersOnce p (cmd_rule_create p)
  unfolding cmd_rule_create replied send_err reply_ok_or_err
  cmd_rule_create-once w fd id doc h = ground arith

  pub cmd_rule_update-once : AnswersOnce p (cmd_rule_update p)
  unfolding cmd_rule_update replied send_err reply_ok_or_err
  cmd_rule_update-once w fd id doc h = ground arith

  pub cmd_rule_enable-once : AnswersOnce p (cmd_rule_enable p)
  unfolding cmd_rule_enable replied send_err reply_ok_or_err
  cmd_rule_enable-once w fd id doc h = ground arith

  pub cmd_rule_delete-once : AnswersOnce p (cmd_rule_delete p)
  unfolding cmd_rule_delete replied send_err reply_ok_or_err
  cmd_rule_delete-once w fd id doc h = ground arith

  pub cmd_script_read-once : AnswersOnce p (cmd_script_read p)
  unfolding cmd_script_read replied send_err reply_ok_or_err
  cmd_script_read-once w fd id doc h = ground arith

  pub cmd_script_run-once : AnswersOnce p (cmd_script_run p)
  unfolding cmd_script_run replied send_err reply_ok_or_err
  cmd_script_run-once w fd id doc h = ground arith

  pub cmd_script_check-once : AnswersOnce p (cmd_script_check p)
  unfolding cmd_script_check replied send_err reply_ok_or_err
  cmd_script_check-once w fd id doc h = ground arith

  pub cmd_ping-once : AnswersOnce p (cmd_ping p)
  unfolding cmd_ping replied
  cmd_ping-once w fd id doc h = refl

  pub cmd_alerts_get-once : AnswersOnce p (cmd_alerts_get p)
  unfolding cmd_alerts_get replied
  cmd_alerts_get-once w fd id doc h = refl

  pub cmd_script_list-once : AnswersOnce p (cmd_script_list p)
  unfolding cmd_script_list replied
  cmd_script_list-once w fd id doc h = refl

  pub cmd_zigbee_permit_join_status-once : AnswersOnce p (cmd_zigbee_permit_join_status p)
  unfolding cmd_zigbee_permit_join_status replied
  cmd_zigbee_permit_join_status-once w fd id doc h = refl

  -- A push after a reply is no second reply.
  replied-pushed :
      (acts : List Action) (w : World p) (event : List ℕ) (doc : Json) (fd : Fd)
      → replied acts ≡ fd ∷ []
      → replied (acts ++ ws_push p w event doc) ≡ fd ∷ []
  replied-pushed acts w event doc fd h =
      replied-append acts (ws_push p w event doc) ∙ rw (replied-ws_push p w event doc, h) refl

  replied-maybe_pushed :
      (acts : List Action) (w : World p) (event : List ℕ) (doc : Json) (fd : Fd) (ok : Bool)
      → replied acts ≡ fd ∷ []
      → replied (acts ++ (if ok then ws_push p w event doc else [])) ≡ fd ∷ []
  replied-maybe_pushed acts w event doc fd true h = replied-pushed acts w event doc fd h
  replied-maybe_pushed acts w event doc fd false h = rw (append-nil acts) h

  pub cmd_script_delete-once : AnswersOnce p (cmd_script_delete p)
  unfolding cmd_script_delete
  cmd_script_delete-once w fd id doc h = elim (Option-cases (as_text (arg doc "name"))) [
    | inl e ↦ rw (cmd_script_delete, e) (unfold send_err replied in refl)
    | inr (name, e) ↦
        rw (cmd_script_delete, e)
          (replied-maybe_pushed _ _ _ _ fd (p.hub.script_delete w.core name).1
            (unfold reply_ok_or_err replied in refl))
  ]

  pub cmd_group_list-once : AnswersOnce p (cmd_group_list p)
  unfolding cmd_group_list replied send_err
  cmd_group_list-once w fd id doc h = ground arith

  pub cmd_group_get-once : AnswersOnce p (cmd_group_get p)
  unfolding cmd_group_get replied send_err
  cmd_group_get-once w fd id doc h = ground arith

  pub cmd_group_cmd-once : AnswersOnce p (cmd_group_cmd p)
  unfolding cmd_group_cmd replied
  cmd_group_cmd-once w fd id doc h = refl

  changed-Answers :
      (w : World p) (fd : Fd) (id : ℕ) (event rsp : List ℕ)
      → replied (changed p w fd id event rsp) ≡ fd ∷ []
  unfolding changed
  changed-Answers w fd id event rsp =
      replied-pushed (sent p.lib fd 640 (with_data id (inner_of p.lib rsp))) w event
        (inner_of p.lib rsp) fd (unfold replied in refl)

  pub cmd_group_create-once : AnswersOnce p (cmd_group_create p)
  unfolding cmd_group_create
  cmd_group_create-once w fd id doc h =
      let made = group_create p.groups p.lib w.groups (args_text p doc 1024) 512 in
      elim (Option-cases made.1) [
        | inl e ↦ rw (cmd_group_create, e) (unfold send_err replied in refl)
        | inr (rsp, e) ↦
            rw (cmd_group_create, e)
              (changed-Answers (record w { groups = made.0 }) fd id (bytes "group.added") rsp)
      ]

  pub cmd_group_update-once : AnswersOnce p (cmd_group_update p)
  unfolding cmd_group_update
  cmd_group_update-once w fd id doc h =
      let made = group_update p.groups p.lib w.groups (args_text p doc 1024) 512 in
      elim (Option-cases made.1) [
        | inl e ↦ rw (cmd_group_update, e) (unfold send_err replied in refl)
        | inr (rsp, e) ↦
            rw (cmd_group_update, e)
              (changed-Answers (record w { groups = made.0 }) fd id (bytes "group.updated") rsp)
      ]

  pub cmd_group_delete-once : AnswersOnce p (cmd_group_delete p)
  unfolding cmd_group_delete
  cmd_group_delete-once w fd id doc h =
      replied-maybe_pushed _ _ _ _ fd
        (group_delete_req p.groups p.lib w.groups (args_text p doc 256)).1
        (unfold reply_ok_or_err replied in refl)

  module _ (law : IsZap p.hub.zap) where
    cmd_device_list_page-once :
        (w : World p) (fd : Fd) (id after : ℕ)
        → id < 2 ^ 32
        → replied (cmd_device_list_page p w fd id after).1 ≡ fd ∷ []
    unfolding cmd_device_list_page replied send_err
    cmd_device_list_page-once w fd id after h =
        let (text, made, small) = page_text-length p.hub.zap law (p.hub.pool w.core) id after h in
        elim (Bool-cases (p.hub.allocates w.core page_cap)) [
          | inl e ↦ rw (cmd_device_list_page, e, made) refl
          | inr e ↦ rw (cmd_device_list_page, e) refl
        ]

    pub cmd_device_list-once : AnswersOnce p (cmd_device_list p)
    unfolding cmd_device_list replied send_err
    cmd_device_list-once w fd id doc h =
        ground
          (arith, cmd_device_list_page-once w fd id (cursor_address (as_text (arg doc "cursor"))) h)
