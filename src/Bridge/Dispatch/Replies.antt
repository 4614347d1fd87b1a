-- ===== src/Bridge/Dispatch/Replies.antt =====
-- main/ws_bridge.cpp: every frame is answered exactly once, to the socket that sent it.
pub mod Once
use zhac_mono_core.Prelude.{
  ℕ, zero, suc, ◌+◌, ◌^◌, ◌≤◌, ◌<◌, ◌≡◌, refl, ◌∙◌, sym, ap, inl, inr, Bool, true, false, Option,
  none, some, List, [], ◌∷◌, ◌++◌, map, ◌&&◌, not, if◌then◌else◌, arith, Bool-cases, Option-cases,
  ltb, All,
}
use zhac_mono_core.Prelude.Text.{bytes}
use zhac_mono_core.Document.{
  Json, ℤ, pos, negsuc, null, boolean, integer, real, text, array, object, same, member, as_text,
  uint_or,
}
use zhac_mono_core.Auth.Lockout.{Turn}
use zhac_mono_core.Auth.Token.{auth_check_token}
use zhac_mono_core.Devlist.Page.{IsZap}
use zhac_mono_core.Bridge.World.{Fd, Action, Platform, World, Handler, arg}
use zhac_mono_core.Bridge.Reply.{replied, replied-append, send_err, reply_ok_or_err}
use zhac_mono_core.Bridge.Verbs
use zhac_mono_core.Bridge.Verbs.{Verb, verb_of}
use zhac_mono_core.Bridge.Dispatch.{
  Frame, handler, gated, admit, run_verb, dispatch_envelope, ws_rx, receive,
}
use Once.*

uint_or-lt : (w : ℕ) (j : Json) → 0 < 2 ^ w → uint_or w j 0 < 2 ^ w
unfolding uint_or
uint_or-lt w (integer (pos n)) h = ground arith
uint_or-lt w (integer (negsuc n)) h = h
uint_or-lt w null h = h
uint_or-lt w (boolean b) h = h
uint_or-lt w (real s) h = h
uint_or-lt w (text s) h = h
uint_or-lt w (array vs) h = h
uint_or-lt w (object fs) h = h

-- The commands of the status, the diagnostics, the clock, the settings, the token, Wi-Fi and the log, device.get, and the
-- commands of the radio's settings, of the resets and of the relay's client.
unfoldable pub is_outside : Verb → Bool
is_outside Verb.status = true
is_outside Verb.status_get = true
is_outside Verb.diag_tasks = true
is_outside Verb.time_set = true
is_outside Verb.device_get = true
is_outside Verb.settings_set = true
is_outside Verb.token_rotate = true
is_outside Verb.unhandled = true
is_outside Verb.unhandled_get = true
is_outside Verb.wifi_status = true
is_outside Verb.wifi_scan = true
is_outside Verb.wifi_connect = true
is_outside Verb.wifi_disconnect = true
is_outside Verb.logs_get = true
is_outside Verb.zigbee_settings = true
is_outside Verb.zigbee_reset = true
is_outside Verb.storage_reset = true
is_outside Verb.remote_status = true
is_outside Verb.remote_connect = true
is_outside Verb.remote_disconnect = true
is_outside v = false

-- The command of a document, where it has one.
unfoldable pub verb_in : Bool → Json → Option Verb
verb_in remote doc = elim (as_text (member doc "cmd")) [
  | none ↦ none
  | some cmd ↦ verb_of remote cmd
]

-- The frame asks for none of these commands.
abbrev pub IsInside : (p : Platform) → Bool → Frame → Type 0
IsInside p remote f =
    (doc : Json) (v : Verb)
    → p.lib.deserialize f.text ≡ some doc
    → verb_in remote doc ≡ some v
    → is_outside v ≡ false

module _ (p : Platform) (remote : Bool) (others : Verb → Handler p) (law : IsZap p.hub.zap) where
  handler-once : (v : Verb) → is_outside v ≡ false → AnswersOnce p (handler p remote others v)
  unfolding handler is_outside
  handler-once Verb.ping e = cmd_ping-once p
  handler-once Verb.status e = absurd (cc)
  handler-once Verb.status_get e = absurd (cc)
  handler-once Verb.diag_tasks e = absurd (cc)
  handler-once Verb.time_set e = absurd (cc)
  handler-once Verb.device_list e = cmd_device_list-once p law
  handler-once Verb.device_get e = absurd (cc)
  handler-once Verb.device_rename e = cmd_device_rename-once p
  handler-once Verb.device_delete e = cmd_device_delete-once p
  handler-once Verb.device_attr_set e = cmd_device_attr_set-once p
  handler-once Verb.device_bind e = cmd_device_bind-once p
  handler-once Verb.device_options e = cmd_device_options_set-once p
  handler-once Verb.settings_set e = absurd (cc)
  handler-once Verb.token_rotate e = absurd (cc)
  handler-once Verb.unhandled e = absurd (cc)
  handler-once Verb.unhandled_get e = absurd (cc)
  handler-once Verb.alerts_get e = cmd_alerts_get-once p
  handler-once Verb.group_list e = cmd_group_list-once p
  handler-once Verb.group_create e = cmd_group_create-once p
  handler-once Verb.group_get e = cmd_group_get-once p
  handler-once Verb.group_update e = cmd_group_update-once p
  handler-once Verb.group_delete e = cmd_group_delete-once p
  handler-once Verb.group_cmd e = cmd_group_cmd-once p
  handler-once Verb.wifi_status e = absurd (cc)
  handler-once Verb.wifi_scan e = absurd (cc)
  handler-once Verb.wifi_connect e = absurd (cc)
  handler-once Verb.wifi_disconnect e = absurd (cc)
  handler-once Verb.logs_get e = absurd (cc)
  handler-once Verb.device_reinterview e = cmd_device_reinterview-once p
  handler-once Verb.device_configure e = cmd_device_configure-once p
  handler-once Verb.rule_list e = cmd_rule_list-once p
  handler-once Verb.rule_create e = cmd_rule_create-once p
  handler-once Verb.rule_update e = cmd_rule_update-once p
  handler-once Verb.rule_enable e = cmd_rule_enable-once p
  handler-once Verb.rule_delete e = cmd_rule_delete-once p
  handler-once Verb.script_list e = cmd_script_list-once p
  handler-once Verb.script_read e = cmd_script_read-once p
  handler-once Verb.script_delete e = cmd_script_delete-once p
  handler-once Verb.script_run e = cmd_script_run-once p
  handler-once Verb.script_check e = cmd_script_check-once p
  handler-once Verb.permit_join e = cmd_zigbee_permit_join-once p
  handler-once Verb.permit_join_status e = cmd_zigbee_permit_join_status-once p
  handler-once Verb.zigbee_settings e = absurd (cc)
  handler-once Verb.zigbee_reset e = absurd (cc)
  handler-once Verb.storage_reset e = absurd (cc)
  handler-once Verb.remote_status e = absurd (cc)
  handler-once Verb.remote_connect e = absurd (cc)
  handler-once Verb.remote_disconnect e = absurd (cc)

  admit-once :
      (w : World p) (fd : Fd) (id : ℕ) (cmd : List ℕ) (doc : Json) (first second : Turn)
      → replied (admit p remote others w fd id cmd doc first second).1 ≡ fd ∷ []
  unfolding admit replied send_err reply_ok_or_err
  admit-once w fd id cmd doc first second = ground arith

  dispatch-once :
      (w : World p) (fd : Fd) (doc : Json) (first second : Turn)
      → ((v : Verb) → verb_in remote doc ≡ some v → is_outside v ≡ false)
      → replied (dispatch_envelope p remote others w fd doc first second).1 ≡ fd ∷ []
  unfolding dispatch_envelope run_verb replied verb_in send_err reply_ok_or_err
  dispatch-once w fd doc first second inside =
      let id = uint_or 32 (member doc "id") 0 in
      elim (Option-cases (as_text (member doc "cmd"))) [
        | inl e ↦ rw (dispatch_envelope, e) refl
        | inr (cmd, e) ↦ elim (Bool-cases (gated p remote others w fd)) [
          | inl g ↦ rw (dispatch_envelope, e, g) (admit-once w fd id cmd doc first second)
          | inr g ↦ elim (Bool-cases (same cmd (bytes "auth"))) [
            | inl s ↦ rw (dispatch_envelope, e, g, s) refl
            | inr s ↦ elim (Option-cases (verb_of remote cmd)) [
              | inl v ↦ rw (dispatch_envelope, e, g, s, run_verb, v) refl
              | inr (v, q) ↦
                  let here : is_outside v ≡ false = inside v (rw (verb_in, e) q) in
                  rw (dispatch_envelope, e, g, s, run_verb, q)
                    (handler-once v here w fd id doc
                      (uint_or-lt 32 (member doc "id") (omega arith)))
            ]
          ]
        ]
      ]

  ws_rx-once :
      (w : World p) (f : Frame)
      → IsInside p remote f
      → replied (ws_rx p remote others w f).1 ≡ f.fd ∷ []
  unfolding ws_rx
  ws_rx-once w f inside = elim (Option-cases (p.lib.deserialize f.text)) [
    | inl e ↦ rw (ws_rx, e) (unfold replied send_err in refl)
    | inr (doc, e) ↦
        rw (ws_rx, e) (dispatch-once w f.fd doc f.first f.second (λ v q. inside doc v e q))
  ]

  -- Where the numbers of the device records are of their C types: whatever the frames hold, in any number and order, as
  -- long as none asks for the status, the diagnostics, the clock, the settings, the token, Wi-Fi, the log, device.get,
  -- the radio's settings, a reset or the relay's client, the replies are one for each frame, to its own socket, in their
  -- order.
  pub receive-once :
      (w : World p) (fs : List Frame)
      → All (IsInside p remote) fs
      → replied (receive p remote others w fs).1 ≡ map (λ f. f.fd) fs
  unfolding receive replied
  receive-once w [] inside = refl
  receive-once w (f ∷ fs) (here, inside) =
      let one = ws_rx p remote others w f in
      replied-append one.1 (receive p remote others one.0 fs).1
      ∙ rw (ws_rx-once w f here, receive-once one.0 fs inside) refl
