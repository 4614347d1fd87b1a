-- ===== src/Examples/Bridge.antt =====
-- Examples of the WebSocket bridge, over a hub with two devices.
use zhac_mono_core.Prelude.{
  ℕ, false, none, ◌≡◌, ◌≢◌, ◌<◌, refl, true, ◌&&◌, Option, some, List, [], ◌∷◌, ◌++◌, arith, ap,
  ◌∙◌, length, map, All, if◌then◌else◌, ltb,
}
use zhac_mono_core.Prelude.Text.{bytes}
use zhac_mono_core.Document.{Json, object_of, member, as_text, uint_or, same, lookup, number, text}
use zhac_mono_core.Auth.Lockout.{locked, bucket_find}
use zhac_mono_core.Devlist.Page.{page_text, list_head, list_reply}
use zhac_mono_core.Devlist.Page.Walk.{Walk, Exhausted, rows_text}
use zhac_mono_core.Devlist.Page.Pages.{page_text-length, follow, follow-Walk, all_of, items_text}
use zhac_mono_core.Devlist.Page.Local.{present, list_reply-whole}
use zhac_mono_core.Bridge.World.{Handler, local, relay}
use zhac_mono_core.Bridge.Reply.{IsRefusal, replied, reply_ok_or_err}
use zhac_mono_core.Bridge.Dispatch.{Frame, gated, run_verb, dispatch_envelope, receive}
use zhac_mono_core.Bridge.Dispatch.Gate.{shown, IsKept, receive-refuses, dispatch-auth}
use zhac_mono_core.Bridge.Dispatch.Replies.{is_outside, verb_in, receive-once}
use zhac_mono_core.Bridge.Verbs.{Verb, verb_of, first_named, name}
use zhac_mono_core.Bridge.Push.{push_listeners, push_event, ws_push}
use zhac_mono_core.Bridge.Push.Whole.{ws_push-whole}
use zhac_mono_core.Bridge.Devices.{
  cmd_device_reinterview, cmd_device_configure, cmd_device_rename, cmd_device_delete,
  cmd_device_attr_set, cmd_device_options_set, cmd_device_bind,
}
use zhac_mono_core.Bridge.Devices.Address.{OnlyRefuses, device_verbs-OnlyRefuses}
use zhac_mono_core.Examples.Hub.{
  home, home_world, home_token, silent, now, lamps_zap, lamps_zap-IsZap, lists_ws-IsWs, wrong_doc,
  ping_doc,
}

-- A guess of the token from one socket, and a ping from another.
abbrev strangers : List Frame
strangers =
    record { fd = local 3; text = bytes "a"; first = now; second = now }
    ∷ record { fd = local 4; text = bytes "p"; first = now; second = now }
    ∷ []

other_doc :
    (doc d : Json)
    → length (shown doc) ≢ 32
    → ◌≡◌ {A = Option Json} (some doc) (some d)
    → shown d ≢ home_token
other_doc doc d h e t =
    let same_doc : doc ≡ d = cc in h (ap (λ j. length (shown j)) same_doc ∙ ap length t)

guess_short : length (shown wrong_doc) ≢ 32
guess_short = unfold member lookup same as_text object_of in omega arith

ping_short : length (shown ping_doc) ≢ 32
ping_short = unfold member lookup same as_text object_of in omega arith

receive-refuses_example :
    IsKept home home_world (receive home true silent home_world strangers).0
    × All IsRefusal (receive home true silent home_world strangers).1
receive-refuses_example =
    receive-refuses home true silent home_world strangers refl refl (λ n. refl)
      (
        ((3, refl), λ d e. other_doc wrong_doc d guess_short e),
        (((4, refl), λ d e. other_doc ping_doc d ping_short e), tt),
      )

-- An account of the other commands that answers nothing.
abbrev mute : Verb → Handler home
mute v w fd id doc = (w, [])

guess_inside :
    (doc : Json) (v : Verb)
    → some wrong_doc ≡ some doc
    → verb_in true doc ≡ some v
    → is_outside v ≡ false
unfolding verb_in verb_of first_named name member lookup same as_text object_of
guess_inside doc v e q =
    let same_doc : wrong_doc ≡ doc = cc in
    let no_verb : verb_in true wrong_doc ≡ none = refl in absurd (cc)

ping_inside :
    (doc : Json) (v : Verb)
    → some ping_doc ≡ some doc
    → verb_in true doc ≡ some v
    → is_outside v ≡ false
unfolding verb_in verb_of first_named name member lookup same as_text object_of is_outside
ping_inside doc v e q =
    let same_doc : ping_doc ≡ doc = cc in
    let verb : verb_in true ping_doc ≡ some Verb.ping = refl in
    let one : Verb.ping ≡ v = cc in let inside : is_outside Verb.ping ≡ false = refl in cc

-- The two strangers, and a ping over the relay, which runs.
receive-once_example :
    replied
      (receive home true mute home_world
        (strangers ++ record { fd = relay; text = bytes "p"; first = now; second = now } ∷ [])).1
    ≡ local 3 ∷ local 4 ∷ relay ∷ []
receive-once_example =
    receive-once home true mute lamps_zap-IsZap home_world
      (strangers ++ record { fd = relay; text = bytes "p"; first = now; second = now } ∷ [])
      (guess_inside, (ping_inside, (ping_inside, tt)))

abbrev token_doc : Json
token_doc = object_of (
    (bytes "id", number 1)
    ∷ (bytes "cmd", text (bytes "auth"))
    ∷ (bytes "args", object_of ((bytes "token", text home_token) ∷ []))
    ∷ [])

dispatch-auth_example :
    ((dispatch_envelope home true silent home_world (local 3) token_doc now now).1
      ≡ reply_ok_or_err (local 3) (uint_or 32 (member token_doc "id") 0) true [])
    × (dispatch_envelope home true silent
          (dispatch_envelope home true silent home_world (local 3) token_doc now now).0
          (local 3)
          ping_doc
          now
          now
        ≡ run_verb home true silent
            (record home_world { clients = 3 ∷ [] })
            (local 3)
            (uint_or 32 (member ping_doc "id") 0)
            (bytes "ping")
            ping_doc)
unfolding gated member lookup same as_text object_of locked bucket_find
dispatch-auth_example =
    dispatch-auth home true silent lists_ws-IsWs home_world 3 token_doc ping_doc now now now now
      refl refl refl refl refl refl refl

follow-Walk_example :
    (chunks : List (List ℕ)) × (b : ℕ) × (follow lamps_zap (4 ∷ 9 ∷ 2 ∷ []) 1 4 0
      ≡ some (map (items_text lamps_zap 1) chunks))
    × Walk lamps_zap (4 ∷ 9 ∷ 2 ∷ []) 0 (all_of chunks) b
    × Exhausted lamps_zap (4 ∷ 9 ∷ 2 ∷ []) b
follow-Walk_example =
    follow-Walk lamps_zap lamps_zap-IsZap (4 ∷ 9 ∷ 2 ∷ []) 1 (omega arith) 0 (omega arith)

page_text-length_example :
    (t : List ℕ) × (page_text lamps_zap (4 ∷ 9 ∷ 2 ∷ []) 1 0 ≡ some t) × (length t < 8192)
page_text-length_example =
    page_text-length lamps_zap lamps_zap-IsZap (4 ∷ 9 ∷ 2 ∷ []) 1 0 (omega arith)

list_reply-whole_example :
    list_reply lamps_zap 2 (4 ∷ 9 ∷ 2 ∷ []) 1
    ≡ list_head 1 ++ rows_text lamps_zap true (present lamps_zap (4 ∷ 9 ∷ 2 ∷ [])) ++ bytes "]}"
list_reply-whole_example =
    list_reply-whole lamps_zap lamps_zap-IsZap 2 (4 ∷ 9 ∷ 2 ∷ []) 1 (omega arith) (omega arith)

ws_push-whole_example : ws_push home home_world (bytes "group.deleted") ping_doc ≡ (
    if push_listeners home home_world && (ltb 0 2 && ltb 2 1024)
    then push_event home home_world (bytes "group.deleted") (bytes "{}")
    else [])
ws_push-whole_example = ws_push-whole home home_world (bytes "group.deleted") ping_doc

device_verbs-OnlyRefuses_example :
    OnlyRefuses home home_world relay 6 (cmd_device_reinterview home home_world relay 6 wrong_doc)
    × OnlyRefuses home home_world relay 6 (cmd_device_configure home home_world relay 6 wrong_doc)
    × OnlyRefuses home home_world relay 6 (cmd_device_rename home home_world relay 6 wrong_doc)
    × OnlyRefuses home home_world relay 6 (cmd_device_delete home home_world relay 6 wrong_doc)
    × OnlyRefuses home home_world relay 6 (cmd_device_attr_set home home_world relay 6 wrong_doc)
    × OnlyRefuses home home_world relay 6 (cmd_device_options_set home home_world relay 6 wrong_doc)
    × OnlyRefuses home home_world relay 6 (cmd_device_bind home home_world relay 6 wrong_doc)
unfolding member lookup same as_text object_of
device_verbs-OnlyRefuses_example = device_verbs-OnlyRefuses home home_world relay 6 wrong_doc refl
