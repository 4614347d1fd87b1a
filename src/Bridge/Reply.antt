-- ===== src/Bridge/Reply.antt =====
-- main/ws_bridge.cpp: the replies that the commands share.
use zhac_mono_core.Prelude.{
  ℕ, ◌-◌, ◌≡◌, refl, Bool, true, List, [], ◌∷◌, ◌++◌, if◌then◌else◌, length, take, All, ap,
}
use zhac_mono_core.Prelude.Text.{bytes, decimal}
use zhac_mono_core.Document.{Json, JsonLib, boolean, number, object_of, serialize_to}
use zhac_mono_core.Bridge.World.{Fd, Action, reply}

-- snprintf into a buffer of `cap` bytes, sent with the length that it returns.
abbrev pub printed : Fd → ℕ → List ℕ → List Action
printed fd cap text = reply fd (take (cap - 1) text) (length text) ∷ []

-- serializeJson into a buffer of `cap` bytes.
abbrev pub sent : JsonLib → Fd → ℕ → Json → List Action
sent lib fd cap doc = let text = serialize_to lib doc cap in reply fd text (length text) ∷ []

abbrev pub err_text : ℕ → List ℕ → List ℕ
err_text id err =
    bytes "{\"id\":" ++ (decimal id ++ (bytes ",\"ok\":false,\"err\":\"" ++ (err ++ bytes "\"}")))

abbrev pub ok_text : ℕ → List ℕ
ok_text id = bytes "{\"id\":" ++ (decimal id ++ bytes ",\"ok\":true}")

unfoldable pub send_err : Fd → ℕ → List ℕ → List Action
send_err fd id err = printed fd 128 (err_text id err)

-- `err` is given; where the source passes no text, `ok` is true.
unfoldable pub reply_ok_or_err : Fd → ℕ → Bool → List ℕ → List Action
reply_ok_or_err fd id ok err = printed fd 128 (if ok then ok_text id else err_text id err)

-- {"id":id,"ok":true,"data":value}
abbrev pub with_data : ℕ → Json → Json
with_data id value =
    object_of ((bytes "id", number id) ∷ (bytes "ok", boolean true) ∷ (bytes "data", value) ∷ [])

-- The sockets that the actions reply to.
unfoldable pub replied : List Action → List Fd
replied [] = []
replied (reply fd text n ∷ acts) = fd ∷ replied acts
replied (Action.broadcast t ∷ acts) = replied acts
replied (Action.relay_event e t ∷ acts) = replied acts

-- An error reply.
abbrev pub IsRefusal : Action → Type 0
IsRefusal act = (fd : Fd) × (id : ℕ) × (err : List ℕ) × (act ∷ [] ≡ send_err fd id err)

pub send_err-IsRefusal : (fd : Fd) (id : ℕ) (err : List ℕ) → All IsRefusal (send_err fd id err)
unfolding send_err
send_err-IsRefusal fd id err = ((fd, id, err, refl), tt)

pub replied-append : (xs ys : List Action) → replied (xs ++ ys) ≡ replied xs ++ replied ys
unfolding replied
replied-append [] ys = refl
replied-append (reply fd text n ∷ xs) ys = ap (λ t. fd ∷ t) (replied-append xs ys)
replied-append (Action.broadcast t ∷ xs) ys = replied-append xs ys
replied-append (Action.relay_event e t ∷ xs) ys = replied-append xs ys
