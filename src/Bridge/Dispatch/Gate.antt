-- ===== src/Bridge/Dispatch/Gate.antt =====
-- main/ws_bridge.cpp, dispatch_envelope: what a socket without the token can do, and how it gets in.
use zhac_mono_core.Prelude.{
  ℕ, ◌≡◌, ◌≢◌, refl, ◌∙◌, sym, ap, inl, inr, Bool, true, false, some, List, [], ◌∷◌, default,
  length, All, All-append, arith, Bool-cases, Option-cases,
}
use zhac_mono_core.Prelude.Text.{bytes}
use zhac_mono_core.Document.{Json, same, member, as_text, uint_or}
use zhac_mono_core.Auth.Lockout.{Turn, locked}
use zhac_mono_core.Auth.State.{Auth, failed}
use zhac_mono_core.Auth.Token.{accepted, auth_check_token}
use zhac_mono_core.Auth.Token.Gate.{accepted_lem}
use zhac_mono_core.Bridge.World.{local, Action, IsWs, Platform, World, Handler, arg}
use zhac_mono_core.Bridge.Reply.{IsRefusal, send_err-IsRefusal, reply_ok_or_err}
use zhac_mono_core.Bridge.Verbs.{Verb}
use zhac_mono_core.Bridge.Dispatch.{
  Frame, gated, admit, run_verb, dispatch_envelope, ws_rx, receive,
}

-- The text that a document carries as its token.
abbrev pub shown : Json → List ℕ
shown doc = default (as_text (arg doc "token")) []

module _ {Flash : Type 0} (a : Auth Flash) (key : List ℕ) (first second : Turn) where
  wrong_token :
      a.s_enabled ≡ true
      → length a.s_token ≡ 32
      → key ≢ a.s_token
      → ((auth_check_token a (some key) first second).1 ≡ false)
        × ((auth_check_token a (some key) first second).0.s_token ≡ a.s_token)
        × ((auth_check_token a (some key) first second).0.s_enabled ≡ true)
  unfolding auth_check_token failed
  wrong_token on n ne = elim (Bool-cases (accepted (some key) a.s_token)) [
    | inl e ↦ absurd (ne (ground (arith, (accepted_lem (some key) a.s_token n).0 e)))
    | inr e ↦ elim (Bool-cases (locked a.s_buckets 0 first)) [
      | inl l ↦ (rw (on, l) refl, rw (on, l) refl, ground arith)
      | inr l ↦ (rw (on, l, e) refl, rw (on, l, e) refl, ground arith)
    ]
  ]

module _ (p : Platform) where
  -- The document is no auth command with this token.
  abbrev pub Stranger : List ℕ → Frame → Type 0
  Stranger tok f =
      ((n : ℕ) × (f.fd ≡ local n))
      × ((doc : Json) → p.lib.deserialize f.text ≡ some doc → shown doc ≢ tok)

  -- Only the lockout's table may differ, and what auth kept besides.
  pub record IsKept (w w' : World p) : Type 0 where
    pub core : w'.core ≡ w.core
    pub clients : w'.clients ≡ w.clients
    pub groups : w'.groups ≡ w.groups
    pub options : w'.options ≡ w.options
    pub token : w'.auth.s_token ≡ w.auth.s_token
    pub enabled : w'.auth.s_enabled ≡ w.auth.s_enabled

  IsKept-refl : (w : World p) → IsKept w w
  IsKept-refl w = record {
    core = refl;
    clients = refl;
    groups = refl;
    options = refl;
    token = refl;
    enabled = refl;
  }

  IsKept-trans : {u v w : World p} → IsKept u v → IsKept v w → IsKept u w
  IsKept-trans a b = record {
    core = b.core ∙ a.core;
    clients = b.clients ∙ a.clients;
    groups = b.groups ∙ a.groups;
    options = b.options ∙ a.options;
    token = b.token ∙ a.token;
    enabled = b.enabled ∙ a.enabled;
  }

module _ (p : Platform) (remote : Bool) (others : Verb → Handler p) where
  -- What a frame did: nothing but refuse.
  abbrev Refused : World p → World p × List Action → Type 0
  Refused w r = IsKept p w r.0 × All IsRefusal r.1

  ws_rx-Refused :
      (w : World p) (f : Frame)
      → w.auth.s_enabled ≡ true
      → length w.auth.s_token ≡ 32
      → ((n : ℕ) → p.ws.fd_is_authed w.clients n ≡ false)
      → Stranger p w.auth.s_token f
      → Refused w (ws_rx p remote others w f)
  unfolding ws_rx dispatch_envelope admit gated
  ws_rx-Refused w f on n none_in ((m, is_local), ne) =
      let closed : gated p remote others w f.fd ≡ true =
        rw is_local (rw (gated, on, none_in m) refl) in
      elim (Option-cases (p.lib.deserialize f.text)) [
        | inl e ↦ rw (ws_rx, e) (IsKept-refl p w, send_err-IsRefusal f.fd 0 (bytes "bad json"))
        | inr (doc, e) ↦ elim (Option-cases (as_text (member doc "cmd"))) [
          | inl c ↦
              rw (ws_rx, e, dispatch_envelope, c)
                (
                  IsKept-refl p w,
                  send_err-IsRefusal f.fd (uint_or 32 (member doc "id") 0) (bytes "missing cmd"),
                )
          | inr (cmd, c) ↦
              let id = uint_or 32 (member doc "id") 0 in
              let (refused, keeps, stays) =
                wrong_token w.auth (shown doc) f.first f.second on n (ne doc e) in
              elim (Bool-cases (same cmd (bytes "auth"))) [
                | inr s ↦
                    rw (ws_rx, e, dispatch_envelope, c, closed, admit, s)
                      (IsKept-refl p w, send_err-IsRefusal f.fd id (bytes "auth required"))
                | inl s ↦
                    rw (ws_rx, e, dispatch_envelope, c, closed, admit, s, refused)
                      (
                        record {
                          core = refl;
                          clients = refl;
                          groups = refl;
                          options = refl;
                          token = keeps;
                          enabled = stays ∙ sym on;
                        },
                        send_err-IsRefusal f.fd id (bytes "auth failed"),
                      )
              ]
        ]
      ]

  receive-next :
      (w : World p) (fs : List Frame)
      → w.auth.s_enabled ≡ true
      → length w.auth.s_token ≡ 32
      → ((n : ℕ) → p.ws.fd_is_authed w.clients n ≡ false)
      → All (Stranger p w.auth.s_token) fs
      → Refused w (receive p remote others w fs)
  unfolding receive
  receive-next w [] on n none_in h = (IsKept-refl p w, tt)
  receive-next w (f ∷ fs) on n none_in (h, hs) =
      let (kept, refusals) = ws_rx-Refused w f on n none_in h in
      let w' = (ws_rx p remote others w f).0 in
      let (later, more) =
        receive-next w' fs (kept.enabled ∙ on) (rw kept.token n) (λ k. rw kept.clients (none_in k))
          (rw kept.token hs) in
      (IsKept-trans p kept later, All-append IsRefusal _ _ refusals more)

  -- With authentication on and no socket let in, whatever browsers' sockets send, in any number and order, as long
  -- as no frame carries the token: no command runs, the components, the groups, the options, the marks of the
  -- sockets, the token and the switch stay as they are, and every frame's answers are errors.
  pub receive-refuses :
      (w : World p) (fs : List Frame)
      → w.auth.s_enabled ≡ true
      → length w.auth.s_token ≡ 32
      → ((n : ℕ) → p.ws.fd_is_authed w.clients n ≡ false)
      → All (Stranger p w.auth.s_token) fs
      → IsKept p w (receive p remote others w fs).0 × All IsRefusal (receive p remote others w fs).1
  receive-refuses w fs on n none_in h = receive-next w fs on n none_in h

  right_token :
      (w : World p) (doc : Json) (first second : Turn)
      → length w.auth.s_token ≡ 32
      → shown doc ≡ w.auth.s_token
      → locked w.auth.s_buckets 0 first ≡ false
      → auth_check_token w.auth (some (shown doc)) first second ≡ (w.auth, true)
  unfolding auth_check_token
  right_token w doc first second n e l =
      let fits = (accepted_lem (some (shown doc)) w.auth.s_token n).1 (ap some e) in
      elim (Bool-cases w.auth.s_enabled) [
        | inr off ↦ rw (auth_check_token, off) refl
        | inl on ↦ rw (auth_check_token, on, l, fits) refl
      ]

  -- A socket that sends the token in an auth command, while the shared bucket is not locked, is answered ok and let
  -- in: the next document from it is dispatched by its command, as the relay's is.
  pub dispatch-auth :
      (law : IsWs p.ws) (w : World p) (m : ℕ) (doc next : Json) (first second third fourth : Turn)
      {cmd : List ℕ}
      → gated p remote others w (local m) ≡ true
      → length w.auth.s_token ≡ 32
      → as_text (member doc "cmd") ≡ some (bytes "auth")
      → shown doc ≡ w.auth.s_token
      → locked w.auth.s_buckets 0 first ≡ false
      → as_text (member next "cmd") ≡ some cmd
      → same cmd (bytes "auth") ≡ false
      → ((dispatch_envelope p remote others w (local m) doc first second).1
          ≡ reply_ok_or_err (local m) (uint_or 32 (member doc "id") 0) true [])
        × (dispatch_envelope p remote others
              (dispatch_envelope p remote others w (local m) doc first second).0
              (local m)
              next
              third
              fourth
            ≡ run_verb p remote others
                (record w { clients = p.ws.fd_set_authed w.clients m })
                (local m)
                (uint_or 32 (member next "id") 0)
                cmd
                next)
  unfolding dispatch_envelope admit gated
  dispatch-auth law w m doc next first second third fourth {cmd} closed n c tok l c' other =
      let ok = right_token w doc first second n tok l in
      let is_auth : same (bytes "auth") (bytes "auth") ≡ true = unfold same in refl in
      let entered : World p = record w { clients = p.ws.fd_set_authed w.clients m } in
      let opened : gated p remote others entered (local m) ≡ false =
        rw (gated, law.authed_self w.clients m) (ground arith) in
      let admitted : dispatch_envelope p remote others w (local m) doc first second
          ≡ (entered, reply_ok_or_err (local m) (uint_or 32 (member doc "id") 0) true []) =
        rw (dispatch_envelope, c, closed, admit, is_auth, ok) refl in
      let later : dispatch_envelope p remote others entered (local m) next third fourth
          ≡ run_verb p remote others entered (local m) (uint_or 32 (member next "id") 0) cmd next =
        rw (dispatch_envelope, c', opened, other) refl in
      rw admitted (refl, later)
