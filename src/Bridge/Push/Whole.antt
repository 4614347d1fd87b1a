-- ===== src/Bridge/Push/Whole.antt =====
-- main/ws_bridge.cpp: no push carries a text that was cut off.
use zhac_mono_core.Prelude.{
  ℕ, ◌+◌, ◌≤◌, ◌<◌, ◌≡◌, refl, inl, inr, true, false, ◌&&◌, ◌||◌, not, List, [], ◌∷◌, ◌++◌, ◌==◌,
  ltb, leb, if◌then◌else◌, length, take, arith, length-take, length-append, take_all, Bool-cases,
}
use zhac_mono_core.Prelude.Text.{bytes, hex_digit_upper}
use zhac_mono_core.Prelude.Hex.Printed.{length-hex_fixed}
use zhac_mono_core.Document.{Json, serialize_to}
use zhac_mono_core.Bridge.World.{Platform, World}
use zhac_mono_core.Bridge.Reply.{replied}
use zhac_mono_core.Bridge.Push.{
  c_string, push_listeners, push_event, push_small, ws_push, on_device_join, on_device_leave,
  join_text, leave_text, address,
}

length-c_string : (s : List ℕ) → length (c_string s) ≤ length s
unfolding c_string
length-c_string [] = omega arith
length-c_string (c ∷ s) = ground (arith, length-c_string s)

length-join_text : (ieee : ℕ) (s : List ℕ) → length s ≤ 30 → length (join_text ieee s) < 192
unfolding join_text
length-join_text ieee s h =
    let ending = s ++ bytes "\"}" in
    let named = bytes "\",\"name\":\"" ++ ending in
    let friendly = s ++ named in
    let rest = bytes "\",\"friendly\":\"" ++ friendly in
    omega (
      arith,
      length-append (address ieee) rest,
      length-hex_fixed hex_digit_upper 16 ieee,
      length-append s named,
      length-append s (bytes "\"}"),
    )

length-leave_text : (ieee : ℕ) → length (leave_text ieee) < 48
unfolding leave_text
length-leave_text ieee =
    omega
      (arith, length-append (address ieee) (bytes "\"}"), length-hex_fixed hex_digit_upper 16 ieee)

module _ (p : Platform) (w : World p) where
  -- A push of at most `cap - 1` bytes.
  push_small_lem :
      (event : List ℕ) (doc : Json) (cap : ℕ)
      → push_small p w event doc cap ≡ (
          if ltb 0 (length (p.lib.serialize doc)) && ltb (length (p.lib.serialize doc)) cap
          then push_event p w event (p.lib.serialize doc)
          else [])
  unfolding push_small serialize_to
  push_small_lem event doc cap =
      let whole = p.lib.serialize doc in
      elim (Bool-cases (ltb 0 (length whole) && ltb (length whole) cap)) [
        | inl e ↦
            let same : take cap whole ≡ whole = take_all cap whole (ground arith) in
            let counts : (length whole == 0 || leb cap (length whole)) ≡ false = ground arith in
            rw (e, push_small, serialize_to, same, counts) refl
        | inr e ↦
            let drops : (length (take cap whole) == 0 || leb cap (length (take cap whole))) ≡ true =
              ground (arith, length-take cap whole) in
            rw (e, push_small, serialize_to, drops) refl
      ]

  -- A push either carries the document's whole text, or it is not made at all: it is made exactly where someone
  -- listens and the text has 1 to 1023 bytes.
  pub ws_push-whole :
      (event : List ℕ) (doc : Json)
      → ws_push p w event doc ≡ (
          if push_listeners p w
            && (ltb 0 (length (p.lib.serialize doc)) && ltb (length (p.lib.serialize doc)) 1024)
          then push_event p w event (p.lib.serialize doc)
          else [])
  unfolding ws_push
  ws_push-whole event doc = elim (Bool-cases (push_listeners p w)) [
    | inl e ↦ rw (ws_push, e) (push_small_lem event doc 1024)
    | inr e ↦ rw (ws_push, e) refl
  ]

  -- The events of a device that joined or left are never too long for their buffers: where someone listens they are
  -- pushed, whatever the address and the name are.
  pub join_leave-pushed :
      (ieee : ℕ) (friendly : List ℕ)
      → push_listeners p w ≡ true
      → (on_device_join p w ieee friendly
          ≡ push_event p w (bytes "device.added") (join_text ieee (c_string (take 30 friendly))))
        × (on_device_leave p w ieee ≡ push_event p w (bytes "device.removed") (leave_text ieee))
  unfolding on_device_join on_device_leave
  join_leave-pushed ieee friendly h =
      let name = c_string (take 30 friendly) in
      let short : ltb (length (join_text ieee name)) 192 ≡ true = ground (
        arith,
        length-join_text ieee name
            (omega (arith, length-c_string (take 30 friendly), length-take 30 friendly)),
      ) in
      let small : ltb (length (leave_text ieee)) 48 ≡ true =
        ground (arith, length-leave_text ieee) in
      (rw (on_device_join, h, short) refl, rw (on_device_leave, h, small) refl)

  replied-push_event : (event payload : List ℕ) → replied (push_event p w event payload) ≡ []
  unfolding push_event replied
  replied-push_event event payload =
      let cap = length payload + length event + 32 in
      let env = p.hub.envelope_build cap event payload in
      elim (Bool-cases (
        ltb 0 (p.ws.client_count w.clients)
        && p.hub.allocates w.core cap
        && not (length env == 0))) [
          | inl e ↦ rw (push_event, e) refl
          | inr e ↦ rw (push_event, e) refl
        ]

  pub replied-ws_push : (event : List ℕ) (doc : Json) → replied (ws_push p w event doc) ≡ []
  replied-ws_push event doc =
      let n = length (p.lib.serialize doc) in
      elim (Bool-cases (push_listeners p w && (ltb 0 n && ltb n 1024))) [
        | inl e ↦ rw (ws_push-whole event doc, e) (replied-push_event event (p.lib.serialize doc))
        | inr e ↦ rw (ws_push-whole event doc, e) (unfold replied in refl)
      ]
