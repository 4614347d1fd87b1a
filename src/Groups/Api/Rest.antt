-- ===== src/Groups/Api/Rest.antt =====
-- main/api_groups.cpp: the REST routes of the groups.
-- `chunk` is what one httpd_req_recv can give, none where it fails.
use zhac_mono_core.Prelude.{
  ℕ, ◌-◌, ◌≡◌, refl, Option, none, some, List, [], ◌∷◌, if◌then◌else◌, take, arith,
}
use zhac_mono_core.Prelude.Text.{bytes}
use zhac_mono_core.Document.{JsonLib}
use zhac_mono_core.Auth.Requests.{Response, reply}
use zhac_mono_core.Groups.Storage.{Nvs}
use zhac_mono_core.Groups.Api.{
  Commands, group_list_json, group_create, group_get, group_update, group_delete_req, group_cmd,
}

-- The body, at most `cap - 1` bytes of it.
unfoldable pub recv_body : Option (List ℕ) → ℕ → Option (List ℕ)
recv_body none cap = none
recv_body (some chunk) cap = some (take (cap - 1) chunk)

-- n <= 0
unfoldable pub body_of : Option (List ℕ) → ℕ → Option (List ℕ)
unfolding recv_body
body_of chunk cap = elim (recv_body chunk cap) [
  | none ↦ none
  | some [] ↦ none
  | some (c ∷ s) ↦ some (c ∷ s)
]

abbrev pub no_body : Response
no_body = reply (some "400 Bad Request") "no body"

abbrev pub ok_response : List ℕ → Response
ok_response text = record { status = none; body = text }

module _ (nvs : Nvs) (lib : JsonLib) where
  unfoldable pub h_group_list : nvs.State → Response
  h_group_list s = let out = group_list_json nvs lib s 4096 in ok_response (take out.0 out.1)

  unfoldable pub h_group_create : nvs.State → Option (List ℕ) → nvs.State × Response
  h_group_create s chunk = elim (body_of chunk 1024) [
    | none ↦ (s, no_body)
    | some body ↦
        let made = group_create nvs lib s body 512 in
        elim made.1 [
          | none ↦ (made.0, reply (some "500 Internal Server Error") "create failed")
          | some rsp ↦ (made.0, ok_response rsp)
        ]
  ]

  unfoldable pub h_group_get : nvs.State → Option (List ℕ) → Response
  h_group_get s chunk = elim (body_of chunk 256) [
    | none ↦ no_body
    | some body ↦ elim (group_get nvs lib s body 512) [
      | none ↦ reply (some "404 Not Found") "no such group"
      | some rsp ↦ ok_response rsp
    ]
  ]

  unfoldable pub h_group_update : nvs.State → Option (List ℕ) → nvs.State × Response
  h_group_update s chunk = elim (body_of chunk 1024) [
    | none ↦ (s, no_body)
    | some body ↦
        let made = group_update nvs lib s body 512 in
        elim made.1 [
          | none ↦ (made.0, reply (some "404 Not Found") "no such group")
          | some rsp ↦ (made.0, ok_response rsp)
        ]
  ]

  unfoldable pub h_group_delete : nvs.State → Option (List ℕ) → nvs.State × Response
  h_group_delete s chunk = elim (body_of chunk 256) [
    | none ↦ (s, no_body)
    | some body ↦
        let gone = group_delete_req nvs lib s body in
        (gone.0, ok_response (if gone.1 then bytes "{\"ok\":true}" else bytes "{\"ok\":false}"))
  ]

  unfoldable pub h_group_cmd :
      (cmds : Commands) → nvs.State → cmds.State → Option (List ℕ) → cmds.State × Response
  h_group_cmd cmds s c chunk = elim (body_of chunk 512) [
    | none ↦ (c, no_body)
    | some body ↦ let done = group_cmd nvs lib cmds s c body in (done.0, ok_response done.1)
  ]

  -- Without a body no route changes anything, and each answers 400.
  pub routes-no_body :
      (cmds : Commands) (s : nvs.State) (c : cmds.State) (chunk : Option (List ℕ))
      → recv_body chunk 256 ≡ some []
      → (h_group_create s chunk ≡ (s, no_body))
        × (h_group_get s chunk ≡ no_body)
        × (h_group_update s chunk ≡ (s, no_body))
        × (h_group_delete s chunk ≡ (s, no_body))
        × (h_group_cmd cmds s c chunk ≡ (c, no_body))
  unfolding h_group_create h_group_get h_group_update h_group_delete h_group_cmd body_of recv_body
  routes-no_body cmds s c none h = absurd (cc)
  routes-no_body cmds s c (some []) h = (refl, refl, refl, refl, refl)
  routes-no_body cmds s c (some (b ∷ chunk)) h = absurd (ground arith)
