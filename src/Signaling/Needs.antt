-- ===== src/Signaling/Needs.antt =====
-- RTCSignalingNodeSession::_received_msg_m: the messages that are handled without a fault are those
-- that have what their command needs.
use text.Mathlib.Text.{◌==◌ as str_eq}
use text.Mathlib.TextEquality.{eq_iff}
use mathlib.Core.Path.{subst}
use aone_webrtc_stt.Base.{
  All, String, ◌≡◌, refl, sym, ap, ◌∙◌, ◌≢◌, ◌↔◌, ◌⊎◌, inl, inr, true, Option, none, some, List, [],
  ◌∷◌, ◌++◌, arith, Bool-cases, Option-cases, ◌>>=◌, bind-some, Status,
}
use aone_webrtc_stt.Signaling.Json.{JsonApi}
use aone_webrtc_stt.Signaling.Attributes.{
  result_attr, success, command_attr, id_attr, ice_info_attr, sdp_attr, m_id_attr, candidate_attr,
  regist_msg_res, add_peer_msg, remove_peer_msg, offer_msg, candidate_msg, url_attr, user_name_attr,
  credential_attr,
}
use aone_webrtc_stt.Signaling.Understood.{
  IsServer, HasServers, no_servers, no_array, servers, IsCommand, refused, accepted, adds, removes,
  offers, candidates, unknown, Understood, not_json, command, received_msg-Reports,
}
use aone_webrtc_stt.Signaling.IceServers.{
  add_ice_entries, ice_user_name, ice_credential, IceServerInfo, string_at, ice_entry,
  add_ice_infos, ice_user_name, ice_credential,
}
use aone_webrtc_stt.Signaling.Session.{
  Session, SessionEffect, on_regist_res, on_add_peer_msg, on_remove_peer_msg, on_offer_msg,
  on_candidate_msg, dispatch, received_msg,
}

str-cases : (a b : String) → (a ≡ b) ⊎ (a ≢ b)
str-cases a b = elim (Bool-cases (str_eq a b)) [
  | inl e ↦ inl ((eq_iff a b).0 e)
  | inr e ↦ inr (λ same. ground (arith, eq_iff a b))
]

module _ (api : JsonApi) where
  open api use {Json, Text, json_loads, strlen, json_object_get, json_array, json_string_value}

  user_name_needs :
      (info named : IceServerInfo) (o : Option Json)
      → ice_user_name api info o ≡ some named
      → (o ≡ none) ⊎ ((name : String) × ((o >>= json_string_value) ≡ some name))
  unfolding ice_user_name
  user_name_needs info named none e = inl refl
  user_name_needs info named (some v) e =
      let (name, n, _) = bind-some (json_string_value v) _ e in inr (name, n)

  credential_needs :
      (info known : IceServerInfo) (o : Option Json)
      → ice_credential api info o ≡ some known
      → (o ≡ none) ⊎ ((text : String) × ((o >>= json_string_value) ≡ some text))
  unfolding ice_credential
  credential_needs info known none e = inl refl
  credential_needs info known (some v) e =
      let (text, t, _) = bind-some (json_string_value v) _ e in inr (text, t)

  entry_needs :
      (entry : Json) (info : IceServerInfo) → ice_entry api entry ≡ some info → IsServer api entry
  unfolding ice_entry string_at
  entry_needs entry info e =
      let (uri, u, e') = bind-some (string_at api entry url_attr) _ e in
      let (named, n, c) =
        bind-some (ice_user_name api _ (json_object_get entry user_name_attr)) _ e' in
      (
        (uri, u),
        user_name_needs _ named (json_object_get entry user_name_attr) n,
        credential_needs named info (json_object_get entry credential_attr) c,
      )

  entries_need :
      (entries : List Json) (infos all : List IceServerInfo)
      → add_ice_entries api infos entries ≡ some all
      → All (IsServer api) entries
  unfolding add_ice_entries
  entries_need [] infos all e = tt
  entries_need (entry ∷ rest) infos all e =
      let (info, i, e') = bind-some (ice_entry api entry) _ e in
      (entry_needs entry info i, entries_need rest (infos ++ info ∷ []) all e')

  servers_need :
      (j : Json) (o : Option Json) (infos all : List IceServerInfo)
      → json_object_get j ice_info_attr ≡ o
      → add_ice_infos api infos o ≡ some all
      → HasServers api j
  unfolding add_ice_infos
  servers_need j none infos all got e = no_servers got
  servers_need j (some v) infos all got e = elim (Option-cases (json_array v)) [
    | inl a ↦ no_array v got a
    | inr (entries, a) ↦
        servers v entries got a (entries_need entries infos all (rw (a, add_ice_infos) at e))
  ]

  registration_needs :
      (s : Session) (j : Json) (result : String) (r : Session × Status × List (SessionEffect Text))
      → string_at api j command_attr ≡ some regist_msg_res
      → string_at api j result_attr ≡ some result
      → on_regist_res api s j ≡ some r
      → IsCommand api j
  unfolding on_regist_res
  registration_needs s j result r c t d = elim (str-cases result success) [
    | inr ne ↦ refused result c t ne
    | inl e ↦
        let t' = t ∙ ap some e in
        let (id, i, d') = bind-some (string_at api j id_attr) _ (rw t' at d) in
        let (all, a, _) =
          bind-some (add_ice_infos api s.ice_infos (json_object_get j ice_info_attr)) _ d' in
        accepted c t' (id, i) (servers_need j _ s.ice_infos all refl a)
  ]

  IsCommand-of :
      (s : Session) (j : Json) (cmd : String) (r : Session × Status × List (SessionEffect Text))
      → string_at api j command_attr ≡ some cmd
      → dispatch api s j cmd ≡ some r
      → IsCommand api j
  unfolding dispatch on_regist_res on_add_peer_msg on_remove_peer_msg on_offer_msg on_candidate_msg
  IsCommand-of s j cmd r c d = elim (str-cases cmd regist_msg_res) [
    | inl e ↦
        let d' = subst (λ c. dispatch api s j c ≡ some r) e d in
        let (result, t, _) = bind-some (string_at api j result_attr) _ d' in
        registration_needs s j result r (c ∙ ap some e) t d'
    | inr n1 ↦ elim (str-cases cmd add_peer_msg) [
      | inl e ↦
          let (id, i, _) =
            bind-some (string_at api j id_attr) _ (subst (λ c. dispatch api s j c ≡ some r) e d) in
          adds (c ∙ ap some e) (id, i)
      | inr n2 ↦ elim (str-cases cmd remove_peer_msg) [
        | inl e ↦
            let (id, i, _) =
              bind-some (string_at api j id_attr) _
                (subst (λ c. dispatch api s j c ≡ some r) e d) in
            removes (c ∙ ap some e) (id, i)
        | inr n3 ↦ elim (str-cases cmd offer_msg) [
          | inl e ↦
              let (id, i, d') =
                bind-some (string_at api j id_attr) _
                  (subst (λ c. dispatch api s j c ≡ some r) e d) in
              let (sdp, t, _) = bind-some (string_at api j sdp_attr) _ d' in
              offers (c ∙ ap some e) (id, i) (sdp, t)
          | inr n4 ↦ elim (str-cases cmd candidate_msg) [
            | inl e ↦
                let (id, i, d') =
                  bind-some (string_at api j id_attr) _
                    (subst (λ c. dispatch api s j c ≡ some r) e d) in
                let (mid, m, d'') = bind-some (string_at api j m_id_attr) _ d' in
                let (text, t, _) = bind-some (string_at api j candidate_attr) _ d'' in
                candidates (c ∙ ap some e) (id, i) (mid, m) (text, t)
            | inr n5 ↦ unknown cmd c n1 n2 n3 n4 n5
          ]
        ]
      ]
    ]
  ]

  received-Understood :
      (s : Session) (text : Text) (r : Session × Status × List (SessionEffect Text))
      → received_msg api s text ≡ some r
      → Understood api text
  unfolding received_msg
  received-Understood s text r e = elim (Option-cases (json_loads text (strlen text))) [
    | inl l ↦ not_json l
    | inr (j, l) ↦
        let e' = rw (l, received_msg) at e in
        let (cmd, c, d) = bind-some (string_at api j command_attr) _ e' in
        command j l (IsCommand-of s j cmd r c d)
  ]

  -- For a session with a listener, a message is handled without a fault just when it is understood:
  -- when it is no JSON, or has the attributes that its command needs.
  pub received_msg-Understood :
      (s : Session) (text : Text)
      → s.has_listener ≡ true
      → (received_msg api s text ≢ none) ↔ Understood api text
  received_msg-Understood s text listens = (
    λ fine. elim (Option-cases (received_msg api s text)) [
      | inl fault ↦ absurd (fine fault)
      | inr (r, e) ↦ received-Understood s text r e
    ],
    λ u fault. let (r, e, _) = received_msg-Reports api s listens text u in cc (sym fault ∙ e),
  )
