-- ===== src/Signaling/Servers.antt =====
-- What a session makes of a registration that succeeds: the servers, as one who reads the reply by its
-- keys finds them.
use aone_webrtc_stt.Signaling.Attributes.{
  result_attr, success, id_attr, ice_info_attr, url_attr, user_name_attr, credential_attr,
}
use aone_webrtc_stt.Signaling.IceServers.{
  IceServerInfo, ice_entry, ice_user_name, ice_credential, string_at, add_ice_infos,
}
use aone_webrtc_stt.Signaling.Session.{Session, SessionEffect, on_regist_res, on_opened, notify}
use aone_webrtc_stt.Signaling.Received.{decode_all, add_ice_entries-decode_all}
use aone_webrtc_stt.Signaling.Json.{JsonApi}
use mathlib.Core.Path.{subst}
use aone_webrtc_stt.Base.{
  String, ◌≡◌, refl, sym, ap, ◌∙◌, ◌↔◌, ◌⊎◌, inl, inr, true, false, Option, none, some, List, [],
  ◌∷◌, ◌++◌, append-nil, Option-cases, bind-some, bind-eq, some_inj, require, Status, ok,
}

module _ (api : JsonApi) where
  open api use {Json, json_object_get, json_string_value, json_array}

  -- A key that may be missing: it has a text, or there is none.
  abbrev pub TextUnder : Json → String → String → Type 0
  TextUnder entry key text =
      ((json_object_get entry key ≡ none) × (text ≡ "")) ⊎ (string_at api entry key ≡ some text)

  -- A server as its entry has it: a TURN server has a user name.
  pub record IsServer (entry : Json) (info : IceServerInfo) : Type 0 where
    pub url : string_at api entry url_attr ≡ some info.uri
    pub user : TextUnder entry user_name_attr info.user_name
    pub secret : TextUnder entry credential_attr info.credential
    pub stun : (info.is_stun ≡ true) ↔ (json_object_get entry user_name_attr ≡ none)

  abbrev pub AreServers : List Json → List IceServerInfo → Type 0
  AreServers [] [] = Unit
  AreServers (entry ∷ entries) (info ∷ infos) = IsServer entry info × AreServers entries infos
  AreServers _ _ = ⊥

  -- The entries of a reply: those of the array under the key, if there is one.
  abbrev pub EntriesOf : Json → List Json → Type 0
  EntriesOf j entries =
      ((json_object_get j ice_info_attr ≡ none) × (entries ≡ []))
      ⊎ ((v : Json) × (json_object_get j ice_info_attr ≡ some v)
          × (((json_array v ≡ none) × (entries ≡ [])) ⊎ (json_array v ≡ some entries)))

  -- What reading the user name and the credential leaves.
  abbrev UserRead : IceServerInfo → Option Json → IceServerInfo → Type 0
  UserRead info o n =
      (n.uri ≡ info.uri)
      × (n.credential ≡ info.credential)
      × (((o ≡ none) × (n.user_name ≡ info.user_name) × (n.is_stun ≡ info.is_stun))
          ⊎ ((v : Json) × (o ≡ some v)
              × (json_string_value v ≡ some n.user_name)
              × (n.is_stun ≡ false)))

  abbrev SecretRead : IceServerInfo → Option Json → IceServerInfo → Type 0
  SecretRead info o n =
      (n.uri ≡ info.uri)
      × (n.user_name ≡ info.user_name)
      × (n.is_stun ≡ info.is_stun)
      × (((o ≡ none) × (n.credential ≡ info.credential))
          ⊎ ((v : Json) × (o ≡ some v) × (json_string_value v ≡ some n.credential)))

  user_lem :
      (info named : IceServerInfo) (o : Option Json)
      → ice_user_name api info o ≡ some named
      → UserRead info o named
  unfolding ice_user_name
  user_lem info named none e =
      subst (UserRead info none) (some_inj e) (refl, refl, inl (refl, refl, refl))
  user_lem info named (some v) e =
      let (name, there, same) = bind-some (json_string_value v) _ e in
      subst (UserRead info (some v)) (some_inj same) (refl, refl, inr (v, refl, there, refl))

  secret_lem :
      (info named : IceServerInfo) (o : Option Json)
      → ice_credential api info o ≡ some named
      → SecretRead info o named
  unfolding ice_credential
  secret_lem info named none e =
      subst (SecretRead info none) (some_inj e) (refl, refl, refl, inl (refl, refl))
  secret_lem info named (some v) e =
      let (text, there, same) = bind-some (json_string_value v) _ e in
      subst (SecretRead info (some v)) (some_inj same) (refl, refl, refl, inr (v, refl, there))

  text_under :
      (entry v : Json) (key text : String)
      → json_object_get entry key ≡ some v
      → json_string_value v ≡ some text
      → string_at api entry key ≡ some text
  unfolding string_at
  text_under entry v key text there is_text = bind-eq _ _ there is_text

  ice_entry-IsServer :
      (entry : Json) (info : IceServerInfo) → ice_entry api entry ≡ some info → IsServer entry info
  unfolding ice_entry
  ice_entry-IsServer entry info e =
      let (uri, u, e1) = bind-some (string_at api entry url_attr) _ e in
      let start : IceServerInfo = record {
        is_stun = true;
        uri = uri;
        user_name = "";
        credential = "";
      } in
      let (named, n, e2) =
        bind-some (ice_user_name api start (json_object_get entry user_name_attr)) _ e1 in
      let (uri1, secret1, user1) = user_lem start named (json_object_get entry user_name_attr) n in
      let (uri2, name2, stun2, secret2) =
        secret_lem named info (json_object_get entry credential_attr) e2 in
      record {
        url = u ∙ ap some (sym uri1) ∙ ap some (sym uri2);
        user = elim user1 [
          | inl (gone, empty, _) ↦ inl (gone, name2 ∙ empty)
          | inr (v, there, text, _) ↦
              inr (
                text_under entry v user_name_attr info.user_name there (text ∙ ap some (sym name2)))
        ];
        secret = elim secret2 [
          | inl (gone, kept) ↦ inl (gone, kept ∙ secret1)
          | inr (v, there, text) ↦
              inr (text_under entry v credential_attr info.credential there text)
        ];
        stun = elim user1 [
          | inl (gone, _, stun) ↦ (λ _. gone, λ _. stun2 ∙ stun)
          | inr (v, there, _, turn) ↦
              (λ yes. cc (sym yes ∙ stun2 ∙ turn), λ gone. cc (sym there ∙ gone))
        ];
      }

  decode_all-AreServers :
      (entries : List Json) (infos : List IceServerInfo)
      → decode_all api entries ≡ some infos
      → AreServers entries infos
  unfolding decode_all
  decode_all-AreServers [] infos e = subst (AreServers []) (some_inj e) tt
  decode_all-AreServers (entry ∷ entries) infos e =
      let (info, one, e1) = bind-some (ice_entry api entry) _ e in
      let (rest, others, same) = bind-some (decode_all api entries) _ e1 in
      subst (AreServers (entry ∷ entries)) (some_inj same)
        (ice_entry-IsServer entry info one, decode_all-AreServers entries rest others)

  abbrev Added : List IceServerInfo → List Json → List IceServerInfo → Type 0
  Added before entries after =
      (infos : List IceServerInfo) × (after ≡ before ++ infos) × AreServers entries infos

  add_ice_infos-Added :
      (j : Json) (before after : List IceServerInfo)
      → add_ice_infos api before (json_object_get j ice_info_attr) ≡ some after
      → (entries : List Json) × EntriesOf j entries × Added before entries after
  unfolding add_ice_infos
  add_ice_infos-Added j before after e = elim (Option-cases (json_object_get j ice_info_attr)) [
    | inl gone ↦
        let e' = rw (gone, add_ice_infos) at e in
        ([], inl (gone, refl), ([], sym (some_inj e') ∙ sym (append-nil before), tt))
    | inr (v, there) ↦ elim (Option-cases (json_array v)) [
      | inl other ↦
          let e' = rw (there, add_ice_infos, other) at e in
          (
            [],
            inr (v, there, inl (other, refl)),
            ([], sym (some_inj e') ∙ sym (append-nil before), tt),
          )
      | inr (entries, array) ↦
          let e' = rw (there, add_ice_infos, array) at e in
          let (infos, decoded, same) =
            bind-some (decode_all api entries) _
              (sym (add_ice_entries-decode_all api entries before) ∙ e') in
          (
            entries,
            inr (v, there, inr array),
            (infos, sym (some_inj same), decode_all-AreServers entries infos decoded),
          )
    ]
  ]

  -- What a registration leaves: the identifier of the reply, and the servers of its entries.
  abbrev pub Registered : Session → Json → Session → Type 0
  Registered s j t =
      (node_id : String) × (infos : List IceServerInfo) × (entries : List Json) × (string_at api j
          id_attr
        ≡ some node_id)
      × EntriesOf j entries
      × AreServers entries infos
      × (t ≡ record s { id = node_id; ice_infos = s.ice_infos ++ infos })

  -- A registration that succeeds, for a reply that is handled without a fault: the session has the identifier of the reply, and behind its servers one for each entry of
  -- the array of the reply, if there is one, in order, each with the address, user name and
  -- credential under their keys, empty where the key is missing, and a STUN server just where there is
  -- no user name; the listener is told, once.
  pub on_regist_res-Registered :
      (s : Session) (j : Json) (r : Session × Status × List (SessionEffect api.Text))
      → string_at api j result_attr ≡ some success
      → on_regist_res api s j ≡ some r
      → Registered s j r.0 × (r.1 ≡ ok) × (r.2 ≡ on_opened ∷ [])
  unfolding on_regist_res notify
  on_regist_res-Registered s j r result e =
      let e0 = rw result at e in
      let (node_id, named, e1) = bind-some (string_at api j id_attr) _ e0 in
      let (after, added, e2) =
        bind-some (add_ice_infos api s.ice_infos (json_object_get j ice_info_attr)) _ e1 in
      let (_, _, e3) = bind-some (require s.has_listener) _ e2 in
      let (entries, of, (infos, same, servers)) = add_ice_infos-Added j s.ice_infos after added in
      subst
        (λ (q : Session × Status × List (SessionEffect api.Text)).
          Registered s j q.0 × (q.1 ≡ ok) × (q.2 ≡ on_opened ∷ []))
        (some_inj e3)
        (
          (
            node_id,
            infos,
            entries,
            named,
            of,
            servers,
            ap (λ i. record s { id = node_id; ice_infos = i }) same,
          ),
          refl,
          refl,
        )
