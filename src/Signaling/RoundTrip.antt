-- ===== src/Signaling/RoundTrip.antt =====
-- What one session sends, another reads; and what a session makes of the messages that it reads.
use aone_webrtc_stt.Signaling.Attributes.{
  m_line_index_attr, id_attr, sdp_attr, result_attr, answer_msg, command_attr, m_id_attr,
  candidate_msg, candidate_attr,
}
use aone_webrtc_stt.Signaling.IceServers.{int32_at, string_at}
use aone_webrtc_stt.Signaling.Outgoing.{candidate_json, sdp_json, command_res_json}
use aone_webrtc_stt.Signaling.Session.{received_msg, Session, on_peer_candidate, dispatch}
use text.Mathlib.Text.{◌==◌ as str_eq}
use aone_webrtc_stt.Base.{
  ℤ, pos, IsInt32, to_int32_id, to_int32, String, ◌≡◌, refl, ◌∙◌, inl, inr, true, false, some, [],
  ◌∷◌, if◌then◌else◌, Bool-cases, Option-cases, ok,
}
use aone_webrtc_stt.Signaling.Json.{JsonApi, int_as_real}

module _ (api : JsonApi) where
  open api use {
    Json, Text, json_object, json_object_set_new, json_string, json_integer, json_dumps, json_loads,
    json_object_get, json_string_value, json_integer_value, json_array, IsObject,
  }

  -- The value under the last key that was set, and under the keys set before.
  string_at-set_new :
      (o : Json) (k j v : String)
      → IsObject o
      → str_eq k j ≡ true
      → string_at api (json_object_set_new o k (json_string v)) j ≡ some v
  unfolding string_at
  string_at-set_new o k j v h e =
      rw (api.get-set_new o k j (json_string v) h, e) (api.string_value-string v)

  string_at-set_new_ne :
      (o : Json) (k j : String) (v : Json)
      → IsObject o
      → str_eq k j ≡ false
      → string_at api (json_object_set_new o k v) j ≡ string_at api o j
  unfolding string_at
  string_at-set_new_ne o k j v h e = rw (api.get-set_new o k j v h, e)

  int32_at-set_new :
      (o : Json) (k j : String) (i : ℤ)
      → IsObject o
      → str_eq k j ≡ true
      → IsInt32 i
      → int32_at api (json_object_set_new o k (json_integer i)) j ≡ i
  unfolding int32_at
  int32_at-set_new o k j i h e int =
      rw (int32_at, api.get-set_new o k j (json_integer i) h, e, api.integer_value-integer i int)
        (to_int32_id i int)

  int32_at-set_new_ne :
      (o : Json) (k j : String) (v : Json)
      → IsObject o
      → str_eq k j ≡ false
      → int32_at api (json_object_set_new o k v) j ≡ int32_at api o j
  unfolding int32_at
  int32_at-set_new_ne o k j v h e = rw (int32_at, api.get-set_new o k j v h, e)

  string_at-reals :
      (o : Json) (k : String) → IsObject o → string_at api (api.reals o) k ≡ string_at api o k
  unfolding string_at
  string_at-reals o k h = elim (Option-cases (json_object_get o k)) [
    | inl e ↦ rw (api.get-reals o k h, e) refl
    | inr (v, e) ↦ rw (api.get-reals o k h, e) (api.string_value-reals v)
  ]

  int32_at-reals : (o : Json) (k : String) → IsObject o → int32_at api (api.reals o) k ≡ pos 0
  unfolding int32_at to_int32
  int32_at-reals o k h = elim (Option-cases (json_object_get o k)) [
    | inl e ↦ rw (int32_at, api.get-reals o k h, e) refl
    | inr (v, e) ↦ rw (int32_at, api.get-reals o k h, e, api.integer_value-reals v) refl
  ]

  -- A text that is an object goes to the command that it names.
  received_msg-loads :
      (s : Session) (text : Text) (o : Json) (cmd : String)
      → json_loads text (api.strlen text) ≡ some o
      → string_at api o command_attr ≡ some cmd
      → received_msg api s text ≡ dispatch api s o cmd
  unfolding received_msg
  received_msg-loads s text o cmd l e = rw (l, received_msg, e)

  -- Objects of one, two, … attributes.
  module _ (id mid candidate : String) (idx : ℤ) where
    abbrev o1 : Json
    o1 = json_object_set_new json_object command_attr (json_string candidate_msg)

    abbrev o2 : Json
    o2 = json_object_set_new o1 id_attr (json_string id)

    abbrev o3 : Json
    o3 = json_object_set_new o2 m_line_index_attr (json_integer idx)

    abbrev o4 : Json
    o4 = json_object_set_new o3 m_id_attr (json_string mid)

    h1 : IsObject o1
    h1 = api.set_new-IsObject _ _ _ api.object-IsObject

    h2 : IsObject o2
    h2 = api.set_new-IsObject _ _ _ h1

    h3 : IsObject o3
    h3 = api.set_new-IsObject _ _ _ h2

    h4 : IsObject o4
    h4 = api.set_new-IsObject _ _ _ h3

    candidate_attributes :
        let o = candidate_json api id idx mid candidate in
        (string_at api o command_attr ≡ some candidate_msg)
        × (string_at api o id_attr ≡ some id)
        × (int32_at api o m_line_index_attr ≡ (int32_at api o3 m_line_index_attr))
        × (string_at api o m_id_attr ≡ some mid)
        × (string_at api o candidate_attr ≡ some candidate)
    unfolding candidate_json
    candidate_attributes = (
      string_at-set_new_ne o4 _ _ _ h4 refl
          ∙ string_at-set_new_ne o3 _ _ _ h3 refl
          ∙ string_at-set_new_ne o2 _ _ _ h2 refl
          ∙ string_at-set_new_ne o1 _ _ _ h1 refl
          ∙ string_at-set_new json_object _ _ candidate_msg api.object-IsObject refl,
      string_at-set_new_ne o4 _ _ _ h4 refl
          ∙ string_at-set_new_ne o3 _ _ _ h3 refl
          ∙ string_at-set_new_ne o2 _ _ _ h2 refl
          ∙ string_at-set_new o1 _ _ id h1 refl,
      int32_at-set_new_ne o4 _ _ _ h4 refl ∙ int32_at-set_new_ne o3 _ _ _ h3 refl,
      string_at-set_new_ne o4 _ _ _ h4 refl ∙ string_at-set_new o3 _ _ mid h3 refl,
      string_at-set_new o4 _ _ candidate h4 refl,
    )

  -- The attributes of a candidate, whose line index is an int32_t.
  pub candidate_read :
      (id mid candidate : String) (idx : ℤ)
      → IsInt32 idx
      → let o = candidate_json api id idx mid candidate in
        IsObject o
        × (string_at api o command_attr ≡ some candidate_msg)
        × (string_at api o id_attr ≡ some id)
        × (int32_at api o m_line_index_attr ≡ idx)
        × (string_at api o m_id_attr ≡ some mid)
        × (string_at api o candidate_attr ≡ some candidate)
  unfolding candidate_json
  candidate_read id mid candidate idx int =
      let (c, i, n, m, t) = candidate_attributes id mid candidate idx in
      let line =
        int32_at-set_new (o2 id mid candidate idx) _ _ idx (h2 id mid candidate idx) refl int in
      (api.set_new-IsObject _ _ _ (h4 id mid candidate idx), c, i, n ∙ line, m, t)

  -- The attributes of an answer.
  pub sdp_attributes :
      (id sdp : String)
      → let o = sdp_json api id sdp in
        IsObject o
        × (string_at api o command_attr ≡ some answer_msg)
        × (string_at api o id_attr ≡ some id)
        × (string_at api o sdp_attr ≡ some sdp)
  unfolding sdp_json
  sdp_attributes id sdp =
      let a1 = json_object_set_new json_object command_attr (json_string answer_msg) in
      let a2 = json_object_set_new a1 id_attr (json_string id) in
      let k1 : IsObject a1 = api.set_new-IsObject _ _ _ api.object-IsObject in
      let k2 : IsObject a2 = api.set_new-IsObject _ _ _ k1 in
      (
        api.set_new-IsObject _ _ _ k2,
        string_at-set_new_ne a2 _ _ _ k2 refl
            ∙ string_at-set_new_ne a1 _ _ _ k1 refl
            ∙ string_at-set_new json_object _ _ answer_msg api.object-IsObject refl,
        string_at-set_new_ne a2 _ _ _ k2 refl ∙ string_at-set_new a1 _ _ id k1 refl,
        string_at-set_new a2 _ _ sdp k2 refl,
      )

  -- The attributes of a reply to a request.
  pub command_res_attributes :
      (cmd id result : String)
      → let o = command_res_json api cmd id result in
        IsObject o
        × (string_at api o command_attr ≡ some cmd)
        × (string_at api o id_attr ≡ some id)
        × (string_at api o result_attr ≡ some result)
  unfolding command_res_json
  command_res_attributes cmd id result =
      let a1 = json_object_set_new json_object command_attr (json_string cmd) in
      let a2 = json_object_set_new a1 id_attr (json_string id) in
      let k1 : IsObject a1 = api.set_new-IsObject _ _ _ api.object-IsObject in
      let k2 : IsObject a2 = api.set_new-IsObject _ _ _ k1 in
      (
        api.set_new-IsObject _ _ _ k2,
        string_at-set_new_ne a2 _ _ _ k2 refl
            ∙ string_at-set_new_ne a1 _ _ _ k1 refl
            ∙ string_at-set_new json_object _ _ cmd api.object-IsObject refl,
        string_at-set_new_ne a2 _ _ _ k2 refl ∙ string_at-set_new a1 _ _ id k1 refl,
        string_at-set_new a2 _ _ result k2 refl,
      )

  -- The line index of a text of a session: _received_msg_m gives the length of the text as the flags of
  -- json_loads.
  abbrev pub line_index : Text → ℤ → ℤ
  line_index text idx = if int_as_real (api.strlen text) then pos 0 else idx

  -- A candidate that a session sends is read by a session with a listener as the same candidate,
  -- whose line index is an int32_t: its identifier, mid and text, and its line index where the length
  -- of the text does not have the bit 0x8; where it has, the line index is read as 0.
  pub candidate_round_trip :
      (s : Session) (id mid candidate : String) (idx : ℤ)
      → s.has_listener ≡ true
      → IsInt32 idx
      → let text = json_dumps (candidate_json api id idx mid candidate) in
        received_msg api s text
        ≡ some (s, ok, on_peer_candidate id (line_index text idx) mid candidate ∷ [])
  unfolding dispatch
  candidate_round_trip s id mid candidate idx listens int =
      let (h, c, i, n, m, t) = candidate_read id mid candidate idx int in
      let o = candidate_json api id idx mid candidate in
      let text = json_dumps o in
      let loads = api.loads-dumps o (api.strlen text) h in
      let same = λ (k : String). string_at-reals o k h in
      elim (Bool-cases (int_as_real (api.strlen text))) [
        | inl bit ↦
            let l = rw bit at loads in
            received_msg-loads s text (api.reals o) candidate_msg l (same command_attr ∙ c)
            ∙ rw
                (
                  same id_attr ∙ i,
                  int32_at-reals o m_line_index_attr h,
                  same m_id_attr ∙ m,
                  same candidate_attr ∙ t,
                  listens,
                  bit,
                )
                refl
        | inr clear ↦
            let l = rw clear at loads in
            received_msg-loads s text o candidate_msg l c ∙ rw (i, n, m, t, listens, clear) refl
      ]
