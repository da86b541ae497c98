-- ===== src/Signaling/Received.antt =====
-- The servers of a reply to a registration, one by one.
use aone_webrtc_stt.Signaling.IceServers.{IceServerInfo, ice_entry, add_ice_entries}
use aone_webrtc_stt.Base.{
  ◌≡◌, refl, ap, ◌∙◌, inl, inr, Option, some, List, [], ◌∷◌, ◌++◌, append-nil, append_assoc,
  Option-cases, ◌>>=◌,
}
use aone_webrtc_stt.Signaling.Json.{JsonApi}

module _ (api : JsonApi) where
  open api use {Json}

  -- The entries one by one, with no list to add them to.
  unfoldable pub decode_all : List Json → Option (List IceServerInfo)
  decode_all [] = some []
  decode_all (entry ∷ rest) =
      ice_entry api entry >>= λ info. decode_all rest >>= λ infos. some (info ∷ infos)

  add_ice_entries-cons :
      (infos : List IceServerInfo) (entry : Json) (rest : List Json)
      → add_ice_entries api infos (entry ∷ rest)
        ≡ (ice_entry api entry >>= λ info. add_ice_entries api (infos ++ info ∷ []) rest)
  unfolding add_ice_entries
  add_ice_entries-cons infos entry rest = refl

  add_ice_entries-nil : (infos : List IceServerInfo) → add_ice_entries api infos [] ≡ some infos
  unfolding add_ice_entries
  add_ice_entries-nil infos = refl

  pub add_ice_entries-decode_all :
      (entries : List Json) (infos : List IceServerInfo)
      → add_ice_entries api infos entries
        ≡ (decode_all entries >>= λ decoded. some (infos ++ decoded))
  unfolding decode_all
  add_ice_entries-decode_all [] infos = add_ice_entries-nil infos ∙ rw (append-nil infos)
  add_ice_entries-decode_all (entry ∷ rest) infos = elim (Option-cases (ice_entry api entry)) [
    | inl bad ↦ add_ice_entries-cons infos entry rest ∙ rw bad
    | inr (info, good) ↦
        add_ice_entries-cons infos entry rest
        ∙ rw (good, add_ice_entries-decode_all rest (infos ++ info ∷ []))
            (elim (Option-cases (decode_all rest)) [
              | inl bad ↦ rw bad
              | inr (ds, fine) ↦ rw fine (ap some (append_assoc infos (info ∷ []) ds))
            ])
  ]
