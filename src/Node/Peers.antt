-- ===== src/Node/Peers.antt =====
-- std::unordered_map<std::string, sp<RTCPeerInterface>> as an association list with one entry for each
-- key: find, operator[] with an assignment, and erase.
use text.Mathlib.Text.{◌==◌ as str_eq}
use text.Mathlib.TextEquality.{eq_iff}
use aone_webrtc_stt.Base.{
  String, ◌≡◌, refl, Option, none, some, List, [], ◌∷◌, arith, if◌then◌else◌,
}

module _ {ℓ} {P : Type ℓ} where
  unfoldable pub find : String → List (String × P) → Option P
  find k [] = none
  find k ((j, p) ∷ ps) = if str_eq j k then some p else find k ps

  unfoldable pub assign : String → P → List (String × P) → List (String × P)
  assign k p [] = (k, p) ∷ []
  assign k p ((j, q) ∷ ps) = if str_eq j k then (k, p) ∷ ps else (j, q) ∷ assign k p ps

  unfoldable pub erase : String → List (String × P) → List (String × P)
  erase k [] = []
  erase k ((j, p) ∷ ps) = if str_eq j k then erase k ps else (j, p) ∷ erase k ps

  pub find-assign :
      (k j : String) (p : P) (ps : List (String × P))
      → find j (assign k p ps) ≡ (if str_eq k j then some p else find j ps)
  unfolding find assign
  find-assign k j p [] = refl
  find-assign k j p ((i, q) ∷ ps) =
      ground (arith, eq_iff k j, eq_iff i k, eq_iff i j, find-assign k j p ps)

  pub find-erase :
      (k j : String) (ps : List (String × P))
      → find j (erase k ps) ≡ (if str_eq k j then none else find j ps)
  unfolding find erase
  find-erase k j [] = ground arith
  find-erase k j ((i, q) ∷ ps) =
      ground (arith, eq_iff k j, eq_iff i k, eq_iff i j, find-erase k j ps)
