-- ===== src/Node/Lifecycle.antt =====
-- The voice client of a peer is used only while there is one, and every request that waits for an
-- answer gets one.
use mathlib.Core.Path.{subst}
use aone_webrtc_stt.Base.{
  ℤ, ℕ, suc, ◌+◌, String, ◌≡◌, refl, sym, Bool, true, false, List, [], ◌∷◌, ◌++◌, arith,
  if◌then◌else◌, Status, ok, invalid_operation,
}
use aone_webrtc_stt.Signaling.IceServers.{IceServerInfo}
use aone_webrtc_stt.Node.Peer.{
  PeerMsg, create_voice_client_msg, set_remote_description, remote_candidate, close_msg, error_msg,
  VoiceClientApi, PeerEffect, reply, voice_create, voice_open, voice_close, set_pcm_callback,
  clear_pcm_callback, voice_set_remote_description, voice_set_remote_ice_candidate, post, RtcPeer,
  opened_voice_client, create_voice_client_m, set_offer_description_m, set_remote_candidate_m,
  close_m, answered, described, on_peer_message, run_peer,
}

-- What may be done with the voice client. The Booleans say whether there is one, before and after;
-- there is one behind a creation just where Create gives it.
pub data Uses (api : VoiceClientApi) : Bool → List PeerEffect → Bool → Type 0 where
  done : {b : Bool} → Uses api b [] b
  creates :
      {b d : Bool} {infos : List IceServerInfo} {es : List PeerEffect}
      → Uses api (api.create infos) es d
      → Uses api b (voice_create infos ∷ es) d
  opens : {d : Bool} {es : List PeerEffect} → Uses api true es d → Uses api true (voice_open ∷ es) d
  sets_callback :
      {d : Bool} {es : List PeerEffect}
      → Uses api true es d
      → Uses api true (set_pcm_callback ∷ es) d
  clears_callback :
      {d : Bool} {es : List PeerEffect}
      → Uses api true es d
      → Uses api true (clear_pcm_callback ∷ es) d
  describes :
      {d : Bool} {sdp : String} {es : List PeerEffect}
      → Uses api true es d
      → Uses api true (voice_set_remote_description sdp ∷ es) d
  adds_candidate :
      {d : Bool} {idx : ℤ} {mid candidate : String} {es : List PeerEffect}
      → Uses api true es d
      → Uses api true (voice_set_remote_ice_candidate idx mid candidate ∷ es) d
  closes :
      {d : Bool} {es : List PeerEffect} → Uses api false es d → Uses api true (voice_close ∷ es) d
  replies :
      {b d : Bool} {s : Status} {es : List PeerEffect}
      → Uses api b es d
      → Uses api b (reply s ∷ es) d
  posts :
      {b d : Bool} {m : PeerMsg} {es : List PeerEffect}
      → Uses api b es d
      → Uses api b (post m ∷ es) d

Uses-append :
    {api : VoiceClientApi} {a b c : Bool} {es fs : List PeerEffect}
    → Uses api a es b
    → Uses api b fs c
    → Uses api a (es ++ fs) c
Uses-append done g = g
Uses-append (creates f) g = creates (Uses-append f g)
Uses-append (opens f) g = opens (Uses-append f g)
Uses-append (sets_callback f) g = sets_callback (Uses-append f g)
Uses-append (clears_callback f) g = clears_callback (Uses-append f g)
Uses-append (describes f) g = describes (Uses-append f g)
Uses-append (adds_candidate f) g = adds_candidate (Uses-append f g)
Uses-append (closes f) g = closes (Uses-append f g)
Uses-append (replies f) g = replies (Uses-append f g)
Uses-append (posts f) g = posts (Uses-append f g)

-- The number of requests that wait for an answer, and of answers.
unfoldable pub requests : List PeerMsg → ℕ
requests [] = 0
requests (create_voice_client_msg ∷ ms) = suc (requests ms)
requests (set_remote_description sdp ∷ ms) = requests ms
requests (remote_candidate i m c ∷ ms) = requests ms
requests (close_msg ∷ ms) = suc (requests ms)
requests (error_msg s d ∷ ms) = requests ms

unfoldable pub answers : List PeerEffect → ℕ
answers [] = 0
answers (reply s ∷ es) = suc (answers es)
answers (_ ∷ es) = answers es

answers-append : (es fs : List PeerEffect) → answers (es ++ fs) ≡ answers es + answers fs
unfolding answers
answers-append [] fs = omega arith
answers-append (reply s ∷ es) fs = omega (arith, answers-append es fs)
answers-append (_ ∷ es) fs = answers-append es fs

-- An if between results, in a property of the result taken.
if-elim :
    {A : Type 0} (P : A → Type 0) (b : Bool) {x y : A}
    → (b ≡ true → P x)
    → (b ≡ false → P y)
    → P (if b then x else y)
if-elim P true f g = f refl
if-elim P false f g = g refl

module _ (api : VoiceClientApi) where
  answered-Uses :
      {b : Bool} (s : Status) (p : RtcPeer) (es : List PeerEffect)
      → Uses api b es p.has_voice_client
      → let r = answered api (p, s, es) in Uses api b r.1 r.0.has_voice_client
  unfolding answered
  answered-Uses ok p es f = Uses-append f (replies done)
  answered-Uses invalid_operation p es f = Uses-append f (replies done)

  described-Uses :
      {b : Bool} (s : Status) (p : RtcPeer) (es : List PeerEffect)
      → Uses api b es p.has_voice_client
      → let r = described api p (s, es) in Uses api b r.1 r.0.has_voice_client
  unfolding described
  described-Uses ok p es f = f
  described-Uses invalid_operation p es f = Uses-append f (posts done)

  opened-Uses :
      (s : Status) (p : RtcPeer)
      → let r = opened_voice_client api s p in Uses api true r.2 r.0.has_voice_client
  unfolding opened_voice_client
  opened-Uses ok p = opens (sets_callback done)
  opened-Uses invalid_operation p = opens done

  create-Uses :
      (p : RtcPeer)
      → let r = create_voice_client_m api p in Uses api p.has_voice_client r.2 r.0.has_voice_client
  unfolding create_voice_client_m
  create-Uses p =
      if-elim
        (λ (r : RtcPeer × Status × List PeerEffect).
          Uses api p.has_voice_client r.2 r.0.has_voice_client)
        (api.create p.ice_servers)
        (λ eq. creates (
          let r = opened_voice_client api (api.open_client p.ice_servers) p in
          subst (λ b. Uses api b r.2 r.0.has_voice_client) (sym eq)
            (opened-Uses (api.open_client p.ice_servers) p)))
        (λ eq. creates (subst (λ b. Uses api b [] false) (sym eq) done))

  offer-Uses :
      (p : RtcPeer) (sdp : String)
      → Uses api p.has_voice_client (set_offer_description_m api p sdp).1 p.has_voice_client
  unfolding set_offer_description_m
  offer-Uses p sdp =
      if-elim (λ (r : Status × List PeerEffect). Uses api p.has_voice_client r.1 p.has_voice_client)
        p.has_voice_client
        (λ eq.
          subst (λ b. Uses api b (voice_set_remote_description sdp ∷ []) b) (sym eq)
            (describes done))
        (λ _. done)

  candidate-Uses :
      (p : RtcPeer) (idx : ℤ) (mid candidate : String)
      → Uses api p.has_voice_client
          (set_remote_candidate_m api p idx mid candidate).1
          p.has_voice_client
  unfolding set_remote_candidate_m
  candidate-Uses p idx mid candidate =
      if-elim (λ (r : Status × List PeerEffect). Uses api p.has_voice_client r.1 p.has_voice_client)
        p.has_voice_client
        (λ eq.
          subst (λ b. Uses api b (voice_set_remote_ice_candidate idx mid candidate ∷ []) b) (sym eq)
            (adds_candidate done))
        (λ _. done)

  close-Uses :
      (p : RtcPeer) → let r = close_m api p in Uses api p.has_voice_client r.2 r.0.has_voice_client
  unfolding close_m
  close-Uses p =
      if-elim
        (λ (r : RtcPeer × Status × List PeerEffect).
          Uses api p.has_voice_client r.2 r.0.has_voice_client)
        p.has_voice_client
        (λ eq.
          subst (λ b. Uses api b (clear_pcm_callback ∷ voice_close ∷ []) false) (sym eq)
            (clears_callback (closes done)))
        (λ _. done)

  step-Uses :
      (m : PeerMsg) (p : RtcPeer)
      → let r = on_peer_message api p m in Uses api p.has_voice_client r.1 r.0.has_voice_client
  unfolding on_peer_message
  step-Uses create_voice_client_msg p =
      let r = create_voice_client_m api p in answered-Uses r.1 r.0 r.2 (create-Uses p)
  step-Uses (set_remote_description sdp) p =
      let r = set_offer_description_m api p sdp in described-Uses r.0 p r.1 (offer-Uses p sdp)
  step-Uses (remote_candidate i mid c) p = candidate-Uses p i mid c
  step-Uses close_msg p = let r = close_m api p in answered-Uses r.1 r.0 r.2 (close-Uses p)
  step-Uses (error_msg s d) p = done

  step_answers :
      (m : PeerMsg) (p : RtcPeer) → answers (on_peer_message api p m).1 ≡ requests (m ∷ [])
  unfolding on_peer_message answers requests
  step_answers create_voice_client_msg p = ground arith
  step_answers (set_remote_description sdp) p = ground arith
  step_answers (remote_candidate i mid c) p = ground arith
  step_answers close_msg p = ground arith
  step_answers (error_msg s d) p = refl

  requests-cons :
      (m : PeerMsg) (ms : List PeerMsg) → requests (m ∷ ms) ≡ requests (m ∷ []) + requests ms
  unfolding requests
  requests-cons create_voice_client_msg ms = omega arith
  requests-cons (set_remote_description sdp) ms = omega arith
  requests-cons (remote_candidate i mid c) ms = omega arith
  requests-cons close_msg ms = omega arith
  requests-cons (error_msg s d) ms = omega arith

  -- Over any messages, from a peer with or without a voice client, every call of the voice client
  -- is made while there is one: after it was created, and before it is closed.
  pub run_peer-Uses :
      (ms : List PeerMsg) (p : RtcPeer)
      → let r = run_peer api p ms in Uses api p.has_voice_client r.1 r.0.has_voice_client
  unfolding run_peer
  run_peer-Uses [] p = done
  run_peer-Uses (m ∷ ms) p =
      let q = (on_peer_message api p m).0 in Uses-append (step-Uses m p) (run_peer-Uses ms q)

  -- Over any messages, a peer answers as often as it is asked to create its voice client or to
  -- close: the thread that waits for the answer is always released, errors included.
  pub run_peer-answers :
      (ms : List PeerMsg) (p : RtcPeer) → answers (run_peer api p ms).1 ≡ requests ms
  unfolding run_peer answers requests
  run_peer-answers [] p = refl
  run_peer-answers (m ∷ ms) p =
      let out = (on_peer_message api p m).1 in
      let q = (on_peer_message api p m).0 in
      let rest = (run_peer api q ms).1 in
      omega (
        arith,
        answers-append out rest,
        step_answers m p,
        run_peer-answers ms q,
        requests-cons m ms,
      )
