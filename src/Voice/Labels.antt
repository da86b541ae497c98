-- ===== src/Voice/Labels.antt =====
-- The labels ("enum" of the meta data) of the buffers that _send_stt_pcm gives out.
use aone_webrtc_stt.Base.{
  length, String, ◌≡◌, refl, ◌≢◌, ◌⊎◌, inl, inr, Bool, true, false, Option, none, some, List, [],
  ◌∷◌, ◌++◌, arith, ◌==◌, Bool-cases,
}
use aone_webrtc_stt.Voice.Pcm.{ABuffer, max_pcm_pending_size}
use aone_webrtc_stt.Voice.Stt.{SttState, flush, after_append, send_end}

abbrev pub labels : List ABuffer → List (Option String)
labels [] = []
labels (b ∷ bs) = b.meta_enum ∷ labels bs

pub labels-append : (bs cs : List ABuffer) → labels (bs ++ cs) ≡ labels bs ++ labels cs
labels-append [] cs = refl
labels-append (b ∷ bs) cs = rw (labels-append bs cs)

-- What the speech server expects of one peer: segments of one "start", any number of "speeching"
-- and one "end". The Booleans say whether a segment is open before and after the labels.
pub data Follows : Bool → List (Option String) → Bool → Type 0 where
  stay : {b : Bool} → Follows b [] b
  open_segment :
      {ls : List (Option String)} {b : Bool}
      → Follows true ls b
      → Follows false (some "start" ∷ ls) b
  go_on :
      {ls : List (Option String)} {b : Bool}
      → Follows true ls b
      → Follows true (some "speeching" ∷ ls) b
  close_segment :
      {ls : List (Option String)} {b : Bool} → Follows false ls b → Follows true (some "end" ∷ ls) b

pub Follows-append :
    {a b c : Bool} {ls ms : List (Option String)}
    → Follows a ls b
    → Follows b ms c
    → Follows a (ls ++ ms) c
Follows-append stay g = g
Follows-append (open_segment f) g = open_segment (Follows-append f g)
Follows-append (go_on f) g = go_on (Follows-append f g)
Follows-append (close_segment f) g = close_segment (Follows-append f g)

-- The label of the next buffer, by the flag.
abbrev pub speech_label : Bool → Option String
speech_label true = some "start"
speech_label false = some "speeching"

-- What speech gives out: nothing, and the flag stays, or one buffer with the flag's label, and the
-- flag is lowered.
pub data Speaks (s : SttState) (r : SttState × List ABuffer) : Type 0 where
  gathers : r.1 ≡ [] → r.0.is_start_vad ≡ s.is_start_vad → r.0.pending_buffer ≢ none → Speaks s r
  emits :
      (b : ABuffer)
      → r.1 ≡ b ∷ []
      → b.meta_enum ≡ speech_label s.is_start_vad
      → r.0.is_start_vad ≡ false
      → r.0.pending_buffer ≡ none
      → Speaks s r

pub after_append-Speaks : (s : SttState) (b : ABuffer) → Speaks s (after_append s b)
unfolding after_append
after_append-Speaks s b = elim (Bool-cases (length b.bytes == max_pcm_pending_size)) [
  | inl full ↦
      rw (full, after_append)
        (elim (Bool-cases s.is_start_vad) [
          | inl first ↦ emits (flush s b).1 refl (ground arith) (ground arith) (ground arith)
          | inr later ↦ emits (flush s b).1 refl (ground arith) (ground arith) (ground arith)
        ])
  | inr more ↦ rw (more, after_append) (gathers refl refl (λ e. cc))
]

-- The end of speech: a pending buffer with the flag's label, then the end.
pub send_end-labels :
    (s : SttState)
    → ((s.pending_buffer ≡ none) × (labels (send_end s).1 ≡ some "end" ∷ []) × ((send_end s).0 ≡ s))
      ⊎ ((s.pending_buffer ≢ none)
          × (labels (send_end s).1 ≡ speech_label s.is_start_vad ∷ some "end" ∷ [])
          × ((send_end s).0.is_start_vad ≡ false)
          × ((send_end s).0.pending_buffer ≡ none))
unfolding send_end
send_end-labels s = ground arith
