-- ===== src/Voice/Sending.antt =====
-- What _send_stt_pcm does with the pending buffer: no copy leaves it while the chunks fit, and the
-- bytes given out and those still pending are the bytes taken in, in order.
use aone_webrtc_stt.Base.{
  length, take, ℤ, ℕ, ◌+◌, ◌*◌, ◌≤◌, ◌<◌, ◌≡◌, refl, none, some, List, [], ◌∷◌, ◌++◌, append-nil,
  append_assoc, arith, le→leb,
}
use aone_webrtc_stt.Voice.Pcm.{ABuffer, new_buffer, pcm_bytes, max_pcm_pending_size}
use aone_webrtc_stt.Voice.Stt.{SttState, filling, append_pcm, after_append, send_speech, send_end}

-- The bytes that wait for their buffer to fill.
unfoldable pub pending_bytes : SttState → List ℕ
unfolding filling new_buffer
pending_bytes s = (filling s.pending_buffer).bytes

-- The bytes of the buffers, in order.
unfoldable pub payloads : List ABuffer → List ℕ
payloads [] = []
payloads (b ∷ bs) = b.bytes ++ payloads bs

pub payloads-append : (bs cs : List ABuffer) → payloads (bs ++ cs) ≡ payloads bs ++ payloads cs
unfolding payloads
payloads-append [] cs = refl
payloads-append (b ∷ bs) cs = simp (payloads-append bs cs, append_assoc)

-- The pending buffer has its full capacity.
abbrev pub HasRoom : SttState → Type 0
HasRoom s = (filling s.pending_buffer).capacity ≡ max_pcm_pending_size

-- A copy within both arrays has no fault, and its outcome is that of the longer buffer.
pub send_speech-eq :
    (s : SttState) (pcm : List ℤ) (samples : ℕ)
    → HasRoom s
    → samples ≤ length pcm
    → length (pending_bytes s) + samples * 2 ≤ max_pcm_pending_size
    → send_speech s pcm samples
      ≡ some (
          after_append s (record (filling s.pending_buffer) {
            bytes = pending_bytes s ++ pcm_bytes (take samples pcm);
          }))
unfolding send_speech append_pcm pending_bytes
send_speech-eq s pcm samples room h fits = rw (
  le→leb samples (length pcm) h,
  room,
  le→leb (length (filling s.pending_buffer).bytes + samples * 2) max_pcm_pending_size fits,
)

-- A copy that does not fit is a fault.
pub send_speech_overflow :
    (s : SttState) (pcm : List ℤ) (samples : ℕ)
    → HasRoom s
    → max_pcm_pending_size < length (pending_bytes s) + samples * 2
    → send_speech s pcm samples ≡ none
unfolding send_speech append_pcm pending_bytes
send_speech_overflow s pcm samples room big = ground arith

after_append_bytes :
    (s : SttState) (b : ABuffer)
    → payloads (after_append s b).1 ++ pending_bytes (after_append s b).0 ≡ b.bytes
unfolding after_append pending_bytes payloads
after_append_bytes s b = ground (arith, append-nil b.bytes, append-nil (b.bytes ++ []))

after_append-HasRoom :
    (s : SttState) (b : ABuffer) → b.capacity ≡ max_pcm_pending_size → HasRoom (after_append s b).0
unfolding after_append filling new_buffer
after_append-HasRoom s b room = ground arith

-- The buffer that a copy leaves.
abbrev pub appended : SttState → List ℤ → ℕ → ABuffer
appended s pcm samples = record (filling s.pending_buffer) {
  bytes = (filling s.pending_buffer).bytes ++ pcm_bytes (take samples pcm);
}

-- A copy that succeeds leaves that buffer.
pub send_speech-inv :
    (s : SttState) (pcm : List ℤ) (samples : ℕ) (r : SttState × List ABuffer)
    → send_speech s pcm samples ≡ some r
    → r ≡ after_append s (appended s pcm samples)
unfolding send_speech append_pcm
send_speech-inv s pcm samples r e = ground arith

-- A copy gives out and keeps the bytes that were pending, then those of the samples.
pub send_speech_bytes :
    (s : SttState) (pcm : List ℤ) (samples : ℕ) (r : SttState × List ABuffer)
    → send_speech s pcm samples ≡ some r
    → payloads r.1 ++ pending_bytes r.0 ≡ pending_bytes s ++ pcm_bytes (take samples pcm)
unfolding pending_bytes
send_speech_bytes s pcm samples r e =
    rw (send_speech-inv s pcm samples r e) (after_append_bytes s (appended s pcm samples))

pub send_speech-HasRoom :
    (s : SttState) (pcm : List ℤ) (samples : ℕ) (r : SttState × List ABuffer)
    → HasRoom s
    → send_speech s pcm samples ≡ some r
    → HasRoom r.0
send_speech-HasRoom s pcm samples r room e =
    rw (send_speech-inv s pcm samples r e) (after_append-HasRoom s (appended s pcm samples) room)

-- The end of speech gives out what was pending, and nothing stays.
pub send_end_bytes :
    (s : SttState)
    → (payloads (send_end s).1 ≡ pending_bytes s) × (pending_bytes (send_end s).0 ≡ [])
unfolding send_end pending_bytes payloads
send_end_bytes s = ground (arith, append-nil (pending_bytes s))
