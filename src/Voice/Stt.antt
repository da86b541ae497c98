-- ===== src/Voice/Stt.antt =====
-- rtc_voice_activity: _send_stt_pcm, whose text RTCLegacyVad.cc and RTCRNNoiseVad.cc share, over the
-- two members that it changes. Its result is the new state and the buffers given to
-- RTCPeerInterface::VoiceActive, oldest first. A copy outside an array is a fault. Allocation is
-- taken to succeed: the code would dereference a null pointer where it does not.
use aone_webrtc_stt.Base.{
  length, take, ℤ, ℕ, ◌+◌, ◌*◌, Bool, false, Option, none, some, List, [], ◌∷◌, ◌++◌, leb, ◌==◌,
  if◌then◌else◌, ◌>>=◌, ◌>>◌, require,
}
use aone_webrtc_stt.Voice.Pcm.{
  ABuffer, new_buffer, pcm_bytes, max_pcm_pending_size, VadSpeechingState, state_start,
  state_speeching, state_end,
}

pub record SttState : Type 0 where
  pub pending_buffer : Option ABuffer
  pub is_start_vad : Bool

-- The buffer to fill: the pending one, or a new one.
unfoldable pub filling : Option ABuffer → ABuffer
unfolding new_buffer
filling none = new_buffer max_pcm_pending_size
filling (some buffer) = buffer

-- memcpy behind the range, and setRange over both.
unfoldable pub append_pcm : ABuffer → List ℤ → ℕ → Option ABuffer
unfolding pcm_bytes
append_pcm buffer pcm samples = do
  let size = samples * 2
  let cur_size = length buffer.bytes
  require (leb samples (length pcm))
  require (leb (cur_size + size) buffer.capacity)
  some (record buffer { bytes = buffer.bytes ++ pcm_bytes (take samples pcm) })

-- The first buffer after the flag was raised is "start", any other "speeching".
unfoldable pub flush : SttState → ABuffer → SttState × ABuffer
flush s buffer =
    if s.is_start_vad
    then (
      record s { is_start_vad = false; pending_buffer = none },
      record buffer { meta_enum = some "start" },
    )
    else (record s { pending_buffer = none }, record buffer { meta_enum = some "speeching" })

unfoldable pub end_buffer : ABuffer
unfolding new_buffer
end_buffer = record (new_buffer 0) { meta_enum = some "end" }

-- What follows the copy: a full buffer is handed on.
unfoldable pub after_append : SttState → ABuffer → SttState × List ABuffer
unfolding flush
after_append s buffer =
    if length buffer.bytes == max_pcm_pending_size
    then (let (s', out) = flush s buffer in (s', out ∷ []))
    else (record s { pending_buffer = some buffer }, [])

unfoldable pub send_speech : SttState → List ℤ → ℕ → Option (SttState × List ABuffer)
unfolding filling append_pcm after_append
send_speech s pcm samples = do
  buffer ← append_pcm (filling s.pending_buffer) pcm samples
  some (after_append s buffer)

unfoldable pub send_end : SttState → SttState × List ABuffer
unfolding flush end_buffer
send_end s = elim s.pending_buffer [
  | none ↦ (s, end_buffer ∷ [])
  | some buffer ↦ let (s', out) = flush s buffer in (s', out ∷ end_buffer ∷ [])
]

unfoldable pub send_stt_pcm :
    SttState → List ℤ → ℕ → VadSpeechingState → Option (SttState × List ABuffer)
unfolding send_speech send_end
send_stt_pcm s pcm samples state_start = send_speech s pcm samples
send_stt_pcm s pcm samples state_speeching = send_speech s pcm samples
send_stt_pcm s pcm samples state_end = some (send_end s)
