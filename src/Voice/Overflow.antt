-- ===== src/Voice/Overflow.antt =====
-- How often speech of one size can be sent: for ever where its 10 ms frames divide the six frames of
-- a buffer, and otherwise only until the copy that leaves the buffer.
use native.Mathlib.Nat.{div-add-mod', mod-lt}
use aone_webrtc_stt.Base.{
  length, ℤ, ℕ, zero, suc, ◌+◌, ◌*◌, ◌/◌, ◌%◌, ◌≤◌, ◌<◌, ◌≡◌, refl, ap, ◌∙◌, ◌≢◌, true, Option,
  none, some, List, arith, ◌>>=◌,
}
use aone_webrtc_stt.Voice.Pcm.{max_pcm_pending_size, sampling_16khz_10ms, new_buffer}
use aone_webrtc_stt.Voice.Stt.{SttState, filling, after_append, send_speech}
use aone_webrtc_stt.Voice.Sending.{
  pending_bytes, HasRoom, appended, send_speech-eq, send_speech-HasRoom,
}
use aone_webrtc_stt.Voice.Chunks.{
  IsAligned, length-appended, after_append_kept, send_speech-IsAligned, send_speech_misaligned,
}

-- The state after speech of `samples` samples was sent a number of times.
unfoldable pub send_times : ℕ → SttState → List ℤ → ℕ → Option SttState
send_times zero s pcm samples = some s
send_times (suc times) s pcm samples =
    send_speech s pcm samples >>= λ r. send_times times r.0 pcm samples

pub send_times-IsAligned :
    (c k samples : ℕ)
    → k * c ≡ max_pcm_pending_size
    → samples * 2 ≡ c
    → (times : ℕ) (s : SttState) (pcm : List ℤ) → samples ≤ length pcm
    → IsAligned c k s
    → (s' : SttState) × (send_times times s pcm samples ≡ some s') × IsAligned c k s'
unfolding send_times
send_times-IsAligned c k samples size chunk zero s pcm h a = (s, refl, a)
send_times-IsAligned c k samples size chunk (suc times) s pcm h a =
    let (r, sent, a') = send_speech-IsAligned c k samples size chunk s pcm h a in
    rw sent (send_times-IsAligned c k samples size chunk times r.0 pcm h a')

-- j more chunks on top of i stay below the size of the buffer, then one more passes it.
send_times_misaligned :
    (c samples i j : ℕ) (s : SttState) (pcm : List ℤ)
    → samples ≤ length pcm
    → samples * 2 ≡ c
    → HasRoom s
    → length (pending_bytes s) ≡ i * c
    → (i + j) * c < max_pcm_pending_size
    → max_pcm_pending_size < suc (i + j) * c
    → send_times (suc j) s pcm samples ≡ none
unfolding send_times filling pending_bytes
send_times_misaligned c samples i zero s pcm h chunk room filled low high =
    rw (send_speech_misaligned s pcm c samples i room chunk filled (omega arith))
send_times_misaligned c samples i (suc j) s pcm h chunk room filled low high =
    let within : length (pending_bytes s) + samples * 2 < max_pcm_pending_size = omega arith in
    let sent = send_speech-eq s pcm samples room h (omega arith) in
    let total = length-appended s pcm samples h in
    let kept = after_append_kept s (appended s pcm samples) (λ e. omega arith) in
    rw sent (
      send_times_misaligned c samples (suc i) j (after_append s (appended s pcm samples)).0 pcm h
        chunk (send_speech-HasRoom s pcm samples _ room sent) (ap length kept ∙ total ∙ omega arith)
        (omega arith) (omega arith))

abbrev pub fresh : SttState
fresh = record { pending_buffer = none; is_start_vad = true }

fresh_bytes : length (pending_bytes fresh) ≡ 0
unfolding pending_bytes filling new_buffer
fresh_bytes = refl

fresh-HasRoom : HasRoom fresh
unfolding filling new_buffer
fresh-HasRoom = refl

pub quotient_pos : (q n : ℕ) → q * n ≡ 6 → 0 < q
quotient_pos zero n e = omega arith
quotient_pos (suc q) n e = omega arith

module _ (n : ℕ) (pcm : List ℤ) (some_frames : 0 < n)
    (h : sampling_16khz_10ms * n ≤ length pcm) where
  safe : 6 % n ≡ 0 → (times : ℕ) → send_times times fresh pcm (sampling_16khz_10ms * n) ≢ none
  safe e times failed =
      let whole : 6 / n * n ≡ 6 = omega (arith, div-add-mod' 6 n) in
      let aligned : IsAligned (320 * n) (6 / n) fresh = record {
        room = fresh-HasRoom;
        filled = 0;
        filled_bytes = fresh_bytes ∙ omega arith;
        filled_lt = quotient_pos (6 / n) n whole;
      } in
      let (s, sent, _) =
        send_times-IsAligned (320 * n) (6 / n) (160 * n) (omega arith) (omega arith) times fresh pcm
          h aligned in
      cc sent

  unsafe : 6 % n ≢ 0 → send_times (suc (6 / n)) fresh pcm (sampling_16khz_10ms * n) ≡ none
  unsafe e =
      let lower : 6 / n * n < 6 = omega (arith, div-add-mod' 6 n) in
      let upper : 6 < suc (6 / n) * n = omega (arith, div-add-mod' 6 n, mod-lt 6 some_frames) in
      send_times_misaligned (320 * n) (160 * n) 0 (6 / n) fresh pcm h (omega arith) fresh-HasRoom
        (fresh_bytes ∙ omega arith) (omega arith) (omega arith)

-- Speech of n frames of 10 ms is sent from an empty buffer, n at least 1 and within the samples
-- given. Where n divides 6, no number of times faults. Where it does not, one more than 6 / n times
-- is a fault: the copy leaves the pending buffer.
pub send_times_safe :
    (n : ℕ) (pcm : List ℤ)
    → 0 < n
    → sampling_16khz_10ms * n ≤ length pcm
    → (6 % n ≡ 0 → (times : ℕ) → send_times times fresh pcm (sampling_16khz_10ms * n) ≢ none)
      × (6 % n ≢ 0 → send_times (suc (6 / n)) fresh pcm (sampling_16khz_10ms * n) ≡ none)
send_times_safe n pcm some_frames h = (safe n pcm some_frames h, unsafe n pcm some_frames h)
