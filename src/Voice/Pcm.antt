-- ===== src/Voice/Pcm.antt =====
-- rtc_server_node/RTCServerNode/rtc_voice_activity/RTCVadInterface.h: the constants, the speech
-- states, and the buffer (ABuffer) in which PCM is handed on. A sample is an int16_t as an integer;
-- a buffer holds its bytes, two to a sample, the low byte first. An ABuffer keeps its capacity, the
-- bytes of its range (the code only uses ranges from offset 0), and the two entries of its meta().
use aone_webrtc_stt.Base.{
  length, ℤ, residue, ℕ, ◌*◌, ◌/◌, ◌%◌, String, ◌≡◌, refl, Option, none, List, [], ◌∷◌, ◌++◌, map,
  append_assoc, arith,
}

abbrev pub max_pcm_buffer : ℕ
max_pcm_buffer = 2000

abbrev pub sampling_16khz : ℕ
sampling_16khz = 16000

abbrev pub sampling_16khz_10ms : ℕ
sampling_16khz_10ms = 160

-- kSampling_16khz_10ms * sizeof(int16_t) * 6
abbrev pub max_pcm_pending_size : ℕ
max_pcm_pending_size = sampling_16khz_10ms * 2 * 6

abbrev pub non_speech_threshold : ℕ
non_speech_threshold = 200

abbrev pub mono_channel : ℕ
mono_channel = 1

abbrev pub stereo_channel : ℕ
stereo_channel = 2

pub data VadSpeechingState : Type 0 where
  state_start state_speeching state_end : VadSpeechingState

pub record ABuffer : Type 0 where
  pub capacity : ℕ
  pub bytes : List ℕ
  pub meta_enum : Option String
  pub meta_id : Option String

-- new ABuffer(capacity) followed by setRange(0, 0).
unfoldable pub new_buffer : ℕ → ABuffer
new_buffer capacity = record { capacity = capacity; bytes = []; meta_enum = none; meta_id = none }

-- The memory of the samples, as memcpy reads it.
unfoldable pub pcm_bytes : List ℤ → List ℕ
pcm_bytes [] = []
pcm_bytes (x ∷ xs) = let word = residue 65536 x in (word % 256) ∷ (word / 256) ∷ pcm_bytes xs

pub length-pcm_bytes : (xs : List ℤ) → length (pcm_bytes xs) ≡ length xs * 2
unfolding pcm_bytes
length-pcm_bytes [] = omega arith
length-pcm_bytes (x ∷ xs) = omega (arith, length-pcm_bytes xs)

-- What a detector does beside its state: buffers for the peer, and debug files that it writes to.
pub data VadEffect : Type 0 where
  voice_active : ABuffer → VadEffect
  dump_file : List ℕ → List ℕ → VadEffect

-- The buffers given to the peer, in order.
unfoldable pub voices : List VadEffect → List ABuffer
voices [] = []
voices (voice_active b ∷ es) = b ∷ voices es
voices (dump_file f d ∷ es) = voices es

pub voices-append : (ds es : List VadEffect) → voices (ds ++ es) ≡ voices ds ++ voices es
unfolding voices
voices-append [] es = refl
voices-append (voice_active b ∷ ds) es = rw (voices-append ds es)
voices-append (dump_file f d ∷ ds) es = voices-append ds es

pub voices-map : (bs : List ABuffer) → voices (map voice_active bs) ≡ bs
unfolding voices
voices-map [] = refl
voices-map (b ∷ bs) = rw (voices-map bs)

-- The bytes appended to the debug files, in order: those of the frames found active.
unfoldable pub dumped : List VadEffect → List ℕ
dumped [] = []
dumped (voice_active b ∷ es) = dumped es
dumped (dump_file name bytes ∷ es) = bytes ++ dumped es

pub dumped-append : (ds es : List VadEffect) → dumped (ds ++ es) ≡ dumped ds ++ dumped es
unfolding dumped
dumped-append [] es = refl
dumped-append (voice_active b ∷ ds) es = dumped-append ds es
dumped-append (dump_file f d ∷ ds) es = rw (dumped-append ds es, append_assoc)

pub dumped-voices : (bs : List ABuffer) → dumped (map voice_active bs) ≡ []
unfolding dumped
dumped-voices [] = refl
dumped-voices (b ∷ bs) = dumped-voices bs
