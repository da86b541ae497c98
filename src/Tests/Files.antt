-- ===== src/Tests/Files.antt =====
-- The debug files at concrete names.
use aone_webrtc_stt.Base.{codes, ◌≡◌, refl, ◌↔◌, [], ◌∷◌}
use aone_webrtc_stt.Utils.Files.{
  Files, Has, Begins, starts_with, remove_dump_files, remove_dump_files-Has,
}

abbrev files : Files
files = (codes "rnn_vad_dump_1.pcm", 1 ∷ []) ∷ (codes "port.cfg", 2 ∷ []) ∷ []

remove_dump_files-Has_example :
    Has (remove_dump_files (codes "rnn_vad_dump") files) (codes "port.cfg") (2 ∷ [])
    ↔ (Has files (codes "port.cfg") (2 ∷ []) × ¬ Begins (codes "rnn_vad_dump") (codes "port.cfg"))
remove_dump_files-Has_example =
    remove_dump_files-Has (codes "rnn_vad_dump") (codes "port.cfg") (2 ∷ []) files

only_port : remove_dump_files (codes "rnn_vad_dump") files ≡ (codes "port.cfg", 2 ∷ []) ∷ []
unfolding remove_dump_files starts_with
only_port = refl
