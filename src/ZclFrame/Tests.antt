-- ===== src/ZclFrame/Tests.antt =====
-- A frame with a manufacturer code, written and read in memory.
use deconz_lib.Base.{ℕ, ◌≡◌, refl, sym, List, [], ◌∷◌, arith, leb}
use deconz_lib.ZclFrame.{ZclFrame, is_valid_frame, write_frame, read_frame}
use deconz_lib.ZclFrame.Wire.{read_frame-write_frame, read_frame-valid, code_of}
use deconz_lib.DataStream.{◌▸◌, put_all}
use deconz_lib.DataStream.Memory.{memory, memory-IsStream, stream_of}
use deconz_lib.DataStream.Rules.{At}

abbrev report : ZclFrame
report = record {
  valid = 0;
  frame_control = 0x0c;
  manufacturer_code = 0x1135;
  seq_number = 7;
  command_id = 0x0a;
  payload = 1 ∷ 2 ∷ 3 ∷ [];
}

abbrev report_bytes : List ℕ
report_bytes = 0x0c ∷ 0x35 ∷ 0x11 ∷ 7 ∷ 0x0a ∷ 1 ∷ 2 ∷ 3 ∷ []

report_written : (write_frame memory report (stream_of [])).out ≡ report_bytes
unfolding write_frame ◌▸◌ put_all
report_written = refl

read_frame-write_frame_example :
    ((read_frame memory 3 (stream_of report_bytes)).0
      ≡ record report { valid = 1; manufacturer_code = code_of report })
    × At memory memory-IsStream (read_frame memory 3 (stream_of report_bytes)).1 []
read_frame-write_frame_example =
    read_frame-write_frame memory memory-IsStream report 3 (stream_of []) (stream_of report_bytes)
      (omega arith) (omega arith) refl (sym report_written, refl)

read_frame-valid_example :
    is_valid_frame (read_frame memory 9 (stream_of (0x04 ∷ 1 ∷ 2 ∷ []))).0 ≡ leb 5 3
read_frame-valid_example =
    read_frame-valid memory memory-IsStream (stream_of (0x04 ∷ 1 ∷ 2 ∷ [])) 9 refl (omega arith)
