-- ===== src/ZclFrame/Wire.antt =====
-- The bytes of a frame: what is written is read back, and which bytes are a frame.
use deconz_lib.Base.{
  ℕ, ◌≡◌, refl, true, false, List, [], ◌∷◌, ◌++◌, ◌<◌, ◌≤◌, ◌+◌, ◌*◌, ◌^◌, arith, length,
  if◌then◌else◌, ltb, leb, All, IsByte, ◌∙◌, sym, ap,
}
use deconz_lib.Base.Shift.{bytes_le}
use deconz_lib.DataStream.{StreamApi, IsStream, ◌>>=◌, give}
use deconz_lib.DataStream.Rules.{
  At, Reads, ReadsAll, Writes, Reads-give, Reads-get, Reads->>=, ReadsAll->>=, ReadsAll-end,
  ReadsAll-read_all, Writes-put, Writes-▸, Writes-none, Writes-put_all,
}
use deconz_lib.DataStream.Short.{Takes, Takes-give, Takes-get, Takes->>=}
use deconz_lib.ZclFrame.{
  ZclFrame, is_specific, is_valid_frame, write_frame, put_code, get_code, behind_control,
  read_header, read_frame, get_valid,
}

-- The fields are in the range of their types.
pub record IsFrame (f : ZclFrame) : Type 0 where
  pub control_byte : IsByte f.frame_control
  pub code_word : f.manufacturer_code < 256 ^ 2
  pub seq_byte : IsByte f.seq_number
  pub command_byte : IsByte f.command_id
  pub payload_bytes : All IsByte f.payload

-- The manufacturer code that a reader finds.
abbrev pub code_of : ZclFrame → ℕ
code_of f = if is_specific f.frame_control then f.manufacturer_code else 0

abbrev code_bytes : ZclFrame → List ℕ
code_bytes f = if is_specific f.frame_control then bytes_le 2 f.manufacturer_code else []

abbrev header_bytes : ZclFrame → List ℕ
header_bytes f =
    bytes_le 1 f.frame_control
    ++ (code_bytes f ++ (bytes_le 1 f.seq_number ++ (bytes_le 1 f.command_id ++ [])))

-- The bytes that a header takes, by its first one.
abbrev pub header_size : List ℕ → ℕ
header_size [] = 3
header_size (b ∷ bs) = if is_specific b then 5 else 3

abbrev written_bytes : ZclFrame → List ℕ
written_bytes f =
    bytes_le 1 f.frame_control
    ++ (code_bytes f ++ (bytes_le 1 f.seq_number ++ (bytes_le 1 f.command_id ++ f.payload)))

same_bytes : (f : ZclFrame) → header_bytes f ++ ([] ++ f.payload) ≡ written_bytes f
same_bytes f =
    elim (is_specific f.frame_control)
      as (λ b.
        (bytes_le 1 f.frame_control
            ++ ((if b then bytes_le 2 f.manufacturer_code else [])
                ++ (bytes_le 1 f.seq_number ++ (bytes_le 1 f.command_id ++ []))))
          ++ f.payload
        ≡ bytes_le 1 f.frame_control
          ++ ((if b then bytes_le 2 f.manufacturer_code else [])
              ++ (bytes_le 1 f.seq_number ++ (bytes_le 1 f.command_id ++ f.payload)))) [
                | true ↦ refl
                | false ↦ refl
              ]

byte_value : (b : ℕ) → b + 256 * 0 ≡ b
byte_value b = omega arith

module _ (q : StreamApi) (laws : IsStream q) where
  open q use {Stream, get, put, past_end}
  open laws use {rest, written}

  Reads-get_code :
      (f : ZclFrame)
      → IsFrame f
      → Reads q laws (get_code q f.frame_control) (code_bytes f) (code_of f)
  Reads-get_code f h =
      elim (is_specific f.frame_control)
        as (λ b.
          Reads q laws (if b then get 2 else give {S = Stream} {A = ℕ} 0)
            (if b then bytes_le 2 f.manufacturer_code else [])
            (if b then f.manufacturer_code else 0)) [
              | true ↦ Reads-get q laws 2 f.manufacturer_code h.code_word
              | false ↦ Reads-give q laws 0
            ]

  Reads-read_header :
      (f : ZclFrame)
      → IsFrame f
      → Reads q laws
          (read_header q)
          (header_bytes f)
          (f.frame_control, code_of f, f.seq_number, f.command_id)
  unfolding read_header behind_control
  Reads-read_header f h = Reads->>= q laws _ (Reads-get q laws 1 f.frame_control h.control_byte) (
      Reads->>= q laws _ (Reads-get_code f h) (
        Reads->>= q laws _ (Reads-get q laws 1 f.seq_number h.seq_byte) (
          Reads->>= q laws _ (Reads-get q laws 1 f.command_id h.command_byte)
            (Reads-give q laws (f.frame_control, code_of f, f.seq_number, f.command_id)))))

  Writes-put_code : (f : ZclFrame) → Writes q laws (put_code q f) (code_bytes f)
  Writes-put_code f =
      elim (is_specific f.frame_control)
        as (λ b.
          Writes q laws (if b then put 2 f.manufacturer_code else λ s. s)
            (if b then bytes_le 2 f.manufacturer_code else [])) [
              | true ↦ Writes-put q laws 2 f.manufacturer_code
              | false ↦ Writes-none q laws
            ]

  Writes-write_frame :
      (f : ZclFrame) → IsFrame f → Writes q laws (write_frame q f) (written_bytes f)
  unfolding write_frame
  Writes-write_frame f h = Writes-▸ q laws (Writes-put q laws 1 f.frame_control) (
      Writes-▸ q laws (Writes-put_code f) (
        Writes-▸ q laws (Writes-put q laws 1 f.seq_number) (
          Writes-▸ q laws (Writes-put q laws 1 f.command_id)
            (Writes-put_all q laws f.payload h.payload_bytes))))

  Reads-get_valid : Reads q laws (get_valid q) [] 1
  Reads-get_valid = record { run = λ s ts h. (rw (h.1), h) }

  ReadsAll-read_frame :
      (f : ZclFrame) (fuel : ℕ)
      → IsFrame f
      → length f.payload ≤ fuel
      → ReadsAll q laws
          (read_frame q fuel)
          (header_bytes f ++ ([] ++ f.payload))
          (record f { valid = 1; manufacturer_code = code_of f })
  unfolding read_frame
  ReadsAll-read_frame f fuel h enough = ReadsAll->>= q laws _ (Reads-read_header f h) (
      ReadsAll->>= q laws _ Reads-get_valid (
        ReadsAll-end q laws _ (ReadsAll-read_all q laws fuel f.payload enough h.payload_bytes)
          (Reads-give q laws _)))

  -- A frame that is written to an empty stream is read back from its bytes, and all of them are
  -- read: it is valid then, and its manufacturer code is 0 where the frame control does not announce
  -- one. The fields are in the range of their types, and there are rounds for the payload.
  pub read_frame-write_frame :
      (f : ZclFrame) (fuel : ℕ) (s t : Stream)
      → IsFrame f
      → length f.payload ≤ fuel
      → written s ≡ []
      → At q laws t (written (write_frame q f s))
      → ((read_frame q fuel t).0 ≡ record f { valid = 1; manufacturer_code = code_of f })
        × At q laws (read_frame q fuel t).1 []
  read_frame-write_frame f fuel s t h enough empty here =
      let out = (Writes-write_frame f h).run s in
      (ReadsAll-read_frame f fuel h enough).run t
        (here.0 ∙ out ∙ ap (λ l. l ++ written_bytes f) empty ∙ sym (same_bytes f), here.1)

  Takes-get_code :
      (control : ℕ) → Takes q laws (if is_specific control then 2 else 0) (get_code q control)
  Takes-get_code control =
      elim (is_specific control)
        as (λ b.
          Takes q laws (if b then 2 else 0) (if b then get 2 else give {S = Stream} {A = ℕ} 0)) [
            | true ↦ Takes-get q laws 2
            | false ↦ Takes-give q laws 0
          ]

  Takes-behind_control :
      (control : ℕ)
      → Takes q laws ((if is_specific control then 2 else 0) + 2) (behind_control q control)
  unfolding behind_control
  Takes-behind_control control = Takes->>= q laws _ (Takes-get_code control) (λ code.
      Takes->>= q laws _ (Takes-get q laws 1)
        (λ seq. Takes->>= q laws _ (Takes-get q laws 1) (λ command. Takes-give q laws _)))

  header-past_end :
      (t : Stream) (bs : List ℕ)
      → rest t ≡ bs
      → past_end t ≡ false
      → All IsByte bs
      → past_end (read_header q t).1 ≡ ltb (length bs) (header_size bs)
  unfolding read_header ◌>>=◌
  header-past_end t [] e fine h =
      let short = laws.short_status t 1 (omega (arith, ap (λ l. length l) e)) in
      (Takes-behind_control (get 1 t).0).status (get 1 t).1 ∙ rw short
  header-past_end t (b ∷ bs) e fine h =
      let value = laws.get_value t (b ∷ []) bs e in
      let status = laws.get_status t (b ∷ []) bs e in
      let more = laws.get_rest t (b ∷ []) bs e in
      (Takes-behind_control (get 1 t).0).status (get 1 t).1
      ∙ rw (status ∙ fine, more, value ∙ byte_value b) (ground arith)

  -- A frame is valid exactly when the bytes of its header are there: five of them if the frame control
  -- announces a manufacturer code, and three otherwise. Nothing was read past the end before.
  pub read_frame-valid :
      (t : Stream) (fuel : ℕ)
      → past_end t ≡ false
      → All IsByte (rest t)
      → is_valid_frame (read_frame q fuel t).0 ≡ leb (header_size (rest t)) (length (rest t))
  unfolding read_frame ◌>>=◌ give
  read_frame-valid t fuel fine h = rw (header-past_end t (rest t) refl fine h) (ground arith)
