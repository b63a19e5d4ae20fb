-- ===== src/GreenPower/Layout.antt =====
-- The layout of the frames of green power devices, and what is read from it.
use deconz_lib.Base.{
  ℕ, ◌+◌, ◌*◌, ◌/◌, ◌%◌, ◌<◌, ◌≤◌, ◌^◌, ◌≡◌, ◌==◌, refl, sym, ap, ◌∙◌, Bool, true, false, not, ◌&&◌,
  ◌||◌, Option, none, some, List, [], ◌++◌, length, All, IsByte, if◌then◌else◌, arith, leb, bit_and,
  bit_and_ones,
}
use deconz_lib.Base.Shift.{bytes_le}
use deconz_lib.DataStream.{StreamApi, IsStream}
use deconz_lib.DataStream.Rules.{At}
use deconz_lib.GreenPower.{
  GpDataIndication, has_extension, has_src_id, has_counter, has_command, is_supported_frame,
  is_supported_application, read_gp_frame,
}
use deconz_lib.GreenPower.Frame.{IsCoded, coded_bytes, read_gp_frame-coded}
use deconz_lib.GreenPower.Supported.{has_extension-bit}

-- The extended frame control: application, security level, and the bits above.
pub record Extension : Type 0 where
  pub application : ℕ
  pub level : ℕ
  pub flags : ℕ

-- A data or a maintenance frame of version 3, with three bits that the reader does not look at.
pub record Header : Type 0 where
  pub maintenance : Bool
  pub others : ℕ
  pub extension : Option Extension

abbrev pub control_of : Header → ℕ
control_of h =
    (if h.maintenance then 1 else 0)
    + 3 * 4
    + h.others * 16
    + elim h.extension [ none ↦ 0 | some x ↦ 128 ]

abbrev pub ext_of : Option Extension → ℕ
ext_of none = 0
ext_of (some x) = x.application + x.level * 8 + x.flags * 32

-- The applications 0 and 2 have a command, and the source id is that of the application 0.
abbrev pub commands : Option Extension → Bool
commands none = true
commands (some x) = x.application == 0 || x.application == 2

abbrev pub names_source : Bool → Option Extension → Bool
names_source maintenance none = not maintenance
names_source maintenance (some x) = x.application == 0

-- From the second level on a frame is secured by a counter.
abbrev pub counts : Option Extension → Bool
counts none = false
counts (some x) = commands (some x) && leb 2 x.level

abbrev pub IsExtension : Option Extension → Type 0
IsExtension none = Unit
IsExtension (some x) = (x.application < 3) × (x.level < 4) × (x.flags < 8)

abbrev pub extends : Option Extension → Bool
extends none = false
extends (some x) = true

-- The conditions of the reader at the control bytes of a header.
extends-coded : (h : Header) → h.others < 8 → has_extension (control_of h) ≡ extends h.extension
extends-coded h few = has_extension-bit (control_of h) ∙ by_fields h.maintenance h.extension
  where
    by_fields :
        (m : Bool) (x : Option Extension)
        → not (control_of (record h { maintenance = m; extension = x }) / 128 % 2 == 0) ≡ extends x
    by_fields true none = ground (arith, few)
    by_fields true (some x) = ground (arith, few)
    by_fields false none = ground (arith, few)
    by_fields false (some x) = ground (arith, few)

supported-coded : (h : Header) → is_supported_frame (control_of h) ≡ true
supported-coded h = by_fields h.maintenance h.extension
  where
    by_fields :
        (m : Bool) (x : Option Extension)
        → is_supported_frame (control_of (record h { maintenance = m; extension = x })) ≡ true
    by_fields m x =
        let c = control_of (record h { maintenance = m; extension = x }) in
        ground (arith, bit_and_ones 2 c, bit_and_ones 2 (c / 4))

command-coded : (x : Option Extension) → IsExtension x → has_command (ext_of x) ≡ commands x
command-coded none ok = refl
command-coded (some x) ok = ground (arith, ok.0, ok.1, ok.2)

application-coded :
    (x : Option Extension) → IsExtension x → is_supported_application (ext_of x) ≡ true
application-coded none ok = refl
application-coded (some x) ok = ground (arith, ok.0, ok.1, ok.2)

ext_of-IsByte : (x : Option Extension) → IsExtension x → IsByte (ext_of x)
ext_of-IsByte none ok = omega arith
ext_of-IsByte (some x) ok = omega (arith, ok.0, ok.1, ok.2)

counter-coded :
    (h : Header)
    → h.others < 8
    → IsExtension h.extension
    → has_counter (control_of h) (ext_of h.extension) ≡ counts h.extension
counter-coded h few ok = rw (extends-coded h few) (by_extension h.extension ok)
  where
    by_extension :
        (x : Option Extension)
        → IsExtension x
        → (extends x
            && (has_command (ext_of x) && (ext_of x / 8 % 4 == 2 || ext_of x / 8 % 4 == 3)))
          ≡ counts x
    by_extension none ok = refl
    by_extension (some x) ok = rw (command-coded (some x) ok) (ground (arith, ok.0, ok.1, ok.2))

src-coded :
    (h : Header)
    → h.others < 8
    → IsExtension h.extension
    → has_src_id (control_of h) (ext_of h.extension) ≡ names_source h.maintenance h.extension
src-coded h few ok = rw (extends-coded h few) (by_fields h.maintenance h.extension ok)
  where
    by_fields :
        (m : Bool) (x : Option Extension)
        → IsExtension x
        → ((bit_and (control_of (record h { maintenance = m; extension = x })) 3 == 0
              && ext_of x % 8 == 0)
            || (bit_and (control_of (record h { maintenance = m; extension = x })) 3 == 1
                && (extends x && ext_of x % 8 == 0)))
          ≡ names_source m x
    by_fields true none ok =
        ground
          (arith, bit_and_ones 2 (control_of (record h { maintenance = true; extension = none })))
    by_fields true (some x) ok = ground (
      arith,
      ok.0,
      bit_and_ones 2 (control_of (record h { maintenance = true; extension = some x })),
    )
    by_fields false none ok =
        ground
          (arith, bit_and_ones 2 (control_of (record h { maintenance = false; extension = none })))
    by_fields false (some x) ok = ground (
      arith,
      ok.0,
      bit_and_ones 2 (control_of (record h { maintenance = false; extension = some x })),
    )

-- The header of the frame, its fields in range, and 0 in those that the header does not announce.
pub record IsGpFrame (h : Header) (f : GpDataIndication) : Type 0 where
  pub few : h.others < 8
  pub known : IsExtension h.extension
  pub control : f.nwk_frame_control ≡ control_of h
  pub ext : f.ext_frame_control ≡ ext_of h.extension
  pub src_word : f.src_id < 256 ^ 4
  pub no_src : names_source h.maintenance h.extension ≡ false → f.src_id ≡ 0
  pub counter_word : f.frame_counter < 256 ^ 4
  pub no_counter : counts h.extension ≡ false → f.frame_counter ≡ 0
  pub command_byte : IsByte f.command_id
  pub payload_bytes : All IsByte f.payload
  pub no_command : commands h.extension ≡ false → (f.command_id ≡ 0) × (f.payload ≡ [])

-- The bytes of a frame: its control bytes, and the fields that they announce.
abbrev pub gp_bytes : Header → GpDataIndication → List ℕ
gp_bytes h f =
    bytes_le 1 (control_of h)
    ++ ((if extends h.extension then bytes_le 1 (ext_of h.extension) else [])
        ++ ((if names_source h.maintenance h.extension then bytes_le 4 f.src_id else [])
            ++ ((if counts h.extension then bytes_le 4 f.frame_counter else [])
                ++ (if commands h.extension then bytes_le 1 f.command_id ++ f.payload else []))))

-- The same bytes, each field with all that follows it.
abbrev nested : ℕ → ℕ → GpDataIndication → Bool → Bool → Bool → Bool → List ℕ
nested control ext f extended sourced counted commanded =
    let from_command = if commanded then bytes_le 1 f.command_id ++ f.payload else [] in
    let from_counter =
      if counted then bytes_le 4 f.frame_counter ++ from_command else from_command in
    let from_src = if sourced then bytes_le 4 f.src_id ++ from_counter else from_counter in
    bytes_le 1 control ++ (if extended then bytes_le 1 ext ++ from_src else from_src)

if-front : (b : Bool) (xs ys : List ℕ) → (if b then xs ++ ys else ys) ≡ (if b then xs else []) ++ ys
if-front true xs ys = refl
if-front false xs ys = refl

nested-flat :
    (control ext : ℕ) (f : GpDataIndication) (extended sourced counted commanded : Bool)
    → nested control ext f extended sourced counted commanded
      ≡ bytes_le 1 control
        ++ ((if extended then bytes_le 1 ext else [])
            ++ ((if sourced then bytes_le 4 f.src_id else [])
                ++ ((if counted then bytes_le 4 f.frame_counter else [])
                    ++ (if commanded then bytes_le 1 f.command_id ++ f.payload else []))))
nested-flat control ext f extended sourced counted commanded =
    let from_command = if commanded then bytes_le 1 f.command_id ++ f.payload else [] in
    let from_counter =
      if counted then bytes_le 4 f.frame_counter ++ from_command else from_command in
    let from_src = if sourced then bytes_le 4 f.src_id ++ from_counter else from_counter in
    ap (λ l. bytes_le 1 control ++ l)
      (if-front extended (bytes_le 1 ext) from_src
        ∙ ap (λ l. (if extended then bytes_le 1 ext else []) ++ l)
            (if-front sourced (bytes_le 4 f.src_id) from_counter
              ∙ ap (λ l. (if sourced then bytes_le 4 f.src_id else []) ++ l)
                  (if-front counted (bytes_le 4 f.frame_counter) from_command)))

control_of-IsByte : (h : Header) → h.others < 8 → IsByte (control_of h)
control_of-IsByte h few = by_fields h.maintenance h.extension
  where
    by_fields :
        (m : Bool) (x : Option Extension)
        → IsByte (control_of (record h { maintenance = m; extension = x }))
    by_fields true none = omega (arith, few)
    by_fields true (some x) = omega (arith, few)
    by_fields false none = omega (arith, few)
    by_fields false (some x) = omega (arith, few)

extends-ext_of : (x : Option Extension) → extends x ≡ false → ext_of x ≡ 0
extends-ext_of none e = refl
extends-ext_of (some x) e = cc

module _ {h : Header} {f : GpDataIndication} (is : IsGpFrame h f) where
  extended : has_extension f.nwk_frame_control ≡ extends h.extension
  extended = rw (is.control) (extends-coded h is.few)

  sourced :
      has_src_id f.nwk_frame_control f.ext_frame_control ≡ names_source h.maintenance h.extension
  sourced = rw (is.control, is.ext) (src-coded h is.few is.known)

  counted : has_counter f.nwk_frame_control f.ext_frame_control ≡ counts h.extension
  counted = rw (is.control, is.ext) (counter-coded h is.few is.known)

  commanded : has_command f.ext_frame_control ≡ commands h.extension
  commanded = rw (is.ext) (command-coded h.extension is.known)

  IsGpFrame-IsCoded : IsCoded f
  IsGpFrame-IsCoded = record {
    control_byte = rw (is.control) (control_of-IsByte h is.few);
    supported = rw (is.control) (supported-coded h);
    ext_byte = rw (is.ext) (ext_of-IsByte h.extension is.known);
    no_ext = λ e. is.ext ∙ extends-ext_of h.extension (sym extended ∙ e);
    application = rw (is.ext) (application-coded h.extension is.known);
    src_word = is.src_word;
    no_src = λ e. is.no_src (sym sourced ∙ e);
    counter_word = is.counter_word;
    no_counter = λ e. is.no_counter (sym counted ∙ e);
    command_byte = is.command_byte;
    payload_bytes = is.payload_bytes;
    no_command = λ e. (is.no_command (sym commanded ∙ e)).0;
    no_payload = λ e. (is.no_command (sym commanded ∙ e)).1;
  }

  gp_bytes-coded : gp_bytes h f ≡ coded_bytes f
  gp_bytes-coded =
      sym (
        nested-flat (control_of h) (ext_of h.extension) f (extends h.extension)
          (names_source h.maintenance h.extension) (counts h.extension) (commands h.extension))
      ∙ sym (λ i.
        nested (is.control i) (is.ext i) f (extended i) (sourced i) (counted i) (commanded i))

module _ (q : StreamApi) (laws : IsStream q) (fuel : ℕ) where
  open q use {Stream}

  -- From the bytes of a frame an indication has its fields, with 0 for those that the header does
  -- not announce and all bytes behind the command as the payload; the fields of the proxy are as
  -- before. The frame is a data or maintenance frame of version 3, without or with an extended
  -- frame control that names the application 0, 1 or 2. Its source id is there for the application
  -- 0, without an extension in a data frame only; a counter from the security level 2 on, and the
  -- command, but for the application 1. The fields are in range, and there are rounds for the payload.
  pub read_gp_frame-bytes :
      (h : Header) (f d : GpDataIndication) (t : Stream)
      → IsGpFrame h f
      → length f.payload ≤ fuel
      → At q laws t (gp_bytes h f)
      → ((read_gp_frame q fuel d t).0
          ≡ (true, record f { gpp_nwk_address = d.gpp_nwk_address; gpp_link = d.gpp_link }))
        × At q laws (read_gp_frame q fuel d t).1 []
  read_gp_frame-bytes h f d t is enough here =
      read_gp_frame-coded q laws fuel f (IsGpFrame-IsCoded is) enough d t
        (here.0 ∙ gp_bytes-coded is, here.1)
