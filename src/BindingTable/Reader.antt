-- ===== src/BindingTable/Reader.antt =====
-- binding_table.cpp: `Binding::readFromStream`, which reads an entry of a binding table.
use mathlib.Core.Path.{subst}
use deconz_lib.Base.{
  ℕ, ◌≡◌, refl, Bool, true, false, List, [], ◌++◌, ◌<◌, ◌^◌, arith, length, if◌then◌else◌, leb,
  ◌==◌, IsByte, ◌∙◌, ap,
}
use deconz_lib.Base.Int.{pos}
use deconz_lib.Base.Shift.{bytes_le}
use deconz_lib.DataStream.{StreamApi, IsStream, Reader, ◌>>=◌, give, status_ok}
use deconz_lib.DataStream.Rules.{At, Reads, Reads-give, Reads-get, Reads->>=, Reads-status_ok}
use deconz_lib.DataStream.Short.{left, Takes-get}
use deconz_lib.BindingTable.{
  Binding, no_address, no_mode, group_mode, ext_mode, set_ext, set_group, unicast, groupcast,
}

module _ (q : StreamApi) where
  open q use {Stream, get, past_end}

  -- The branch of a group.
  pub read_group : Binding → Reader Stream (Bool × Binding)
  read_group b = do
    addr ← get 2
    ok ← status_ok q
    give (
      ok,
      record b {
        dst_addr = set_group addr b.dst_addr;
        dst_endpoint = 0;
        dst_addr_mode = group_mode;
      },
    )

  -- The branch of an extended address.
  pub read_ext : Binding → Reader Stream (Bool × Binding)
  read_ext b = do
    addr ← get 8
    endpoint ← get 1
    ok ← status_ok q
    give (
      ok,
      record b {
        dst_addr = set_ext addr b.dst_addr;
        dst_endpoint = endpoint;
        dst_addr_mode = ext_mode;
      },
    )

  -- The destination, by its address mode.
  pub read_destination : ℕ → Binding → Reader Stream (Bool × Binding)
  read_destination mode b =
      if mode == 1 then read_group b else if mode == 3 then read_ext b else give (false, b)

  -- The fields in front of the destination, with the address mode.
  pub read_source_fields : Binding → Reader Stream (ℕ × Binding)
  read_source_fields b = do
    src ← get 8
    endpoint ← get 1
    cluster ← get 2
    mode ← get 1
    give (mode, record b { src_addr = src; src_endpoint = endpoint; cluster = cluster })

  -- `Binding::readFromStream`
  pub read_binding : Binding → Reader Stream (Bool × Binding)
  read_binding b = read_source_fields b >>= λ r. read_destination r.0 r.1

-- A binding before any field is set.
abbrev pub no_binding : Binding
no_binding = record {
  dst_addr = no_address;
  confirmed = pos 0;
  src_addr = 0;
  dst_addr_mode = no_mode;
  cluster = 0xffff;
  src_endpoint = 0xff;
  dst_endpoint = 0xff;
}

-- Where an entry of a table leads, with the bytes of it in the table, the address mode first.
pub data Target : Type 0 where
  to_ext : ℕ → ℕ → Target
  to_group : ℕ → Target

abbrev pub binding_to : ℕ → ℕ → ℕ → Target → Binding
binding_to src cluster endpoint (to_ext dst dst_endpoint) =
    unicast src dst cluster endpoint dst_endpoint
binding_to src cluster endpoint (to_group group) = groupcast src group cluster endpoint

abbrev pub target_mode : Target → ℕ
target_mode (to_ext dst dst_endpoint) = 3
target_mode (to_group group) = 1

abbrev pub target_bytes : Target → List ℕ
target_bytes (to_ext dst dst_endpoint) = bytes_le 8 dst ++ bytes_le 1 dst_endpoint
target_bytes (to_group group) = bytes_le 2 group

abbrev pub source_bytes : ℕ → ℕ → ℕ → ℕ → List ℕ
source_bytes src endpoint cluster mode =
    bytes_le 8 src ++ (bytes_le 1 endpoint ++ (bytes_le 2 cluster ++ (bytes_le 1 mode ++ [])))

abbrev pub IsTarget : Target → Type 0
IsTarget (to_ext dst dst_endpoint) = (dst < 256 ^ 8) × IsByte dst_endpoint
IsTarget (to_group group) = group < 256 ^ 2

-- Whether a destination of that mode has its bytes.
abbrev pub accepts : ℕ → ℕ → Bool
accepts mode n = if mode == 1 then leb 2 n else if mode == 3 then leb 9 n else false

mode_byte : (x : Target) → IsByte (target_mode x)
mode_byte (to_ext dst dst_endpoint) = omega arith
mode_byte (to_group group) = omega arith

module _ (q : StreamApi) (laws : IsStream q) where
  open q use {Stream, get, past_end}
  open laws use {rest}

  Reads-destination :
      (b : Binding) (x : Target)
      → IsTarget x
      → b.dst_addr ≡ no_address
      → b.confirmed ≡ pos 0
      → Reads q laws
          (read_destination q (target_mode x) b)
          (target_bytes x)
          (true, binding_to b.src_addr b.cluster b.src_endpoint x)
  unfolding read_destination read_group read_ext
  Reads-destination b (to_group group) h e c =
      subst (λ r. Reads q laws (read_group q b) (bytes_le 2 group) r) (rw (e, c))
        (Reads->>= q laws _ (Reads-get q laws 2 group h)
          (Reads->>= q laws _ (Reads-status_ok q laws) (Reads-give q laws _)))
  Reads-destination b (to_ext dst endpoint) h e c =
      subst (λ r. Reads q laws (read_ext q b) (bytes_le 8 dst ++ bytes_le 1 endpoint) r) (rw (e, c))
        (Reads->>= q laws _ (Reads-get q laws 8 dst h.0) (
          Reads->>= q laws _ (Reads-get q laws 1 endpoint h.1)
            (Reads->>= q laws _ (Reads-status_ok q laws) (Reads-give q laws _))))

  destination-ok :
      (mode : ℕ) (b : Binding) (s : Stream)
      → past_end s ≡ false
      → (read_destination q mode b s).0.0 ≡ accepts mode (left q laws s)
  unfolding read_destination read_group read_ext ◌>>=◌ give
  destination-ok mode b s fine = ground (
    arith,
    (Takes-get q laws 2).status s,
    (Takes-get q laws 8).status s,
    (Takes-get q laws 8).leaves s,
    (Takes-get q laws 1).status (get 8 s).1,
  )

module _ (q : StreamApi) (laws : IsStream q) (src endpoint cluster : ℕ) (h : src < 256 ^ 8)
    (e : IsByte endpoint) (c : cluster < 256 ^ 2) where
  open q use {Stream, get, past_end}
  open laws use {rest}

  Reads-read_source_fields :
      (b : Binding) (mode : ℕ)
      → IsByte mode
      → Reads q laws
          (read_source_fields q b)
          (source_bytes src endpoint cluster mode)
          (mode, record b { src_addr = src; src_endpoint = endpoint; cluster = cluster })
  unfolding read_source_fields
  Reads-read_source_fields b mode m = Reads->>= q laws _ (Reads-get q laws 8 src h) (
      Reads->>= q laws _ (Reads-get q laws 1 endpoint e) (
        Reads->>= q laws _ (Reads-get q laws 2 cluster c)
          (Reads->>= q laws _ (Reads-get q laws 1 mode m) (Reads-give q laws _))))

  -- From the bytes of an entry a new binding becomes the one that the constructors make of these
  -- fields, for an extended address and for a group, and what follows the entry is left. The
  -- fields are in the range of their types.
  pub read_binding-entry :
      (x : Target) (t : Stream) (ts : List ℕ)
      → IsTarget x
      → At q laws t ((source_bytes src endpoint cluster (target_mode x) ++ target_bytes x) ++ ts)
      → ((read_binding q no_binding t).0 ≡ (true, binding_to src cluster endpoint x))
        × At q laws (read_binding q no_binding t).1 ts
  unfolding read_binding
  read_binding-entry x t ts k here =
      (Reads->>= q laws _ (Reads-read_source_fields no_binding (target_mode x) (mode_byte x))
          (Reads-destination q laws _ x k refl refl)).run
        t ts here

  -- Once the fields in front of it are there and in range, an entry is accepted exactly when its
  -- address mode is that of a group and two bytes are left, or that of an extended address and nine
  -- are left; any other mode and a destination that is cut off are refused.
  pub read_binding-accepts :
      (b : Binding) (mode : ℕ) (t : Stream) (ts : List ℕ)
      → IsByte mode
      → At q laws t (source_bytes src endpoint cluster mode ++ ts)
      → (read_binding q b t).0.0 ≡ accepts mode (length ts)
  unfolding read_binding ◌>>=◌
  read_binding-accepts b mode t ts m here =
      let r = (Reads-read_source_fields b mode m).run t ts here in
      rw (r.0) (destination-ok q laws mode _ _ r.1.1 ∙ ap (λ l. accepts mode (length l)) r.1.0)
