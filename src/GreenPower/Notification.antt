-- ===== src/GreenPower/Notification.antt =====
-- A notification of a proxy, and what its link says.
use deconz_lib.Base.{
  ℕ, ◌≡◌, ◌≢◌, ◌<◌, ◌^◌, ◌+◌, ◌-◌, ◌*◌, ◌%◌, ◌/◌, true, List, ◌++◌, arith, length, All, IsByte,
  bit_and, bit_and_ones, ltb, lt→ltb, if◌then◌else◌, ◌>>◌,
}
use deconz_lib.Base.Int.{pos, negsuc}
use deconz_lib.Base.Shift.{bytes_le}
use deconz_lib.DataStream.{StreamApi, IsStream}
use deconz_lib.DataStream.Rules.{
  At, Reads, Reads-give, Reads-get, Reads->>=, Reads-read_up_to, Reads-status_ok,
}
use deconz_lib.GreenPower.{GpDataIndication, read_proxy, read_notification, gpp_rssi, gpp_lqi}

-- A link that is not 0 stands for a signal strength from -110 to 16, in steps of 2, and a quality from
-- 0 to 3, and the two give the link back.
pub gpp_rssi-link :
    (link : ℕ)
    → IsByte link
    → link ≢ 0
    → (half : ℕ) × (half < 64)
      × (link ≡ gpp_lqi link * 64 + half)
      × (gpp_lqi link < 4)
      × (gpp_rssi link ≡ (if ltb half 55 then negsuc (109 - half * 2) else pos (half * 2 - 110)))
unfolding gpp_rssi gpp_lqi
gpp_rssi-link link h n = (
  link % 64,
  omega arith,
  rw quality (omega arith),
  rw quality (omega arith),
  rw half (ground arith),
)
  where
    quality : bit_and (link >> 6) 0x3 ≡ link / 64 % 4
    quality = bit_and_ones 2 (link / 64)

    half : bit_and link 0x3f ≡ link % 64
    half = bit_and_ones 6 link

module _ (q : StreamApi) (laws : IsStream q) (d : GpDataIndication) where
  open q use {Stream, get}

  Reads-read_proxy :
      (addr link : ℕ)
      → addr < 256 ^ 2
      → IsByte link
      → Reads q laws
          (read_proxy q d)
          (bytes_le 2 addr ++ bytes_le 1 link)
          (true, record d { gpp_nwk_address = addr; gpp_link = link })
  unfolding read_proxy
  Reads-read_proxy addr link h k = Reads->>= q laws _ (Reads-status_ok q laws) (
      Reads->>= q laws _ (Reads-get q laws 2 addr h) (
        Reads->>= q laws _ (Reads-get q laws 1 link k)
          (Reads->>= q laws _ (Reads-status_ok q laws) (Reads-give q laws _))))

-- The fields of a notification in range, with a payload of less than 255 bytes.
pub record IsNotification (options src counter command addr link : ℕ) (payload : List ℕ)
    : Type 0 where
  pub options_word : options < 256 ^ 2
  pub by_src : bit_and options 0x3 ≡ 0
  pub src_word : src < 256 ^ 4
  pub counter_word : counter < 256 ^ 4
  pub command_byte : IsByte command
  pub few : length payload < 0xff
  pub payload_bytes : All IsByte payload
  pub addr_word : addr < 256 ^ 2
  pub link_byte : IsByte link

-- The bytes behind the options, and all bytes.
abbrev fields : ℕ → ℕ → ℕ → ℕ → ℕ → List ℕ → List ℕ
fields src counter command addr link payload =
    bytes_le 4 src
    ++ (bytes_le 4 counter
        ++ (bytes_le 1 command
            ++ (bytes_le 1 (length payload) ++ (payload ++ (bytes_le 2 addr ++ bytes_le 1 link)))))

abbrev pub notification_bytes : ℕ → ℕ → ℕ → ℕ → ℕ → ℕ → List ℕ → List ℕ
notification_bytes options src counter command addr link payload =
    bytes_le 2 options ++ fields src counter command addr link payload

module _ (q : StreamApi) (laws : IsStream q) where
  open q use {Stream, get}

  -- A notification of a device that is named by its source id is read from its bytes, the proxy's
  -- address and link included, and no more is taken. Its payload is appended to the one that
  -- the indication had before.
  pub read_notification-bytes :
      (d : GpDataIndication) (options src counter command addr link : ℕ) (payload : List ℕ)
      (t : Stream) (ts : List ℕ)
      → IsNotification options src counter command addr link payload
      → At q laws t (notification_bytes options src counter command addr link payload ++ ts)
      → ((read_notification q d t).0 ≡ (
        true,
        record d {
          src_id = src;
          frame_counter = counter;
          command_id = command;
          payload = d.payload ++ payload;
          gpp_nwk_address = addr;
          gpp_link = link;
        },
      ))
        × At q laws (read_notification q d t).1 ts
  unfolding read_notification
  read_notification-bytes d options src counter command addr link payload t ts h here =
      (Reads->>= q laws _ {cs = fields src counter command addr link payload}
          (Reads-get q laws 2 options h.options_word)
          (rw (h.by_src) (
            Reads->>= q laws _ (Reads-get q laws 4 src h.src_word) (
              Reads->>= q laws _ (Reads-get q laws 4 counter h.counter_word) (
                Reads->>= q laws _ (Reads-get q laws 1 command h.command_byte) (
                  Reads->>= q laws _ {cs = payload ++ (bytes_le 2 addr ++ bytes_le 1 link)}
                    (Reads-get q laws 1 (length payload) (omega (arith, h.few)))
                    (rw (lt→ltb (length payload) 0xff h.few) (
                      Reads->>= q laws _ (Reads-read_up_to q laws payload h.payload_bytes)
                        (Reads-read_proxy q laws _ addr link h.addr_word h.link_byte))))))))).run
        t ts here
