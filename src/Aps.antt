-- ===== src/Aps.antt =====
-- aps.cpp, deconz/aps.h: the requests and indications of the application support layer, with their
-- readers and writers. An address mode is the number of its byte; an array of 118 bytes that an
-- indication views is a list. Timers, states and the pool of requests are not modelled.
pub mod Indication
pub mod Request
mod Tests
use deconz_lib.Base.{ℕ, true, ◌==◌, if◌then◌else◌}
use deconz_lib.BindingTable.{Address}

-- `Address::setNwk`
abbrev pub set_nwk : ℕ → Address → Address
set_nwk addr a = record a { nwk = addr; has_nwk = true }

-- The modes `ApsNoAddress`, `ApsGroupAddress`, `ApsNwkAddress`, `ApsExtAddress`,
-- `ApsNwkExtAddress`, and the numbers that are no mode.
pub data Mode : Type 0 where
  no_target group_target nwk_target ext_target nwk_ext_target no_such_mode : Mode

-- The cases of `switch (mode)`.
abbrev pub mode_of : ℕ → Mode
mode_of n =
    if n == 0
    then no_target
    else if n == 1
    then group_target
    else if n == 2
    then nwk_target
    else if n == 3
    then ext_target
    else if n == 4
    then nwk_ext_target
    else no_such_mode

abbrev pub mode_byte : Mode → ℕ
mode_byte no_target = 0
mode_byte group_target = 1
mode_byte nwk_target = 2
mode_byte ext_target = 3
mode_byte nwk_ext_target = 4
mode_byte no_such_mode = 5
