-- ===== src/Gpio/State.antt =====
-- src/gpio/state.rs: pulls, the detect flags with their registers, the pin functions.
use rpi_devenv.Base.{ℕ, Bool, true, false, List, [], ◌∷◌, map, if◌then◌else◌}
use rpi_devenv.Bits.{has, ◌<<<◌}

pub data Pull : Type 0 where
  down up : Pull

unfoldable pub from_bool : Bool → Pull
from_bool true = up
from_bool false = down

unfoldable pub to_bool : Pull → Bool
to_bool up = true
to_bool down = false

abbrev pub rising_edge_detect_base : ℕ
rising_edge_detect_base = 0x2020004C

abbrev pub falling_edge_detect_base : ℕ
falling_edge_detect_base = 0x20200058

abbrev pub high_detect_base : ℕ
high_detect_base = 0x20200064

abbrev pub low_detect_base : ℕ
low_detect_base = 0x20200070

abbrev pub async_rising_detect_base : ℕ
async_rising_detect_base = 0x2020007C

abbrev pub async_falling_detect_base : ℕ
async_falling_detect_base = 0x20200088

-- The named flags of `DetectState`, whose value is a `u8`.
pub data Flag : Type 0 where
  rising_edge falling_edge high low async_rising_edge async_falling_edge : Flag

abbrev pub DetectState : Type 0
DetectState = ℕ

unfoldable pub flag_bits : Flag → DetectState
flag_bits rising_edge = 1
flag_bits falling_edge = 1 <<< 1
flag_bits high = 1 <<< 2
flag_bits low = 1 <<< 3
flag_bits async_rising_edge = 1 <<< 4
flag_bits async_falling_edge = 1 <<< 5

abbrev pub all_flags : List Flag
all_flags = rising_edge ∷ falling_edge ∷ high ∷ low ∷ async_rising_edge ∷ async_falling_edge ∷ []

-- `DetectState::all()`.
abbrev pub all : DetectState
all = 0x3f

unfoldable pub keep_contained : DetectState → List Flag → List Flag
keep_contained s [] = []
keep_contained s (f ∷ fs) =
    if has s (flag_bits f) then f ∷ keep_contained s fs else keep_contained s fs

-- `iter_names` of the `bitflags` crate: the named flags contained in the value, as declared.
unfoldable pub iter_names : DetectState → List Flag
unfolding keep_contained flag_bits
iter_names s = keep_contained s all_flags

unfoldable pub register_of : Flag → ℕ
register_of rising_edge = rising_edge_detect_base
register_of falling_edge = falling_edge_detect_base
register_of high = high_detect_base
register_of low = low_detect_base
register_of async_rising_edge = async_rising_detect_base
register_of async_falling_edge = async_falling_detect_base

unfoldable pub registers : DetectState → List ℕ
unfolding iter_names register_of
registers s = map register_of (iter_names s)

-- The type states of a pin.
pub data PinType : Type 0 where
  input output alternate0 alternate1 alternate2 alternate3 alternate4 alternate5 : PinType

unfoldable pub mode_bits : PinType → ℕ
mode_bits input = 0b000
mode_bits output = 0b001
mode_bits alternate0 = 0b100
mode_bits alternate1 = 0b101
mode_bits alternate2 = 0b110
mode_bits alternate3 = 0b111
mode_bits alternate4 = 0b011
mode_bits alternate5 = 0b010
