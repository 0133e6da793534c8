-- ===== src/Config.antt =====
-- common/Configuration.h, Configuration.cpp and State.cpp: the sections of the configuration and of
-- the saved state, and how each is written to a property tree and read from one.
pub mod Tree
pub mod Saving
pub mod Puts
pub mod StateFile
pub mod Tuners
pub mod Ranks
pub mod ConfigFile
use pi_scan.Base.{
  String, ℤ, pos, negsuc, ◌==◌, is_negative, pos_part, Bool, false, List, [], if◌then◌else◌,
}
use pi_scan.Scanner.{ScanState, scan_state, hold_state, manual_state, other_number}
use pi_scan.Tuner.{TunerConfig}

pub record GeneralConfig : Type 0 where
  pub logfile_verbosity : ℤ

pub record SocketServerConfig : Type 0 where
  pub tcp_port : ℤ
  pub max_connections : ℤ
  pub spawn_local_client : Bool
  pub python_client : String
  pub python_binary : String

pub record DemodConfig : Type 0 where
  pub retune_delay : ℤ  -- long
  pub demod_delay : ℤ  -- long
  pub squelch_type : ℤ

pub record AudioServerConfig : Type 0 where
  pub rtsp_port : ℤ
  pub http_tunneling : Bool

-- `Configuration`; the set of tuners is a list in the order of the ranks.
pub record Configuration : Type 0 where
  pub general : GeneralConfig
  pub socket : SocketServerConfig
  pub demod : DemodConfig
  pub rtsp : AudioServerConfig
  pub tuners : List TunerConfig

abbrev pub new_configuration : Configuration
new_configuration = record {
  general = record { logfile_verbosity = pos 0 };
  socket = record {
    tcp_port = pos 1234;
    max_connections = pos 5;
    spawn_local_client = false;
    python_client = "./";
    python_binary = "python";
  };
  demod = record { retune_delay = pos 225_000; demod_delay = pos 10_000; squelch_type = pos 0 };
  rtsp = record { rtsp_port = pos 8554; http_tunneling = false };
  tuners = [];
}

-- `AUTO_GAIN`.
abbrev pub auto_gain : ℤ
auto_gain = negsuc 9

-- The number of a state in the file, and back.
abbrev pub scan_number : ScanState → ℤ
scan_number scan_state = pos 0
scan_number hold_state = pos 1
scan_number manual_state = pos 2
scan_number (other_number n) = n

abbrev pub scan_state_of : ℤ → ScanState
scan_state_of n =
    if is_negative n
    then other_number n
    else if pos_part n == 0
    then scan_state
    else if pos_part n == 1
    then hold_state
    else if pos_part n == 2
    then manual_state
    else other_number n
