-- ===== src/Tests/Converter.antt =====
-- Tests of the converter of Sentinel files: Scan/Sentinel.
use pi_scan.Base.{◌≡◌, refl, String, pos, true, false, List, [], ◌∷◌, some, ok}
use pi_scan.Scan.Entry.{Kind, LockoutType}
use pi_scan.Scan.System.{System}
use pi_scan.Scan.Sentinel.{SentinelFile, tokens_of, generate_system_list}
use pi_scan.Tests.{tower}

abbrev group_line : String
group_line = "C-Group\tcounty\tOff"

abbrev tower_line : String
tower_line = "C-Freq\ttower\tOff\t118300000\tAM\tx\ty\tz\t2"

abbrev repeater_line : String
repeater_line = "C-Freq\trepeater\tOn\t162550000\tNFM\tTONE=C100.0\ty\tz\t0"

-- The sixth field, the tone, is empty.
abbrev weather_line : String
weather_line = "C-Freq\tweather\tOff\t162400000\tNFM\t\tx\ty\tz\t2"

abbrev pub converted : List System
converted =
    record {
      tag = "county";
      lockout = false;
      sys_index = 0;
      entries =
          record tower { delay_ms = pos 2000; sys_index = 0; entry_index = 0 }
          ∷ record {
            kind = Kind.pl "100.0";
            frequency = pos 162_550_000;
            tag = "repeater";
            lockout_type = LockoutType.persist;
            delay_ms = pos 0;
            sys_index = 0;
            entry_index = 1;
          }
          ∷ [];
      num_entries = 2;
    }
    ∷ []

abbrev pub hpd_file : String
hpd_file =
    "C-Group\tcounty\tOff\nC-Freq\ttower\tOff\t118300000\tAM\tx\ty\tz\t2\n\nC-Freq\trepeater\tOn\t162550000\tNFM\tTONE=C100.0\ty\tz\t0\n"

pub converts : generate_system_list (some hpd_file) [] ≡ ok (true, converted)
unfolding generate_system_list
converts = refl

abbrev one_group : SentinelFile
one_group = record { systems = converted; system = some 0 }

weather_tokens :
    tokens_of weather_line
    ≡ "C-Freq" ∷ "weather" ∷ "Off" ∷ "162400000" ∷ "NFM" ∷ "x" ∷ "y" ∷ "z" ∷ "2" ∷ []
unfolding tokens_of
weather_tokens = refl
