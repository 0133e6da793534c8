-- ===== src/Config/Saving.antt =====
-- The `load` and `save` of each section in Configuration.cpp and State.cpp.
use pi_scan.Base.{String, ℤ, pos, Bool, true, false, List, [], ◌∷◌, ◌++◌, map, Option, none, some}
use pi_scan.Numbers.{stoi}
use pi_scan.Config.Tree.{Keys, PathTree, get_text, get_int, get_long, get_bool}
use pi_scan.Scanner.{SavedState}
use pi_scan.Tuner.{TunerConfig, insert_config}
use pi_scan.Config.{
  GeneralConfig, SocketServerConfig, DemodConfig, AudioServerConfig, Configuration, auto_gain,
  scan_number, scan_state_of,
}

-- `config_base_path` and `state_base_path`, in front of a section and a name.
abbrev pub config_path : String → String → Keys
config_path section name = "config" ∷ section ∷ name ∷ []

abbrev pub state_path : String → String → Keys
state_path section name = "state" ∷ section ∷ name ∷ []

abbrev pub tuners_path : Keys
tuners_path = "config" ∷ "tuners" ∷ []

-- What `read_json` finds at the path of a file.
pub data File {ℓ} (A : Type ℓ) : Type ℓ where
  missing malformed : File A
  parsed : A → File A

-- `loadFromFile`, given what `loadAll` does; the second member is the tree `_pt`.
abbrev pub load_from_file {ℓ κ} :
    {T : Type ℓ} {A : Type κ} → (T → A → A) → File T → A × T → Bool × A × T
load_from_file load_all missing (a, t) = (true, a, t)
load_from_file load_all malformed (a, t) = (false, a, t)
load_from_file load_all (parsed t') (a, t) = (true, load_all t' a, t')

module _ (P : PathTree) where
  open P use {
    Tree, empty, data_of, get, put, get_child, put_child, erase, print_int, print_bool, Float,
    of_int, print_float,
  }

  unfoldable pub load_general : Tree → GeneralConfig
  load_general t = record {
    logfile_verbosity = get_int P (config_path "general" "log_verbosity") (pos 0) t;
  }

  -- `GeneralConfig::save`, which reads its member and writes nothing.
  unfoldable pub save_general : GeneralConfig → Tree → GeneralConfig × Tree
  save_general c t = (
    record { logfile_verbosity = get_int P (config_path "general" "log_verbosity") (pos 0) t },
    t,
  )

  unfoldable pub load_socket : Tree → SocketServerConfig
  load_socket t = record {
    max_connections = get_int P (config_path "socket" "max_connections") (pos 5) t;
    tcp_port = get_int P (config_path "socket" "port") (pos 1234) t;
    spawn_local_client = get_bool P (config_path "socket" "use_gui") false t;
    python_client = get_text P (config_path "socket" "client_path") "./" t;
    python_binary = get_text P (config_path "socket" "python_path") "python" t;
  }

  unfoldable pub save_socket : SocketServerConfig → Tree → Tree
  save_socket c t = put (config_path "socket" "python_path") c.python_binary (
      put (config_path "socket" "client_path") c.python_client (
        put (config_path "socket" "use_gui") (print_bool c.spawn_local_client) (
          put (config_path "socket" "max_connections") (print_int c.max_connections)
            (put (config_path "socket" "port") (print_int c.tcp_port) t))))

  unfoldable pub load_demod : Tree → DemodConfig
  load_demod t = record {
    retune_delay = get_long P (config_path "demod" "retune_delay") (pos 225_000) t;
    demod_delay = get_long P (config_path "demod" "demod_delay") (pos 10_000) t;
    squelch_type = get_int P (config_path "demod" "squelch_mode") (pos 0) t;
  }

  unfoldable pub save_demod : DemodConfig → Tree → Tree
  save_demod c t = put (config_path "demod" "squelch_mode") (print_int c.squelch_type) (
      put (config_path "demod" "demod_delay") (print_int c.demod_delay)
        (put (config_path "demod" "retune_delay") (print_int c.retune_delay) t))

  unfoldable pub load_audio : Tree → AudioServerConfig
  load_audio t = record {
    rtsp_port = get_int P (config_path "audio_stream" "rtsp_port") (pos 8554) t;
    http_tunneling = get_bool P (config_path "audio_stream" "http_tunneling") false t;
  }

  unfoldable pub save_audio : AudioServerConfig → Tree → Tree
  save_audio c t =
      put (config_path "audio_stream" "http_tunneling") (print_bool c.http_tunneling)
        (put (config_path "audio_stream" "rtsp_port") (print_int c.rtsp_port) t)

  unfoldable pub load_tuner : Tree → TunerConfig
  load_tuner t = record {
    rank = get_int P ("rank" ∷ []) (pos 0) t;
    descriptor = get_text P ("descriptor" ∷ []) "null" t;
    driver = get_text P ("driver" ∷ []) "null" t;
    ppm_correction = get_int P ("ppm_correction" ∷ []) (pos 0) t;
    sample_rate = get_int P ("sample_rate" ∷ []) (pos 2_048_000) t;
  }

  -- The set keeps what it holds already.
  unfoldable pub insert_tuners : List Tree → List TunerConfig → List TunerConfig
  unfolding load_tuner insert_config
  insert_tuners [] tuners = tuners
  insert_tuners (t ∷ ts) tuners = insert_tuners ts (insert_config (load_tuner t) tuners)

  -- `TunerList::load`; the exception of a list that is not there is caught.
  unfoldable pub load_tuners : Tree → List TunerConfig → List TunerConfig
  unfolding insert_tuners
  load_tuners t tuners = elim (get_child tuners_path t) [
    | none ↦ tuners
    | some ts ↦ insert_tuners ts tuners
  ]

  unfoldable pub tuner_tree : TunerConfig → Tree → Tree
  tuner_tree c p = put ("sample_rate" ∷ []) (print_int c.sample_rate) (
      put ("ppm_correction" ∷ []) (print_int c.ppm_correction) (
        put ("driver" ∷ []) c.driver
          (put ("descriptor" ∷ []) c.descriptor (put ("rank" ∷ []) (print_int c.rank) p))))

  -- One tree `p` is written over and over, and copied into the list.
  unfoldable pub tuner_trees : List TunerConfig → Tree → List Tree
  unfolding tuner_tree
  tuner_trees [] p = []
  tuner_trees (c ∷ cs) p = let p' = tuner_tree c p in p' ∷ tuner_trees cs p'

  unfoldable pub save_tuners : List TunerConfig → Tree → Tree
  unfolding tuner_trees
  save_tuners tuners t = put_child tuners_path (tuner_trees tuners empty) (erase "config.tuners" t)

  -- `Configuration::loadAll` and `saveAll`.
  unfoldable pub load_configuration : Tree → Configuration → Configuration
  unfolding load_general load_socket load_demod load_audio load_tuners
  load_configuration t c = record {
    general = load_general t;
    socket = load_socket t;
    demod = load_demod t;
    rtsp = load_audio t;
    tuners = load_tuners t c.tuners;
  }

  unfoldable pub save_configuration : Configuration → Tree → Configuration × Tree
  unfolding save_general save_socket save_demod save_audio save_tuners
  save_configuration c t =
      let (general', t') = save_general c.general t in
      (
        record c { general = general' },
        save_tuners c.tuners (save_audio c.rtsp (save_demod c.demod (save_socket c.socket t'))),
      )

  -- `DemodState`, and `State` of namespace `config`. The defaults of the gain and the squelch are of type `int`.
  pub record DemodState : Type 0 where
    pub squelch : Float
    pub gain : Float

  pub record ConfigState : Type 0 where
    pub demod_state : DemodState
    pub scanner_state : SavedState

  unfoldable pub load_demod_state : Tree → DemodState
  load_demod_state t = record {
    gain = of_int (get_int P (state_path "demod" "gain") auto_gain t);
    squelch = of_int (get_int P (state_path "demod" "squelch") (pos 0) t);
  }

  unfoldable pub save_demod_state : DemodState → Tree → Tree
  save_demod_state s t =
      put (state_path "demod" "squelch") (print_float s.squelch)
        (put (state_path "demod" "gain") (print_float s.gain) t)

  -- The loop over the saved index, behind what the vector holds; an exception ends it.
  unfoldable pub load_index : List Tree → List ℤ → List ℤ
  unfolding stoi
  load_index [] index = index
  load_index (t ∷ ts) index = elim (stoi (data_of t)) [
    | none ↦ index
    | some i ↦ load_index ts (index ++ i ∷ [])
  ]

  abbrev pub load_hold_index : Option (List Tree) → List ℤ → List ℤ
  load_hold_index none index = index
  load_hold_index (some ts) index = load_index ts index

  unfoldable pub load_scanner_state : Tree → SavedState → SavedState
  unfolding load_index
  load_scanner_state t s = record {
    scan_state_saved = scan_state_of (get_int P (state_path "scanner" "state") (pos 0) t);
    manual_freq = get_int P (state_path "scanner" "manual_freq") (pos 100_000_000) t;
    manual_modulation = get_text P (state_path "scanner" "manual_mode") "" t;
    hold_index_saved =
        load_hold_index (get_child (state_path "scanner" "hold_index") t) s.hold_index_saved;
    hold_key = get_text P (state_path "scanner" "hold_key") "" t;
  }

  unfoldable pub save_scanner_state : SavedState → Tree → Tree
  save_scanner_state s t =
      put_child (state_path "scanner" "hold_index")
        (map (λ i. put [] (print_int i) empty) s.hold_index_saved)
        (put (state_path "scanner" "hold_key") s.hold_key (
          put (state_path "scanner" "manual_mode") s.manual_modulation (
            put (state_path "scanner" "manual_freq") (print_int s.manual_freq)
              (put (state_path "scanner" "state") (print_int (scan_number s.scan_state_saved)) t))))

  -- `State::loadAll` and `saveAll`.
  unfoldable pub load_state : Tree → ConfigState → ConfigState
  unfolding load_demod_state load_scanner_state
  load_state t s = record {
    demod_state = load_demod_state t;
    scanner_state = load_scanner_state t s.scanner_state;
  }

  unfoldable pub save_state : ConfigState → Tree → Tree
  unfolding save_demod_state save_scanner_state
  save_state s t = save_scanner_state s.scanner_state (save_demod_state s.demod_state t)
