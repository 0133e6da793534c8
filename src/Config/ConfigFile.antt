-- ===== src/Config/ConfigFile.antt =====
-- The configuration read back from its file.
use pi_scan.Base.{String, ◌≡◌, refl, ◌∙◌, ap, pos, true, false, [], ◌∷◌, some, All}
use pi_scan.Scan.Tree.{FitsInt}
use pi_scan.Config.Tree.{PathTree, FitsLong, apart, read_with}
use pi_scan.Config.Puts.{Puts, lookup, clear, get-puts, read_int, read_long, read_bool, read_text}
use pi_scan.Config.Tuners.{IsNarrow, IsRanked, insert_tuners-trees, nothing-Above}
use pi_scan.Config.Saving.{
  config_path, tuners_path, tuner_trees, load_general, load_socket, load_demod, load_audio,
  load_tuners, save_general, save_socket, save_demod, save_audio, save_tuners, load_configuration,
  save_configuration,
}
use pi_scan.Config.{Configuration}

-- What the file can hold of the configuration.
pub record IsStorable (c : Configuration) : Type 0 where
  pub port_fits : FitsInt c.socket.tcp_port
  pub connections_fit : FitsInt c.socket.max_connections
  pub retune_fits : FitsLong c.demod.retune_delay
  pub delay_fits : FitsLong c.demod.demod_delay
  pub squelch_fits : FitsInt c.demod.squelch_type
  pub rtsp_fits : FitsInt c.rtsp.rtsp_port
  pub narrow : All IsNarrow c.tuners
  pub ranked : IsRanked c.tuners

module _ (P : PathTree) where
  open P use {Tree, empty, get, print_int, print_bool}

  -- The calls of `put` that a save makes, latest first.
  abbrev config_puts : Configuration → Puts
  config_puts c =
      (config_path "audio_stream" "http_tunneling", print_bool c.rtsp.http_tunneling)
      ∷ (config_path "audio_stream" "rtsp_port", print_int c.rtsp.rtsp_port)
      ∷ (config_path "demod" "squelch_mode", print_int c.demod.squelch_type)
      ∷ (config_path "demod" "demod_delay", print_int c.demod.demod_delay)
      ∷ (config_path "demod" "retune_delay", print_int c.demod.retune_delay)
      ∷ (config_path "socket" "python_path", c.socket.python_binary)
      ∷ (config_path "socket" "client_path", c.socket.python_client)
      ∷ (config_path "socket" "use_gui", print_bool c.socket.spawn_local_client)
      ∷ (config_path "socket" "max_connections", print_int c.socket.max_connections)
      ∷ (config_path "socket" "port", print_int c.socket.tcp_port)
      ∷ []

  abbrev saved : Configuration → Tree → Tree
  saved c t = (save_configuration P c t).1

  get-save_configuration :
      (c : Configuration) (t : Tree) (section name : String)
      → apart tuners_path (config_path section name) ≡ true
      → clear (config_path section name) (config_puts c) ≡ true
      → get (config_path section name) (saved c t)
        ≡ lookup (config_path section name) (config_puts c) (get (config_path section name) t)
  unfolding save_configuration save_general save_socket save_demod save_audio save_tuners
  get-save_configuration c t section name far ready =
      P.get-put_child_apart (config_path section name) tuners_path _ _ far
      ∙ (P.get-erase "config.tuners" "config" (section ∷ name ∷ []) _ refl
          ∙ get-puts P (config_path section name) (config_puts c) t ready)

  get_child-save_configuration :
      (c : Configuration) (t : Tree)
      → P.get_child tuners_path (saved c t) ≡ some (tuner_trees P c.tuners empty)
  unfolding save_configuration save_tuners
  get_child-save_configuration c t = P.get_child-put_child_self _ _ _

  load_general-save : (c : Configuration) (t : Tree) → load_general P (saved c t) ≡ load_general P t
  unfolding load_general
  load_general-save c t =
      ap (λ o. record { logfile_verbosity = read_with P.parse_int (pos 0) o })
        (get-save_configuration c t "general" "log_verbosity" refl refl)

  load_socket-save :
      (c : Configuration) (t : Tree) → IsStorable c → load_socket P (saved c t) ≡ c.socket
  unfolding load_socket
  load_socket-save c t h = cc (
    read_int P (config_path "socket" "max_connections") (pos 5) _ (saved c t)
        (get-save_configuration c t "socket" "max_connections" refl refl) h.connections_fit,
    read_int P (config_path "socket" "port") (pos 1234) _ (saved c t)
        (get-save_configuration c t "socket" "port" refl refl) h.port_fits,
    read_bool P (config_path "socket" "use_gui") false _ (saved c t)
        (get-save_configuration c t "socket" "use_gui" refl refl),
    read_text P (config_path "socket" "client_path") "./" _ (saved c t)
        (get-save_configuration c t "socket" "client_path" refl refl),
    read_text P (config_path "socket" "python_path") "python" _ (saved c t)
        (get-save_configuration c t "socket" "python_path" refl refl),
  )

  load_demod-save :
      (c : Configuration) (t : Tree) → IsStorable c → load_demod P (saved c t) ≡ c.demod
  unfolding load_demod
  load_demod-save c t h = cc (
    read_long P (config_path "demod" "retune_delay") (pos 225_000) _ (saved c t)
        (get-save_configuration c t "demod" "retune_delay" refl refl) h.retune_fits,
    read_long P (config_path "demod" "demod_delay") (pos 10_000) _ (saved c t)
        (get-save_configuration c t "demod" "demod_delay" refl refl) h.delay_fits,
    read_int P (config_path "demod" "squelch_mode") (pos 0) _ (saved c t)
        (get-save_configuration c t "demod" "squelch_mode" refl refl) h.squelch_fits,
  )

  load_audio-save :
      (c : Configuration) (t : Tree) → IsStorable c → load_audio P (saved c t) ≡ c.rtsp
  unfolding load_audio
  load_audio-save c t h = cc (
    read_int P (config_path "audio_stream" "rtsp_port") (pos 8554) _ (saved c t)
        (get-save_configuration c t "audio_stream" "rtsp_port" refl refl) h.rtsp_fits,
    read_bool P (config_path "audio_stream" "http_tunneling") false _ (saved c t)
        (get-save_configuration c t "audio_stream" "http_tunneling" refl refl),
  )

  load_tuners-save :
      (c : Configuration) (t : Tree) → IsStorable c → load_tuners P (saved c t) [] ≡ c.tuners
  unfolding load_tuners
  load_tuners-save c t h =
      rw (get_child-save_configuration c t, load_tuners)
        (insert_tuners-trees P c.tuners [] empty h.narrow h.ranked (nothing-Above P c.tuners))

  -- What `saveAll` writes `loadAll` reads back into a configuration without tuners, where its numbers
  -- fit the types that they are read with and the ranks of its tuners ascend. The verbosity of the
  -- log is not written: it becomes what the tree held before, and so it does in the saved
  -- configuration.
  pub load_configuration-save :
      (c : Configuration) (t : Tree) (c₀ : Configuration)
      → IsStorable c
      → c₀.tuners ≡ []
      → (load_configuration P (saved c t) c₀ ≡ record c { general = load_general P t })
        × ((save_configuration P c t).0 ≡ record c { general = load_general P t })
  unfolding load_configuration
  load_configuration-save c t c₀ h fresh = (
    cc (
      load_general-save c t,
      load_socket-save c t h,
      load_demod-save c t h,
      load_audio-save c t h,
      ap (load_tuners P (saved c t)) fresh ∙ load_tuners-save c t h,
    ),
    unfold save_configuration save_general load_general in refl,
  )
