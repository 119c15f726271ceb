-- ===== src/Connection/Contract.antt =====
-- What the connection loop of connection/pvpn_connection.rs promises, without the client, the
-- streams and the files: which reports it may make, one at a time.
pub mod Laws
use protun.Base.{ℕ, ◌≡◌, ◌≢◌, Bool, true, false, not, Option, none, some, List, [], ◌∷◌, String}
use protun.Peers.Unique.{IsUnique}
use protun.Api.Config.{PeerInfo, CacheKey, PcapFileInfo}
use protun.Api.State.{
  ConnectionState, InterfaceState, fits_mode, connecting, waiting_for_network,
  connecting_to_local_agent, connected, disconnected,
}
use protun.Api.Events
use protun.Api.Events.{
  Event, CaptureStopReason, is_capture, packet_capture_started, packet_capture_stopped,
  already_stopped,
}
use protun.Connection.State.{Output, state_changed, event, cache_put}

-- `capture` is the file of the running packet capture, `agent` says whether there is a handler for
-- the local agent and `settings` whether there are settings for it; the last output comes first.
pub record View : Type 0 where
  pub state : ConnectionState
  pub peers : List PeerInfo
  pub network : Bool
  pub capture : Option PcapFileInfo
  pub agent : Bool
  pub settings : Bool
  pub stopping : Bool
  pub outputs : List Output

abbrev pub is_waiting : ConnectionState → Bool
is_waiting (connecting peers (waiting_for_network ∷ [])) = true
is_waiting _ = false

-- A reason that names the file of the capture that stops, or says that there is none.
abbrev pub IsReasonFor : Option PcapFileInfo → CaptureStopReason → Type 0
IsReasonFor none r = r ≡ already_stopped
IsReasonFor (some info) (Events.request file) = file ≡ info
IsReasonFor (some info) (Events.max_size_reached file) = file ≡ info
IsReasonFor (some info) (Events.disconnected file) = file ≡ info
IsReasonFor (some info) already_stopped = ⊥

pub data Step (v : View) : View → Type 0 where
  reported :
      {s : ConnectionState} (i : InterfaceState)
      → s ≢ v.state
      → fits_mode v.agent s ≡ true
      → (v.network ≡ false → v.stopping ≡ false → is_waiting s ≡ true)
      → Step v (record v {
        state = s;
        outputs = state_changed (record { interface_state = i; connection_state = s }) ∷ v.outputs;
      })
  network_up : Step v (record v { network = true })
  network_down : is_waiting v.state ≡ true → Step v (record v { network = false })
  capture_started :
      (info : PcapFileInfo)
      → Step v (record v {
        capture = some info;
        outputs = event (packet_capture_started info) ∷ v.outputs;
      })
  capture_stopped :
      {r : CaptureStopReason}
      → IsReasonFor v.capture r
      → Step v (record v { capture = none; outputs = event (packet_capture_stopped r) ∷ v.outputs })
  told : {e : Event} → is_capture e ≡ false → Step v (record v { outputs = event e ∷ v.outputs })
  cached :
      (k : CacheKey) (bytes : List ℕ)
      → Step v (record v { outputs = cache_put k bytes ∷ v.outputs })
  peers_updated : (ps : List PeerInfo) → IsUnique ps → Step v (record v { peers = ps })
  stop_asked : Step v (record v { stopping = true })

infixl 5 ◌▸◌
pub data Steps (v : View) : View → Type 0 where
  start : Steps v v
  ◌▸◌ : {w u : View} → Steps v w → Step w u → Steps v u

-- Where a loop starts, with a local agent or without.
abbrev pub fresh : Bool → View
fresh agent = record {
  state = disconnected none;
  peers = [];
  network = true;
  capture = none;
  agent = agent;
  settings = agent;
  stopping = false;
  outputs = [];
}
