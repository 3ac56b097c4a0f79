-- ===== src/Tunnel/System.antt =====
-- internal/tunnel/tunnel.go: the state of `Tunnel`, and the calls that it makes of the system, in
-- their order. What the system answers may depend on every call before; it is a parameter.
use encedo_wg_hsm.Common.{
  codes, ℕ, Bool, not, Option, List, [], ◌∷◌, ◌++◌, Bytes, is_empty, if◌then◌else◌, Result,
}
use encedo_wg_hsm.Netip.{Addr, Prefix, is_valid}
use encedo_wg_hsm.Descr.Records.{Endpoint}
use encedo_wg_hsm.Hem.{Hem, HemError}
use encedo_wg_hsm.Config.Records.{ConfigPeer, Tree, ConfigError}
use encedo_wg_hsm.Runtime.Plan.{PlanError, Names}
use encedo_wg_hsm.Runtime.Pins.{Pins, PinError, RoutingTable}
use encedo_wg_hsm.Effect.{Action}
use encedo_wg_hsm.Tunnel.Failover.{FailoverError, Await}

-- Text that Go formats: a number, and `netip.AddrPort`.
pub record Formats : Type 0 where
  pub decimal : ℕ → Bytes
  pub addr_port : Addr → ℕ → Bytes

-- `Endpoint.String`
unfoldable pub endpoint_text : Formats → Endpoint → Bytes
endpoint_text f e =
    if not (is_empty e.host)
    then e.host ++ (codes ":" ++ f.decimal e.port)
    else if not (is_valid e.ip)
    then []
    else f.addr_port e.ip e.port

pub data Sys : Type 0 where
  create_tun : Bytes → ℕ → Sys
  device_up : Sys
  write_pub : Bytes → Sys
  ipc_set : ConfigPeer → Bytes → Bool → Sys
  link_up : Bytes → List Prefix → Sys
  set_mtu : Bytes → ℕ → Sys
  add_routes : Bytes → List Prefix → Sys
  set_dns : Bytes → List Addr → Sys
  probe_hem : Bytes → Sys
  save_state : Bytes → ConfigPeer → Sys
  uapi_listen : Bytes → Sys
  revert_dns : Bytes → Sys
  close_device : Sys
  link_down : Bytes → Sys
  remove_pub : Bytes → Sys
  remove_state : Bytes → Sys

-- The system, over the calls made, latest first. `on_create` gives the name of the interface,
-- which is empty where the system does not tell it; `await` is how the wait for a handshake goes.
pub record System : Type 0 where
  pub on_create : List Sys → Bytes → ℕ → Result ℕ Bytes
  pub on_call : List Sys → Sys → Result ℕ (Unit {0})
  pub await : List Sys → Await

-- Why `SelectNext` names no peer: `WalkPeers` has none left, or another chooser declines.
pub data SelectError : Type 0 where
  exhausted : FailoverError → SelectError
  declined : ℕ → SelectError

-- `Opts`, and what stands behind it. `select_next` is `SelectNext` over the calls made so far and the
-- peers that failed, latest first: what it remembers of its earlier calls is a function of these.
pub record Opts : Type 0 where
  pub hem : Hem
  pub tree : Tree
  pub use_tok : Bytes
  pub hem_url : Bytes
  pub ifname : Bytes
  pub names : Names
  pub table : RoutingTable
  pub formats : Formats
  pub select_next : List Sys → List ConfigPeer → Result SelectError ConfigPeer
  pub system : System

-- The fields of `Tunnel`. `pins` holds the calls made of the routing table as well, `opened` is
-- whether `dev` is set, `buffers` are the pre-shared keys in memory, oldest first, and `psk` points to
-- one of them; `warnings` are the calls that a teardown reports as failed.
pub record Tunnel : Type 0 where
  pub calls : List Sys
  pub name : Bytes
  pub opened : Bool
  pub pins : Pins
  pub dns_set : Bool
  pub blind : Bool
  pub peer : Option ConfigPeer
  pub psk : Option ℕ
  pub buffers : List Bytes
  pub warnings : List Sys
  pub hem_inside : Bool
  pub hem_host : Bytes

pub data TunnelError : Type 0 where
  no_pub_key : HemError → TunnelError
  not_created : ℕ → TunnelError
  not_up : ℕ → TunnelError
  dns_refused : ℕ → TunnelError
  no_psk : ConfigError → TunnelError
  no_plan : PlanError → TunnelError
  not_pinned : PinError → TunnelError
  refused : Sys → ℕ → TunnelError
  no_peer_left : SelectError → TunnelError
  no_fuel : TunnelError

abbrev pub Step : Type 0 → Type 0
Step A = Action Tunnel TunnelError A

abbrev pub note_call : Sys → Tunnel → Tunnel
note_call c w = record w { calls = c ∷ w.calls }
