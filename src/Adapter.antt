-- ===== src/Adapter.antt =====
-- libsponge/tcp_helpers/tcp_config.hh (`FdAdapterConfig`), fd_adapter.hh, tcp_over_ip.cc and
-- lossy_fd_adapter.hh: what carries TCP segments over a descriptor. Of an `Address` (util/address.hh)
-- the code uses the numeric IP address and the port, and the model is those two numbers. What a device
-- or a socket gives is an argument, and what is written to it is a list of strings, in order; the
-- system calls themselves do not fail.
pub mod Datagram
pub mod Udp
pub mod Tun
pub mod Tap
pub mod Lossy
pub mod Unwrap
pub mod RoundTrip
pub mod Loss
pub mod Runs
use computer_network.Base.{ℕ, Bool, true, false, not, ◌&&◌, Option, List, ◌==◌, Outcome}
use computer_network.TcpSegment.{TcpSegment}

pub record Address : Type 0 where
  pub ipv4_numeric : ℕ
  pub port : ℕ

-- `Address::operator==`.
abbrev pub equal : Address → Address → Bool
equal a b = (a.ipv4_numeric == b.ipv4_numeric) && (a.port == b.port)

pub record FdAdapterConfig : Type 0 where
  pub source : Address
  pub destination : Address
  pub loss_rate_dn : ℕ
  pub loss_rate_up : ℕ

pub record FdAdapterBase : Type 0 where
  pub cfg : FdAdapterConfig
  pub listening : Bool

-- The default member initialisers of both classes.
unfoldable pub init : FdAdapterBase
init = record {
  cfg = record {
    source = record { ipv4_numeric = 0; port = 0 };
    destination = record { ipv4_numeric = 0; port = 0 };
    loss_rate_dn = 0;
    loss_rate_up = 0;
  };
  listening = false;
}

unfoldable pub set_listening : Bool → FdAdapterBase → FdAdapterBase
set_listening l b = record b { listening = l }

-- The ports that `write` and `wrap_tcp_in_ip` set in the caller's segment.
unfoldable pub set_ports : FdAdapterConfig → TcpSegment → TcpSegment
set_ports cfg seg = record seg {
  header = record seg.header { sport = cfg.source.port; dport = cfg.destination.port };
}

-- What `LossyFdAdapter` uses of the adapter inside it. `Input` is what a read takes from the system.
-- A read gives the segment and the adapter; a write gives the caller's segment and the adapter.
pub record IsAdapter (AdapterT Input : Type 0) : Type 0 where
  pub config : AdapterT → FdAdapterConfig
  pub read : Input → AdapterT → Option TcpSegment × Outcome AdapterT
  pub write : TcpSegment → AdapterT → TcpSegment × Outcome AdapterT
  -- An assignment to `config_mut()`.
  pub set_config : FdAdapterConfig → AdapterT → AdapterT
  pub set_listening : Bool → AdapterT → AdapterT
  pub tick : ℕ → AdapterT → Outcome AdapterT
