-- ===== src/Link/Start.antt =====
-- Two fresh connections.
use computer_network.Base.{◌^◌, ◌<◌, ◌≡◌, refl, sym, false, [], arith}
use computer_network.ByteStream
use computer_network.ByteStream.Validity.{init-IsValid}
use computer_network.BufferList.Contents.{contents-empty}
use computer_network.WrappingIntegers.{WrappingInt32}
use computer_network.StreamReassembler
use computer_network.StreamReassembler.Reach.{init-Inv}
use computer_network.TcpSender
use computer_network.TcpReceiver
use computer_network.TcpConnection.{TcpConnection, TcpConfig}
use computer_network.TcpConnection
use computer_network.Session.Sending.{unopened}
use computer_network.Link.{start, Link}
use computer_network.Link.Half.{Course}
use computer_network.Link.Ends.{EndSound}

-- A configuration with an initial sequence number, within the widths of the code.
pub record IsOpen (cfg : TcpConfig) (random : WrappingInt32) : Type 0 where
  pub send_word : cfg.send_capacity < 2 ^ 64
  pub recv_word : cfg.recv_capacity < 2 ^ 63
  pub isn_word : (TcpConnection.init cfg random).sender.isn.raw_value < 2 ^ 32

-- Before the first byte.
unfoldable pub course : TcpConfig → WrappingInt32 → Course
course cfg random = record {
  isn = (TcpConnection.init cfg random).sender.isn;
  accepted = [];
  ended = false;
}

pub start-EndSound :
    (cfg : TcpConfig) (random : WrappingInt32) (theirs : Course)
    → theirs.accepted ≡ []
    → IsOpen cfg random
    → EndSound (course cfg random) theirs (start (TcpConnection.init cfg random))
unfolding course start TcpConnection.init TcpSender.init TcpReceiver.init StreamReassembler.init
    ByteStream.init
start-EndSound cfg random theirs none_yet o = record {
  given_bytes = refl;
  small = o.isn_word;
  half = record {
    sends = (
      [],
      record {
        valid = unfold ByteStream.init in init-IsValid cfg.send_capacity o.send_word;
        same_isn = refl;
        same_ended = refl;
        short = omega arith;
        count = refl;
        split = sym contents-empty;
        out = tt;
        track = tt;
      },
      unopened refl refl,
    );
    out = tt;
    receives = record {
      same_isn = λ e. absurd (ground arith);
      room = o.recv_word;
      count = refl;
      streams = λ source a. (
        unfold StreamReassembler.init ByteStream.init in
            init-Inv source cfg.recv_capacity (omega (arith, o.recv_word)),
        tt,
      );
      noted = λ e. absurd (ground arith);
      finished = λ e. absurd (ground arith);
    };
  };
  underway = tt;
}

abbrev pub fresh : TcpConfig → WrappingInt32 → TcpConfig → WrappingInt32 → Link
fresh cfg random cfg' random' = record {
  near = start (TcpConnection.init cfg random);
  far = start (TcpConnection.init cfg' random');
}
