-- ===== src/Link/Ends.antt =====
-- What an end and its network hold, and that all it does keeps this.
use computer_network.Base.{
  ℕ, ◌+◌, ◌^◌, ◌<◌, ◌≡◌, sym, ap, ◌∙◌, false, List, ◌++◌, length, take, All, All-append, All-middle,
}
use computer_network.TcpSegment.{TcpSegment}
use computer_network.TcpConnection.{TcpConnection, TcpConfig}
use computer_network.TcpConnection
use computer_network.Session.Receiving.{read-Receiving}
use computer_network.Link.{
  End, write, read, Act, connected, written, ended, ticked, arrived, pulled, collected, destroyed,
}
use computer_network.Link.Half.{Course, SentOn, Half}
use computer_network.Link.Methods.{segment_received-Half, tick-Half, connect-Half, destroy-Half}
use computer_network.Link.Given.{more, closed, more-SentOn, end_input_stream-Half, write-Half}
use computer_network.Link.Growth.{Grows, same, given, stopped, Grows-SentOn}

pub record EndSound (mine theirs : Course) (e : End) : Type 0 where
  pub given_bytes : mine.accepted ≡ e.accepted
  pub small : mine.isn.raw_value < 2 ^ 32
  pub half : Half mine theirs e.delivered e.connection
  pub underway : All (SentOn mine) e.network

-- An end after something it did.
unfoldable pub After : Course → Course → End → Type 0
After mine theirs e = (mine' : Course) × Grows mine mine' × EndSound mine' theirs e

module _ (mine theirs : Course) (e : End) (v : EndSound mine theirs e) where
  moved :
      (c : TcpConnection)
      → Half mine theirs e.delivered c
      → After mine theirs (record e { connection = c })
  unfolding After
  moved c half = (
    mine,
    same,
    record { given_bytes = v.given_bytes; small = v.small; half = half; underway = v.underway },
  )

  pub short : length mine.accepted < 2 ^ 31
  short = let (_, cutting, _) = v.half.sends in cutting.short

  read-After : (len : ℕ) → length theirs.accepted < 2 ^ 31 → After mine theirs (read len e)
  unfolding read After
  read-After len short =
      let c = e.connection in
      let (output, same_read, r) =
        read-Receiving theirs.isn theirs.accepted theirs.ended e.delivered c.receiver len short
          v.half.receives in
      rw (same_read, read)
        (
          mine,
          same,
          record {
            given_bytes = v.given_bytes;
            small = v.small;
            half = record { sends = v.half.sends; out = v.half.out; receives = r };
            underway = v.underway;
          },
        )

  write-After :
      (bytes : List ℕ)
      → length e.accepted + length bytes < 2 ^ 31
      → e.connection.sender.stream.input_ended ≡ false
      → After mine theirs (write bytes e)
  unfolding write After
  write-After bytes room going =
      let (_, cutting, _) = v.half.sends in
      let open_still : mine.ended ≡ false = sym cutting.same_ended ∙ going in
      let taken = take (TcpConnection.write bytes e.connection).0 bytes in
      (
        more taken mine,
        given taken open_still,
        record {
          given_bytes = ap (λ l. l ++ taken) v.given_bytes;
          small = v.small;
          half =
              write-Half mine open_still theirs e.delivered bytes e.connection
                (rw v.given_bytes room) v.half;
          underway = more-SentOn mine open_still taken e.network v.underway;
        },
      )

  pub Act-After :
      (arriving : List TcpSegment) (e' : End)
      → All (SentOn theirs) arriving
      → length theirs.accepted < 2 ^ 31
      → theirs.isn.raw_value < 2 ^ 32
      → Act arriving e e'
      → After mine theirs e'
  unfolding After
  Act-After arriving _ sent s small connected =
      moved _ (connect-Half mine theirs e.delivered e.connection v.half)
  Act-After arriving _ sent s small (written bytes room going) = write-After bytes room going
  Act-After arriving _ sent s small ended = (
    closed mine,
    stopped,
    record {
      given_bytes = v.given_bytes;
      small = v.small;
      half = end_input_stream-Half mine theirs e.delivered e.connection v.half;
      underway = Grows-SentOn mine (closed mine) e.network stopped v.underway;
    },
  )
  Act-After arriving _ sent s small (ticked ms) =
      moved _ (tick-Half mine theirs e.delivered ms e.connection v.half)
  Act-After arriving _ sent s small (arrived seg before after there) = moved _ (
      segment_received-Half mine theirs e.delivered seg e.connection s small
        (All-middle (SentOn theirs) before seg after (rw there at sent)) v.half)
  Act-After arriving _ sent s small (pulled len) = read-After len s
  Act-After arriving _ sent s small collected = (
    mine,
    same,
    record {
      given_bytes = v.given_bytes;
      small = v.small;
      half = record { sends = v.half.sends; out = tt; receives = v.half.receives };
      underway = All-append (SentOn mine) e.network e.connection.segments_out v.underway v.half.out;
    },
  )
  Act-After arriving _ sent s small destroyed =
      moved _ (destroy-Half mine theirs e.delivered e.connection v.half)
