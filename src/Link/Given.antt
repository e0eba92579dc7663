-- ===== src/Link/Given.antt =====
-- What an end is given: the bytes of a write, and the end of its input.
use computer_network.Base.{
  ℕ, ◌^◌, ◌<◌, ◌≡◌, false, ap, take, ◌++◌, append-nil, ◌+◌, true, List, [], length, All, ◌==◌,
  if_holds,
}
use computer_network.ByteStream
use computer_network.TcpSegment.{TcpSegment}
use computer_network.TcpSender.{TcpSender}
use computer_network.TcpSender
use computer_network.TcpConnection.{TcpConnection, in_sender, end_input_stream, write}
use computer_network.Link.Half.{Course, SentOn, Half}
use computer_network.Link.Methods.{send_segments-Half, fill_window-Half}
use computer_network.Session.Cut.{All-more, All-ended}
use computer_network.Session.Operations.{ended-Sending}
use computer_network.Session.Written.{written-Sending}

-- More bytes that are given, and the end of them.
abbrev pub more : List ℕ → Course → Course
more bytes k = record k { accepted = k.accepted ++ bytes }

abbrev pub closed : Course → Course
closed k = record k { ended = true }

pub end_input_stream-Half :
    (mine theirs : Course) (delivered : List ℕ) (c : TcpConnection)
    → Half mine theirs delivered c
    → Half (closed mine) theirs delivered (end_input_stream c)
unfolding end_input_stream
end_input_stream-Half mine theirs delivered c v =
    let c' : TcpConnection = record c {
      sender = record c.sender { stream = ByteStream.end_input c.sender.stream };
    } in
    let v' : Half (closed mine) theirs delivered c' = record {
      sends = ended-Sending mine.isn mine.accepted mine.ended c.sender v.sends;
      out = All-ended mine.isn mine.accepted mine.ended c.segments_out v.out;
      receives = v.receives;
    } in
    send_segments-Half (closed mine) theirs delivered (in_sender TcpSender.fill_window c')
      (fill_window-Half (closed mine) theirs delivered c' v')

module _ (mine : Course) (going : mine.ended ≡ false) where
  pub more-SentOn :
      (bytes : List ℕ) (segs : List TcpSegment)
      → All (SentOn mine) segs
      → All (SentOn (more bytes mine)) segs
  more-SentOn bytes segs h = rw going (All-more mine.isn mine.accepted bytes segs (rw going at h))

  pub write-Half :
      (theirs : Course) (delivered bytes : List ℕ) (c : TcpConnection)
      → length mine.accepted + length bytes < 2 ^ 31
      → Half mine theirs delivered c
      → Half (more (take (write bytes c).0 bytes) mine) theirs delivered (write bytes c).1
  unfolding write
  write-Half theirs delivered bytes c room v =
      let size = ByteStream.write_count bytes c.sender.stream in
      let c' : TcpConnection = record c {
        sender = record c.sender { stream = ByteStream.write bytes c.sender.stream };
      } in
      let mine' = more (take size bytes) mine in
      let v' : Half mine' theirs delivered c' = record {
        sends =
            rw going
              (written-Sending mine.isn mine.accepted bytes c.sender (rw going at v.sends) room);
        out = more-SentOn (take size bytes) c.segments_out v.out;
        receives = v.receives;
      } in
      let nothing : more [] mine ≡ mine =
        ap (λ l. record mine { accepted = l }) (append-nil mine.accepted) in
      if_holds {A = ℕ × TcpConnection} (λ r. Half (more (take r.0 bytes) mine) theirs delivered r.1)
        (length bytes == 0) (λ _. rw nothing v)
        (λ _.
          send_segments-Half mine' theirs delivered (in_sender TcpSender.fill_window c')
            (fill_window-Half mine' theirs delivered c' v'))
