-- ===== src/Link/Growth.antt =====
-- What the other end sees while an end is given more.
use computer_network.Base.{◌≡◌, ℕ, false, List, All}
use computer_network.TcpSegment.{TcpSegment}
use computer_network.TcpReceiver.{TcpReceiver}
use computer_network.TcpConnection.{TcpConnection}
use computer_network.Session.Cut.{All-ended}
use computer_network.Session.Receiving.{Receiving, more-Receiving, ended-Receiving}
use computer_network.Link.Half.{Course, SentOn, Half}
use computer_network.Link.Given.{more, closed, more-SentOn}

pub data Grows (k : Course) : Course → Type 0 where
  same : Grows k k
  given : (bytes : List ℕ) → k.ended ≡ false → Grows k (more bytes k)
  stopped : Grows k (closed k)

pub Grows-SentOn :
    (k k' : Course) (segs : List TcpSegment)
    → Grows k k'
    → All (SentOn k) segs
    → All (SentOn k') segs
Grows-SentOn k _ segs same h = h
Grows-SentOn k _ segs (given bytes going) h = more-SentOn k going bytes segs h
Grows-SentOn k _ segs stopped h = All-ended k.isn k.accepted k.ended segs h

abbrev pub Puts : Course → List ℕ → TcpReceiver → Type 0
Puts k delivered r = Receiving k.isn k.accepted k.ended delivered r

Grows-Puts :
    (k k' : Course) (delivered : List ℕ) (r : TcpReceiver)
    → Grows k k'
    → Puts k delivered r
    → Puts k' delivered r
Grows-Puts k _ delivered r same v = v
Grows-Puts k _ delivered r (given bytes going) v =
    rw going (more-Receiving k.isn k.accepted bytes delivered r (rw going at v))
Grows-Puts k _ delivered r stopped v = ended-Receiving k.isn k.accepted k.ended delivered r v

pub Grows-Half :
    (mine k k' : Course) (delivered : List ℕ) (c : TcpConnection)
    → Grows k k'
    → Half mine k delivered c
    → Half mine k' delivered c
Grows-Half mine k k' delivered c g v = record {
  sends = v.sends;
  out = v.out;
  receives = Grows-Puts k k' delivered c.receiver g v.receives;
}
