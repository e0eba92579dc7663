-- ===== src/Link/Half.antt =====
-- What holds of one end: its segments carry what it was given, and what it puts together is what the
-- other end was given.
use computer_network.Base.{ℕ, inl, inr, Bool, true, Option, none, some, List, [], ◌∷◌, map, All}
use computer_network.WrappingIntegers.{WrappingInt32}
use computer_network.TcpSegment.{TcpSegment}
use computer_network.TcpReceiver.{TcpReceiver}
use computer_network.TcpReceiver
use computer_network.TcpConnection.{TcpConnection, with_ackno, complete}
use computer_network.Session.Cut.{IsSent}
use computer_network.Session.Sending.{Sending}
use computer_network.Session.Receiving.{Receiving}

-- One direction: the initial sequence number, the bytes given so far, and whether they are all.
pub record Course : Type 0 where
  pub isn : WrappingInt32
  pub accepted : List ℕ
  pub ended : Bool

abbrev pub SentOn : Course → TcpSegment → Type 0
SentOn k seg = IsSent k.isn k.accepted k.ended seg

pub record Half (mine theirs : Course) (delivered : List ℕ) (c : TcpConnection) : Type 0 where
  pub sends : Sending mine.isn mine.accepted mine.ended c.sender
  pub out : All (SentOn mine) c.segments_out
  pub receives : Receiving theirs.isn theirs.accepted theirs.ended delivered c.receiver

-- The fields that a connection adds are not what a segment carries.
pub SentOn-same :
    (k : Course) (seg : TcpSegment) (ack rst : Bool) (ackno : WrappingInt32) (win : ℕ)
    → SentOn k seg
    → SentOn k (record seg {
      header = record seg.header { ack = ack; rst = rst; ackno = ackno; win = win };
    })
SentOn-same k seg ack rst ackno win v = record {
  syn_first = v.syn_first;
  carries = elim v.carries [
    | inl e ↦ inl e
    | inr c ↦ inr (record {
      before = c.before;
      after = c.after;
      split = c.split;
      place = c.place;
      no_syn = c.no_syn;
    })
  ];
  last = λ fin.
      let (all, l) = v.last fin in
      (all, record { before = l.before; split = l.split; place = l.place; no_syn = l.no_syn });
}

pub with_ackno-SentOn :
    (k : Course) (ackno : Option WrappingInt32) (seg : TcpSegment)
    → SentOn k seg
    → SentOn k (with_ackno ackno seg)
unfolding with_ackno
with_ackno-SentOn k none seg v = v
with_ackno-SentOn k (some ackno) seg v =
    SentOn-same k seg true seg.header.rst ackno seg.header.win v

complete-SentOn :
    (k : Course) (r : TcpReceiver) (seg : TcpSegment) → SentOn k seg → SentOn k (complete r seg)
unfolding complete
complete-SentOn k r seg v =
    let seg' = with_ackno (TcpReceiver.ackno r) seg in
    SentOn-same k seg' seg'.header.ack seg'.header.rst seg'.header.ackno _
      (with_ackno-SentOn k (TcpReceiver.ackno r) seg v)

pub All-complete :
    (k : Course) (r : TcpReceiver) (segs : List TcpSegment)
    → All (SentOn k) segs
    → All (SentOn k) (map (complete r) segs)
All-complete k r [] h = tt
All-complete k r (seg ∷ segs) h = (complete-SentOn k r seg h.0, All-complete k r segs h.1)
