-- ===== src/TcpSegment/Runs.antt =====
-- A segment of two bytes written and read.
use computer_network.Base.{ℕ, ◌≡◌, true, false, [], ◌∷◌, arith}
use computer_network.NetParser.{no_error}
use computer_network.TcpSegment.{TcpSegment, init, parse}
use computer_network.TcpSegment.RoundTrip.{
  with_cksum, wire_bytes, serialize_lem, parse-serialize_checked,
}

abbrev segment : TcpSegment
segment = record {
  header = record {
    sport = 80;
    dport = 50_000;
    seqno = record { raw_value = 0xffff_ffff };
    ackno = record { raw_value = 17 };
    doff = 6;
    urg = false;
    ack = true;
    psh = false;
    rst = false;
    syn = false;
    fin = true;
    win = 64_000;
    cksum = 0;
    uptr = 0;
  };
  payload = b'o' ∷ b'k' ∷ [];
}

parse-serialize_checked_example :
    (cksum : ℕ) × (parse init (wire_bytes segment 6) 6
      ≡ (record segment { header = with_cksum cksum segment.header }, no_error))
parse-serialize_checked_example =
    parse-serialize_checked segment init 6 (wire_bytes segment 6) (omega arith) (omega arith)
      (omega arith) (omega arith) (omega arith) (omega arith) (omega arith)
      (omega arith, (omega arith, tt)) (omega arith) (omega arith)
      (serialize_lem segment 6 (omega arith))
