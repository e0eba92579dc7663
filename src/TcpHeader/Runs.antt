-- ===== src/TcpHeader/Runs.antt =====
-- A TCP header with two words of options written and read.
use computer_network.Base.{◌≡◌, refl, true, false, [], ◌∷◌, ◌++◌, arith}
use computer_network.NetParser.{start, no_error}
use computer_network.TcpHeader.{TcpHeader, parse, serialize, fields, resize}
use computer_network.TcpHeader.RoundTrip.{parse-serialize}

abbrev header : TcpHeader
header = record {
  sport = 80;
  dport = 50_000;
  seqno = record { raw_value = 0xffff_ffff };
  ackno = record { raw_value = 17 };
  doff = 7;
  urg = false;
  ack = true;
  psh = false;
  rst = false;
  syn = true;
  fin = true;
  win = 64_000;
  cksum = 0xbeef;
  uptr = 0;
}

parse-serialize_example :
    parse (start (resize 28 (fields header) ++ 9 ∷ [])) ≡ ((header, no_error), start (9 ∷ []))
unfolding serialize
parse-serialize_example =
    parse-serialize header (resize 28 (fields header)) (9 ∷ []) (omega arith) (omega arith)
      (omega arith) (omega arith) (omega arith) (omega arith) (omega arith) (omega arith) refl
