-- ===== src/Vxlan/Tests.antt =====
-- Runs of pcap2vxlan/pcap2vxlan.c, and examples of what is proved of it.
use zeek_snippets.Prelude.{
  ℕ, suc, ◌≡◌, refl, List, [], ◌∷◌, ◌++◌, Option, none, some, length, take, drop, replicate, arith,
}
use zeek_snippets.Run.{ok, fault, out_of_bounds}
use zeek_snippets.Vxlan.{
  ip_bytes, SysConf, Packet, Headers, pointer_bytes, new_headers, new_tunnel, file_header,
  pkt_checksum, sum_words, fold_carry, fill_headers, encapsulate, rounds, round, source_of,
  same_octets,
}
use zeek_snippets.Vxlan.Conf.{
  Scanned, two_words, outer_src_mac, outer_dst_mac, parse_conf, parse_rows, strip, chop, skipped,
  row_src_mac, row_dst_mac, parse_element, split, fits,
}
use zeek_snippets.Vxlan.Alias.{parse_conf-alias}
use zeek_snippets.Vxlan.Checksum.{address, fill_headers-checksum}
use zeek_snippets.Vxlan.Frames.{frames, encapsulate-frames}
use zeek_snippets.Vxlan.Round.{IsCaptured, unframe, unframe-encapsulate}

-- The example of a checksum in RFC 1071.
checksum_of_rfc : pkt_checksum (0 ∷ 1 ∷ 0xf2 ∷ 3 ∷ 0xf4 ∷ 0xf5 ∷ 0xf6 ∷ 0xf7 ∷ []) 0 ≡ 0x220d
unfolding pkt_checksum sum_words fold_carry
checksum_of_rfc = refl

-- An odd byte counts as the high one.
checksum_of_odd : pkt_checksum (0x12 ∷ 0x34 ∷ 0x56 ∷ []) 0 ≡ 0x97cb
unfolding pkt_checksum sum_words fold_carry
checksum_of_odd = refl

abbrev conf : SysConf
conf = record {
  src_mac = 0x7f1234567890;
  dst_mac = 0x7f1234567890;
  src_ip = 10 ∷ 0 ∷ 0 ∷ 1 ∷ [];
  dst_ip = 10 ∷ 0 ∷ 0 ∷ 2 ∷ [];
  vxlan_port = 4789;
  vxlan_vni = 0x123456;
}

abbrev garbage : ℕ → List ℕ
garbage n = replicate 14 n

abbrev ping : Packet
ping = record {
  tv_sec = 1;
  tv_usec = 2;
  caplen = 14;
  len = 60;
  bytes = 1 ∷ 2 ∷ 3 ∷ 4 ∷ 5 ∷ 6 ∷ 11 ∷ 12 ∷ 13 ∷ 14 ∷ 15 ∷ 16 ∷ 8 ∷ 0 ∷ [];
}

-- The answer has the MACs the other way round.
abbrev pong : Packet
pong = record ping { bytes = 11 ∷ 12 ∷ 13 ∷ 14 ∷ 15 ∷ 16 ∷ 1 ∷ 2 ∷ 3 ∷ 4 ∷ 5 ∷ 6 ∷ 8 ∷ 0 ∷ [] }

-- A packet of less than 12 bytes is read outside of what is captured.
too_short :
    encapsulate garbage conf (record ping { caplen = 1; bytes = 7 ∷ [] } ∷ []) ≡ fault out_of_bounds
unfolding encapsulate rounds round source_of
too_short = refl

abbrev headers : Headers
headers = new_headers conf.src_mac conf.dst_mac conf.src_ip conf.dst_ip conf.vxlan_port

fill_headers-checksum_example :
    pkt_checksum (ip_bytes (fill_headers headers (garbage 0) ping).iph) 0 ≡ 0
unfolding new_headers
fill_headers-checksum_example = fill_headers-checksum headers (garbage 0) ping (record {
  version = omega arith;
  words = omega arith;
  ttl = omega arith;
  protocol = omega arith;
  src = address (omega arith) (omega arith) (omega arith) (omega arith);
  dst = address (omega arith) (omega arith) (omega arith) (omega arith);
})

encapsulate-frames_example :
    encapsulate garbage conf (ping ∷ pong ∷ [])
    ≡ ok
        (file_header ++ frames garbage conf (11 ∷ 12 ∷ 13 ∷ 14 ∷ 15 ∷ 16 ∷ []) 0 (ping ∷ pong ∷ []))
encapsulate-frames_example =
    encapsulate-frames garbage conf ping (pong ∷ []) (omega arith) (omega arith, (omega arith, tt))

ping-IsCaptured : IsCaptured ping
ping-IsCaptured = record {
  sec = omega arith;
  usec = omega arith;
  caplen = omega arith;
  len = omega arith;
  bytes = refl;
  long = omega arith;
}

pong-IsCaptured : IsCaptured pong
pong-IsCaptured = record {
  sec = omega arith;
  usec = omega arith;
  caplen = omega arith;
  len = omega arith;
  bytes = refl;
  long = omega arith;
}

unframe-encapsulate_example :
    (file : List ℕ) × (encapsulate garbage conf (ping ∷ pong ∷ []) ≡ ok file)
    × (unframe (suc (length (ping ∷ pong ∷ []))) (drop 24 file) ≡ some (ping ∷ pong ∷ []))
unframe-encapsulate_example =
    unframe-encapsulate garbage conf refl refl ping (pong ∷ []) (omega arith)
      (ping-IsCaptured, (pong-IsCaptured, tt))

-- Keys of 13 characters, and a value behind " = ".
abbrev scan : List ℕ → Scanned
scan line = two_words (take 13 line) (drop 16 line)

abbrev no_key : List ℕ → Option (List ℕ)
no_key line = none

abbrev aton : List ℕ → Option ℕ
aton text = some 0x7f1234567890

abbrev lines : List (List ℕ)
lines =
    (outer_src_mac ++ b' ' ∷ b'=' ∷ b' ' ∷ b'a' ∷ 10 ∷ [])
    ∷ (outer_dst_mac ++ b' ' ∷ b'=' ∷ b' ' ∷ b'b' ∷ 10 ∷ [])
    ∷ []

abbrev read : SysConf
read = record {
  src_mac = 0x7f1234567890;
  dst_mac = 0x7f1234567890;
  src_ip = 0 ∷ 0 ∷ 0 ∷ 0 ∷ [];
  dst_ip = 0 ∷ 0 ∷ 0 ∷ 0 ∷ [];
  vxlan_port = 0;
  vxlan_vni = 0;
}

parse_conf-alias_example :
    ((new_tunnel read).out.ether.ether_shost ≡ pointer_bytes 0x7f1234567890)
    × ((new_tunnel read).out.ether.ether_dhost ≡ pointer_bytes 0x7f1234567890)
    × ((new_tunnel read).back.ether.ether_shost ≡ pointer_bytes 0x7f1234567890)
    × ((new_tunnel read).back.ether.ether_dhost ≡ pointer_bytes 0x7f1234567890)
unfolding parse_conf parse_rows strip chop skipped row_src_mac row_dst_mac parse_element split fits
    same_octets
parse_conf-alias_example =
    parse_conf-alias scan no_key length aton some 0x7f1234567890 (λ v mac e. ground (arith, e))
      (some lines) read refl (λ null. absurd (omega arith)) (λ null. absurd (omega arith))
