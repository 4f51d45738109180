-- ===== src/Vxlan.antt =====
-- pcap2vxlan/pcap2vxlan.c: pkt_checksum, the headers, and the loop of main that puts each packet of a
-- capture into a VXLAN frame. Conf has the reading of the configuration. The host is little-endian,
-- as the branch of `struct vxlan` for it. A file is the list of its bytes; what libpcap reads is the
-- list of the packets. Printing is not modelled.
pub mod Conf
pub mod Alias
pub mod Checksum
pub mod Network
pub mod Frames
pub mod Round
pub mod Tests
use zeek_snippets.Prelude.{
  ℕ, zero, suc, ◌+◌, ◌-◌, ◌*◌, ◌/◌, ◌%◌, ◌^◌, Bool, true, false, ◌&&◌, List, [], ◌∷◌, ◌++◌, Option,
  none, some, length, take, drop, replicate, ltb, leb, ◌==◌, if◌then◌else◌,
}
use zeek_snippets.Run.{Run, ok, fault, out_of_bounds, ◌>>=◌}

-- The bytes of a number in memory.
unfoldable pub le16 : ℕ → List ℕ
le16 x = (x % 256) ∷ (x / 256 % 256) ∷ []

unfoldable pub le32 : ℕ → List ℕ
le32 x = (x % 256) ∷ (x / 256 % 256) ∷ (x / 65536 % 256) ∷ (x / 16777216 % 256) ∷ []

-- htons of a number of 16 bits.
unfoldable pub htons : ℕ → ℕ
htons x = x % 256 * 256 + x / 256 % 256

unfoldable pub htonl : ℕ → ℕ
htonl x = x % 256 * 16777216 + x / 256 % 256 * 65536 + x / 65536 % 256 * 256 + x / 16777216 % 256

-- The loop of pkt_checksum, and the odd byte behind it: the sum, on 32 bits.
unfoldable pub sum_words : List ℕ → ℕ → ℕ
sum_words [] sum = sum
sum_words (b ∷ []) sum = (sum + b * 256) % 2 ^ 32
sum_words (b ∷ c ∷ bytes) sum = sum_words bytes ((sum + (b * 256 + c)) % 2 ^ 32)

-- `(L_sum & 0xffff) + (L_sum >> 16)`
unfoldable pub fold_carry : ℕ → ℕ
fold_carry sum = sum % 65536 + sum / 65536

unfoldable pub pkt_checksum : List ℕ → ℕ → ℕ
pkt_checksum bytes add =
    let folded = fold_carry (fold_carry (sum_words bytes add)) in 65535 - folded % 65536

-- struct ether_h; the addresses are 6 bytes.
pub record EtherH : Type 0 where
  pub ether_dhost : List ℕ
  pub ether_shost : List ℕ
  pub ntag : ℕ

-- struct ip of netinet/ip.h, less what stays 0; the fields of 16 bits are as they stand in memory.
pub record Ip : Type 0 where
  pub ip_v : ℕ
  pub ip_hl : ℕ
  pub ip_len : ℕ
  pub ip_off : ℕ
  pub ip_ttl : ℕ
  pub ip_p : ℕ
  pub ip_sum : ℕ
  pub ip_src : List ℕ
  pub ip_dst : List ℕ

-- struct udphdr of netinet/udp.h; uh_sum stays 0.
pub record Udphdr : Type 0 where
  pub uh_sport : ℕ
  pub uh_dport : ℕ
  pub uh_ulen : ℕ

-- struct vxlan, less what stays 0.
pub record Vxlanh : Type 0 where
  pub i : ℕ
  pub vni : ℕ

unfoldable pub ether_bytes : EtherH → List ℕ
ether_bytes h = h.ether_dhost ++ (h.ether_shost ++ le16 h.ntag)

unfoldable pub ip_bytes : Ip → List ℕ
ip_bytes h =
    (h.ip_v * 16 + h.ip_hl)
    ∷ (0
        ∷ (le16 h.ip_len
            ++ (0
                ∷ (0
                    ∷ (le16 h.ip_off
                        ++ (h.ip_ttl ∷ (h.ip_p ∷ (le16 h.ip_sum ++ (h.ip_src ++ h.ip_dst)))))))))

unfoldable pub udp_bytes : Udphdr → List ℕ
udp_bytes h = le16 h.uh_sport ++ (le16 h.uh_dport ++ (le16 h.uh_ulen ++ (0 ∷ (0 ∷ []))))

-- The bit i is the fourth of the first byte; vni has 24 bits.
unfoldable pub vxlan_bytes : Vxlanh → List ℕ
vxlan_bytes h = (h.i * 8) ∷ (0 ∷ (0 ∷ (0 ∷ le32 (h.vni % 16777216))))

-- conf_t; a MAC is the address where ether_aton left it, 0 for the null pointer.
pub record SysConf : Type 0 where
  pub src_mac : ℕ
  pub dst_mac : ℕ
  pub src_ip : List ℕ
  pub dst_ip : List ℕ
  pub vxlan_port : ℕ
  pub vxlan_vni : ℕ

-- What pcap_next gives: the fields of pcap_pkthdr, and the bytes captured.
pub record Packet : Type 0 where
  pub tv_sec : ℕ
  pub tv_usec : ℕ
  pub caplen : ℕ
  pub len : ℕ
  pub bytes : List ℕ

-- The first 6 bytes of the pointer, as `memcpy` from `&conf.src_mac` takes them.
unfoldable pub pointer_bytes : ℕ → List ℕ
pointer_bytes p = le32 p ++ ((p / 4294967296 % 256) ∷ ((p / 1099511627776 % 256) ∷ []))

-- The headers of one direction.
pub record Headers : Type 0 where
  pub ether : EtherH
  pub iph : Ip
  pub udph : Udphdr

unfoldable pub new_headers : ℕ → ℕ → List ℕ → List ℕ → ℕ → Headers
new_headers src_mac dst_mac src_ip dst_ip port = record {
  ether = record {
    ether_dhost = pointer_bytes dst_mac;
    ether_shost = pointer_bytes src_mac;
    ntag = 8;
  };
  iph = record {
    ip_v = 4;
    ip_hl = 5;
    ip_len = 0;
    ip_off = 64;
    ip_ttl = 64;
    ip_p = 17;
    ip_sum = 0;
    ip_src = src_ip;
    ip_dst = dst_ip;
  };
  udph = record { uh_sport = 0; uh_dport = htons (port % 65536); uh_ulen = 0 };
}

-- The variables of main: `i`, `smac`, the headers and the output file.
pub record Tunnel : Type 0 where
  pub i : ℕ
  pub smac : List ℕ
  pub out : Headers
  pub back : Headers
  pub vxlanh : Vxlanh
  pub file : List ℕ

-- struct pcap_file_header of libpcap.
unfoldable pub file_header : List ℕ
file_header =
    le32 0xa1b2c3d4 ++ (le16 2 ++ (le16 4 ++ (le32 0 ++ (le32 0 ++ (le32 0xffff ++ le32 1)))))

unfoldable pub new_tunnel : SysConf → Tunnel
new_tunnel conf = record {
  i = 0;
  smac = [];
  out = new_headers conf.src_mac conf.dst_mac conf.src_ip conf.dst_ip conf.vxlan_port;
  back = new_headers conf.dst_mac conf.src_mac conf.dst_ip conf.src_ip conf.vxlan_port;
  vxlanh = record { i = 1; vni = htonl conf.vxlan_vni / 256 % 16777216 };
  file = file_header;
}

unfoldable pub pcap_header : Packet → List ℕ
pcap_header p =
    le32 p.tv_sec
    ++ (le32 p.tv_usec ++ (le32 ((p.caplen + 50) % 2 ^ 32) ++ le32 ((p.len + 50) % 2 ^ 32)))

-- The fields of the headers that depend on the packet. `behind` are the 14 bytes that are read from
-- the address of the pointer `eth_hdr` on.
unfoldable pub fill_headers : Headers → List ℕ → Packet → Headers
fill_headers h behind p =
    let ip_size = (36 + p.caplen) % 65536 in
    let udp_size = (16 + p.caplen) % 65536 in
    let iph = record h.iph { ip_len = htons ip_size; ip_sum = 0 } in
    record h {
      iph = record iph { ip_sum = htons (pkt_checksum (ip_bytes iph) 0) };
      udph = record h.udph { uh_sport = pkt_checksum behind 0; uh_ulen = htons udp_size };
    }

-- `eth_hdr->ether_shost`, outside the array where fewer than 12 bytes are captured.
unfoldable pub source_of : Packet → Run (List ℕ)
source_of p = if ltb (length p.bytes) 12 then fault out_of_bounds else ok (take 6 (drop 6 p.bytes))

-- `memcmp` or `strcmp` is 0.
unfoldable pub same_octets : List ℕ → List ℕ → Bool
same_octets [] [] = true
same_octets [] (y ∷ ys) = false
same_octets (x ∷ xs) [] = false
same_octets (x ∷ xs) (y ∷ ys) = x == y && same_octets xs ys

unfoldable pub frame_header : Headers → Vxlanh → List ℕ
frame_header h v = ether_bytes h.ether ++ (ip_bytes h.iph ++ (udp_bytes h.udph ++ vxlan_bytes v))

-- `stack n` are the 14 bytes on the stack from `eth_hdr` on in round `n`.
module _ (stack : ℕ → List ℕ) where
  -- One round of the loop for a packet.
  unfoldable pub round : Tunnel → Packet → Run Tunnel
  round t p = do
    shost ← source_of p
    let smac = if t.i == 0 then shost else t.smac
    let behind = stack t.i
    let out = fill_headers t.out behind p
    let back = fill_headers t.back behind p
    let seen = record t { i = (t.i + 1) % 2 ^ 32; smac = smac }
    let outwards = record seen {
      out = out;
      file = t.file ++ (pcap_header p ++ (frame_header out t.vxlanh ++ take p.caplen p.bytes));
    }
    let inwards = record seen {
      back = back;
      file = t.file ++ (pcap_header p ++ (frame_header back t.vxlanh ++ take p.caplen p.bytes));
    }
    ok (if same_octets smac shost then outwards else inwards)

  unfoldable pub rounds : Tunnel → List Packet → Run Tunnel
  rounds t [] = ok t
  rounds t (p ∷ ps) = do t' ← round t p; rounds t' ps

  -- What main writes to the output file.
  unfoldable pub encapsulate : SysConf → List Packet → Run (List ℕ)
  encapsulate conf ps = do t ← rounds (new_tunnel conf) ps; ok t.file
