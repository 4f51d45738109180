-- ===== src/Vxlan/Network.antt =====
-- The outer headers of pcap2vxlan/pcap2vxlan.c, against the layout of RFC 7348 in network byte order.
-- The UDP source port stands as the host has it, since the code does not convert it.
use zeek_snippets.Prelude.{ℕ, ◌+◌, ◌*◌, ◌/◌, ◌%◌, ◌≡◌, refl, ap, ◌∙◌, List, [], ◌∷◌, ◌++◌, arith}
use zeek_snippets.Vxlan.{
  le16, le32, htons, htonl, pkt_checksum, ip_bytes, ether_bytes, udp_bytes, Vxlanh, vxlan_bytes,
  SysConf, Headers, Packet, pointer_bytes, new_headers, fill_headers, frame_header,
}

-- Network byte order.
abbrev pub be16 : ℕ → List ℕ
be16 x = (x / 256 % 256) ∷ (x % 256) ∷ []

abbrev pub be24 : ℕ → List ℕ
be24 x = (x / 65536 % 256) ∷ (x / 256 % 256) ∷ (x % 256) ∷ []

-- One end of the tunnel.
pub record End : Type 0 where
  pub mac : ℕ
  pub ip : List ℕ

-- The IPv4 header of a datagram of `size` bytes: version 4, five words, do not fragment, 64 hops, UDP.
abbrev pub ipv4 : End → End → ℕ → List ℕ → List ℕ
ipv4 src dst size sum =
    0x45 ∷ (0 ∷ (be16 size ++ (0 ∷ (0 ∷ (0x40 ∷ (0 ∷ (64 ∷ (17 ∷ (sum ++ (src.ip ++ dst.ip))))))))))

-- The outer headers around a packet from one end to the other.
abbrev pub outer : End → End → ℕ → ℕ → List ℕ → Packet → List ℕ
outer src dst port vni behind p =
    (pointer_bytes dst.mac ++ (pointer_bytes src.mac ++ (8 ∷ (0 ∷ []))))
    ++ (ipv4 src dst (36 + p.caplen)
          (be16 (pkt_checksum (ipv4 src dst (36 + p.caplen) (0 ∷ 0 ∷ [])) 0))
        ++ ((le16 (pkt_checksum behind 0)
              ++ (be16 port ++ (be16 (16 + p.caplen) ++ (0 ∷ (0 ∷ [])))))
            ++ (8 ∷ (0 ∷ (0 ∷ (0 ∷ (be24 vni ++ (0 ∷ []))))))))

le16-htons : (x : ℕ) → le16 (htons (x % 65536)) ≡ be16 x
unfolding le16 htons
le16-htons x =
    let first : (x % 65536 % 256 * 256 + x % 65536 / 256 % 256) % 256 ≡ x / 256 % 256 =
      omega arith in
    let second : (x % 65536 % 256 * 256 + x % 65536 / 256 % 256) / 256 % 256 ≡ x % 256 =
      omega arith in
    rw (first, second) refl

le16-htons_sum :
    (bytes : List ℕ) → le16 (htons (pkt_checksum bytes 0)) ≡ be16 (pkt_checksum bytes 0)
le16-htons_sum bytes =
    let small : pkt_checksum bytes 0 ≡ pkt_checksum bytes 0 % 65536 =
      unfold pkt_checksum in omega arith in
    ap (λ x. le16 (htons x)) small ∙ le16-htons (pkt_checksum bytes 0)

vni_lem : (v : ℕ) → le32 (htonl v / 256 % 16777216 % 16777216) ≡ be24 v ++ (0 ∷ [])
unfolding le32 htonl
vni_lem v =
    let x : ℕ =
      v % 256 * 16777216 + v / 256 % 256 * 65536 + v / 65536 % 256 * 256 + v / 16777216 % 256 in
    let y : ℕ = x / 256 % 16777216 % 16777216 in
    let whole : y ≡ v % 256 * 65536 + v / 256 % 256 * 256 + v / 65536 % 256 = omega arith in
    let a : y % 256 ≡ v / 65536 % 256 = omega arith in
    let b : y / 256 % 256 ≡ v / 256 % 256 = omega arith in
    let c : y / 65536 % 256 ≡ v % 256 = omega arith in
    let d : y / 16777216 % 256 ≡ 0 = omega arith in rw (a, b, c, d) refl

constants : (le16 8 ≡ 8 ∷ 0 ∷ []) × (le16 64 ≡ 64 ∷ 0 ∷ []) × (le16 0 ≡ 0 ∷ 0 ∷ [])
unfolding le16
constants = (refl, refl, refl)

ip_bytes-ipv4 :
    (src dst : End) (size sum : ℕ)
    → ip_bytes (record {
      ip_v = 4;
      ip_hl = 5;
      ip_len = htons (size % 65536);
      ip_off = 64;
      ip_ttl = 64;
      ip_p = 17;
      ip_sum = sum;
      ip_src = src.ip;
      ip_dst = dst.ip;
    })
      ≡ ipv4 src dst size (le16 sum)
unfolding ip_bytes
ip_bytes-ipv4 src dst size sum =
    let (eight, sixty_four, none_of) = constants in rw (le16-htons size, sixty_four) refl

module _ (conf : SysConf) where
  abbrev pub here : End
  here = record { mac = conf.src_mac; ip = conf.src_ip }

  abbrev pub there : End
  there = record { mac = conf.dst_mac; ip = conf.dst_ip }

  abbrev pub made : End → End → Headers
  made src dst = new_headers src.mac dst.mac src.ip dst.ip conf.vxlan_port

  abbrev pub vxlanh : Vxlanh
  vxlanh = record { i = 1; vni = htonl conf.vxlan_vni / 256 % 16777216 }

  pub frame_header-outer :
      (src dst : End) (behind : List ℕ) (p : Packet)
      → frame_header (fill_headers (made src dst) behind p) vxlanh
        ≡ outer src dst conf.vxlan_port conf.vxlan_vni behind p
  unfolding frame_header fill_headers new_headers ether_bytes udp_bytes vxlan_bytes
  frame_header-outer src dst behind p =
      let (eight, sixty_four, none_of) = constants in
      rw
        (
          eight,
          ip_bytes-ipv4 src dst (36 + p.caplen) 0,
          ip_bytes-ipv4 src dst (36 + p.caplen)
              (htons (pkt_checksum (ipv4 src dst (36 + p.caplen) (le16 0)) 0)),
          le16-htons_sum (ipv4 src dst (36 + p.caplen) (le16 0)),
          none_of,
          le16-htons conf.vxlan_port,
          le16-htons (16 + p.caplen),
          vni_lem conf.vxlan_vni,
        )
        refl
