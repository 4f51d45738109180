-- ===== src/Vxlan/Round.antt =====
-- Taking the packets out of the frames that pcap2vxlan/pcap2vxlan.c writes.
use zeek_snippets.Prelude.{
  ℕ, zero, suc, ◌+◌, ◌-◌, ◌*◌, ◌%◌, ◌^◌, ◌≤◌, ◌<◌, ◌≡◌, refl, sym, ap, ◌∙◌, List, [], ◌∷◌, ◌++◌,
  Option, none, some, length, take, drop, arith, length-append, if◌then◌else◌, Bool-cases, inl, inr,
}
use zeek_snippets.Run.{ok}
use zeek_snippets.Vxlan.{
  le16, le32, SysConf, Packet, pointer_bytes, file_header, pcap_header, same_octets, encapsulate,
}
use zeek_snippets.Vxlan.Network.{End, outer, here, there}
use zeek_snippets.Vxlan.Frames.{mac_of, AllLong, frames, encapsulate-frames}

-- The number in the first four bytes.
abbrev pub num32 : List ℕ → ℕ
num32 (a ∷ b ∷ c ∷ d ∷ bytes) = a + b * 256 + c * 65536 + d * 16777216
num32 bytes = 0

abbrev pub push : Packet → Option (List Packet) → Option (List Packet)
push p none = none
push p (some ps) = some (p ∷ ps)

-- The records of a capture, each without the 50 bytes of outer headers.
unfoldable pub unframe : ℕ → List ℕ → Option (List Packet)
unframe zero bytes = none
unframe (suc k) [] = some []
unframe (suc k) (b ∷ bs) =
    let record_at = b ∷ bs in
    let caplen = num32 (drop 8 record_at) in
    let frame_at = drop 16 record_at in
    push
      (record {
        tv_sec = num32 record_at;
        tv_usec = num32 (drop 4 record_at);
        caplen = caplen - 50;
        len = num32 (drop 12 record_at) - 50;
        bytes = drop 50 (take caplen frame_at);
      })
      (unframe k (drop caplen frame_at))

-- What libpcap gives: the fields have 32 bits, with room for the outer headers, and `caplen` bytes
-- are captured, those of the MACs among them.
pub record IsCaptured (p : Packet) : Type 0 where
  pub sec : p.tv_sec < 2 ^ 32
  pub usec : p.tv_usec < 2 ^ 32
  pub caplen : p.caplen + 50 < 2 ^ 32
  pub len : p.len + 50 < 2 ^ 32
  pub bytes : length p.bytes ≡ p.caplen
  pub long : 12 ≤ p.caplen

abbrev pub AllCaptured : List Packet → Type 0
AllCaptured [] = Unit {0}
AllCaptured (p ∷ ps) = IsCaptured p × AllCaptured ps

AllCaptured-AllLong : (ps : List Packet) → AllCaptured ps → AllLong ps
AllCaptured-AllLong [] c = tt
AllCaptured-AllLong (p ∷ ps) c = (omega (arith, c.0.bytes, c.0.long), AllCaptured-AllLong ps c.1)

take-append : (xs ys : List ℕ) (n : ℕ) → n ≡ length xs → take n (xs ++ ys) ≡ xs
take-append [] ys zero e = refl
take-append [] ys (suc n) e = absurd (omega arith)
take-append (x ∷ xs) ys zero e = absurd (omega arith)
take-append (x ∷ xs) ys (suc n) e = ap (λ zs. x ∷ zs) (take-append xs ys n (omega arith))

take_all : (xs : List ℕ) (n : ℕ) → n ≡ length xs → take n xs ≡ xs
take_all [] zero e = refl
take_all [] (suc n) e = absurd (omega arith)
take_all (x ∷ xs) zero e = absurd (omega arith)
take_all (x ∷ xs) (suc n) e = ap (λ zs. x ∷ zs) (take_all xs n (omega arith))

drop-append : (xs ys : List ℕ) (n : ℕ) → n ≡ length xs → drop n (xs ++ ys) ≡ ys
drop-append [] ys zero e = refl
drop-append [] ys (suc n) e = absurd (omega arith)
drop-append (x ∷ xs) ys zero e = absurd (omega arith)
drop-append (x ∷ xs) ys (suc n) e = drop-append xs ys n (omega arith)

num32-le32 : (x : ℕ) (bytes : List ℕ) → x < 2 ^ 32 → num32 (le32 x ++ bytes) ≡ x
unfolding le32
num32-le32 x bytes small = omega arith

length-outer :
    (src dst : End) (port vni : ℕ) (behind : List ℕ) (p : Packet)
    → length src.ip ≡ 4
    → length dst.ip ≡ 4
    → length (outer src dst port vni behind p) ≡ 50
unfolding pointer_bytes le16 le32
length-outer src dst port vni behind p s d = simp length-append (omega arith)

module _ (stack : ℕ → List ℕ) (conf : SysConf) (src_4 : length conf.src_ip ≡ 4)
    (dst_4 : length conf.dst_ip ≡ 4) where
  abbrev header_of : List ℕ → ℕ → Packet → List ℕ
  header_of first n p =
      if same_octets first (mac_of p)
      then outer (here conf) (there conf) conf.vxlan_port conf.vxlan_vni (stack n) p
      else outer (there conf) (here conf) conf.vxlan_port conf.vxlan_vni (stack n) p

  length-header_of : (first : List ℕ) (n : ℕ) (p : Packet) → length (header_of first n p) ≡ 50
  length-header_of first n p = elim (Bool-cases (same_octets first (mac_of p))) [
    | inl same ↦ rw same (
        length-outer (here conf) (there conf) conf.vxlan_port conf.vxlan_vni (stack n) p src_4
          dst_4)
    | inr other ↦ rw other (
        length-outer (there conf) (here conf) conf.vxlan_port conf.vxlan_vni (stack n) p dst_4
          src_4)
  ]

  unframe-frame :
      (k : ℕ) (p : Packet) (header rest : List ℕ)
      → IsCaptured p
      → length header ≡ 50
      → unframe (suc k) ((pcap_header p ++ (header ++ take p.caplen p.bytes)) ++ rest)
        ≡ push p (unframe k rest)
  unfolding unframe pcap_header le32
  unframe-frame k p header rest c fifty =
      let body : take p.caplen p.bytes ≡ p.bytes = take_all p.bytes p.caplen (sym c.bytes) in
      let wide : p.caplen + 50 ≡ length (header ++ p.bytes) =
        omega (arith, length-append header p.bytes, c.bytes) in
      let cap : (p.caplen + 50) % 2 ^ 32 ≡ p.caplen + 50 = omega (arith, c.caplen) in
      let size : (p.len + 50) % 2 ^ 32 ≡ p.len + 50 = omega (arith, c.len) in
      let caplen : p.caplen + 50 - 50 ≡ p.caplen = omega arith in
      let len : p.len + 50 - 50 ≡ p.len = omega arith in
      rw
        (
          body,
          cap,
          size,
          num32-le32 p.tv_sec [] c.sec,
          num32-le32 p.tv_usec [] c.usec,
          num32-le32 (p.caplen + 50) [] c.caplen,
          num32-le32 (p.len + 50) [] c.len,
          caplen,
          len,
          take-append (header ++ p.bytes) rest (p.caplen + 50) wide,
          drop-append (header ++ p.bytes) rest (p.caplen + 50) wide,
          drop-append header p.bytes 50 (sym fifty),
        )
        refl

  unframe-frames :
      (first : List ℕ) (n : ℕ) (ps : List Packet)
      → AllCaptured ps
      → unframe (suc (length ps)) (frames stack conf first n ps) ≡ some ps
  unframe-frames first n [] c = unfold unframe in refl
  unframe-frames first n (p ∷ ps) c =
      unframe-frame (suc (length ps)) p (header_of first n p) (frames stack conf first (n + 1) ps)
        c.0 (length-header_of first n p)
      ∙ rw (unframe-frames first (n + 1) ps c.1) refl

  -- For 1 to 2 ^ 32 - 2 captured packets of 12 bytes or more, with as many bytes as captured, times
  -- of 32 bits, and sizes that leave room for 50 bytes more in their 32 bits, and two IPv4 addresses
  -- of 4 bytes: main ends without a fault, and reading the records of the file behind its header of
  -- 24 bytes, and taking 50 bytes off each, gives the packets again, with their times, sizes and
  -- bytes.
  pub unframe-encapsulate :
      (p : Packet) (ps : List Packet)
      → length (p ∷ ps) + 1 < 2 ^ 32
      → AllCaptured (p ∷ ps)
      → (file : List ℕ) × (encapsulate stack conf (p ∷ ps) ≡ ok file)
        × (unframe (suc (length (p ∷ ps))) (drop 24 file) ≡ some (p ∷ ps))
  unfolding file_header le32 le16
  unframe-encapsulate p ps more c = (
    _,
    encapsulate-frames stack conf p ps more (AllCaptured-AllLong (p ∷ ps) c),
    unframe-frames (mac_of p) 0 (p ∷ ps) c,
  )
