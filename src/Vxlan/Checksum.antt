-- ===== src/Vxlan/Checksum.antt =====
-- pkt_checksum of pcap2vxlan/pcap2vxlan.c: the header that main writes carries a checksum that a
-- receiver accepts.
use zeek_snippets.Prelude.{ℕ, ◌+◌, ◌-◌, ◌*◌, ◌%◌, ◌^◌, ◌<◌, ◌≡◌, refl, ◌∙◌, List, [], ◌∷◌, arith}
use zeek_snippets.Vxlan.{
  le16, htons, sum_words, fold_carry, pkt_checksum, Ip, ip_bytes, Headers, Packet, fill_headers,
}

-- The sum of the big-endian words, unbounded.
abbrev pub words : List ℕ → ℕ
words [] = 0
words (b ∷ []) = b * 256
words (b ∷ c ∷ bytes) = b * 256 + c + words bytes

pub sum_words-words :
    (bytes : List ℕ) (sum : ℕ)
    → sum + words bytes < 2 ^ 32
    → sum_words bytes sum ≡ sum + words bytes
unfolding sum_words
sum_words-words [] sum small = omega arith
sum_words-words (b ∷ []) sum small = omega arith
sum_words-words (b ∷ c ∷ bytes) sum small =
    let step : (sum + (b * 256 + c)) % 2 ^ 32 ≡ sum + (b * 256 + c) = omega arith in
    rw step (sum_words-words bytes (sum + (b * 256 + c)) (omega arith) ∙ omega arith)

-- The complement of a sum completes it.
completes :
    (s : ℕ)
    → s < 16777216
    → 65535 - fold_carry (fold_carry (s + (65535 - fold_carry (fold_carry s) % 65536))) % 65536 ≡ 0
unfolding fold_carry
completes s small = omega arith

-- An IPv4 address.
pub data IsAddress : List ℕ → Type 0 where
  address : {a b c d : ℕ} → a < 256 → b < 256 → c < 256 → d < 256 → IsAddress (a ∷ b ∷ c ∷ d ∷ [])

-- The fields fit their widths.
pub record IsIp (h : Ip) : Type 0 where
  pub version : h.ip_v < 16
  pub words : h.ip_hl < 16
  pub ttl : h.ip_ttl < 256
  pub protocol : h.ip_p < 256
  pub src : IsAddress h.ip_src
  pub dst : IsAddress h.ip_dst

abbrev summed : Ip → ℕ → Ip
summed h sum = record h { ip_sum = htons sum }

words-le : (h : Ip) → IsIp h → words (ip_bytes (record h { ip_sum = 0 })) < 16000000
unfolding ip_bytes le16
words-le h w = bounded h.ip_src h.ip_dst w.src w.dst
  where
    bounded :
        (src dst : List ℕ)
        → IsAddress src
        → IsAddress dst
        → words (ip_bytes (record h { ip_sum = 0; ip_src = src; ip_dst = dst })) < 16000000
    bounded src dst (address a b c d) (address e f g i) =
        omega (arith, w.version, w.words, w.ttl, w.protocol)

-- The sum field adds the number that it holds, high byte first.
words-summed :
    (h : Ip) (sum : ℕ)
    → IsIp h
    → sum < 65536
    → words (ip_bytes (summed h sum)) ≡ words (ip_bytes (record h { ip_sum = 0 })) + sum
unfolding ip_bytes le16 htons
words-summed h sum w small = added h.ip_src h.ip_dst w.src w.dst
  where
    added :
        (src dst : List ℕ)
        → IsAddress src
        → IsAddress dst
        → words (ip_bytes (record h { ip_sum = htons sum; ip_src = src; ip_dst = dst }))
          ≡ words (ip_bytes (record h { ip_sum = 0; ip_src = src; ip_dst = dst })) + sum
    added src dst (address a b c d) (address e f g i) = omega arith

pkt_checksum-words :
    (bytes : List ℕ)
    → words bytes < 2 ^ 32
    → pkt_checksum bytes 0 ≡ 65535 - fold_carry (fold_carry (words bytes)) % 65536
unfolding pkt_checksum
pkt_checksum-words bytes small =
    let same : sum_words bytes 0 ≡ words bytes =
      sum_words-words bytes 0 (omega arith) ∙ omega arith in
    rw same refl

summed-checksum :
    (h : Ip)
    → IsIp h
    → pkt_checksum (ip_bytes (summed h (pkt_checksum (ip_bytes (record h { ip_sum = 0 })) 0))) 0 ≡ 0
summed-checksum h w =
    let s = words (ip_bytes (record h { ip_sum = 0 })) in
    let low = words-le h w in
    let made = pkt_checksum-words (ip_bytes (record h { ip_sum = 0 })) (omega arith) in
    let sum = pkt_checksum (ip_bytes (record h { ip_sum = 0 })) 0 in
    let small : sum < 65536 = omega arith in
    let total = words-summed h sum w small in
    pkt_checksum-words (ip_bytes (summed h sum)) (omega arith)
    ∙ rw (total, made) (completes s (omega arith))

-- In every round the IPv4 header of either direction, whose fields fit their widths, gets a checksum
-- with which pkt_checksum of the whole header is 0, so that a receiver accepts it.
pub fill_headers-checksum :
    (h : Headers) (behind : List ℕ) (p : Packet)
    → IsIp h.iph
    → pkt_checksum (ip_bytes (fill_headers h behind p).iph) 0 ≡ 0
unfolding fill_headers
fill_headers-checksum h behind p w =
    summed-checksum (record h.iph { ip_len = htons ((36 + p.caplen) % 65536) })
      (record {
        version = w.version;
        words = w.words;
        ttl = w.ttl;
        protocol = w.protocol;
        src = w.src;
        dst = w.dst;
      })
