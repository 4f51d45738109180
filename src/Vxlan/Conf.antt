-- ===== src/Vxlan/Conf.antt =====
-- parse_element and parse_conf of pcap2vxlan/pcap2vxlan.c. What sscanf converts, atoi, inet_pton and
-- ether_aton, which returns the address of its buffer, are parameters. The configuration is the list
-- of the lines that fgets gives, each as the characters before its final NUL.
use zeek_snippets.Prelude.{
  ℕ, ◌%◌, ◌^◌, Bool, true, ◌&&◌, ◌||◌, List, [], ◌∷◌, Option, none, some, length, ltb, ◌==◌,
  if◌then◌else◌,
}
use zeek_snippets.Run.{Run, ok, fault, out_of_bounds, aborted, ◌>>=◌}
use zeek_snippets.Vxlan.{SysConf, Packet, same_octets, encapsulate}

abbrev pub outer_src_mac : List ℕ
outer_src_mac =
    b'O' ∷ b'U' ∷ b'T' ∷ b'E' ∷ b'R' ∷ b'_' ∷ b'S' ∷ b'R' ∷ b'C' ∷ b'_' ∷ b'M' ∷ b'A' ∷ b'C' ∷ []

abbrev pub outer_dst_mac : List ℕ
outer_dst_mac =
    b'O' ∷ b'U' ∷ b'T' ∷ b'E' ∷ b'R' ∷ b'_' ∷ b'D' ∷ b'S' ∷ b'T' ∷ b'_' ∷ b'M' ∷ b'A' ∷ b'C' ∷ []

abbrev pub outer_src_ip : List ℕ
outer_src_ip =
    b'O' ∷ b'U' ∷ b'T' ∷ b'E' ∷ b'R' ∷ b'_' ∷ b'S' ∷ b'R' ∷ b'C' ∷ b'_' ∷ b'I' ∷ b'P' ∷ []

abbrev pub outer_dst_ip : List ℕ
outer_dst_ip =
    b'O' ∷ b'U' ∷ b'T' ∷ b'E' ∷ b'R' ∷ b'_' ∷ b'D' ∷ b'S' ∷ b'T' ∷ b'_' ∷ b'I' ∷ b'P' ∷ []

abbrev pub vxlan_port : List ℕ
vxlan_port = b'V' ∷ b'X' ∷ b'L' ∷ b'A' ∷ b'N' ∷ b'_' ∷ b'P' ∷ b'O' ∷ b'R' ∷ b'T' ∷ []

abbrev pub vxlan_vni : List ℕ
vxlan_vni = b'V' ∷ b'X' ∷ b'L' ∷ b'A' ∷ b'N' ∷ b'_' ∷ b'V' ∷ b'N' ∷ b'I' ∷ []

-- The words that sscanf converts by "%s = %s".
pub data Scanned : Type 0 where
  no_word : Scanned
  one_word : List ℕ → Scanned
  two_words : List ℕ → List ℕ → Scanned

-- A word with its NUL fits `key` or `value`, which have CONF_SIZE cells.
unfoldable pub fits : List ℕ → Bool
fits word = ltb (length word) 1024

-- The line less its newline; a line of no character is written before its start.
unfoldable pub chop : List ℕ → List ℕ
chop [] = []
chop (c ∷ []) = if c == 10 then [] else c ∷ []
chop (c ∷ d ∷ cs) = c ∷ chop (d ∷ cs)

unfoldable pub strip : List ℕ → Run (List ℕ)
strip [] = fault out_of_bounds
strip (c ∷ cs) = ok (chop (c ∷ cs))

-- `row[0] == '#' || row[0] == '\0'`
unfoldable pub skipped : List ℕ → Bool
skipped [] = true
skipped (c ∷ cs) = c == b'#'

-- The conf_t that memset clears.
abbrev pub empty_conf : SysConf
empty_conf = record {
  src_mac = 0;
  dst_mac = 0;
  src_ip = 0 ∷ 0 ∷ 0 ∷ 0 ∷ [];
  dst_ip = 0 ∷ 0 ∷ 0 ∷ 0 ∷ [];
  vxlan_port = 0;
  vxlan_vni = 0;
}

module _ (scan : List ℕ → Scanned) (scan_key : List ℕ → Option (List ℕ)) (atoi : List ℕ → ℕ)
    (ether_aton : List ℕ → Option ℕ) (inet_pton : List ℕ → Option (List ℕ)) where
  -- The conversion by "%s =", with an empty value.
  unfoldable pub key_only : List ℕ → Run (Option (List ℕ × List ℕ))
  key_only buf = elim (scan_key buf) [
    | none ↦ ok none
    | some k ↦ if fits k then ok (some (k, [])) else fault out_of_bounds
  ]

  unfoldable pub split : List ℕ → Run (Option (List ℕ × List ℕ))
  split buf = elim (scan buf) [
    | no_word ↦ key_only buf
    | one_word k ↦ if fits k then key_only buf else fault out_of_bounds
    | two_words k v ↦ if fits k && fits v then ok (some (k, v)) else fault out_of_bounds
  ]

  -- parse_element: the value, where the line has the key.
  unfoldable pub parse_element : List ℕ → List ℕ → Run (Option (List ℕ))
  parse_element buf find_key = do
    kv ← split buf
    ok (elim kv [ none ↦ none | some (k, v) ↦ if same_octets find_key k then some v else none ])

  unfoldable pub row_vni : SysConf → List ℕ → Run SysConf
  row_vni conf row = do
    v ← parse_element row vxlan_vni
    ok (elim v [ none ↦ conf | some x ↦ record conf { vxlan_vni = atoi x % 2 ^ 32 } ])

  unfoldable pub row_port : SysConf → List ℕ → Run SysConf
  row_port conf row = do
    v ← parse_element row vxlan_port
    elim v [ none ↦ row_vni conf row | some x ↦ ok (record conf { vxlan_port = atoi x % 2 ^ 32 }) ]

  unfoldable pub row_dst_ip : SysConf → List ℕ → Run SysConf
  row_dst_ip conf row = do
    v ← parse_element row outer_dst_ip
    elim v [
      | none ↦ row_port conf row
      | some x ↦ elim (inet_pton x) [
        | none ↦ fault aborted
        | some ip ↦ ok (record conf { dst_ip = ip })
      ]
    ]

  unfoldable pub row_src_ip : SysConf → List ℕ → Run SysConf
  row_src_ip conf row = do
    v ← parse_element row outer_src_ip
    elim v [
      | none ↦ row_dst_ip conf row
      | some x ↦ elim (inet_pton x) [
        | none ↦ fault aborted
        | some ip ↦ ok (record conf { src_ip = ip })
      ]
    ]

  unfoldable pub row_dst_mac : SysConf → List ℕ → Run SysConf
  row_dst_mac conf row = do
    v ← parse_element row outer_dst_mac
    elim v [
      | none ↦ row_src_ip conf row
      | some x ↦ elim (ether_aton x) [
        | none ↦ fault aborted
        | some mac ↦ ok (record conf { dst_mac = mac })
      ]
    ]

  unfoldable pub row_src_mac : SysConf → List ℕ → Run SysConf
  row_src_mac conf row = do
    v ← parse_element row outer_src_mac
    elim v [
      | none ↦ row_dst_mac conf row
      | some x ↦ elim (ether_aton x) [
        | none ↦ fault aborted
        | some mac ↦ ok (record conf { src_mac = mac })
      ]
    ]

  unfoldable pub parse_rows : SysConf → List (List ℕ) → Run SysConf
  parse_rows conf [] = ok conf
  parse_rows conf (line ∷ lines) = do
    row ← strip line
    conf' ← (if skipped row then ok conf else row_src_mac conf row)
    parse_rows conf' lines

  -- parse_conf, with `none` for a file that does not open, where the assertion of main fails.
  unfoldable pub parse_conf : Option (List (List ℕ)) → Run SysConf
  parse_conf none = fault aborted
  parse_conf (some lines) = parse_rows empty_conf lines

  -- main, from the configuration and the capture to the output file; ether_ntoa reads the null
  -- pointer where a MAC is not set.
  unfoldable pub main : (ℕ → List ℕ) → Option (List (List ℕ)) → List Packet → Run (List ℕ)
  main stack lines packets = do
    conf ← parse_conf lines
    if conf.src_mac == 0 || conf.dst_mac == 0
        then fault out_of_bounds
        else encapsulate stack conf packets
