-- ===== src/Vxlan/Alias.antt =====
-- The MACs that pcap2vxlan/pcap2vxlan.c reads from its configuration.
use zeek_snippets.Prelude.{
  ℕ, ◌%◌, ◌^◌, ◌≡◌, ◌≢◌, ◌⊎◌, inl, inr, refl, ap, subst, Bool, true, false, List, [], ◌∷◌, Option,
  none, some, if◌then◌else◌,
}
use zeek_snippets.Run.{Run, Fault, ok, fault, out_of_fuel, aborted, ◌>>=◌}
use zeek_snippets.Vxlan.{SysConf, pointer_bytes, new_headers, new_tunnel}
use zeek_snippets.Vxlan.Conf.{
  Scanned, strip, skipped, empty_conf, parse_element, row_vni, row_port, row_dst_ip, row_src_ip,
  row_dst_mac, row_src_mac, parse_rows, parse_conf, outer_src_mac, outer_dst_mac, outer_src_ip,
  outer_dst_ip, vxlan_port, vxlan_vni,
}

-- Whatever the run ends with satisfies `P`, if it ends with a value.
data Partly (P : SysConf → Type 0) : Run SysConf → Type 0 where
  done : {conf : SysConf} → P conf → Partly P (ok conf)
  failed : {f : Fault} → Partly P (fault f)
  stuck : Partly P out_of_fuel

module _ {P : SysConf → Type 0} where
  Partly-bind {ℓ} :
      {A : Type ℓ} {next : A → Run SysConf} (m : Run A)
      → ((a : A) → Partly P (next a))
      → Partly P (m >>= next)
  Partly-bind (ok a) p = p a
  Partly-bind (fault f) p = failed
  Partly-bind out_of_fuel p = stuck

  Partly-inv : {m : Run SysConf} {conf : SysConf} → Partly P m → m ≡ ok conf → P conf
  Partly-inv {conf = d} (done {conf = c} p) e = let same : c ≡ d = cc in subst P same p
  Partly-inv failed e = cc
  Partly-inv stuck e = cc

module _ (scan : List ℕ → Scanned) (scan_key : List ℕ → Option (List ℕ)) (atoi : List ℕ → ℕ)
    (ether_aton : List ℕ → Option ℕ) (inet_pton : List ℕ → Option (List ℕ)) (buffer : ℕ)
    (static : (v : List ℕ) (mac : ℕ) → ether_aton v ≡ some mac → mac ≡ buffer) where
  abbrev Aliased : SysConf → Type 0
  Aliased conf =
      ((conf.src_mac ≡ 0) ⊎ (conf.src_mac ≡ buffer))
      × ((conf.dst_mac ≡ 0) ⊎ (conf.dst_mac ≡ buffer))

  -- A step for a value that may be there.
  Partly-option :
      {m : Run SysConf} {k : List ℕ → Run SysConf} (o : Option (List ℕ))
      → Partly Aliased m
      → ((x : List ℕ) → Partly Aliased (k x))
      → Partly Aliased (elim o [ none ↦ m | some x ↦ k x ])
  Partly-option none p q = p
  Partly-option (some x) p q = q x

  vni_set :
      (conf : SysConf) (o : Option (List ℕ))
      → Aliased conf
      → Partly Aliased
          (ok (elim o [ none ↦ conf | some x ↦ record conf { vxlan_vni = atoi x % 2 ^ 32 } ]))
  vni_set conf none a = done a
  vni_set conf (some x) a = done a

  -- An IP, or an assertion that fails.
  address_set :
      (set_ip : List ℕ → SysConf) (o : Option (List ℕ))
      → ((ip : List ℕ) → Aliased (set_ip ip))
      → Partly Aliased (elim o [ none ↦ fault aborted | some ip ↦ ok (set_ip ip) ])
  address_set set_ip none a = failed
  address_set set_ip (some ip) a = done (a ip)

  mac_set :
      (set_mac : ℕ → SysConf) (o : Option ℕ)
      → ((mac : ℕ) → o ≡ some mac → Aliased (set_mac mac))
      → Partly Aliased (elim o [ none ↦ fault aborted | some mac ↦ ok (set_mac mac) ])
  mac_set set_mac none a = failed
  mac_set set_mac (some mac) a = done (a mac refl)

  module _ (conf : SysConf) (row : List ℕ) (a : Aliased conf) where
    row_vni-Aliased : Partly Aliased (row_vni scan scan_key atoi ether_aton inet_pton conf row)
    unfolding row_vni
    row_vni-Aliased =
        Partly-bind (parse_element scan scan_key atoi ether_aton inet_pton row vxlan_vni)
          λ v. vni_set conf v a

    row_port-Aliased : Partly Aliased (row_port scan scan_key atoi ether_aton inet_pton conf row)
    unfolding row_port
    row_port-Aliased =
        Partly-bind (parse_element scan scan_key atoi ether_aton inet_pton row vxlan_port)
          λ v. Partly-option v row_vni-Aliased (λ x. done a)

    row_dst_ip-Aliased :
        Partly Aliased (row_dst_ip scan scan_key atoi ether_aton inet_pton conf row)
    unfolding row_dst_ip
    row_dst_ip-Aliased =
        Partly-bind (parse_element scan scan_key atoi ether_aton inet_pton row outer_dst_ip) λ v.
          Partly-option v row_port-Aliased
            (λ x. address_set (λ ip. record conf { dst_ip = ip }) (inet_pton x) (λ ip. a))

    row_src_ip-Aliased :
        Partly Aliased (row_src_ip scan scan_key atoi ether_aton inet_pton conf row)
    unfolding row_src_ip
    row_src_ip-Aliased =
        Partly-bind (parse_element scan scan_key atoi ether_aton inet_pton row outer_src_ip) λ v.
          Partly-option v row_dst_ip-Aliased
            (λ x. address_set (λ ip. record conf { src_ip = ip }) (inet_pton x) (λ ip. a))

    row_dst_mac-Aliased :
        Partly Aliased (row_dst_mac scan scan_key atoi ether_aton inet_pton conf row)
    unfolding row_dst_mac
    row_dst_mac-Aliased =
        Partly-bind (parse_element scan scan_key atoi ether_aton inet_pton row outer_dst_mac) λ v.
          Partly-option v row_src_ip-Aliased (λ x.
            mac_set (λ mac. record conf { dst_mac = mac }) (ether_aton x)
              (λ mac e. (a.0, inr (static x mac e))))

    row_src_mac-Aliased :
        Partly Aliased (row_src_mac scan scan_key atoi ether_aton inet_pton conf row)
    unfolding row_src_mac
    row_src_mac-Aliased =
        Partly-bind (parse_element scan scan_key atoi ether_aton inet_pton row outer_src_mac) λ v.
          Partly-option v row_dst_mac-Aliased (λ x.
            mac_set (λ mac. record conf { src_mac = mac }) (ether_aton x)
              (λ mac e. (inr (static x mac e), a.1)))

  skip_or_row :
      (conf : SysConf) (row : List ℕ) (test : Bool)
      → Aliased conf
      → (rest : SysConf → Run SysConf) → ((c : SysConf) → Aliased c → Partly Aliased (rest c))
      → Partly Aliased (
          (if test then ok conf else row_src_mac scan scan_key atoi ether_aton inet_pton conf row)
          >>= rest)
  skip_or_row conf row true a rest p = p conf a
  skip_or_row conf row false a rest p = then_rest (row_src_mac-Aliased conf row a)
    where
      then_rest : {m : Run SysConf} → Partly Aliased m → Partly Aliased (m >>= rest)
      then_rest (done {conf = c} b) = p c b
      then_rest failed = failed
      then_rest stuck = stuck

  parse_rows-Aliased :
      (conf : SysConf) (lines : List (List ℕ))
      → Aliased conf
      → Partly Aliased (parse_rows scan scan_key atoi ether_aton inet_pton conf lines)
  unfolding parse_rows
  parse_rows-Aliased conf [] a = done a
  parse_rows-Aliased conf (line ∷ lines) a = Partly-bind (strip line) λ row.
      skip_or_row conf row (skipped row) a
        (λ c. parse_rows scan scan_key atoi ether_aton inet_pton c lines)
        (λ c b. parse_rows-Aliased c lines b)

  -- Where ether_aton always returns the address of one buffer, every configuration that is read with
  -- both MACs set, whatever they are, gives the outer Ethernet headers of both directions the same
  -- source and destination address: the first six bytes of that address.
  pub parse_conf-alias :
      (lines : Option (List (List ℕ))) (conf : SysConf)
      → parse_conf scan scan_key atoi ether_aton inet_pton lines ≡ ok conf
      → conf.src_mac ≢ 0
      → conf.dst_mac ≢ 0
      → ((new_tunnel conf).out.ether.ether_shost ≡ pointer_bytes buffer)
        × ((new_tunnel conf).out.ether.ether_dhost ≡ pointer_bytes buffer)
        × ((new_tunnel conf).back.ether.ether_shost ≡ pointer_bytes buffer)
        × ((new_tunnel conf).back.ether.ether_dhost ≡ pointer_bytes buffer)
  unfolding parse_conf new_tunnel new_headers
  parse_conf-alias none conf run src dst = cc
  parse_conf-alias (some lines) conf run src dst =
      let a = Partly-inv (parse_rows-Aliased empty_conf lines (inl refl, inl refl)) run in
      let s : conf.src_mac ≡ buffer = elim a.0 [ inl null ↦ absurd (src null) | inr at ↦ at ] in
      let d : conf.dst_mac ≡ buffer = elim a.1 [ inl null ↦ absurd (dst null) | inr at ↦ at ] in
      (ap pointer_bytes s, ap pointer_bytes d, ap pointer_bytes d, ap pointer_bytes s)
