-- ===== src/Vxlan/Frames.antt =====
-- The loop of main of pcap2vxlan/pcap2vxlan.c, against a description of the file that it writes.
use zeek_snippets.Prelude.{
  ℕ, ◌+◌, ◌%◌, ◌^◌, ◌≤◌, ◌<◌, ◌≡◌, refl, sym, ◌∙◌, List, [], ◌∷◌, ◌++◌, length, take, drop, arith,
  ◌==◌, if◌then◌else◌, Bool-cases, inl, inr,
}
use mathlib.Core.List.{append_assoc, append-nil}
use zeek_snippets.Run.{ok, ◌>>=◌}
use zeek_snippets.Vxlan.{
  SysConf, Headers, Packet, Tunnel, file_header, new_tunnel, pcap_header, fill_headers, source_of,
  same_octets, frame_header, round, rounds, encapsulate,
}
use zeek_snippets.Vxlan.Network.{End, outer, here, there, made, vxlanh, frame_header-outer}

-- The source MAC of the packet.
abbrev pub mac_of : Packet → List ℕ
mac_of p = take 6 (drop 6 p.bytes)

abbrev pub AllLong : List Packet → Type 0
AllLong [] = Unit {0}
AllLong (p ∷ ps) = (12 ≤ length p.bytes) × AllLong ps

module _ (stack : ℕ → List ℕ) (conf : SysConf) where
  -- The record of packet `n`: from the near end, if its source is that of the first packet, or back
  -- from the far end.
  abbrev pub frame : List ℕ → ℕ → Packet → List ℕ
  frame first n p =
      pcap_header p
      ++ ((if same_octets first (mac_of p)
            then outer (here conf) (there conf) conf.vxlan_port conf.vxlan_vni (stack n) p
            else outer (there conf) (here conf) conf.vxlan_port conf.vxlan_vni (stack n) p)
          ++ take p.caplen p.bytes)

  abbrev pub frames : List ℕ → ℕ → List Packet → List ℕ
  frames first n [] = []
  frames first n (p ∷ ps) = frame first n p ++ frames first (n + 1) ps

  -- The variables of main before round `n`, where `done` is written.
  record Before (first : List ℕ) (n : ℕ) (done : List ℕ) (t : Tunnel) : Type 0 where
    pub i : t.i ≡ n
    pub smac : 0 < n → t.smac ≡ first
    pub out :
        (b : List ℕ) (p : Packet)
        → fill_headers t.out b p ≡ fill_headers (made conf (here conf) (there conf)) b p
    pub back :
        (b : List ℕ) (p : Packet)
        → fill_headers t.back b p ≡ fill_headers (made conf (there conf) (here conf)) b p
    pub vni : t.vxlanh ≡ vxlanh conf
    pub file : t.file ≡ done

  -- What one round sets does not last into the next one.
  fill_headers-fill_headers :
      (h : Headers) (b b' : List ℕ) (p p' : Packet)
      → fill_headers (fill_headers h b p) b' p' ≡ fill_headers h b' p'
  unfolding fill_headers
  fill_headers-fill_headers h b b' p p' = refl

  module _ (first : List ℕ) (n : ℕ) (done : List ℕ) (t : Tunnel) (p : Packet)
      (more : n + 1 < 2 ^ 32) (long : 12 ≤ length p.bytes) (head : n ≡ 0 → mac_of p ≡ first)
      (b : Before first n done t) where
    chosen : (if t.i == 0 then mac_of p else t.smac) ≡ first
    chosen = elim (Bool-cases (t.i == 0)) [
      | inl start ↦ rw start (head (ground (arith, start, b.i)))
      | inr later ↦ rw later (b.smac (ground (arith, later, b.i)))
    ]

    written :
        (h : Headers) (src dst : End)
        → ((b' : List ℕ) (p' : Packet)
            → fill_headers h b' p' ≡ fill_headers (made conf src dst) b' p')
        → frame_header (fill_headers h (stack n) p) t.vxlanh
          ≡ outer src dst conf.vxlan_port conf.vxlan_vni (stack n) p
    written h src dst same =
        rw (same (stack n) p, b.vni) (frame_header-outer conf src dst (stack n) p)

    next : (t.i + 1) % 2 ^ 32 ≡ n + 1
    next = omega (arith, b.i)

    source : source_of p ≡ ok (mac_of p)
    unfolding source_of
    source = ground arith

    abbrev outwards : Tunnel
    outwards = record t {
      i = (t.i + 1) % 2 ^ 32;
      smac = if t.i == 0 then mac_of p else t.smac;
      out = fill_headers t.out (stack t.i) p;
      file =
          t.file
          ++ (pcap_header p
              ++ (frame_header (fill_headers t.out (stack t.i) p) t.vxlanh
                  ++ take p.caplen p.bytes));
    }

    abbrev inwards : Tunnel
    inwards = record t {
      i = (t.i + 1) % 2 ^ 32;
      smac = if t.i == 0 then mac_of p else t.smac;
      back = fill_headers t.back (stack t.i) p;
      file =
          t.file
          ++ (pcap_header p
              ++ (frame_header (fill_headers t.back (stack t.i) p) t.vxlanh
                  ++ take p.caplen p.bytes));
    }

    round-cases :
        round stack t p
        ≡ ok (
            if same_octets (if t.i == 0 then mac_of p else t.smac) (mac_of p)
            then outwards
            else inwards)
    unfolding round
    round-cases = rw (source, ◌>>=◌) refl

    round-frame :
        (t' : Tunnel) × (round stack t p ≡ ok t')
        × Before first (n + 1) (done ++ frame first n p) t'
    round-frame = elim (Bool-cases (same_octets first (mac_of p))) [
      | inl same ↦ (
        outwards,
        round-cases ∙ rw (chosen, same) refl,
        record {
          i = next;
          smac = λ pos. chosen;
          out = λ b' p'. fill_headers-fill_headers t.out (stack t.i) b' p p' ∙ b.out b' p';
          back = b.back;
          vni = b.vni;
          file = rw (b.i, b.file, written t.out (here conf) (there conf) b.out, same) refl;
        },
      )
      | inr other ↦ (
        inwards,
        round-cases ∙ rw (chosen, other) refl,
        record {
          i = next;
          smac = λ pos. chosen;
          out = b.out;
          back = λ b' p'. fill_headers-fill_headers t.back (stack t.i) b' p p' ∙ b.back b' p';
          vni = b.vni;
          file = rw (b.i, b.file, written t.back (there conf) (here conf) b.back, other) refl;
        },
      )
    ]

  rounds-frames :
      (first : List ℕ) (n : ℕ) (done : List ℕ) (t : Tunnel) (ps : List Packet)
      → n + length ps < 2 ^ 32
      → AllLong ps
      → 0 < n
      → Before first n done t
      → (t' : Tunnel) × (rounds stack t ps ≡ ok t') × (t'.file ≡ done ++ frames first n ps)
  unfolding rounds
  rounds-frames first n done t [] more long past b = (t, refl, b.file ∙ sym (append-nil done))
  rounds-frames first n done t (p ∷ ps) more long past b =
      let (t', run, b') =
        round-frame first n done t p (omega arith) long.0 (λ none_yet. absurd (omega arith)) b in
      let (t'', run', file) =
        rounds-frames first (n + 1) (done ++ frame first n p) t' ps (omega arith) long.1
          (omega arith) b' in
      (
        t'',
        rw (run, ◌>>=◌) run',
        file ∙ append_assoc done (frame first n p) (frames first (n + 1) ps),
      )

  new_tunnel-Before : (first : List ℕ) → Before first 0 file_header (new_tunnel conf)
  unfolding new_tunnel
  new_tunnel-Before first = record {
    i = refl;
    smac = λ pos. absurd (omega arith);
    out = λ b p. refl;
    back = λ b p. refl;
    vni = refl;
    file = refl;
  }

  -- For a capture of 1 to 2 ^ 32 - 2 packets, each with 12 bytes or more, main ends without a fault,
  -- and the file that it writes is the file header and then one record for each packet: the outer
  -- headers in network byte order, but for the UDP source port, which is in that of the host, with the
  -- near end as the source where the packet has the source MAC of the first packet, and with the far
  -- end as the source where it has another one, and then the bytes of the packet.
  pub encapsulate-frames :
      (p : Packet) (ps : List Packet)
      → length (p ∷ ps) + 1 < 2 ^ 32
      → AllLong (p ∷ ps)
      → encapsulate stack conf (p ∷ ps) ≡ ok (file_header ++ frames (mac_of p) 0 (p ∷ ps))
  unfolding encapsulate rounds
  encapsulate-frames p ps more long =
      let first = mac_of p in
      let (t, run, b) =
        round-frame first 0 file_header (new_tunnel conf) p (omega arith) long.0 (λ e. refl)
          (new_tunnel-Before first) in
      let (t', run', file) =
        rounds-frames first (0 + 1) (file_header ++ frame first 0 p) t ps (omega arith) long.1
          (omega arith) b in
      rw
        (
          run,
          ◌>>=◌,
          run',
          file ∙ append_assoc file_header (frame first 0 p) (frames first (0 + 1) ps),
        )
        refl
