-- ===== src/Net/Stack/Exchange.antt =====
-- Two stacks of net/mod.rs on one wire.
use chod_os.Base.{
  ℕ, ◌+◌, ◌^◌, ◌<◌, ◌≤◌, ◌≡◌, refl, ap, ◌∙◌, Bool, none, some, List, [], ◌∷◌, ◌++◌, arith, length,
  leb,
}
use mathlib.Core.List.{append_assoc}
use chod_os.Base.Words.{u16}
use chod_os.Net.Bytes.{Mac, Ip, same_ip_refl}
use chod_os.Net.Arp.{ArpTable, lookup}
use chod_os.Net.Arp
use chod_os.Net.Arp.Frames.{parse-build}
use chod_os.Net.Ipv4.{
  parse_header-build_header, drop-build_header, build_header, proto_udp, ethertype_ipv4,
}
use chod_os.Net.Udp.{udp_parse-build}
use chod_os.Net.Udp
use chod_os.Net.Stack.{
  NetworkStack, udp, Round, net_hdr_len, rx_buf_size, arp_resolve, resolve_loop, parse_frame,
  parse_arp, parse_ipv4, send_udp, send_frame, udp_send, ethernet,
}

parse_arp-request :
    (a b : NetworkStack)
    → parse_arp b (Arp.build_request a.mac a.ip b.ip)
      ≡ record b { sent = Arp.build_reply b.mac b.ip a.mac a.ip ∷ b.sent }
unfolding parse_arp
parse_arp-request a b =
    rw ((parse-build a.mac b.mac a.ip b.ip).0, same_ip_refl b.ip, parse_arp) refl

-- A stack asked for its address by another answers with one reply and raises no packet; the asking
-- stack, which did not know the address, sends one request and on that reply returns the hardware
-- address of the other, remembers it, and waits no longer.
pub arp_exchange :
    (a b : NetworkStack) (now later : ℕ)
    → lookup a.arp_cache b.ip ≡ none
    → let request = Arp.build_request a.mac a.ip b.ip in
      let reply = Arp.build_reply b.mac b.ip a.mac a.ip in
      (parse_frame b request ≡ (none, record b { sent = reply ∷ b.sent }))
      × (arp_resolve a b.ip now (record { frame = some reply; now = later } ∷ [])
          ≡ some (
            some b.mac,
            record a { sent = request ∷ a.sent; arp_cache = Arp.insert a.arp_cache b.ip b.mac },
            [],
          ))
unfolding parse_frame arp_resolve resolve_loop Arp.build_request Arp.build_frame
arp_exchange a b now later absent = (
  ap (λ (s : NetworkStack). (none, s)) (parse_arp-request a b),
  rw (absent, (parse-build b.mac a.mac b.ip a.ip).1, same_ip_refl b.ip, arp_resolve, resolve_loop)
      refl,
)

parse_ipv4-udp :
    (src dst : Ip) (total_len id src_port dst_port : ℕ) (bytes padding : List ℕ)
    → src_port < 2 ^ 16
    → dst_port < 2 ^ 16
    → length bytes ≤ 65527
    → parse_ipv4 (
        build_header proto_udp src dst total_len id
        ++ (Udp.build src_port dst_port bytes ++ padding))
      ≡ some (udp src src_port dst_port bytes)
unfolding parse_ipv4
parse_ipv4-udp src dst total_len id src_port dst_port bytes padding p q short =
    let packet = Udp.build src_port dst_port bytes ++ padding in
    rw
      (
        parse_header-build_header proto_udp src dst total_len id packet,
        drop-build_header proto_udp src dst total_len id packet,
        udp_parse-build src_port dst_port bytes padding p q short,
        parse_ipv4,
      )
      refl

parse_frame-ipv4 :
    (s : NetworkStack) (dst src : Mac) (body : List ℕ)
    → parse_frame s (ethernet dst src ethertype_ipv4 body) ≡ (parse_ipv4 body, s)
unfolding parse_frame
parse_frame-ipv4 s dst src body = ground arith

-- The frame of a datagram.
abbrev pub udp_frame : NetworkStack → Mac → Ip → ℕ → ℕ → List ℕ → List ℕ
udp_frame s dst_mac dst dst_port src_port bytes =
    let udp_seg = Udp.build src_port dst_port bytes in
    ethernet dst_mac s.mac ethertype_ipv4
      (build_header proto_udp s.ip dst (u16 (20 + u16 (length udp_seg))) s.ip_id ++ udp_seg)

length-udp_frame :
    (s : NetworkStack) (dst_mac : Mac) (dst : Ip) (dst_port src_port : ℕ) (bytes : List ℕ)
    → length (udp_frame s dst_mac dst dst_port src_port bytes) ≡ length bytes + 42
unfolding build_header Udp.build
length-udp_frame s dst_mac dst dst_port src_port bytes = omega arith

-- A sender whose cache has the address puts the one frame of a datagram of at most 65507 bytes on the wire
-- and reports what the card answers. A receiver whose card hands it this frame, with any padding behind
-- it, raises the sender's address, both ports and the bytes, and changes nothing else. The receive buffer
-- of a card has room for the frame and its header just if the datagram has at most 1472 bytes.
pub udp_send-parse_frame :
    (accepts : List (List ℕ) → Bool) (a b : NetworkStack) (dst_mac : Mac) (dst : Ip)
    (dst_port src_port : ℕ) (bytes padding : List ℕ) (now : ℕ) (rounds : List Round)
    → lookup a.arp_cache dst ≡ some dst_mac
    → src_port < 2 ^ 16
    → dst_port < 2 ^ 16
    → length bytes ≤ 65507
    → let frame = udp_frame a dst_mac dst dst_port src_port bytes in
      (udp_send accepts a dst dst_port src_port bytes now rounds
        ≡ some (
          accepts (frame ∷ a.sent),
          record a { sent = frame ∷ a.sent; ip_id = u16 (a.ip_id + 1) },
        ))
      × (parse_frame b (frame ++ padding) ≡ (some (udp a.ip src_port dst_port bytes), b))
      × (leb (net_hdr_len + length frame) rx_buf_size ≡ leb (length bytes) 1472)
unfolding udp_send send_udp send_frame arp_resolve
udp_send-parse_frame accepts a b dst_mac dst dst_port src_port bytes padding now rounds known p q
      short =
    let udp_seg = Udp.build src_port dst_port bytes in
    let ip_hdr = build_header proto_udp a.ip dst (u16 (20 + u16 (length udp_seg))) a.ip_id in
    (
      rw (known, udp_send, arp_resolve) refl,
      parse_frame-ipv4 b dst_mac a.mac ((ip_hdr ++ udp_seg) ++ padding)
          ∙ ap (λ packet. (packet, b))
              (ap parse_ipv4 (append_assoc ip_hdr udp_seg padding)
                ∙ parse_ipv4-udp a.ip dst _ a.ip_id src_port dst_port bytes padding p q
                    (omega (arith, short))),
      ground (arith, length-udp_frame a dst_mac dst dst_port src_port bytes),
    )
