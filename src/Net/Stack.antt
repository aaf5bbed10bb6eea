-- ===== src/Net/Stack.antt =====
-- net/mod.rs: the stack above the formats. The network card is a log of the frames sent and its answer
-- to each of them; what a polling loop sees is a list of rounds.
pub mod Exchange
pub mod Deadline
use chod_os.Base.{
  ℕ, zero, suc, ◌+◌, ◌<◌, ◌≡◌, Bool, true, false, not, ◌&&◌, Option, none, some, List, [], ◌∷◌,
  ◌++◌, if◌then◌else◌, ◌==◌, ltb, length, drop,
}
use chod_os.Base.Words.{u8, u16}
use chod_os.Net.Bytes.{Mac, Ip, mac_bytes, same_ip, high, word_at}
use chod_os.Net.Arp.{ArpTable, ArpPacket, ethertype_arp, lookup, build_request, build_reply}
use chod_os.Net.Arp
use chod_os.Net.Ipv4.{proto_icmp, proto_udp, ethertype_ipv4, build_header, parse_header}
use chod_os.Net.Icmp.{build_echo_request, parse_echo_reply}
use chod_os.Net.Udp

-- The buffers into which virtio/net.rs lets the card write what it receives, behind a header.
abbrev pub net_hdr_len : ℕ
net_hdr_len = 10

abbrev pub rx_buf_size : ℕ
rx_buf_size = net_hdr_len + 1514

pub data Packet : Type 0 where
  icmp_echo_reply : Ip → ℕ → ℕ → Packet
  udp : Ip → ℕ → ℕ → List ℕ → Packet

-- `sent` holds the frames given to the card, the latest first.
pub record NetworkStack : Type 0 where
  pub sent : List (List ℕ)
  pub mac : Mac
  pub ip : Ip
  pub arp_cache : ArpTable
  pub ip_id : ℕ
  pub icmp_seq : ℕ
  pub icmp_id : ℕ

-- One round of a polling loop: the frame received, if any, and the clock at its end.
pub record Round : Type 0 where
  pub frame : Option (List ℕ)
  pub now : ℕ

unfoldable pub new : Mac → Ip → NetworkStack
new mac ip = record {
  sent = [];
  mac = mac;
  ip = ip;
  arp_cache = Arp.new;
  ip_id = 1;
  icmp_seq = 0;
  icmp_id = 19797;
}

abbrev pub nic_send : NetworkStack → List ℕ → NetworkStack
nic_send s frame = record s { sent = frame ∷ s.sent }

abbrev pub learn : NetworkStack → ArpPacket → NetworkStack
learn s pkt = record s { arp_cache = Arp.insert s.arp_cache pkt.sender_ip pkt.sender_mac }

-- The answer, the stack and the rounds to come; `none` where the rounds run out before the loop ends.
pub resolve_loop :
    NetworkStack → Ip → ℕ → List Round → Option (Option Mac × NetworkStack × List Round)
resolve_loop s target_ip deadline [] = none
resolve_loop s target_ip deadline (r ∷ rs) =
    let pkt : Option ArpPacket = elim r.frame [ none ↦ none | some frame ↦ Arp.parse frame ] in
    let retry = λ (s' : NetworkStack).
      if ltb deadline r.now then some (none, s', rs) else resolve_loop s' target_ip deadline rs in
    elim pkt [
      | none ↦ retry s
      | some p ↦
          if p.op == 2
          then (if same_ip p.sender_ip target_ip
              then some (some p.sender_mac, learn s p, rs)
              else retry (learn s p))
          else retry s
    ]

-- `now` is the clock when the call sets its deadline.
unfoldable pub arp_resolve :
    NetworkStack → Ip → ℕ → List Round → Option (Option Mac × NetworkStack × List Round)
arp_resolve s target_ip now rounds = elim (lookup s.arp_cache target_ip) [
  | some mac ↦ some (some mac, s, rounds)
  | none ↦
      resolve_loop (nic_send s (build_request s.mac s.ip target_ip)) target_ip (now + 18) rounds
]

abbrev pub ethernet : Mac → Mac → ℕ → List ℕ → List ℕ
ethernet dst_mac src_mac ethertype payload =
    mac_bytes dst_mac ++ mac_bytes src_mac ++ (high ethertype ∷ u8 ethertype ∷ payload)

unfoldable pub send_frame : NetworkStack → Mac → ℕ → List ℕ → NetworkStack
send_frame s dst_mac ethertype payload = nic_send s (ethernet dst_mac s.mac ethertype payload)

unfoldable pub parse_ipv4 : List ℕ → Option Packet
parse_ipv4 ip_data = elim (parse_header ip_data) [
  | none ↦ none
  | some (proto, src_ip, dst, ihl) ↦
      let payload = drop ihl ip_data in
      let as_icmp : Option Packet = elim (parse_echo_reply payload) [
        | none ↦ none
        | some (id, seq) ↦ some (icmp_echo_reply src_ip id seq)
      ] in
      let as_udp : Option Packet = elim (Udp.parse payload) [
        | none ↦ none
        | some (src_port, dst_port, bytes) ↦ some (udp src_ip src_port dst_port bytes)
      ] in
      if proto == proto_icmp then as_icmp else (if proto == proto_udp then as_udp else none)
]

unfoldable pub parse_arp : NetworkStack → List ℕ → NetworkStack
parse_arp s frame = elim (Arp.parse frame) [
  | none ↦ s
  | some pkt ↦
      if (pkt.op == 1) && same_ip pkt.target_ip s.ip
      then nic_send s (build_reply s.mac s.ip pkt.sender_mac pkt.sender_ip)
      else (if pkt.op == 2 then learn s pkt else s)
]

unfoldable pub parse_frame : NetworkStack → List ℕ → Option Packet × NetworkStack
parse_frame s frame =
    let ethertype = word_at frame 12 in
    if ltb (length frame) 14
    then (none, s)
    else (if ethertype == ethertype_arp
        then (none, parse_arp s frame)
        else (if ethertype == ethertype_ipv4 then (parse_ipv4 (drop 14 frame), s) else (none, s)))

-- The argument is what the card has received.
unfoldable pub poll : NetworkStack → Option (List ℕ) → Option Packet × NetworkStack
poll s received = elim received [ none ↦ (none, s) | some frame ↦ parse_frame s frame ]

pub ping_loop : NetworkStack → ℕ → ℕ → List Round → Option (Option ℕ × NetworkStack)
ping_loop s seq deadline [] = none
ping_loop s seq deadline (r ∷ rs) =
    let (pkt, s') = poll s r.frame in
    let retry = if ltb deadline r.now then some (none, s') else ping_loop s' seq deadline rs in
    elim pkt [
      | none ↦ retry
      | some (icmp_echo_reply src id reply_seq) ↦
          if (id == s'.icmp_id) && (reply_seq == seq) then some (some seq, s') else retry
      | some (udp src src_port dst_port bytes) ↦ retry
    ]

-- The bytes of `MuKernel!`.
abbrev pub ping_payload : List ℕ
ping_payload = 77 ∷ 117 ∷ 75 ∷ 101 ∷ 114 ∷ 110 ∷ 101 ∷ 108 ∷ 33 ∷ []

unfoldable pub send_ping : NetworkStack → Mac → Ip → NetworkStack
send_ping s dst_mac dst =
    let icmp_msg = build_echo_request s.icmp_id s.icmp_seq ping_payload in
    let total_len = u16 (20 + u16 (length icmp_msg)) in
    let ip_hdr = build_header proto_icmp s.ip dst total_len s.ip_id in
    send_frame (record s { icmp_seq = u16 (s.icmp_seq + 1); ip_id = u16 (s.ip_id + 1) }) dst_mac
      ethertype_ipv4 (ip_hdr ++ icmp_msg)

-- `now` and `later` are the clock when the two loops set their deadlines.
unfoldable pub ping : NetworkStack → Ip → ℕ → ℕ → List Round → Option (Option ℕ × NetworkStack)
ping s dst now later rounds = elim (arp_resolve s dst now rounds) [
  | none ↦ none
  | some (none, s', rest) ↦ some (none, s')
  | some (some dst_mac, s', rest) ↦
      ping_loop (send_ping s' dst_mac dst) s'.icmp_seq (later + 18) rest
]

unfoldable pub send_udp : NetworkStack → Mac → Ip → ℕ → ℕ → List ℕ → NetworkStack
send_udp s dst_mac dst_ip dst_port src_port bytes =
    let udp_seg = Udp.build src_port dst_port bytes in
    let total_len = u16 (20 + u16 (length udp_seg)) in
    let ip_hdr = build_header proto_udp s.ip dst_ip total_len s.ip_id in
    send_frame (record s { ip_id = u16 (s.ip_id + 1) }) dst_mac ethertype_ipv4 (ip_hdr ++ udp_seg)

-- `accepts` is the card's answer to a frame after those sent before.
module _ (accepts : List (List ℕ) → Bool) where
  unfoldable pub udp_send :
      NetworkStack → Ip → ℕ → ℕ → List ℕ → ℕ → List Round → Option (Bool × NetworkStack)
  udp_send s dst_ip dst_port src_port bytes now rounds = elim (arp_resolve s dst_ip now rounds) [
    | none ↦ none
    | some (none, s', rest) ↦ some (false, s')
    | some (some dst_mac, s', rest) ↦
        let s'' = send_udp s' dst_mac dst_ip dst_port src_port bytes in some (accepts s''.sent, s'')
  ]
