-- ===== src/Net/Tests.antt =====
-- Two hosts, 10.0.2.15 and 10.0.2.2, with the ports 4660 and 53 and three bytes of data.
use chod_os.Base.{
  ◌+◌, ◌≡◌, ◌⊎◌, none, Option, List, ℕ, refl, true, some, [], ◌∷◌, ◌++◌, arith, leb, length,
}
use chod_os.Base.Words.{u16}
use chod_os.Net.Bytes.{Mac, Ip}
use chod_os.Net.Checksum.{internet_checksum, word_sum, fold}
use chod_os.Net.Arp.{insert, lookup, lookup_in, all_bytes, new, update_in}
use chod_os.Net.Arp
use chod_os.Net.Stack.{
  NetworkStack, Round, arp_resolve, parse_frame, udp_send, udp, ping, net_hdr_len, rx_buf_size,
}
use chod_os.Net.Stack
use chod_os.Net.Stack.Deadline.{ping_ends}
use chod_os.Net.Stack.Exchange.{udp_send-parse_frame, udp_frame}

abbrev host : Ip
host = record { i0 = 10; i1 = 0; i2 = 2; i3 = 15 }

abbrev gateway : Ip
gateway = record { i0 = 10; i1 = 0; i2 = 2; i3 = 2 }

abbrev host_mac : Mac
host_mac = record { m0 = 82; m1 = 84; m2 = 0; m3 = 18; m4 = 52; m5 = 86 }

abbrev gateway_mac : Mac
gateway_mac = record { m0 = 82; m1 = 85; m2 = 10; m3 = 0; m4 = 2; m5 = 2 }

abbrev a : NetworkStack
a = Stack.new host_mac host

abbrev b : NetworkStack
b = Stack.new gateway_mac gateway

-- The example of RFC 1071.
checksum_of_rfc : internet_checksum (0 ∷ 1 ∷ 242 ∷ 3 ∷ 244 ∷ 245 ∷ 246 ∷ 247 ∷ []) ≡ 8717
unfolding internet_checksum word_sum fold
checksum_of_rfc = refl

abbrev knows : NetworkStack
knows = record a { arp_cache = insert new gateway gateway_mac }

udp_send-parse_frame_example :
    (udp_send (λ sent. true) knows gateway 53 4660 (1 ∷ 2 ∷ 3 ∷ []) 100 []
      ≡ some (
        true,
        record knows {
          sent = udp_frame knows gateway_mac gateway 53 4660 (1 ∷ 2 ∷ 3 ∷ []) ∷ [];
          ip_id = 2;
        },
      ))
    × (parse_frame b (udp_frame knows gateway_mac gateway 53 4660 (1 ∷ 2 ∷ 3 ∷ []) ++ (0 ∷ []))
        ≡ (some (udp host 4660 53 (1 ∷ 2 ∷ 3 ∷ [])), b))
    × (leb
          (net_hdr_len + length (udp_frame knows gateway_mac gateway 53 4660 (1 ∷ 2 ∷ 3 ∷ [])))
          rx_buf_size
        ≡ true)
unfolding Stack.new insert update_in lookup lookup_in Arp.new
udp_send-parse_frame_example =
    udp_send-parse_frame (λ sent. true) knows b gateway_mac gateway 53 4660 (1 ∷ 2 ∷ 3 ∷ [])
      (0 ∷ []) 100 [] refl (omega arith) (omega arith) (omega arith)

-- Two quiet rounds, one for each wait.
abbrev quiet : ℕ → List Round
quiet now = record { frame = none; now = now } ∷ []

ping_ends_example :
    (answer : Option ℕ) × (s' : NetworkStack) × (ping a gateway 100 119 (quiet 119 ++ quiet 138)
      ≡ some (answer, s'))
    × ((answer ≡ none) ⊎ ((answer ≡ some a.icmp_seq) × (s'.icmp_seq ≡ u16 (a.icmp_seq + 1))))
ping_ends_example = ping_ends a gateway 100 119 (quiet 119) (quiet 138) refl refl
