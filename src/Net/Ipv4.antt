-- ===== src/Net/Ipv4.antt =====
-- net/ipv4.rs: the 20-byte IPv4 header.
use chod_os.Base.{
  ℕ, ◌*◌, ◌/◌, ◌^◌, ◌≡◌, refl, not, Option, none, some, List, [], ◌∷◌, ◌++◌, arith, if◌then◌else◌,
  ◌==◌, ltb, bit_and, length, get_or, set, drop,
}
use chod_os.Base.Words.{u8}
use chod_os.Net.Bytes.{Ip, IsByte, IsIp, ip_bytes, ip_at, high}
use chod_os.Net.Checksum.{internet_checksum, internet_checksum_verifies}

abbrev pub proto_icmp : ℕ
proto_icmp = 1

abbrev pub proto_udp : ℕ
proto_udp = 17

abbrev pub ethertype_ipv4 : ℕ
ethertype_ipv4 = 2048

-- The header with the checksum field at zero.
abbrev blank_header : ℕ → Ip → Ip → ℕ → ℕ → List ℕ
blank_header proto src dst total_len id =
    69
    ∷ 0
    ∷ high total_len
    ∷ u8 total_len
    ∷ high id
    ∷ u8 id
    ∷ 64
    ∷ 0
    ∷ 64
    ∷ proto
    ∷ 0
    ∷ 0
    ∷ (ip_bytes src ++ ip_bytes dst)

unfoldable pub build_header : ℕ → Ip → Ip → ℕ → ℕ → List ℕ
build_header proto src dst total_len id =
    let h = blank_header proto src dst total_len id in
    let csum = internet_checksum h in set (set h 10 (high csum)) 11 (u8 csum)

unfoldable pub parse_header : List ℕ → Option (ℕ × Ip × Ip × ℕ)
parse_header bytes =
    let ihl = bit_and (get_or bytes 0 0) 15 * 4 in
    if ltb (length bytes) 20
    then none
    else (if not (get_or bytes 0 0 / 2 ^ 4 == 4)
        then none
        else (if ltb (length bytes) ihl
            then none
            else some (get_or bytes 9 0, ip_at bytes 12, ip_at bytes 16, ihl)))

-- A header in front of any payload is parsed as its protocol, its two addresses and its length of 20
-- bytes.
pub parse_header-build_header :
    (proto : ℕ) (src dst : Ip) (total_len id : ℕ) (payload : List ℕ)
    → parse_header (build_header proto src dst total_len id ++ payload) ≡ some (proto, src, dst, 20)
unfolding parse_header build_header
parse_header-build_header proto src dst total_len id payload = ground arith

pub drop-build_header :
    (proto : ℕ) (src dst : Ip) (total_len id : ℕ) (payload : List ℕ)
    → drop 20 (build_header proto src dst total_len id ++ payload) ≡ payload
unfolding build_header
drop-build_header proto src dst total_len id payload = refl

-- The header of any packet has checksum zero, so that a receiver accepts it.
pub internet_checksum-build_header :
    (proto : ℕ) (src dst : Ip) (total_len id : ℕ)
    → IsByte proto
    → IsIp src
    → IsIp dst
    → internet_checksum (build_header proto src dst total_len id) ≡ 0
unfolding build_header
internet_checksum-build_header proto src dst total_len id p s d =
    internet_checksum_verifies
      (69 ∷ 0 ∷ high total_len ∷ u8 total_len ∷ high id ∷ u8 id ∷ 64 ∷ 0 ∷ 64 ∷ proto ∷ [])
      (ip_bytes src ++ ip_bytes dst)
      (
        omega arith,
        (
          omega arith,
          (
            omega arith,
            (
              omega arith,
              (omega arith, (omega arith, (omega arith, (omega arith, (omega arith, (p, tt)))))),
            ),
          ),
        ),
      )
      (s.0, (s.1.0, (s.1.1.0, (s.1.1.1.0, d)))) refl (omega arith)
