-- ===== src/Net/Udp.antt =====
-- net/udp.rs: datagrams.
use chod_os.Base.{
  ℕ, ◌+◌, ◌-◌, ◌^◌, ◌<◌, ◌≤◌, ◌≡◌, refl, ap, Option, none, some, List, [], ◌∷◌, ◌++◌, arith,
  if◌then◌else◌, ltb, length, length-append, drop, take,
}
use chod_os.Base.Words.{u8, u16}
use chod_os.Net.Bytes.{high, word_at, join-split}

unfoldable pub build : ℕ → ℕ → List ℕ → List ℕ
build src_port dst_port payload =
    let len = u16 (8 + length payload) in
    high src_port ∷ u8 src_port ∷ high dst_port ∷ u8 dst_port ∷ high len ∷ u8 len ∷ 0 ∷ 0 ∷ payload

unfoldable pub parse : List ℕ → Option (ℕ × ℕ × List ℕ)
parse bytes =
    let src = word_at bytes 0 in
    let dst = word_at bytes 2 in
    let len = word_at bytes 4 in
    let plen = len - 8 in
    if ltb (length bytes) 8
    then none
    else (if ltb len 8
        then none
        else (if ltb (length bytes) (8 + plen)
            then none
            else some (src, dst, take plen (drop 8 bytes))))

take-append : (xs ys : List ℕ) → take (length xs) (xs ++ ys) ≡ xs
take-append [] ys = refl
take-append (x ∷ xs) ys = ap (λ zs. x ∷ zs) (take-append xs ys)

-- A datagram with a payload of at most 65527 bytes is parsed as its ports and its payload, whatever
-- padding stands behind it in the frame.
pub udp_parse-build :
    (src_port dst_port : ℕ) (payload padding : List ℕ)
    → src_port < 2 ^ 16
    → dst_port < 2 ^ 16
    → length payload ≤ 65527
    → parse (build src_port dst_port payload ++ padding) ≡ some (src_port, dst_port, payload)
unfolding parse build
udp_parse-build src_port dst_port payload padding p q short = ground (
  arith,
  short,
  join-split src_port p,
  join-split dst_port q,
  join-split (8 + length payload) (omega (arith, short)),
  length-append payload padding,
  take-append payload padding,
  ap (λ n. take n (payload ++ padding)) {x = 8 + length payload - 8} {y = length payload}
      (omega arith),
)
