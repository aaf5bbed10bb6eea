-- ===== src/Net/Icmp.antt =====
-- net/icmp.rs: echo requests and replies.
use chod_os.Base.{
  ℕ, ◌^◌, ◌<◌, ◌≤◌, ◌≡◌, refl, not, Option, none, some, List, [], ◌∷◌, arith, if◌then◌else◌, ◌==◌,
  ltb, length, get_or, set, All,
}
use chod_os.Base.Words.{u8}
use chod_os.Net.Bytes.{IsByte, high, word_at, join-split}
use chod_os.Net.Checksum.{internet_checksum, internet_checksum_verifies}

abbrev pub type_echo_reply : ℕ
type_echo_reply = 0

abbrev pub type_echo_request : ℕ
type_echo_request = 8

unfoldable pub build_echo_request : ℕ → ℕ → List ℕ → List ℕ
build_echo_request id seq payload =
    let msg : List ℕ =
      type_echo_request ∷ 0 ∷ 0 ∷ 0 ∷ high id ∷ u8 id ∷ high seq ∷ u8 seq ∷ payload in
    let csum = internet_checksum msg in set (set msg 2 (high csum)) 3 (u8 csum)

unfoldable pub parse_echo_reply : List ℕ → Option (ℕ × ℕ)
parse_echo_reply bytes =
    if ltb (length bytes) 8
    then none
    else (if not (get_or bytes 0 0 == type_echo_reply)
        then none
        else some (word_at bytes 4, word_at bytes 6))

-- An echo request of at most 65535 bytes has checksum zero; it is not taken for a reply; and the same
-- message with its type changed to that of a reply is parsed as the identifier and sequence number
-- of the request.
pub build_echo_request_lem :
    (id seq : ℕ) (payload : List ℕ)
    → id < 2 ^ 16
    → seq < 2 ^ 16
    → All IsByte payload
    → length payload ≤ 65527
    → (internet_checksum (build_echo_request id seq payload) ≡ 0)
      × (parse_echo_reply (build_echo_request id seq payload) ≡ none)
      × (parse_echo_reply (set (build_echo_request id seq payload) 0 type_echo_reply)
          ≡ some (id, seq))
unfolding build_echo_request parse_echo_reply
build_echo_request_lem id seq payload p q ok short = (
  internet_checksum_verifies (8 ∷ 0 ∷ []) (high id ∷ u8 id ∷ high seq ∷ u8 seq ∷ payload)
      (omega arith, (omega arith, tt))
      (omega arith, (omega arith, (omega arith, (omega arith, ok)))) refl (omega (arith, short)),
  ground arith,
  ground (arith, join-split id p, join-split seq q),
)
