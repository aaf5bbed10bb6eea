-- ===== src/Net/Arp.antt =====
-- net/arp.rs: ARP frames and the table of resolved addresses.
pub mod Frames
pub mod Table
use chod_os.Base.{
  ℕ, zero, suc, ◌+◌, ◌<◌, ◌≤◌, ◌≡◌, Bool, not, Option, none, some, List, [], ◌∷◌, ◌++◌,
  if◌then◌else◌, ◌==◌, ltb, length, drop, set, replicate, map,
}
use chod_os.Base.Words.{u8}
use chod_os.Net.Bytes.{Mac, Ip, mac_bytes, ip_bytes, mac_at, ip_at, same_ip, high, word_at}

abbrev pub ethertype_arp : ℕ
ethertype_arp = 2054

pub record ArpPacket : Type 0 where
  pub op : ℕ
  pub sender_mac : Mac
  pub sender_ip : Ip
  pub target_mac : Mac
  pub target_ip : Ip

unfoldable pub parse : List ℕ → Option ArpPacket
parse frame =
    let a = drop 14 frame in
    if ltb (length frame) 42
    then none
    else (if not (word_at frame 12 == ethertype_arp)
        then none
        else some (record {
          op = word_at a 6;
          sender_mac = mac_at a 8;
          sender_ip = ip_at a 14;
          target_mac = mac_at a 18;
          target_ip = ip_at a 24;
        }))

unfoldable pub build_frame : Mac → Mac → ℕ → Mac → Ip → Mac → Ip → List ℕ
build_frame dst_mac src_mac op sender_mac sender_ip target_mac target_ip =
    mac_bytes dst_mac
    ++ mac_bytes src_mac
    ++ (8 ∷ 6 ∷ [])
    ++ (0 ∷ 1 ∷ 8 ∷ 0 ∷ 6 ∷ 4 ∷ high op ∷ u8 op ∷ [])
    ++ mac_bytes sender_mac
    ++ ip_bytes sender_ip
    ++ mac_bytes target_mac
    ++ ip_bytes target_ip

abbrev pub all_bytes : ℕ → Mac
all_bytes b = record { m0 = b; m1 = b; m2 = b; m3 = b; m4 = b; m5 = b }

unfoldable pub build_request : Mac → Ip → Ip → List ℕ
build_request src_mac src_ip target_ip =
    build_frame (all_bytes 255) src_mac 1 src_mac src_ip (all_bytes 0) target_ip

unfoldable pub build_reply : Mac → Ip → Mac → Ip → List ℕ
build_reply src_mac src_ip dst_mac dst_ip =
    build_frame dst_mac src_mac 2 src_mac src_ip dst_mac dst_ip

pub record ArpTable : Type 0 where
  pub entries : List (Ip × Mac)
  pub len : ℕ

abbrev pub table_size : ℕ
table_size = 16

abbrev pub no_entry : Ip × Mac
no_entry = (record { i0 = 0; i1 = 0; i2 = 0; i3 = 0 }, all_bytes 0)

unfoldable pub new : ArpTable
new = record { entries = replicate table_size no_entry; len = 0 }

-- The search through the first `left` entries.
unfoldable pub lookup_in : ℕ → List (Ip × Mac) → Ip → Option Mac
lookup_in zero es ip = none
lookup_in (suc left) [] ip = none
lookup_in (suc left) ((key, mac) ∷ es) ip =
    let later = lookup_in left es ip in if same_ip key ip then some mac else later

unfoldable pub lookup : ArpTable → Ip → Option Mac
lookup t ip = lookup_in t.len t.entries ip

-- The new address in the entry of `ip` among the first `left`, if there is one.
unfoldable pub update_in : ℕ → List (Ip × Mac) → Ip → Mac → Option (List (Ip × Mac))
update_in zero es ip mac = none
update_in (suc left) [] ip mac = none
update_in (suc left) ((key, old) ∷ es) ip mac =
    let later = update_in left es ip mac in
    if same_ip key ip
    then some ((key, mac) ∷ es)
    else elim later [ none ↦ none | some es' ↦ some ((key, old) ∷ es') ]

-- `rotate_left(1)`
abbrev pub rotate_left : List (Ip × Mac) → List (Ip × Mac)
rotate_left [] = []
rotate_left (e ∷ es) = es ++ (e ∷ [])

unfoldable pub insert : ArpTable → Ip → Mac → ArpTable
insert t ip mac = elim (update_in t.len t.entries ip mac) [
  | some es ↦ record t { entries = es }
  | none ↦
      if ltb t.len table_size
      then record { entries = set t.entries t.len (ip, mac); len = t.len + 1 }
      else record t { entries = set (rotate_left t.entries) 15 (ip, mac) }
]
