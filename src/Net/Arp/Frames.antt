-- ===== src/Net/Arp/Frames.antt =====
-- What net/arp.rs builds is what it parses.
use chod_os.Base.{ℕ, ◌<◌, ◌^◌, ◌≡◌, ap, some, arith}
use chod_os.Net.Bytes.{Mac, Ip, join-split}
use chod_os.Net.Arp.{parse, build_frame, build_request, build_reply, all_bytes}

parse-build_frame :
    (dst_mac src_mac : Mac) (op : ℕ) (sender_mac : Mac) (sender_ip : Ip) (target_mac : Mac)
    (target_ip : Ip)
    → op < 2 ^ 16
    → parse (build_frame dst_mac src_mac op sender_mac sender_ip target_mac target_ip)
      ≡ some (record {
        op = op;
        sender_mac = sender_mac;
        sender_ip = sender_ip;
        target_mac = target_mac;
        target_ip = target_ip;
      })
unfolding parse build_frame
parse-build_frame dst_mac src_mac op sender_mac sender_ip target_mac target_ip h =
    ap
      (λ n. some (record {
        op = n;
        sender_mac = sender_mac;
        sender_ip = sender_ip;
        target_mac = target_mac;
        target_ip = target_ip;
      }))
      (join-split op h)

-- A request is parsed as operation 1 with the sender's two addresses and the address in question, a
-- reply as operation 2 with the addresses of both sides, whatever the addresses are.
pub parse-build :
    (src_mac dst_mac : Mac) (src_ip dst_ip : Ip)
    → (parse (build_request src_mac src_ip dst_ip)
        ≡ some (record {
          op = 1;
          sender_mac = src_mac;
          sender_ip = src_ip;
          target_mac = all_bytes 0;
          target_ip = dst_ip;
        }))
      × (parse (build_reply src_mac src_ip dst_mac dst_ip)
          ≡ some (record {
            op = 2;
            sender_mac = src_mac;
            sender_ip = src_ip;
            target_mac = dst_mac;
            target_ip = dst_ip;
          }))
unfolding build_request build_reply
parse-build src_mac dst_mac src_ip dst_ip = (
  parse-build_frame (all_bytes 255) src_mac 1 src_mac src_ip (all_bytes 0) dst_ip (omega arith),
  parse-build_frame dst_mac src_mac 2 src_mac src_ip dst_mac dst_ip (omega arith),
)
