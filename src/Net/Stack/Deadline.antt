-- ===== src/Net/Stack/Deadline.antt =====
-- The waits of net/mod.rs: `arp_resolve` and `ping` come to an end.
use chod_os.Base.{
  ℕ, ◌+◌, ◌≡◌, ◌⊎◌, inl, inr, refl, ap, ◌∙◌, Bool, true, false, ◌&&◌, ◌||◌, Option, none, some,
  List, [], ◌∷◌, ◌++◌, if◌then◌else◌, ◌==◌, ltb, Bool-cases, Option-cases, arith,
}
use chod_os.Base.Words.{u16}
use chod_os.Net.Bytes.{Mac, Ip, same_ip}
use chod_os.Net.Arp.{ArpPacket, lookup, build_request}
use chod_os.Net.Arp
use chod_os.Net.Stack.{
  NetworkStack, Round, icmp_echo_reply, udp, nic_send, learn, resolve_loop, arp_resolve, parse_arp,
  parse_frame, poll, ping_loop, send_ping, send_frame, ping,
}

-- Whether the clock passes the deadline at the end of one of the rounds.
abbrev pub passes : ℕ → List Round → Bool
passes deadline [] = false
passes deadline (r ∷ rs) = ltb deadline r.now || passes deadline rs

-- An answer with the rounds after it, of which `after` are not looked at.
data Resolves (s : NetworkStack) (after : List Round)
    (o : Option (Option Mac × NetworkStack × List Round)) : Type 0 where
  resolves :
      (a : Option Mac) (s' : NetworkStack) (rest : List Round)
      → o ≡ some (a, s', rest ++ after)
      → s'.icmp_seq ≡ s.icmp_seq
      → Resolves s after o

abbrev arp_of : Round → Option ArpPacket
arp_of r = elim r.frame [ none ↦ none | some frame ↦ Arp.parse frame ]

module _ (target_ip : Ip) (deadline : ℕ) (after : List Round) where
  abbrev retry : NetworkStack → Round → List Round → Option (Option Mac × NetworkStack × List Round)
  retry s r rs =
      if ltb deadline r.now
      then some (none, s, rs ++ after)
      else resolve_loop s target_ip deadline (rs ++ after)

  resolve_loop-Resolves :
      (s : NetworkStack) (rs : List Round)
      → passes deadline rs ≡ true
      → Resolves s after (resolve_loop s target_ip deadline (rs ++ after))
  unfolding resolve_loop
  resolve_loop-Resolves s [] h = absurd (ground (arith, h))
  resolve_loop-Resolves s (r ∷ rs) h =
      let again : (s' : NetworkStack)
          → s'.icmp_seq ≡ s.icmp_seq
          → Resolves s after (retry s' r rs) =
        λ s' same. elim (Bool-cases (ltb deadline r.now)) [
          | inl late ↦ rw late (resolves none s' rs refl same)
          | inr early ↦ rw early (elim (resolve_loop-Resolves s' rs (ground (arith, h, early))) [
            | resolves a s'' rest run same' ↦ resolves a s'' rest run (same' ∙ same)
          ])
        ] in
      elim (Option-cases (arp_of r)) [
        | inl e ↦ rw (e, resolve_loop) (again s refl)
        | inr (p, e) ↦ elim (Bool-cases (p.op == 2)) [
          | inr other ↦ rw (e, resolve_loop) (rw other (again s refl))
          | inl reply ↦ elim (Bool-cases (same_ip p.sender_ip target_ip)) [
            | inl mine ↦
                rw (e, resolve_loop)
                  (rw reply (rw mine (resolves (some p.sender_mac) (learn s p) rs refl refl)))
            | inr foreign ↦ rw (e, resolve_loop) (rw reply (rw foreign (again (learn s p) refl)))
          ]
        ]
      ]

arp_resolve-Resolves :
    (s : NetworkStack) (target_ip : Ip) (now : ℕ) (rounds after : List Round)
    → passes (now + 18) rounds ≡ true
    → Resolves s after (arp_resolve s target_ip now (rounds ++ after))
unfolding arp_resolve
arp_resolve-Resolves s target_ip now rounds after h =
    elim (Option-cases (lookup s.arp_cache target_ip)) [
      | inr (mac, e) ↦ rw (e, arp_resolve) (resolves (some mac) s rounds refl refl)
      | inl e ↦
          rw (e, arp_resolve)
            (elim (resolve_loop-Resolves target_ip (now + 18) after
              (nic_send s (build_request s.mac s.ip target_ip)) rounds h) [
                | resolves a s' rest run same ↦ resolves a s' rest run same
              ])
    ]

passes-append :
    (d : ℕ) (rs after : List Round) → passes d after ≡ true → passes d (rs ++ after) ≡ true
passes-append d [] after h = h
passes-append d (r ∷ rs) after h = ground (arith, passes-append d rs after h)

parse_frame_seq :
    (s : NetworkStack) (frame : List ℕ) → (parse_frame s frame).1.icmp_seq ≡ s.icmp_seq
unfolding parse_frame parse_arp
parse_frame_seq s frame = ground arith

poll_seq : (s : NetworkStack) (f : Option (List ℕ)) → (poll s f).1.icmp_seq ≡ s.icmp_seq
unfolding poll
poll_seq s none = refl
poll_seq s (some frame) = parse_frame_seq s frame

-- An answer of the wait for a reply: none, or the number that was waited for.
data Answers (s : NetworkStack) (seq : ℕ) (o : Option (Option ℕ × NetworkStack)) : Type 0 where
  answers :
      (a : Option ℕ) (s' : NetworkStack)
      → o ≡ some (a, s')
      → (a ≡ none) ⊎ (a ≡ some seq)
      → s'.icmp_seq ≡ s.icmp_seq
      → Answers s seq o

ping_loop-Answers :
    (seq deadline : ℕ) (s : NetworkStack) (rs : List Round)
    → passes deadline rs ≡ true
    → Answers s seq (ping_loop s seq deadline rs)
unfolding ping_loop
ping_loop-Answers seq deadline s [] h = absurd (ground (arith, h))
ping_loop-Answers seq deadline s (r ∷ rs) h =
    let s' = (poll s r.frame).1 in
    let same : s'.icmp_seq ≡ s.icmp_seq = poll_seq s r.frame in
    let again : Answers s seq
        (if ltb deadline r.now then some (none, s') else ping_loop s' seq deadline rs) =
      elim (Bool-cases (ltb deadline r.now)) [
        | inl late ↦ rw late (answers none s' refl (inl refl) same)
        | inr early ↦
            rw early (elim (ping_loop-Answers seq deadline s' rs (ground (arith, h, early))) [
              | answers a s'' run found same' ↦ answers a s'' run found (same' ∙ same)
            ])
      ] in
    elim (Option-cases (poll s r.frame).0) [
      | inl e ↦ rw (e, ping_loop) again
      | inr (udp src src_port dst_port bytes, e) ↦ rw (e, ping_loop) again
      | inr (icmp_echo_reply src id reply_seq, e) ↦
          elim (Bool-cases ((id == s'.icmp_id) && (reply_seq == seq))) [
            | inl mine ↦ rw (e, ping_loop) (rw mine (answers (some seq) s' refl (inr refl) same))
            | inr foreign ↦ rw (e, ping_loop) (rw foreign again)
          ]
    ]

-- A ping ends: when the clock passes the deadline of the wait for the hardware address, and then that of the
-- wait for the reply, whatever frames come in between and afterwards, it answers nothing or the number of
-- this ping; and a ping whose reply came has counted that number up, so that the next one has another.
pub ping_ends :
    (s : NetworkStack) (dst : Ip) (now later : ℕ) (rounds after : List Round)
    → passes (now + 18) rounds ≡ true
    → passes (later + 18) after ≡ true
    → (answer : Option ℕ) × (s' : NetworkStack) × (ping s dst now later (rounds ++ after)
        ≡ some (answer, s'))
      × ((answer ≡ none) ⊎ ((answer ≡ some s.icmp_seq) × (s'.icmp_seq ≡ u16 (s.icmp_seq + 1))))
unfolding ping send_ping send_frame
ping_ends s dst now later rounds after h k = elim (arp_resolve-Resolves s dst now rounds after h) [
  | resolves none s' rest run same ↦ (none, s', rw (run, ping) refl, inl refl)
  | resolves (some mac) s' rest run same ↦
      elim (ping_loop-Answers s'.icmp_seq (later + 18) (send_ping s' mac dst) (rest ++ after)
        (passes-append (later + 18) rest after k)) [
          | answers a s'' run' found counted ↦ (
            a,
            s'',
            rw (run, ping) run',
            elim found [
              | inl none_ ↦ inl none_
              | inr some_ ↦
                  inr (some_ ∙ ap (λ (n : ℕ). some n) same, counted ∙ ap (λ n. u16 (n + 1)) same)
            ],
          )
        ]
]
