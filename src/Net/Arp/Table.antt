-- ===== src/Net/Arp/Table.antt =====
-- The table of net/arp.rs as a map of at most 16 addresses that forgets its oldest entry.
use chod_os.Base.{
  ℕ, zero, suc, ◌+◌, ◌<◌, ◌≤◌, ◌≡◌, refl, sym, ap, ◌∙◌, Bool, true, false, not, ◌&&◌, none, some,
  List, [], ◌∷◌, ◌++◌, arith, if◌then◌else◌, ltb, length, length-append, length-set, set, get_or,
  Bool-cases, ◌⊎◌, inl, inr, subst,
}
use chod_os.Net.Bytes.{Mac, Ip, same_ip, same_ip_refl, same_ip_cases}
use chod_os.Net.Arp.{
  ArpTable, lookup_in, lookup, update_in, rotate_left, insert, table_size, no_entry, new,
}

-- No address stands twice among the first `n` entries.
pub Distinct : ℕ → List (Ip × Mac) → Type 0
Distinct zero es = Unit
Distinct (suc n) [] = Unit
Distinct (suc n) ((key, mac) ∷ es) = (lookup_in n es key ≡ none) × Distinct n es

pub record IsValid (t : ArpTable) : Type 0 where
  pub whole : length t.entries ≡ table_size
  pub within : t.len ≤ table_size
  pub distinct : Distinct t.len t.entries

clash : false ≡ true → ⊥
clash e = ground (arith, e)

-- What an update has done where it finds the address.
record Updated (n : ℕ) (es : List (Ip × Mac)) (ip : Ip) (mac : Mac) (es' : List (Ip × Mac))
    : Type 0 where
  size : length es' ≡ length es
  looked : (q : Ip) → lookup_in n es' q ≡ (if same_ip ip q then some mac else lookup_in n es q)
  fresh : Distinct n es → Distinct n es'
  known : (q : Ip) → lookup_in n es q ≡ none → lookup_in n es' q ≡ none
  present : (old : Mac) × (lookup_in n es ip ≡ some old)

update_in_cases :
    (n : ℕ) (es : List (Ip × Mac)) (ip : Ip) (mac : Mac)
    → ((update_in n es ip mac ≡ none) × (lookup_in n es ip ≡ none))
      ⊎ ((es' : List (Ip × Mac)) × (update_in n es ip mac ≡ some es') × Updated n es ip mac es')
unfolding update_in lookup_in Distinct
update_in_cases zero es ip mac = inl (refl, refl)
update_in_cases (suc n) [] ip mac = inl (refl, refl)
update_in_cases (suc n) ((key, old) ∷ es) ip mac = elim (same_ip_cases key ip) [
  | inl same ↦ inr (
    (key, mac) ∷ es,
    ground (arith, same_ip_refl key, ap (same_ip key) same),
    record {
      size = refl;
      looked = λ q. ground (arith, ap (λ k. same_ip k q) same);
      fresh = λ d. d;
      known = λ q e. ground (arith, e);
      present = (old, ground (arith, same_ip_refl key, ap (same_ip key) same));
    },
  )
  | inr other ↦ elim (update_in_cases n es ip mac) [
    | inl (e, absent) ↦ inl (rw (other, e, update_in) refl, rw (other, lookup_in) absent)
    | inr (es', e, u) ↦ inr (
      (key, old) ∷ es',
      rw (other, e, update_in) refl,
      record {
        size = ap suc u.size;
        looked = λ q. elim (Bool-cases (same_ip key q)) [
          | inl hit ↦ elim (same_ip_cases ip q) [
            | inl both ↦ absurd (clash (sym other ∙ ap (same_ip key) both ∙ hit))
            | inr apart ↦ rw (hit, apart, lookup_in) refl
          ]
          | inr miss ↦ rw (miss, lookup_in) (u.looked q)
        ];
        fresh = λ d. (u.known key d.0, u.fresh d.1);
        known = λ q e'. ground (arith, u.known q, e');
        present = (u.present.0, rw (other, lookup_in) u.present.1);
      },
    )
  ]
]

lookup_in-append :
    (n : ℕ) (es fs : List (Ip × Mac)) (q : Ip)
    → n ≤ length es
    → lookup_in n (es ++ fs) q ≡ lookup_in n es q
unfolding lookup_in
lookup_in-append zero es fs q h = refl
lookup_in-append (suc n) [] fs q h = absurd (omega arith)
lookup_in-append (suc n) ((key, mac) ∷ es) fs q h = ground (arith, lookup_in-append n es fs q)

Distinct-append :
    (n : ℕ) (es fs : List (Ip × Mac)) → n ≤ length es → Distinct n es → Distinct n (es ++ fs)
unfolding Distinct
Distinct-append zero es fs h d = tt
Distinct-append (suc n) [] fs h d = absurd (omega arith)
Distinct-append (suc n) ((key, mac) ∷ es) fs h (fresh, d) =
    (lookup_in-append n es fs key (omega arith) ∙ fresh, Distinct-append n es fs (omega arith) d)

-- A write behind the first `n` entries.
record Stored (n : ℕ) (es : List (Ip × Mac)) (ip : Ip) (mac : Mac) : Type 0 where
  looked :
      (q : Ip)
      → lookup_in (suc n) (set es n (ip, mac)) q
        ≡ (if same_ip ip q then some mac else lookup_in n es q)
  fresh : Distinct (suc n) (set es n (ip, mac))

set-Stored :
    (n : ℕ) (es : List (Ip × Mac)) (ip : Ip) (mac : Mac)
    → n < length es
    → lookup_in n es ip ≡ none
    → Distinct n es
    → Stored n es ip mac
unfolding lookup_in Distinct
set-Stored n [] ip mac h absent d = absurd (omega arith)
set-Stored zero ((key, old) ∷ es) ip mac h absent d = record {
  looked = λ q. refl;
  fresh = (refl, tt);
}
set-Stored (suc n) ((key, old) ∷ es) ip mac h absent (fresh, d) = elim (same_ip_cases key ip) [
  | inl same ↦
      let hit : same_ip key ip ≡ true = ap (λ k. same_ip k ip) same ∙ same_ip_refl ip in
      absurd (ground (arith, absent, hit))
  | inr other ↦
      let s = set-Stored n es ip mac (omega arith) (ground (arith, absent, other)) d in
      record {
        looked = λ q. elim (same_ip_cases ip q) [
          | inl both ↦
              let apart : same_ip key q ≡ false = sym (ap (same_ip key) both) ∙ other in
              rw (apart, lookup_in) (s.looked q)
          | inr apart ↦ ground (arith, apart, s.looked q)
        ];
        fresh = (s.looked key ∙ rw (turn other) fresh, s.fresh);
      }
]
  where
    turn : same_ip key ip ≡ false → same_ip ip key ≡ false
    turn other = elim (same_ip_cases ip key) [
      | inl both ↦ absurd (clash (sym other ∙ ap (λ k. same_ip k ip) (sym both) ∙ same_ip_refl ip))
      | inr apart ↦ apart
    ]

-- A full table after the oldest entry has made room.
record Evicted (key : Ip) (es : List (Ip × Mac)) (ip : Ip) (mac : Mac) (es' : List (Ip × Mac))
    : Type 0 where
  size : length es' ≡ table_size
  fresh : Distinct table_size es'
  looked :
      (q : Ip)
      → lookup_in table_size es' q ≡ (
          if same_ip ip q
          then some mac
          else (if same_ip key q then none else lookup_in table_size es q))

rotate-Evicted :
    (key : Ip) (old : Mac) (es : List (Ip × Mac)) (ip : Ip) (mac : Mac)
    → length es ≡ 15
    → Distinct table_size ((key, old) ∷ es)
    → lookup_in table_size ((key, old) ∷ es) ip ≡ none
    → Evicted key ((key, old) ∷ es) ip mac (set (es ++ ((key, old) ∷ [])) 15 (ip, mac))
unfolding lookup_in Distinct
rotate-Evicted key old es ip mac size (fresh, d) absent = record {
  size = length-set rotated 15 (ip, mac) ∙ longer;
  fresh = s.fresh;
  looked = λ q.
      s.looked q
      ∙ rw (lookup_in-append 15 es ((key, old) ∷ []) q (omega arith)) (elim (same_ip_cases key q) [
        | inl same ↦
            let hit : same_ip key q ≡ true = ap (λ k. same_ip k q) same ∙ same_ip_refl q in
            let gone : lookup_in 15 es q ≡ none = ap (lookup_in 15 es) (sym same) ∙ fresh in
            rw (hit, gone) refl
        | inr apart ↦ rw apart refl
      ]);
}
  where
    rotated : List (Ip × Mac)
    rotated = es ++ ((key, old) ∷ [])

    longer : length (es ++ ((key, old) ∷ [])) ≡ table_size
    longer = omega (arith, length-append es ((key, old) ∷ []), size)

    s : Stored 15 (es ++ ((key, old) ∷ [])) ip mac
    s =
        set-Stored 15 (es ++ ((key, old) ∷ [])) ip mac (omega (arith, longer))
          (lookup_in-append 15 es ((key, old) ∷ []) ip (omega arith) ∙ ground (arith, absent))
          (Distinct-append 15 es ((key, old) ∷ []) (omega arith) d)

rotate_left-Evicted :
    (es : List (Ip × Mac)) (ip : Ip) (mac : Mac)
    → length es ≡ table_size
    → Distinct table_size es
    → lookup_in table_size es ip ≡ none
    → Evicted (get_or es 0 no_entry).0 es ip mac (set (rotate_left es) 15 (ip, mac))
rotate_left-Evicted [] ip mac size d absent = absurd (omega arith)
rotate_left-Evicted ((key, old) ∷ es) ip mac size d absent =
    rotate-Evicted key old es ip mac (omega arith) d absent

-- Whether storing the binding of `ip` drops the oldest entry.
abbrev pub evicts : ArpTable → Ip → Bool
evicts t ip = elim (lookup t ip) [ some mac ↦ false | none ↦ not (ltb t.len table_size) ]

abbrev pub oldest : ArpTable → Ip
oldest t = (get_or t.entries 0 no_entry).0

-- Storing a binding in a valid table keeps it valid, whole and without doubles. Afterwards the address
-- is found with its new hardware address, the oldest address is lost where the table was full and the
-- address was new, and every other address is found as before.
pub insert-lookup :
    (t : ArpTable) (ip : Ip) (mac : Mac) (q : Ip)
    → IsValid t
    → IsValid (insert t ip mac)
      × (lookup (insert t ip mac) q ≡ (
          if same_ip ip q
          then some mac
          else (if evicts t ip && same_ip (oldest t) q then none else lookup t q)))
unfolding insert lookup
insert-lookup t ip mac q v = elim (update_in_cases t.len t.entries ip mac) [
  | inr (es, e, u) ↦
      rw (e, insert)
        (
          record { whole = u.size ∙ v.whole; within = v.within; distinct = u.fresh v.distinct },
          u.looked q ∙ ground (arith, u.present.1),
        )
  | inl (e, absent) ↦ elim (Bool-cases (ltb t.len table_size)) [
    | inl room ↦
        let s = set-Stored t.len t.entries ip mac (ground (arith, v.whole)) absent v.distinct in
        let next : suc t.len ≡ t.len + 1 = omega arith in
        let es = set t.entries t.len (ip, mac) in
        rw (e, room, insert)
          (
            record {
              whole = length-set t.entries t.len (ip, mac) ∙ v.whole;
              within = ground arith;
              distinct = subst (λ n. Distinct n es) next s.fresh;
            },
            ap (λ n. lookup_in n es q) (sym next) ∙ s.looked q ∙ ground (arith, absent, room),
          )
    | inr full ↦
        let all : t.len ≡ table_size = ground (arith, v.within) in
        let s =
          rotate_left-Evicted t.entries ip mac v.whole
            (subst (λ n. Distinct n t.entries) all v.distinct)
            (ap (λ n. lookup_in n t.entries ip) (sym all) ∙ absent) in
        let es = set (rotate_left t.entries) 15 (ip, mac) in
        rw (e, full, insert)
          (
            record {
              whole = s.size;
              within = v.within;
              distinct = subst (λ n. Distinct n es) (sym all) s.fresh;
            },
            ap (λ n. lookup_in n es q) all
                ∙ s.looked q
                ∙ ground (arith, absent, full, ap (λ n. lookup_in n t.entries q) all),
          )
  ]
]

-- A new table is valid and finds nothing.
pub new-IsValid : (q : Ip) → IsValid new × (lookup new q ≡ none)
unfolding lookup_in lookup new Distinct
new-IsValid q = (record { whole = refl; within = omega arith; distinct = tt }, refl)
