-- ===== src/Nat/Stun/Bounds.antt =====
-- Reads and rounds of the parser of STUN answers: crates/hivebear-mesh/src/nat/stun.rs.
use hive_bear.Prelude.{
  ℕ, zero, suc, ◌+◌, ◌*◌, ◌/◌, ◌≤◌, ◌<◌, ◌≡◌, Bool, true, false, ◌&&◌, Option, none, some, List, [],
  ◌∷◌, arith, length, get_elem?, ltb, leb, ◌==◌, min, Bool-cases, inl, inr,
}
use hive_bear.Nat.Stun.{
  Answer, found, refused, panicked, out_of_fuel, Attempt, address, other_family, beyond, join,
  u16_at, u32_at, address_of, read_family, read_attribute, after_attempt, round, attributes,
  parse_body, check_cookie, parse_response,
}

-- An answer that is neither a panic nor a lack of fuel.
abbrev pub Ends : Answer → Type 0
Ends (found a) = Unit
Ends (refused e) = Unit
Ends panicked = ⊥
Ends out_of_fuel = ⊥

-- There is a value.
abbrev IsThere : Option ℕ → Type 0
IsThere none = ⊥
IsThere (some x) = Unit

-- A read within the buffer.
abbrev Reads : Attempt → Type 0
Reads (address a) = Unit
Reads other_family = Unit
Reads beyond = ⊥

get_elem?-IsThere : (xs : List ℕ) (i : ℕ) → i < length xs → IsThere (get_elem? xs i)
get_elem?-IsThere [] i h = absurd (omega (arith, h))
get_elem?-IsThere (x ∷ xs) zero h = tt
get_elem?-IsThere (x ∷ xs) (suc i) h = get_elem?-IsThere xs i (omega (arith, h))

join-IsThere : (base : ℕ) (a b : Option ℕ) → IsThere a → IsThere b → IsThere (join base a b)
unfolding join
join-IsThere base none b p q = p
join-IsThere base (some x) none p q = q
join-IsThere base (some x) (some y) p q = tt

u16_at-IsThere : (buf : List ℕ) (i : ℕ) → i + 1 < length buf → IsThere (u16_at buf i)
unfolding u16_at
u16_at-IsThere buf i h =
    join-IsThere 256 (get_elem? buf i) (get_elem? buf (i + 1))
      (get_elem?-IsThere buf i (omega (arith, h))) (get_elem?-IsThere buf (i + 1) h)

u32_at-IsThere : (buf : List ℕ) (i : ℕ) → i + 3 < length buf → IsThere (u32_at buf i)
unfolding u32_at
u32_at-IsThere buf i h =
    join-IsThere 65536 (u16_at buf i) (u16_at buf (i + 2)) (u16_at-IsThere buf i (omega (arith, h)))
      (u16_at-IsThere buf (i + 2) (omega (arith, h)))

address_of-Reads :
    (xored : Bool) (port ip : Option ℕ)
    → IsThere port
    → IsThere ip
    → Reads (address_of xored port ip)
unfolding address_of
address_of-Reads xored none ip p q = p
address_of-Reads xored (some port) none p q = q
address_of-Reads xored (some port) (some ip) p q = tt

read_family-Reads :
    (xored : Bool) (buf : List ℕ) (start : ℕ) (family : Option ℕ)
    → start + 7 < length buf
    → IsThere family
    → Reads (read_family xored buf start family)
unfolding read_family
read_family-Reads xored buf start none h p = p
read_family-Reads xored buf start (some family) h p = elim (Bool-cases (family == 1)) [
  | inl e ↦ rw e (
      address_of-Reads xored (u16_at buf (start + 2)) (u32_at buf (start + 4))
        (u16_at-IsThere buf (start + 2) (omega (arith, h)))
        (u32_at-IsThere buf (start + 4) (omega (arith, h))))
  | inr e ↦ rw e tt
]

read_attribute-Reads :
    (buf : List ℕ) (attr_type attr_len start : ℕ)
    → start + 7 < length buf
    → Reads (read_attribute buf attr_type attr_len start)
unfolding read_attribute
read_attribute-Reads buf attr_type attr_len start h =
    let family = get_elem?-IsThere buf (start + 1) (omega (arith, h)) in
    elim (Bool-cases (attr_type == 32 && leb 8 attr_len)) [
      | inl e ↦ rw e (read_family-Reads true buf start (get_elem? buf (start + 1)) h family)
      | inr e ↦ elim (Bool-cases (attr_type == 1 && leb 8 attr_len)) [
        | inl f ↦ rw (e, f) (read_family-Reads false buf start (get_elem? buf (start + 1)) h family)
        | inr f ↦ rw (e, f) tt
      ]
    ]

after_attempt-Ends :
    (a : Attempt) (rest : Answer) → Reads a → Ends rest → Ends (after_attempt a rest)
unfolding after_attempt
after_attempt-Ends (address a) rest p q = tt
after_attempt-Ends other_family rest p q = q
after_attempt-Ends beyond rest p q = p

round-Ends :
    (buf : List ℕ) (start : ℕ) (attr_type attr_len : Option ℕ) (later : ℕ → Answer)
    → start + 7 < length buf
    → IsThere attr_type
    → IsThere attr_len
    → ((pos : ℕ) → start ≤ pos → Ends (later pos))
    → Ends (round buf start attr_type attr_len later)
unfolding round
round-Ends buf start none attr_len later h p q k = p
round-Ends buf start (some t) none later h p q k = q
round-Ends buf start (some t) (some l) later h p q k =
    after_attempt-Ends (read_attribute buf t l start) (later (start + (l + 3) / 4 * 4))
      (read_attribute-Reads buf t l start h) (k (start + (l + 3) / 4 * 4) (omega arith))

attributes-Ends :
    (n : ℕ) (buf : List ℕ) (attrs_end pos : ℕ)
    → attrs_end + 7 < length buf
    → 1 ≤ n
    → attrs_end < pos + 4 * n
    → Ends (attributes n buf attrs_end pos)
unfolding attributes
attributes-Ends zero buf attrs_end pos h some_fuel fuel = absurd (omega (arith, some_fuel))
attributes-Ends (suc n) buf attrs_end pos h some_fuel fuel =
    elim (Bool-cases (leb (pos + 4) attrs_end)) [
      | inl e ↦
          let inside : pos + 4 ≤ attrs_end = ground (arith, e) in
          rw e (
            round-Ends buf (pos + 4) (u16_at buf pos) (u16_at buf (pos + 2))
              (attributes n buf attrs_end) (omega (arith, inside, h))
              (u16_at-IsThere buf pos (omega (arith, inside, h)))
              (u16_at-IsThere buf (pos + 2) (omega (arith, inside, h)))
              (λ next le.
                attributes-Ends n buf attrs_end next h (omega (arith, inside, fuel))
                  (omega (arith, le, fuel))))
      | inr e ↦ rw e tt
    ]

parse_body-Ends :
    (buf : List ℕ) (n : ℕ) (msg_len : Option ℕ)
    → length buf ≡ 512
    → n ≤ 504
    → IsThere msg_len
    → Ends (parse_body buf n msg_len)
unfolding parse_body
parse_body-Ends buf n none h le p = p
parse_body-Ends buf n (some msg_len) h le p =
    attributes-Ends 512 buf (min (20 + msg_len) n) 20 (omega (arith, h, le)) (omega arith)
      (omega (arith, le))

check_cookie-Ends :
    (buf : List ℕ) (n : ℕ) (cookie : Option ℕ)
    → length buf ≡ 512
    → n ≤ 504
    → IsThere cookie
    → Ends (check_cookie buf n cookie)
unfolding check_cookie
check_cookie-Ends buf n none h le p = p
check_cookie-Ends buf n (some cookie) h le p = elim (Bool-cases (cookie == 554869826)) [
  | inl e ↦
      rw e (parse_body-Ends buf n (u16_at buf 2) h le (u16_at-IsThere buf 2 (omega (arith, h))))
  | inr e ↦ rw e tt
]

-- For an answer of at most 504 bytes the parser ends with an address or an error: its reads stay within
-- the buffer of 512 bytes, whatever the bytes are, and the loop over the attributes ends.
pub parse_response-Ends :
    (buf : List ℕ) (n : ℕ) → length buf ≡ 512 → n ≤ 504 → Ends (parse_response buf n)
unfolding parse_response
parse_response-Ends buf n h le = elim (Bool-cases (ltb n 20)) [
  | inl e ↦ rw e tt
  | inr e ↦
      rw e (check_cookie-Ends buf n (u32_at buf 4) h le (u32_at-IsThere buf 4 (omega (arith, h))))
]
