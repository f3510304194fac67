-- ===== src/Nat/Stun/Tests.antt =====
-- The theorems on STUN answers at concrete bytes.
use hive_bear.Prelude.{ℕ, zero, suc, ◌≡◌, refl, List, [], ◌∷◌, ◌++◌, arith}
use hive_bear.Nat.Stun.{
  found, panicked, join, u16_at, u32_at, unmask, address_of, read_family, read_attribute,
  after_attempt, round, attributes, parse_body, check_cookie, parse_response,
}
use hive_bear.Nat.Stun.Bounds.{Ends, parse_response-Ends}

abbrev zeros : ℕ → List ℕ
zeros zero = []
zeros (suc n) = 0 ∷ zeros n

-- A header with the given length, up to the transaction id.
abbrev header : ℕ → ℕ → List ℕ
header high low = 1 ∷ 1 ∷ high ∷ low ∷ 33 ∷ 18 ∷ 164 ∷ 66 ∷ zeros 12

-- XOR-MAPPED-ADDRESS of 192.0.2.1, port 32853.
abbrev mapped : List ℕ
mapped = header 0 12 ++ 0 ∷ 32 ∷ 0 ∷ 8 ∷ 0 ∷ 1 ∷ 161 ∷ 71 ∷ 225 ∷ 18 ∷ 166 ∷ 67 ∷ zeros 480

parse_response-Ends_example : Ends (parse_response mapped 32)
parse_response-Ends_example = parse_response-Ends mapped 32 refl (omega arith)

address_read : parse_response mapped 32 ≡ found (record { ip = 3221225985; port = 32853 })
unfolding parse_response check_cookie parse_body attributes round after_attempt read_attribute
    read_family address_of unmask u32_at u16_at join
address_read = refl

-- An answer that fills the buffer, with an address attribute that is cut off at its end.
abbrev cut_off : List ℕ
cut_off = header 1 236 ++ 0 ∷ 99 ∷ 1 ∷ 224 ∷ zeros 480 ++ 0 ∷ 1 ∷ 0 ∷ 8 ∷ 0 ∷ 1 ∷ 0 ∷ 0 ∷ []

read_beyond : parse_response cut_off 512 ≡ panicked
unfolding parse_response check_cookie parse_body attributes round after_attempt read_attribute
    read_family address_of unmask u32_at u16_at join
read_beyond = refl
