-- ===== src/Clients/Soak.antt =====
-- tools/soak.py: the frames of its match, tick by tick, and its verdict on the samples.
pub mod Match
use fujinet_intv_golf.Base.{
  ℕ, zero, suc, ◌+◌, ◌-◌, ◌*◌, ◌/◌, ◌≡◌, bit_and, Bool, ◌&&◌, List, [], ◌∷◌, ◌++◌, Option, none,
  some, ltb, ◌==◌, if◌then◌else◌, length, take, drop,
}
use fujinet_intv_golf.Base.Int.{ℤ, sub_ℕ}
use fujinet_intv_golf.Base.Texts.{codes}
use fujinet_intv_golf.Wire.{Bytes, Text, ljust8, t_hello, t_join, t_go, t_input, t_crc}

-- `bytes(l)`: ValueError on a number that is no byte.
unfoldable pub checked_bytes : List ℕ → Option Bytes
checked_bytes [] = some []
checked_bytes (b ∷ bs) = elim (checked_bytes bs) [
  | none ↦ none
  | some rest ↦ if ltb b 256 then some (b ∷ rest) else none
]

unfoldable pub prefixed : Option Bytes → Bytes → Option Bytes
prefixed none payload = none
prefixed (some head) payload = some (head ++ payload)

-- `frame(t, payload)`
unfoldable pub soak_frame : ℕ → Bytes → Option Bytes
unfolding checked_bytes prefixed
soak_frame t payload = prefixed (checked_bytes ((length payload + 1) ∷ t ∷ [])) payload

-- `pad(n)`, for an ASCII name.
abbrev pub soak_pad : Text → Bytes
soak_pad n = ljust8 n

-- What `hello` sends.
unfoldable pub soak_hello : Text → Option Bytes
unfolding soak_frame
soak_hello name = soak_frame t_hello (2 ∷ name)

-- The frames before the match, with the client that sends each: the host is 0, the guest is 1.
unfoldable pub soak_setup : List (ℕ × Option Bytes)
unfolding soak_hello soak_frame
soak_setup =
    (0, soak_hello (codes "MATCHA"))
    ∷ (1, soak_hello (codes "MATCHB"))
    ∷ (1, soak_frame t_join (soak_pad (codes "MATCHA")))
    ∷ (0, soak_frame t_go [])
    ∷ []

-- `tick = (tick + 1) & 0xFFFF`
unfoldable pub next_tick : ℕ → ℕ
next_tick tick = bit_and (tick + 1) 0xFFFF

-- A frame of a tick: who sends it, its type and its payload.
pub record Sending : Type 0 where
  pub sender : ℕ
  pub ftype : ℕ
  pub payload : Bytes

abbrev pub sending : ℕ → ℕ → Bytes → Sending
sending c t p = record { sender = c; ftype = t; payload = p }

-- What both players send in a tick: an input and a checksum each.
unfoldable pub tick_frames : ℕ → ℕ → ℕ → List Sending
tick_frames a b tick =
    let lo = bit_and tick 0xFF in
    let hi = tick / 256 in
    sending a t_input (0 ∷ lo ∷ hi ∷ 0x40 ∷ 0 ∷ [])
    ∷ sending a t_crc (0 ∷ lo ∷ hi ∷ 0x11 ∷ 0x22 ∷ [])
    ∷ sending b t_input (1 ∷ lo ∷ hi ∷ 0x20 ∷ 0 ∷ [])
    ∷ sending b t_crc (1 ∷ lo ∷ hi ∷ 0x11 ∷ 0x22 ∷ [])
    ∷ []

unfoldable pub sum_of : List ℕ → ℕ
sum_of [] = 0
sum_of (n ∷ ns) = n + sum_of ns

-- `max(1, len(rss) // 3)`
abbrev pub third_of : List ℕ → ℕ
third_of rss = if length rss / 3 == 0 then 1 else length rss / 3

-- What the summary takes from the samples: `growth`, as the difference of the sums of the last
-- third and the first third, which is divided by their length. Without samples the program exits.
unfoldable pub growth : List ℕ → Option (ℤ × ℕ)
unfolding sum_of
growth [] = none
growth (r ∷ rss) =
    let third = third_of (r ∷ rss) in
    some (
      sub_ℕ (sum_of (drop (length (r ∷ rss) - third) (r ∷ rss))) (sum_of (take third (r ∷ rss))),
      third,
    )
