-- ===== src/Clients/Ghost.antt =====
-- tools/ghost_peer.py: the scripted opponent, as steps of the state of its main loop. The clock is
-- outside: a poll is a step of its own.
pub mod Server
pub mod Answers
use mathlib.Core.Option
use Prim.Native.Nat.{max}
use fujinet_intv_golf.Base.{
  ℕ, zero, suc, ◌+◌, ◌-◌, ◌*◌, ◌/◌, ◌%◌, ◌≤◌, ◌≡◌, bit_or, Bool, true, false, not, ◌&&◌, ◌||◌, List,
  [], ◌∷◌, ◌++◌, Option, none, some, ltb, leb, ◌==◌, if◌then◌else◌, length, take, drop, get_elem?,
  replicate, same,
}
use fujinet_intv_golf.Wire.{
  Bytes, Text, t_hello, t_list, t_lobby, t_join, t_start, t_input, t_crc, t_peer_left,
}
use fujinet_intv_golf.Clients.Sim.{strip_zeros}

-- Whatever raises is none.
infixl 5 ◌>>=◌
abbrev ◌>>=◌ : {A B : Type 0} → Option A → (A → Option B) → Option B
none >>= f = none
some a >>= f = f a

-- The command line.
pub record Options : Type 0 where
  pub own_name : Bytes
  pub mirror : Bool
  pub pitch_at : ℕ
  pub want_ticks : ℕ

-- The variables of `main`, and what it has sent.
pub record Ghost : Type 0 where
  pub matched : Bool
  pub inputs : ℕ
  pub crcs : ℕ
  pub max_tick : ℕ
  pub crc_ticks : List (ℕ × ℕ)
  pub mirrored : Option Bytes
  pub leaving : Bool
  pub said : List Bytes

-- `frame(t, payload)`: ValueError when a number is no byte.
unfoldable pub ghost_frame : ℕ → Bytes → Option Bytes
ghost_frame t payload =
    if ltb t 256 && ltb (suc (length payload)) 256
    then some (suc (length payload) ∷ t ∷ payload)
    else none

-- `s.sendall(frame(t, payload))`
unfoldable pub say : ℕ → Bytes → Ghost → Option Ghost
unfolding ghost_frame
say t payload g = do bytes ← ghost_frame t payload; some (record g { said = g.said ++ bytes ∷ [] })

abbrev pub silent : Ghost
silent = record {
  matched = false;
  inputs = 0;
  crcs = 0;
  max_tick = 0;
  crc_ticks = [];
  mirrored = none;
  leaving = false;
  said = [];
}

-- It says HELLO first.
unfoldable pub start_ghost : Options → Option Ghost
unfolding say
start_ghost opts = say t_hello (1 ∷ opts.own_name) silent

-- A second has passed since the last LIST.
unfoldable pub poll : Ghost → Option Ghost
unfolding say
poll g = if g.matched then some g else say t_list [] g

-- The entries of a LOBBY frame from the i-th on: the first that is idle is joined.
module _ (decode : Bytes → Option Text) (opts : Options) where
  unfoldable pub join_idle : ℕ → ℕ → Bytes → Ghost → Option Ghost
  unfolding say
  join_idle zero i p g = some g
  join_idle (suc n) i p g = do
    let name = strip_zeros (take 8 (drop (1 + i * 9) p))
    let rest = join_idle n (suc i) p g
    status ← get_elem? p (9 + i * 9)
    if status == 0 && not (same name opts.own_name)
        then (decode name >>= λ _. say t_join name g)
        else rest

  unfoldable pub on_lobby : Bytes → Ghost → Option Ghost
  unfolding join_idle
  on_lobby p g = do count ← get_elem? p 0; join_idle count 0 p g

  -- What is printed of a START frame must be there.
  unfoldable pub on_start : Bytes → Ghost → Option Ghost
  on_start p g = do
    role ← get_elem? p 0
    lo ← get_elem? p 1
    hi ← get_elem? p 2
    opp ← decode (strip_zeros (take 8 (drop 4 p)))
    delay ← get_elem? p 3
    some (record g { matched = true })

-- The cell that answers an input, without --mirror.
unfoldable pub ghost_cell : Options → ℕ → ℕ
ghost_cell opts tick =
    let ph = (tick - opts.pitch_at) % 256 in
    if not (opts.pitch_at == 0) && leb opts.pitch_at tick
    then if ph == 0 then 0x85 else if ltb ph 4 then 0xC5 else 0x40
    else 0x40

unfoldable pub ghost_reply : Options → ℕ → Bytes → Bytes
unfolding ghost_cell
ghost_reply opts tick p =
    if opts.mirror then drop 2 p else ghost_cell opts tick ∷ replicate (max (length p - 3) 1) 0

-- `main.last`, which only --mirror sets.
abbrev pub mirrored_then : Options → Bytes → Option Bytes → Option Bytes
mirrored_then opts p last = if opts.mirror then some (drop 2 p) else last

unfoldable pub on_input : Options → Bytes → Ghost → Option Ghost
unfolding ghost_reply say
on_input opts p g = do
  lo ← get_elem? p 0
  hi ← get_elem? p 1
  let tick = bit_or lo (hi * 256)
  say t_input (lo ∷ hi ∷ ghost_reply opts tick p) (record g {
    inputs = suc g.inputs;
    max_tick = max g.max_tick tick;
    mirrored = mirrored_then opts p g.mirrored;
  })

unfoldable pub on_crc : Bytes → Ghost → Option Ghost
on_crc p g = do
  tick_lo ← get_elem? p 0
  tick_hi ← get_elem? p 1
  crc_lo ← get_elem? p 2
  crc_hi ← get_elem? p 3
  some (record g {
    crcs = suc g.crcs;
    crc_ticks = g.crc_ticks ++ (bit_or tick_lo (tick_hi * 256), bit_or crc_lo (crc_hi * 256)) ∷ [];
  })

module _ (decode : Bytes → Option Text) (opts : Options) where
  unfoldable pub on_ghost_frame : ℕ → Bytes → Ghost → Option Ghost
  unfolding on_lobby on_start on_input on_crc
  on_ghost_frame t p g =
      if t == t_lobby && not g.matched
      then on_lobby decode opts p g
      else if t == t_start
      then on_start decode opts p g
      else if t == t_input
      then on_input opts p g
      else if t == t_crc
      then on_crc p g
      else some (if t == t_peer_left then record g { leaving = true } else g)

  -- The frames of the buffer, with what is left of it. A round takes a byte at least, so that the
  -- buffer's length bounds the rounds.
  unfoldable pub ghost_frames : ℕ → Bytes → Ghost → Option (Ghost × Bytes)
  unfolding on_ghost_frame
  ghost_frames zero buf g = some (g, buf)
  ghost_frames (suc k) [] g = some (g, [])
  ghost_frames (suc k) (n ∷ rest) g =
      let next = (do
        t ← get_elem? rest 0
        g' ← on_ghost_frame t (drop 1 (take n rest)) g
        ghost_frames k (drop n rest) g') in
      if leb n (length rest) then next else some (g, n ∷ rest)

  unfoldable pub on_chunk : Bytes → Bytes → Ghost → Option (Ghost × Bytes)
  unfolding ghost_frames
  on_chunk buf chunk g = ghost_frames (length (buf ++ chunk)) (buf ++ chunk) g

-- GHOST PASS
unfoldable pub ghost_passes : Options → Ghost → Bool
ghost_passes opts g = leb opts.want_ticks g.max_tick && not (g.crcs == 0)
