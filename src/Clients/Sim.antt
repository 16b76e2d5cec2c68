-- ===== src/Clients/Sim.antt =====
-- tools/bbnet_client_sim.py: a simulated console. What `recv` yields is an argument: the chunks in
-- order, an empty one when the server has closed the connection, and none at all when the socket
-- times out.
pub mod Stream
pub mod Drain
pub mod Names
pub mod Statuses
use fujinet_intv_golf.Base.{
  ℕ, zero, suc, ◌+◌, ◌-◌, ◌≤◌, ◌<◌, Bool, true, false, ◌&&◌, List, [], ◌∷◌, ◌++◌, Option, none,
  some, ltb, leb, ◌==◌, bit_or, if◌then◌else◌, length, take, drop, is_empty, same, get_elem?,
}
use fujinet_intv_golf.Wire.{Bytes, Text, ljust8, t_hello, t_list, t_lobby}

-- `frame(t, payload)`: `bytes` raises ValueError on a number that is no byte.
unfoldable pub client_frame : ℕ → Bytes → Option Bytes
client_frame t payload =
    if ltb t 256
    then if ltb (suc (length payload)) 256 then some (suc (length payload) ∷ t ∷ payload) else none
    else none

-- `pad(name)`, of the encoded name.
abbrev pub pad : Bytes → Bytes
pad name = ljust8 name

-- `st(n)`, with SEATS.
unfoldable pub st : ℕ → ℕ → ℕ
st seats n = if leb seats n then bit_or 0x80 n else n

-- What the constructor of `Cli` sends.
abbrev pub hello : ℕ → Bytes → Option Bytes
hello ver name = client_frame t_hello (ver ∷ name)

-- What `recv_frame` returns or raises: a frame, with the buffer and the chunks that are left, or an
-- exception.
pub data Received : Type 0 where
  got : ℕ → Bytes → Bytes → List Bytes → Received
  timed_out : Bytes → Received
  eof_error index_error : Received

-- `self.buf and len(self.buf) >= self.buf[0] + 1`
unfoldable pub ready : Bytes → Bool
ready [] = false
ready (n ∷ rest) = leb n (length rest)

unfoldable pub split_body : Bytes → Bytes → List Bytes → Received
split_body [] buf chunks = index_error
split_body (t ∷ p) buf chunks = got t p buf chunks

unfoldable pub take_frame : Bytes → List Bytes → Received
unfolding split_body
take_frame [] chunks = index_error
take_frame (n ∷ rest) chunks = split_body (take n rest) (drop n rest) chunks

-- The buffer and the chunks to come.
unfoldable pub recv_frame : Bytes → List Bytes → Received
unfolding ready take_frame
recv_frame buf [] = if ready buf then take_frame buf [] else timed_out buf
recv_frame buf (c ∷ cs) =
    let more = recv_frame (buf ++ c) cs in
    if ready buf then take_frame buf (c ∷ cs) else if is_empty c then eof_error else more

-- `expect`: none is an exception, AssertionError among them.
unfoldable pub expect_type : ℕ → Received → Option Bytes
expect_type ftype (got t p buf chunks) = if t == ftype then some p else none
expect_type ftype (timed_out buf) = none
expect_type ftype eof_error = none
expect_type ftype index_error = none

abbrev pub expect : ℕ → Bytes → List Bytes → Option Bytes
expect ftype buf chunks = expect_type ftype (recv_frame buf chunks)

-- What `drain_lobby` returns, with the buffer and the chunks after it; or it raises, or the bound
-- on its rounds was too low.
pub data Drained : Type 0 where
  drained : Option Bytes → Bytes → List Bytes → Drained
  failed no_rounds : Drained

-- `self.buf = frame(t, p) + self.buf`
unfoldable pub push_back : Option Bytes → Option Bytes → Bytes → List Bytes → Drained
push_back none last buf chunks = failed
push_back (some bytes) last buf chunks = drained last (bytes ++ buf) chunks

-- What the loop does with a frame; its first argument is the loop.
unfoldable pub drain_next :
    (Option Bytes → Bytes → List Bytes → Drained) → Option Bytes → Received → Drained
unfolding push_back
drain_next again last (timed_out buf) = drained last buf []
drain_next again last eof_error = failed
drain_next again last index_error = failed
drain_next again last (got t p buf chunks) =
    if t == t_lobby then again (some p) buf chunks else push_back (client_frame t p) last buf chunks

-- The loop; its first argument bounds its rounds.
unfoldable pub drain_from : ℕ → Option Bytes → Bytes → List Bytes → Drained
unfolding drain_next
drain_from zero last buf chunks = no_rounds
drain_from (suc k) last buf chunks = drain_next (drain_from k) last (recv_frame buf chunks)

unfoldable pub total : List Bytes → ℕ
total [] = 0
total (c ∷ cs) = length c + total cs

unfoldable pub drain_lobby : Bytes → List Bytes → Drained
unfolding drain_from total
drain_lobby buf chunks = drain_from (suc (length buf + total chunks)) none buf chunks

-- `.rstrip(b"\0")`
unfoldable pub strip_zeros : Bytes → Bytes
strip_zeros [] = []
strip_zeros (b ∷ bs) = let rest = strip_zeros bs in if is_empty rest && b == 0 then [] else b ∷ rest

-- `e[:8].rstrip(b"\0").decode() == name`
unfoldable pub names_match : Text → Option Text → Option Bool
names_match name none = none
names_match name (some text) = some (same text name)

-- One round of the loop of `lobby_status`, and the rounds after it; none is an exception.
unfoldable pub status_or_next : Option Bool → Option ℕ → Option (Option ℕ) → Option (Option ℕ)
status_or_next none mark rest = none
status_or_next (some false) mark rest = rest
status_or_next (some true) none rest = none
status_or_next (some true) (some b) rest = some (some b)

unfoldable pub and_names : Option Text → Option (List Text) → Option (List Text)
and_names none rest = none
and_names (some name) none = none
and_names (some name) (some rest) = some (name ∷ rest)

-- `.decode()` is Python's; none is a UnicodeDecodeError.
module _ (decode : Bytes → Option Text) where
  -- The entries of nine bytes, `payload[1 + 9 * i: 1 + 9 * (i + 1)]`.
  unfoldable pub status_from : ℕ → Text → Bytes → Option (Option ℕ)
  unfolding names_match status_or_next strip_zeros
  status_from zero name entries = some none
  status_from (suc n) name entries =
      status_or_next (names_match name (decode (strip_zeros (take 8 (take 9 entries)))))
        (get_elem? (take 9 entries) 8) (status_from n name (drop 9 entries))

  unfoldable pub lobby_status : Bytes → Text → Option (Option ℕ)
  unfolding status_from
  lobby_status [] name = none
  lobby_status (n ∷ entries) name = status_from n name entries

  -- The slots of eight bytes, `raw[i * 8:(i + 1) * 8]`.
  unfoldable pub names_from : ℕ → Bytes → Option (List Text)
  unfolding and_names strip_zeros
  names_from zero raw = some []
  names_from (suc n) raw = and_names (decode (strip_zeros (take 8 raw))) (names_from n (drop 8 raw))

  unfoldable pub roster_names : Bytes → Option (List Text)
  unfolding names_from
  roster_names raw = names_from 4 raw
