-- ===== src/Wire.antt =====
-- The wire format of server/intv_relay_server.py: frame types, limits, and the names that frames
-- carry. A byte string is a list of numbers below 256, a text a list of code points.
use fujinet_intv_golf.Base.{
  ℕ, ◌-◌, Bool, true, ◌&&◌, ◌||◌, List, [], ◌∷◌, ◌++◌, map, ltb, leb, ◌==◌, if◌then◌else◌, length,
  take, replicate, is_empty,
}

abbrev pub Bytes : Type 0
Bytes = List ℕ

abbrev pub Text : Type 0
Text = List ℕ

-- The frame types of protocol v2.
abbrev pub t_hello : ℕ
t_hello = 0x01

abbrev pub t_list : ℕ
t_list = 0x02

abbrev pub t_lobby : ℕ
t_lobby = 0x03

abbrev pub t_join : ℕ
t_join = 0x04

abbrev pub t_start : ℕ
t_start = 0x05

abbrev pub t_input : ℕ
t_input = 0x06

abbrev pub t_crc : ℕ
t_crc = 0x07

abbrev pub t_state : ℕ
t_state = 0x08

abbrev pub t_resync : ℕ
t_resync = 0x09

abbrev pub t_bye : ℕ
t_bye = 0x0A

abbrev pub t_peer_left : ℕ
t_peer_left = 0x0B

abbrev pub t_ping : ℕ
t_ping = 0x0C

abbrev pub t_pong : ℕ
t_pong = 0x0D

abbrev pub t_room : ℕ
t_room = 0x0E

abbrev pub t_go : ℕ
t_go = 0x0F

-- `ftype in RELAY_TYPES`
abbrev pub is_relay_type : ℕ → Bool
is_relay_type t = t == t_input || t == t_crc || t == t_state || t == t_resync

abbrev pub proto_ver : ℕ
proto_ver = 2

abbrev pub max_seats : ℕ
max_seats = 4

abbrev pub roster_slots : ℕ
roster_slots = 4

abbrev pub max_tx_backlog : ℕ
max_tx_backlog = 65536

abbrev pub max_clients : ℕ
max_clients = 64

abbrev pub max_connections_per_ip : ℕ
max_connections_per_ip = 8

abbrev pub hello_timeout : ℕ
hello_timeout = 60

-- `c in NAME_CHARS`
unfoldable pub is_name_char : ℕ → Bool
is_name_char c = (leb b'A' c && leb c b'Z') || (leb b'0' c && leb c b'9')

-- `set(name) <= NAME_CHARS`
unfoldable pub all_name_chars : Text → Bool
unfolding is_name_char
all_name_chars [] = true
all_name_chars (c ∷ cs) = is_name_char c && all_name_chars cs

-- `2 <= len(name) <= 8` and `set(name) <= NAME_CHARS`
unfoldable pub is_valid_name : Text → Bool
unfolding all_name_chars
is_valid_name name = (leb 2 (length name) && leb (length name) 8) && all_name_chars name

-- `.decode("ascii", "replace")`
unfoldable pub decode_ascii : Bytes → Text
decode_ascii = map (λ b. if ltb b 128 then b else 0xFFFD)

-- `.rstrip("\0 ")`
unfoldable pub rstrip : Text → Text
rstrip [] = []
rstrip (c ∷ cs) =
    let rest = rstrip cs in if is_empty rest && (c == 0 || c == b' ') then [] else c ∷ rest

-- Every code is ASCII: `.encode("ascii")` does not raise.
unfoldable pub is_ascii : Text → Bool
is_ascii [] = true
is_ascii (c ∷ cs) = ltb c 128 && is_ascii cs

-- `[:8].ljust(8, b"\0")`
unfoldable pub ljust8 : Bytes → Bytes
ljust8 s = take 8 s ++ replicate (8 - length (take 8 s)) 0
