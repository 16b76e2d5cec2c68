-- ===== src/Clients/Idlers.antt =====
-- test/lobby_idlers.py: idle clients, of which one may start its room and the last may join a console.
-- The sockets stand for themselves by name, and what they send is kept
-- in order. Names are ASCII.
use fujinet_intv_golf.Base.{
  ℕ, zero, suc, ◌+◌, Bool, true, false, not, ◌&&◌, List, [], ◌∷◌, ◌++◌, Option, none, some, ◌==◌,
  leb, bit_and, if◌then◌else◌, length, take, drop, same, get_elem?,
}
use fujinet_intv_golf.Base.Assoc.{insert, lookup}
use fujinet_intv_golf.Wire.{Bytes, Text, ljust8, t_go, t_hello, t_join, t_list, t_lobby, t_room}
use fujinet_intv_golf.Clients.Sim.{client_frame, strip_zeros}

-- The options, with the delay in the unit of the times.
pub record IdlerOptions : Type 0 where
  pub names : List Text
  pub is_pair : Bool
  pub go_name : Option Text
  pub go_delay : ℕ
  pub join_guest : Option Text

pub record Idlers : Type 0 where
  pub bufs : List (Text × Bytes)
  pub is_joined : Bool
  pub go_at : Option ℕ
  pub goer : Option Text
  pub sent : List (Text × Bytes)

abbrev no_idlers : Idlers
no_idlers = record { bufs = []; is_joined = false; go_at = none; goer = none; sent = [] }

-- `s.sendall(frame(t, payload))`; none is an exception.
unfoldable pub idler_sends : Text → ℕ → Bytes → Idlers → Option Idlers
unfolding client_frame
idler_sends name t payload s = elim (client_frame t payload) [
  | none ↦ none
  | some bytes ↦ some (record s { sent = s.sent ++ (name, bytes) ∷ [] })
]

-- `s is goer`, and the like.
unfoldable pub is_named : Text → Option Text → Bool
unfolding same
is_named name none = false
is_named name (some other) = same name other

unfoldable pub starts_with : Text → Text → Bool
starts_with [] text = true
starts_with (p ∷ ps) [] = false
starts_with (p ∷ ps) (c ∷ cs) = let rest = starts_with ps cs in p == c && rest

unfoldable pub say_hello : List Text → Idlers → Option Idlers
unfolding idler_sends insert
say_hello [] s = some s
say_hello (n ∷ names) s = elim (idler_sends n t_hello (2 ∷ n) s) [
  | none ↦ none
  | some more ↦ say_hello names (record more { bufs = insert n [] more.bufs })
]

-- `target.encode("ascii").ljust(8, b"\0")`
abbrev pub padded : Text → Bytes
padded name = name ++ drop (length name) (ljust8 [])

-- `if text`: none and the empty text are false.
abbrev pub given : Option Text → Option Text
given none = none
given (some []) = none
given (some (c ∷ cs)) = some (c ∷ cs)

-- `--pair`
unfoldable pub pair_up : Bool → List Text → Idlers → Option Idlers
unfolding idler_sends ljust8
pair_up true (joiner ∷ target ∷ names) s = elim (idler_sends joiner t_join (padded target) s) [
  | none ↦ none
  | some more ↦ idler_sends target t_go [] more
]
pair_up _ names s = some s

unfoldable pub last_name : List Text → Option Text
last_name [] = none
last_name (n ∷ []) = some n
last_name (n ∷ m ∷ names) = last_name (m ∷ names)

module _ (o : IdlerOptions) where
  -- `hunter`, by its name; `goer` is one of the sockets.
  unfoldable pub hunter : Option Text
  unfolding last_name
  hunter = elim (given o.join_guest) [ none ↦ none | some _ ↦ last_name o.names ]

  unfoldable pub find_goer : Idlers → Option Text
  unfolding lookup
  find_goer s = elim (given o.go_name) [
    | none ↦ none
    | some n ↦ elim (lookup n s.bufs) [ none ↦ none | some _ ↦ some n ]
  ]

  -- Before the loop.
  unfoldable pub start_idlers : Option Idlers
  unfolding say_hello pair_up find_goer
  start_idlers = elim (say_hello o.names no_idlers) [
    | none ↦ none
    | some s ↦ pair_up o.is_pair o.names (record s { goer = find_goer s })
  ]

  -- The goer's room has formed; the time is now.
  unfoldable pub on_room : ℕ → Text → Bytes → Idlers → Option Idlers
  unfolding is_named
  on_room now name body s =
      if is_named name s.goer
      then (elim (get_elem? body 0) [
        | none ↦ none
        | some t ↦
            if t == t_room
            then (elim (get_elem? body 1) [
              | none ↦ none
              | some n ↦ some (elim s.go_at [
                | none ↦ if leb 2 n then record s { go_at = some (now + o.go_delay) } else s
                | some _ ↦ s
              ])
            ])
            else some s
      ])
      else some s

  -- The last client looks for a name that it may join; `decode` is that of the source, which never
  -- fails.
  module _ (decode : Bytes → Text) (prefix : Text) (name : Text) where
    unfoldable pub hunt : ℕ → Bytes → Idlers → Option Idlers
    unfolding strip_zeros starts_with idler_sends
    hunt zero entries s = some s
    hunt (suc n) entries s =
        let rest = hunt n (drop 9 entries) s in
        let entry = take 9 entries in
        if starts_with prefix (decode (strip_zeros (take 8 entry)))
        then (elim (get_elem? entry 8) [
          | none ↦ none
          | some status ↦
              if bit_and status 0x80 == 0
              then (elim (idler_sends name t_join (take 8 entry) s) [
                | none ↦ none
                | some more ↦ some (record more { is_joined = true })
              ])
              else rest
        ])
        else rest

    unfoldable pub on_lobby_frame : Bytes → Idlers → Option Idlers
    unfolding hunt
    on_lobby_frame body s = elim (get_elem? body 0) [
      | none ↦ none
      | some t ↦
          if t == t_lobby && not s.is_joined
          then (elim (get_elem? body 1) [ none ↦ none | some n ↦ hunt n (drop 2 body) s ])
          else some s
    ]

  module _ (decode : Bytes → Text) where
    unfoldable pub on_idler_frame : ℕ → Text → Bytes → Idlers → Option Idlers
    unfolding on_room is_named on_lobby_frame hunter
    on_idler_frame now name body s = elim (on_room now name body s) [
      | none ↦ none
      | some more ↦ elim o.join_guest [
        | none ↦ some more
        | some prefix ↦
            if is_named name hunter then on_lobby_frame decode prefix name body more else some more
      ]
    ]

    -- The frames in a buffer. Each round takes a byte at least, and the buffer's length bounds the
    -- rounds.
    unfoldable pub idler_frames : ℕ → ℕ → Text → Bytes → Idlers → Option Idlers
    unfolding on_idler_frame insert
    idler_frames zero now name buf s = some (record s { bufs = insert name buf s.bufs })
    idler_frames (suc k) now name [] s = some (record s { bufs = insert name [] s.bufs })
    idler_frames (suc k) now name (n ∷ rest) s =
        if leb 1 (length rest) && leb n (length rest)
        then (elim (on_idler_frame now name (take n rest) s) [
          | none ↦ none
          | some more ↦ idler_frames k now name (drop n rest) more
        ])
        else some (record s { bufs = insert name (n ∷ rest) s.bufs })

    -- What each socket yields, if it yields anything.
    unfoldable pub read_all : ℕ → List (Text × Option Bytes) → Idlers → Option Idlers
    unfolding idler_frames lookup
    read_all now [] s = some s
    read_all now ((name, none) ∷ reads) s = read_all now reads s
    read_all now ((name, some bytes) ∷ reads) s = elim (lookup name s.bufs) [
      | none ↦ none
      | some buf ↦ elim (idler_frames (length (buf ++ bytes)) now name (buf ++ bytes) s) [
        | none ↦ none
        | some more ↦ read_all now reads more
      ]
    ]

    -- The goer's GO, when it is due.
    unfoldable pub fire_go : ℕ → Idlers → Option Idlers
    unfolding idler_sends
    fire_go now s = elim s.goer [
      | none ↦ some s
      | some name ↦ elim s.go_at [
        | none ↦ some s
        | some t ↦
            if leb t now
            then (elim (idler_sends name t_go [] s) [
              | none ↦ none
              | some more ↦ some (record more { go_at = none; goer = none })
            ])
            else some s
      ]
    ]

    unfoldable pub ask_list : Idlers → Option Idlers
    unfolding hunter idler_sends
    ask_list s = elim hunter [
      | none ↦ some s
      | some name ↦ if s.is_joined then some s else idler_sends name t_list [] s
    ]

    -- A round of the loop.
    unfoldable pub idle_round : ℕ → List (Text × Option Bytes) → Idlers → Option Idlers
    unfolding read_all fire_go ask_list
    idle_round now reads s = elim (read_all now reads s) [
      | none ↦ none
      | some more ↦ elim (fire_go now more) [ none ↦ none | some later ↦ ask_list later ]
    ]
