-- ===== src/Clients/Ghost/Server.antt =====
-- The ghost at this repository's server: it speaks version 1 of the protocol.
use fujinet_intv_golf.Base.{
  ℕ, suc, ◌+◌, ◌*◌, ◌≤◌, ◌<◌, ◌≡◌, refl, sym, ap, ◌∙◌, subst, true, false, ◌||◌, List, [], ◌∷◌,
  ◌++◌, Option, some, arith, ltb, leb, ◌==◌, ==-self, if◌then◌else◌, length, length-append,
  concat_assoc, get_elem?, contains, Option-cases, Bool-cases, inl, inr,
}
use fujinet_intv_golf.Wire.{Bytes, Text, max_seats, t_hello, t_lobby}
use fujinet_intv_golf.Relay.Outcome.{protocol_error, short_hello, wrong_version, returned, raised}
use fujinet_intv_golf.Relay.World.{World, Os}
use fujinet_intv_golf.Relay.Frames.{framed, pad_of, length-pad_of, AllNamed}
use fujinet_intv_golf.Relay.Handlers.{status_in, status, listed, lobby_entries, on_hello, handle}
use fujinet_intv_golf.Relay.Handles.Lobby.{
  bit_or_seats, entries_of, lobby_entries_lem, listed-AllNamed,
}
use fujinet_intv_golf.Relay.Invariant.{Inv}
use fujinet_intv_golf.Clients.Ghost.{
  Options, Ghost, silent, ghost_frame, say, start_ghost, join_idle, on_lobby, on_ghost_frame,
}

-- Whatever the ghost's name is, if it can be sent at all, the first frame that it sends carries the
-- version 1, and the server's handler refuses it with a ProtocolError, in any state: a wrong version,
-- or a short HELLO for a name of less than two bytes.
pub start_ghost-refused :
    (os : Os) (opts : Options) (c : ℕ) (w : World)
    → length opts.own_name ≤ 253
    → (start_ghost opts ≡ some (record silent { said = framed t_hello (1 ∷ opts.own_name) ∷ [] }))
      × (handle os c t_hello (1 ∷ opts.own_name) w
          ≡ raised
              (protocol_error
                (if leb 2 (length opts.own_name) then wrong_version 1 else short_hello))
              w)
unfolding start_ghost say ghost_frame handle on_hello
start_ghost-refused os opts c w l =
    let fits : ltb (suc (length (1 ∷ opts.own_name))) 256 ≡ true = ground arith in
    (
      rw fits refl,
      elim (Bool-cases (leb 2 (length opts.own_name))) [
        | inl e ↦
            let long : leb 3 (length (1 ∷ opts.own_name)) ≡ true = ground (arith, e) in
            rw (e, long) refl
        | inr e ↦
            let short : leb 3 (length (1 ∷ opts.own_name)) ≡ false = ground (arith, e) in
            rw (e, short) refl
      ],
    )

-- A client that is in a room counts at least itself.
status-pos : (c : ℕ) (w : World) → Inv w → (status c w == 0) ≡ false
unfolding status_in
status-pos c w v = elim (Option-cases (w.room c)) [
  | inl e ↦ rw e refl
  | inr (r, e) ↦ ground (
    arith,
    e,
    bit_or_seats (w.started r || leb max_seats (length (w.members r))) (length (w.members r))
        (v.rooms.seats r),
    seated (w.members r) (v.rooms.joined c r e),
  )
]
  where
    seated : (ms : List ℕ) → contains ms c ≡ true → 0 < length ms
    seated [] h = cc
    seated (m ∷ ms) h = omega arith

get_elem?-concat : (xs : Bytes) (y : ℕ) (ys : Bytes) → get_elem? (xs ++ y ∷ ys) (length xs) ≡ some y
get_elem?-concat [] y ys = refl
get_elem?-concat (x ∷ xs) y ys = get_elem?-concat xs y ys

get_elem?-at :
    (before pad : Bytes) (mark : ℕ) (rest : Bytes) (i : ℕ)
    → i ≡ length before + length pad
    → get_elem? (before ++ ((pad ++ mark ∷ []) ++ rest)) i ≡ some mark
get_elem?-at before pad mark rest i e =
    subst (λ k. get_elem? (before ++ ((pad ++ mark ∷ []) ++ rest)) k ≡ some mark)
      (length-append before pad ∙ sym e)
      (subst (λ l. get_elem? l (length (before ++ pad)) ≡ some mark)
        (concat_assoc before pad (mark ∷ rest)
          ∙ ap (λ l. before ++ l) (sym (concat_assoc pad (mark ∷ []) rest)))
        (get_elem?-concat (before ++ pad) mark rest))

module _ (decode : Bytes → Option Text) (opts : Options) (w : World) (v : Inv w) where
  -- No entry is idle.
  join_idle-silent :
      (cs : List ℕ) (i : ℕ) (before : Bytes) (g : Ghost)
      → AllNamed w cs
      → length before ≡ 1 + i * 9
      → join_idle decode opts (length cs) i (before ++ entries_of w cs) g ≡ some g
  unfolding join_idle entries_of
  join_idle-silent [] i before g named l = refl
  join_idle-silent (c ∷ cs) i before g named l =
      let wide : length (pad_of (w.name c)) ≡ 8 =
        length-pad_of c w v.names.ascii (named c (ground (arith, ==-self c))) in
      let mark : get_elem? (before ++ entries_of w (c ∷ cs)) (9 + i * 9) ≡ some (status c w) =
        get_elem?-at before (pad_of (w.name c)) (status c w) (entries_of w cs) (9 + i * 9)
          (omega arith) in
      rw (mark, status-pos c w v)
        (subst (λ p. join_idle decode opts (length cs) (suc i) p g ≡ some g)
          (concat_assoc before (pad_of (w.name c) ++ status c w ∷ []) (entries_of w cs))
          (join_idle-silent cs (suc i) (before ++ (pad_of (w.name c) ++ status c w ∷ [])) g
            (λ d e. named d (ground (arith, e)))
            (omega (
              arith,
              length-append before (pad_of (w.name c) ++ status c w ∷ []),
              length-append (pad_of (w.name c)) (status c w ∷ []),
            ))))

  -- In a state of the server that satisfies `Inv`, for any client: the server's LOBBY entries are
  -- made without an exception, and the ghost, not in a match, that gets the LOBBY frame with them
  -- does nothing: it joins nobody, because no status is 0.
  pub on_lobby-silent :
      (c : ℕ) (g : Ghost)
      → g.matched ≡ false
      → (entries : Bytes) × (lobby_entries (listed c w) w ≡ returned entries w)
        × (on_ghost_frame decode opts t_lobby (length (listed c w) ∷ entries) g ≡ some g)
  unfolding on_ghost_frame on_lobby
  on_lobby-silent c g alone = (
    entries_of w (listed c w),
    lobby_entries_lem (listed c w) w v (listed-AllNamed c w),
    simp alone
        (join_idle-silent (listed c w) 0 (length (listed c w) ∷ []) g (listed-AllNamed c w) refl),
  )
