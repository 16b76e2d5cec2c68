-- ===== src/Relay/Crc.antt =====
-- `Server.log_crc`: the N-way comparison of the checksums that the consoles report for a tick.
use fujinet_intv_golf.Base.{
  ℕ, zero, suc, ◌*◌, ◌%◌, bit_or, Bool, not, ◌&&◌, ◌||◌, List, [], ◌∷◌, ◌++◌, map, ltb, ◌==◌,
  if◌then◌else◌, update, length, contains,
}
use fujinet_intv_golf.Base.NatMap
use fujinet_intv_golf.Wire.{Bytes}
use fujinet_intv_golf.Relay.Outcome.{attribute_error}
use fujinet_intv_golf.Relay.World.{
  World, crc_mismatch, crc_ok_through, M, gets, modify, or_raise, ◌>>=◌,
}

-- `payload[i]`, where the length has been checked.
abbrev pub byte_at : ℕ → Bytes → ℕ
byte_at i [] = 0
byte_at zero (b ∷ bs) = b
byte_at (suc i) (b ∷ bs) = byte_at i bs

abbrev pub crc_seat : Bytes → ℕ
crc_seat payload = byte_at 0 payload

abbrev pub crc_tick : Bytes → ℕ
crc_tick payload = bit_or (byte_at 1 payload) (byte_at 2 payload * 256)

abbrev pub crc_value : Bytes → ℕ
crc_value payload = bit_or (byte_at 3 payload) (byte_at 4 payload * 256)

abbrev pub Entry : Type 0
Entry = List (ℕ × ℕ)

-- `set(values)`
unfoldable pub set_of : List ℕ → List ℕ
set_of [] = []
set_of (v ∷ vs) = if contains (set_of vs) v then set_of vs else v ∷ set_of vs

-- `entry = room.crc.setdefault(tick, {}); entry[seat] = crc`, and the limit of 64 ticks.
unfoldable pub report : ℕ → ℕ → ℕ → List (ℕ × Entry) → Entry × List (ℕ × Entry)
report tick seat crc table =
    let entry = NatMap.insert seat crc (NatMap.get_or tick [] table) in
    let grown = NatMap.insert tick entry table in
    (entry, if ltb 64 (length grown) then NatMap.pop (NatMap.min_key grown) grown else grown)

-- Tuples in order: by the seat, then by the checksum.
abbrev pub comes_before : ℕ × ℕ → ℕ × ℕ → Bool
comes_before (s, c) (t, d) = ltb s t || (s == t && ltb c d)

unfoldable pub insert_item : ℕ × ℕ → Entry → Entry
insert_item e [] = e ∷ []
insert_item e (f ∷ fs) =
    let rest = insert_item e fs in if comes_before f e then f ∷ rest else e ∷ f ∷ fs

-- `sorted(entry.items())`
unfoldable pub sorted_items : Entry → Entry
unfolding insert_item
sorted_items [] = []
sorted_items (e ∷ es) = insert_item e (sorted_items es)

-- The verdict on a round that is complete.
unfoldable pub close_round : ℕ → ℕ → Entry → World → World
unfolding set_of sorted_items
close_round r tick entry w =
    let popped = record w { crc = update w.crc r (NatMap.pop tick (w.crc r)) } in
    let rounds = suc (w.crc_ok r) in
    if not (length (set_of (map (λ e. e.1) entry)) == 1)
    then record popped { journal = w.journal ++ crc_mismatch tick (sorted_items entry) ∷ [] }
    else record popped {
      crc_ok = update w.crc_ok r rounds;
      journal = if rounds % 4 == 0 then w.journal ++ crc_ok_through tick rounds ∷ [] else w.journal;
    }

-- What `log_crc` does to the server, for a client in room `r`.
unfoldable pub log_round : ℕ → ℕ → ℕ → ℕ → World → World
unfolding report close_round
log_round r seat tick crc w =
    let (entry, table) = report tick seat crc (w.crc r) in
    let logged = record w { crc = update w.crc r table } in
    if ltb (length entry) (length (w.members r)) then logged else close_round r tick entry logged

unfoldable pub log_crc : ℕ → Bytes → M (Unit {0})
unfolding log_round
log_crc c payload = do
  r ← or_raise (← gets (λ w. w.room c)) attribute_error
  modify (log_round r (crc_seat payload) (crc_tick payload) (crc_value payload))
