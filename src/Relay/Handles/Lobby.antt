-- ===== src/Relay/Handles/Lobby.antt =====
-- `on_list` and `_status`.
use fujinet_intv_golf.Base.{
  ℕ, zero, suc, ◌+◌, ◌*◌, ◌≤◌, ◌<◌, ◌≡◌, refl, bit_or, Bool, true, false, not, ◌&&◌, ◌||◌, List, [],
  ◌∷◌, ◌++◌, map, Option, none, some, arith, leb, ◌==◌, ==-self, ==-eq, if◌then◌else◌, length, take,
  keep_if, contains, length-append, length-take, &&-true, Bool-cases, inl, inr, subst, sym,
}
use fujinet_intv_golf.Wire.{Bytes, t_lobby, max_seats}
use fujinet_intv_golf.Relay.Outcome.{returned}
use fujinet_intv_golf.Relay.World.{World, Os}
use fujinet_intv_golf.Relay.Output.{all_bytes, drop_client}
use fujinet_intv_golf.Relay.Frames.{
  frame_lem, to_bytes_lem, pad_name_lem, pad_of, length-pad_of, AllNamed,
}
use fujinet_intv_golf.Relay.Handlers.{
  status_in, status, is_some, has_name, listed, lobby_entries, on_list,
}
use fujinet_intv_golf.Relay.Invariant.{Inv}
use fujinet_intv_golf.Relay.Settles.{Settles}
use fujinet_intv_golf.Relay.Settles.Send.{send-Settles}
use fujinet_intv_golf.Relay.Settles.Drop.{drop_client-Calm}

-- Bit 7 and a count of at most four do not overlap.
pub bit_or_seats :
    (b : Bool) (n : ℕ) → n ≤ 4 → bit_or (if b then 0x80 else 0) n ≡ (if b then 0x80 else 0) + n
bit_or_seats true zero h = refl
bit_or_seats true (suc zero) h = refl
bit_or_seats true (suc (suc zero)) h = refl
bit_or_seats true (suc (suc (suc zero))) h = refl
bit_or_seats true (suc (suc (suc (suc zero)))) h = refl
bit_or_seats true (suc (suc (suc (suc (suc n))))) h = absurd (omega arith)
bit_or_seats false zero h = refl
bit_or_seats false (suc zero) h = refl
bit_or_seats false (suc (suc zero)) h = refl
bit_or_seats false (suc (suc (suc zero))) h = refl
bit_or_seats false (suc (suc (suc (suc zero)))) h = refl
bit_or_seats false (suc (suc (suc (suc (suc n))))) h = absurd (omega arith)

status_in-lt : (o : Option ℕ) (w : World) → Inv w → status_in o w < 256
unfolding status_in
status_in-lt none w v = omega arith
status_in-lt (some r) w v = ground (
  arith,
  bit_or_seats (w.started r || leb max_seats (length (w.members r))) (length (w.members r))
      (v.rooms.seats r),
  v.rooms.seats r,
)

contains-take : (n c : ℕ) (l : List ℕ) → contains (take n l) c ≡ true → contains l c ≡ true
contains-take zero c l h = cc
contains-take (suc n) c [] h = h
contains-take (suc n) c (x ∷ l) h = ground (arith, contains-take n c l)

contains-keep_if :
    (p : ℕ → Bool) (c : ℕ) (l : List ℕ) → contains (keep_if p l) c ≡ true → p c ≡ true
contains-keep_if p c [] h = cc
contains-keep_if p c (x ∷ l) h = elim (Bool-cases (p x)) [
  | inl e ↦ elim (Bool-cases (c == x)) [
    | inl f ↦ subst (λ y. p y ≡ true) (sym (==-eq c x f)) e
    | inr f ↦ contains-keep_if p c l (ground arith)
  ]
  | inr e ↦ contains-keep_if p c l (ground arith)
]

has_name-is_some : (o : Option (List ℕ)) → has_name o ≡ true → is_some o ≡ true
has_name-is_some none h = cc
has_name-is_some (some n) h = refl

-- Whoever is listed has a name.
pub listed-AllNamed : (c : ℕ) (w : World) → AllNamed w (listed c w)
unfolding listed
listed-AllNamed c w o h =
    has_name-is_some (w.name o)
      (&&-true (not (o == c)) (has_name (w.name o))
        (contains-keep_if (λ o. not (o == c) && has_name (w.name o)) o _ (contains-take 8 o _ h))).1

pub length-listed : (c : ℕ) (w : World) → length (listed c w) ≤ 8
unfolding listed
length-listed c w = omega (
  arith,
  length-take 8 (keep_if (λ o. not (o == c) && has_name (w.name o)) (map (λ e. e.1) w.by_name)),
)

-- What `lobby_entries` yields: nine bytes for each entry.
unfoldable pub entries_of : World → List ℕ → Bytes
entries_of w [] = []
entries_of w (c ∷ cs) = (pad_of (w.name c) ++ status c w ∷ []) ++ entries_of w cs

AllNamed-rest : (w : World) (m : ℕ) (ms : List ℕ) → AllNamed w (m ∷ ms) → AllNamed w ms
AllNamed-rest w m ms h c e = h c (ground arith)

pub lobby_entries_lem :
    (cs : List ℕ) (w : World)
    → Inv w
    → AllNamed w cs
    → lobby_entries cs w ≡ returned (entries_of w cs) w
unfolding lobby_entries entries_of all_bytes
lobby_entries_lem [] w v h = refl
lobby_entries_lem (c ∷ cs) w v h =
    rw (pad_name_lem c w v.names.ascii (h c (ground (arith, ==-self c)))) (
      rw (to_bytes_lem (status c w ∷ []) w (ground (arith, status_in-lt (w.room c) w v)))
        (rw (lobby_entries_lem cs w v (AllNamed-rest w c cs h))))

pub length-entries_of :
    (cs : List ℕ) (w : World) → Inv w → AllNamed w cs → length (entries_of w cs) ≡ 9 * length cs
unfolding entries_of
length-entries_of [] w v h = refl
length-entries_of (c ∷ cs) w v h = omega (
  arith,
  length-append (pad_of (w.name c) ++ status c w ∷ []) (entries_of w cs),
  length-append (pad_of (w.name c)) (status c w ∷ []),
  length-pad_of c w v.names.ascii (h c (ground (arith, ==-self c))),
  length-entries_of cs w v (AllNamed-rest w c cs h),
)

pub on_list-Settles : (os : Os) (c : ℕ) (w : World) → Inv w → Settles w (on_list os c w)
unfolding on_list all_bytes
on_list-Settles os c w v =
    rw (to_bytes_lem (length (listed c w) ∷ []) w (ground (arith, length-listed c w))) (
      rw (lobby_entries_lem (listed c w) w v (listed-AllNamed c w)) (
        rw
          (frame_lem t_lobby (length (listed c w) ∷ entries_of w (listed c w)) w (omega arith) (
            omega
              (arith, length-entries_of (listed c w) w v (listed-AllNamed c w), length-listed c w)))
          (send-Settles os (suc (length w.clients)) (drop_client os)
            (drop_client-Calm os (suc (length w.clients))) _ c w v (omega arith))))
