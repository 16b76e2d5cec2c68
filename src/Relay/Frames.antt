-- ===== src/Relay/Frames.antt =====
-- The frames that the server builds: when `bytes`, `frame`, `pad_name` and `roster` succeed, and
-- what they yield.
use fujinet_intv_golf.Base.{
  ℕ, suc, ◌-◌, ◌*◌, ◌≤◌, ◌<◌, ◌≡◌, refl, true, List, [], ◌∷◌, ◌++◌, Option, none, some, arith,
  ==-self, length, take, replicate, length-append, length-replicate, length-take, contains,
}
use fujinet_intv_golf.Wire.{Bytes, Text, roster_slots, is_ascii, ljust8}
use fujinet_intv_golf.Relay.Outcome.{returned, Ends}
use fujinet_intv_golf.Relay.World.{World}
use fujinet_intv_golf.Relay.Output.{all_bytes, to_bytes, frame, pad_name, pads, roster}
use fujinet_intv_golf.Relay.Handlers.{is_some}
use fujinet_intv_golf.Relay.Invariant.{Inv}

pub length-ljust8 : (s : Bytes) → length (ljust8 s) ≡ 8
unfolding ljust8
length-ljust8 s = omega (
  arith,
  length-append (take 8 s) (replicate (8 - length (take 8 s)) 0),
  length-replicate {A = ℕ} (8 - length (take 8 s)) 0,
  length-take 8 s,
)

pub to_bytes_lem : (l : List ℕ) (w : World) → all_bytes l ≡ true → to_bytes l w ≡ returned l w
unfolding to_bytes
to_bytes_lem l w h = rw h

-- The length byte counts the type and the payload.
abbrev pub framed : ℕ → Bytes → Bytes
framed ftype payload = suc (length payload) ∷ ftype ∷ payload

pub frame_lem :
    (ftype : ℕ) (payload : Bytes) (w : World)
    → ftype < 256
    → length payload ≤ 254
    → frame ftype payload w ≡ returned (framed ftype payload) w
unfolding frame all_bytes
frame_lem ftype payload w t h = ground arith

-- `pad_name` where it succeeds.
abbrev pub pad_of : Option Text → Bytes
pad_of none = []
pad_of (some t) = ljust8 t

unfoldable pub pads_of : (ℕ → Option Text) → List ℕ → Bytes
pads_of name [] = []
pads_of name (m ∷ ms) = pad_of (name m) ++ pads_of name ms

unfoldable pub roster_of : (ℕ → Option Text) → List ℕ → Bytes
unfolding pads_of
roster_of name ms = pads_of name ms ++ replicate (8 * (roster_slots - length ms)) 0

-- Every name that is set can be padded.
abbrev pub NamesPad : (ℕ → Option Text) → Type 0
NamesPad name = (c : ℕ) (n : Text) → name c ≡ some n → is_ascii n ≡ true

pad_name-some :
    (o : Option Text) (w : World)
    → is_some o ≡ true
    → ((n : Text) → o ≡ some n → is_ascii n ≡ true)
    → (pad_name o w ≡ returned (pad_of o) w) × (length (pad_of o) ≡ 8)
unfolding pad_name
pad_name-some none w s a = absurd (cc)
pad_name-some (some t) w s a = (rw (a t refl), length-ljust8 t)

pub pad_name_lem :
    (c : ℕ) (w : World)
    → NamesPad w.name
    → is_some (w.name c) ≡ true
    → pad_name (w.name c) w ≡ returned (pad_of (w.name c)) w
pad_name_lem c w a s = (pad_name-some (w.name c) w s (a c)).0

pub length-pad_of :
    (c : ℕ) (w : World)
    → NamesPad w.name
    → is_some (w.name c) ≡ true
    → length (pad_of (w.name c)) ≡ 8
length-pad_of c w a s = (pad_name-some (w.name c) w s (a c)).1

-- All of a list have names.
abbrev pub AllNamed : World → List ℕ → Type 0
AllNamed w ms = (c : ℕ) → contains ms c ≡ true → is_some (w.name c) ≡ true

AllNamed-tail : (w : World) (m : ℕ) (ms : List ℕ) → AllNamed w (m ∷ ms) → AllNamed w ms
AllNamed-tail w m ms h c e = h c (ground arith)

pub pads_lem :
    (ms : List ℕ) (w : World)
    → NamesPad w.name
    → AllNamed w ms
    → pads ms w ≡ returned (pads_of w.name ms) w
unfolding pads pads_of
pads_lem [] w a h = refl
pads_lem (m ∷ ms) w a h =
    rw (pad_name_lem m w a (h m (ground (arith, ==-self m))))
      (rw (pads_lem ms w a (AllNamed-tail w m ms h)))

pub length-pads_of :
    (ms : List ℕ) (w : World)
    → NamesPad w.name
    → AllNamed w ms
    → length (pads_of w.name ms) ≡ 8 * length ms
unfolding pads_of
length-pads_of [] w a h = refl
length-pads_of (m ∷ ms) w a h = omega (
  arith,
  length-append (pad_of (w.name m)) (pads_of w.name ms),
  length-pad_of m w a (h m (ground (arith, ==-self m))),
  length-pads_of ms w a (AllNamed-tail w m ms h),
)

pub roster_lem :
    (r : ℕ) (w : World) → Inv w → roster r w ≡ returned (roster_of w.name (w.members r)) w
unfolding roster roster_of
roster_lem r w v = rw (pads_lem (w.members r) w v.names.ascii (λ c. v.rooms.named c r))

-- A roster always has four slots of eight bytes.
pub length-roster_of : (r : ℕ) (w : World) → Inv w → length (roster_of w.name (w.members r)) ≡ 32
unfolding roster_of
length-roster_of r w v = omega (
  arith,
  length-append (pads_of w.name (w.members r))
      (replicate (8 * (roster_slots - length (w.members r))) 0),
  length-replicate {A = ℕ} (8 * (roster_slots - length (w.members r))) 0,
  length-pads_of (w.members r) w v.names.ascii (λ c. v.rooms.named c r),
  v.rooms.seats r,
)

-- In every state that satisfies `Inv`, `Room.roster` returns exactly 32 bytes for any room, and
-- changes nothing; it never raises.
pub roster_width :
    (r : ℕ) (w : World)
    → Inv w
    → Ends (roster r w) (λ bytes u. (length bytes ≡ 32) × (u ≡ w)) (λ _ _. ⊥)
roster_width r w v = rw (roster_lem r w v) (length-roster_of r w v, refl)
