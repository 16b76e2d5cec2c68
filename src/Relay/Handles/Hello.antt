-- ===== src/Relay/Handles/Hello.antt =====
-- `on_hello`: names stay unique owners of their entries through renames and evictions.
use mathlib.Core.Option
use fujinet_intv_golf.Base.{
  ℕ, ◌<◌, ◌≡◌, ◌⊎◌, refl, subst, true, not, ◌&&◌, [], ◌∷◌, Option, none, some, arith, leb, ◌==◌,
  ==-eq, same, same_iff, length, drop, Bool-cases, Option-cases, inl, inr, &&-true, sym,
}
use fujinet_intv_golf.Base.Assoc.{
  lookup, erase_key, lookup-insert, lookup-erase_key, Unique, insert-Unique, keep_if-Unique,
}
use fujinet_intv_golf.Wire.{Bytes, Text, is_valid_name, is_ascii, all_name_chars, proto_ver}
use fujinet_intv_golf.Relay.World.{World, Os}
use fujinet_intv_golf.Relay.Output.{publish}
use fujinet_intv_golf.Relay.Crc.{byte_at}
use fujinet_intv_golf.Relay.Handlers.{
  is_client, stale_alias, rename, replace_old, on_hello, wire_name,
}
use fujinet_intv_golf.Relay.Invariant.{RoomsOk, NamesOk, UnusedOk, Inv}
use fujinet_intv_golf.Relay.Settles.{Settles, Settles-returned}
use fujinet_intv_golf.Relay.Settles.Steps.{publish-LobbyOk}
use fujinet_intv_golf.Relay.Settles.Drop.{drop_client-Settles}
use fujinet_intv_golf.Relay.Handles.{
  Kept, Kept-refl, Handles, Handles-from, Handles-of-Settles, Settles-then,
}
use fujinet_intv_golf.Relay.Handles.Lobby.{on_list-Settles}

all_name_chars-is_ascii : (n : Text) → all_name_chars n ≡ true → is_ascii n ≡ true
unfolding all_name_chars is_ascii
all_name_chars-is_ascii [] h = refl
all_name_chars-is_ascii (c ∷ cs) h = ground (arith, all_name_chars-is_ascii cs)

pub is_valid_name-is_ascii : (n : Text) → is_valid_name n ≡ true → is_ascii n ≡ true
unfolding is_valid_name
is_valid_name-is_ascii n h = all_name_chars-is_ascii n (&&-true _ (all_name_chars n) h).1

-- Once the old alias is gone, no entry leads to a client that had another name.
stale_alias-owner :
    (c d : ℕ) (n k : Text) (w : World)
    → NamesOk w.name w.by_name
    → lookup k (stale_alias c n w) ≡ some d
    → (w.name d ≡ some k) × (d ≡ c → k ≡ n)
stale_alias-owner c d n k w v e = elim (Option-cases (w.name c)) [
  | inl f ↦ ground (arith, v.owner k d)
  | inr (old, f) ↦ ground (
    arith,
    v.owner k d,
    v.owner old d,
    lookup-erase_key old k w.by_name,
    same_iff old n,
    same_iff old k,
  )
]

stale_alias_cases :
    (c : ℕ) (n : Text) (w : World)
    → (stale_alias c n w ≡ w.by_name) ⊎ ((k : Text) × (stale_alias c n w ≡ erase_key k w.by_name))
stale_alias_cases c n w = elim (Option-cases (w.name c)) [
  | inl e ↦ inl (ground arith)
  | inr (old, e) ↦ elim (Bool-cases (not (same old n) && is_client (lookup old w.by_name) c)) [
    | inl f ↦ inr (old, ground arith)
    | inr f ↦ inl (ground arith)
  ]
]

stale_alias-Unique : (c : ℕ) (n : Text) (w : World) → Unique w.by_name → Unique (stale_alias c n w)
stale_alias-Unique c n w u = elim (stale_alias_cases c n w) [
  | inl e ↦ subst (λ d. Unique d) (sym e) u
  | inr (k, e) ↦ subst (λ d. Unique d) (sym e) (keep_if-Unique _ w.by_name u)
]

-- A rename with the publication that follows it.
abbrev pub renamed : World → ℕ → Text → World
renamed w c n = record (rename c n w) {
  lobby = Option.map (publish (length (rename c n w).by_name)) w.lobby;
}

module _ (w : World) (c : ℕ) (n : Text) (v : Inv w) (valid : is_ascii n ≡ true) where
  rename-NamesOk : NamesOk (rename c n w).name (rename c n w).by_name
  rename-NamesOk = record {
    ascii = λ d k e. ground (arith, v.names.ascii d k);
    owner = λ k d e. ground (
      arith,
      lookup-insert n k c (stale_alias c n w),
      stale_alias-owner c d n k w v.names,
      same_iff n k,
      ==-eq d c,
    );
    unique = insert-Unique n c (stale_alias c n w) (stale_alias-Unique c n w v.names.unique);
  }

  rename-RoomsOk : RoomsOk w.room w.members (rename c n w).name w.next_room
  rename-RoomsOk = record {
    joined = v.rooms.joined;
    loyal = v.rooms.loyal;
    distinct = v.rooms.distinct;
    seats = v.rooms.seats;
    named = λ d r h. ground (arith, v.rooms.named d r);
    unused = v.rooms.unused;
  }

  rename-UnusedOk : c < w.next_client → UnusedOk w.dead w.room (rename c n w).name w.next_client
  rename-UnusedOk known = record {
    no_life = v.unused.no_life;
    no_room = v.unused.no_room;
    no_name = λ d h. ground (arith, v.unused.no_name d);
  }

  pub rename-Inv : c < w.next_client → Inv (renamed w c n)
  rename-Inv known = record {
    rooms = rename-RoomsOk;
    names = rename-NamesOk;
    clients = v.clients;
    unused = rename-UnusedOk known;
    backlog = v.backlog;
    crc = v.crc;
    lobby = publish-LobbyOk w.lobby (rename c n w).by_name;
  }

  rename-Kept : Kept w (renamed w c n)
  rename-Kept = record { same_rx = refl; same_next = refl; same_delay = refl }

replace_old-Settles :
    (os : Os) (c : ℕ) (o : Option ℕ) (w : World) → Inv w → Settles w (replace_old os c o w)
unfolding replace_old
replace_old-Settles os c none w v = Settles-returned tt w v
replace_old-Settles os c (some old) w v = elim (Bool-cases (old == c)) [
  | inl e ↦ rw e (Settles-returned tt w v)
  | inr e ↦ rw e (drop_client-Settles os old w v)
]

pub on_hello-Handles :
    (os : Os) (c : ℕ) (payload : Bytes) (w : World)
    → Inv w
    → c < w.next_client
    → Handles w (on_hello os c payload w)
unfolding on_hello
on_hello-Handles os c payload w v known = elim (Bool-cases (leb 3 (length payload))) [
  | inr e ↦ rw e (tt, v, Kept-refl w)
  | inl e ↦ rw e (elim (Bool-cases (byte_at 0 payload == proto_ver)) [
    | inr f ↦ rw f (tt, v, Kept-refl w)
    | inl f ↦ rw f (elim (Bool-cases (is_valid_name (wire_name (drop 1 payload)))) [
      | inr g ↦ rw g (tt, v, Kept-refl w)
      | inl g ↦ rw g (
          Settles-then w (replace_old os c (lookup (wire_name (drop 1 payload)) w.by_name) w) _
            (replace_old-Settles os c _ w v)
            λ _ u vu ev.
              Handles-from u _ _
                (rename-Kept u c (wire_name (drop 1 payload)) vu (is_valid_name-is_ascii _ g))
                (Handles-of-Settles _ _ (
                  on_list-Settles os c _ (
                    rename-Inv u c (wire_name (drop 1 payload)) vu (is_valid_name-is_ascii _ g)
                      (omega (arith, ev.same_next))))))
    ])
  ])
]
