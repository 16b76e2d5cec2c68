-- ===== src/Clients/Sim/Statuses.antt =====
-- About `lobby_status`: it reads the LOBBY frame that the server writes.
use fujinet_intv_golf.Base.{
  ℕ, suc, ◌≡◌, refl, ap, ap₂, ◌∙◌, subst, true, List, [], ◌∷◌, ◌++◌, map, Option, none, some, arith,
  if◌then◌else◌, same, length, length-append, take, drop, get_elem?, All, take-append_self,
  drop-append_self, Bool-cases, inl, inr,
}
use fujinet_intv_golf.Wire.{Bytes, Text, is_valid_name, is_ascii, ljust8}
use fujinet_intv_golf.Relay.Outcome.{returned}
use fujinet_intv_golf.Relay.World.{World}
use fujinet_intv_golf.Relay.Handlers.{status, listed, lobby_entries}
use fujinet_intv_golf.Relay.Invariant.{Inv}
use fujinet_intv_golf.Relay.Frames.{pad_of, length-ljust8}
use fujinet_intv_golf.Relay.Handles.Hello.{is_valid_name-is_ascii}
use fujinet_intv_golf.Relay.Handles.Lobby.{entries_of, lobby_entries_lem, listed-AllNamed}
use fujinet_intv_golf.Clients.Sim.{
  strip_zeros, names_match, status_or_next, status_from, lobby_status,
}
use fujinet_intv_golf.Clients.Sim.Names.{strip_zeros-ljust8, take-ljust8}

-- An entry: a padded name and a status.
abbrev entry : Text → ℕ → Bytes
entry t mark = ljust8 t ++ mark ∷ []

length-entry : (t : Text) (mark : ℕ) → length (entry t mark) ≡ 9
length-entry t mark = omega (arith, length-append (ljust8 t) (mark ∷ []), length-ljust8 t)

take-entry : (t : Text) (mark : ℕ) (rest : Bytes) → take 9 (entry t mark ++ rest) ≡ entry t mark
take-entry t mark rest =
    subst (λ n. take n (entry t mark ++ rest) ≡ entry t mark) (length-entry t mark)
      (take-append_self (entry t mark) rest)

drop-entry : (t : Text) (mark : ℕ) (rest : Bytes) → drop 9 (entry t mark ++ rest) ≡ rest
drop-entry t mark rest =
    subst (λ n. drop n (entry t mark ++ rest) ≡ rest) (length-entry t mark)
      (drop-append_self (entry t mark) rest)

get_elem?-append_self : (xs ys : Bytes) → get_elem? (xs ++ ys) (length xs) ≡ get_elem? ys 0
get_elem?-append_self [] ys = refl
get_elem?-append_self (x ∷ xs) ys = get_elem?-append_self xs ys

get_elem?-entry : (t : Text) (mark : ℕ) → get_elem? (entry t mark) 8 ≡ some mark
get_elem?-entry t mark =
    subst (λ n. get_elem? (entry t mark) n ≡ some mark) (length-ljust8 t)
      (get_elem?-append_self (ljust8 t) (mark ∷ []))

-- The status of the first client of a name.
unfoldable pub first_status : World → Text → List ℕ → List Text → Option ℕ
first_status w name [] ts = none
first_status w name (c ∷ cs) [] = none
first_status w name (c ∷ cs) (t ∷ ts) =
    if same t name then some (status c w) else first_status w name cs ts

module _ (decode : Bytes → Option Text)
    (decode-ascii : (s : Bytes) → is_ascii s ≡ true → decode s ≡ some s) where
  decode-entry :
      (t : Text) (mark : ℕ) (rest : Bytes)
      → is_valid_name t ≡ true
      → decode (strip_zeros (take 8 (take 9 (entry t mark ++ rest)))) ≡ some t
  decode-entry t mark rest h =
      ap (λ e. decode (strip_zeros (take 8 e))) (take-entry t mark rest)
      ∙ (ap (λ s. decode (strip_zeros s)) (take-ljust8 t (mark ∷ []))
          ∙ (ap decode (strip_zeros-ljust8 t h) ∙ decode-ascii t (is_valid_name-is_ascii t h)))

  status_from-entry :
      (n : ℕ) (name t : Text) (mark : ℕ) (rest : Bytes)
      → is_valid_name t ≡ true
      → status_from decode (suc n) name (entry t mark ++ rest)
        ≡ (if same t name then some (some mark) else status_from decode n name rest)
  unfolding status_from names_match status_or_next
  status_from-entry n name t mark rest h =
      let named = decode-entry t mark rest h in
      let marked : get_elem? (take 9 (entry t mark ++ rest)) 8 ≡ some mark =
        ap (λ e. get_elem? e 8) (take-entry t mark rest) ∙ get_elem?-entry t mark in
      let left = ap (status_from decode n name) (drop-entry t mark rest) in
      ap₂
        (λ o m.
          status_or_next (names_match name o) m
            (status_from decode n name (drop 9 (entry t mark ++ rest))))
        named marked
      ∙ (ap (status_or_next (some (same t name)) (some mark)) left
          ∙ (elim (Bool-cases (same t name)) [ inl e ↦ rw e refl | inr e ↦ rw e refl ]))

  status_from-entries :
      (w : World) (name : Text) (cs : List ℕ) (ts : List Text)
      → map w.name cs ≡ map some ts
      → All (λ t. is_valid_name t ≡ true) ts
      → status_from decode (length cs) name (entries_of w cs) ≡ some (first_status w name cs ts)
  unfolding status_from entries_of first_status
  status_from-entries w name [] ts e h = refl
  status_from-entries w name (c ∷ cs) [] e h = absurd (cc)
  status_from-entries w name (c ∷ cs) (t ∷ ts) e h =
      let named : w.name c ≡ some t = cc in
      let others : map w.name cs ≡ map some ts = cc in
      let rest = status_from-entries w name cs ts others h.1 in
      ap
        (λ o.
          status_from decode (suc (length cs)) name
            ((pad_of o ++ status c w ∷ []) ++ entries_of w cs))
        named
      ∙ (status_from-entry (length cs) name t (status c w) (entries_of w cs) h.0
          ∙ (elim (Bool-cases (same t name)) [ inl f ↦ rw f refl | inr f ↦ rw f rest ]))

-- In every state that satisfies Inv, if the clients that a client sees in its lobby have valid names,
-- then the entries of its LOBBY frame are made, and from them, after their number, `lobby_status`
-- reads the status of the first of these clients that has the name that is asked for, and none if no
-- client has it; whatever `decode` does with bytes that are not ASCII.
pub lobby_status-lobby_entries :
    (decode : Bytes → Option Text) (c : ℕ) (w : World) (name : Text) (ts : List Text)
    → ((s : Bytes) → is_ascii s ≡ true → decode s ≡ some s)
    → Inv w
    → map w.name (listed c w) ≡ map some ts
    → All (λ t. is_valid_name t ≡ true) ts
    → (entries : Bytes) × (lobby_entries (listed c w) w ≡ returned entries w)
      × (lobby_status decode (length (listed c w) ∷ entries) name
          ≡ some (first_status w name (listed c w) ts))
unfolding lobby_status
lobby_status-lobby_entries decode c w name ts ascii v named valid = (
  entries_of w (listed c w),
  lobby_entries_lem (listed c w) w v (listed-AllNamed c w),
  status_from-entries decode ascii w name (listed c w) ts named valid,
)
