-- ===== src/Relay/Listing.antt =====
-- `on_list` while the network keeps up.
use fujinet_intv_golf.Base.{
  ℕ, ◌≤◌, ◌≡◌, refl, sym, ap, ap₂, ◌∙◌, false, List, [], ◌∷◌, ◌++◌, Option, none, some, arith, ◌==◌,
  length,
}
use fujinet_intv_golf.Wire.{Bytes, t_lobby}
use fujinet_intv_golf.Relay.Outcome.{Ends}
use fujinet_intv_golf.Relay.World.{World, Os}
use fujinet_intv_golf.Relay.Output.{all_bytes, drop_client}
use fujinet_intv_golf.Relay.Frames.{framed, frame_lem, to_bytes_lem, pad_of}
use fujinet_intv_golf.Relay.Handlers.{status_in, listed, on_list}
use fujinet_intv_golf.Relay.Handles.Lobby.{
  entries_of, lobby_entries_lem, length-entries_of, listed-AllNamed, length-listed,
}
use fujinet_intv_golf.Relay.Invariant.{Inv}
use fujinet_intv_golf.Relay.Delivery.{KeepsUp, Told, apart, send-Told}

-- The LOBBY frame for a client: who else has a name, with the status of each.
abbrev pub lobby_frame : ℕ → World → Bytes
lobby_frame c w = framed t_lobby (length (listed c w) ∷ entries_of w (listed c w))

pub on_list-Told :
    (os : Os) (up : KeepsUp os) (c : ℕ) (w : World)
    → Inv w
    → (w.dead c ≡ false) × (w.tx c ≡ [])
    → Ends (on_list os c w) (λ _ u. Told w u (λ m. m == c) (λ _. lobby_frame c w)) (λ _ _. ⊥)
unfolding on_list all_bytes
on_list-Told os up c w v ready =
    let size : length (entries_of w (listed c w)) ≤ 72 =
      omega (arith, length-entries_of (listed c w) w v (listed-AllNamed c w), length-listed c w) in
    rw (to_bytes_lem (length (listed c w) ∷ []) w (ground (arith, length-listed c w))) (
      rw (lobby_entries_lem (listed c w) w v (listed-AllNamed c w)) (
        rw
          (frame_lem t_lobby (length (listed c w) ∷ entries_of w (listed c w)) w (omega arith)
            (omega arith))
          (send-Told os up (drop_client os) c _ _ w ready.0 ready.1 (omega arith))))

status_in-apart : (o : Option ℕ) (w : World) → status_in o (apart w) ≡ status_in o w
unfolding status_in
status_in-apart none w = refl
status_in-apart (some r) w = refl

entries_of-apart : (cs : List ℕ) (w : World) → entries_of (apart w) cs ≡ entries_of w cs
unfolding entries_of
entries_of-apart [] w = refl
entries_of-apart (c ∷ cs) w =
    ap₂ (λ mark rest. (pad_of (w.name c) ++ mark ∷ []) ++ rest) (status_in-apart (w.room c) w)
      (entries_of-apart cs w)

lobby_frame-apart : (c : ℕ) (w : World) → lobby_frame c (apart w) ≡ lobby_frame c w
unfolding listed
lobby_frame-apart c w =
    ap (λ rest. framed t_lobby (length (listed c w) ∷ rest)) (entries_of-apart (listed c w) w)

-- The frame does not depend on the sockets.
pub lobby_frame-same : (c : ℕ) (u w : World) → apart u ≡ apart w → lobby_frame c u ≡ lobby_frame c w
lobby_frame-same c u w e =
    (sym (lobby_frame-apart c u) ∙ ap (lobby_frame c) e) ∙ lobby_frame-apart c w
