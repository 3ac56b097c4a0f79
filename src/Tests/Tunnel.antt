-- ===== src/Tests/Tunnel.antt =====
-- Failover on a tree of three peers.
use encedo_wg_hsm.Common.{
  ℕ, suc, ◌≡◌, refl, List, [], ◌∷◌, Bytes, length, bytes_eq, if◌then◌else◌, Result, ok,
}
use encedo_wg_hsm.Config.Records.{ConfigPeer}
use encedo_wg_hsm.Descr.DecodePeer.{empty_peer}
use encedo_wg_hsm.Tunnel.Failover.{
  Await, handshook, silent, settled, gave_up, no_peer_answered, has_kid, first_untried, labels,
  walk_peers, hold,
}
use encedo_wg_hsm.Tunnel.FirstAnswer.{reached, in_order, hold-first_answer}

abbrev peer : ℕ → ConfigPeer
peer n = record { kid = n ∷ []; label = n ∷ n ∷ []; pub_key = n ∷ []; raw = []; peer = empty_peer }

abbrev tree : List ConfigPeer
tree = peer 1 ∷ peer 2 ∷ peer 3 ∷ []

-- Only the third peer answers.
abbrev third_answers : Bytes → Await
third_answers kid = if bytes_eq kid (3 ∷ []) then handshook else silent

abbrev usable : Bytes → Result ℕ (Unit {0})
usable kid = ok tt

hold_third : hold 4 third_answers usable tree (peer 2) [] ≡ settled (peer 3)
unfolding hold walk_peers first_untried has_kid bytes_eq
hold_third = refl

hold_nobody :
    hold 4 (λ kid. silent) usable tree (peer 2) []
    ≡ gave_up (no_peer_answered ((1 ∷ 1 ∷ []) ∷ (2 ∷ 2 ∷ []) ∷ (3 ∷ 3 ∷ []) ∷ []))
unfolding hold walk_peers first_untried has_kid bytes_eq labels
hold_nobody = refl

hold-first_answer_example :
    hold (suc (length tree)) third_answers usable tree (peer 2) []
    ≡ reached
        (third_answers ((peer 2).kid))
        (peer 2)
        (in_order third_answers usable tree (labels tree))
hold-first_answer_example = hold-first_answer third_answers usable tree (peer 2) refl
