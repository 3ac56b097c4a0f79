-- ===== src/Tunnel/Failover.antt =====
-- internal/tunnel/failover.go: `WalkPeers`; and the loop of `hold` of internal/tunnel/tunnel.go,
-- which asks it for another peer when the present one stays silent. What a peer answers within the
-- timeout, and whether the interface can be pointed at it, are parameters.
use encedo_wg_hsm.Common.{
  ℕ, zero, suc, Bool, false, ◌||◌, Option, none, some, List, [], ◌∷◌, Bytes, bytes_eq,
  if◌then◌else◌, Result, ok, err,
}
use encedo_wg_hsm.Config.Records.{ConfigPeer}

-- The failure of kind network, with the labels that its message lists.
pub data FailoverError : Type 0 where
  no_peer_answered : List Bytes → FailoverError

-- `tried[kid]`, the map as the list of its keys.
unfoldable pub has_kid : Bytes → List Bytes → Bool
has_kid kid [] = false
has_kid kid (k ∷ ks) = bytes_eq k kid || has_kid kid ks

-- The loop over the peers in their stored order.
unfoldable pub first_untried : List ConfigPeer → List Bytes → Option ConfigPeer
first_untried [] tried = none
first_untried (p ∷ ps) tried = if has_kid p.kid tried then first_untried ps tried else some p

-- The loop that collects the labels.
unfoldable pub labels : List ConfigPeer → List Bytes
labels [] = []
labels (p ∷ ps) = p.label ∷ labels ps

-- What one call of the closure returns, with the variable it closes over.
pub record Choice : Type 0 where
  pub tried : List Bytes
  pub answer : Result FailoverError ConfigPeer

abbrev pub mark_tried : Option ConfigPeer → List Bytes → List Bytes
mark_tried none tried = tried
mark_tried (some p) tried = p.kid ∷ tried

abbrev pub answer_of : List ConfigPeer → Option ConfigPeer → Result FailoverError ConfigPeer
answer_of peers (some p) = ok p
answer_of peers none = err (no_peer_answered (labels peers))

-- One call of the function that `WalkPeers` returns.
unfoldable pub walk_peers : List ConfigPeer → Option ConfigPeer → List Bytes → Choice
walk_peers peers failed tried = record {
  tried = mark_tried failed tried;
  answer = answer_of peers (first_untried peers (mark_tried failed tried));
}

-- How the wait for a peer's handshake goes: it comes, the timeout passes, or the tunnel ends.
pub data Await : Type 0 where
  handshook silent ended : Await

-- How the loop ends; `unusable` carries what `usePeer` returned.
pub data Hold : Type 0 where
  settled : ConfigPeer → Hold
  over : Hold
  gave_up : FailoverError → Hold
  unusable : ℕ → Hold
  no_fuel : Hold

-- The loop of `hold`, with `WalkPeers` as `SelectNext`: the peer in use and the peers tried.
unfoldable pub hold :
    ℕ
    → (Bytes → Await)
    → (Bytes → Result ℕ (Unit {0}))
    → List ConfigPeer
    → ConfigPeer
    → List Bytes
    → Hold
hold zero await use_peer peers p tried = no_fuel
hold (suc fuel) await use_peer peers p tried =
    let choice = walk_peers peers (some p) tried in
    elim (await p.kid) [
      | Await.handshook ↦ settled p
      | Await.ended ↦ over
      | Await.silent ↦ elim choice.answer [
        | err e ↦ gave_up e
        | ok next ↦ elim (use_peer next.kid) [
          | err e ↦ unusable e
          | ok u ↦ hold fuel await use_peer peers next choice.tried
        ]
      ]
    ]
