-- ===== src/Tunnel/FirstAnswer.antt =====
-- internal/tunnel: where the loop of `hold` ends, beside one pass over the stored order.
use encedo_wg_hsm.Common.{
  ℕ, zero, suc, ◌≤◌, ◌<◌, ◌≡◌, refl, sym, ◌∙◌, true, Option, none, some, List, [], ◌∷◌, Bytes,
  length, bytes_eq, bytes_eq→eq, bytes_eq_refl, if◌then◌else◌, Result, ok, err, arith, Bool-cases,
  inl, inr,
}
use encedo_wg_hsm.Config.Records.{ConfigPeer}
use encedo_wg_hsm.Tunnel.Failover.{
  no_peer_answered, has_kid, first_untried, labels, walk_peers, Await, silent, Hold, settled, over,
  gave_up, unusable, hold,
}

-- How many peers are not tried yet.
unfoldable pub untried : List ConfigPeer → List Bytes → ℕ
untried [] tried = 0
untried (p ∷ ps) tried = if has_kid p.kid tried then untried ps tried else suc (untried ps tried)

pub untried-length : (ps : List ConfigPeer) (tried : List Bytes) → untried ps tried ≤ length ps
unfolding untried
untried-length [] tried = omega arith
untried-length (p ∷ ps) tried = ground (arith, untried-length ps tried)

untried-mark :
    (ps : List ConfigPeer) (k : Bytes) (tried : List Bytes)
    → untried ps (k ∷ tried) ≤ untried ps tried
unfolding untried has_kid
untried-mark [] k tried = omega arith
untried-mark (p ∷ ps) k tried = ground (arith, untried-mark ps k tried)

pub untried-first :
    (ps : List ConfigPeer) (tried : List Bytes) {q : ConfigPeer}
    → first_untried ps tried ≡ some q
    → untried ps (q.kid ∷ tried) < untried ps tried
unfolding untried first_untried has_kid
untried-first [] tried h = cc
untried-first (p ∷ ps) tried {q} h = elim (Bool-cases (has_kid p.kid tried)) [
  | inl e ↦
      let rest : first_untried ps tried ≡ some q = ground arith in
      ground (arith, untried-first ps tried rest)
  | inr e ↦
      let same : p ≡ q = ground arith in
      rw (← same) (ground (arith, untried-mark ps p.kid tried, bytes_eq_refl p.kid))
]

-- What the outcome should be, said without the peers tried: the peers in their stored order, each
-- put in use and waited for, the silent ones passed over.
abbrev pub reached : Await → ConfigPeer → Hold → Hold
reached Await.handshook p rest = settled p
reached Await.ended p rest = over
reached Await.silent p rest = rest

abbrev pub used : Result ℕ (Unit {0}) → Hold → Hold
used (err e) rest = unusable e
used (ok u) rest = rest

reached-twice :
    (a : Await) (p : ConfigPeer) (rest : Hold) → reached a p rest ≡ reached a p (reached a p rest)
reached-twice Await.handshook p rest = refl
reached-twice Await.ended p rest = refl
reached-twice Await.silent p rest = refl

module _ (await : Bytes → Await) (use_peer : Bytes → Result ℕ (Unit {0})) where
  unfoldable pub in_order : List ConfigPeer → List Bytes → Hold
  in_order [] names = gave_up (no_peer_answered names)
  in_order (p ∷ ps) names = used (use_peer p.kid) (reached (await p.kid) p (in_order ps names))

  -- The tried peers could be used and were silent.
  abbrev Quiet : List Bytes → Type 0
  Quiet tried = (k : Bytes) → has_kid k tried ≡ true → (await k ≡ silent) × (use_peer k ≡ ok tt)

  Quiet-mark :
      (k : Bytes) (tried : List Bytes)
      → await k ≡ silent
      → use_peer k ≡ ok tt
      → Quiet tried
      → Quiet (k ∷ tried)
  unfolding has_kid
  Quiet-mark k tried s u q k' h = elim (Bool-cases (bytes_eq k k')) [
    | inl e ↦ rw (← bytes_eq→eq k k' e) (s, u)
    | inr e ↦ q k' (ground arith)
  ]

  in_order-none :
      (ps : List ConfigPeer) (names tried : List Bytes)
      → Quiet tried
      → first_untried ps tried ≡ none
      → in_order ps names ≡ gave_up (no_peer_answered names)
  unfolding in_order first_untried
  in_order-none [] names tried q h = refl
  in_order-none (p ∷ ps) names tried q h = elim (Bool-cases (has_kid p.kid tried)) [
    | inl e ↦ let (s, u) = q p.kid e in rw (u, s) (in_order-none ps names tried q (ground arith))
    | inr e ↦ ground arith
  ]

  in_order-unusable :
      (ps : List ConfigPeer) (names tried : List Bytes) {next : ConfigPeer} {e : ℕ}
      → Quiet tried
      → first_untried ps tried ≡ some next
      → use_peer next.kid ≡ err e
      → in_order ps names ≡ unusable e
  unfolding in_order first_untried
  in_order-unusable [] names tried q h u = cc
  in_order-unusable (p ∷ ps) names tried {next} q h u = elim (Bool-cases (has_kid p.kid tried)) [
    | inl e ↦
        let (s, ready) = q p.kid e in
        let rest : first_untried ps tried ≡ some next = ground arith in
        rw (ready, s) (in_order-unusable ps names tried q rest u)
    | inr e ↦ let same : p ≡ next = ground arith in rw (same, u)
  ]

  in_order-reached :
      (ps : List ConfigPeer) (names tried : List Bytes) {next : ConfigPeer}
      → Quiet tried
      → first_untried ps tried ≡ some next
      → use_peer next.kid ≡ ok tt
      → in_order ps names ≡ reached (await next.kid) next (in_order ps names)
  unfolding in_order first_untried
  in_order-reached [] names tried q h u = cc
  in_order-reached (p ∷ ps) names tried {next} q h u = elim (Bool-cases (has_kid p.kid tried)) [
    | inl e ↦
        let (s, ready) = q p.kid e in
        let rest : first_untried ps tried ≡ some next = ground arith in
        rw (ready, s) (in_order-reached ps names tried q rest u)
    | inr e ↦
        let same : p ≡ next = ground arith in
        rw (same, u) (reached-twice (await next.kid) next (in_order ps names))
  ]

  -- What the later rounds do.
  abbrev Rest : ℕ → List ConfigPeer → List Bytes → Type 0
  Rest fuel peers tried =
      (next : ConfigPeer)
      → untried peers (next.kid ∷ tried) < fuel
      → Quiet tried
      → use_peer next.kid ≡ ok tt
      → hold fuel await use_peer peers next tried
        ≡ reached (await next.kid) next (in_order peers (labels peers))

  hold-in_order :
      (fuel : ℕ) (peers : List ConfigPeer) (p : ConfigPeer) (tried : List Bytes)
      → untried peers (p.kid ∷ tried) < fuel
      → Quiet tried
      → use_peer p.kid ≡ ok tt
      → hold fuel await use_peer peers p tried
        ≡ reached (await p.kid) p (in_order peers (labels peers))
  unfolding hold walk_peers
  hold-in_order zero peers p tried h q u = absurd (omega arith)
  hold-in_order (suc fuel) peers p tried h q u =
      by_await (λ next. hold-in_order fuel peers next (p.kid ∷ tried)) (await p.kid) refl
    where
      by_choice :
          Rest fuel peers (p.kid ∷ tried)
          → await p.kid ≡ silent
          → (found : Option ConfigPeer) → first_untried peers (p.kid ∷ tried) ≡ found
          → hold (suc fuel) await use_peer peers p tried ≡ in_order peers (labels peers)
      by_choice rest s none f =
          let q' = Quiet-mark p.kid tried s u q in
          rw (s, f, hold) (sym (in_order-none peers (labels peers) (p.kid ∷ tried) q' f))
      by_choice rest s (some next) f = by_use (use_peer next.kid) refl
        where
          by_use :
              (r : Result ℕ (Unit {0}))
              → use_peer next.kid ≡ r
              → hold (suc fuel) await use_peer peers p tried ≡ in_order peers (labels peers)
          by_use (err e) u' =
              let q' = Quiet-mark p.kid tried s u q in
              rw (s, f, u', hold)
                (sym (in_order-unusable peers (labels peers) (p.kid ∷ tried) q' f u'))
          by_use (ok done) u' =
              let q' = Quiet-mark p.kid tried s u q in
              let fewer = untried-first peers (p.kid ∷ tried) f in
              rw (s, f, u', hold)
                (rest next (omega arith) q' u'
                  ∙ sym (in_order-reached peers (labels peers) (p.kid ∷ tried) q' f u'))

      by_await :
          Rest fuel peers (p.kid ∷ tried)
          → (a : Await) → await p.kid ≡ a
          → hold (suc fuel) await use_peer peers p tried
            ≡ reached a p (in_order peers (labels peers))
      by_await rest Await.handshook a = rw (a, hold) refl
      by_await rest Await.ended a = rw (a, hold) refl
      by_await rest Await.silent a = by_choice rest a (first_untried peers (p.kid ∷ tried)) refl

  -- From a peer that is in use, with none tried before, the loop ends, after one round more than
  -- there are peers at most. It ends as a single pass would that waits for that peer and then, if
  -- it stays silent, uses and waits for the peers in their stored order, passing over the silent
  -- ones, and gives up with all their labels behind the last.
  pub hold-first_answer :
      (peers : List ConfigPeer) (p : ConfigPeer)
      → use_peer p.kid ≡ ok tt
      → hold (suc (length peers)) await use_peer peers p []
        ≡ reached (await p.kid) p (in_order peers (labels peers))
  hold-first_answer peers p u =
      hold-in_order (suc (length peers)) peers p []
        (omega (arith, untried-length peers (p.kid ∷ []))) nothing_tried u
    where
      nothing_tried : Quiet []
      nothing_tried = unfold has_kid in λ k h. cc
