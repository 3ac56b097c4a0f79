-- ===== src/Daemon/OneTunnel.antt =====
-- internal/daemon: the worlds that the steps of the server reach, and who may stop or refresh.
use encedo_wg_hsm.Common.{
  ℕ, ◌≡◌, refl, sym, ap, ◌∙◌, true, false, none, some, List, [], ◌∷◌, ◌++◌, bytes_eq→eq, ok, arith,
  inl, inr, ◌⊎◌,
}
use encedo_wg_hsm.Daemon.Server.{
  Build, Request, Principal, Server, claim, opened, clear, stop_tunnel, refresh_check,
  refresh_target, Session, World, Step, Reachable,
}

-- The server names the one live session, or nothing is running, and then it holds no context and no
-- tunnel; the owner that it records is read only while a session runs.
pub record IsFree (w : World) : Type 0 where
  pub running : w.server.running ≡ false
  pub cancel : w.server.cancel ≡ none
  pub live : w.live ≡ []

pub record IsHeld (w : World) (x : Session) : Type 0 where
  pub running : w.server.running ≡ true
  pub owner : w.server.owner ≡ x.owner
  pub cancel : w.server.cancel ≡ some x.ctx
  pub tun : (w.server.tun ≡ none) ⊎ (w.server.tun ≡ some x.ctx)
  pub live : w.live ≡ x ∷ []

abbrev pub IsConsistent : World → Type 0
IsConsistent w = (IsFree w × (w.server.tun ≡ none)) ⊎ ((x : Session) × IsHeld w x)

one_of_one :
    (xs ys : List Session) (x y : Session) → y ∷ [] ≡ xs ++ (x ∷ ys) → (x ≡ y) × (xs ++ ys ≡ [])
one_of_one [] [] x y e = (cc, refl)
one_of_one [] (z ∷ zs) x y e = cc
one_of_one (z ∷ []) ys x y e = cc
one_of_one (z ∷ z' ∷ zs) ys x y e = cc

none_of_none : (xs ys : List Session) (x : Session) → [] ≡ xs ++ (x ∷ ys) → ¬ Unit {0}
none_of_none [] ys x e u = cc
none_of_none (z ∷ zs) ys x e u = cc

claim-eq-ok :
    (build : Build) (ctx : ℕ) (who : Principal) (req : Request) (s : Server) {s' : Server}
    → claim build ctx who req s ≡ ok s'
    → (s.running ≡ false) × (s' ≡ record s { running = true; owner = who; cancel = some ctx })
unfolding claim
claim-eq-ok build ctx who req s h = (ground arith, ground arith)

stop_tunnel-some :
    (who : Principal) (s : Server) {ctx : ℕ}
    → stop_tunnel who s ≡ some ctx
    → (s.running ≡ true) × (s.owner ≡ who) × (s.cancel ≡ some ctx)
unfolding stop_tunnel
stop_tunnel-some who s h = (ground arith, bytes_eq→eq s.owner who (ground arith), ground arith)

Step-IsConsistent :
    (build : Build) {w w' : World} → Step build w w' → IsConsistent w → IsConsistent w'
Step-IsConsistent build (Step.claims who req ctx {w} {s} h) (inl free) =
    let (_, same) = claim-eq-ok build ctx who req w.server h in
    inr (
      record { ctx = ctx; owner = who },
      record {
        running = rw same refl;
        owner = rw same refl;
        cancel = rw same refl;
        tun = inl (rw same free.1);
        live = ap (◌∷◌ (record { ctx = ctx; owner = who })) free.0.live;
      },
    )
Step-IsConsistent build (Step.claims who req ctx {w} {s} h) (inr held) =
    let (unclaimed, _) = claim-eq-ok build ctx who req w.server h in let busy = held.1.running in cc
Step-IsConsistent build (Step.opens xs ys x {w} e) (inl free) =
    absurd (none_of_none xs ys x (sym free.0.live ∙ e) tt)
Step-IsConsistent build (Step.opens xs ys x {w} e) (inr (y, held)) =
    let (same, _) = one_of_one xs ys x y (sym held.live ∙ e) in
    unfold opened in
    inr (
      y,
      record {
        running = held.running;
        owner = held.owner;
        cancel = held.cancel;
        tun = inr (ap (λ (z : Session). some z.ctx) same);
        live = held.live;
      },
    )
Step-IsConsistent build (Step.ends xs ys x {w} e) (inl free) =
    absurd (none_of_none xs ys x (sym free.0.live ∙ e) tt)
Step-IsConsistent build (Step.ends xs ys x {w} e) (inr (y, held)) =
    let (_, rest) = one_of_one xs ys x y (sym held.live ∙ e) in
    unfold clear in inl (record { running = refl; cancel = refl; live = rest }, refl)
Step-IsConsistent build (Step.stops who ctx h) (inl free) =
    inl (record { running = free.0.running; cancel = free.0.cancel; live = free.0.live }, free.1)
Step-IsConsistent build (Step.stops who ctx h) (inr (y, held)) = inr (
  y,
  record {
    running = held.running;
    owner = held.owner;
    cancel = held.cancel;
    tun = held.tun;
    live = held.live;
  },
)

-- In every world that the connections and tunnels can reach, in any order of their steps, either
-- no session is live, and the server is marked as not running and records no context to cancel and no
-- tunnel (the owner of the last session may still stand there); or one session is live, and the server
-- is marked as running and records its owner, its context, and as tunnel either none yet or its own.
pub Reachable-IsConsistent : (build : Build) {w : World} → Reachable build w → IsConsistent w
Reachable-IsConsistent build Reachable.at_start =
    inl (record { running = refl; cancel = refl; live = refl }, refl)
Reachable-IsConsistent build (Reachable.after r step) =
    Step-IsConsistent build step (Reachable-IsConsistent build r)

-- In a reachable world, a `stop` that cancels a context cancels that of the one live session, and
-- the caller is the principal who started it.
pub stop_tunnel-owner :
    (build : Build) {w : World} (who : Principal) {ctx : ℕ}
    → Reachable build w
    → stop_tunnel who w.server ≡ some ctx
    → w.live ≡ record { ctx = ctx; owner = who } ∷ []
stop_tunnel-owner build {w} who {ctx} r h = by_state (Reachable-IsConsistent build r)
  where
    by_state : IsConsistent w → w.live ≡ record { ctx = ctx; owner = who } ∷ []
    by_state (inl free) =
        let (busy, _, _) = stop_tunnel-some who w.server h in let unclaimed = free.0.running in cc
    by_state (inr (x, held)) =
        let (_, owner, cancel) = stop_tunnel-some who w.server h in
        let named : some x.ctx ≡ some ctx = sym held.cancel ∙ cancel in
        let same : x.ctx ≡ ctx = cc in
        let mine : x.owner ≡ who = sym held.owner ∙ owner in
        held.live ∙ (λ i. record { ctx = same i; owner = mine i } ∷ [])

refresh_check-eq-ok :
    (who : Principal) (s : Server)
    → refresh_check who s ≡ ok tt
    → (s.running ≡ true) × (s.owner ≡ who)
unfolding refresh_check
refresh_check-eq-ok who s h = (ground arith, bytes_eq→eq s.owner who (ground arith))

-- In a reachable world, a `refresh` whose two reads see the same state, and that is not refused,
-- gives the token to the tunnel of the one live session, and the caller is the principal who
-- started it.
pub refresh_target-owner :
    (build : Build) {w : World} (who : Principal) {t : ℕ}
    → Reachable build w
    → refresh_check who w.server ≡ ok tt
    → refresh_target w.server ≡ ok t
    → w.live ≡ record { ctx = t; owner = who } ∷ []
unfolding refresh_target
refresh_target-owner build {w} who {t} r c h = by_state (Reachable-IsConsistent build r)
  where
    target : w.server.tun ≡ some t
    target = ground arith

    by_tunnel : (x : Session) → (w.server.tun ≡ none) ⊎ (w.server.tun ≡ some x.ctx) → x.ctx ≡ t
    by_tunnel x (inl e) = let there = target in cc
    by_tunnel x (inr e) = let named : some x.ctx ≡ some t = sym e ∙ target in cc

    by_state : IsConsistent w → w.live ≡ record { ctx = t; owner = who } ∷ []
    by_state (inl free) =
        let (busy, _) = refresh_check-eq-ok who w.server c in let unclaimed = free.0.running in cc
    by_state (inr (x, held)) =
        let (_, owner) = refresh_check-eq-ok who w.server c in
        let same : x.ctx ≡ t = by_tunnel x held.tun in
        let mine : x.owner ≡ who = sym held.owner ∙ owner in
        held.live ∙ (λ i. record { ctx = same i; owner = mine i } ∷ [])
