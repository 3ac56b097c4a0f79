-- ===== src/Tests/Daemon.antt =====
-- One tunnel, claimed and opened by one user; and what can come between the two reads of a refresh.
use encedo_wg_hsm.Common.{ℕ, ◌≡◌, refl, true, false, none, some, List, [], ◌∷◌, bytes_eq, ok}
use encedo_wg_hsm.Daemon.Server.{
  Build, build_matches, Op, Request, Principal, claim, opened, clear, stop_tunnel, refresh_check,
  refresh_target, World, Step, Reachable,
}
use encedo_wg_hsm.Daemon.OneTunnel.{
  IsConsistent, Reachable-IsConsistent, stop_tunnel-owner, refresh_target-owner,
}

abbrev build : Build
build = record { release = 49 ∷ []; descr = 128 }

abbrev alice : Principal
alice = 1 ∷ []

abbrev bob : Principal
bob = 2 ∷ []

abbrev request : Request
request = record {
  op = Op.start;
  build = build;
  hem_url = 104 ∷ [];
  identity = 105 ∷ [];
  peer = [];
  token = 116 ∷ [];
}

abbrev up : Principal → ℕ → List ℕ → World
up who ctx cancelled = record {
  server = record { running = true; owner = who; cancel = some ctx; tun = some ctx };
  live = record { ctx = ctx; owner = who } ∷ [];
  cancelled = cancelled;
}

abbrev down : Principal → List ℕ → World
down who cancelled = record {
  server = record { running = false; owner = who; cancel = none; tun = none };
  live = [];
  cancelled = cancelled;
}

alice-up-Reachable : Reachable build (up alice 1 [])
unfolding claim build_matches bytes_eq opened
alice-up-Reachable =
    Reachable.after (Reachable.after Reachable.at_start (Step.claims alice request 1 refl))
      (Step.opens [] [] (record { ctx = 1; owner = alice }) refl)

Reachable-IsConsistent_example : IsConsistent (up alice 1 [])
Reachable-IsConsistent_example = Reachable-IsConsistent build alice-up-Reachable

stop_alice : stop_tunnel alice ((up alice 1 []).server) ≡ some 1
unfolding stop_tunnel bytes_eq
stop_alice = refl

stop_tunnel-owner_example : (up alice 1 []).live ≡ record { ctx = 1; owner = alice } ∷ []
stop_tunnel-owner_example = stop_tunnel-owner build alice alice-up-Reachable stop_alice

check_alice : refresh_check alice ((up alice 1 []).server) ≡ ok tt
unfolding refresh_check bytes_eq
check_alice = refl

target_alice : refresh_target ((up alice 1 []).server) ≡ ok 1
unfolding refresh_target
target_alice = refl

refresh_target-owner_example : (up alice 1 []).live ≡ record { ctx = 1; owner = alice } ∷ []
refresh_target-owner_example =
    refresh_target-owner build alice alice-up-Reachable check_alice target_alice

-- After the check for the first user, her tunnel ends and the second user's is claimed and opened:
-- the second read then finds his.
bob-up-Reachable : Reachable build (up bob 2 (1 ∷ []))
unfolding claim build_matches bytes_eq opened clear
bob-up-Reachable =
    Reachable.after
      (Reachable.after
        (Reachable.after alice-up-Reachable
          (Step.ends [] [] (record { ctx = 1; owner = alice }) refl))
        (Step.claims bob request 2 refl))
      (Step.opens [] [] (record { ctx = 2; owner = bob }) refl)

target_bob : refresh_target ((up bob 2 (1 ∷ [])).server) ≡ ok 2
unfolding refresh_target
target_bob = refl
