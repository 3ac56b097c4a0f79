-- ===== src/Tests/Life.antt =====
-- A tunnel whose first peer stays silent, and one whose device does not come up.
use encedo_wg_hsm.Common.{
  codes, ℕ, ◌≡◌, refl, true, [], bytes_eq, length, if◌then◌else◌, Result, ok, err, ◌==◌,
}
use encedo_wg_hsm.Config.Load.{mtu_of}
use encedo_wg_hsm.Tunnel.Failover.{Await}
use encedo_wg_hsm.Tunnel.System.{Sys, device_up, System, Opts, Tunnel, not_up}
use encedo_wg_hsm.Tunnel.Life.{
  new_tunnel, open_device, ask, ask_create, run_tunnel, walk_next, walking,
}
use encedo_wg_hsm.Tunnel.Held.{is_open}
use encedo_wg_hsm.Tunnel.Cleared.{IsCleared, run_tunnel-IsCleared}
use encedo_wg_hsm.Tunnel.Fuel.{IsFinished, run_tunnel-IsFinished}
use encedo_wg_hsm.Tests.Config.{device, tree, loaded_peer, five}
use encedo_wg_hsm.Tests.Runtime.{names, table}

abbrev system : System
system = record {
  on_create = λ log name mtu. ok (codes "utun4");
  on_call = λ log c. ok tt;
  await = λ log. if length log == 9 then Await.silent else Await.ended;
}

abbrev opts : Opts
opts = record {
  hem = device;
  tree = tree;
  use_tok = codes "token";
  hem_url = codes "https://hem.example";
  ifname = codes "wg0";
  names = names;
  table = table;
  formats = record { decimal = λ n. codes "51820"; addr_port = λ a n. [] };
  select_next = λ log failed. walk_next tree.peers failed;
  system = system;
}

abbrev opened : Tunnel
opened = (open_device opts (new_tunnel opts)).1

device_opens : open_device opts (new_tunnel opts) ≡ (ok tt, opened)
unfolding open_device ask ask_create mtu_of bytes_eq
device_opens = refl

run_tunnel-IsCleared_example : IsCleared opts (run_tunnel opts 3 (loaded_peer five 5)).1
run_tunnel-IsCleared_example = run_tunnel-IsCleared opts 3 (loaded_peer five 5) opened device_opens

run_tunnel-IsFinished_example : IsFinished opts (run_tunnel (walking opts) 3 (loaded_peer five 5))
run_tunnel-IsFinished_example = run_tunnel-IsFinished opts (loaded_peer five 5)

-- The same system, but for a device that does not come up.
abbrev is_up_call : Sys → Result ℕ (Unit {0})
is_up_call device_up = err 1
is_up_call _ = ok tt

abbrev failing : Opts
failing = record opts { system = record system { on_call = λ log c. is_up_call c } }

-- The device that was created is left open.
left_open :
    (is_open failing (run_tunnel failing 3 (loaded_peer five 5)).1.calls ≡ true)
    × ((run_tunnel failing 3 (loaded_peer five 5)).0 ≡ err (not_up 1))
unfolding run_tunnel open_device ask ask_create mtu_of bytes_eq
left_open = (refl, refl)
